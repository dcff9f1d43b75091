-- ===== src/UseCase/ComplexCourseware/Tables.antt =====
-- complex-courseware.hpp: the steps on one table that its updates are made of.
use optimistic_replication.Prelude.{
  ℕ, false, ◌||◌, Option, none, some, PairSet, if◌then◌else◌, ◌==◌,
}
use optimistic_replication.UseCase.ComplexCourseware.{ComplexState}

-- `m[k] = v` and `m.erase(k)`
unfoldable pub put {ℓ} : {A : Type ℓ} → ℕ → A → (ℕ → Option A) → ℕ → Option A
put k v m x = if x == k then some v else m x

unfoldable pub erase_key {ℓ} : {A : Type ℓ} → ℕ → (ℕ → Option A) → ℕ → Option A
erase_key k m x = if x == k then none else m x

-- The loops that erase the pairs with a given first, or second, number.
unfoldable pub erase_first : ℕ → PairSet → PairSet
erase_first k e x y = if x == k then false else e x y

unfoldable pub erase_second : ℕ → PairSet → PairSet
erase_second k e x y = if y == k then false else e x y

-- The loops that build a set with one number in place of another.
unfoldable pub rename_first : ℕ → ℕ → PairSet → PairSet
rename_first old_id new_id e x y =
    if x == new_id then e old_id y || e new_id y else if x == old_id then false else e x y

unfoldable pub rename_second : ℕ → ℕ → PairSet → PairSet
rename_second old_id new_id e x y =
    if y == new_id then e x old_id || e x new_id else if y == old_id then false else e x y

-- A row moves from one key to another, if it is there.
unfoldable pub move_row {ℓ} : {A : Type ℓ} → ℕ → ℕ → (ℕ → Option A) → ℕ → Option A
unfolding put erase_key
move_row old_id new_id m = elim (m old_id) [
  | none ↦ m
  | some row ↦ put new_id row (erase_key old_id m)
]

-- A row is changed in place, if it is there.
unfoldable pub change_row {ℓ} : {A : Type ℓ} → ℕ → (A → A) → (ℕ → Option A) → ℕ → Option A
unfolding put
change_row k f m = elim (m k) [ none ↦ m | some row ↦ put k (f row) m ]

-- A name is to be given to a course: another course that has it goes, with its enrolments and teaching.
unfoldable pub evict : ℕ → ℕ → ComplexState → ComplexState
unfolding erase_first erase_key
evict course_id name s = elim (s.course_name_index name) [
  | none ↦ s
  | some old_course_id ↦ if old_course_id == course_id then s else record s {
    enroll = erase_first old_course_id s.enroll;
    teach = erase_first old_course_id s.teach;
    courses = erase_key old_course_id s.courses;
  }
]

-- The index forgets the name `name`, if it stands for this course.
unfoldable pub forget_name : ℕ → ℕ → ComplexState → ComplexState
unfolding erase_key
forget_name course_id name s = elim (s.course_name_index name) [
  | none ↦ s
  | some id ↦
      if id == course_id
      then record s { course_name_index = erase_key name s.course_name_index }
      else s
]

-- The same for the name that the course has in its row, if there is one.
unfoldable pub forget_course : ℕ → ComplexState → ComplexState
unfolding forget_name
forget_course course_id s = elim (s.courses course_id) [
  | none ↦ s
  | some row ↦ forget_name course_id row.course_name s
]
