-- ===== src/UseCase/ComplexCourseware/Freeing.antt =====
-- complex-courseware.hpp: how a name is made free before a course takes it.
use optimistic_replication.Prelude.{
  ℕ, ◌≡◌, ◌≢◌, refl, sym, ap, ◌∙◌, inl, inr, Option, some, Option-cases, Bool-cases, ◌==◌, arith,
}
use mathlib.Core.Option.{none-ne-some, some-injective}
use optimistic_replication.UseCase.ComplexCourseware.{ComplexState, CourseRow}
use optimistic_replication.UseCase.ComplexCourseware.Tables.{evict, forget_name, forget_course}
use optimistic_replication.UseCase.ComplexCourseware.Lookups.{erase_key_other, erase_key_cases}

-- The index gives each course for its name.
pub record IsIndexed (s : ComplexState) : Type 0 where
  pub course :
      (id : ℕ) (r : CourseRow) → s.courses id ≡ some r → s.course_name_index r.course_name ≡ some id

-- The same for all courses but one.
pub record IsIndexedBut (course_id : ℕ) (s : ComplexState) : Type 0 where
  pub others :
      (id : ℕ) (r : CourseRow)
      → id ≢ course_id
      → s.courses id ≡ some r
      → s.course_name_index r.course_name ≡ some id

-- No other course has this name.
pub record IsFree (course_id name : ℕ) (courses : ℕ → Option CourseRow) : Type 0 where
  pub same : (id : ℕ) (r : CourseRow) → courses id ≡ some r → r.course_name ≡ name → id ≡ course_id

-- Two courses in the index under one name are one.
pub same_course :
    (s : ComplexState) (i j : ℕ) (r : CourseRow) (name : ℕ)
    → s.course_name_index r.course_name ≡ some i
    → r.course_name ≡ name
    → s.course_name_index name ≡ some j
    → i ≡ j
same_course s i j r name h e k = some-injective i j (sym h ∙ ap s.course_name_index e ∙ k)

pub evict-IsFree :
    (course_id name : ℕ) (s : ComplexState)
    → IsIndexed s
    → IsIndexed (evict course_id name s) × IsFree course_id name (evict course_id name s).courses
unfolding evict
evict-IsFree course_id name s v = elim (Option-cases (s.course_name_index name)) [
  | inl e ↦
      rw (e, evict)
        (
          v,
          record {
            same = λ id r h n.
                absurd (none-ne-some id (sym e ∙ ap s.course_name_index (sym n) ∙ v.course id r h));
          },
        )
  | inr (old, e) ↦ elim (Bool-cases (old == course_id)) [
    | inl b ↦
        rw (e, evict, b)
          (
            v,
            record {
              same = λ id r h n. same_course s id old r name (v.course id r h) n e ∙ ground arith;
            },
          )
    | inr b ↦
        rw (e, evict, b)
          (
            record { course = λ id r h. v.course id r (erase_key_cases old s.courses id r h).1 },
            record {
              same = λ id r h n.
                  let (x, y) = erase_key_cases old s.courses id r h in
                  absurd (x (same_course s id old r name (v.course id r y) n e));
            },
          )
  ]
]

-- Forgetting a name that stands for one course leaves the others in the index.
pub forget_name-IsIndexedBut :
    (course_id name : ℕ) (s : ComplexState)
    → IsIndexed s
    → IsIndexedBut course_id (forget_name course_id name s)
      × ((forget_name course_id name s).courses ≡ s.courses)
unfolding forget_name
forget_name-IsIndexedBut course_id name s v = elim (Option-cases (s.course_name_index name)) [
  | inl e ↦ rw (e, forget_name) (record { others = λ id r d h. v.course id r h }, refl)
  | inr (old, e) ↦ elim (Bool-cases (old == course_id)) [
    | inr b ↦ rw (e, forget_name, b) (record { others = λ id r d h. v.course id r h }, refl)
    | inl b ↦
        rw (e, forget_name, b)
          (
            record {
              others = λ id r d h.
                  erase_key_other name s.course_name_index r.course_name
                    (λ n. d (same_course s id old r name (v.course id r h) n e ∙ ground arith))
                  ∙ v.course id r h;
            },
            refl,
          )
  ]
]

pub forget_course-IsIndexedBut :
    (course_id : ℕ) (s : ComplexState)
    → IsIndexed s
    → IsIndexedBut course_id (forget_course course_id s)
      × ((forget_course course_id s).courses ≡ s.courses)
unfolding forget_course
forget_course-IsIndexedBut course_id s v = elim (Option-cases (s.courses course_id)) [
  | inl e ↦ rw (e, forget_course) (record { others = λ id r d h. v.course id r h }, refl)
  | inr (row, e) ↦ rw (e, forget_course) (forget_name-IsIndexedBut course_id row.course_name s v)
]
