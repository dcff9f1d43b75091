-- ===== src/UseCase/ComplexCourseware/Renaming.antt =====
-- complex-courseware.hpp: each update of a course keeps the index of the courses by their names.
use optimistic_replication.Prelude.{
  ℕ, ◌≡◌, refl, sym, ap, ◌∙◌, inl, inr, Option, none, some, subst, Option-cases,
}
use optimistic_replication.Call.{Call}
use optimistic_replication.UseCase.ComplexCourseware.{ComplexState, CourseRow}
use optimistic_replication.UseCase.ComplexCourseware.Tables.{
  put, erase_key, move_row, change_row, evict, forget_name, forget_course,
}
use optimistic_replication.UseCase.ComplexCourseware.Updates.{
  add_course_force, delete_course_cascade, update_course_id_cascade, update_course_name_force,
  update_course_other,
}
use optimistic_replication.UseCase.ComplexCourseware.Lookups.{
  put_self, put_other, put_cases, erase_key_cases,
}
use optimistic_replication.UseCase.ComplexCourseware.Freeing.{
  IsIndexed, IsIndexedBut, IsFree, same_course, evict-IsFree, forget_name-IsIndexedBut,
  forget_course-IsIndexedBut,
}

-- A course takes a name that is free.
put-IsIndexed :
    (course_id name : ℕ) (row : CourseRow) (s : ComplexState)
    → row.course_name ≡ name
    → IsIndexedBut course_id s
    → IsFree course_id name s.courses
    → IsIndexed (record s {
      course_name_index = put name course_id s.course_name_index;
      courses = put course_id row s.courses;
    })
put-IsIndexed course_id name row s n v f = record {
  course = λ id r h. elim (put_cases course_id row s.courses id r h) [
    | inl (e, q) ↦
        ap (put name course_id s.course_name_index)
          (ap (λ (z : CourseRow). z.course_name) (sym q) ∙ n)
        ∙ put_self name course_id s.course_name_index
        ∙ ap some (sym e)
    | inr (d, k) ↦
        put_other name course_id s.course_name_index r.course_name (λ e. d (f.same id r k e))
        ∙ v.others id r d k
  ];
}

-- An update that leaves the courses and their index alone.
pub IsIndexed-same :
    (s t : ComplexState)
    → t.courses ≡ s.courses
    → t.course_name_index ≡ s.course_name_index
    → IsIndexed s
    → IsIndexed t
IsIndexed-same s t e f v = record { course = λ id r h. rw f (v.course id r (rw e at h)) }

IsFree-same :
    (course_id name : ℕ) (m n : ℕ → Option CourseRow)
    → n ≡ m
    → IsFree course_id name m
    → IsFree course_id name n
IsFree-same course_id name m n e = subst (IsFree course_id name) (sym e)

pub add_course_force-IsIndexed :
    (s : ComplexState) (c : Call) → IsIndexed s → IsIndexed (add_course_force s c)
unfolding add_course_force
add_course_force-IsIndexed s c v =
    let (w, f) = evict-IsFree c.value1 c.value2 s v in
    let s' = evict c.value1 c.value2 s in
    let (x, e) = forget_course-IsIndexedBut c.value1 s' w in
    put-IsIndexed c.value1 c.value2
      (record { course_name = c.value2; semester = c.value3; department = c.value4 })
      (forget_course c.value1 s') refl x (IsFree-same c.value1 c.value2 s'.courses _ e f)

pub delete_course_cascade-IsIndexed :
    (s : ComplexState) (c : Call) → IsIndexed s → IsIndexed (delete_course_cascade s c)
unfolding delete_course_cascade
delete_course_cascade-IsIndexed s c v =
    let (x, e) = forget_course-IsIndexedBut c.value1 s v in
    record {
      course = λ id r h.
          let (d, k) = erase_key_cases c.value1 (forget_course c.value1 s).courses id r h in
          x.others id r d k;
    }

pub update_course_id_cascade-IsIndexed :
    (s : ComplexState) (c : Call) → IsIndexed s → IsIndexed (update_course_id_cascade s c)
unfolding update_course_id_cascade move_row
update_course_id_cascade-IsIndexed s c v = elim (Option-cases (s.courses c.value1)) [
  | inl e ↦ simp (e, update_course_id_cascade, move_row) (IsIndexed-same s _ refl refl v)
  | inr (row, e) ↦
      simp (e, update_course_id_cascade, move_row)
        (record {
          course = λ id r h. elim (put_cases c.value2 row (erase_key c.value1 s.courses) id r h) [
            | inl (q, p) ↦
                ap (put row.course_name c.value2 s.course_name_index)
                  (ap (λ (z : CourseRow). z.course_name) (sym p))
                ∙ put_self row.course_name c.value2 s.course_name_index
                ∙ ap some (sym q)
            | inr (d, k) ↦
                let (b, l) = erase_key_cases c.value1 s.courses id r k in
                put_other row.course_name c.value2 s.course_name_index r.course_name (λ n. b (
                  same_course s id c.value1 r row.course_name (v.course id r l) n
                    (v.course c.value1 row e)))
                ∙ v.course id r l
          ];
        })
]

pub update_course_name_force-IsIndexed :
    (absent : ComplexState → ComplexState) (s : ComplexState) (c : Call)
    → ((t : ComplexState)
        → t.courses c.value1 ≡ none
        → IsIndexed t
        → IsFree c.value1 c.value2 t.courses
        → IsIndexed (absent t))
    → IsIndexed s
    → IsIndexed (update_course_name_force absent s c)
unfolding update_course_name_force
update_course_name_force-IsIndexed absent s c kept v =
    let s' = evict c.value1 c.value2 s in
    let (w, f) = evict-IsFree c.value1 c.value2 s v in
    elim (Option-cases (s'.courses c.value1)) [
      | inl e ↦ simp (e, update_course_name_force) (kept s' e w f)
      | inr (row, e) ↦
          let (x, g) = forget_name-IsIndexedBut c.value1 row.course_name s' w in
          simp (e, update_course_name_force)
            (put-IsIndexed c.value1 c.value2 (record row { course_name = c.value2 })
              (forget_name c.value1 row.course_name s') refl x
              (IsFree-same c.value1 c.value2 s'.courses _ g f))
    ]

pub update_course_other-IsIndexed :
    (s : ComplexState) (c : Call) → IsIndexed s → IsIndexed (update_course_other s c)
unfolding update_course_other change_row
update_course_other-IsIndexed s c v = elim (Option-cases (s.courses c.value1)) [
  | inl e ↦ simp (e, update_course_other, change_row) (IsIndexed-same s _ refl refl v)
  | inr (row, e) ↦
      simp (e, update_course_other, change_row)
        (record {
          course = λ id r h. elim (put_cases c.value1 _ s.courses id r h) [
            | inl (q, p) ↦
                ap s.course_name_index (ap (λ (z : CourseRow). z.course_name) (sym p))
                ∙ v.course c.value1 row e
                ∙ ap some (sym q)
            | inr (d, k) ↦ v.course id r k
          ];
        })
]
