-- ===== src/UseCase/ComplexCourseware/Names.antt =====
-- complex-courseware.hpp: the index of the courses by their names.
use optimistic_replication.Prelude.{ℕ, ◌≡◌, refl, sym, ◌∙◌, none, some, List, [], ◌∷◌, subst, foldl}
use mathlib.Core.Option.{none-ne-some}
use optimistic_replication.Call.{Call, type_is}
use optimistic_replication.Hamsou.Run.{if_keeps}
use optimistic_replication.UseCase.ComplexCourseware.{ComplexState, CourseRow, initial}
use optimistic_replication.UseCase.ComplexCourseware.Updates.{
  index_absent, ignore_absent, update_state, update_current_state, update_stable_state,
  add_student_force, delete_student_cascade, update_student_id_cascade, update_student_other,
  add_instructor_force, delete_instructor_cascade, update_instructor_id_cascade,
  update_instructor_other,
}
use optimistic_replication.UseCase.ComplexCourseware.Lookups.{put_other}
use optimistic_replication.UseCase.ComplexCourseware.Freeing.{IsIndexed, IsFree, same_course}
use optimistic_replication.UseCase.ComplexCourseware.Renaming.{
  IsIndexed-same, add_course_force-IsIndexed, delete_course_cascade-IsIndexed,
  update_course_id_cascade-IsIndexed, update_course_name_force-IsIndexed,
  update_course_other-IsIndexed,
}

update_state-IsIndexed :
    (absent : Call → ComplexState → ComplexState) (s : ComplexState) (c : Call)
    → ((t : ComplexState)
        → t.courses c.value1 ≡ none
        → IsIndexed t
        → IsFree c.value1 c.value2 t.courses
        → IsIndexed (absent c t))
    → IsIndexed s
    → IsIndexed (update_state absent s c)
unfolding update_state add_student_force delete_student_cascade update_student_id_cascade
    update_student_other add_instructor_force delete_instructor_cascade update_instructor_id_cascade
    update_instructor_other
update_state-IsIndexed absent s c kept v =
    let other : (t : ComplexState)
        → t.courses ≡ s.courses
        → t.course_name_index ≡ s.course_name_index
        → IsIndexed t =
      λ t e f. IsIndexed-same s t e f v in
    if_keeps IsIndexed (type_is c "AddStudentForce") (other _ refl refl) (
      if_keeps IsIndexed (type_is c "DeleteStudentCascade") (other _ refl refl) (
        if_keeps IsIndexed (type_is c "UpdateStudentIDCascade") (other _ refl refl) (
          if_keeps IsIndexed (type_is c "UpdateStudentOther") (other _ refl refl) (
            if_keeps IsIndexed (type_is c "AddInstructorForce") (other _ refl refl) (
              if_keeps IsIndexed (type_is c "DeleteInstructorCascade") (other _ refl refl) (
                if_keeps IsIndexed (type_is c "UpdateInstructorIDCascade") (other _ refl refl) (
                  if_keeps IsIndexed (type_is c "UpdateInstructorOther") (other _ refl refl) (
                    if_keeps IsIndexed (type_is c "AddCourseForce")
                      (add_course_force-IsIndexed s c v)
                      (if_keeps IsIndexed (type_is c "DeleteCourseCascade")
                        (delete_course_cascade-IsIndexed s c v)
                        (if_keeps IsIndexed (type_is c "UpdateCourseIDCascade")
                          (update_course_id_cascade-IsIndexed s c v)
                          (if_keeps IsIndexed (type_is c "UpdateCourseNameForce")
                            (update_course_name_force-IsIndexed (absent c) s c kept v)
                            (if_keeps IsIndexed (type_is c "UpdateCourseOther")
                              (update_course_other-IsIndexed s c v)
                              (if_keeps IsIndexed (type_is c "AddDepartment") (other _ refl refl) (
                                if_keeps IsIndexed (type_is c "DeleteDepartmentNoAction")
                                  (other _ refl refl)
                                  (if_keeps IsIndexed (type_is c "Enroll") (other _ refl refl) (
                                    if_keeps IsIndexed (type_is c "WithdrawEnrollment")
                                      (other _ refl refl)
                                      (if_keeps IsIndexed (type_is c "Teach") (other _ refl refl) (
                                        if_keeps IsIndexed (type_is c "WithdrawTeaching")
                                          (other _ refl refl) (v)))))))))))))))))))

-- Both states of the object: every call keeps the index of the courses complete.
pub update_current_state-IsIndexed :
    (s : ComplexState) (c : Call) → IsIndexed s → IsIndexed (update_current_state s c)
unfolding update_current_state index_absent
update_current_state-IsIndexed s c v =
    update_state-IsIndexed index_absent s c
      (λ t e w f. record {
        course = λ id r h.
            put_other c.value2 c.value1 t.course_name_index r.course_name
              (λ n. none-ne-some r (sym e ∙ subst (λ i. t.courses i ≡ some r) (f.same id r h n) h))
            ∙ w.course id r h;
      })
      v

pub update_stable_state-IsIndexed :
    (s : ComplexState) (c : Call) → IsIndexed s → IsIndexed (update_stable_state s c)
unfolding update_stable_state
update_stable_state-IsIndexed s c v = update_state-IsIndexed ignore_absent s c (λ t e w f. w) v

foldl-IsIndexed :
    (f : ComplexState → Call → ComplexState)
    → ((s : ComplexState) (c : Call) → IsIndexed s → IsIndexed (f s c))
    → (cs : List Call) (s : ComplexState) → IsIndexed s
    → IsIndexed (foldl f s cs)
foldl-IsIndexed f keeps [] s v = v
foldl-IsIndexed f keeps (c ∷ cs) s v = foldl-IsIndexed f keeps cs (f s c) (keeps s c v)

initial-IsIndexed : IsIndexed initial
initial-IsIndexed = record { course = λ id r h. absurd (none-ne-some r h) }

-- Such an index tells courses apart by their names.
pub unique_names :
    (s : ComplexState) (i j : ℕ) (r q : CourseRow)
    → IsIndexed s
    → s.courses i ≡ some r
    → s.courses j ≡ some q
    → r.course_name ≡ q.course_name
    → i ≡ j
unique_names s i j r q v h k e =
    same_course s i j r q.course_name (v.course i r h) e (v.course j q k)

-- After any calls, in any order, the index of the current state and that of the stable state give each
-- course under its name, whatever names and identifiers AddCourseForce,
-- UpdateCourseNameForce and UpdateCourseIDCascade force on the courses.
pub states-IsIndexed :
    (cs : List Call)
    → IsIndexed (foldl update_current_state initial cs)
      × IsIndexed (foldl update_stable_state initial cs)
states-IsIndexed cs = (
  foldl-IsIndexed update_current_state update_current_state-IsIndexed cs initial initial-IsIndexed,
  foldl-IsIndexed update_stable_state update_stable_state-IsIndexed cs initial initial-IsIndexed,
)
