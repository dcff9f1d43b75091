-- ===== src/Tests/Complex.antt =====
-- The courseware with forced and cascading updates.
use optimistic_replication.Prelude.{
  ◌≡◌, ◌≢◌, refl, some, List, [], ◌∷◌, codes, foldl, eq_bytes, insert_pair, Bool, arith,
}
use optimistic_replication.Call.{Call, new_call}
use optimistic_replication.Hamsou.Ops.{insert_call}
use optimistic_replication.Hamsou.Order.{replay}
use optimistic_replication.UseCase.ComplexCourseware.{initial, complex_to_string, check_validcall}
use optimistic_replication.UseCase.ComplexCourseware.Tables as Tables
use optimistic_replication.UseCase.ComplexCourseware.Updates as Updates
use optimistic_replication.UseCase.ComplexCourseware.Updates.{
  complex_case, update_current_state, update_stable_state,
}
use optimistic_replication.UseCase.ComplexCourseware.Laws.{chain_diverges}
use optimistic_replication.UseCase.ComplexCourseware.Names.{states-IsIndexed}
use optimistic_replication.UseCase.ComplexCourseware.Freeing.{IsIndexed}

-- Node 1 changes the name of student 7, node 2 adds the student, node 3 deletes student 8.
abbrev rename_7 : Call
rename_7 = new_call (codes "UpdateStudentOther") 7 1 1 0 1 1

abbrev add_7 : Call
add_7 = new_call (codes "AddStudentForce") 7 2 2 0 2 1

abbrev delete_8 : Call
delete_8 = new_call (codes "DeleteStudentCascade") 8 0 0 0 3 1

chain_diverges_example :
    replay complex_case initial (
      insert_call complex_case add_7
        (insert_call complex_case rename_7 (insert_call complex_case delete_8 [])))
    ≢ replay complex_case initial (
        insert_call complex_case delete_8
          (insert_call complex_case add_7 (insert_call complex_case rename_7 [])))
chain_diverges_example =
    chain_diverges initial rename_7 add_7 delete_8 refl refl refl refl (omega arith) (omega arith)

-- Course 2 takes the name of course 1, which goes; course 2 becomes course 3.
abbrev courses_calls : List Call
courses_calls =
    new_call (codes "AddCourseForce") 1 5 0 0 1 1
    ∷ new_call (codes "Enroll") 1 7 0 0 1 2
    ∷ new_call (codes "AddCourseForce") 2 6 0 0 1 3
    ∷ new_call (codes "UpdateCourseNameForce") 2 5 0 0 1 4
    ∷ new_call (codes "UpdateCourseIDCascade") 2 3 0 0 1 5
    ∷ []

courses_state :
    ((foldl update_stable_state initial courses_calls).course_name_index 5 ≡ some 3)
    × ((foldl update_stable_state initial courses_calls).enroll 1 7 ≡ Bool.false)
unfolding update_stable_state Updates.update_state Updates.add_course_force
    Updates.update_course_name_force Updates.update_course_id_cascade Tables.evict
    Tables.forget_name Tables.forget_course Tables.put Tables.erase_key Tables.erase_first
    Tables.rename_first Tables.move_row insert_pair eq_bytes
courses_state = (refl, refl)

states-IsIndexed_example :
    IsIndexed (foldl update_current_state initial courses_calls)
    × IsIndexed (foldl update_stable_state initial courses_calls)
states-IsIndexed_example = states-IsIndexed courses_calls

names : (complex_to_string 13 ≡ codes "AddDepartment") × (check_validcall add_7 ≡ Bool.true)
unfolding complex_to_string check_validcall eq_bytes
names = (refl, refl)
