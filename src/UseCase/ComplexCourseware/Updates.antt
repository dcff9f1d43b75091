-- ===== src/UseCase/ComplexCourseware/Updates.antt =====
-- complex-courseware.hpp: updateCurrentState and updateStableState, which differ in one branch only.
use optimistic_replication.Prelude.{
  ℕ, false, none, some, if◌then◌else◌, insert, erase, insert_pair, ◌==◌, ◌&&◌, PairSet,
}
use optimistic_replication.Call.{Call, type_is}
use optimistic_replication.UseCase.{UseCase}
use optimistic_replication.UseCase.ComplexCourseware.{
  ComplexState, StudentRow, InstructorRow, CourseRow, initial, locally_permissibility,
  fast_is_reachable_local, fast_is_reachable_remote, compare_vector_clocks,
}
use optimistic_replication.UseCase.ComplexCourseware.Tables.{
  put, erase_key, erase_first, erase_second, rename_first, rename_second, move_row, change_row,
  evict, forget_name, forget_course,
}

unfoldable pub erase_pair : ℕ → ℕ → PairSet → PairSet
erase_pair a b s x y = if (a == x) && (b == y) then false else s x y

unfoldable pub add_student_force : ComplexState → Call → ComplexState
add_student_force s call = record s {
  students =
      put call.value1 (record { first_name = call.value2; last_name = call.value3 }) s.students;
}

unfoldable pub delete_student_cascade : ComplexState → Call → ComplexState
delete_student_cascade s call = record s {
  students = erase_key call.value1 s.students;
  enroll = erase_second call.value1 s.enroll;
}

unfoldable pub update_student_id_cascade : ComplexState → Call → ComplexState
update_student_id_cascade s call = record s {
  students = move_row call.value1 call.value2 s.students;
  enroll = rename_second call.value1 call.value2 s.enroll;
}

unfoldable pub update_student_other : ComplexState → Call → ComplexState
update_student_other s call = record s {
  students =
      change_row call.value1
        (λ (r : StudentRow). record { first_name = call.value2; last_name = call.value3 })
        s.students;
}

unfoldable pub add_instructor_force : ComplexState → Call → ComplexState
add_instructor_force s call = record s {
  instructors =
      put call.value1
        (record { first_name = call.value2; last_name = call.value3; department = call.value4 })
        s.instructors;
}

unfoldable pub delete_instructor_cascade : ComplexState → Call → ComplexState
delete_instructor_cascade s call = record s {
  instructors = erase_key call.value1 s.instructors;
  teach = erase_second call.value1 s.teach;
}

unfoldable pub update_instructor_id_cascade : ComplexState → Call → ComplexState
update_instructor_id_cascade s call = record s {
  instructors = move_row call.value1 call.value2 s.instructors;
  teach = rename_second call.value1 call.value2 s.teach;
}

unfoldable pub update_instructor_other : ComplexState → Call → ComplexState
update_instructor_other s call = record s {
  instructors =
      change_row call.value1
        (λ (r : InstructorRow). record {
          first_name = call.value2;
          last_name = call.value3;
          department = call.value4;
        })
        s.instructors;
}

unfoldable pub add_course_force : ComplexState → Call → ComplexState
add_course_force s call =
    let s' = forget_course call.value1 (evict call.value1 call.value2 s) in
    let row : CourseRow = record {
      course_name = call.value2;
      semester = call.value3;
      department = call.value4;
    } in
    record s' {
      course_name_index = put call.value2 call.value1 s'.course_name_index;
      courses = put call.value1 row s'.courses;
    }

-- Where the source erases the row inside its test, an absent row is erased here, which changes nothing.
unfoldable pub delete_course_cascade : ComplexState → Call → ComplexState
delete_course_cascade s call =
    let s' = forget_course call.value1 s in
    record s' {
      courses = erase_key call.value1 s'.courses;
      enroll = erase_first call.value1 s'.enroll;
      teach = erase_first call.value1 s'.teach;
    }

unfoldable pub update_course_id_cascade : ComplexState → Call → ComplexState
update_course_id_cascade s call = record s {
  courses = move_row call.value1 call.value2 s.courses;
  course_name_index = elim (s.courses call.value1) [
    | none ↦ s.course_name_index
    | some row ↦ put row.course_name call.value2 s.course_name_index
  ];
  enroll = rename_first call.value1 call.value2 s.enroll;
  teach = rename_first call.value1 call.value2 s.teach;
}

-- `absent` is what becomes of the index when the course has no row.
unfoldable pub update_course_name_force :
    (ComplexState → ComplexState) → ComplexState → Call → ComplexState
update_course_name_force absent s call =
    let s' = evict call.value1 call.value2 s in
    elim (s'.courses call.value1) [
      | none ↦ absent s'
      | some row ↦
          let t = forget_name call.value1 row.course_name s' in
          record t {
            courses = put call.value1 (record row { course_name = call.value2 }) t.courses;
            course_name_index = put call.value2 call.value1 t.course_name_index;
          }
    ]

unfoldable pub update_course_other : ComplexState → Call → ComplexState
update_course_other s call = record s {
  courses =
      change_row call.value1
        (λ (r : CourseRow). record r { semester = call.value2; department = call.value3 })
        s.courses;
}

-- The chain of tests, given what becomes of the index in UpdateCourseNameForce.
unfoldable pub update_state :
    (Call → ComplexState → ComplexState) → ComplexState → Call → ComplexState
update_state absent s call =
    if type_is call "AddStudentForce"
    then add_student_force s call
    else if type_is call "DeleteStudentCascade"
    then delete_student_cascade s call
    else if type_is call "UpdateStudentIDCascade"
    then update_student_id_cascade s call
    else if type_is call "UpdateStudentOther"
    then update_student_other s call
    else if type_is call "AddInstructorForce"
    then add_instructor_force s call
    else if type_is call "DeleteInstructorCascade"
    then delete_instructor_cascade s call
    else if type_is call "UpdateInstructorIDCascade"
    then update_instructor_id_cascade s call
    else if type_is call "UpdateInstructorOther"
    then update_instructor_other s call
    else if type_is call "AddCourseForce"
    then add_course_force s call
    else if type_is call "DeleteCourseCascade"
    then delete_course_cascade s call
    else if type_is call "UpdateCourseIDCascade"
    then update_course_id_cascade s call
    else if type_is call "UpdateCourseNameForce"
    then update_course_name_force (absent call) s call
    else if type_is call "UpdateCourseOther"
    then update_course_other s call
    else if type_is call "AddDepartment"
    then record s { departments = insert call.value1 s.departments }
    else if type_is call "DeleteDepartmentNoAction"
    then record s { departments = erase call.value1 s.departments }
    else if type_is call "Enroll"
    then record s { enroll = insert_pair call.value1 call.value2 s.enroll }
    else if type_is call "WithdrawEnrollment"
    then record s { enroll = erase_pair call.value1 call.value2 s.enroll }
    else if type_is call "Teach"
    then record s { teach = insert_pair call.value1 call.value2 s.teach }
    else if type_is call "WithdrawTeaching"
    then record s { teach = erase_pair call.value1 call.value2 s.teach }
    else s

-- The current state's index takes in the name of an absent course.
unfoldable pub index_absent : Call → ComplexState → ComplexState
unfolding put
index_absent call s = record s {
  course_name_index = put call.value2 call.value1 s.course_name_index;
}

-- The stable state's does not.
abbrev pub ignore_absent : Call → ComplexState → ComplexState
ignore_absent call s = s

unfoldable pub update_current_state : ComplexState → Call → ComplexState
unfolding update_state
update_current_state = update_state index_absent

unfoldable pub update_stable_state : ComplexState → Call → ComplexState
unfolding update_state
update_stable_state = update_state ignore_absent

abbrev pub complex_case : UseCase
complex_case = record {
  State = ComplexState;
  initial = initial;
  locally_permissibility = locally_permissibility;
  update_current_state = update_current_state;
  update_stable_state = update_stable_state;
  fast_is_reachable_local = fast_is_reachable_local;
  fast_is_reachable_remote = fast_is_reachable_remote;
  compare_vector_clocks = compare_vector_clocks;
}
