-- ===== src/UseCase/Courseware.antt =====
-- wellcoordination/benchmark/courseware.hpp: the replicated courses, students and enrolments.
pub mod Laws
use optimistic_replication.Prelude.{
  ℕ, zero, suc, Bool, true, false, ◌&&◌, ◌||◌, Bytes, codes, List, IntSet, PairSet, empty_set,
  empty_pairs, insert, erase, insert_pair, if◌then◌else◌,
}
use optimistic_replication.Call.{Call, type_is}
use optimistic_replication.VectorClock.{Causality}
use optimistic_replication.VectorClock as VectorClock
use optimistic_replication.UseCase.{UseCase}

-- CoursewareState without its `index`.
pub record CoursewareState : Type 0 where
  pub student_ids : IntSet
  pub course_ids : IntSet
  pub enroll : PairSet

abbrev pub initial : CoursewareState
initial = record { student_ids = empty_set; course_ids = empty_set; enroll = empty_pairs }

-- coursewareToString: the enumeration AddCourse, DeleteCourse, Enroll, AddStudent, DeleteStudent, Read.
unfoldable pub courseware_to_string : ℕ → Bytes
courseware_to_string zero = codes "AddCourse"
courseware_to_string (suc zero) = codes "DeleteCourse"
courseware_to_string (suc (suc zero)) = codes "Enroll"
courseware_to_string (suc (suc (suc zero))) = codes "AddStudent"
courseware_to_string (suc (suc (suc (suc zero)))) = codes "DeleteStudent"
courseware_to_string (suc (suc (suc (suc (suc zero))))) = codes "Read"
courseware_to_string (suc (suc (suc (suc (suc (suc n)))))) = codes "Invalid"

unfoldable pub locally_permissibility : CoursewareState → Call → Bool
locally_permissibility current call = true

unfoldable pub compare_vector_clocks : List ℕ → List ℕ → Causality
compare_vector_clocks = VectorClock.compare_vector_clocks

unfoldable pub fast_is_reachable_local : Call → Call → Bool
fast_is_reachable_local input1 input2 =
    type_is input1 "AddCourse" && type_is input2 "DeleteCourse"
    || type_is input1 "AddStudent" && type_is input2 "DeleteStudent"
    || type_is input1 "Enroll" && (type_is input2 "DeleteCourse" || type_is input2 "DeleteStudent")

unfoldable pub fast_is_reachable_remote : Call → Call → Bool
fast_is_reachable_remote input1 input2 =
    type_is input1 "AddCourse" && type_is input2 "DeleteCourse"
    || type_is input1 "AddStudent" && type_is input2 "DeleteStudent"
    || type_is input1 "Enroll" && (type_is input2 "DeleteCourse" || type_is input2 "DeleteStudent")

-- `current_state` after a call.
unfoldable pub update_current_state : CoursewareState → Call → CoursewareState
update_current_state s call =
    if type_is call "AddCourse"
    then record s { course_ids = insert call.value1 s.course_ids }
    else if type_is call "DeleteCourse"
    then record s { course_ids = erase call.value1 s.course_ids }
    else if type_is call "Endroll"
    then record s { enroll = insert_pair call.value1 call.value2 s.enroll }
    else if type_is call "AddStudent"
    then record s { student_ids = insert call.value1 s.student_ids }
    else if type_is call "DeleteStudent"
    then record s { student_ids = erase call.value1 s.student_ids }
    else s

-- `stable_state` after a call.
unfoldable pub update_stable_state : CoursewareState → Call → CoursewareState
update_stable_state s call =
    if type_is call "AddCourse"
    then record s { course_ids = insert call.value1 s.course_ids }
    else if type_is call "DeleteCourse"
    then record s { course_ids = erase call.value1 s.course_ids }
    else if type_is call "Enroll"
    then record s { enroll = insert_pair call.value1 call.value2 s.enroll }
    else if type_is call "AddStudent"
    then record s { student_ids = insert call.value1 s.student_ids }
    else if type_is call "DeleteStudent"
    then record s { student_ids = erase call.value1 s.student_ids }
    else s

abbrev pub courseware_case : UseCase
courseware_case = record {
  State = CoursewareState;
  initial = initial;
  locally_permissibility = locally_permissibility;
  update_current_state = update_current_state;
  update_stable_state = update_stable_state;
  fast_is_reachable_local = fast_is_reachable_local;
  fast_is_reachable_remote = fast_is_reachable_remote;
  compare_vector_clocks = compare_vector_clocks;
}
