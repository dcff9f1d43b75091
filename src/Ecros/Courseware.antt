-- ===== src/Ecros/Courseware.antt =====
-- wellcoordination/benchmark/ecros-courseware.hpp: courses, students and enrolments, and the analysis of their
-- calls. Its idcmp has the text of ecros-set.hpp.
pub mod Laws
use optimistic_replication.Prelude.{
  ℕ, zero, suc, ◌+◌, Bool, true, false, ◌&&◌, ◌||◌, List, [], ◌∷◌, Bytes, codes, if◌then◌else◌, not,
  PairSet, empty_pairs, insert_pair,
}
use optimistic_replication.Call.{Call, type_is}
use optimistic_replication.Ecros.{EcrosCase}
use optimistic_replication.Ecros.Set.{
  idcmp, is_applied, is_empty, insert_element, erase_element, fill,
}

unfoldable pub seq_commutative : Call → Call → Bool
seq_commutative a b =
    type_is a "AddCourse"
      && (type_is b "AddCourse"
          || type_is b "AddStudent"
          || type_is b "DeleteStudent"
          || type_is b "Enroll")
    || type_is a "AddStudent"
      && (type_is b "AddCourse"
          || type_is b "AddStudent"
          || type_is b "DeleteCourse"
          || type_is b "Enroll")
    || type_is a "DeleteCourse"
      && (type_is b "AddStudent"
          || type_is b "DeleteCourse"
          || type_is b "DeleteStudent"
          || type_is b "Enroll")
    || type_is a "Enroll"
      && (type_is b "AddCourse"
          || type_is b "AddStudent"
          || type_is b "DeleteCourse"
          || type_is b "DeleteStudent"
          || type_is b "Enroll")

unfoldable pub commutative : Call → Call → Bool
commutative a b = seq_commutative a b

-- '<' is 60, '>' is 62, and '⊤' is 164 as a char.
unfoldable pub resolution : Call → Call → ℕ
resolution a b =
    if (type_is a "DeleteCourse" || type_is a "DeleteStudent") && type_is b "Enroll"
    then 60
    else if type_is a "Enroll" && (type_is b "DeleteCourse" || type_is b "DeleteStudent")
    then 62
    else 164

pub record CoursewareState : Type 0 where
  pub course_ids : List ℕ
  pub student_ids : List ℕ
  pub enroll : PairSet
  pub applied : List (ℕ × ℕ)

abbrev pub initial : CoursewareState
initial = record { course_ids = []; student_ids = []; enroll = empty_pairs; applied = [] }

-- setVars: its loop does to each set what that of ecros-set.hpp does.
unfoldable pub set_vars : CoursewareState → ℕ → ℕ → CoursewareState
unfolding fill
set_vars s id nodes = record s {
  course_ids = fill 50 0 s.course_ids;
  student_ids = fill 50 0 s.student_ids;
}

-- The chain of tests of applyCall, which is that of recomputeState.
unfoldable pub change : CoursewareState → Call → CoursewareState
change s c =
    if type_is c "AddCourse"
    then record s { course_ids = insert_element c.value1 s.course_ids }
    else if type_is c "DeleteCourse" && not (is_empty s.course_ids)
    then record s { course_ids = erase_element c.value1 s.course_ids }
    else if type_is c "Enroll"
    then record s { enroll = insert_pair c.value1 c.value2 s.enroll }
    else if type_is c "AddStudent"
    then record s { student_ids = insert_element c.value1 s.student_ids }
    else if type_is c "DeleteStudent" && not (is_empty s.student_ids)
    then record s { student_ids = erase_element c.value1 s.student_ids }
    else s

unfoldable pub mark_applied : Call → CoursewareState → CoursewareState
mark_applied c s = record s { applied = (c.call_id, c.node_id) ∷ s.applied }

unfoldable pub apply_call : CoursewareState → Call → CoursewareState
unfolding change mark_applied
apply_call s c = if is_applied c s.applied then s else mark_applied c (change s c)

-- The second condition is the literal "DeleteStudent", which is true of every call.
unfoldable pub should_skip : CoursewareState → Call → Bool
should_skip s call =
    if type_is call "DeleteCourse" then is_empty s.course_ids else is_empty s.student_ids

-- A round of recomputeState does what applyCall does.
unfoldable pub recompute_state : CoursewareState → List Call → CoursewareState
unfolding apply_call
recompute_state s [] = s
recompute_state s (c ∷ order) = recompute_state (apply_call s c) order

-- The enumeration.
unfoldable pub courseware_to_string : ℕ → Bytes
courseware_to_string zero = codes "AddCourse"
courseware_to_string (suc zero) = codes "DeleteCourse"
courseware_to_string (suc (suc zero)) = codes "Enroll"
courseware_to_string (suc (suc (suc zero))) = codes "AddStudent"
courseware_to_string (suc (suc (suc (suc zero)))) = codes "DeleteStudent"
courseware_to_string (suc (suc (suc (suc (suc zero))))) = codes "Read"
courseware_to_string (suc (suc (suc (suc (suc (suc n)))))) = codes "Invalid"

abbrev pub ecros_courseware_case : EcrosCase
ecros_courseware_case = record {
  State = CoursewareState;
  initial = initial;
  set_vars = set_vars;
  recompute_state = recompute_state;
  should_skip = should_skip;
  apply_call = apply_call;
  seq_commutative = seq_commutative;
  commutative = commutative;
  resolution = resolution;
  idcmp = idcmp;
}
