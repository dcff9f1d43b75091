-- ===== src/UseCase/ComplexCourseware.antt =====
-- wellcoordination/benchmark/complex-courseware.hpp: students, instructors, courses and departments, with
-- enrolments and teaching, under forced and cascading updates.
pub mod Tables
pub mod Updates
pub mod Laws
pub mod Lookups
pub mod Freeing
pub mod Renaming
pub mod Names
use optimistic_replication.Prelude.{
  ℕ, Bool, true, ◌&&◌, ◌||◌, List, [], ◌∷◌, Bytes, codes, Option, none, some, PairSet, IntSet,
  empty_set, empty_pairs, ltb, get_elem?, if◌then◌else◌,
}
use optimistic_replication.Call.{Call, type_is}
use optimistic_replication.VectorClock.{Causality}
use optimistic_replication.VectorClock as VectorClock

pub record StudentRow : Type 0 where
  pub first_name : ℕ
  pub last_name : ℕ

pub record InstructorRow : Type 0 where
  pub first_name : ℕ
  pub last_name : ℕ
  pub department : ℕ

pub record CourseRow : Type 0 where
  pub course_name : ℕ
  pub semester : ℕ
  pub department : ℕ

-- ComplexCoursewareState without its `index`. A std::unordered_map is the lookup in it.
pub record ComplexState : Type 0 where
  pub students : ℕ → Option StudentRow
  pub instructors : ℕ → Option InstructorRow
  pub courses : ℕ → Option CourseRow
  pub departments : IntSet
  pub enroll : PairSet
  pub teach : PairSet
  pub course_name_index : ℕ → Option ℕ

abbrev pub initial : ComplexState
initial = record {
  students = λ k. none;
  instructors = λ k. none;
  courses = λ k. none;
  departments = empty_set;
  enroll = empty_pairs;
  teach = empty_pairs;
  course_name_index = λ k. none;
}

-- The enumeration CoursewareEnum, in its order.
abbrev courseware_enum : List Bytes
courseware_enum =
    codes "AddStudentForce"
    ∷ codes "DeleteStudentCascade"
    ∷ codes "UpdateStudentIDCascade"
    ∷ codes "UpdateStudentOther"
    ∷ codes "AddInstructorForce"
    ∷ codes "DeleteInstructorCascade"
    ∷ codes "UpdateInstructorIDCascade"
    ∷ codes "UpdateInstructorOther"
    ∷ codes "AddCourseForce"
    ∷ codes "DeleteCourseCascade"
    ∷ codes "UpdateCourseIDCascade"
    ∷ codes "UpdateCourseNameForce"
    ∷ codes "UpdateCourseOther"
    ∷ codes "AddDepartment"
    ∷ codes "DeleteDepartmentNoAction"
    ∷ codes "Enroll"
    ∷ codes "WithdrawEnrollment"
    ∷ codes "Teach"
    ∷ codes "WithdrawTeaching"
    ∷ codes "Read"
    ∷ []

-- coursewareToString
unfoldable pub complex_to_string : ℕ → Bytes
complex_to_string courseware = elim (get_elem? courseware_enum courseware) [
  | none ↦ codes "Invalid"
  | some name ↦ name
]

unfoldable pub locally_permissibility : ComplexState → Call → Bool
locally_permissibility current call = true

unfoldable pub check_validcall : Call → Bool
check_validcall call =
    type_is call "AddStudentForce"
    || type_is call "DeleteStudentCascade"
    || type_is call "UpdateStudentIDCascade"
    || type_is call "UpdateStudentOther"
    || type_is call "AddInstructorForce"
    || type_is call "DeleteInstructorCascade"
    || type_is call "UpdateInstructorIDCascade"
    || type_is call "UpdateInstructorOther"
    || type_is call "AddCourseForce"
    || type_is call "DeleteCourseCascade"
    || type_is call "UpdateCourseIDCascade"
    || type_is call "UpdateCourseNameForce"
    || type_is call "UpdateCourseOther"
    || type_is call "AddDepartment"
    || type_is call "DeleteDepartmentNoAction"
    || type_is call "Enroll"
    || type_is call "WithdrawEnrollment"
    || type_is call "Teach"
    || type_is call "WithdrawTeaching"
    || type_is call "Read"

unfoldable pub compare_vector_clocks : List ℕ → List ℕ → Causality
compare_vector_clocks = VectorClock.compare_vector_clocks

-- `input1.type == t && input2.type == t && input1.node_id < input2.node_id`
abbrev pub lower_node : Call → Call → Bool
lower_node a b = ltb a.node_id b.node_id

-- The condition of fastisreachableremote.
unfoldable pub fast_is_reachable_remote : Call → Call → Bool
fast_is_reachable_remote a b =
    type_is a "AddStudentForce" && (type_is b "AddStudentForce" && lower_node a b)
    || type_is a "AddStudentForce"
      && (type_is b "DeleteStudentCascade" || type_is b "UpdateStudentIDCascade")
    || type_is a "UpdateStudentIDCascade" && (type_is b "UpdateStudentIDCascade" && lower_node a b)
    || type_is a "UpdateStudentOther" && (type_is b "UpdateStudentOther" && lower_node a b)
    || type_is a "UpdateStudentOther"
      && (type_is b "AddStudentForce" || type_is b "UpdateStudentIDCascade")
    || type_is a "AddInstructorForce" && (type_is b "AddInstructorForce" && lower_node a b)
    || type_is a "AddInstructorForce"
      && (type_is b "DeleteInstructorCascade"
          || type_is b "UpdateInstructorIDCascade"
          || type_is b "DeleteDepartmentNoAction")
    || type_is a "UpdateInstructorIDCascade"
      && (type_is b "UpdateInstructorIDCascade" && lower_node a b)
    || type_is a "UpdateInstructorOther" && (type_is b "UpdateInstructorOther" && lower_node a b)
    || type_is a "UpdateInstructorOther"
      && (type_is b "AddInstructorForce"
          || type_is b "UpdateInstructorIDCascade"
          || type_is b "DeleteDepartmentNoAction")
    || type_is a "AddCourseForce" && (type_is b "AddCourseForce" && lower_node a b)
    || type_is a "AddCourseForce"
      && (type_is b "DeleteCourseCascade"
          || type_is b "UpdateCourseIDCascade"
          || type_is b "DeleteDepartmentNoAction")
    || type_is a "UpdateCourseIDCascade" && (type_is b "UpdateCourseIDCascade" && lower_node a b)
    || type_is a "UpdateCourseNameForce" && (type_is b "UpdateCourseNameForce" && lower_node a b)
    || type_is a "UpdateCourseNameForce"
      && (type_is b "AddCourseForce" || type_is b "UpdateCourseIDCascade")
    || type_is a "UpdateCourseOther" && (type_is b "UpdateCourseOther" && lower_node a b)
    || type_is a "UpdateCourseOther"
      && (type_is b "AddCourseForce"
          || type_is b "UpdateCourseIDCascade"
          || type_is b "DeleteDepartmentNoAction")
    || type_is a "AddDepartment" && type_is b "DeleteDepartmentNoAction"
    || type_is a "Enroll"
      && (type_is b "DeleteStudentCascade"
          || type_is b "UpdateStudentIDCascade"
          || type_is b "DeleteCourseCascade"
          || type_is b "UpdateCourseIDCascade"
          || type_is b "WithdrawEnrollment")
    || type_is a "Teach"
      && (type_is b "DeleteInstructorCascade"
          || type_is b "UpdateInstructorIDCascade"
          || type_is b "DeleteCourseCascade"
          || type_is b "UpdateCourseIDCascade"
          || type_is b "WithdrawTeaching")

-- fastisreachablelocal has the same text.
unfoldable pub fast_is_reachable_local : Call → Call → Bool
fast_is_reachable_local a b = fast_is_reachable_remote a b
