-- ===== src/UseCase/Courseware/Laws.antt =====
-- courseware.hpp: its conflict relation orders every pair of calls that do not commute.
use Prim.Native.String.{String}
use optimistic_replication.Prelude.{
  insert_pair_self, ℕ, ◌≡◌, refl, false, true, List, codes, IntSet-set, PairSet-set, insert_comm,
  erase_comm, insert_pair_comm, eq_bytes, eq_bytes_other, arith,
}
use optimistic_replication.Call.{Call, type_is}
use optimistic_replication.UseCase.{IsConflictAware}
use optimistic_replication.UseCase.Courseware.{
  CoursewareState, fast_is_reachable_local, fast_is_reachable_remote, update_current_state,
  update_stable_state, courseware_case,
}

commute :
    (s : CoursewareState) (a b : Call)
    → fast_is_reachable_remote a b ≡ false
    → fast_is_reachable_remote b a ≡ false
    → update_stable_state (update_stable_state s a) b
      ≡ update_stable_state (update_stable_state s b) a
unfolding fast_is_reachable_remote update_stable_state
commute s a b h k = ground (
  arith,
  insert_comm a.value1 b.value1 s.course_ids,
  erase_comm a.value1 b.value1 s.course_ids,
  insert_comm a.value1 b.value1 s.student_ids,
  erase_comm a.value1 b.value1 s.student_ids,
  insert_pair_comm a.value1 a.value2 b.value1 b.value2 s.enroll,
)

add_course_not_delete_course :
    (c : Call) → type_is c "AddCourse" ≡ true → type_is c "DeleteCourse" ≡ false
unfolding eq_bytes
add_course_not_delete_course c h =
    eq_bytes_other c.type (codes "AddCourse") (codes "DeleteCourse") refl h

add_course_not_delete_student :
    (c : Call) → type_is c "AddCourse" ≡ true → type_is c "DeleteStudent" ≡ false
unfolding eq_bytes
add_course_not_delete_student c h =
    eq_bytes_other c.type (codes "AddCourse") (codes "DeleteStudent") refl h

add_student_not_delete_course :
    (c : Call) → type_is c "AddStudent" ≡ true → type_is c "DeleteCourse" ≡ false
unfolding eq_bytes
add_student_not_delete_course c h =
    eq_bytes_other c.type (codes "AddStudent") (codes "DeleteCourse") refl h

add_student_not_delete_student :
    (c : Call) → type_is c "AddStudent" ≡ true → type_is c "DeleteStudent" ≡ false
unfolding eq_bytes
add_student_not_delete_student c h =
    eq_bytes_other c.type (codes "AddStudent") (codes "DeleteStudent") refl h

enroll_not_delete_course : (c : Call) → type_is c "Enroll" ≡ true → type_is c "DeleteCourse" ≡ false
unfolding eq_bytes
enroll_not_delete_course c h = eq_bytes_other c.type (codes "Enroll") (codes "DeleteCourse") refl h

enroll_not_delete_student :
    (c : Call) → type_is c "Enroll" ≡ true → type_is c "DeleteStudent" ≡ false
unfolding eq_bytes
enroll_not_delete_student c h =
    eq_bytes_other c.type (codes "Enroll") (codes "DeleteStudent") refl h

no_chain :
    (a b c : Call) → fast_is_reachable_remote a b ≡ true → fast_is_reachable_remote c a ≡ false
unfolding fast_is_reachable_remote
no_chain a b c h = ground (
  arith,
  add_course_not_delete_course a,
  add_course_not_delete_student a,
  add_student_not_delete_course a,
  add_student_not_delete_student a,
  enroll_not_delete_course a,
  enroll_not_delete_student a,
)

local_covers :
    (a b : Call) (vc : List ℕ)
    → fast_is_reachable_local a b ≡ false
    → fast_is_reachable_remote (record a { call_vector_clock = vc }) b ≡ false
unfolding fast_is_reachable_local fast_is_reachable_remote
local_covers a b vc h = h

State-set : IsSet CoursewareState
State-set = hlevel (IntSet-set, PairSet-set)

-- For this object, calls that the remote relation does not order commute; a call that must stand before
-- another has none that must stand before it; and the local test finds every conflict.
pub courseware_case-IsConflictAware : IsConflictAware courseware_case
courseware_case-IsConflictAware = record {
  State-set = State-set;
  commute = commute;
  no_chain = no_chain;
  local_covers = local_covers;
}

enroll_not :
    (c : Call) (other : String)
    → eq_bytes (codes "Enroll") (codes other) ≡ false
    → type_is c "Enroll" ≡ true
    → type_is c other ≡ false
enroll_not c other d h = eq_bytes_other c.type (codes "Enroll") (codes other) d h

-- Every Enroll call leaves the current state as it was, since updateCurrentState tests
-- for the name "Endroll", while it enters the enrolment into the stable state.
pub enroll_lost :
    (s t : CoursewareState) (c : Call)
    → type_is c "Enroll" ≡ true
    → (update_current_state s c ≡ s) × ((update_stable_state t c).enroll c.value1 c.value2 ≡ true)
unfolding update_current_state update_stable_state eq_bytes
enroll_lost s t c h = (
  rw (
    enroll_not c "AddCourse" refl h,
    enroll_not c "DeleteCourse" refl h,
    enroll_not c "Endroll" refl h,
    enroll_not c "AddStudent" refl h,
    enroll_not c "DeleteStudent" refl h,
  ),
  rw (enroll_not c "AddCourse" refl h, enroll_not c "DeleteCourse" refl h, h)
      (insert_pair_self c.value1 c.value2 t.enroll),
)
