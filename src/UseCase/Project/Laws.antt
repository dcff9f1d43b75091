-- ===== src/UseCase/Project/Laws.antt =====
-- project.hpp: its conflict relation orders every pair of calls that do not commute.
use optimistic_replication.Prelude.{
  ℕ, ◌≡◌, refl, false, true, List, codes, IntSet-set, PairSet-set, insert_comm, erase_comm,
  insert_pair_comm, eq_bytes, eq_bytes_other, arith,
}
use optimistic_replication.Call.{Call, type_is}
use optimistic_replication.UseCase.{IsConflictAware}
use optimistic_replication.UseCase.Project.{
  ProjectState, fast_is_reachable_local, fast_is_reachable_remote, update_stable_state,
  project_case,
}

commute :
    (s : ProjectState) (a b : Call)
    → fast_is_reachable_remote a b ≡ false
    → fast_is_reachable_remote b a ≡ false
    → update_stable_state (update_stable_state s a) b
      ≡ update_stable_state (update_stable_state s b) a
unfolding fast_is_reachable_remote update_stable_state
commute s a b h k = ground (
  arith,
  insert_comm a.value1 b.value1 s.project_ids,
  erase_comm a.value1 b.value1 s.project_ids,
  insert_comm a.value1 b.value1 s.employee_ids,
  erase_comm a.value1 b.value1 s.employee_ids,
  insert_pair_comm a.value1 a.value2 b.value1 b.value2 s.works,
)

add_employee_not_delete_employee :
    (c : Call) → type_is c "AddEmployee" ≡ true → type_is c "DeleteEmployee" ≡ false
unfolding eq_bytes
add_employee_not_delete_employee c h =
    eq_bytes_other c.type (codes "AddEmployee") (codes "DeleteEmployee") refl h

add_employee_not_delete_project :
    (c : Call) → type_is c "AddEmployee" ≡ true → type_is c "DeleteProject" ≡ false
unfolding eq_bytes
add_employee_not_delete_project c h =
    eq_bytes_other c.type (codes "AddEmployee") (codes "DeleteProject") refl h

add_project_not_delete_employee :
    (c : Call) → type_is c "AddProject" ≡ true → type_is c "DeleteEmployee" ≡ false
unfolding eq_bytes
add_project_not_delete_employee c h =
    eq_bytes_other c.type (codes "AddProject") (codes "DeleteEmployee") refl h

add_project_not_delete_project :
    (c : Call) → type_is c "AddProject" ≡ true → type_is c "DeleteProject" ≡ false
unfolding eq_bytes
add_project_not_delete_project c h =
    eq_bytes_other c.type (codes "AddProject") (codes "DeleteProject") refl h

works_on_not_delete_employee :
    (c : Call) → type_is c "WorksOn" ≡ true → type_is c "DeleteEmployee" ≡ false
unfolding eq_bytes
works_on_not_delete_employee c h =
    eq_bytes_other c.type (codes "WorksOn") (codes "DeleteEmployee") refl h

works_on_not_delete_project :
    (c : Call) → type_is c "WorksOn" ≡ true → type_is c "DeleteProject" ≡ false
unfolding eq_bytes
works_on_not_delete_project c h =
    eq_bytes_other c.type (codes "WorksOn") (codes "DeleteProject") refl h

no_chain :
    (a b c : Call) → fast_is_reachable_remote a b ≡ true → fast_is_reachable_remote c a ≡ false
unfolding fast_is_reachable_remote
no_chain a b c h = ground (
  arith,
  add_employee_not_delete_employee a,
  add_employee_not_delete_project a,
  add_project_not_delete_employee a,
  add_project_not_delete_project a,
  works_on_not_delete_employee a,
  works_on_not_delete_project a,
)

local_covers :
    (a b : Call) (vc : List ℕ)
    → fast_is_reachable_local a b ≡ false
    → fast_is_reachable_remote (record a { call_vector_clock = vc }) b ≡ false
unfolding fast_is_reachable_local fast_is_reachable_remote
local_covers a b vc h = h

State-set : IsSet ProjectState
State-set = hlevel (IntSet-set, PairSet-set)

-- For this object, calls that the remote relation does not order commute; a call that must stand before
-- another has none that must stand before it; and the local test finds every conflict.
pub project_case-IsConflictAware : IsConflictAware project_case
project_case-IsConflictAware = record {
  State-set = State-set;
  commute = commute;
  no_chain = no_chain;
  local_covers = local_covers;
}
