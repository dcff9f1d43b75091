-- ===== src/UseCase/Project.antt =====
-- wellcoordination/benchmark/project.hpp: the replicated projects, employees and work assignments.
pub mod Laws
use optimistic_replication.Prelude.{
  ℕ, zero, suc, Bool, true, false, ◌&&◌, ◌||◌, Bytes, codes, List, IntSet, PairSet, empty_set,
  empty_pairs, insert, erase, insert_pair, if◌then◌else◌,
}
use optimistic_replication.Call.{Call, type_is}
use optimistic_replication.VectorClock.{Causality}
use optimistic_replication.VectorClock as VectorClock
use optimistic_replication.UseCase.{UseCase}

-- ProjectState without its `index`.
pub record ProjectState : Type 0 where
  pub employee_ids : IntSet
  pub project_ids : IntSet
  pub works : PairSet

abbrev pub initial : ProjectState
initial = record { employee_ids = empty_set; project_ids = empty_set; works = empty_pairs }

-- projectToString: the enumeration AddProject, DeleteProject, WorksOn, AddEmployee, DeleteEmployee, Read.
unfoldable pub project_to_string : ℕ → Bytes
project_to_string zero = codes "AddProject"
project_to_string (suc zero) = codes "DeleteProject"
project_to_string (suc (suc zero)) = codes "WorksOn"
project_to_string (suc (suc (suc zero))) = codes "AddEmployee"
project_to_string (suc (suc (suc (suc zero)))) = codes "DeleteEmployee"
project_to_string (suc (suc (suc (suc (suc zero))))) = codes "Read"
project_to_string (suc (suc (suc (suc (suc (suc n)))))) = codes "Invalid"

unfoldable pub locally_permissibility : ProjectState → Call → Bool
locally_permissibility current call = true

unfoldable pub compare_vector_clocks : List ℕ → List ℕ → Causality
compare_vector_clocks = VectorClock.compare_vector_clocks

unfoldable pub fast_is_reachable_local : Call → Call → Bool
fast_is_reachable_local input1 input2 =
    type_is input1 "AddEmployee" && type_is input2 "DeleteEmployee"
    || type_is input1 "AddProject" && type_is input2 "DeleteProject"
    || type_is input1 "WorksOn"
      && (type_is input2 "DeleteEmployee" || type_is input2 "DeleteProject")

unfoldable pub fast_is_reachable_remote : Call → Call → Bool
fast_is_reachable_remote input1 input2 =
    type_is input1 "AddEmployee" && type_is input2 "DeleteEmployee"
    || type_is input1 "AddProject" && type_is input2 "DeleteProject"
    || type_is input1 "WorksOn"
      && (type_is input2 "DeleteEmployee" || type_is input2 "DeleteProject")

-- `current_state` after a call.
unfoldable pub update_current_state : ProjectState → Call → ProjectState
update_current_state s call =
    if type_is call "AddProject"
    then record s { project_ids = insert call.value1 s.project_ids }
    else if type_is call "DeleteProject"
    then record s { project_ids = erase call.value1 s.project_ids }
    else if type_is call "WorksOn"
    then record s { works = insert_pair call.value1 call.value2 s.works }
    else if type_is call "AddEmployee"
    then record s { employee_ids = insert call.value1 s.employee_ids }
    else if type_is call "DeleteEmployee"
    then record s { employee_ids = erase call.value1 s.employee_ids }
    else s

-- `stable_state` after a call.
unfoldable pub update_stable_state : ProjectState → Call → ProjectState
update_stable_state s call =
    if type_is call "AddProject"
    then record s { project_ids = insert call.value1 s.project_ids }
    else if type_is call "DeleteProject"
    then record s { project_ids = erase call.value1 s.project_ids }
    else if type_is call "WorksOn"
    then record s { works = insert_pair call.value1 call.value2 s.works }
    else if type_is call "AddEmployee"
    then record s { employee_ids = insert call.value1 s.employee_ids }
    else if type_is call "DeleteEmployee"
    then record s { employee_ids = erase call.value1 s.employee_ids }
    else s

abbrev pub project_case : UseCase
project_case = record {
  State = ProjectState;
  initial = initial;
  locally_permissibility = locally_permissibility;
  update_current_state = update_current_state;
  update_stable_state = update_stable_state;
  fast_is_reachable_local = fast_is_reachable_local;
  fast_is_reachable_remote = fast_is_reachable_remote;
  compare_vector_clocks = compare_vector_clocks;
}
