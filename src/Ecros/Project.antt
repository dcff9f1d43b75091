-- ===== src/Ecros/Project.antt =====
-- wellcoordination/benchmark/ecros-project.hpp: employees, projects and who works on which, and the analysis of their
-- calls. Its idcmp has the text of ecros-set.hpp.
pub mod Laws
use optimistic_replication.Prelude.{
  ℕ, zero, suc, ◌+◌, Bool, true, false, ◌&&◌, ◌||◌, List, [], ◌∷◌, Bytes, codes, if◌then◌else◌, not,
  PairSet, empty_pairs, insert_pair,
}
use optimistic_replication.Call.{Call, type_is}
use optimistic_replication.Ecros.{EcrosCase}
use optimistic_replication.Ecros.Set.{
  idcmp, is_applied, is_empty, insert_element, erase_element, fill,
}

unfoldable pub seq_commutative : Call → Call → Bool
seq_commutative a b =
    type_is a "AddEmployee"
      && (type_is b "AaddEmployee"
          || type_is b "AddProject"
          || type_is b "DeleteProject"
          || type_is b "WorksOn")
    || type_is a "AddProject"
      && (type_is b "AddProject"
          || type_is b "AddEmployee"
          || type_is b "DeleteEmployee"
          || type_is b "WorksOn")
    || type_is a "DeleteEmployee"
      && (type_is b "DeleteEmployee" || type_is b "DeleteProject" || type_is b "AddProject")
    || type_is a "DeleteProject"
      && (type_is b "DeleteProject" || type_is b "DeleteEmployee" || type_is b "AddEmployee")
    || type_is a "WorksOn"
      && (type_is b "WorksOn" || type_is b "AddEmployee" || type_is b "AddProject")

unfoldable pub commutative : Call → Call → Bool
commutative a b = seq_commutative a b

-- '<' is 60, '>' is 62, and '⊤' is 164 as a char.
unfoldable pub resolution : Call → Call → ℕ
resolution a b =
    if (type_is a "DeleteEmployee" || type_is a "DeleteProject") && type_is b "WorksOn"
    then 60
    else if type_is a "WorksOn" && (type_is b "DeleteEmployee" || type_is b "DeleteProject")
    then 62
    else 164

pub record ProjectState : Type 0 where
  pub project_ids : List ℕ
  pub employee_ids : List ℕ
  pub works : PairSet
  pub applied : List (ℕ × ℕ)

abbrev pub initial : ProjectState
initial = record { project_ids = []; employee_ids = []; works = empty_pairs; applied = [] }

-- setVars: its loop does to each set what that of ecros-set.hpp does.
unfoldable pub set_vars : ProjectState → ℕ → ℕ → ProjectState
unfolding fill
set_vars s id nodes = record s {
  project_ids = fill 50 0 s.project_ids;
  employee_ids = fill 50 0 s.employee_ids;
}

-- The chain of tests of applyCall, which is that of recomputeState.
unfoldable pub change : ProjectState → Call → ProjectState
change s c =
    if type_is c "AddProject"
    then record s { project_ids = insert_element c.value1 s.project_ids }
    else if type_is c "DeleteProject" && not (is_empty s.project_ids)
    then record s { project_ids = erase_element c.value1 s.project_ids }
    else if type_is c "WorksOn"
    then record s { works = insert_pair c.value1 c.value2 s.works }
    else if type_is c "AddEmployee"
    then record s { employee_ids = insert_element c.value1 s.employee_ids }
    else if type_is c "DeleteEmployee" && not (is_empty s.employee_ids)
    then record s { employee_ids = erase_element c.value1 s.employee_ids }
    else s

unfoldable pub mark_applied : Call → ProjectState → ProjectState
mark_applied c s = record s { applied = (c.call_id, c.node_id) ∷ s.applied }

unfoldable pub apply_call : ProjectState → Call → ProjectState
unfolding change mark_applied
apply_call s c = if is_applied c s.applied then s else mark_applied c (change s c)

-- The second condition is the literal "DeleteEmployee", which is true of every call.
unfoldable pub should_skip : ProjectState → Call → Bool
should_skip s call =
    if type_is call "DeleteProject" then is_empty s.project_ids else is_empty s.employee_ids

-- A round of recomputeState does what applyCall does.
unfoldable pub recompute_state : ProjectState → List Call → ProjectState
unfolding apply_call
recompute_state s [] = s
recompute_state s (c ∷ order) = recompute_state (apply_call s c) order

-- The enumeration.
unfoldable pub project_to_string : ℕ → Bytes
project_to_string zero = codes "AddProject"
project_to_string (suc zero) = codes "DeleteProject"
project_to_string (suc (suc zero)) = codes "WorksOn"
project_to_string (suc (suc (suc zero))) = codes "AddEmployee"
project_to_string (suc (suc (suc (suc zero)))) = codes "DeleteEmployee"
project_to_string (suc (suc (suc (suc (suc zero))))) = codes "Read"
project_to_string (suc (suc (suc (suc (suc (suc n)))))) = codes "Invalid"

abbrev pub ecros_project_case : EcrosCase
ecros_project_case = record {
  State = ProjectState;
  initial = initial;
  set_vars = set_vars;
  recompute_state = recompute_state;
  should_skip = should_skip;
  apply_call = apply_call;
  seq_commutative = seq_commutative;
  commutative = commutative;
  resolution = resolution;
  idcmp = idcmp;
}
