-- ===== src/UseCase/Ycsb.antt =====
-- wellcoordination/benchmark/ycsb.hpp: the set of integers for the YCSB workloads.
pub mod Laws
use optimistic_replication.Prelude.{
  ℕ, zero, suc, Bool, true, false, ◌&&◌, Bytes, codes, List, IntSet, empty_set, insert, erase,
  if◌then◌else◌,
}
use optimistic_replication.Call.{Call, type_is}
use optimistic_replication.VectorClock.{Causality}
use optimistic_replication.VectorClock as VectorClock
use optimistic_replication.UseCase.{UseCase}

-- setToString of Ycsb: the enumeration Add, Remove, Read.
unfoldable pub ycsb_to_string : ℕ → Bytes
ycsb_to_string zero = codes "Add"
ycsb_to_string (suc zero) = codes "Remove"
ycsb_to_string (suc (suc zero)) = codes "Read"
ycsb_to_string (suc (suc (suc n))) = codes "Invalid"

unfoldable pub locally_permissibility : IntSet → Call → Bool
locally_permissibility current call = true

unfoldable pub compare_vector_clocks : List ℕ → List ℕ → Causality
compare_vector_clocks = VectorClock.compare_vector_clocks

unfoldable pub fast_is_reachable_local : Call → Call → Bool
fast_is_reachable_local input1 input2 = type_is input1 "Add" && type_is input2 "Remove"

unfoldable pub fast_is_reachable_remote : Call → Call → Bool
fast_is_reachable_remote input1 input2 = type_is input1 "Add" && type_is input2 "Remove"

-- The elements of `current_state` after a call.
unfoldable pub update_current_state : IntSet → Call → IntSet
update_current_state elements call =
    if type_is call "Add"
    then insert call.value1 elements
    else if type_is call "Remove"
    then erase call.value1 elements
    else elements

-- The elements of `stable_state` after a call.
unfoldable pub update_stable_state : IntSet → Call → IntSet
update_stable_state elements call =
    if type_is call "Add"
    then insert call.value1 elements
    else if type_is call "Remove"
    then erase call.value1 elements
    else elements

abbrev pub ycsb_case : UseCase
ycsb_case = record {
  State = IntSet;
  initial = empty_set;
  locally_permissibility = locally_permissibility;
  update_current_state = update_current_state;
  update_stable_state = update_stable_state;
  fast_is_reachable_local = fast_is_reachable_local;
  fast_is_reachable_remote = fast_is_reachable_remote;
  compare_vector_clocks = compare_vector_clocks;
}
