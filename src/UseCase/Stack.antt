-- ===== src/UseCase/Stack.antt =====
-- wellcoordination/benchmark/stack.hpp: the replicated stack. The back of the vector is the end of the
-- list.
pub mod Laws
use optimistic_replication.Prelude.{
  ℕ, zero, suc, Bool, true, ◌&&◌, ◌||◌, Bytes, codes, List, [], ◌∷◌, ◌++◌, ltb, if◌then◌else◌,
}
use optimistic_replication.Call.{Call, type_is}
use optimistic_replication.VectorClock.{Causality, is_concurrent}
use optimistic_replication.VectorClock as VectorClock
use optimistic_replication.UseCase.{UseCase}

-- stackToString: the enumeration Push, Pop, Read.
unfoldable pub stack_to_string : ℕ → Bytes
stack_to_string zero = codes "Push"
stack_to_string (suc zero) = codes "Pop"
stack_to_string (suc (suc zero)) = codes "Read"
stack_to_string (suc (suc (suc n))) = codes "Invalid"

unfoldable pub locally_permissibility : List ℕ → Call → Bool
locally_permissibility current call = true

unfoldable pub compare_vector_clocks : List ℕ → List ℕ → Causality
compare_vector_clocks = VectorClock.compare_vector_clocks

unfoldable pub fast_is_reachable_local : Call → Call → Bool
fast_is_reachable_local input1 input2 =
    type_is input1 "Push" && type_is input2 "Push" && ltb input1.node_id input2.node_id
    || type_is input1 "Push" && type_is input2 "Pop"

unfoldable pub fast_is_reachable_remote : Call → Call → Bool
fast_is_reachable_remote input1 input2 =
    type_is input1 "Push"
    && type_is input2 "Pop"
    && is_concurrent (compare_vector_clocks input1.call_vector_clock input2.call_vector_clock)

-- vector::pop_back, behind the test that the vector is not empty.
unfoldable pub pop_back : List ℕ → List ℕ
pop_back [] = []
pop_back (x ∷ []) = []
pop_back (x ∷ y ∷ ys) = x ∷ pop_back (y ∷ ys)

-- The elements of `current_state` after a call.
unfoldable pub update_current_state : List ℕ → Call → List ℕ
update_current_state elements call =
    if type_is call "Push"
    then elements ++ (call.value1 ∷ [])
    else if type_is call "Pop"
    then pop_back elements
    else elements

-- The elements of `stable_state` after a call.
unfoldable pub update_stable_state : List ℕ → Call → List ℕ
update_stable_state elements call =
    if type_is call "Push"
    then elements ++ (call.value1 ∷ [])
    else if type_is call "Pop"
    then pop_back elements
    else elements

abbrev pub stack_case : UseCase
stack_case = record {
  State = List ℕ;
  initial = [];
  locally_permissibility = locally_permissibility;
  update_current_state = update_current_state;
  update_stable_state = update_stable_state;
  fast_is_reachable_local = fast_is_reachable_local;
  fast_is_reachable_remote = fast_is_reachable_remote;
  compare_vector_clocks = compare_vector_clocks;
}
