-- ===== src/UseCase.antt =====
-- What the handlers of protocol-hamsou.cpp use of `obj`, the replicated object that tcp/config.hpp
-- selects, and of std::priority_queue.
pub mod Set
pub mod Movie
pub mod Courseware
pub mod Project
pub mod Stack
pub mod Ycsb
pub mod ComplexCourseware
pub mod Laws
use mathlib.Core.List.{Perm}
use optimistic_replication.Prelude.{ℕ, ◌≡◌, Bool, false, true, List, ◌∷◌}
use optimistic_replication.Call.{Call}
use optimistic_replication.VectorClock.{Causality}

-- `current_state` and `stable_state` without their `index` have the type `State`.
pub record UseCase : Type 1 where
  pub State : Type 0
  pub initial : State
  pub locally_permissibility : State → Call → Bool
  pub update_current_state : State → Call → State
  pub update_stable_state : State → Call → State
  pub fast_is_reachable_local : Call → Call → Bool
  pub fast_is_reachable_remote : Call → Call → Bool
  pub compare_vector_clocks : List ℕ → List ℕ → Causality

-- std::priority_queue over a std::vector: its front is `top()`. How std::push_heap and std::pop_heap
-- rearrange the vector depends on the library and the comparator; both lose and invent nothing.
-- `push_heap x q` is the vector after `push(x)`, and `pop_heap x q` what `pop()` leaves of `x ∷ q`.
pub record PriorityQueue : Type 0 where
  pub push_heap : Call → List Call → List Call
  pub pop_heap : Call → List Call → List Call
  pub push_perm : (x : Call) (q : List Call) → Perm (push_heap x q) (x ∷ q)
  pub pop_perm : (x : Call) (q : List Call) → Perm (pop_heap x q) q

-- The laws of a use case under which the order of conflicting calls alone decides the state.
pub record IsConflictAware (U : UseCase) : Type 0 where
  pub State-set : IsSet U.State
  -- Calls that the remote relation does not order commute.
  pub commute :
      (s : U.State) (a b : Call)
      → U.fast_is_reachable_remote a b ≡ false
      → U.fast_is_reachable_remote b a ≡ false
      → U.update_stable_state (U.update_stable_state s a) b
        ≡ U.update_stable_state (U.update_stable_state s b) a
  -- A call that must stand before another has none that must stand before it.
  pub no_chain :
      (a b c : Call)
      → U.fast_is_reachable_remote a b ≡ true
      → U.fast_is_reachable_remote c a ≡ false
  -- The local test finds every conflict that the remote one finds, whatever the clock of the call.
  pub local_covers :
      (a b : Call) (vc : List ℕ)
      → U.fast_is_reachable_local a b ≡ false
      → U.fast_is_reachable_remote (record a { call_vector_clock = vc }) b ≡ false
