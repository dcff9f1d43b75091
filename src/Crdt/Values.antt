-- ===== src/Crdt/Values.antt =====
-- op-crdt-counter.hpp and op-crdt-gset.hpp: what the objects hold after any history.
use optimistic_replication.Prelude.{
  ℕ, suc, ◌+◌, ◌<◌, ◌≡◌, ap, ◌∙◌, Bool, false, ◌&&◌, ◌||◌, ◌==◌, List, [], ◌∷◌, IntSet, insert,
  if◌then◌else◌, arith,
}
use optimistic_replication.Call.{Call, type_is}
use optimistic_replication.Crdt.{CrdtEvent, set_vars, run}
use optimistic_replication.Crdt.Laws.{replay, run-Settled, set_vars-Settled}
use optimistic_replication.Crdt.Counter.{counter_case}
use optimistic_replication.Crdt.Counter as Counter
use optimistic_replication.Crdt.Gset.{gset_case}
use optimistic_replication.Crdt.Gset as Gset

-- How many of the calls are updates.
abbrev pub updates : List Call → ℕ
updates [] = 0
updates (c ∷ cs) = if type_is c "Update" then suc (updates cs) else updates cs

replay-counter : (n : ℕ) (cs : List Call) → replay counter_case n cs ≡ n + updates cs
replay-counter n [] = omega arith
replay-counter n (c ∷ cs) =
    replay-counter (Counter.update_current_state n c) cs
    ∙ unfold Counter.update_current_state in ground arith

-- After every history of a node of the counter, the counter has grown by the number of Update calls that
-- the node has executed.
pub counter_counts :
    (start id num_nodes : ℕ) (es : List (CrdtEvent counter_case))
    → 0 < num_nodes
    → let s = run counter_case (set_vars counter_case start id num_nodes) es in
      s.current_state ≡ start + updates s.execution_list
counter_counts start id num_nodes es h =
    (run-Settled counter_case start _ es
      (set_vars-Settled counter_case start id num_nodes h)).replays
    ∙ replay-counter start _

-- Some call of the list puts the element into the set.
abbrev pub updates_with : ℕ → List Call → Bool
updates_with x [] = false
updates_with x (c ∷ cs) = type_is c "Update" && (c.value1 == x) || updates_with x cs

replay-gset :
    (t : IntSet) (cs : List Call) (x : ℕ) → replay gset_case t cs x ≡ (t x || updates_with x cs)
replay-gset t [] x = ground arith
replay-gset t (c ∷ cs) x =
    replay-gset (Gset.update_current_state t c) cs x
    ∙ unfold Gset.update_current_state insert in ground arith

-- After every history of a node of the growing set, it holds exactly the elements that it held at the
-- start and those of the Update calls that the node has executed.
pub gset_grows :
    (start : IntSet) (id num_nodes x : ℕ) (es : List (CrdtEvent gset_case))
    → 0 < num_nodes
    → let s = run gset_case (set_vars gset_case start id num_nodes) es in
      s.current_state x ≡ (start x || updates_with x s.execution_list)
gset_grows start id num_nodes x es h =
    ap (λ t. t x)
      (run-Settled gset_case start _ es (set_vars-Settled gset_case start id num_nodes h)).replays
    ∙ replay-gset start _ x
