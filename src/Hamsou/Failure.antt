-- ===== src/Hamsou/Failure.antt =====
-- protocol-hamsou.cpp: markNodeFailed, the reaction to a node that has died.
pub mod Laws
pub mod Effect
use optimistic_replication.Prelude.{
  ℕ, zero, suc, Bool, true, false, not, ◌&&◌, none, some, List, [], ◌∷◌, ◌++◌, ◌==◌, length, take,
  drop, keep_if,
}
use optimistic_replication.Call.{Call}
use optimistic_replication.UseCase.{UseCase, PriorityQueue}
use optimistic_replication.Hamsou.{Handler, at_node, set_node}
use optimistic_replication.Hamsou.Ops.{execute_remote, pop, stabilizer_with_ack}

-- A call of the dead node that nobody has acknowledged.
unfoldable pub is_orphan : (ℕ → ℕ → ℕ) → ℕ → Call → Bool
is_orphan acks remote_node_id c =
    (c.node_id == remote_node_id) && (acks remote_node_id c.call_id == 0)

module _ (U : UseCase) where
  -- The flag, and the erasure from the calls that are not stable.
  unfoldable pub bury : Handler U → ℕ → Handler U
  bury s remote_node_id =
      let kept =
        take s.stable_index s.execution_list
        ++ keep_if (λ c. not (is_orphan s.acks remote_node_id c))
            (drop s.stable_index s.execution_list) in
      record s {
        node_failed = set_node s.node_failed remote_node_id true;
        execution_list = kept;
        current_index = length kept;
      }

  module _ (Q : PriorityQueue) where
    -- Every queued call is executed, with no test.
    unfoldable pub force_drain_loop : ℕ → Handler U → Handler U
    force_drain_loop zero s = s
    force_drain_loop (suc fuel) s = elim s.priority_queue [
      | [] ↦ s
      | top ∷ rest ↦ force_drain_loop fuel (pop U Q (execute_remote U s top))
    ]

    unfoldable pub force_drain : Handler U → Handler U
    unfolding force_drain_loop
    force_drain s = force_drain_loop (length s.priority_queue) s

    unfoldable pub mark_node_failed : Handler U → ℕ → Handler U
    mark_node_failed s remote_node_id = elim (at_node s.node_failed remote_node_id) [
      | none ↦ s
      | some true ↦ s
      | some false ↦
          stabilizer_with_ack U Q (force_drain (stabilizer_with_ack U Q (bury s remote_node_id)))
    ]
