-- ===== src/PartialSyn/Stabilize.antt =====
-- protocol2-partialsyn.cpp: stabilizerWithVC and stabilizerWithAck.
use optimistic_replication.Prelude.{
  ℕ, zero, suc, ◌+◌, Bool, false, none, some, List, [], ◌∷◌, ◌++◌, if◌then◌else◌, ◌==◌, length,
  get_elem?,
}
use optimistic_replication.Call.{Call}
use optimistic_replication.UseCase.{UseCase}
use optimistic_replication.PartialSyn.{PartialHandler}
use optimistic_replication.PartialSyn.Ops.{remote_handler}

module _ (U : UseCase) where
  -- stabilizerWithVC returns before its first loop, in all states.
  unfoldable pub stabilizer_with_vc : PartialHandler U → PartialHandler U
  stabilizer_with_vc s = s

  -- Has the call all acknowledgements that this node waits for, and no more?
  unfoldable pub acked : PartialHandler U → Call → Bool
  acked s call =
      if call.node_id == s.node_id
      then s.acks call.node_id call.call_id + 1 == s.number_of_nodes
      else s.acks call.node_id call.call_id + 2 == s.number_of_nodes

  -- The loop over the queued calls: `kept` were seen and stay, `left` are to come.
  unfoldable pub queue_pass : List Call → List Call → PartialHandler U → PartialHandler U
  queue_pass kept [] s = s
  queue_pass kept (c ∷ left) s =
      let (s', removed) = remote_handler U false s c in
      let without = queue_pass kept left (record s' { queued_list = kept ++ left }) in
      let with_it = queue_pass (kept ++ (c ∷ [])) left s' in if removed then without else with_it

  -- One call becomes stable, and the queue is tried again.
  unfoldable pub commit : PartialHandler U → Call → PartialHandler U
  commit s call =
      let s' = record s {
        stable_state = U.update_stable_state s.stable_state call;
        stable_index = s.stable_index + 1;
        waittobestable = s.waittobestable + 1;
      } in
      queue_pass [] s'.queued_list s'

  -- The loop, whose index is the stable index. It passes each call of the execution list once, and a queued
  -- call enters that list once.
  unfoldable pub stabilize_loop : ℕ → PartialHandler U → PartialHandler U
  stabilize_loop zero s = s
  stabilize_loop (suc fuel) s = elim (get_elem? s.execution_list s.stable_index) [
    | none ↦ s
    | some call ↦ let rest = stabilize_loop fuel (commit s call) in if acked s call then rest else s
  ]

  unfoldable pub stabilizer_with_ack : PartialHandler U → PartialHandler U
  stabilizer_with_ack s = stabilize_loop (length s.execution_list + length s.queued_list) s
