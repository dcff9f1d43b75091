-- ===== src/System/Agree.antt =====
-- The nodes of the cluster agree: what they hold when no operation is on its way.
use mathlib.Core.List.Perm
use native.Mathlib.Decide.{ℕ_discrete}
use optimistic_replication.Prelude.{
  ℕ, ◌≤◌, ◌<◌, ◌≡◌, sym, ap, ◌∙◌, Bool, List, [], ◌++◌, append-nil, Perm, take, drop,
  take-append-drop, keep_if-append, subst,
}
use optimistic_replication.Call.{Call}
use optimistic_replication.UseCase.{UseCase, PriorityQueue, IsConflictAware}
use optimistic_replication.Hamsou.Splits.{Any, Any-KeepsPending, take_stable}
use optimistic_replication.Hamsou.Order.{
  IsOrdered, IsOrdered-KeepsPending, replay, replicas_converge,
}
use optimistic_replication.Hamsou.Deliver.{held}
use optimistic_replication.System.{System, is_operation, operations, Reach, IsQuiet}
use optimistic_replication.System.Gather.{gather, gather-same, cancel_front}
use optimistic_replication.System.Invariant.{part, part_self, part_other}
use optimistic_replication.System.Reachable.{Reach-AllHold}

module _ (check_validcall : Call → Bool) (U : UseCase) (Q : PriorityQueue) where
  -- The operations that all nodes have broadcast.
  abbrev pub broadcast_operations : ℕ → System U → List Call
  broadcast_operations n s = gather n (λ k. operations check_validcall (s.sent k))

  part_quiet :
      (n : ℕ) (s : System U) (i k : ℕ)
      → IsQuiet check_validcall n s i
      → 0 < k
      → k ≤ n
      → part check_validcall s.sent (s.taken i) i k ≡ operations check_validcall (s.sent k)
  part_quiet n s i k q a b = elim (ℕ_discrete k i) [
    | yes e ↦ rw e (part_self check_validcall s.sent (s.taken i) i)
    | no e ↦
        part_other check_validcall s.sent (s.taken i) i k e
        ∙ sym (append-nil _)
        ∙ ap (◌++◌ (operations check_validcall (take (s.taken i k) (s.sent k)))) (sym (q k a b e))
        ∙ sym (
            keep_if-append (is_operation check_validcall) (take (s.taken i k) (s.sent k))
              (drop (s.taken i k) (s.sent k)))
        ∙ ap (operations check_validcall) (take-append-drop (s.taken i k) (s.sent k))
  ]

  -- In every state that the cluster reaches by issuing operations, sending acknowledgements and
  -- delivering messages, in any order: a node holds, executed or queued, the operations that it has
  -- broadcast itself and those that it has received, each as often as it was broadcast, and nothing else.
  pub Reach-held :
      {n expected : ℕ} {s : System U} (i : ℕ)
      → Reach check_validcall Q n expected s
      → 0 < i
      → i ≤ n
      → Perm (held U (s.node i)) (gather n (part check_validcall s.sent (s.taken i) i))
  Reach-held i h a b = (Reach-AllHold check_validcall U Any (Any-KeepsPending U) Q tt h i a b).calls

  -- Once every operation has arrived at a node, it holds all operations of the cluster.
  pub Reach-quiet :
      {n expected : ℕ} {s : System U} (i : ℕ)
      → Reach check_validcall Q n expected s
      → 0 < i
      → i ≤ n
      → IsQuiet check_validcall n s i
      → Perm (held U (s.node i)) (broadcast_operations n s)
  Reach-quiet {n} {s} i h a b q =
      subst (Perm (held U (s.node i)))
        (gather-same n (λ k. operations check_validcall (s.sent k))
          (part check_validcall s.sent (s.taken i) i) (λ k. part_quiet n s i k q))
        (Reach-held i h a b)

  -- In every state that the cluster reaches by issuing operations, sending acknowledgements and
  -- delivering messages, in any order: two nodes to which no operation is on its way hold, executed or
  -- queued, the same calls up to their order.
  pub nodes_agree :
      {n expected : ℕ} {s : System U} (i j : ℕ)
      → Reach check_validcall Q n expected s
      → 0 < i
      → i ≤ n
      → 0 < j
      → j ≤ n
      → IsQuiet check_validcall n s i
      → IsQuiet check_validcall n s j
      → Perm (held U (s.node i)) (held U (s.node j))
  nodes_agree i j h a b c d q r =
      Perm.trans (Reach-quiet i h a b q) (Perm.symm (Reach-quiet j h c d r))

  -- Strong eventual consistency. For a use case whose remote relation orders all conflicting calls, in
  -- every state that the cluster reaches by issuing operations, sending acknowledgements and delivering
  -- messages, in any order: take two nodes to which no operation is on its way and whose queues are
  -- empty. If they have made the same calls stable, up to their order, and their stable states agree, then replaying their
  -- execution lists leads both to the same state.
  pub nodes_converge :
      (L : IsConflictAware U) {n expected : ℕ} {s : System U} (i j : ℕ)
      → Reach check_validcall Q n expected s
      → 0 < i
      → i ≤ n
      → 0 < j
      → j ≤ n
      → IsQuiet check_validcall n s i
      → IsQuiet check_validcall n s j
      → (s.node i).priority_queue ≡ []
      → (s.node j).priority_queue ≡ []
      → Perm
          (take (s.node i).stable_index (s.node i).execution_list)
          (take (s.node j).stable_index (s.node j).execution_list)
      → (s.node i).stable_state ≡ (s.node j).stable_state
      → replay U U.initial (s.node i).execution_list ≡ replay U U.initial (s.node j).execution_list
  nodes_converge L {n} {expected} {s} i j h a b c d q r e f p t =
      let inv = Reach-AllHold check_validcall U (IsOrdered U) (IsOrdered-KeepsPending U L) Q tt h in
      let x = inv i a b in
      let y = inv j c d in
      let held_nodes : Perm (x.stable ++ x.rest.pending) (y.stable ++ y.rest.pending) =
        rw
          (
            e,
            f,
            append-nil (s.node i).execution_list,
            append-nil (s.node j).execution_list,
            x.rest.splits.list,
            y.rest.splits.list,
          )
          at (nodes_agree i j h a b c d q r) in
      replicas_converge U L (s.node i) (s.node j) x.stable x.rest.pending y.stable y.rest.pending
        x.rest.splits y.rest.splits t x.rest.holds y.rest.holds
        (cancel_front x.stable y.stable x.rest.pending y.rest.pending
          (rw (take_stable x.rest.splits, take_stable y.rest.splits) at p) held_nodes)
