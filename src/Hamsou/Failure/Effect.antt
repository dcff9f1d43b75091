-- ===== src/Hamsou/Failure/Effect.antt =====
-- protocol-hamsou.cpp, markNodeFailed: the calls that it drops, and what it keeps of a well-formed
-- handler.
use mathlib.Core.List.{perm_append_comm}
use mathlib.Core.List.Perm
use optimistic_replication.Prelude.{
  ◌==◌, ◌&&◌, ℕ, ◌≡◌, inl, inr, true, false, not, some, List, ◌++◌, Perm, append_assoc, length,
  keep_if, Option-cases, take-append, drop-append,
}
use optimistic_replication.Call.{Call}
use optimistic_replication.UseCase.{UseCase, PriorityQueue}
use optimistic_replication.Hamsou.{Handler, at_node}
use optimistic_replication.Hamsou.Ops.{stabilizer_with_ack}
use optimistic_replication.Hamsou.Failure.{is_orphan, bury, force_drain, mark_node_failed}
use optimistic_replication.Hamsou.Failure.Laws.{
  keep_if-perm, force_drain_loop-keeps, force_drain-perm, react, mark_alive, mark_dead,
  mark_unknown,
}
use optimistic_replication.Hamsou.Splits.{
  Splits, Holds, Extends, KeepsPending, Extends-trans, Extends-here, bury-Splits, Any,
  Any-KeepsPending,
}
use optimistic_replication.Hamsou.Deliver.{held}
use optimistic_replication.Hamsou.Pending.{round-Holds}
use optimistic_replication.Hamsou.Stabilize.{stabilizer_with_ack-Extends, stabilizer_with_ack-perm}

regroup_perm :
    (pre kept queue dropped suf : List Call)
    → Perm (kept ++ dropped) suf
    → Perm (((pre ++ kept) ++ queue) ++ dropped) ((pre ++ suf) ++ queue)
regroup_perm pre kept queue dropped suf h = rw (append_assoc (pre ++ kept) queue dropped) (
    Perm.trans (Perm.append_left (pre ++ kept) (perm_append_comm queue dropped)) (
      rw (← append_assoc (pre ++ kept) dropped queue)
        (Perm.append_right queue (rw (append_assoc pre kept dropped) (Perm.append_left pre h)))))

module _ (U : UseCase) (Q : PriorityQueue) where
  module _ (R : List Call → Type 0) (K : KeepsPending U R) where
    bury-Holds :
        (pre : List Call) (s : Handler U) (r : ℕ) → Holds R pre s → Holds R pre (bury U s r)
    bury-Holds pre s r h = record {
      pending = keep_if (λ c. not (is_orphan s.acks r c)) h.pending;
      splits = bury-Splits s r pre h.pending h.splits;
      holds = K.keep _ h.pending h.holds;
    }

    force_drain-Holds :
        (pre : List Call) (s : Handler U) → Holds R pre s → Holds R pre (force_drain U Q s)
    unfolding force_drain
    force_drain-Holds pre s h =
        force_drain_loop-keeps U Q (Holds R pre) (λ t top rest e x. round-Holds U Q R K pre t top x)
          (length s.priority_queue) s h

    react-Extends :
        (pre : List Call) (s : Handler U) (r : ℕ) → Holds R pre s → Extends R pre (react U Q s r)
    react-Extends pre s r h =
        let x = stabilizer_with_ack-Extends U Q R K pre (bury U s r) (bury-Holds pre s r h) in
        Extends-trans R pre x.more _ (
          stabilizer_with_ack-Extends U Q R K (pre ++ x.more) _
            (force_drain-Holds (pre ++ x.more) _ x.rest))

    pub mark_node_failed-Extends :
        (pre : List Call) (s : Handler U) (r : ℕ)
        → Holds R pre s
        → Extends R pre (mark_node_failed U Q s r)
    mark_node_failed-Extends pre s r h = elim (Option-cases (at_node s.node_failed r)) [
      | inl e ↦ rw (mark_unknown U Q s r e) (Extends-here R pre s h)
      | inr (true, e) ↦ rw (mark_dead U Q s r e) (Extends-here R pre s h)
      | inr (false, e) ↦ rw (mark_alive U Q s r e) (react-Extends pre s r h)
    ]

  -- The pending calls of the dead node that nobody has acknowledged.
  abbrev pub orphans : Handler U → ℕ → List Call → List Call
  orphans s r suf = keep_if (λ c. (c.node_id == r) && (s.acks r c.call_id == 0)) suf

  bury-perm :
      (s : Handler U) (r : ℕ) (pre suf : List Call)
      → Splits s pre suf
      → Perm (held U (bury U s r) ++ orphans s r suf) (held U s)
  unfolding bury is_orphan
  bury-perm s r pre suf v =
      rw (v.list, v.boundary, take-append pre suf, drop-append pre suf)
        (regroup_perm pre _ s.priority_queue (orphans s r suf) suf
          (keep_if-perm (is_orphan s.acks r) suf))

  -- Marking a live node as failed in a well-formed handler loses exactly that node's pending calls that
  -- no one has acknowledged, and doubles none: with them the calls held afterwards are the calls held
  -- before.
  pub mark_node_failed-perm :
      (s : Handler U) (r : ℕ) (pre suf : List Call)
      → Splits s pre suf
      → at_node s.node_failed r ≡ some false
      → Perm (held U (mark_node_failed U Q s r) ++ orphans s r suf) (held U s)
  mark_node_failed-perm s r pre suf v e =
      rw (mark_alive U Q s r e)
        (Perm.trans (Perm.append_right (orphans s r suf) whole) (bury-perm s r pre suf v))
    where
      buried : Holds Any pre (bury U s r)
      buried = record { pending = _; splits = bury-Splits s r pre suf v; holds = tt }

      first : Extends Any pre (stabilizer_with_ack U Q (bury U s r))
      first = stabilizer_with_ack-Extends U Q Any (Any-KeepsPending U) pre _ buried

      drained :
          Holds Any (pre ++ first.more) (force_drain U Q (stabilizer_with_ack U Q (bury U s r)))
      drained = force_drain-Holds Any (Any-KeepsPending U) _ _ first.rest

      whole : Perm (held U (react U Q s r)) (held U (bury U s r))
      whole = Perm.trans (stabilizer_with_ack-perm U Q _ _ drained.pending drained.splits) (
          Perm.trans (force_drain-perm U Q _)
            (stabilizer_with_ack-perm U Q _ pre buried.pending buried.splits))
