-- ===== src/PartialSyn/Lost.antt =====
-- protocol2-partialsyn.cpp: what becomes of a remote call whose type has no place in the order.
use optimistic_replication.Prelude.{◌≡◌, ◌⊎◌, inl, inr, [], ◌∷◌, ◌++◌, Bool-cases, drop}
use optimistic_replication.Call.{Call}
use optimistic_replication.UseCase.{UseCase}
use optimistic_replication.PartialSyn.{PartialHandler}
use optimistic_replication.PartialSyn.Ops.{
  find_position, behind_queued, behind_pending, queue_handler, remote_handler,
  internal_downstream_execute,
}

-- A remote call whose type is not in the topological order is not executed when it arrives: it is queued,
-- or it leaves the handler as it was and is lost.
pub unplaced_call_lost :
    (U : UseCase) (s : PartialHandler U) (c : Call)
    → find_position c.type s.topological_order ≡ 0
    → (internal_downstream_execute U s c ≡ s)
      ⊎ (internal_downstream_execute U s c ≡ record s { queued_list = s.queued_list ++ (c ∷ []) })
unfolding internal_downstream_execute remote_handler queue_handler
unplaced_call_lost U s c h = elim (Bool-cases (behind_queued c s.queued_list)) [
  | inl b ↦ inr (simp (b, internal_downstream_execute, remote_handler, queue_handler))
  | inr b ↦
      elim (Bool-cases
        (behind_pending s.topological_order c (drop s.stable_index s.execution_list))) [
          | inl p ↦ inr (simp (b, p, internal_downstream_execute, remote_handler, queue_handler))
          | inr p ↦ inl (simp (b, p, h, internal_downstream_execute, remote_handler, queue_handler))
        ]
]
