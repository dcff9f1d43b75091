-- ===== src/Driver/Drives.antt =====
-- tcp/main-replication-protocols.cpp: the handler that the main loop works on, and the other threads with it.
use optimistic_replication.Prelude.{
  ℕ, ◌<◌, ◌≡◌, refl, sym, inl, inr, Bool, List, [], ◌∷◌, ◌++◌, ◌&&◌, Option-cases, List-cases, ltb,
  get_elem?, subst,
}
use optimistic_replication.Call.{Call, type_is}
use optimistic_replication.UseCase.{UseCase, PriorityQueue, IsConflictAware}
use optimistic_replication.Hamsou.Ops.{local_handler}
use optimistic_replication.Hamsou.Run.{if_keeps, issue-Extends, receive-Extends}
use optimistic_replication.Hamsou.Failure.Effect.{mark_node_failed-Extends}
use optimistic_replication.Hamsou.Splits.{
  Splits, Holds, Extends, KeepsPending, Extends-trans, Extends-here, set_vars-Splits,
}
use optimistic_replication.Hamsou.Order.{IsOrdered, IsOrdered-KeepsPending}
use optimistic_replication.Driver.{Driver, Build, broadcast_call, start}
use optimistic_replication.Driver.Loop.{
  DriverEvent, round, receive, fail, signal, send_next_ack, wake, advance, settle, issue_call,
  try_call, must_fail, round_of, enabled, step, run,
}

module _ (U : UseCase) (R : List Call → Type 0) (K : KeepsPending U R) where
  Holds-settle : (pre : List Call) (d : Driver U) → Holds R pre d.hdl → Holds R pre (settle U d).hdl
  unfolding settle
  Holds-settle pre d h = record {
    pending = h.pending;
    splits = record {
      list = h.splits.list;
      boundary = h.splits.boundary;
      current = h.splits.current;
      waiting = h.splits.waiting;
      acknowledged = h.splits.acknowledged;
      clocks = h.splits.clocks;
      nodes = h.splits.nodes;
      replay = h.splits.replay;
    };
    holds = h.holds;
  }

  Extends-settle :
      (pre : List Call) (d : Driver U) → Extends R pre d.hdl → Extends R pre (settle U d).hdl
  Extends-settle pre d x = record { more = x.more; rest = Holds-settle (pre ++ x.more) d x.rest }

  pub hdl-send_next_ack : (d : Driver U) → (send_next_ack U d).hdl ≡ d.hdl
  unfolding send_next_ack broadcast_call
  hdl-send_next_ack d = elim (Option-cases (get_elem? d.hdl.send_ack_call_list d.ack_index)) [
    | inl e ↦ simp (e, send_next_ack)
    | inr (ack, e) ↦ simp (e, send_next_ack)
  ]

  pub hdl-wake : (d : Driver U) → (wake U d).hdl ≡ d.hdl
  unfolding wake
  hdl-wake d =
      if_keeps (λ (t : Driver U). t.hdl ≡ d.hdl) (d.wait && ltb d.stableindex d.hdl.waittobestable)
        refl refl

  module _ (B : Build) (Q : PriorityQueue) (check_validcall : Call → Bool) where
    issue_call-Extends :
        (pre : List Call) (d : Driver U) (c : Call) (rest : List Call)
        → Holds R pre d.hdl
        → Extends R pre (issue_call U d c rest).hdl
    unfolding issue_call advance broadcast_call
    issue_call-Extends pre d c rest h =
        let r = local_handler U d.hdl c in
        let x = issue-Extends U Q check_validcall R K pre d.hdl c h in
        let P : Driver U → Type 0 = λ t. Extends R pre t.hdl in
        if_keeps P r.flag (Extends-settle pre _ x) (if_keeps P r.permiss x (Extends-settle pre _ x))

    try_call-Extends :
        (pre : List Call) (d : Driver U) (c : Call) (rest : List Call)
        → Holds R pre d.hdl
        → Extends R pre (try_call U d c rest).hdl
    unfolding try_call advance
    try_call-Extends pre d c rest h =
        let P : Driver U → Type 0 = λ t. Extends R pre t.hdl in
        let here = Extends-here R pre d.hdl h in
        if_keeps P (type_is c "Read") (Extends-settle pre (advance U d rest) here)
          (if_keeps P d.wait (Extends-settle pre d here) (issue_call-Extends pre d c rest h))

    round_of-Extends :
        (pre : List Call) (due : Bool) (d : Driver U)
        → Holds R pre d.hdl
        → Extends R pre (round_of U B due d).hdl
    unfolding round_of
    round_of-Extends pre due d h =
        let P : Driver U → Type 0 = λ t. Extends R pre t.hdl in
        let d' = send_next_ack U d in
        let h' = subst (Holds R pre) (sym (hdl-send_next_ack d)) h in
        let here = Extends-here R pre d'.hdl h' in
        elim (List-cases d.left) [
          | inl e ↦ simp (e, round_of) (Extends-settle pre d' here)
          | inr (c, rest, e) ↦
              simp (e, round_of)
                (if_keeps P (must_fail U B d') here (
                  if_keeps P due
                    (try_call-Extends pre (wake U d') c rest
                      (subst (Holds R pre) (sym (hdl-wake d')) h'))
                    here))
        ]

    pub step-Extends :
        (pre : List Call) (d : Driver U) (e : DriverEvent)
        → Holds R pre d.hdl
        → Extends R pre (step U B Q check_validcall d e).hdl
    unfolding step
    step-Extends pre d (round due) h =
        if_keeps (λ (t : Driver U). Extends R pre t.hdl) (enabled U B d)
          (round_of-Extends pre due d h) (Extends-here R pre d.hdl h)
    step-Extends pre d (receive c) h = receive-Extends U Q check_validcall R K pre d.hdl c h
    step-Extends pre d (fail node) h = mark_node_failed-Extends U Q R K pre d.hdl node h
    step-Extends pre d signal h = Extends-here R pre d.hdl h

    run-Extends :
        (pre : List Call) (d : Driver U) (es : List DriverEvent)
        → Holds R pre d.hdl
        → Extends R pre (run U B Q check_validcall d es).hdl
    unfolding run
    run-Extends pre d [] h = Extends-here R pre d.hdl h
    run-Extends pre d (e ∷ es) h =
        let x = step-Extends pre d e h in
        Extends-trans R pre x.more _
          (run-Extends (pre ++ x.more) (step U B Q check_validcall d e) es x.rest)

-- For a use case whose remote relation orders all conflicting calls, a node that starts with any
-- workload, among at least one node, has after any rounds, messages, failures and signals a well-formed
-- handler whose pending calls are in conflict order.
pub main_loop-IsOrdered :
    (U : UseCase) (B : Build) (Q : PriorityQueue) (check_validcall : Call → Bool)
    (L : IsConflictAware U) (id numnodes expected : ℕ) (calls : List Call) (es : List DriverEvent)
    → 0 < numnodes
    → (stable : List Call) × (pending : List Call) × Splits
        (run U B Q check_validcall (start U B id numnodes expected calls) es).hdl
        stable
        pending
      × IsOrdered U pending
unfolding start
main_loop-IsOrdered U B Q check_validcall L id numnodes expected calls es n =
    let x =
      run-Extends U (IsOrdered U) (IsOrdered-KeepsPending U L) B Q check_validcall []
        (start U B id numnodes expected calls) es
        (record { pending = []; splits = set_vars-Splits id numnodes expected n; holds = tt }) in
    (x.more, x.rest.pending, x.rest.splits, x.rest.holds)
