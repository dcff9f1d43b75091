-- ===== src/Driver/Fits.antt =====
-- tcp/main-replication-protocols.cpp: the main loop stays within its 256 bytes.
use optimistic_replication.Prelude.{
  ℕ, ◌≤◌, ◌≡◌, refl, sym, ap, ◌∙◌, inl, inr, Bool, true, false, List, [], ◌∷◌, All, subst,
  Bool-cases, List-cases, arith,
}
use optimistic_replication.Call.{Call, type_is}
use optimistic_replication.UseCase.{UseCase, PriorityQueue}
use optimistic_replication.Hamsou.{set_vars}
use optimistic_replication.Hamsou.Run.{if_keeps}
use optimistic_replication.Hamsou.Ops.{execute_local, local_handler, LocalResult}
use optimistic_replication.Driver.{Driver, Build, broadcast_call, start}
use optimistic_replication.Driver.Loop.{
  DriverEvent, round, receive, fail, signal, send_next_ack, wake, advance, settle, issue_call,
  try_call, must_fail, round_of, enabled, step, run,
}
use optimistic_replication.Driver.Acks.{
  Keeps-same, local_handler-Keeps, receive_call-Keeps, mark_node_failed-Keeps,
}
use optimistic_replication.Driver.Acks.{local_handler-outcomes}
use optimistic_replication.Driver.Bounds.{capacity, message_size, Fits, execute_local_small}
use optimistic_replication.Driver.Within.{
  StaysWithin, broadcast_call-StaysWithin, StaysWithin-next, settle-StaysWithin, wake-StaysWithin,
  left-wake, send_next_ack-StaysWithin,
}

module _ {U : UseCase} (n : ℕ) where
  -- The calls behind the next one.
  rest-Fits :
      (d : Driver U) (c : Call) (rest : List Call)
      → d.left ≡ c ∷ rest
      → StaysWithin n d
      → All (Fits n) rest
  rest-Fits d c rest e v = (subst (All (Fits n)) e v.left).1

  executed_small :
      (d : Driver U) (c : Call) (rest : List Call)
      → d.left ≡ c ∷ rest
      → local_handler U d.hdl c ≡ execute_local U d.hdl c
      → StaysWithin n d
      → message_size (local_handler U d.hdl c).call ≤ capacity
  executed_small d c rest e f v =
      let h : Fits d.hdl.number_of_nodes c =
        subst (λ m. Fits m c) (sym v.handler.nodes) (subst (All (Fits n)) e v.left).0 in
      subst (λ (r : LocalResult U). message_size r.call ≤ capacity) (sym f)
        (execute_local_small U d.hdl c h)

  issue_call-StaysWithin :
      (d : Driver U) (c : Call) (rest : List Call)
      → d.left ≡ c ∷ rest
      → StaysWithin n d
      → StaysWithin n (issue_call U d c rest)
  unfolding issue_call advance settle broadcast_call execute_local
  issue_call-StaysWithin d c rest e v = elim (local_handler-outcomes U d.hdl c) [
    | inl (p, f) ↦ simp f (
        StaysWithin-next n d _ (Keeps-same d.hdl _ refl refl refl) refl (rest-Fits d c rest e v)
          refl v)
    | inr (inl (p, f)) ↦
        simp f (StaysWithin-next n d _ (Keeps-same d.hdl _ refl refl refl) refl v.left refl v)
    | inr (inr f) ↦
        let r = local_handler U d.hdl c in
        let flag : r.flag ≡ true = ap (λ (l : LocalResult U). l.flag) f in
        let w =
          StaysWithin-next n d (record d { hdl = r.handler; stableindex = r.stableindex })
            (local_handler-Keeps U d.hdl c) refl v.left refl v in
        let b =
          broadcast_call-StaysWithin n (record d { hdl = r.handler; stableindex = r.stableindex })
            r.call (executed_small d c rest e f v) w in
        simp flag (
          StaysWithin-next n
            (broadcast_call (record d { hdl = r.handler; stableindex = r.stableindex }) r.call) _
            (Keeps-same r.handler _ refl refl refl) refl (rest-Fits d c rest e v) refl b)
  ]

  try_call-StaysWithin :
      (d : Driver U) (c : Call) (rest : List Call)
      → d.left ≡ c ∷ rest
      → StaysWithin n d
      → StaysWithin n (try_call U d c rest)
  unfolding try_call advance settle
  try_call-StaysWithin d c rest e v = elim (Bool-cases (type_is c "Read")) [
    | inl r ↦ rw r (
        StaysWithin-next n d _ (Keeps-same d.hdl _ refl refl refl) refl (rest-Fits d c rest e v)
          refl v)
    | inr r ↦ rw r (
        if_keeps (StaysWithin n) d.wait (settle-StaysWithin n d v)
          (issue_call-StaysWithin d c rest e v))
  ]

  module _ (B : Build) where
    round_of-StaysWithin :
        (due : Bool) (d : Driver U) → StaysWithin n d → StaysWithin n (round_of U B due d)
    unfolding round_of
    round_of-StaysWithin due d v =
        let d' = send_next_ack U d in
        let (v', l) = send_next_ack-StaysWithin n d v in
        elim (List-cases d.left) [
          | inl e ↦ simp (e, round_of) (settle-StaysWithin n d' v')
          | inr (c, rest, e) ↦
              simp (e, round_of)
                (if_keeps (StaysWithin n) (must_fail U B d')
                  (StaysWithin-next n d' (record d' { looping = false })
                    (Keeps-same d'.hdl _ refl refl refl) refl v'.left refl v')
                  (if_keeps (StaysWithin n) due
                    (try_call-StaysWithin (wake U d') c rest (left-wake n d' ∙ l ∙ e)
                      (wake-StaysWithin n d' v'))
                    v'))
        ]

    module _ (Q : PriorityQueue) (check_validcall : Call → Bool) where
      step-StaysWithin :
          (d : Driver U) (e : DriverEvent)
          → StaysWithin n d
          → StaysWithin n (step U B Q check_validcall d e)
      unfolding step
      step-StaysWithin d (round due) v =
          if_keeps (StaysWithin n) (enabled U B d) (round_of-StaysWithin due d v) v
      step-StaysWithin d (receive c) v =
          StaysWithin-next n d _ (receive_call-Keeps U Q check_validcall d.hdl c) refl v.left refl v
      step-StaysWithin d (fail node) v =
          StaysWithin-next n d _ (mark_node_failed-Keeps U Q d.hdl node) refl v.left refl v
      step-StaysWithin d signal v =
          StaysWithin-next n d _ (Keeps-same d.hdl d.hdl refl refl refl) refl v.left refl v

      steps-StaysWithin :
          (d : Driver U) (es : List DriverEvent)
          → StaysWithin n d
          → StaysWithin n (run U B Q check_validcall d es)
      unfolding run
      steps-StaysWithin d [] v = v
      steps-StaysWithin d (e ∷ es) v =
          steps-StaysWithin (step U B Q check_validcall d e) es (step-StaysWithin d e v)

-- From the start of the main loop over calls that fit, with their own clock and with one of an entry for
-- each node, into 256 bytes: whatever rounds, messages, failures and signals come, the payload buffer keeps its 256
-- bytes, so that no call and no acknowledgement is written past its end, and each message that was broadcast is the whole encoding
-- of a call, as long as serializeCalls announced, and at most 256 bytes long.
pub run-StaysWithin :
    (U : UseCase) (B : Build) (Q : PriorityQueue) (check_validcall : Call → Bool)
    (id numnodes expected : ℕ) (calls : List Call) (es : List DriverEvent)
    → All (Fits numnodes) calls
    → StaysWithin numnodes (run U B Q check_validcall (start U B id numnodes expected calls) es)
unfolding start set_vars
run-StaysWithin U B Q check_validcall id numnodes expected calls es h =
    steps-StaysWithin numnodes B Q check_validcall (start U B id numnodes expected calls) es
      (record {
        buffer = record { memory = refl; size = omega arith };
        handler = record { nodes = refl; next = refl; acks = tt };
        left = h;
        sends = tt;
      })
