-- ===== src/Driver/Acks.antt =====
-- protocol-hamsou.cpp: the list of acknowledgements to be sent, `obj.send_ack_call_list`, under every
-- operation of the handler.
use optimistic_replication.Prelude.{
  ℕ, zero, suc, ◌≡◌, refl, sym, ◌∙◌, inl, inr, ◌⊎◌, Bool, true, false, List, [], ◌∷◌, ◌++◌,
  append-nil, append_assoc, Bool-cases, Option-cases, List-cases, if◌then◌else◌, length, drop, ap,
  subst, All, All-append, codes,
}
use optimistic_replication.Call.{Call, type_is}
use optimistic_replication.UseCase.{UseCase, PriorityQueue}
use optimistic_replication.Hamsou.{Handler, at_node, count_ack}
use optimistic_replication.Hamsou.Ops.{
  no_conflict, stamp_loop, tick, execute_local, local_handler, execute_remote, acked, quorum_of,
  commit, stabilize_loop, queue_handler, remote_handler, behind_top, behind_pending, pop,
  drain_loop, drain, ack_of, refuse, stabilizer_with_ack, update_acks_table,
  internal_downstream_execute,
}
use optimistic_replication.Hamsou.Failure.{bury, force_drain_loop, force_drain, mark_node_failed}
use optimistic_replication.Hamsou.Run.{receive_call}

-- localHandler refuses the call for good, refuses it for now, or executes it.
pub local_handler-outcomes :
    (U : UseCase) (s : Handler U) (c : Call)
    → ((U.locally_permissibility s.current_state c ≡ false)
        × (local_handler U s c ≡ refuse U s c false))
      ⊎ (((no_conflict U c (drop s.stable_index s.execution_list) ≡ false)
            × (local_handler U s c ≡ refuse U s c true))
          ⊎ (local_handler U s c ≡ execute_local U s c))
unfolding local_handler
local_handler-outcomes U s c = elim (Bool-cases (U.locally_permissibility s.current_state c)) [
  | inr p ↦ inl (p, rw p)
  | inl p ↦ elim (Bool-cases (no_conflict U c (drop s.stable_index s.execution_list))) [
    | inr f ↦ inr (inl (f, rw (p, f)))
    | inl f ↦ inr (inr (rw (p, f)))
  ]
]

-- An acknowledgement whose clock has the entries `vc`.
pub record IsAck (vc : List ℕ) (c : Call) : Type 0 where
  pub ack_type : c.type ≡ codes "Ack"
  pub ack_clock : c.call_vector_clock ≡ vc

module _ {U : UseCase} where
  -- The handler `t` has the acknowledgements of `s`, first and in their order; those that follow have
  -- the clock of the call `send_ack_call`, which no operation changes, and neither does one change the
  -- number of nodes.
  pub record Keeps (s t : Handler U) : Type 0 where
    pub more : List Call
    pub list : t.send_ack_call_list ≡ s.send_ack_call_list ++ more
    pub acks : All (IsAck s.send_ack_call.call_vector_clock) more
    pub clock : t.send_ack_call.call_vector_clock ≡ s.send_ack_call.call_vector_clock
    pub nodes : t.number_of_nodes ≡ s.number_of_nodes

  pub Keeps-same :
      (s t : Handler U)
      → t.send_ack_call_list ≡ s.send_ack_call_list
      → t.send_ack_call ≡ s.send_ack_call
      → t.number_of_nodes ≡ s.number_of_nodes
      → Keeps s t
  Keeps-same s t e f g = record {
    more = [];
    list = e ∙ sym (append-nil s.send_ack_call_list);
    acks = tt;
    clock = ap (λ (c : Call). c.call_vector_clock) f;
    nodes = g;
  }

  Keeps-trans : (s t r : Handler U) → Keeps s t → Keeps t r → Keeps s r
  Keeps-trans s t r k l = record {
    more = k.more ++ l.more;
    list = rw (l.list, k.list) (append_assoc s.send_ack_call_list k.more l.more);
    acks =
        All-append (IsAck s.send_ack_call.call_vector_clock) k.more l.more k.acks
          (subst (λ vc. All (IsAck vc) l.more) k.clock l.acks);
    clock = l.clock ∙ k.clock;
    nodes = l.nodes ∙ k.nodes;
  }

  Keeps-if : (b : Bool) (s t r : Handler U) → Keeps s t → Keeps s r → Keeps s (if b then t else r)
  Keeps-if true s t r k l = k
  Keeps-if false s t r k l = l

module _ (U : UseCase) where
  pub local_handler-Keeps : (s : Handler U) (c : Call) → Keeps s (local_handler U s c).handler
  unfolding local_handler execute_local
  local_handler-Keeps s c = elim (Bool-cases (U.locally_permissibility s.current_state c)) [
    | inr p ↦ rw p (Keeps-same s _ refl refl refl)
    | inl p ↦ elim (Bool-cases (no_conflict U c (drop s.stable_index s.execution_list))) [
      | inr f ↦ rw (p, f) (Keeps-same s _ refl refl refl)
      | inl f ↦
          let stamped =
            stamp_loop s.number_of_nodes 0 s.number_of_nodes (tick s.vector_clock s.node_id)
              c.call_vector_clock in
          rw (p, f)
            (Keeps-if stamped.1 s _ _ (Keeps-same s _ refl refl refl)
              (Keeps-same s _ refl refl refl))
    ]
  ]

  execute_remote-Keeps : (s : Handler U) (c : Call) → Keeps s (execute_remote U s c)
  unfolding execute_remote
  execute_remote-Keeps s c = record {
    more = ack_of U s.send_ack_call c ∷ [];
    list = refl;
    acks = (record { ack_type = refl; ack_clock = refl }, tt);
    clock = refl;
    nodes = refl;
  }

  stabilize_loop-Keeps :
      (quorum : ℕ) (calls : List Call) (s : Handler U) (can : Bool)
      → Keeps s (stabilize_loop U quorum calls s can).0
  unfolding stabilize_loop commit
  stabilize_loop-Keeps quorum [] s can = Keeps-same s _ refl refl refl
  stabilize_loop-Keeps quorum (c ∷ calls) s can = elim (Bool-cases (acked U s quorum c)) [
    | inl a ↦ rw a (
        Keeps-trans s (commit U s c) _ (Keeps-same s _ refl refl refl)
          (stabilize_loop-Keeps quorum calls (commit U s c) true))
    | inr a ↦ rw a (Keeps-same s _ refl refl refl)
  ]

  module _ (Q : PriorityQueue) where
    remote_handler-Keeps :
        (add : Bool) (s : Handler U) (c : Call) → Keeps s (remote_handler U Q add s c).0
    unfolding remote_handler queue_handler
    remote_handler-Keeps add s c =
        elim (Bool-cases (behind_top U (length s.priority_queue) c s.priority_queue)) [
          | inl t ↦ rw t (queued add)
          | inr t ↦ elim (Bool-cases (behind_pending U c (drop s.stable_index s.execution_list))) [
            | inl b ↦ rw (t, b) (queued add)
            | inr b ↦ rw (t, b) (execute_remote-Keeps s c)
          ]
        ]
      where
        queued :
            (add : Bool)
            → Keeps s
                (if add then record s { priority_queue = Q.push_heap c s.priority_queue } else s)
        queued true = Keeps-same s _ refl refl refl
        queued false = Keeps-same s _ refl refl refl

    pop-Keeps : (s : Handler U) → Keeps s (pop U Q s)
    unfolding pop
    pop-Keeps s = elim (List-cases s.priority_queue) [
      | inl e ↦ Keeps-same s _ (rw (e, pop)) (rw (e, pop)) (rw (e, pop))
      | inr (top, rest, e) ↦ Keeps-same s _ (rw (e, pop)) (rw (e, pop)) (rw (e, pop))
    ]

    drain_loop-Keeps : (fuel : ℕ) (s : Handler U) → Keeps s (drain_loop U Q fuel s)
    unfolding drain_loop
    drain_loop-Keeps zero s = Keeps-same s s refl refl refl
    drain_loop-Keeps (suc fuel) s = elim (List-cases s.priority_queue) [
      | inl e ↦ Keeps-same s _ (rw (e, drain_loop)) (rw (e, drain_loop)) (rw (e, drain_loop))
      | inr (top, rest, e) ↦
          let k = remote_handler-Keeps false s top in
          let t = (remote_handler U Q false s top).0 in
          elim (Bool-cases (remote_handler U Q false s top).1) [
            | inl r ↦
                simp (e, drain_loop, r)
                  (Keeps-trans s t _ k
                    (Keeps-trans t (pop U Q t) _ (pop-Keeps t) (drain_loop-Keeps fuel (pop U Q t))))
            | inr r ↦ simp (e, drain_loop, r) k
          ]
    ]

    drain-Keeps : (s : Handler U) → Keeps s (drain U Q s)
    unfolding drain
    drain-Keeps s = drain_loop-Keeps (length s.priority_queue) s

    stabilizer_with_ack-Keeps : (s : Handler U) → Keeps s (stabilizer_with_ack U Q s)
    unfolding stabilizer_with_ack
    stabilizer_with_ack-Keeps s =
        let t =
          (stabilize_loop U (quorum_of U s) (drop s.stable_index s.execution_list) s false).0 in
        let k = stabilize_loop-Keeps (quorum_of U s) _ s false in
        Keeps-if _ s (drain U Q t) t (Keeps-trans s t _ k (drain-Keeps t)) k

    force_drain_loop-Keeps : (fuel : ℕ) (s : Handler U) → Keeps s (force_drain_loop U Q fuel s)
    unfolding force_drain_loop
    force_drain_loop-Keeps zero s = Keeps-same s s refl refl refl
    force_drain_loop-Keeps (suc fuel) s = elim (List-cases s.priority_queue) [
      | inl e ↦
          Keeps-same s _ (rw (e, force_drain_loop)) (rw (e, force_drain_loop))
            (rw (e, force_drain_loop))
      | inr (top, rest, e) ↦
          let t = execute_remote U s top in
          simp (e, force_drain_loop)
            (Keeps-trans s t _ (execute_remote-Keeps s top)
              (Keeps-trans t (pop U Q t) _ (pop-Keeps t) (force_drain_loop-Keeps fuel (pop U Q t))))
    ]

    pub mark_node_failed-Keeps : (s : Handler U) (node : ℕ) → Keeps s (mark_node_failed U Q s node)
    unfolding mark_node_failed force_drain bury
    mark_node_failed-Keeps s node = elim (Option-cases (at_node s.node_failed node)) [
      | inl e ↦
          Keeps-same s _ (rw (e, mark_node_failed)) (rw (e, mark_node_failed))
            (rw (e, mark_node_failed))
      | inr (true, e) ↦
          Keeps-same s _ (rw (e, mark_node_failed)) (rw (e, mark_node_failed))
            (rw (e, mark_node_failed))
      | inr (false, e) ↦
          rw (e, mark_node_failed)
            (Keeps-trans s (bury U s node) _ (Keeps-same s _ refl refl refl) (
              Keeps-trans (bury U s node) first _ (stabilizer_with_ack-Keeps (bury U s node)) (
                Keeps-trans first (force_drain U Q first) _
                  (force_drain_loop-Keeps (length first.priority_queue) first)
                  (stabilizer_with_ack-Keeps (force_drain U Q first)))))
    ]
      where
        first : Handler U
        first = stabilizer_with_ack U Q (bury U s node)

    pub receive_call-Keeps :
        (check_validcall : Call → Bool) (s : Handler U) (c : Call)
        → Keeps s (receive_call U Q check_validcall s c)
    unfolding receive_call update_acks_table internal_downstream_execute
    receive_call-Keeps check_validcall s c =
        let counted : Handler U = record s { acks = count_ack s.acks c.node_id c.call_id } in
        let t = (remote_handler U Q true s c).0 in
        Keeps-if (type_is c "Heartbeat") s s _ (Keeps-same s s refl refl refl) (
          Keeps-if (type_is c "Ack") s _ _
            (Keeps-if (acked U counted (quorum_of U s) c) s (stabilizer_with_ack U Q counted)
              counted
              (Keeps-trans s counted _ (Keeps-same s counted refl refl refl)
                (stabilizer_with_ack-Keeps counted))
              (Keeps-same s counted refl refl refl))
            (Keeps-if (check_validcall c) s _ s
              (Keeps-trans s t _ (remote_handler-Keeps true s c) (drain-Keeps t))
              (Keeps-same s s refl refl refl)))
