-- ===== src/System/Reachable.antt =====
-- Every step of the cluster keeps what holds of its nodes.
use mathlib.Core.List.Perm
use native.Mathlib.Decide.{ℕ_discrete}
use optimistic_replication.Prelude.{
  ℕ, zero, suc, ◌≤◌, ◌<◌, ◌≡◌, refl, true, List, [], ◌∷◌, ◌++◌, codes, arith, Bool, All-get_elem?,
}
use optimistic_replication.Call.{Call}
use optimistic_replication.UseCase.{UseCase, PriorityQueue}
use optimistic_replication.Hamsou.{Handler, set_vars}
use optimistic_replication.Hamsou.Ops.{local_handler}
use optimistic_replication.Hamsou.Run.{receive_call, issue-Extends, receive-Extends}
use optimistic_replication.Hamsou.Splits.{KeepsPending, set_vars-Splits}
use optimistic_replication.Driver.Acks.{local_handler-Keeps, receive_call-Keeps}
use optimistic_replication.System.{
  update, broadcast_of, System, init, is_operation, operations, Step, issue, acknowledge, deliver,
  Reach, start, later,
}
use optimistic_replication.System.Gather.{gather, gather-same}
use optimistic_replication.System.Messages.{
  issue-perm, receive-perm, operations-none, ack_is_no_operation,
}
use optimistic_replication.System.Invariant.{
  update_self, update_other, part, NodeHolds, Grows, AllAcks-Keeps, NodeHolds-other, NodeHolds-own,
  NodeHolds-take,
}

module _ (check_validcall : Call → Bool) (U : UseCase) (R : List Call → Type 0) where
  -- The invariant of the nodes 1 to n.
  abbrev pub AllHold : ℕ → System U → Type 0
  AllHold n s =
      (i : ℕ) → 0 < i → i ≤ n → NodeHolds check_validcall U R n i (s.node i) s.sent (s.taken i)

  gather-none : (n : ℕ) → gather {A = Call} n (λ k. []) ≡ []
  gather-none zero = refl
  gather-none (suc n) = rw (gather-none n)

  init-AllHold : (n expected : ℕ) → R [] → AllHold n (init U n expected)
  unfolding set_vars
  init-AllHold n expected r i a b = record {
    stable = [];
    rest = record { pending = []; splits = set_vars-Splits i n expected (omega arith); holds = r };
    acks = tt;
    bound = λ k. omega arith;
    calls =
        rw
          (
            gather-same n (λ k. []) (part check_validcall (λ k. []) (λ k. 0) i)
                (λ k x y. ground arith),
            gather-none n,
          )
          (Perm.refl []);
  }

  module _ (K : KeepsPending U R) (Q : PriorityQueue) where
    issue-Grows :
        (n i : ℕ) (s : Handler U) (sent : ℕ → List Call) (taken : ℕ → ℕ) (c : Call)
        → ((vc : List ℕ)
            → is_operation check_validcall (record c { call_vector_clock = vc }) ≡ true)
        → NodeHolds check_validcall U R n i s sent taken
        → Grows check_validcall U R s
            (local_handler U s c).handler
            (operations check_validcall (broadcast_of (local_handler U s c)))
    issue-Grows n i s sent taken c op v =
        let x = issue-Extends U Q check_validcall R K v.stable s c v.rest in
        record {
          stable = v.stable ++ x.more;
          rest = x.rest;
          acks = AllAcks-Keeps check_validcall U R s _ (local_handler-Keeps U s c) v.acks;
          calls = issue-perm U check_validcall s c v.stable v.rest.pending v.rest.splits op;
        }

    receive-Grows :
        (n i : ℕ) (s : Handler U) (sent : ℕ → List Call) (taken : ℕ → ℕ) (m : Call)
        → NodeHolds check_validcall U R n i s sent taken
        → Grows check_validcall U R s
            (receive_call U Q check_validcall s m)
            (operations check_validcall (m ∷ []))
    receive-Grows n i s sent taken m v =
        let x = receive-Extends U Q check_validcall R K v.stable s m v.rest in
        record {
          stable = v.stable ++ x.more;
          rest = x.rest;
          acks =
              AllAcks-Keeps check_validcall U R s _ (receive_call-Keeps U Q check_validcall s m)
                v.acks;
          calls = receive-perm U check_validcall Q s m v.stable v.rest.pending v.rest.splits;
        }

    acknowledge-Grows :
        (n i : ℕ) (s : Handler U) (sent : ℕ → List Call) (taken : ℕ → ℕ) (a : Call)
        → a.type ≡ codes "Ack"
        → NodeHolds check_validcall U R n i s sent taken
        → Grows check_validcall U R s s (operations check_validcall (a ∷ []))
    acknowledge-Grows n i s sent taken a e v = record {
      stable = v.stable;
      rest = v.rest;
      acks = v.acks;
      calls =
          rw (operations-none U check_validcall a (ack_is_no_operation U check_validcall a e))
            (Perm.refl _);
    }

    pub Step-AllHold :
        {n : ℕ} {s t : System U} → Step check_validcall Q n s t → AllHold n s → AllHold n t
    Step-AllHold {n} {s} (issue p c a b op) inv i x y = elim (ℕ_discrete i p) [
      | no e ↦ rw (update_other s.node p (local_handler U (s.node p) c).handler i e) (
          NodeHolds-other check_validcall U R n i (s.node i) s.sent (s.taken i) p
            (broadcast_of (local_handler U (s.node p) c)) e (inv i x y))
      | yes e ↦
          let r = local_handler U (s.node p) c in
          rw (e, update_self s.node p r.handler)
            (NodeHolds-own check_validcall U R n p (s.node p) s.sent (s.taken p) r.handler
              (broadcast_of r) a b (issue-Grows n p (s.node p) s.sent (s.taken p) c op (inv p a b))
              (inv p a b))
    ]
    Step-AllHold {n} {s} (acknowledge p m a b g) inv i x y = elim (ℕ_discrete i p) [
      | no e ↦
          NodeHolds-other check_validcall U R n i (s.node i) s.sent (s.taken i) p (m ∷ []) e
            (inv i x y)
      | yes e ↦
          let is_ack =
            All-get_elem? (λ (c : Call). c.type ≡ codes "Ack") (s.node p).send_ack_call_list
              (s.ack_index p) m (inv p a b).acks g in
          rw e (
            NodeHolds-own check_validcall U R n p (s.node p) s.sent (s.taken p) (s.node p) (m ∷ [])
              a b (acknowledge-Grows n p (s.node p) s.sent (s.taken p) m is_ack (inv p a b))
              (inv p a b))
    ]
    Step-AllHold {n} {s} (deliver p k m a b c d e g) inv i x y = elim (ℕ_discrete i p) [
      | no f ↦
          rw
            (
              update_other s.node p (receive_call U Q check_validcall (s.node p) m) i f,
              update_other s.taken p (update (s.taken p) k (suc (s.taken p k))) i f,
            )
            (inv i x y)
      | yes f ↦
          let h = receive_call U Q check_validcall (s.node p) m in
          let taken = update (s.taken p) k (suc (s.taken p k)) in
          rw (f, update_self s.node p h, update_self s.taken p taken)
            (NodeHolds-take check_validcall U R n p (s.node p) s.sent (s.taken p) h k m c d e g
              (receive-Grows n p (s.node p) s.sent (s.taken p) m (inv p a b)) (inv p a b))
    ]

    pub Reach-AllHold :
        {n expected : ℕ} {s : System U} → R [] → Reach check_validcall Q n expected s → AllHold n s
    Reach-AllHold {n} {expected} r start = init-AllHold n expected r
    Reach-AllHold r (later h st) = Step-AllHold st (Reach-AllHold r h)
