-- ===== src/System/Messages.antt =====
-- What one operation of a node's handler adds to the calls that it holds.
use mathlib.Core.List.Perm
use mathlib.Core.List.{perm_middle}
use optimistic_replication.Prelude.{
  ℕ, ◌≡◌, refl, inl, inr, Bool, true, false, List, [], ◌∷◌, ◌++◌, append_assoc, Perm, Bool-cases,
  if◌then◌else◌, keep_if-true, keep_if-false, codes, arith, eq_bytes_refl,
}
use optimistic_replication.Call.{Call, type_is}
use optimistic_replication.UseCase.{UseCase, PriorityQueue}
use optimistic_replication.Hamsou.{Handler, count_ack}
use optimistic_replication.Hamsou.Ops.{
  LocalResult, local_handler, acked, quorum_of, stabilizer_with_ack, update_acks_table,
}
use optimistic_replication.Hamsou.Run.{receive_call}
use optimistic_replication.Hamsou.Splits.{Splits}
use optimistic_replication.Hamsou.Local.{local_handler-cases, stamped_call}
use optimistic_replication.Hamsou.Deliver.{held, internal_downstream_execute-perm}
use optimistic_replication.Hamsou.Stabilize.{stabilizer_with_ack-perm}
use optimistic_replication.System.{is_operation, operations, broadcast_of}

module _ (U : UseCase) (check_validcall : Call → Bool) where
  -- A message that is no operation is none among the operations.
  pub operations-none :
      (c : Call) → is_operation check_validcall c ≡ false → operations check_validcall (c ∷ []) ≡ []
  operations-none c e = keep_if-false (is_operation check_validcall) c [] e

  pub operations-one :
      (c : Call)
      → is_operation check_validcall c ≡ true
      → operations check_validcall (c ∷ []) ≡ c ∷ []
  operations-one c e = keep_if-true (is_operation check_validcall) c [] e

  pub ack_is_no_operation :
      (c : Call) → c.type ≡ codes "Ack" → is_operation check_validcall c ≡ false
  unfolding is_operation
  ack_is_no_operation c e = rw (e, eq_bytes_refl (codes "Ack")) (ground arith)

  -- localHandler adds what it lets the main loop broadcast.
  pub broadcast-perm :
      (s : Handler U) (c : Call) (pre suf : List Call)
      → Splits s pre suf
      → Perm (held U (local_handler U s c).handler) (broadcast_of (local_handler U s c) ++ held U s)
  broadcast-perm s c pre suf v =
      local_handler-cases U
        (λ r. Perm (held U (LocalResult.handler r)) (broadcast_of r ++ held U s)) s c pre suf v
        (λ permiss. Perm.refl (held U s))
        (λ free.
          rw (append_assoc s.execution_list (stamped_call U s c ∷ []) s.priority_queue)
            (perm_middle s.execution_list s.priority_queue))

  broadcast-operations :
      (s : Handler U) (c : Call) (pre suf : List Call)
      → Splits s pre suf
      → ((vc : List ℕ) → is_operation check_validcall (record c { call_vector_clock = vc }) ≡ true)
      → operations check_validcall (broadcast_of (local_handler U s c))
        ≡ broadcast_of (local_handler U s c)
  broadcast-operations s c pre suf v op =
      local_handler-cases U (λ r. operations check_validcall (broadcast_of r) ≡ broadcast_of r) s c
        pre suf v (λ permiss. refl) (λ free. operations-one (stamped_call U s c) (op _))

  -- All of it are operations, if the call is one.
  pub issue-perm :
      (s : Handler U) (c : Call) (pre suf : List Call)
      → Splits s pre suf
      → ((vc : List ℕ) → is_operation check_validcall (record c { call_vector_clock = vc }) ≡ true)
      → Perm
          (held U (local_handler U s c).handler)
          (operations check_validcall (broadcast_of (local_handler U s c)) ++ held U s)
  issue-perm s c pre suf v op =
      rw (broadcast-operations s c pre suf v op) (broadcast-perm s c pre suf v)

  module _ (Q : PriorityQueue) where
    -- An acknowledgement adds nothing.
    update_acks_table-perm :
        (s : Handler U) (c : Call) (pre suf : List Call)
        → Splits s pre suf
        → Perm (held U (update_acks_table U Q s c)) (held U s)
    unfolding update_acks_table
    update_acks_table-perm s c pre suf v = choose (acked U counted (quorum_of U s) c)
      where
        counted : Handler U
        counted = record s { acks = count_ack s.acks c.node_id c.call_id }

        kept : Splits counted pre suf
        kept = record {
          list = v.list;
          boundary = v.boundary;
          current = v.current;
          waiting = v.waiting;
          acknowledged = v.acknowledged;
          clocks = v.clocks;
          nodes = v.nodes;
          replay = v.replay;
        }

        choose :
            (b : Bool)
            → Perm (held U (if b then stabilizer_with_ack U Q counted else counted)) (held U s)
        choose true = stabilizer_with_ack-perm U Q counted pre suf kept
        choose false = Perm.refl _

    -- A message adds itself if it is an operation, and nothing otherwise.
    pub receive-perm :
        (s : Handler U) (c : Call) (pre suf : List Call)
        → Splits s pre suf
        → Perm
            (held U (receive_call U Q check_validcall s c))
            (operations check_validcall (c ∷ []) ++ held U s)
    unfolding receive_call
    receive-perm s c pre suf v = elim (Bool-cases (type_is c "Heartbeat")) [
      | inl h ↦ rw (h, operations-none c (unfold is_operation in rw h)) (Perm.refl _)
      | inr h ↦ elim (Bool-cases (type_is c "Ack")) [
        | inl a ↦
            rw (h, a, operations-none c (unfold is_operation in rw (h, a)))
              (update_acks_table-perm s c pre suf v)
        | inr a ↦ elim (Bool-cases (check_validcall c)) [
          | inl k ↦
              rw (h, a, k, operations-one c (unfold is_operation in rw (h, a, k)))
                (internal_downstream_execute-perm U Q s c)
          | inr k ↦
              rw (h, a, k, operations-none c (unfold is_operation in rw (h, a, k))) (Perm.refl _)
        ]
      ]
    ]
