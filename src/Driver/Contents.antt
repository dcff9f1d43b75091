-- ===== src/Driver/Contents.antt =====
-- tcp/main-replication-protocols.cpp: the calls that the handler of the main loop holds after a round.
use mathlib.Core.List.{perm_middle, perm_append_comm}
use mathlib.Core.List.Perm
use optimistic_replication.Prelude.{
  ◌+◌, ◌≡◌, refl, sym, ap, ◌∙◌, inl, inr, Bool, true, List, [], ◌∷◌, ◌++◌, ◌&&◌, Perm, subst,
  append_assoc, keep_if-append, Bool-cases, List-cases, ltb, if◌then◌else◌,
}
use optimistic_replication.Call.{Call, type_is}
use optimistic_replication.UseCase.{UseCase, PriorityQueue}
use optimistic_replication.Hamsou.{Handler}
use optimistic_replication.Hamsou.Ops.{local_handler, execute_local, LocalResult}
use optimistic_replication.Hamsou.Run.{if_keeps, receive_call}
use optimistic_replication.Hamsou.Splits.{Splits}
use optimistic_replication.Hamsou.Deliver.{held}
use optimistic_replication.System.{operations, is_operation, broadcast_of}
use optimistic_replication.System.Messages.{broadcast-perm, receive-perm}
use optimistic_replication.Driver.{Driver, Build, broadcast_call}
use optimistic_replication.Driver.Loop.{
  send_next_ack, wake, advance, settle, issue_call, try_call, must_fail, round_of,
}
use optimistic_replication.Driver.Acks.{local_handler-outcomes}
use optimistic_replication.Driver.Faithful.{Issued}
use optimistic_replication.Driver.Waits.{send_next_ack-keeps}

module _ (U : UseCase) (check_validcall : Call → Bool) where
  -- The workload is `done` and `left`; of the calls that are done, localHandler executed `ours`; and the
  -- handler holds these and the operations among the messages `heard`.
  pub record Accounts (calls heard : List Call) (s : Handler U) (left : List Call) : Type 0 where
    pub done : List Call
    pub ours : List Call
    pub workload : done ++ left ≡ calls
    pub issued : Issued U done ours
    pub contents : Perm (held U s) (ours ++ operations check_validcall heard)

  module _ (calls heard : List Call) where
    -- One more call is done, which localHandler did not execute.
    Accounts-next :
        (s : Handler U) (c : Call) (left rest : List Call) (v : Accounts calls heard s left)
        → left ≡ c ∷ rest
        → Issued U (v.done ++ (c ∷ [])) v.ours
        → Accounts calls heard s rest
    Accounts-next s c left rest v e i = record {
      done = v.done ++ (c ∷ []);
      ours = v.ours;
      workload = append_assoc v.done (c ∷ []) rest ∙ (rw e at v.workload);
      issued = i;
      contents = v.contents;
    }

    Accounts-settle :
        (d : Driver U)
        → Accounts calls heard d.hdl d.left
        → Accounts calls heard (settle U d).hdl (settle U d).left
    unfolding settle
    Accounts-settle d v = record {
      done = v.done;
      ours = v.ours;
      workload = v.workload;
      issued = v.issued;
      contents = v.contents;
    }

    -- localHandler executed it.
    Accounts-executed :
        (s : Handler U) (c : Call) (left rest pre suf : List Call)
        → Splits s pre suf
        → left ≡ c ∷ rest
        → (local_handler U s c).flag ≡ true
        → Accounts calls heard s left
        → Accounts calls heard (local_handler U s c).handler rest
    Accounts-executed s c left rest pre suf h e f v =
        let r = local_handler U s c in
        let ops = operations check_validcall heard in
        let one : broadcast_of r ≡ r.call ∷ [] = ap (λ b. if b then r.call ∷ [] else []) f in
        let added : Perm (held U r.handler) (r.call ∷ held U s) =
          subst (λ l. Perm (held U r.handler) (l ++ held U s)) one
            (broadcast-perm U check_validcall s c pre suf h) in
        record {
          done = v.done ++ (c ∷ []);
          ours = v.ours ++ (r.call ∷ []);
          workload = append_assoc v.done (c ∷ []) rest ∙ (rw e at v.workload);
          issued = Issued.executed c s f v.issued;
          contents = rw (append_assoc v.ours (r.call ∷ []) ops) (
              Perm.trans added
                (Perm.trans (Perm.cons r.call v.contents) (Perm.symm (perm_middle v.ours ops))));
        }

    issue_call-Accounts :
        (d : Driver U) (c : Call) (rest pre suf : List Call)
        → Splits d.hdl pre suf
        → d.left ≡ c ∷ rest
        → Accounts calls heard d.hdl d.left
        → Accounts calls heard (issue_call U d c rest).hdl (issue_call U d c rest).left
    unfolding issue_call advance broadcast_call settle execute_local
    issue_call-Accounts d c rest pre suf h e v = elim (local_handler-outcomes U d.hdl c) [
      | inl (p, f) ↦ simp f (
          Accounts-settle (advance U d rest) (
            Accounts-next d.hdl c d.left rest v e
              (Issued.dropped c d.hdl.current_state p v.issued)))
      | inr (inl (p, f)) ↦ simp f v
      | inr (inr f) ↦
          let r = local_handler U d.hdl c in
          let flag : r.flag ≡ true = ap (λ (l : LocalResult U). l.flag) f in
          let w = Accounts-executed d.hdl c d.left rest pre suf h e flag v in
          simp flag (Accounts-settle (record d { hdl = r.handler; left = rest }) w)
    ]

    try_call-Accounts :
        (d : Driver U) (c : Call) (rest pre suf : List Call)
        → Splits d.hdl pre suf
        → d.left ≡ c ∷ rest
        → Accounts calls heard d.hdl d.left
        → Accounts calls heard (try_call U d c rest).hdl (try_call U d c rest).left
    unfolding try_call advance
    try_call-Accounts d c rest pre suf h e v = elim (Bool-cases (type_is c "Read")) [
      | inl r ↦ rw r (
          Accounts-settle (record d { left = rest; passed = d.passed + 1 })
            (Accounts-next d.hdl c d.left rest v e (Issued.reads c r v.issued)))
      | inr r ↦ rw r (
          if_keeps (λ (t : Driver U). Accounts calls heard t.hdl t.left) d.wait
            (Accounts-settle d v) (issue_call-Accounts d c rest pre suf h e v))
    ]

    -- The same handler and the same calls left.
    record SameCalls (d t : Driver U) : Type 0 where
      hdl : t.hdl ≡ d.hdl
      left : t.left ≡ d.left

    send_next_ack-SameCalls : (d : Driver U) → SameCalls d (send_next_ack U d)
    unfolding broadcast_call
    send_next_ack-SameCalls d =
        send_next_ack-keeps (SameCalls d) d (record { hdl = refl; left = refl })
          (λ ack. record { hdl = refl; left = refl })

    wake-SameCalls : (d t : Driver U) → SameCalls d t → SameCalls d (wake U t)
    unfolding wake
    wake-SameCalls d t s =
        if_keeps (SameCalls d) (t.wait && ltb t.stableindex t.hdl.waittobestable)
          (record { hdl = s.hdl; left = s.left }) s

    Accounts-same :
        (d t : Driver U)
        → SameCalls d t
        → Accounts calls heard d.hdl d.left
        → Accounts calls heard t.hdl t.left
    Accounts-same d t s v = rw (s.hdl, s.left) v

    module _ (B : Build) where
      pub round_of-Accounts :
          (due : Bool) (d : Driver U) (pre suf : List Call)
          → Splits d.hdl pre suf
          → Accounts calls heard d.hdl d.left
          → Accounts calls heard (round_of U B due d).hdl (round_of U B due d).left
      unfolding round_of
      round_of-Accounts due d pre suf h v =
          let P : Driver U → Type 0 = λ t. Accounts calls heard t.hdl t.left in
          let d' = send_next_ack U d in
          let s = send_next_ack-SameCalls d in
          let v' = Accounts-same d d' s v in
          elim (List-cases d.left) [
            | inl e ↦ simp (e, round_of) (Accounts-settle d' v')
            | inr (c, rest, e) ↦
                let w = wake-SameCalls d d' s in
                simp (e, round_of)
                  (if_keeps P (must_fail U B d') v' (
                    if_keeps P due
                      (try_call-Accounts (wake U d') c rest pre suf
                        (subst (λ t. Splits t pre suf) (sym w.hdl) h) (w.left ∙ e)
                        (Accounts-same d (wake U d') w v))
                      v'))
          ]

  -- A message that arrives is held if it is an operation.
  pub receive-Accounts :
      (Q : PriorityQueue) (calls heard : List Call) (s : Handler U) (c : Call)
      (left pre suf : List Call)
      → Splits s pre suf
      → Accounts calls heard s left
      → Accounts calls (heard ++ (c ∷ [])) (receive_call U Q check_validcall s c) left
  receive-Accounts Q calls heard s c left pre suf h v =
      let ops = operations check_validcall in
      record {
        done = v.done;
        ours = v.ours;
        workload = v.workload;
        issued = v.issued;
        contents =
            rw
              (
                keep_if-append (is_operation check_validcall) heard (c ∷ []),
                sym (append_assoc v.ours (ops heard) (ops (c ∷ []))),
              )
              (Perm.trans (receive-perm U check_validcall Q s c pre suf h) (
                Perm.trans (Perm.append_left (ops (c ∷ [])) v.contents)
                  (perm_append_comm (ops (c ∷ [])) (v.ours ++ ops heard))));
      }
