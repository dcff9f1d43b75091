-- ===== src/Driver/Pace.antt =====
-- tcp/main-replication-protocols.cpp: how fast the main loop sends its acknowledgements.
use optimistic_replication.Prelude.{
  ℕ, zero, suc, ◌+◌, ◌≤◌, ◌≡◌, refl, sym, ap, ◌∙◌, ◌⊎◌, inl, inr, Bool, true, false, none, List, [],
  ◌∷◌, map, length, get_elem?, take-next, subst, ◌&&◌, ltb, if◌then◌else◌, Bool-cases, Option-cases,
  List-cases, arith,
}
use mathlib.Core.Option.{none-ne-some}
use optimistic_replication.Call.{Call, type_is}
use optimistic_replication.UseCase.{UseCase, PriorityQueue}
use optimistic_replication.Hamsou.{Handler}
use optimistic_replication.Hamsou.Run.{if_keeps}
use optimistic_replication.Hamsou.Ops.{stamp_loop, tick, execute_local, local_handler, LocalResult}
use optimistic_replication.Driver.{Driver, Build, broadcast_call}
use optimistic_replication.Driver.Loop.{
  round, send_next_ack, wake, advance, settle, issue_call, try_call, must_fail, round_of, enabled,
  step, run,
}
use optimistic_replication.Driver.Acks.{local_handler-outcomes}

get_elem?-none {ℓ} : {A : Type ℓ} (xs : List A) (i : ℕ) → get_elem? xs i ≡ none → length xs ≤ i
get_elem?-none [] i e = omega arith
get_elem?-none (x ∷ xs) zero e = absurd (none-ne-some x (sym e))
get_elem?-none (x ∷ xs) (suc i) e = omega (arith, get_elem?-none xs i e)

-- The driver `t` has sent as many acknowledgements as `d`, of the same list.
record SameAcks {U : UseCase} (d t : Driver U) : Type 0 where
  index : t.ack_index ≡ d.ack_index
  list : t.hdl.send_ack_call_list ≡ d.hdl.send_ack_call_list

-- From `d` to `t` in a number of rounds: the loop has ended, or all acknowledgements are broadcast, or
-- one more in each round.
abbrev pub KeepsPace : {U : UseCase} → Build → ℕ → Driver U → Driver U → Type 0
KeepsPace {U} B rounds d t =
    (enabled U B t ≡ false)
    ⊎ ((t.ack_index ≡ length t.hdl.send_ack_call_list) ⊎ (t.ack_index ≡ d.ack_index + rounds))

module _ (U : UseCase) where
  -- localHandler adds no acknowledgement.
  local_handler-same_list :
      (s : Handler U) (c : Call)
      → (local_handler U s c).handler.send_ack_call_list ≡ s.send_ack_call_list
  unfolding execute_local
  local_handler-same_list s c =
      let P : LocalResult U → Type 0 = λ r. r.handler.send_ack_call_list ≡ s.send_ack_call_list in
      let stamped =
        stamp_loop s.number_of_nodes 0 s.number_of_nodes (tick s.vector_clock s.node_id)
          c.call_vector_clock in
      elim (local_handler-outcomes U s c) [
        | inl (p, f) ↦ subst P (sym f) refl
        | inr (inl (p, f)) ↦ subst P (sym f) refl
        | inr (inr f) ↦ subst P (sym f) (
            if_keeps (λ (h : Handler U). h.send_ack_call_list ≡ s.send_ack_call_list) stamped.1 refl
              refl)
      ]

  issue_call-SameAcks :
      (d : Driver U) (c : Call) (rest : List Call) → SameAcks d (issue_call U d c rest)
  unfolding issue_call advance settle broadcast_call
  issue_call-SameAcks d c rest =
      let r = local_handler U d.hdl c in
      let e = local_handler-same_list d.hdl c in
      if_keeps (SameAcks d) r.flag (record { index = refl; list = e })
        (if_keeps (SameAcks d) r.permiss (record { index = refl; list = e })
          (record { index = refl; list = e }))

  try_call-SameAcks :
      (d : Driver U) (c : Call) (rest : List Call) → SameAcks d (try_call U d c rest)
  unfolding try_call advance settle
  try_call-SameAcks d c rest =
      if_keeps (SameAcks d) (type_is c "Read") (record { index = refl; list = refl })
        (if_keeps (SameAcks d) d.wait (record { index = refl; list = refl })
          (issue_call-SameAcks d c rest))

  wake-SameAcks : (d : Driver U) → SameAcks d (wake U d)
  unfolding wake
  wake-SameAcks d =
      if_keeps (SameAcks d) (d.wait && ltb d.stableindex d.hdl.waittobestable)
        (record { index = refl; list = refl }) (record { index = refl; list = refl })

  SameAcks-trans : (d t u : Driver U) → SameAcks d t → SameAcks t u → SameAcks d u
  SameAcks-trans d t u p q = record { index = q.index ∙ p.index; list = q.list ∙ p.list }

  -- Where an acknowledgement is left, the next one is sent.
  record Sends (d t : Driver U) : Type 0 where
    list : t.hdl.send_ack_call_list ≡ d.hdl.send_ack_call_list
    bound : t.ack_index ≤ length d.hdl.send_ack_call_list
    index : (t.ack_index ≡ length d.hdl.send_ack_call_list) ⊎ (t.ack_index ≡ suc d.ack_index)

  send_next_ack-Sends :
      (d : Driver U) → d.ack_index ≤ length d.hdl.send_ack_call_list → Sends d (send_next_ack U d)
  unfolding send_next_ack broadcast_call
  send_next_ack-Sends d b = elim (Option-cases (get_elem? d.hdl.send_ack_call_list d.ack_index)) [
    | inl e ↦
        rw (e, send_next_ack)
          (record {
            list = refl;
            bound = b;
            index = inl (omega (arith, b, get_elem?-none d.hdl.send_ack_call_list d.ack_index e));
          })
    | inr (c, e) ↦
        rw (e, send_next_ack)
          (record {
            list = refl;
            bound = (take-next d.ack_index d.hdl.send_ack_call_list c e).1;
            index = inr refl;
          })
  ]

  module _ (B : Build) where
    round_of-SameAcks :
        (due : Bool) (d : Driver U) → SameAcks (send_next_ack U d) (round_of U B due d)
    unfolding round_of settle
    round_of-SameAcks due d =
        let d' = send_next_ack U d in
        elim (List-cases d.left) [
          | inl e ↦ simp (e, round_of) (record { index = refl; list = refl })
          | inr (c, rest, e) ↦
              simp (e, round_of)
                (if_keeps (SameAcks d') (must_fail U B d') (record { index = refl; list = refl })
                  (if_keeps (SameAcks d') due
                    (SameAcks-trans d' (wake U d') _ (wake-SameAcks d')
                      (try_call-SameAcks (wake U d') c rest))
                    (record { index = refl; list = refl })))
        ]

    round_of-Sends :
        (due : Bool) (d : Driver U)
        → d.ack_index ≤ length d.hdl.send_ack_call_list
        → Sends d (round_of U B due d)
    round_of-Sends due d b =
        let s = send_next_ack-Sends d b in
        let q = round_of-SameAcks due d in
        record {
          list = q.list ∙ s.list;
          bound = omega (arith, q.index, s.bound);
          index = elim s.index [ inl e ↦ inl (q.index ∙ e) | inr e ↦ inr (q.index ∙ e) ];
        }

    module _ (Q : PriorityQueue) (check_validcall : Call → Bool) where
      step-enabled :
          (due : Bool) (d : Driver U)
          → enabled U B d ≡ true
          → step U B Q check_validcall d (round due) ≡ round_of U B due d
      unfolding step
      step-enabled due d e = ap (λ b. if b then round_of U B due d else d) e

      step-ended :
          (due : Bool) (d : Driver U)
          → enabled U B d ≡ false
          → step U B Q check_validcall d (round due) ≡ d
      unfolding step
      step-ended due d e = ap (λ b. if b then round_of U B due d else d) e

      -- A loop that has ended does nothing.
      ended_stays :
          (d : Driver U) (dues : List Bool)
          → enabled U B d ≡ false
          → run U B Q check_validcall d (map round dues) ≡ d
      unfolding run
      ended_stays d [] e = refl
      ended_stays d (due ∷ dues) e =
          ap (λ t. run U B Q check_validcall t (map round dues)) (step-ended due d e)
          ∙ ended_stays d dues e

      -- Over any number of rounds.
      record Paced (rounds : ℕ) (d t : Driver U) : Type 0 where
        list : t.hdl.send_ack_call_list ≡ d.hdl.send_ack_call_list
        bound : t.ack_index ≤ length t.hdl.send_ack_call_list
        pace : KeepsPace B rounds d t

      Paced-round :
          (rounds : ℕ) (d t u : Driver U) → Sends d t → Paced rounds t u → Paced (suc rounds) d u
      Paced-round rounds d t u s p = record {
        list = p.list ∙ s.list;
        bound = p.bound;
        pace = elim p.pace [
          | inl e ↦ inl e
          | inr (inl e) ↦ inr (inl e)
          | inr (inr e) ↦ elim s.index [
            | inl f ↦ inr (inl (omega (arith, e, f, p.bound, ap length p.list, ap length s.list)))
            | inr f ↦ inr (inr (omega (arith, e, f)))
          ]
        ];
      }

      run-Paced :
          (d : Driver U) (dues : List Bool)
          → d.ack_index ≤ length d.hdl.send_ack_call_list
          → Paced (length dues) d (run U B Q check_validcall d (map round dues))
      unfolding run
      run-Paced d [] b = record { list = refl; bound = b; pace = inr (inr (omega arith)) }
      run-Paced d (due ∷ dues) b = elim (Bool-cases (enabled U B d)) [
        | inl e ↦
            let d' = step U B Q check_validcall d (round due) in
            let s : Sends d d' =
              subst (Sends d) (sym (step-enabled due d e)) (round_of-Sends due d b) in
            Paced-round (length dues) d d' _ s
              (run-Paced d' dues (omega (arith, s.bound, ap length s.list)))
        | inr e ↦
            subst (Paced (length (due ∷ dues)) d) (sym (ended_stays d (due ∷ dues) e))
              (record { list = refl; bound = b; pace = inl e })
      ]

      pub run-KeepsPace :
          (d : Driver U) (dues : List Bool)
          → d.ack_index ≤ length d.hdl.send_ack_call_list
          → KeepsPace B (length dues) d (run U B Q check_validcall d (map round dues))
      run-KeepsPace d dues b = (run-Paced d dues b).pace
