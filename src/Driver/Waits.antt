-- ===== src/Driver/Waits.antt =====
-- tcp/main-replication-protocols.cpp: the wait of a call that conflicts with pending ones.
use optimistic_replication.Prelude.{
  suc, ◌≡◌, refl, sym, ◌∙◌, ap, inl, inr, Bool, true, false, not, List, [], ◌∷◌, map, ◌&&◌,
  Bool-cases, Option-cases, if◌then◌else◌, ltb, drop, get_elem?, subst, arith,
}
use optimistic_replication.Call.{Call, type_is}
use optimistic_replication.UseCase.{UseCase, PriorityQueue}
use optimistic_replication.Hamsou.Ops.{no_conflict, execute_local, local_handler}
use optimistic_replication.Hamsou.Run.{if_keeps}
use optimistic_replication.Driver.{Driver, Build, broadcast_call}
use optimistic_replication.Driver.Loop.{
  round, send_next_ack, wake, advance, settle, issue_call, try_call, must_fail, round_of, enabled,
  step, run,
}

-- The node waits with this call, and no call has become stable since it was refused.
pub record IsWaiting {U : UseCase} (c : Call) (rest : List Call) (d : Driver U) : Type 0 where
  pub next : d.left ≡ c ∷ rest
  pub waits : d.wait ≡ true
  pub none_stable : ltb d.stableindex d.hdl.waittobestable ≡ false

module _ {U : UseCase} where
  -- Sending an acknowledgement does not touch the call, the wait or the handler.
  pub send_next_ack-keeps {ℓ} :
      (P : Driver U → Type ℓ) (d : Driver U)
      → P d
      → ((ack : Call) → P (record (broadcast_call d ack) { ack_index = suc d.ack_index }))
      → P (send_next_ack U d)
  unfolding send_next_ack
  send_next_ack-keeps P d k f =
      elim (Option-cases (get_elem? d.hdl.send_ack_call_list d.ack_index)) [
        | inl e ↦ rw (e, send_next_ack) k
        | inr (ack, e) ↦ rw (e, send_next_ack) (f ack)
      ]

  module _ (c : Call) (rest : List Call) where
    -- A driver that waits, and has sent as many calls as `d`.
    Still : Driver U → Driver U → Type 0
    Still d t = IsWaiting c rest t × (t.sent ≡ d.sent)

    IsWaiting-ack : (d : Driver U) → IsWaiting c rest d → Still d (send_next_ack U d)
    unfolding Still broadcast_call
    IsWaiting-ack d v =
        send_next_ack-keeps (Still d) d (v, refl)
          (λ ack. (record { next = v.next; waits = v.waits; none_stable = v.none_stable }, refl))

    Still-settle : (d t : Driver U) → IsWaiting c rest t → t.sent ≡ d.sent → Still d (settle U t)
    unfolding Still settle
    Still-settle d t v n =
        (record { next = v.next; waits = v.waits; none_stable = v.none_stable }, n)

    wake_lem : (d : Driver U) → IsWaiting c rest d → wake U d ≡ d
    unfolding wake
    wake_lem d v = rw (v.none_stable, v.waits)

    try_call_waiting :
        (d : Driver U)
        → type_is c "Read" ≡ false
        → IsWaiting c rest d
        → try_call U d c rest ≡ settle U d
    unfolding try_call
    try_call_waiting d r v =
        ap
          (λ b.
            if b
            then settle U (advance U d rest)
            else if d.wait
            then settle U d
            else issue_call U d c rest)
          r
        ∙ ap (λ b. if b then settle U d else issue_call U d c rest) v.waits

    module _ (B : Build) (Q : PriorityQueue) (check_validcall : Call → Bool) where
      round_of-Still :
          (due : Bool) (d : Driver U)
          → type_is c "Read" ≡ false
          → IsWaiting c rest d
          → Still d (round_of U B due d)
      unfolding Still round_of
      round_of-Still due d r v =
          let d' = send_next_ack U d in
          let (v', n) = IsWaiting-ack d v in
          simp (v.next, round_of)
            (if_keeps (Still d) (must_fail U B d')
              (record { next = v'.next; waits = v'.waits; none_stable = v'.none_stable }, n)
              (if_keeps (Still d) due
                (subst (Still d)
                  (sym (ap (λ t. try_call U t c rest) (wake_lem d' v') ∙ try_call_waiting d' r v'))
                  (Still-settle d d' v' n))
                (v', n)))

      -- While a call of the node waits and no call becomes stable, no number of rounds issues it, drops it or
      -- sends another: the node comes no further in its workload, in every state of the handler otherwise, also
      -- when nothing is pending.
      pub waits_for_stable :
          (d : Driver U) (dues : List Bool)
          → type_is c "Read" ≡ false
          → IsWaiting c rest d
          → IsWaiting c rest (run U B Q check_validcall d (map round dues))
            × ((run U B Q check_validcall d (map round dues)).sent ≡ d.sent)
      unfolding Still run step
      waits_for_stable d [] r v = (v, refl)
      waits_for_stable d (due ∷ dues) r v =
          let (v', n) = if_keeps (Still d) (enabled U B d) (round_of-Still due d r v) (v, refl) in
          let (w, m) = waits_for_stable (step U B Q check_validcall d (round due)) dues r v' in
          (w, m ∙ n)

  left-issue_call :
      (d : Driver U) (c : Call) (rest : List Call)
      → drop d.hdl.stable_index d.hdl.execution_list ≡ []
      → (issue_call U d c rest).left ≡ rest
  unfolding issue_call local_handler execute_local no_conflict settle advance broadcast_call
  left-issue_call d c rest e = elim (Bool-cases (U.locally_permissibility d.hdl.current_state c)) [
    | inl p ↦ rw (p, e)
    | inr p ↦ rw p
  ]

  left-try_call :
      (d : Driver U) (c : Call) (rest : List Call)
      → d.wait ≡ false
      → drop d.hdl.stable_index d.hdl.execution_list ≡ []
      → (try_call U d c rest).left ≡ rest
  unfolding try_call settle advance
  left-try_call d c rest w p =
      if_keeps (λ (t : Driver U). t.left ≡ rest) (type_is c "Read") refl
        (subst (λ b. (if b then settle U d else issue_call U d c rest).left ≡ rest) (sym w)
          (left-issue_call d c rest p))

  wake_keeps :
      (d : Driver U)
      → d.wait && not (ltb d.stableindex d.hdl.waittobestable) ≡ false
      → drop d.hdl.stable_index d.hdl.execution_list ≡ []
      → ((wake U d).wait ≡ false)
        × (drop (wake U d).hdl.stable_index (wake U d).hdl.execution_list ≡ [])
  unfolding wake
  wake_keeps d w p = elim (Bool-cases (d.wait && ltb d.stableindex d.hdl.waittobestable)) [
    | inl e ↦ simp e (refl, p)
    | inr e ↦ simp e (ground arith, p)
  ]

  -- A round at a due time is done with the next call and goes on to the rest of the workload, if the node is
  -- not to fail at this call, if it is not waiting or a call has become stable since, and if all executed
  -- calls are stable.
  pub round_of_progress :
      (B : Build) (d : Driver U) (c : Call) (rest : List Call)
      → d.left ≡ c ∷ rest
      → must_fail U B (send_next_ack U d) ≡ false
      → d.wait && not (ltb d.stableindex d.hdl.waittobestable) ≡ false
      → drop d.hdl.stable_index d.hdl.execution_list ≡ []
      → (round_of U B true d).left ≡ rest
  unfolding round_of broadcast_call
  round_of_progress B d c rest e m w p =
      let d' = send_next_ack U d in
      let (w', p') =
        send_next_ack-keeps
          (λ (t : Driver U).
            (t.wait && not (ltb t.stableindex t.hdl.waittobestable) ≡ false)
            × (drop t.hdl.stable_index t.hdl.execution_list ≡ []))
          d (w, p) (λ ack. (w, p)) in
      let (w'', p'') = wake_keeps d' w' p' in
      simp (e, round_of, m) (left-try_call (wake U d') c rest w'' p'')
