-- ===== src/Driver/MovesOn.antt =====
-- tcp/main-replication-protocols.cpp: how a round at a due time moves on in the workload.
use optimistic_replication.Prelude.{
  ◌≡◌, refl, sym, ap, ◌⊎◌, inl, inr, Bool, true, false, List, [], ◌∷◌, Bool-cases, List-cases,
  if◌then◌else◌, subst,
}
use optimistic_replication.Call.{Call, type_is}
use optimistic_replication.UseCase.{UseCase, PriorityQueue}
use optimistic_replication.Hamsou.Ops.{local_handler}
use optimistic_replication.Hamsou.Run.{if_keeps}
use optimistic_replication.Driver.{Driver, Build, broadcast_call}
use optimistic_replication.Driver.Loop.{
  round, send_next_ack, wake, advance, settle, issue_call, try_call, must_fail, round_of, enabled,
  step,
}

-- Where the calls `left` are left, the loop ends at `t`, or has nothing to do, or waits, or passes the
-- next call.
abbrev pub MovesOn : {U : UseCase} → Build → List Call → Driver U → Type 0
MovesOn {U} B left t =
    (enabled U B t ≡ false) ⊎ ((left ≡ []) ⊎ ((t.wait ≡ true) ⊎ ((c : Call) × (left ≡ c ∷ t.left))))

module _ (U : UseCase) where
  -- A driver that waits, or has the calls `rest` left.
  WaitsOr : List Call → Driver U → Type 0
  WaitsOr rest t = (t.wait ≡ true) ⊎ (t.left ≡ rest)

  issue_call-WaitsOr :
      (d : Driver U) (c : Call) (rest : List Call) → WaitsOr rest (issue_call U d c rest)
  unfolding WaitsOr issue_call advance settle broadcast_call
  issue_call-WaitsOr d c rest =
      let r = local_handler U d.hdl c in
      if_keeps (WaitsOr rest) r.flag (inr refl)
        (if_keeps (WaitsOr rest) r.permiss (inl refl) (inr refl))

  try_call-WaitsOr :
      (d : Driver U) (c : Call) (rest : List Call) → WaitsOr rest (try_call U d c rest)
  unfolding WaitsOr try_call advance settle
  try_call-WaitsOr d c rest =
      if_keeps (WaitsOr rest) (type_is c "Read") (inr refl) (waiting d.wait refl)
    where
      waiting :
          (b : Bool) → d.wait ≡ b → WaitsOr rest (if b then settle U d else issue_call U d c rest)
      waiting true e = inl e
      waiting false e = issue_call-WaitsOr d c rest

  module _ (B : Build) where
    round_of-MovesOn : (d : Driver U) → MovesOn B d.left (round_of U B true d)
    unfolding WaitsOr round_of enabled
    round_of-MovesOn d = elim (List-cases d.left) [
      | inl e ↦ inr (inl e)
      | inr (c, rest, e) ↦
          let d' = send_next_ack U d in simp (e, round_of) (ending c rest (must_fail U B d'))
    ]
      where
        t : Call → List Call → Driver U
        t c rest = try_call U (wake U (send_next_ack U d)) c rest

        ending :
            (c : Call) (rest : List Call) (b : Bool)
            → MovesOn B
                (c ∷ rest)
                (if b then record (send_next_ack U d) { looping = false } else t c rest)
        ending c rest true = inl refl
        ending c rest false = elim (try_call-WaitsOr (wake U (send_next_ack U d)) c rest) [
          | inl w ↦ inr (inr (inl w))
          | inr l ↦ inr (inr (inr (c, ap (◌∷◌ c) (sym l))))
        ]

    module _ (Q : PriorityQueue) (check_validcall : Call → Bool) where
      pub step-MovesOn :
          (d : Driver U) → MovesOn B d.left (step U B Q check_validcall d (round true))
      unfolding step
      step-MovesOn d = elim (Bool-cases (enabled U B d)) [
        | inl e ↦
            subst (λ b. MovesOn B d.left (if b then round_of U B true d else d)) (sym e)
              (round_of-MovesOn d)
        | inr e ↦
            subst (λ b. MovesOn B d.left (if b then round_of U B true d else d)) (sym e) (inl e)
      ]
