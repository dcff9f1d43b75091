-- ===== src/Hamsou/Deliver.antt =====
-- protocol-hamsou.cpp, remoteHandler, internalDownstreamExecute and the loop that empties the queue.
use mathlib.Core.List.{perm_middle}
use mathlib.Core.List.Perm
use mathlib.Core.Bool.{true≢false}
use optimistic_replication.Prelude.{
  ℕ, zero, suc, ◌≡◌, refl, sym, ap, ◌⊎◌, inl, inr, Bool, true, false, ◌||◌, List, [], ◌∷◌, ◌++◌,
  Perm, arith, length, perm_length, take, drop, take-append-drop, subst, Bool-cases, List-cases,
  if◌then◌else◌, ◌≤◌,
}
use optimistic_replication.Call.{Call}
use optimistic_replication.UseCase.{UseCase, PriorityQueue}
use optimistic_replication.Hamsou.{Handler}
use optimistic_replication.Hamsou.Ops.{
  insert_call, execute_remote, behind_top, behind_pending, queue_handler, remote_handler, pop,
  drain_loop, drain, internal_downstream_execute,
}

module _ (U : UseCase) where
  -- The calls that a replica holds: executed or queued.
  abbrev pub held : Handler U → List Call
  held s = s.execution_list ++ s.priority_queue

  insert_call-perm : (c : Call) (es : List Call) → Perm (insert_call U c es) (c ∷ es)
  unfolding insert_call
  insert_call-perm c [] = Perm.refl _
  insert_call-perm c (e ∷ es) = elim (Bool-cases (U.fast_is_reachable_remote c e)) [
    | inl r ↦ rw r (Perm.refl _)
    | inr r ↦ rw r (Perm.trans (Perm.cons e (insert_call-perm c es)) (Perm.swap c e es))
  ]

  -- Executing a remote call adds it to the execution list, and nothing is lost.
  execute_remote-perm :
      (s : Handler U) (c : Call) → Perm (execute_remote U s c).execution_list (c ∷ s.execution_list)
  unfolding execute_remote
  execute_remote-perm s c =
      let pre = take s.stable_index s.execution_list in
      let suf = drop s.stable_index s.execution_list in
      subst (λ l. Perm (pre ++ insert_call U c suf) (c ∷ l))
        (take-append-drop s.stable_index s.execution_list)
        (Perm.trans (Perm.append_left pre (insert_call-perm c suf)) (perm_middle pre suf))

  module _ (Q : PriorityQueue) where
    -- Does a call have to wait, behind the top of the queue or behind a pending call?
    abbrev pub must_wait : Handler U → Call → Bool
    must_wait s c =
        behind_top U (length s.priority_queue) c s.priority_queue
        || behind_pending U c (drop s.stable_index s.execution_list)

    abbrev pub enqueue : Handler U → Call → Handler U
    enqueue s c = record s { priority_queue = Q.push_heap c s.priority_queue }

    pub remote_handler-waits :
        (add : Bool) (s : Handler U) (c : Call)
        → must_wait s c ≡ true
        → remote_handler U Q add s c ≡ ((if add then enqueue s c else s), false)
    unfolding remote_handler queue_handler
    remote_handler-waits add s c h =
        elim (Bool-cases (behind_top U (length s.priority_queue) c s.priority_queue)) [
          | inl t ↦ rw t
          | inr t ↦ rw (t, rw t at h)
        ]

    pub remote_handler-runs :
        (add : Bool) (s : Handler U) (c : Call)
        → must_wait s c ≡ false
        → remote_handler U Q add s c ≡ (execute_remote U s c, true)
    unfolding remote_handler queue_handler
    remote_handler-runs add s c h =
        elim (Bool-cases (behind_top U (length s.priority_queue) c s.priority_queue)) [
          | inl t ↦ absurd (true≢false (rw t at h))
          | inr t ↦ rw (t, rw t at h)
        ]

    pub pop-perm :
        (s : Handler U) (top : Call) (rest : List Call)
        → s.priority_queue ≡ top ∷ rest
        → Perm (pop U Q (execute_remote U s top)).priority_queue rest
    unfolding pop execute_remote
    pop-perm s top rest e = rw (e, pop) (Q.pop_perm top rest)

    pop-keeps_list : (s : Handler U) → (pop U Q s).execution_list ≡ s.execution_list
    unfolding pop
    pop-keeps_list s = go s.priority_queue refl
      where
        go : (q : List Call) → s.priority_queue ≡ q → (pop U Q s).execution_list ≡ s.execution_list
        go [] e = rw (e, pop)
        go (top ∷ rest) e = rw (e, pop)

    -- One round of the loop that goes on: the top moves from the queue to the execution list.
    pub round-perm :
        (s : Handler U) (top : Call) (rest : List Call)
        → s.priority_queue ≡ top ∷ rest
        → Perm (held (pop U Q (execute_remote U s top))) (held s)
    round-perm s top rest e = rw (pop-keeps_list (execute_remote U s top)) (
        Perm.trans (Perm.append (execute_remote-perm s top) (pop-perm s top rest e)) (
          subst (λ q. Perm (top ∷ (s.execution_list ++ rest)) (s.execution_list ++ q)) (sym e)
            (Perm.symm (perm_middle s.execution_list rest))))

    pub drain_loop-empty :
        (fuel : ℕ) (s : Handler U) → s.priority_queue ≡ [] → drain_loop U Q fuel s ≡ s
    unfolding drain_loop
    drain_loop-empty zero s e = refl
    drain_loop-empty (suc fuel) s e = simp (e, drain_loop)

    drain_loop-stops :
        (fuel : ℕ) (s : Handler U) (top : Call) (rest : List Call)
        → s.priority_queue ≡ top ∷ rest
        → must_wait s top ≡ true
        → drain_loop U Q fuel s ≡ s
    unfolding drain_loop
    drain_loop-stops zero s top rest e w = refl
    drain_loop-stops (suc fuel) s top rest e w =
        simp (e, drain_loop, remote_handler-waits false s top w)

    drain_loop-goes_on :
        (fuel : ℕ) (s : Handler U) (top : Call) (rest : List Call)
        → s.priority_queue ≡ top ∷ rest
        → must_wait s top ≡ false
        → drain_loop U Q (suc fuel) s ≡ drain_loop U Q fuel (pop U Q (execute_remote U s top))
    unfolding drain_loop
    drain_loop-goes_on fuel s top rest e w = simp (e, drain_loop, remote_handler-runs false s top w)

    -- What a round keeps, the loop keeps.
    pub drain_loop-keeps {ℓ} :
        (P : Handler U → Type ℓ)
        → ((s : Handler U) (top : Call) (rest : List Call)
            → s.priority_queue ≡ top ∷ rest
            → P s
            → P (pop U Q (execute_remote U s top)))
        → (fuel : ℕ) (s : Handler U) → P s
        → P (drain_loop U Q fuel s)
    drain_loop-keeps P round zero s h = unfold drain_loop in h
    drain_loop-keeps P round (suc fuel) s h = elim (List-cases s.priority_queue) [
      | inl e ↦ rw (drain_loop-empty (suc fuel) s e) h
      | inr (top, rest, e) ↦ elim (Bool-cases (must_wait s top)) [
        | inl w ↦ rw (drain_loop-stops (suc fuel) s top rest e w) h
        | inr w ↦ rw (drain_loop-goes_on fuel s top rest e w) (
            drain_loop-keeps P round fuel (pop U Q (execute_remote U s top)) (round s top rest e h))
      ]
    ]

    -- The queue is empty, or its top has to wait.
    abbrev pub IsDrained : Handler U → Type 0
    IsDrained s =
        (s.priority_queue ≡ [])
        ⊎ ((top : Call) × (rest : List Call) × (s.priority_queue ≡ top ∷ rest)
            × (must_wait s top ≡ true))

    drain_loop-IsDrained :
        (fuel : ℕ) (s : Handler U)
        → length s.priority_queue ≤ fuel
        → IsDrained (drain_loop U Q fuel s)
    drain_loop-IsDrained zero s h = elim (List-cases s.priority_queue) [
      | inl e ↦ rw (drain_loop-empty zero s e) (inl e)
      | inr (top, rest, e) ↦ absurd (omega (arith, ap length e))
    ]
    drain_loop-IsDrained (suc fuel) s h = elim (List-cases s.priority_queue) [
      | inl e ↦ rw (drain_loop-empty (suc fuel) s e) (inl e)
      | inr (top, rest, e) ↦ elim (Bool-cases (must_wait s top)) [
        | inl w ↦ rw (drain_loop-stops (suc fuel) s top rest e w) (inr (top, rest, e, w))
        | inr w ↦ rw (drain_loop-goes_on fuel s top rest e w) (
            drain_loop-IsDrained fuel (pop U Q (execute_remote U s top))
              (omega (arith, ap length e, perm_length (pop-perm s top rest e))))
      ]
    ]

    -- One round for each call in the queue is enough: the loop then has emptied the queue, or stopped at
    -- a top that has to wait.
    pub drain-IsDrained : (s : Handler U) → IsDrained (drain U Q s)
    unfolding drain
    drain-IsDrained s = drain_loop-IsDrained (length s.priority_queue) s (omega arith)

    pub drain-perm : (s : Handler U) → Perm (held (drain U Q s)) (held s)
    unfolding drain
    drain-perm s =
        drain_loop-keeps (λ t. Perm (held t) (held s))
          (λ t top rest e h. Perm.trans (round-perm t top rest e) h) (length s.priority_queue) s
          (Perm.refl _)

    -- A delivered call is executed or queued, whatever the clocks and conflicts say, and no other call is
    -- lost or doubled: the calls that the replica holds afterwards are those before and the new one, up
    -- to their order.
    pub internal_downstream_execute-perm :
        (s : Handler U) (c : Call) → Perm (held (internal_downstream_execute U Q s c)) (c ∷ held s)
    unfolding internal_downstream_execute
    internal_downstream_execute-perm s c = elim (Bool-cases (must_wait s c)) [
      | inl w ↦ rw (remote_handler-waits true s c w) (
          Perm.trans (drain-perm (enqueue s c)) (
            Perm.trans (Perm.append_left s.execution_list (Q.push_perm c s.priority_queue))
              (perm_middle s.execution_list s.priority_queue)))
      | inr w ↦ rw (remote_handler-runs true s c w) (
          Perm.trans (drain-perm (execute_remote U s c)) (
            unfold execute_remote in
            (Perm.append_right s.priority_queue (execute_remote-perm s c))))
    ]
