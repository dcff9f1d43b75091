-- ===== src/PartialSyn/Enough.antt =====
-- protocol2-partialsyn.cpp, stabilizerWithAck: its loop ends, and where.
use mathlib.Core.Bool.{true≢false}
use optimistic_replication.Prelude.{
  ℕ, zero, suc, ◌+◌, ◌≤◌, ◌≡◌, refl, sym, ap, ◌∙◌, ◌⊎◌, inl, inr, Bool, true, false, none, some,
  List, [], ◌∷◌, ◌++◌, Bool-cases, Option-cases, get_elem?, length, length-append, take, drop,
  arith, ltb,
}
use optimistic_replication.Call.{Call}
use optimistic_replication.UseCase.{UseCase}
use optimistic_replication.PartialSyn.{PartialHandler}
use optimistic_replication.PartialSyn.Ops.{
  find_position, insert_call, execute_remote, remote_handler,
}
use optimistic_replication.PartialSyn.Stabilize.{
  acked, queue_pass, commit, stabilize_loop, stabilizer_with_ack,
}
use optimistic_replication.PartialSyn.Splits.{remote_handler-cases}
use optimistic_replication.PartialSyn.Sorted.{place}

length-insert_call :
    (order : List Call) (it : ℕ) (c : Call) (es : List Call)
    → length (insert_call order it c es) ≡ suc (length es)
unfolding insert_call
length-insert_call order it c [] = refl
length-insert_call order it c (e ∷ es) = elim (Bool-cases (ltb it (find_position e.type order))) [
  | inl r ↦ rw r
  | inr r ↦ rw r (ap suc (length-insert_call order it c es))
]

length-take-drop {ℓ} :
    {A : Type ℓ} (n : ℕ) (xs : List A) → length (take n xs) + length (drop n xs) ≡ length xs
length-take-drop zero xs = omega arith
length-take-drop (suc n) [] = omega arith
length-take-drop (suc n) (x ∷ xs) = omega (arith, length-take-drop n xs)

get_elem?-beyond {ℓ} : {A : Type ℓ} (xs : List A) (i : ℕ) → length xs ≤ i → get_elem? xs i ≡ none
get_elem?-beyond [] i h = refl
get_elem?-beyond (x ∷ xs) zero h = absurd (omega arith)
get_elem?-beyond (x ∷ xs) (suc i) h = get_elem?-beyond xs i (omega arith)

module _ (U : UseCase) where
  -- The calls that the handler has executed or queued.
  abbrev pub total : PartialHandler U → ℕ
  total s = length s.execution_list + length s.queued_list

  -- The loop has come to the end, or to a call without its acknowledgements.
  abbrev pub IsStabilized : PartialHandler U → Type 0
  IsStabilized s =
      (get_elem? s.execution_list s.stable_index ≡ none)
      ⊎ ((c : Call) × (get_elem? s.execution_list s.stable_index ≡ some c) × (acked U s c ≡ false))

  execute_remote-length :
      (s : PartialHandler U) (it : ℕ) (c : Call)
      → length (execute_remote U s it c).execution_list ≡ suc (length s.execution_list)
  unfolding execute_remote
  execute_remote-length s it c = omega (
    arith,
    length-append (take s.stable_index s.execution_list)
        (insert_call s.topological_order it c (drop s.stable_index s.execution_list)),
    length-insert_call s.topological_order it c (drop s.stable_index s.execution_list),
    length-take-drop s.stable_index s.execution_list,
  )

  -- A queued call that is tried again stays with the handler as it is, or is executed.
  abbrev Tried : PartialHandler U → PartialHandler U × Bool → Type 0
  Tried s r =
      ((r.1 ≡ false)
        × (r.0.queued_list ≡ s.queued_list)
        × (r.0.execution_list ≡ s.execution_list)
        × (r.0.stable_index ≡ s.stable_index))
      ⊎ ((r.1 ≡ true)
          × (length r.0.execution_list ≡ suc (length s.execution_list))
          × (r.0.stable_index ≡ s.stable_index))

  remote_handler-Tried : (s : PartialHandler U) (c : Call) → Tried s (remote_handler U false s c)
  remote_handler-Tried s c =
      remote_handler-cases U (Tried s) false s c (inl (refl, refl, refl, refl))
        (λ e. absurd (true≢false (sym e)))
        (inr (
          refl,
          execute_remote-length s (place s.topological_order c) c,
          (unfold execute_remote in refl),
        ))

  queue_pass-total :
      (kept left : List Call) (s : PartialHandler U)
      → length s.queued_list ≡ length kept + length left
      → (total (queue_pass U kept left s) ≡ length s.execution_list + (length kept + length left))
        × ((queue_pass U kept left s).stable_index ≡ s.stable_index)
  unfolding queue_pass
  queue_pass-total kept [] s h = (omega (arith, h), refl)
  queue_pass-total kept (c ∷ left) s h =
      let r = remote_handler U false s c in
      elim (remote_handler-Tried s c) [
        | inl (e, q, x, i) ↦
            let rest =
              queue_pass-total (kept ++ (c ∷ [])) left r.0
                (omega (arith, h, ap length q, length-append kept (c ∷ []))) in
            rw e (omega (arith, rest.0, ap length x, length-append kept (c ∷ [])), rest.1 ∙ i)
        | inr (e, x, i) ↦
            let rest =
              queue_pass-total kept left (record (r.0) { queued_list = kept ++ left })
                (length-append kept left) in
            rw e (omega (arith, rest.0, x), rest.1 ∙ i)
      ]

  commit-total :
      (s : PartialHandler U) (c : Call)
      → (total (commit U s c) ≡ total s) × ((commit U s c).stable_index ≡ s.stable_index + 1)
  unfolding commit
  commit-total s c =
      let s' : PartialHandler U = record s {
        stable_state = U.update_stable_state s.stable_state c;
        stable_index = s.stable_index + 1;
        waittobestable = s.waittobestable + 1;
      } in
      let (t, i) = queue_pass-total [] s.queued_list s' (omega arith) in (omega (arith, t), i)

  stabilize_loop-IsStabilized :
      (fuel : ℕ) (s : PartialHandler U)
      → total s ≤ s.stable_index + fuel
      → IsStabilized (stabilize_loop U fuel s)
  unfolding stabilize_loop
  stabilize_loop-IsStabilized zero s h =
      inl (get_elem?-beyond s.execution_list s.stable_index (omega (arith, h)))
  stabilize_loop-IsStabilized (suc fuel) s h =
      elim (Option-cases (get_elem? s.execution_list s.stable_index)) [
        | inl e ↦ rw (e, stabilize_loop) (inl e)
        | inr (c, e) ↦ elim (Bool-cases (acked U s c)) [
          | inr a ↦ rw (e, stabilize_loop, a) (inr (c, e, a))
          | inl a ↦
              let (t, i) = commit-total s c in
              rw (e, stabilize_loop, a)
                (stabilize_loop-IsStabilized fuel (commit U s c) (omega (arith, h, t, i)))
        ]
      ]

  -- The loop of stabilizerWithAck in the earlier protocol ends in every state, after at most one round for
  -- each call that was executed or queued: it has then come to the end of the execution list, or to a call
  -- whose acknowledgements are not exactly those that this node waits for.
  pub stabilizer_with_ack-IsStabilized :
      (s : PartialHandler U) → IsStabilized (stabilizer_with_ack U s)
  unfolding stabilizer_with_ack
  stabilizer_with_ack-IsStabilized s = stabilize_loop-IsStabilized (total s) s (omega arith)
