-- ===== src/Hamsou/Failure/Laws.antt =====
-- protocol-hamsou.cpp, markNodeFailed: what it drops, what it keeps, and that it acts once for a node.
use mathlib.Core.List.{perm_middle}
use mathlib.Core.List.Perm
use optimistic_replication.Prelude.{
  ℕ, zero, suc, ◌≤◌, ◌≡◌, refl, ap, ◌∙◌, inl, inr, Bool, true, false, not, none, some, List, [],
  ◌∷◌, ◌++◌, Perm, arith, length, perm_length, keep_if, keep_if-true, keep_if-false, Bool-cases,
  List-cases, Option-cases, get_elem?, set, drop, if◌then◌else◌,
}
use optimistic_replication.Call.{Call}
use optimistic_replication.UseCase.{UseCase, PriorityQueue}
use optimistic_replication.Hamsou.{Handler, at_node, set_node}
use optimistic_replication.Hamsou.Ops.{
  execute_remote, commit, acked, stabilize_loop, pop, drain, stabilizer_with_ack, quorum_of,
}
use optimistic_replication.Hamsou.Failure.{bury, force_drain_loop, force_drain, mark_node_failed}
use optimistic_replication.Hamsou.Deliver.{held, round-perm, drain_loop-keeps, pop-perm}

-- Any list is what a test keeps and what it drops.
pub keep_if-perm {ℓ} :
    {A : Type ℓ} (p : A → Bool) (xs : List A)
    → Perm (keep_if (λ x. not (p x)) xs ++ keep_if p xs) xs
keep_if-perm p [] = Perm.refl _
keep_if-perm p (x ∷ xs) = elim (Bool-cases (p x)) [
  | inl e ↦
      rw (keep_if-true p x xs e, keep_if-false (λ y. not (p y)) x xs (ap not e))
        (Perm.trans (perm_middle (keep_if (λ y. not (p y)) xs) (keep_if p xs))
          (Perm.cons x (keep_if-perm p xs)))
  | inr e ↦
      rw (keep_if-false p x xs e, keep_if-true (λ y. not (p y)) x xs (ap not e))
        (Perm.cons x (keep_if-perm p xs))
]

set-here :
    (bs : List Bool) (i : ℕ) (b c : Bool)
    → get_elem? bs i ≡ some b
    → get_elem? (set bs i c) i ≡ some c
set-here [] i b c h = cc
set-here (x ∷ xs) zero b c h = refl
set-here (x ∷ xs) (suc i) b c h = set-here xs i b c h

set_node-here :
    (bs : List Bool) (r : ℕ) (b c : Bool)
    → at_node bs r ≡ some b
    → at_node (set_node bs r c) r ≡ some c
set_node-here bs zero b c h = cc
set_node-here bs (suc i) b c h = set-here bs i b c h

module _ (U : UseCase) (Q : PriorityQueue) where
  force_drain_loop-goes_on :
      (fuel : ℕ) (s : Handler U) (top : Call) (rest : List Call)
      → s.priority_queue ≡ top ∷ rest
      → force_drain_loop U Q (suc fuel) s
        ≡ force_drain_loop U Q fuel (pop U Q (execute_remote U s top))
  unfolding force_drain_loop
  force_drain_loop-goes_on fuel s top rest e = simp (e, force_drain_loop)

  force_drain_loop-empty :
      (fuel : ℕ) (s : Handler U) → s.priority_queue ≡ [] → force_drain_loop U Q fuel s ≡ s
  unfolding force_drain_loop
  force_drain_loop-empty zero s e = refl
  force_drain_loop-empty (suc fuel) s e = simp (e, force_drain_loop)

  -- What a round keeps, the loop keeps.
  pub force_drain_loop-keeps {ℓ} :
      (P : Handler U → Type ℓ)
      → ((s : Handler U) (top : Call) (rest : List Call)
          → s.priority_queue ≡ top ∷ rest
          → P s
          → P (pop U Q (execute_remote U s top)))
      → (fuel : ℕ) (s : Handler U) → P s
      → P (force_drain_loop U Q fuel s)
  force_drain_loop-keeps P round zero s h = unfold force_drain_loop in h
  force_drain_loop-keeps P round (suc fuel) s h = elim (List-cases s.priority_queue) [
    | inl e ↦ rw (force_drain_loop-empty (suc fuel) s e) h
    | inr (top, rest, e) ↦ rw (force_drain_loop-goes_on fuel s top rest e) (
        force_drain_loop-keeps P round fuel (pop U Q (execute_remote U s top))
          (round s top rest e h))
  ]

  force_drain_loop-empties :
      (fuel : ℕ) (s : Handler U)
      → length s.priority_queue ≤ fuel
      → (force_drain_loop U Q fuel s).priority_queue ≡ []
  force_drain_loop-empties zero s h = elim (List-cases s.priority_queue) [
    | inl e ↦ rw (force_drain_loop-empty zero s e) e
    | inr (top, rest, e) ↦ absurd (omega (arith, ap length e))
  ]
  force_drain_loop-empties (suc fuel) s h = elim (List-cases s.priority_queue) [
    | inl e ↦ rw (force_drain_loop-empty (suc fuel) s e) e
    | inr (top, rest, e) ↦ rw (force_drain_loop-goes_on fuel s top rest e) (
        force_drain_loop-empties fuel (pop U Q (execute_remote U s top))
          (omega (arith, ap length e, perm_length (pop-perm U Q s top rest e))))
  ]

  force_drain-empties : (s : Handler U) → (force_drain U Q s).priority_queue ≡ []
  unfolding force_drain
  force_drain-empties s = force_drain_loop-empties (length s.priority_queue) s (omega arith)

  pub force_drain-perm : (s : Handler U) → Perm (held U (force_drain U Q s)) (held U s)
  unfolding force_drain
  force_drain-perm s =
      force_drain_loop-keeps (λ t. Perm (held U t) (held U s))
        (λ t top rest e h. Perm.trans (round-perm U Q t top rest e) h) (length s.priority_queue) s
        (Perm.refl _)

  -- A property of the fields that neither a round nor a commit changes survives stabilizerWithAck.
  stabilize_loop-keeps {ℓ} :
      (P : Handler U → Type ℓ)
      → ((s : Handler U) (c : Call) → P s → P (commit U s c))
      → (quorum : ℕ) (cs : List Call) (s : Handler U) (can : Bool) → P s
      → P (stabilize_loop U quorum cs s can).0
  unfolding stabilize_loop
  stabilize_loop-keeps P step quorum [] s can h = h
  stabilize_loop-keeps P step quorum (c ∷ cs) s can h = elim (Bool-cases (acked U s quorum c)) [
    | inl e ↦ rw e (stabilize_loop-keeps P step quorum cs (commit U s c) true (step s c h))
    | inr e ↦ rw e h
  ]

  -- What rounds and commits keep, stabilizerWithAck keeps.
  stabilizer-keeps {ℓ} :
      (P : Handler U → Type ℓ)
      → ((s : Handler U) (c : Call) → P s → P (commit U s c))
      → ((s : Handler U) (top : Call) (rest : List Call)
          → s.priority_queue ≡ top ∷ rest
          → P s
          → P (pop U Q (execute_remote U s top)))
      → (s : Handler U) → P s
      → P (stabilizer_with_ack U Q s)
  unfolding stabilizer_with_ack drain
  stabilizer-keeps P step round s h =
      choose (stabilize_loop U (quorum_of U s) (drop s.stable_index s.execution_list) s false).1
    where
      s' : Handler U
      s' = (stabilize_loop U (quorum_of U s) (drop s.stable_index s.execution_list) s false).0

      kept : P s'
      kept =
          stabilize_loop-keeps P step (quorum_of U s) (drop s.stable_index s.execution_list) s false
            h

      choose : (can : Bool) → P (if can then drain U Q s' else s')
      choose true = drain_loop-keeps U Q P round (length s'.priority_queue) s' kept
      choose false = kept

  pop-keeps_failed : (s : Handler U) → (pop U Q s).node_failed ≡ s.node_failed
  unfolding pop
  pop-keeps_failed s = elim (List-cases s.priority_queue) [
    | inl e ↦ simp (e, pop)
    | inr (top, rest, e) ↦ simp (e, pop)
  ]

  -- The failure detector's table survives everything but a new failure.
  abbrev Failed : List Bool → Handler U → Type 0
  Failed f s = s.node_failed ≡ f

  round-Failed :
      (f : List Bool) (s : Handler U) (top : Call) (rest : List Call)
      → s.priority_queue ≡ top ∷ rest
      → Failed f s
      → Failed f (pop U Q (execute_remote U s top))
  round-Failed f s top rest e h =
      pop-keeps_failed (execute_remote U s top) ∙ unfold execute_remote in h

  stabilizer-Failed :
      (f : List Bool) (s : Handler U) → Failed f s → Failed f (stabilizer_with_ack U Q s)
  stabilizer-Failed f = stabilizer-keeps (Failed f) (λ s c h. unfold commit in h) (round-Failed f)

  -- An empty queue stays empty.
  stabilizer-empty :
      (s : Handler U) → s.priority_queue ≡ [] → (stabilizer_with_ack U Q s).priority_queue ≡ []
  stabilizer-empty =
      stabilizer-keeps (λ t. t.priority_queue ≡ []) (λ s c h. unfold commit in h)
        (λ s top rest e h. cc)

  -- The whole reaction, when the node was alive.
  abbrev pub react : Handler U → ℕ → Handler U
  react s r = stabilizer_with_ack U Q (force_drain U Q (stabilizer_with_ack U Q (bury U s r)))

  pub mark_alive :
      (s : Handler U) (r : ℕ)
      → at_node s.node_failed r ≡ some false
      → mark_node_failed U Q s r ≡ react s r
  unfolding mark_node_failed
  mark_alive s r e = simp (e, mark_node_failed)

  pub mark_dead :
      (s : Handler U) (r : ℕ) → at_node s.node_failed r ≡ some true → mark_node_failed U Q s r ≡ s
  unfolding mark_node_failed
  mark_dead s r e = simp (e, mark_node_failed)

  pub mark_unknown :
      (s : Handler U) (r : ℕ) → at_node s.node_failed r ≡ none → mark_node_failed U Q s r ≡ s
  unfolding mark_node_failed
  mark_unknown s r e = simp (e, mark_node_failed)

  pub react-Failed :
      (s : Handler U) (r : ℕ) → (react s r).node_failed ≡ set_node s.node_failed r true
  react-Failed s r =
      let f = set_node s.node_failed r true in
      stabilizer-Failed f _ (
        unfold force_drain in
        (force_drain_loop-keeps (Failed f) (round-Failed f) _ _
          (stabilizer-Failed f (bury U s r) (unfold bury in refl))))

  -- markNodeFailed acts once for a node: a second report of the same node changes nothing, in any state.
  pub mark_node_failed_idem :
      (s : Handler U) (r : ℕ)
      → mark_node_failed U Q (mark_node_failed U Q s r) r ≡ mark_node_failed U Q s r
  mark_node_failed_idem s r = elim (Option-cases (at_node s.node_failed r)) [
    | inl e ↦ rw (mark_unknown s r e) (mark_unknown s r e)
    | inr (true, e) ↦ rw (mark_dead s r e) (mark_dead s r e)
    | inr (false, e) ↦ rw (mark_alive s r e) (
        mark_dead (react s r) r
          (ap (λ f. at_node f r) (react-Failed s r) ∙ set_node-here s.node_failed r false true e))
  ]

  -- After the first report of a node's failure no call is left in the queue, and the node is marked.
  pub mark_node_failed-empties :
      (s : Handler U) (r : ℕ)
      → at_node s.node_failed r ≡ some false
      → ((mark_node_failed U Q s r).priority_queue ≡ [])
        × (at_node (mark_node_failed U Q s r).node_failed r ≡ some true)
  mark_node_failed-empties s r e = rw (mark_alive s r e) (
    stabilizer-empty _ (force_drain-empties _),
    ap (λ f. at_node f r) (react-Failed s r) ∙ set_node-here s.node_failed r false true e,
  )
