-- ===== src/Driver/Monitor.antt =====
-- tcp/main-replication-protocols.cpp: the thread that watches the connections and reports dead ones.
use optimistic_replication.Prelude.{
  ℕ, zero, suc, ◌+◌, ◌<◌, ◌≤◌, ◌≡◌, refl, sym, ◌∙◌, ap, inl, inr, Bool, true, false, none, some,
  List, [], ◌∷◌, Bool-cases, Option-cases, if◌then◌else◌, ◌==◌, length, length-set, get_elem?, set,
  subst, arith,
}
use optimistic_replication.UseCase.{UseCase, PriorityQueue}
use optimistic_replication.Hamsou.{Handler, at_node}
use optimistic_replication.Hamsou.Run.{if_keeps}
use optimistic_replication.Hamsou.Failure.{mark_node_failed}
use optimistic_replication.Hamsou.Failure.Laws.{
  mark_node_failed-empties, mark_alive, mark_dead, mark_unknown, react-Failed,
}

module _ (U : UseCase) (Q : PriorityQueue) (is_connection_dead : ℕ → Bool) (id : ℕ) where
  -- `rounds` rounds of the loop from index `i`.
  unfoldable pub monitor_loop : ℕ → ℕ → Handler U → Handler U
  monitor_loop zero i s = s
  monitor_loop (suc rounds) i s =
      let skipped = monitor_loop rounds (suc i) s in
      let marked = monitor_loop rounds (suc i) (mark_node_failed U Q s (suc i)) in
      if suc i == id then skipped else elim (get_elem? s.node_failed i) [
        | none ↦ skipped
        | some true ↦ skipped
        | some false ↦ if is_connection_dead (suc i) then marked else skipped
      ]

  -- One turn of the thread.
  unfoldable pub monitor_pass : Handler U → Handler U
  monitor_pass s = monitor_loop s.number_of_nodes 0 s

get_elem?-set :
    (bs : List Bool) (i j : ℕ)
    → get_elem? bs j ≡ some true
    → get_elem? (set bs i true) j ≡ some true
get_elem?-set [] i j h = h
get_elem?-set (b ∷ bs) zero zero h = refl
get_elem?-set (b ∷ bs) zero (suc j) h = h
get_elem?-set (b ∷ bs) (suc i) zero h = h
get_elem?-set (b ∷ bs) (suc i) (suc j) h = get_elem?-set bs i j h

get_elem?-below : (bs : List Bool) (i : ℕ) → i < length bs → (b : Bool) × (get_elem? bs i ≡ some b)
get_elem?-below [] i h = absurd (omega arith)
get_elem?-below (b ∷ bs) zero h = (b, refl)
get_elem?-below (b ∷ bs) (suc i) h = get_elem?-below bs i (omega arith)

module _ (U : UseCase) (Q : PriorityQueue) where
  failed-mark_node_failed :
      (s : Handler U) (r j : ℕ)
      → get_elem? s.node_failed j ≡ some true
      → get_elem? (mark_node_failed U Q s (suc r)).node_failed j ≡ some true
  failed-mark_node_failed s r j h = elim (Option-cases (at_node s.node_failed (suc r))) [
    | inl e ↦ rw (mark_unknown U Q s (suc r) e) h
    | inr (true, e) ↦ rw (mark_dead U Q s (suc r) e) h
    | inr (false, e) ↦
        rw (mark_alive U Q s (suc r) e)
          (ap (λ f. get_elem? f j) (react-Failed U Q s (suc r)) ∙ get_elem?-set s.node_failed r j h)
  ]

  length-mark_node_failed :
      (s : Handler U) (r : ℕ)
      → length (mark_node_failed U Q s (suc r)).node_failed ≡ length s.node_failed
  length-mark_node_failed s r = elim (Option-cases (at_node s.node_failed (suc r))) [
    | inl e ↦ ap (λ (t : Handler U). length t.node_failed) (mark_unknown U Q s (suc r) e)
    | inr (true, e) ↦ ap (λ (t : Handler U). length t.node_failed) (mark_dead U Q s (suc r) e)
    | inr (false, e) ↦
        ap (λ (t : Handler U). length t.node_failed) (mark_alive U Q s (suc r) e)
        ∙ (ap length (react-Failed U Q s (suc r)) ∙ length-set s.node_failed r true)
  ]

  module _ (dead : ℕ → Bool) (id : ℕ) where
    -- A round goes on with the handler, or with the one in which the node is marked.
    monitor_loop-round {ℓ} :
        (P : Handler U → Type ℓ) (rounds i : ℕ) (s : Handler U)
        → P (monitor_loop U Q dead id rounds (suc i) s)
        → P (monitor_loop U Q dead id rounds (suc i) (mark_node_failed U Q s (suc i)))
        → P (monitor_loop U Q dead id (suc rounds) i s)
    unfolding monitor_loop
    monitor_loop-round P rounds i s skip mark =
        if_keeps P (suc i == id) skip (elim (Option-cases (get_elem? s.node_failed i)) [
          | inl e ↦ simp e skip
          | inr (true, e) ↦ simp e skip
          | inr (false, e) ↦ simp e (if_keeps P (dead (suc i)) mark skip)
        ])

    -- What is marked stays marked through the rest of the loop.
    monitor_loop-keeps :
        (rounds i : ℕ) (s : Handler U) (j : ℕ)
        → get_elem? s.node_failed j ≡ some true
        → get_elem? (monitor_loop U Q dead id rounds i s).node_failed j ≡ some true
    monitor_loop-keeps zero i s j h = unfold monitor_loop in h
    monitor_loop-keeps (suc rounds) i s j h =
        monitor_loop-round (λ t. get_elem? t.node_failed j ≡ some true) rounds i s
          (monitor_loop-keeps rounds (suc i) s j h)
          (monitor_loop-keeps rounds (suc i) (mark_node_failed U Q s (suc i)) j
            (failed-mark_node_failed s i j h))

    -- The round of a dead node.
    monitor_loop-here :
        (rounds j : ℕ) (s : Handler U)
        → j < length s.node_failed
        → (suc j == id) ≡ false
        → dead (suc j) ≡ true
        → get_elem? (monitor_loop U Q dead id (suc rounds) j s).node_failed j ≡ some true
    unfolding monitor_loop
    monitor_loop-here rounds j s n o d =
        let (b, f) = get_elem?-below s.node_failed j n in
        simp o (elim (Bool-cases b) [
          | inl t ↦ let e = f ∙ ap some t in simp e (monitor_loop-keeps rounds (suc j) s j e)
          | inr t ↦
              let e = f ∙ ap some t in
              simp (e, d)
                (monitor_loop-keeps rounds (suc j) (mark_node_failed U Q s (suc j)) j
                  (mark_node_failed-empties U Q s (suc j) e).1)
        ])

    monitor_loop-marks :
        (rounds i : ℕ) (s : Handler U) (j : ℕ)
        → i ≤ j
        → j < i + rounds
        → i + rounds ≤ length s.node_failed
        → (suc j == id) ≡ false
        → dead (suc j) ≡ true
        → get_elem? (monitor_loop U Q dead id rounds i s).node_failed j ≡ some true
    monitor_loop-marks zero i s j l u n o d = absurd (omega arith)
    monitor_loop-marks (suc rounds) i s j l u n o d = elim (Bool-cases (i == j)) [
      | inl e ↦
          let f : i ≡ j = ground arith in
          subst
            (λ k. get_elem? (monitor_loop U Q dead id (suc rounds) k s).node_failed j ≡ some true)
            (sym f) (monitor_loop-here rounds j s (omega arith) o d)
      | inr e ↦
          let k : suc i ≤ j = ground arith in
          monitor_loop-round (λ t. get_elem? t.node_failed j ≡ some true) rounds i s
            (monitor_loop-marks rounds (suc i) s j k (omega arith) (omega arith) o d)
            (monitor_loop-marks rounds (suc i) (mark_node_failed U Q s (suc i)) j k (omega arith)
              (omega (arith, n, length-mark_node_failed s i)) o d)
    ]

    -- After one turn of the monitor every node whose connection is dead is marked failed, except for the
    -- node itself, in every state whose table of failures has an entry for each node.
    pub monitor_pass-marks :
        (s : Handler U) (j : ℕ)
        → length s.node_failed ≡ s.number_of_nodes
        → j < s.number_of_nodes
        → (suc j == id) ≡ false
        → dead (suc j) ≡ true
        → at_node (monitor_pass U Q dead id s).node_failed (suc j) ≡ some true
    unfolding monitor_pass
    monitor_pass-marks s j n u o d =
        monitor_loop-marks s.number_of_nodes 0 s j (omega arith) (omega (arith, u))
          (omega (arith, n)) o d
