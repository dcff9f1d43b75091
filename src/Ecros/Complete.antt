-- ===== src/Ecros/Complete.antt =====
-- protocol-ecros.cpp, fullTopoSort: which calls the order leaves out.
use optimistic_replication.Prelude.{
  ℕ, zero, suc, ◌-◌, ◌<◌, ◌≤◌, ◌≡◌, sym, ◌∙◌, ap, inl, inr, Bool, true, false, ◌||◌, List, [], ◌∷◌,
  ◌++◌, ◌==◌, All, All-append, Bool-cases, keep_if, keep_if-true, keep_if-false, length,
  perm_length, arith,
}
use mathlib.Core.Bool.{true≢false}
use optimistic_replication.Ecros.{Edge, HashSet}
use optimistic_replication.Ecros.Cycles.{is_visited}
use optimistic_replication.Ecros.TopoSort.{indegree, release, sort_loop, backwards, full_topo_sort}
use optimistic_replication.Ecros.Sorted.{
  pending_edges, IsOnce, Ready, is_visited-append, pending_edges-append, release-Ready, lowered,
  lowered-here, lowered-other,
}
use optimistic_replication.Ecros.Remaining.{
  remaining, remaining-less, remaining-none, remaining-length,
}
use optimistic_replication.Ecros.Respects.{
  Ready-pop, Ready-start, indegree_lem, is_visited-backwards,
}

zero_of : (n : ℕ) → (n == 0) ≡ true → n ≡ 0
zero_of n e = ground arith

nowhere :
    (p : ℕ) (order : List ℕ)
    → is_visited p order ≡ false
    → is_visited p order || is_visited p [] ≡ false
unfolding is_visited
nowhere p order n = rw n

module _ (keys : List ℕ) where
  -- A key without pending edges is done or in the queue, and the queue holds keys.
  record Covers (indeg : ℕ → ℕ) (order q : List ℕ) : Type 0 where
    covered :
        (p : ℕ)
        → is_visited p keys ≡ true
        → indeg p ≡ 0
        → is_visited p order || is_visited p q ≡ true
    queued : All (λ p. is_visited p keys ≡ true) q

  Covers-pop :
      (indeg : ℕ → ℕ) (order : List ℕ) (u : ℕ) (q : List ℕ)
      → Covers indeg order (u ∷ q)
      → Covers indeg (order ++ (u ∷ [])) q
  unfolding is_visited
  Covers-pop indeg order u q c = record {
    covered = λ p m z. ground (arith, c.covered p m z, is_visited-append p u order);
    queued = c.queued.1;
  }

  Covers-push :
      (indeg : ℕ → ℕ) (order : List ℕ) (p : ℕ) (q : List ℕ)
      → is_visited p keys ≡ true
      → Covers indeg order q
      → Covers (lowered indeg p) order (p ∷ q)
  unfolding is_visited
  Covers-push indeg order p q k c = record {
    covered = λ x m z. elim (Bool-cases (p == x)) [
      | inl e ↦ ground (arith, e)
      | inr e ↦ ground (arith, e, c.covered x m (sym (lowered-other indeg p x e) ∙ z))
    ];
    queued = (k, c.queued);
  }

  Covers-lower :
      (indeg : ℕ → ℕ) (order : List ℕ) (p : ℕ) (q : List ℕ)
      → (indeg p == 1) ≡ false
      → Covers indeg order q
      → Covers (lowered indeg p) order q
  Covers-lower indeg order p q t c = record {
    covered = λ x m z. elim (Bool-cases (p == x)) [
      | inl e ↦
          let f : p ≡ x = ground arith in
          let g : indeg x - 1 ≡ 0 = sym (lowered-here indeg p x f) ∙ z in
          let t' : (indeg x == 1) ≡ false = rw f at t in c.covered x m (ground (arith, g, t'))
      | inr e ↦ c.covered x m (sym (lowered-other indeg p x e) ∙ z)
    ];
    queued = c.queued;
  }

  release-Covers :
      (es : List Edge) (u : ℕ) (indeg : ℕ → ℕ) (order q : List ℕ)
      → All (λ (e : Edge). is_visited e.to keys ≡ true) es
      → Covers indeg order q
      → Covers (release es u indeg q).0 order (release es u indeg q).1
  unfolding release lowered
  release-Covers [] u indeg order q k c = c
  release-Covers (e ∷ es) u indeg order q k c = elim (Bool-cases (e.from == u)) [
    | inr f ↦ rw f (release-Covers es u indeg order q k.1 c)
    | inl f ↦ elim (Bool-cases (indeg e.to == 1)) [
      | inl t ↦
          rw (f, t)
            (release-Covers es u (lowered indeg e.to) order (e.to ∷ q) k.1
              (Covers-push indeg order e.to q k.0 c))
      | inr t ↦
          rw (f, t)
            (release-Covers es u (lowered indeg e.to) order q k.1
              (Covers-lower indeg order e.to q t c))
    ]
  ]

  sort_loop_complete :
      (fuel : ℕ) (edges : List Edge) (indeg : ℕ → ℕ) (q order : List ℕ)
      → All (λ (e : Edge). is_visited e.to keys ≡ true) edges
      → ((p : ℕ) → indeg p ≡ pending_edges edges order p)
      → Ready indeg order q
      → Covers indeg order q
      → remaining keys order ≤ fuel
      → (p : ℕ) → is_visited p keys ≡ true
      → is_visited p (sort_loop fuel edges indeg q order) ≡ false
      → 0 < pending_edges edges (sort_loop fuel edges indeg q order) p
  unfolding sort_loop
  sort_loop_complete zero edges indeg q order k i r c f p m n =
      absurd (true≢false (sym (remaining-none keys order p (omega (arith, f)) m) ∙ n))
  sort_loop_complete (suc fuel) edges indeg [] order k i r c f p m n =
      elim (Bool-cases (pending_edges edges order p == 0)) [
        | inl e ↦
            let z : indeg p ≡ 0 = omega (arith, i p, zero_of (pending_edges edges order p) e) in
            absurd (true≢false (sym (c.covered p m z) ∙ nowhere p order n))
        | inr e ↦ ground arith
      ]
  sort_loop_complete (suc fuel) edges indeg (u ∷ q) order k i r c f p m n =
      let done = order ++ (u ∷ []) in
      let moved = λ (p : ℕ). pending_edges-append edges order u p r.fresh.0 in
      let (r', h) =
        release-Ready edges u indeg done q (λ p. omega (arith, i p, moved p))
          (Ready-pop indeg order u q r) in
      sort_loop_complete fuel edges (release edges u indeg q).0 (release edges u indeg q).1 done k
        (λ p. omega (arith, i p, moved p, h p)) r'
        (release-Covers edges u indeg done q k (Covers-pop indeg order u q c))
        (omega (arith, f, remaining-less keys order u c.queued.0 r.fresh.0)) p m n

is_visited-keep_if :
    (p : ℕ) (f : ℕ → Bool) (ks : List ℕ)
    → is_visited p ks ≡ true
    → f p ≡ true
    → is_visited p (keep_if f ks) ≡ true
unfolding is_visited
is_visited-keep_if p f [] m h = absurd (true≢false (sym m))
is_visited-keep_if p f (k ∷ ks) m h = elim (Bool-cases (k == p)) [
  | inl e ↦ let g : k ≡ p = ground arith in rw (keep_if-true f k ks (ap f g ∙ h), e)
  | inr e ↦
      let rest = is_visited-keep_if p f ks (rw e at m) h in
      elim (Bool-cases (f k)) [
        | inl t ↦ rw (keep_if-true f k ks t, e) rest
        | inr t ↦ rw (keep_if-false f k ks t) rest
      ]
]

All-backwards-keys :
    (keys qs : List ℕ)
    → All (λ p. is_visited p keys ≡ true) qs
    → All (λ p. is_visited p keys ≡ true) (backwards qs)
unfolding backwards
All-backwards-keys keys [] a = tt
All-backwards-keys keys (q ∷ qs) a =
    All-append (λ p. is_visited p keys ≡ true) (backwards qs) (q ∷ [])
      (All-backwards-keys keys qs a.1) (a.0, tt)

All-keep_if-keys :
    (f : ℕ → Bool) (keys ks : List ℕ)
    → ((p : ℕ) → is_visited p ks ≡ true → is_visited p keys ≡ true)
    → All (λ p. is_visited p keys ≡ true) (keep_if f ks)
unfolding is_visited
All-keep_if-keys f keys [] h = tt
All-keep_if-keys f keys (k ∷ ks) h =
    let rest = All-keep_if-keys f keys ks (λ p m. h p (ground (arith, m))) in
    elim (Bool-cases (f k)) [
      | inl t ↦ rw (keep_if-true f k ks t) (h k (ground arith), rest)
      | inr t ↦ rw (keep_if-false f k ks t) rest
    ]

Covers-start :
    (edges : List Edge) (keys : List ℕ)
    → Covers keys (indegree edges) [] (backwards (keep_if (λ p. indegree edges p == 0) keys))
unfolding is_visited
Covers-start edges keys =
    let is_free : ℕ → Bool = λ p. indegree edges p == 0 in
    record {
      covered = λ p m z.
          is_visited-backwards p (keep_if is_free keys)
          ∙ is_visited-keep_if p is_free keys m (ground (arith, z));
      queued =
          All-backwards-keys keys (keep_if is_free keys)
            (All-keep_if-keys is_free keys keys (λ p m. m));
    }

-- The loop of fullTopoSort runs to its end: a call that its order leaves out has an edge to it from a call
-- that the order leaves out, too. The edges lead to calls of the set, and the keys of the map are distinct.
pub full_topo_sort_complete :
    (H : HashSet) (calls : List ℕ) (edges : List Edge)
    → IsOnce (H.by_address calls)
    → All (λ (e : Edge). is_visited e.to (H.by_address calls) ≡ true) edges
    → (p : ℕ) → is_visited p (H.by_address calls) ≡ true
    → is_visited p (full_topo_sort H calls edges) ≡ false
    → 0 < pending_edges edges (full_topo_sort H calls edges) p
unfolding full_topo_sort
full_topo_sort_complete H calls edges o k p m n =
    let keys = H.by_address calls in
    sort_loop_complete keys (length calls) edges (indegree edges) _ [] k (indegree_lem edges)
      (Ready-start edges keys o) (Covers-start edges keys)
      (omega (arith, remaining-length keys [], perm_length (H.by_address_perm calls))) p m n
