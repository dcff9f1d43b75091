-- ===== src/DirectedGraph/Search.antt =====
-- wellcoordination/benchmark/replicated-object.hpp: what the depth-first search of DirectedGraph finds.
use mathlib.Core.Bool.{true≢false}
use optimistic_replication.Prelude.{
  ℕ, zero, suc, ◌≤◌, ◌≡◌, ◌≢◌, ◌↔◌, refl, sym, ap, ◌∙◌, subst, inl, inr, true, false, List, [], ◌∷◌,
  Bytes, eq_bytes, eq_bytes_refl, eq_bytes→eq, length, arith, Bool-cases,
}
use optimistic_replication.DirectedGraph.{
  Adjacency, neighbors, has, Found, visit, dfs, all_targets, is_reachable,
}
use optimistic_replication.DirectedGraph.Visited.{
  has-here, has-there, has-target, missing, Grows, missing-Grows, missing-visit, missing-nil,
}

-- Edges of the graph lead to `dest`, none where it is the vertex itself.
pub data Leads (g : List Adjacency) (dest : Bytes) : Bytes → Type 0 where
  there : Leads g dest dest
  along : (a n : Bytes) → has n (neighbors g a) ≡ true → Leads g dest n → Leads g dest a

-- A search from `v` ended at `w` without the goal: every new vertex has its neighbours among the visited.
pub record Exhausts (g : List Adjacency) (dest : Bytes) (v w : List Bytes) : Type 0 where
  pub grows : Grows v w
  pub closed :
      (x y : Bytes)
      → has x w ≡ true
      → has x v ≡ false
      → has y (neighbors g x) ≡ true
      → has y w ≡ true
  pub avoids : (x : Bytes) → has x w ≡ true → has x v ≡ false → x ≢ dest

module _ (g : List Adjacency) (dest : Bytes) where
  Exhausts-refl : (v : List Bytes) → Exhausts g dest v v
  Exhausts-refl v = record {
    grows = record { more = λ x h. h };
    closed = λ x y h k m. absurd (true≢false (sym h ∙ k));
    avoids = λ x h k. absurd (true≢false (sym h ∙ k));
  }

  Exhausts-trans :
      (u v w : List Bytes) → Exhausts g dest u v → Exhausts g dest v w → Exhausts g dest u w
  Exhausts-trans u v w p q = record {
    grows = record { more = λ x h. q.grows.more x (p.grows.more x h) };
    closed = λ x y h k m. elim (Bool-cases (has x v)) [
      | inl e ↦ q.grows.more y (p.closed x y e k m)
      | inr e ↦ q.closed x y h e m
    ];
    avoids =
        λ x h k. elim (Bool-cases (has x v)) [ inl e ↦ p.avoids x e k | inr e ↦ q.avoids x h e ];
  }

  -- What a search from one vertex promises, when it does not find the goal.
  abbrev Misses : List Bytes → ℕ → (Bytes → List Bytes → Found) → Type 0
  Misses vs fuel f =
      (n : Bytes) (v : List Bytes)
      → has n vs ≡ true
      → has n v ≡ false
      → missing vs v ≤ fuel
      → (f n v).answer ≡ false
      → Exhausts g dest v (f n v).visited × (has n (f n v).visited ≡ true)

  visit-Exhausts :
      (vs : List Bytes) (fuel : ℕ) (f : Bytes → List Bytes → Found)
      → Misses vs fuel f
      → (ns v : List Bytes) → ((n : Bytes) → has n ns ≡ true → has n vs ≡ true)
      → missing vs v ≤ fuel
      → (visit f ns v).answer ≡ false
      → Exhausts g dest v (visit f ns v).visited
        × ((n : Bytes) → has n ns ≡ true → has n (visit f ns v).visited ≡ true)
  unfolding visit has
  visit-Exhausts vs fuel f ok [] v inside b h =
      (Exhausts-refl v, λ n k. absurd (true≢false (sym k)))
  visit-Exhausts vs fuel f ok (m ∷ ns) v inside b h = elim (Bool-cases (has m v)) [
    | inl s ↦
        let (x, all) =
          visit-Exhausts vs fuel f ok ns v (λ n k. inside n (has-there n m ns k)) b (rw s at h) in
        rw s (x, seen _ all (x.grows.more m s))
    | inr s ↦ elim (Bool-cases (f m v).answer) [
      | inl a ↦ absurd (true≢false (rw (s, a) at h))
      | inr a ↦
          let (y, at) = ok m v (inside m (has-here m ns)) s b a in
          let (x, all) =
            visit-Exhausts vs fuel f ok ns (f m v).visited (λ n k. inside n (has-there n m ns k))
              (omega (arith, b, missing-Grows vs v (f m v).visited y.grows)) (rw (s, a) at h) in
          rw (s, a) (Exhausts-trans v _ _ y x, seen _ all (x.grows.more m at))
    ]
  ]
    where
      seen :
          (w : List Bytes)
          → ((n : Bytes) → has n ns ≡ true → has n w ≡ true)
          → has m w ≡ true
          → (n : Bytes) → has n (m ∷ ns) ≡ true
          → has n w ≡ true
      seen w all k n h' = elim (Bool-cases (eq_bytes m n)) [
        | inl e ↦ subst (λ z. has z w ≡ true) (eq_bytes→eq m n e) k
        | inr e ↦ all n (rw e at h')
      ]

  dfs-Misses :
      (vs : List Bytes)
      → ((a n : Bytes) → has n (neighbors g a) ≡ true → has n vs ≡ true)
      → (fuel : ℕ) → Misses vs fuel (dfs fuel g dest)
  unfolding dfs has
  dfs-Misses vs ends zero src v i k b h = absurd (omega (arith, b, missing-visit vs v src i k))
  dfs-Misses vs ends (suc fuel) src v i k b h = elim (Bool-cases (eq_bytes src dest)) [
    | inl e ↦ absurd (true≢false (rw e at h))
    | inr e ↦
        let (x, all) =
          visit-Exhausts vs fuel (dfs fuel g dest) (dfs-Misses vs ends fuel) (neighbors g src)
            (src ∷ v) (ends src) (omega (arith, b, missing-visit vs v src i k)) (rw e at h) in
        rw e (after e _ x all, x.grows.more src (has-here src v))
  ]
    where
      after :
          eq_bytes src dest ≡ false
          → (w : List Bytes) → Exhausts g dest (src ∷ v) w
          → ((n : Bytes) → has n (neighbors g src) ≡ true → has n w ≡ true)
          → Exhausts g dest v w
      after e w x all = record {
        grows = record { more = λ y h'. x.grows.more y (has-there y src v h') };
        closed = λ y z h' k' m. elim (Bool-cases (eq_bytes src y)) [
          | inl q ↦ all z (subst (λ t. has z (neighbors g t) ≡ true) (sym (eq_bytes→eq src y q)) m)
          | inr q ↦ x.closed y z h' (rw (q, k') refl) m
        ];
        avoids = λ y h' k'. elim (Bool-cases (eq_bytes src y)) [
          | inl q ↦ λ d.
              true≢false (sym (eq_bytes_refl src) ∙ ap (eq_bytes src) (eq_bytes→eq src y q ∙ d) ∙ e)
          | inr q ↦ x.avoids y h' (rw (q, k') refl)
        ];
      }

  -- What is among the visited after a search without the goal leads nowhere to it.
  Leads-visited :
      (w : List Bytes) → Exhausts g dest [] w → {a : Bytes} → Leads g dest a → has a w ≡ true → ⊥
  unfolding has
  Leads-visited w x there h = x.avoids dest h refl refl
  Leads-visited w x (along a n e l) h = Leads-visited w x l (x.closed a n h refl e)

  -- A vertex of the loop from which the search finds the goal.
  visit-Leads :
      (f : Bytes → List Bytes → Found)
      → ((n : Bytes) (v : List Bytes) → (f n v).answer ≡ true → Leads g dest n)
      → (ns v : List Bytes) → (visit f ns v).answer ≡ true
      → (n : Bytes) × (has n ns ≡ true) × Leads g dest n
  unfolding visit
  visit-Leads f ok [] v h = absurd (true≢false (sym h))
  visit-Leads f ok (m ∷ ns) v h = elim (Bool-cases (has m v)) [
    | inl s ↦ behind (visit-Leads f ok ns v (rw s at h))
    | inr s ↦ elim (Bool-cases (f m v).answer) [
      | inl a ↦ (m, has-here m ns, ok m v a)
      | inr a ↦ behind (visit-Leads f ok ns (f m v).visited (rw (s, a) at h))
    ]
  ]
    where
      behind :
          (n : Bytes) × (has n ns ≡ true) × Leads g dest n
          → (n : Bytes) × (has n (m ∷ ns) ≡ true) × Leads g dest n
      behind (n, k, l) = (n, has-there n m ns k, l)

  dfs-Leads :
      (fuel : ℕ) (src : Bytes) (v : List Bytes)
      → (dfs fuel g dest src v).answer ≡ true
      → Leads g dest src
  unfolding dfs
  dfs-Leads zero src v h = absurd (true≢false (sym h))
  dfs-Leads (suc fuel) src v h = elim (Bool-cases (eq_bytes src dest)) [
    | inl e ↦ subst (Leads g dest) (sym (eq_bytes→eq src dest e)) there
    | inr e ↦
        let (n, k, l) =
          visit-Leads (dfs fuel g dest) (dfs-Leads fuel) (neighbors g src) (src ∷ v) (rw e at h) in
        along src n k l
  ]

  dfs-finds :
      (src : Bytes)
      → Leads g dest src
      → (dfs (suc (length (all_targets g))) g dest src []).answer ≡ true
  unfolding has
  dfs-finds src l = elim (Bool-cases (dfs (suc (length (all_targets g))) g dest src []).answer) [
    | inl h ↦ h
    | inr h ↦
        let (x, at) =
          dfs-Misses (src ∷ all_targets g)
            (λ a n k. has-there n src (all_targets g) (has-target g n a k))
            (suc (length (all_targets g))) src [] (has-here src (all_targets g)) refl
            (missing-nil (src ∷ all_targets g)) h in
        absurd (Leads-visited _ x l at)
  ]

-- isReachable answers true exactly if its arguments differ and edges of the graph lead from the first to
-- the second, whatever the graph.
pub is_reachable-iff-Leads :
    (g : List Adjacency) (src dest : Bytes)
    → (is_reachable g src dest ≡ true) ↔ ((src ≢ dest) × Leads g dest src)
unfolding is_reachable
is_reachable-iff-Leads g src dest = elim (Bool-cases (eq_bytes src dest)) [
  | inl e ↦
      rw e ((λ h. absurd (true≢false (sym h))), (λ (d, l). absurd (d (eq_bytes→eq src dest e))))
  | inr e ↦ rw e (
    (λ h. (
      (λ q. true≢false (sym (eq_bytes_refl src) ∙ ap (eq_bytes src) q ∙ e)),
      dfs-Leads g dest _ src [] h,
    )),
    (λ (d, l). dfs-finds g dest src l),
  )
]
