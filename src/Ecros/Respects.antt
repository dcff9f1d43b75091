-- ===== src/Ecros/Respects.antt =====
-- protocol-ecros.cpp, fullTopoSort: the order that it makes.
use optimistic_replication.Prelude.{
  ℕ, ◌≡◌, refl, sym, ◌∙◌, ap, inl, inr, Bool, true, false, ◌||◌, List, [], ◌∷◌, ◌++◌, ◌==◌, All,
  All-append, Bool-cases, keep_if, keep_if-true, keep_if-false, arith,
}
use mathlib.Core.Bool.{true≢false}
use optimistic_replication.Ecros.{Edge}
use optimistic_replication.Ecros.Cycles.{is_visited}
use optimistic_replication.Ecros.TopoSort.{indegree, backwards}
use optimistic_replication.Ecros.Sorted.{pending_edges, IsOnce, Ready, is_visited-append}

-- An order in which each call stands once, and behind all calls that have an edge to it.
pub data Respects (edges : List Edge) : List ℕ → Type 0 where
  nothing : Respects edges []
  next :
      {order : List ℕ} (u : ℕ)
      → is_visited u order ≡ false
      → All (λ (e : Edge). e.to ≡ u → is_visited e.from order ≡ true) edges
      → Respects edges order
      → Respects edges (order ++ (u ∷ []))

All-not_in :
    (u : ℕ) (order q : List ℕ)
    → is_visited u q ≡ false
    → All (λ x. is_visited x order ≡ false) q
    → All (λ x. is_visited x (order ++ (u ∷ [])) ≡ false) q
unfolding is_visited
All-not_in u order [] h a = tt
All-not_in u order (x ∷ xs) h a = elim (Bool-cases (x == u)) [
  | inl e ↦ absurd (true≢false (rw e at h))
  | inr e ↦
      let v = is_visited-append x u order in
      (v ∙ ground (arith, a.0, e), All-not_in u order xs (rw e at h) a.1)
]

-- The state after `u` was taken from the queue.
pub Ready-pop :
    (indeg : ℕ → ℕ) (order : List ℕ) (u : ℕ) (q : List ℕ)
    → Ready indeg order (u ∷ q)
    → Ready indeg (order ++ (u ∷ [])) q
Ready-pop indeg order u q r = record {
  zero_in = r.zero_in.1;
  fresh = All-not_in u order q r.once.0 r.fresh.1;
  once = r.once.1;
  spent = spent;
}
  where
    spent : (x : ℕ) → is_visited x (order ++ (u ∷ [])) ≡ true → indeg x ≡ 0
    spent x v = elim (Bool-cases (is_visited x order)) [
      | inl i ↦ r.spent x i
      | inr i ↦
          let w : is_visited x order || (u == x) ≡ true = sym (is_visited-append x u order) ∙ v in
          let f : u ≡ x = ground (arith, i, w) in ap indeg (sym f) ∙ r.zero_in.0
    ]

pub indegree_lem : (edges : List Edge) (p : ℕ) → indegree edges p ≡ pending_edges edges [] p
unfolding indegree pending_edges is_visited
indegree_lem [] p = refl
indegree_lem (e ∷ es) p = ground (arith, indegree_lem es p)

-- The calls without an edge to them, from the last to the first, are still distinct.
is_visited-keep_if :
    (x : ℕ) (f : ℕ → Bool) (ps : List ℕ)
    → is_visited x ps ≡ false
    → is_visited x (keep_if f ps) ≡ false
unfolding is_visited
is_visited-keep_if x f [] h = refl
is_visited-keep_if x f (p ∷ ps) h = elim (Bool-cases (p == x)) [
  | inl e ↦ absurd (true≢false (rw e at h))
  | inr e ↦
      let rest = is_visited-keep_if x f ps (rw e at h) in
      elim (Bool-cases (f p)) [
        | inl t ↦ rw (keep_if-true f p ps t, e) rest
        | inr t ↦ rw (keep_if-false f p ps t) rest
      ]
]

IsOnce-keep_if : (f : ℕ → Bool) (ps : List ℕ) → IsOnce ps → IsOnce (keep_if f ps)
IsOnce-keep_if f [] o = tt
IsOnce-keep_if f (p ∷ ps) o = elim (Bool-cases (f p)) [
  | inl e ↦ rw (keep_if-true f p ps e) (is_visited-keep_if p f ps o.0, IsOnce-keep_if f ps o.1)
  | inr e ↦ rw (keep_if-false f p ps e) (IsOnce-keep_if f ps o.1)
]

All-keep_if : (f : ℕ → Bool) (ps : List ℕ) → All (λ p. f p ≡ true) (keep_if f ps)
All-keep_if f [] = tt
All-keep_if f (p ∷ ps) = elim (Bool-cases (f p)) [
  | inl e ↦ rw (keep_if-true f p ps e) (e, All-keep_if f ps)
  | inr e ↦ rw (keep_if-false f p ps e) (All-keep_if f ps)
]

IsOnce-append :
    (x : ℕ) (xs : List ℕ) → is_visited x xs ≡ false → IsOnce xs → IsOnce (xs ++ (x ∷ []))
unfolding is_visited
IsOnce-append x [] h o = (refl, tt)
IsOnce-append x (y ∷ ys) h o = elim (Bool-cases (y == x)) [
  | inl e ↦ absurd (true≢false (rw e at h))
  | inr e ↦
      let k : (x == y) ≡ false = ground arith in
      (is_visited-append y x ys ∙ ground (arith, o.0, k), IsOnce-append x ys (rw e at h) o.1)
]

pub is_visited-backwards : (x : ℕ) (ps : List ℕ) → is_visited x (backwards ps) ≡ is_visited x ps
unfolding is_visited backwards
is_visited-backwards x [] = refl
is_visited-backwards x (p ∷ ps) =
    is_visited-append x p (backwards ps) ∙ ground (arith, is_visited-backwards x ps)

IsOnce-backwards : (ps : List ℕ) → IsOnce ps → IsOnce (backwards ps)
unfolding backwards
IsOnce-backwards [] o = tt
IsOnce-backwards (p ∷ ps) o =
    IsOnce-append p (backwards ps) (is_visited-backwards p ps ∙ o.0) (IsOnce-backwards ps o.1)

All-backwards : (P : ℕ → Type 0) (ps : List ℕ) → All P ps → All P (backwards ps)
unfolding backwards
All-backwards P [] h = tt
All-backwards P (p ∷ ps) h = All-append P (backwards ps) (p ∷ []) (All-backwards P ps h.1) (h.0, tt)

All-imp : (P R : ℕ → Type 0) → ((x : ℕ) → P x → R x) → (xs : List ℕ) → All P xs → All R xs
All-imp P R f [] h = tt
All-imp P R f (x ∷ xs) h = (f x h.0, All-imp P R f xs h.1)

-- The queue and the map before the loop.
pub Ready-start :
    (edges : List Edge) (keys : List ℕ)
    → IsOnce keys
    → Ready (indegree edges) [] (backwards (keep_if (λ p. indegree edges p == 0) keys))
unfolding is_visited
Ready-start edges keys o =
    let free = keep_if (λ p. indegree edges p == 0) keys in
    let zero_in =
      All-backwards (λ x. indegree edges x ≡ 0) free
        (All-imp (λ x. (indegree edges x == 0) ≡ true) (λ x. indegree edges x ≡ 0)
          (λ x e. ground arith) free (All-keep_if (λ p. indegree edges p == 0) keys)) in
    record {
      zero_in = zero_in;
      fresh =
          All-imp (λ x. indegree edges x ≡ 0) (λ x. is_visited x [] ≡ false) (λ x e. refl)
            (backwards free) zero_in;
      once = IsOnce-backwards free (IsOnce-keep_if (λ p. indegree edges p == 0) keys o);
      spent = λ x v. absurd (true≢false (sym v));
    }
