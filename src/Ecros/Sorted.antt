-- ===== src/Ecros/Sorted.antt =====
-- protocol-ecros.cpp, fullTopoSort: what holds in its loop.
use optimistic_replication.Prelude.{
  ℕ, suc, ◌+◌, ◌-◌, ◌≤◌, ◌≡◌, refl, ap, inl, inr, true, false, not, ◌&&◌, ◌||◌, List, [], ◌∷◌, ◌++◌,
  ◌==◌, All, Bool-cases, if◌then◌else◌, arith,
}
use optimistic_replication.Ecros.{Edge}
use optimistic_replication.Ecros.Cycles.{is_visited, update}
use optimistic_replication.Ecros.TopoSort.{release}

-- How many edges lead to `p` from calls outside of `order`, and how many from `u`.
unfoldable pub pending_edges : List Edge → List ℕ → ℕ → ℕ
pending_edges [] order p = 0
pending_edges (e ∷ es) order p =
    let rest = pending_edges es order p in
    if (e.to == p) && not (is_visited e.from order) then suc rest else rest

unfoldable pub out_edges : List Edge → ℕ → ℕ → ℕ
out_edges [] u p = 0
out_edges (e ∷ es) u p =
    let rest = out_edges es u p in if (e.from == u) && (e.to == p) then suc rest else rest

-- Each element once.
abbrev pub IsOnce : List ℕ → Type 0
IsOnce [] = Unit
IsOnce (x ∷ xs) = (is_visited x xs ≡ false) × IsOnce xs

-- The queue `q` and the map between two rounds, when the calls of `order` are done.
pub record Ready (indeg : ℕ → ℕ) (order q : List ℕ) : Type 0 where
  pub zero_in : All (λ x. indeg x ≡ 0) q
  pub fresh : All (λ x. is_visited x order ≡ false) q
  pub once : IsOnce q
  pub spent : (x : ℕ) → is_visited x order ≡ true → indeg x ≡ 0

pub is_visited-append :
    (x u : ℕ) (order : List ℕ) → is_visited x (order ++ (u ∷ [])) ≡ is_visited x order || (u == x)
unfolding is_visited
is_visited-append x u [] = ground arith
is_visited-append x u (y ∷ ys) = ground (arith, is_visited-append x u ys)

-- A call that is done moves its edges from the pending ones.
pub pending_edges-append :
    (es : List Edge) (order : List ℕ) (u p : ℕ)
    → is_visited u order ≡ false
    → pending_edges es (order ++ (u ∷ [])) p + out_edges es u p ≡ pending_edges es order p
unfolding pending_edges out_edges
pending_edges-append [] order u p h = refl
pending_edges-append (e ∷ es) order u p h =
    let rest = pending_edges-append es order u p h in
    let v = is_visited-append e.from u order in
    elim (Bool-cases (e.from == u)) [
      | inl k ↦
          let f : e.from ≡ u = ground arith in
          let g : is_visited e.from order ≡ false = rw f h in ground (arith, rest, v, g, k)
      | inr k ↦ ground (arith, rest, v, k)
    ]

from_visited :
    (e : Edge) (order : List ℕ) (p : ℕ)
    → (e.to == p) && not (is_visited e.from order) ≡ false
    → e.to ≡ p
    → is_visited e.from order ≡ true
from_visited e order p t k = elim (Bool-cases (is_visited e.from order)) [
  | inl v ↦ v
  | inr v ↦ ground arith
]

pub pending_edges-none :
    (es : List Edge) (order : List ℕ) (p : ℕ)
    → pending_edges es order p ≡ 0
    → All (λ (e : Edge). e.to ≡ p → is_visited e.from order ≡ true) es
unfolding pending_edges
pending_edges-none [] order p h = tt
pending_edges-none (e ∷ es) order p h =
    elim (Bool-cases ((e.to == p) && not (is_visited e.from order))) [
      | inl t ↦ absurd (omega (arith, rw t at h))
      | inr t ↦ (from_visited e order p t, pending_edges-none es order p (rw t at h))
    ]

zero-not_visited :
    (indeg : ℕ → ℕ) (p : ℕ) (q : List ℕ)
    → indeg p ≡ 1
    → All (λ x. indeg x ≡ 0) q
    → is_visited p q ≡ false
unfolding is_visited
zero-not_visited indeg p [] h z = refl
zero-not_visited indeg p (x ∷ xs) h z = elim (Bool-cases (x == p)) [
  | inl e ↦ let f : x ≡ p = ground arith in absurd (omega (arith, h, ap indeg f, z.0))
  | inr e ↦ rw e (zero-not_visited indeg p xs h z.1)
]

unfoldable pub lowered : (ℕ → ℕ) → ℕ → ℕ → ℕ
lowered indeg p = update indeg p (indeg p - 1)

lowered-zero : (indeg : ℕ → ℕ) (p x : ℕ) → indeg x ≡ 0 → lowered indeg p x ≡ 0
unfolding lowered
lowered-zero indeg p x h = elim (Bool-cases (x == p)) [
  | inl e ↦ let f : x ≡ p = ground arith in rw e (omega (arith, h, ap indeg f))
  | inr e ↦ rw e h
]

All-lowered :
    (indeg : ℕ → ℕ) (p : ℕ) (q : List ℕ)
    → All (λ x. indeg x ≡ 0) q
    → All (λ x. lowered indeg p x ≡ 0) q
All-lowered indeg p [] z = tt
All-lowered indeg p (x ∷ xs) z = (lowered-zero indeg p x z.0, All-lowered indeg p xs z.1)

pub lowered-here : (indeg : ℕ → ℕ) (p x : ℕ) → p ≡ x → lowered indeg p x ≡ indeg x - 1
unfolding lowered
lowered-here indeg p x f = let k : (x == p) ≡ true = ground arith in rw k (ap (λ y. indeg y - 1) f)

pub lowered-other : (indeg : ℕ → ℕ) (p x : ℕ) → (p == x) ≡ false → lowered indeg p x ≡ indeg x
unfolding lowered
lowered-other indeg p x k = let l : (x == p) ≡ false = ground arith in rw l refl

lowered-one : (indeg : ℕ → ℕ) (p : ℕ) → indeg p ≡ 1 → lowered indeg p p ≡ 0
lowered-one indeg p h = omega (arith, h, lowered-here indeg p p refl)

-- A call with one edge left to it joins the queue.
Ready-push :
    (indeg : ℕ → ℕ) (order q : List ℕ) (p : ℕ)
    → indeg p ≡ 1
    → Ready indeg order q
    → Ready (lowered indeg p) order (p ∷ q)
Ready-push indeg order q p h r = record {
  zero_in = (lowered-one indeg p h, All-lowered indeg p q r.zero_in);
  fresh = (not_done, r.fresh);
  once = (zero-not_visited indeg p q h r.zero_in, r.once);
  spent = λ x v. lowered-zero indeg p x (r.spent x v);
}
  where
    not_done : is_visited p order ≡ false
    not_done = elim (Bool-cases (is_visited p order)) [
      | inl v ↦ absurd (omega (arith, h, r.spent p v))
      | inr v ↦ v
    ]

Ready-lower :
    (indeg : ℕ → ℕ) (order q : List ℕ) (p : ℕ)
    → Ready indeg order q
    → Ready (lowered indeg p) order q
Ready-lower indeg order q p r = record {
  zero_in = All-lowered indeg p q r.zero_in;
  fresh = r.fresh;
  once = r.once;
  spent = λ x v. lowered-zero indeg p x (r.spent x v);
}

-- What is left of the edges of `u` after one of them was taken.
module _ (e : Edge) (es : List Edge) (u : ℕ) (indeg : ℕ → ℕ) (k : (e.from == u) ≡ true)
    (p : ℕ) where
  out_edges-bound : out_edges (e ∷ es) u p ≤ indeg p → out_edges es u p ≤ lowered indeg e.to p
  unfolding out_edges
  out_edges-bound b = elim (Bool-cases (e.to == p)) [
    | inl t ↦
        let f : e.to ≡ p = ground arith in
        omega (arith, lowered-here indeg e.to p f, rw (k, t) at b)
    | inr t ↦ omega (arith, lowered-other indeg e.to p t, rw (k, t) at b)
  ]

  out_edges-equal :
      (n : ℕ)
      → out_edges (e ∷ es) u p ≤ indeg p
      → n + out_edges es u p ≡ lowered indeg e.to p
      → n + out_edges (e ∷ es) u p ≡ indeg p
  unfolding out_edges
  out_edges-equal n b h = elim (Bool-cases (e.to == p)) [
    | inl t ↦
        let f : e.to ≡ p = ground arith in
        rw (k, t) (omega (arith, lowered-here indeg e.to p f, h, rw (k, t) at b))
    | inr t ↦ rw (k, t) (omega (arith, lowered-other indeg e.to p t, h))
  ]

out_edges-skip :
    (e : Edge) (es : List Edge) (u p : ℕ)
    → (e.from == u) ≡ false
    → out_edges (e ∷ es) u p ≡ out_edges es u p
unfolding out_edges
out_edges-skip e es u p k = rw k

-- The loop over the edges of `u` takes them off the map, and keeps the queue and the map in order.
pub release-Ready :
    (es : List Edge) (u : ℕ) (indeg : ℕ → ℕ) (order q : List ℕ)
    → ((p : ℕ) → out_edges es u p ≤ indeg p)
    → Ready indeg order q
    → Ready (release es u indeg q).0 order (release es u indeg q).1
      × ((p : ℕ) → (release es u indeg q).0 p + out_edges es u p ≡ indeg p)
unfolding release lowered
release-Ready [] u indeg order q b r = unfold out_edges in (r, λ p. omega arith)
release-Ready (e ∷ es) u indeg order q b r = elim (Bool-cases (e.from == u)) [
  | inr k ↦
      let (r', h) =
        release-Ready es u indeg order q (λ p. omega (arith, b p, out_edges-skip e es u p k)) r in
      rw k (r', λ p. omega (arith, h p, out_edges-skip e es u p k))
  | inl k ↦ elim (Bool-cases (indeg e.to == 1)) [
    | inl t ↦
        let (r', h) =
          release-Ready es u (lowered indeg e.to) order (e.to ∷ q)
            (λ p. out_edges-bound e es u indeg k p (b p))
            (Ready-push indeg order q e.to (ground arith) r) in
        rw (k, t) (r', λ p. out_edges-equal e es u indeg k p _ (b p) (h p))
    | inr t ↦
        let (r', h) =
          release-Ready es u (lowered indeg e.to) order q
            (λ p. out_edges-bound e es u indeg k p (b p)) (Ready-lower indeg order q e.to r) in
        rw (k, t) (r', λ p. out_edges-equal e es u indeg k p _ (b p) (h p))
  ]
]
