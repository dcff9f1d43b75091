-- ===== src/DirectedGraph/Visited.antt =====
-- wellcoordination/benchmark/replicated-object.hpp: the vertices that a search in DirectedGraph has visited.
use mathlib.Core.Bool.{true≢false}
use optimistic_replication.Prelude.{
  ℕ, suc, ◌≤◌, ◌≡◌, refl, sym, inl, inr, true, false, ◌||◌, List, [], ◌∷◌, ◌++◌, Bytes, eq_bytes,
  eq_bytes_refl, eq_bytes→eq, if◌then◌else◌, length, arith, Bool-cases,
}
use optimistic_replication.DirectedGraph.{Adjacency, neighbors, has, all_targets}

pub has-here : (n : Bytes) (ns : List Bytes) → has n (n ∷ ns) ≡ true
unfolding has
has-here n ns = rw (eq_bytes_refl n) refl

pub has-there : (n m : Bytes) (ns : List Bytes) → has n ns ≡ true → has n (m ∷ ns) ≡ true
unfolding has
has-there n m ns h = ground arith

has-append : (n : Bytes) (xs ys : List Bytes) → has n (xs ++ ys) ≡ (has n xs || has n ys)
unfolding has
has-append n [] ys = refl
has-append n (x ∷ xs) ys = ground (arith, has-append n xs ys)

pub has-target :
    (g : List Adjacency) (n a : Bytes) → has n (neighbors g a) ≡ true → has n (all_targets g) ≡ true
unfolding neighbors all_targets has
has-target [] n a h = h
has-target (e ∷ es) n a h = elim (Bool-cases (eq_bytes e.vertex a)) [
  | inl k ↦
      let h' : has n e.targets ≡ true = rw k at h in
      rw (has-append n e.targets (all_targets es), h') refl
  | inr k ↦
      rw (has-append n e.targets (all_targets es)) (ground (arith, has-target es n a (rw k at h)))
]

-- The vertices of a list that are not visited, counted.
unfoldable pub missing : List Bytes → List Bytes → ℕ
missing [] v = 0
missing (x ∷ xs) v = if has x v then missing xs v else suc (missing xs v)

pub record Grows (v w : List Bytes) : Type 0 where
  pub more : (x : Bytes) → has x v ≡ true → has x w ≡ true

pub missing-Grows : (vs v w : List Bytes) → Grows v w → missing vs w ≤ missing vs v
unfolding missing
missing-Grows [] v w h = omega arith
missing-Grows (x ∷ xs) v w h = elim (Bool-cases (has x v)) [
  | inl k ↦ rw (k, h.more x k) (missing-Grows xs v w h)
  | inr k ↦ ground (arith, missing-Grows xs v w h)
]

pub missing-visit :
    (vs v : List Bytes) (n : Bytes)
    → has n vs ≡ true
    → has n v ≡ false
    → suc (missing vs (n ∷ v)) ≤ missing vs v
unfolding missing has
missing-visit [] v n h k = absurd (true≢false (sym h))
missing-visit (x ∷ xs) v n h k = elim (Bool-cases (eq_bytes x n)) [
  | inl e ↦
      let q : x ≡ n = eq_bytes→eq x n e in
      rw (q, k, eq_bytes_refl n)
        (omega (arith, missing-Grows xs v (n ∷ v) (record { more = λ y. has-there y n v })))
  | inr e ↦ ground (arith, missing-visit xs v n (rw e at h) k)
]

pub missing-nil : (vs : List Bytes) → missing vs [] ≤ length vs
unfolding missing has
missing-nil [] = omega arith
missing-nil (x ∷ xs) = omega (arith, missing-nil xs)
