-- ===== src/Ecros/Clocks/Laws.antt =====
-- protocol-ecros.cpp and the use cases of the other protocol compare clocks alike.
use optimistic_replication.Prelude.{
  ℕ, suc, ◌≡◌, refl, sym, ◌∙◌, ◌⊎◌, inl, inr, Bool, true, false, not, ◌&&◌, ◌||◌, List, [], ◌∷◌,
  ltb, length, if◌then◌else◌, arith,
}
use optimistic_replication.VectorClock.{
  before, after, concurrent, compare_vector_clocks, is_after, is_concurrent,
}
use optimistic_replication.VectorClock.Laws.{Below, compare-iff-Means}
use optimistic_replication.Ecros.Clocks.{happened_before, happened_before_loop, concurrent_loop}
use optimistic_replication.Ecros.Clocks as Ecros

-- Every entry is at most the entry at its place, as a test.
abbrev below : List ℕ → List ℕ → Bool
below [] ys = true
below (x ∷ xs) [] = false
below (x ∷ xs) (y ∷ ys) = not (ltb y x) && below xs ys

below_cases :
    (a b : List ℕ) → ((below a b ≡ true) × Below a b) ⊎ ((below a b ≡ false) × (¬ Below a b))
below_cases [] ys = inl (refl, tt)
below_cases (x ∷ xs) [] = inr (refl, λ h. h)
below_cases (x ∷ xs) (y ∷ ys) = ground (arith, below_cases xs ys)

happened_before_loop_lem :
    (n : ℕ) (a b : List ℕ) (s : Bool)
    → length a ≡ n
    → length b ≡ n
    → happened_before_loop n a b s ≡ (below a b && (s || not (below b a)))
unfolding happened_before_loop
happened_before_loop_lem ℕ.zero [] [] s h k = ground arith
happened_before_loop_lem ℕ.zero [] (y ∷ ys) s h k = absurd (omega arith)
happened_before_loop_lem ℕ.zero (x ∷ xs) b s h k = absurd (omega arith)
happened_before_loop_lem (suc n) [] b s h k = absurd (omega arith)
happened_before_loop_lem (suc n) (x ∷ xs) [] s h k = absurd (omega arith)
happened_before_loop_lem (suc n) (x ∷ xs) (y ∷ ys) s h k =
    rw (happened_before_loop_lem n xs ys (if ltb x y then true else s) (omega arith) (omega arith))
      (ground arith)

concurrent_loop_lem :
    (n : ℕ) (a b : List ℕ) (s t : Bool)
    → length a ≡ n
    → length b ≡ n
    → concurrent_loop n a b s t ≡ ((s || not (below b a)) && (t || not (below a b)))
unfolding concurrent_loop
concurrent_loop_lem ℕ.zero [] [] s t h k = ground arith
concurrent_loop_lem ℕ.zero [] (y ∷ ys) s t h k = absurd (omega arith)
concurrent_loop_lem ℕ.zero (x ∷ xs) b s t h k = absurd (omega arith)
concurrent_loop_lem (suc n) [] b s t h k = absurd (omega arith)
concurrent_loop_lem (suc n) (x ∷ xs) [] s t h k = absurd (omega arith)
concurrent_loop_lem (suc n) (x ∷ xs) (y ∷ ys) s t h k =
    rw
      (concurrent_loop_lem n xs ys (if ltb x y then true else s)
        (if ltb x y then t else if ltb y x then true else t) (omega arith) (omega arith))
      (ground arith)

compare_below :
    (a b : List ℕ)
    → length a ≡ length b
    → compare_vector_clocks a b
      ≡ (if below a b then before else if below b a then after else concurrent)
compare_below a b h = elim (below_cases a b) [
  | inl (e, le) ↦ rw e ((compare-iff-Means a b before h).1 le)
  | inr (e, nle) ↦ elim (below_cases b a) [
    | inl (f, ge) ↦ rw (e, f) ((compare-iff-Means a b after h).1 (nle, ge))
    | inr (f, nge) ↦ rw (e, f) ((compare-iff-Means a b concurrent h).1 (nle, nge))
  ]
]

-- For clocks with an entry for each node, happenedBefore of the ECROS handler holds exactly where
-- compareVectorClocks of the use cases, the other way round, answers 2, and concurrent exactly where it
-- answers 1.
pub clocks_agree :
    (n : ℕ) (a b : List ℕ)
    → length a ≡ n
    → length b ≡ n
    → (happened_before n a b ≡ is_after (compare_vector_clocks b a))
      × (Ecros.concurrent n a b ≡ is_concurrent (compare_vector_clocks a b))
unfolding happened_before Ecros.concurrent
clocks_agree n a b h k = (
  happened_before_loop_lem n a b false h k ∙ rw (compare_below b a (k ∙ sym h)) (ground arith),
  concurrent_loop_lem n a b false false h k ∙ rw (compare_below a b (h ∙ sym k)) (ground arith),
)

-- Of concurrent clocks neither happened before the other.
pub concurrent_unordered :
    (n : ℕ) (a b : List ℕ)
    → length a ≡ n
    → length b ≡ n
    → Ecros.concurrent n a b ≡ true
    → (happened_before n a b ≡ false) × (happened_before n b a ≡ false)
unfolding happened_before Ecros.concurrent
concurrent_unordered n a b h k c = (
  happened_before_loop_lem n a b false h k
      ∙ ground (arith, concurrent_loop_lem n a b false false h k),
  happened_before_loop_lem n b a false k h
      ∙ ground (arith, concurrent_loop_lem n a b false false h k),
)
