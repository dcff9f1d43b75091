-- ===== src/VectorClock/Laws.antt =====
-- What the results of compareVectorClocks mean, by the order of the entries.
use optimistic_replication.Prelude.{
  ℕ, ◌≤◌, ◌≡◌, refl, ◌↔◌, ◌⊎◌, inl, inr, true, false, List, [], ◌∷◌, some, arith, length,
}
use mathlib.Core.Path.{ap₂, sym, ◌∙◌, subst}
use optimistic_replication.VectorClock.{
  Causality, out_of_bounds, before, concurrent, after, exceeds, never_below, first_verdict,
  second_verdict, compare_vector_clocks, comparator,
}

-- Every entry is at most the entry at its place.
abbrev pub Below : List ℕ → List ℕ → Type 0
Below [] ys = Unit {0}
Below (x ∷ xs) [] = ⊥
Below (x ∷ xs) (y ∷ ys) = (x ≤ y) × Below xs ys

-- What each result says of two clocks of one length.
abbrev pub Means : Causality → List ℕ → List ℕ → Type 0
Means out_of_bounds a b = ⊥
Means before a b = Below a b
Means concurrent a b = (¬ Below a b) × (¬ Below b a)
Means after a b = (¬ Below a b) × Below b a

exceeds-true : (xs ys : List ℕ) → length xs ≡ length ys → exceeds true xs ys ≡ some true
unfolding exceeds
exceeds-true [] ys h = refl
exceeds-true (x ∷ xs) [] h = absurd (omega arith)
exceeds-true (x ∷ xs) (y ∷ ys) h = ground (arith, exceeds-true xs ys)

exceeds_cases :
    (xs ys : List ℕ)
    → length xs ≡ length ys
    → ((exceeds false xs ys ≡ some false) × Below xs ys)
      ⊎ ((exceeds false xs ys ≡ some true) × (¬ Below xs ys))
unfolding exceeds
exceeds_cases [] ys h = inl (refl, tt)
exceeds_cases (x ∷ xs) [] h = absurd (omega arith)
exceeds_cases (x ∷ xs) (y ∷ ys) h =
    ground (arith, exceeds-true xs ys, exceeds_cases xs ys (omega arith))

never_below-false : (xs ys : List ℕ) → length xs ≡ length ys → never_below false xs ys ≡ some false
unfolding never_below
never_below-false [] ys h = refl
never_below-false (x ∷ xs) [] h = absurd (omega arith)
never_below-false (x ∷ xs) (y ∷ ys) h = ground (arith, never_below-false xs ys)

never_below_cases :
    (xs ys : List ℕ)
    → length xs ≡ length ys
    → ((never_below true xs ys ≡ some true) × Below ys xs)
      ⊎ ((never_below true xs ys ≡ some false) × (¬ Below ys xs))
unfolding never_below
never_below_cases [] [] h = inl (refl, tt)
never_below_cases [] (y ∷ ys) h = absurd (omega arith)
never_below_cases (x ∷ xs) [] h = absurd (omega arith)
never_below_cases (x ∷ xs) (y ∷ ys) h =
    ground (arith, never_below-false xs ys, never_below_cases xs ys (omega arith))

compare-Means : (a b : List ℕ) → length a ≡ length b → Means (compare_vector_clocks a b) a b
unfolding compare_vector_clocks
compare-Means a b h = elim (exceeds_cases a b h) [
  | inl (e, le) ↦ rw (e, first_verdict) le
  | inr (e, nle) ↦ elim (never_below_cases a b h) [
    | inl (f, ge) ↦ rw (e, f, first_verdict, second_verdict) (nle, ge)
    | inr (f, nge) ↦ rw (e, f, first_verdict, second_verdict) (nle, nge)
  ]
]

-- No two results fit the same clocks.
Means-unique : (o p : Causality) (a b : List ℕ) → Means o a b → Means p a b → o ≡ p
Means-unique out_of_bounds p a b m n = absurd m
Means-unique before out_of_bounds a b m n = absurd n
Means-unique before before a b m n = refl
Means-unique before concurrent a b m n = absurd (n.0 m)
Means-unique before after a b m n = absurd (n.0 m)
Means-unique concurrent out_of_bounds a b m n = absurd n
Means-unique concurrent before a b m n = absurd (m.0 n)
Means-unique concurrent concurrent a b m n = refl
Means-unique concurrent after a b m n = absurd (m.1 n.1)
Means-unique after out_of_bounds a b m n = absurd n
Means-unique after before a b m n = absurd (m.0 n)
Means-unique after concurrent a b m n = absurd (n.1 m.1)
Means-unique after after a b m n = refl

-- For two clocks of one length, compareVectorClocks answers 0 exactly if every entry of the first is at
-- most that of the second, 2 exactly if the converse alone holds, 1 exactly if neither holds, and never
-- -1.
pub compare-iff-Means :
    (a b : List ℕ) (o : Causality)
    → length a ≡ length b
    → (compare_vector_clocks a b ≡ o) ↔ Means o a b
compare-iff-Means a b o h = (
  λ e. subst (λ p. Means p a b) e (compare-Means a b h),
  λ m. Means-unique (compare_vector_clocks a b) o a b (compare-Means a b h) m,
)

Below-refl : (a : List ℕ) → Below a a
Below-refl [] = tt
Below-refl (x ∷ xs) = (omega arith, Below-refl xs)

Below-trans : (a b c : List ℕ) → Below a b → Below b c → Below a c
Below-trans [] b c h k = tt
Below-trans (x ∷ xs) [] c h k = absurd h
Below-trans (x ∷ xs) (y ∷ ys) [] h k = absurd k
Below-trans (x ∷ xs) (y ∷ ys) (z ∷ zs) h k = (omega arith, Below-trans xs ys zs h.1 k.1)

Below-antisymm : (a b : List ℕ) → length a ≡ length b → Below a b → Below b a → a ≡ b
Below-antisymm [] [] e h k = refl
Below-antisymm [] (y ∷ ys) e h k = absurd k
Below-antisymm (x ∷ xs) [] e h k = absurd h
Below-antisymm (x ∷ xs) (y ∷ ys) e h k =
    ap₂ ◌∷◌ (omega arith) (Below-antisymm xs ys (omega arith) h.1 k.1)

-- A clock compared with itself is never "after": a queued call does not wait for itself.
pub compare_self : (a : List ℕ) → compare_vector_clocks a a ≡ before
compare_self a = (compare-iff-Means a a before refl).1 (Below-refl a)

-- What the second clock sees when the first one is compared with it.
abbrev pub Mirrors : Causality → Causality → Type 0
Mirrors out_of_bounds p = ⊥
Mirrors before p = (p ≡ before) ⊎ (p ≡ after)
Mirrors concurrent p = p ≡ concurrent
Mirrors after p = p ≡ before

Mirrors-of_Means : (o p : Causality) (a b : List ℕ) → Means o a b → Means p b a → Mirrors o p
Mirrors-of_Means out_of_bounds p a b m n = absurd m
Mirrors-of_Means before out_of_bounds a b m n = absurd n
Mirrors-of_Means before before a b m n = inl refl
Mirrors-of_Means before concurrent a b m n = absurd (n.1 m)
Mirrors-of_Means before after a b m n = inr refl
Mirrors-of_Means concurrent p a b m n = Means-unique p concurrent b a n (m.1, m.0)
Mirrors-of_Means after p a b m n = Means-unique p before b a n m.1

-- For clocks of one length: "before" is transitive; it holds both ways only between equal clocks; the
-- comparison the other way round of "concurrent" is "concurrent", of "after" is "before".
pub compare_order :
    (a b c : List ℕ)
    → length a ≡ length b
    → length b ≡ length c
    → (compare_vector_clocks a b ≡ before
        → compare_vector_clocks b c ≡ before
        → compare_vector_clocks a c ≡ before)
      × (compare_vector_clocks a b ≡ before → compare_vector_clocks b a ≡ before → a ≡ b)
      × Mirrors (compare_vector_clocks a b) (compare_vector_clocks b a)
compare_order a b c h k = (
  λ e f. (compare-iff-Means a c before (h ∙ k)).1 (
      Below-trans a b c ((compare-iff-Means a b before h).0 e)
        ((compare-iff-Means b c before k).0 f)),
  λ e f.
      Below-antisymm a b h ((compare-iff-Means a b before h).0 e)
        ((compare-iff-Means b a before (sym h)).0 f),
  Mirrors-of_Means _ _ a b (compare-Means a b h) (compare-Means b a (sym h)),
)

-- The comparator of the priority queue puts each of two concurrent clocks of one length below the
-- other, so it is no strict weak ordering as soon as two nodes issue calls concurrently.
pub comparator-concurrent :
    (a b : List ℕ)
    → length a ≡ length b
    → compare_vector_clocks a b ≡ concurrent
    → (comparator a b ≡ true) × (comparator b a ≡ true)
unfolding comparator
comparator-concurrent a b h e =
    let back : compare_vector_clocks b a ≡ concurrent =
      (compare-iff-Means b a concurrent (sym h)).1 (
        ((compare-iff-Means a b concurrent h).0 e).1,
        ((compare-iff-Means a b concurrent h).0 e).0,
      ) in
    (rw (e, comparator), rw (back, comparator))
