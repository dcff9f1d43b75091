-- ===== src/System/Gather.antt =====
-- Lists kept for each node, gathered in the order of the nodes.
use mathlib.Core.List.Perm
use mathlib.Core.List.{perm_append_comm}
use optimistic_replication.Prelude.{
  ℕ, zero, suc, ◌≤◌, ◌<◌, ◌≡◌, refl, sym, ◌≢◌, List, [], ◌∷◌, ◌++◌, append_assoc, Perm, arith,
  subst,
}
use mathlib.Core.Path.{ap₂}
use native.Mathlib.Decide.{ℕ_discrete}

module _ {ℓ} {A : Type ℓ} where
  -- The lists of the nodes 1 to n.
  abbrev pub gather : ℕ → (ℕ → List A) → List A
  gather zero f = []
  gather (suc n) f = gather n f ++ f (suc n)

  pub gather-same :
      (n : ℕ) (f g : ℕ → List A) → ((k : ℕ) → 0 < k → k ≤ n → g k ≡ f k) → gather n g ≡ gather n f
  gather-same zero f g h = refl
  gather-same (suc n) f g h =
      ap₂ ◌++◌ (gather-same n f g (λ k p q. h k p (omega arith)))
        (h (suc n) (omega arith) (omega arith))

  -- One node's list grows by `xs`.
  pub gather-grows :
      (n p : ℕ) (f g : ℕ → List A) (xs : List A)
      → 0 < p
      → p ≤ n
      → g p ≡ f p ++ xs
      → ((k : ℕ) → k ≢ p → g k ≡ f k)
      → Perm (gather n g) (xs ++ gather n f)
  gather-grows zero p f g xs a b e h = absurd (omega arith)
  gather-grows (suc n) p f g xs a b e h = elim (ℕ_discrete p (suc n)) [
    | yes q ↦
        let here : g (suc n) ≡ f (suc n) ++ xs = subst (λ k. g k ≡ f k ++ xs) q e in
        let rest = gather-same n f g (λ k i j. h k (λ r. absurd (omega arith))) in
        rw (here, rest, sym (append_assoc (gather n f) (f (suc n)) xs))
          (perm_append_comm (gather n f ++ f (suc n)) xs)
    | no q ↦
        rw (h (suc n) (λ r. q (sym r)), sym (append_assoc xs (gather n f) (f (suc n))))
          (Perm.append_right (f (suc n)) (gather-grows n p f g xs a (omega arith) e h))
  ]

  -- Two lists with the same elements in front keep the same elements behind.
  pub cancel_front : (xs ys zs ws : List A) → Perm xs ys → Perm (xs ++ zs) (ys ++ ws) → Perm zs ws
  cancel_front xs ys zs ws p q = same xs (Perm.trans q (Perm.append_right ws (Perm.symm p)))
    where
      same : (xs : List A) → Perm (xs ++ zs) (xs ++ ws) → Perm zs ws
      same [] r = r
      same (x ∷ xs) r = same xs (Perm.cons_inv r)
