-- ===== src/UseCase/ComplexCourseware/Lookups.antt =====
-- complex-courseware.hpp: what is found in a table after an insertion or an erasure.
use optimistic_replication.Prelude.{
  ℕ, ◌≡◌, ◌≢◌, sym, ◌∙◌, ◌⊎◌, inl, inr, Option, none, some, subst, arith,
}
use mathlib.Core.Option.{none-ne-some, some-injective}
use native.Mathlib.Decide.{ℕ_discrete}
use optimistic_replication.UseCase.ComplexCourseware.Tables.{put, erase_key}

pub put_self {ℓ} : {A : Type ℓ} → (k : ℕ) (v : A) (m : ℕ → Option A) → put k v m k ≡ some v
unfolding put
put_self k v m = ground arith

pub put_other {ℓ} :
    {A : Type ℓ} → (k : ℕ) (v : A) (m : ℕ → Option A) (x : ℕ) → x ≢ k → put k v m x ≡ m x
unfolding put
put_other k v m x h = ground arith

pub erase_key_self {ℓ} : {A : Type ℓ} → (k : ℕ) (m : ℕ → Option A) → erase_key k m k ≡ none
unfolding erase_key
erase_key_self k m = ground arith

pub erase_key_other {ℓ} :
    {A : Type ℓ} → (k : ℕ) (m : ℕ → Option A) (x : ℕ) → x ≢ k → erase_key k m x ≡ m x
unfolding erase_key
erase_key_other k m x h = ground arith

-- What is found after an insertion, or after an erasure.
pub put_cases {ℓ} :
    {A : Type ℓ}
    → (k : ℕ) (v : A) (m : ℕ → Option A) (x : ℕ) (y : A) → put k v m x ≡ some y
    → ((x ≡ k) × (v ≡ y)) ⊎ ((x ≢ k) × (m x ≡ some y))
put_cases k v m x y h = elim (ℕ_discrete x k) [
  | yes e ↦
      inl (e, some-injective v y (sym (put_self k v m) ∙ subst (λ z. put k v m z ≡ some y) e h))
  | no e ↦ inr (e, sym (put_other k v m x e) ∙ h)
]

pub erase_key_cases {ℓ} :
    {A : Type ℓ}
    → (k : ℕ) (m : ℕ → Option A) (x : ℕ) (y : A) → erase_key k m x ≡ some y
    → (x ≢ k) × (m x ≡ some y)
erase_key_cases k m x y h = elim (ℕ_discrete x k) [
  | yes e ↦
      absurd (none-ne-some y (sym (erase_key_self k m) ∙ subst (λ z. erase_key k m z ≡ some y) e h))
  | no e ↦ (e, sym (erase_key_other k m x e) ∙ h)
]
