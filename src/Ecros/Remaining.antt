-- ===== src/Ecros/Remaining.antt =====
-- protocol-ecros.cpp, fullTopoSort: the keys that the loop has not reached yet.
use optimistic_replication.Prelude.{
  ℕ, suc, ◌<◌, ◌≤◌, ◌≡◌, sym, inl, inr, true, false, List, [], ◌∷◌, ◌++◌, ◌==◌, Bool-cases,
  if◌then◌else◌, length, arith,
}
use mathlib.Core.Bool.{true≢false}
use optimistic_replication.Ecros.Cycles.{is_visited}
use optimistic_replication.Ecros.Sorted.{is_visited-append}

-- How many of the keys are not in the order.
unfoldable pub remaining : List ℕ → List ℕ → ℕ
remaining [] order = 0
remaining (k ∷ ks) order =
    let rest = remaining ks order in if is_visited k order then rest else suc rest

remaining-append :
    (ks order : List ℕ) (u : ℕ) → remaining ks (order ++ (u ∷ [])) ≤ remaining ks order
unfolding remaining
remaining-append [] order u = omega arith
remaining-append (k ∷ ks) order u =
    ground (arith, remaining-append ks order u, is_visited-append k u order)

pub remaining-less :
    (ks order : List ℕ) (u : ℕ)
    → is_visited u ks ≡ true
    → is_visited u order ≡ false
    → remaining ks (order ++ (u ∷ [])) < remaining ks order
unfolding remaining is_visited
remaining-less [] order u m h = absurd (true≢false (sym m))
remaining-less (k ∷ ks) order u m h = elim (Bool-cases (k == u)) [
  | inl e ↦
      let f : k ≡ u = ground arith in
      let n : is_visited k order ≡ false = rw f h in
      ground (arith, remaining-append ks order u, is_visited-append k u order, n, e)
  | inr e ↦ ground (arith, remaining-less ks order u (rw e at m) h, is_visited-append k u order)
]

pub remaining-none :
    (ks order : List ℕ) (p : ℕ)
    → remaining ks order ≡ 0
    → is_visited p ks ≡ true
    → is_visited p order ≡ true
unfolding remaining is_visited
remaining-none [] order p z m = absurd (true≢false (sym m))
remaining-none (k ∷ ks) order p z m = elim (Bool-cases (k == p)) [
  | inr e ↦ remaining-none ks order p (ground (arith, z)) (rw e at m)
  | inl e ↦
      let f : k ≡ p = ground arith in
      elim (Bool-cases (is_visited k order)) [
        | inl v ↦ rw (sym f) v
        | inr v ↦ absurd (omega (arith, rw v at z))
      ]
]

pub remaining-length : (ks order : List ℕ) → remaining ks order ≤ length ks
unfolding remaining
remaining-length [] order = omega arith
remaining-length (k ∷ ks) order = ground (arith, remaining-length ks order)
