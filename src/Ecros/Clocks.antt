-- ===== src/Ecros/Clocks.antt =====
-- protocol-ecros.cpp: happenedBefore and concurrent. Reading past the end of a clock is undefined in the
-- source: here the loop ends.
pub mod Laws
use optimistic_replication.Prelude.{
  ℕ, zero, suc, Bool, true, false, ◌&&◌, ◌||◌, List, [], ◌∷◌, ltb, if◌then◌else◌,
}

unfoldable pub happened_before_loop : ℕ → List ℕ → List ℕ → Bool → Bool
happened_before_loop zero va vb strictly_less = strictly_less
happened_before_loop (suc n) [] vb strictly_less = strictly_less
happened_before_loop (suc n) (a ∷ va) [] strictly_less = strictly_less
happened_before_loop (suc n) (a ∷ va) (b ∷ vb) strictly_less =
    let rest = happened_before_loop n va vb (if ltb a b then true else strictly_less) in
    if ltb b a then false else rest

-- happenedBefore on the clocks of two calls.
unfoldable pub happened_before : ℕ → List ℕ → List ℕ → Bool
unfolding happened_before_loop
happened_before n va vb = happened_before_loop n va vb false

unfoldable pub concurrent_loop : ℕ → List ℕ → List ℕ → Bool → Bool → Bool
concurrent_loop zero va vb a_less b_less = a_less && b_less
concurrent_loop (suc n) [] vb a_less b_less = a_less && b_less
concurrent_loop (suc n) (a ∷ va) [] a_less b_less = a_less && b_less
concurrent_loop (suc n) (a ∷ va) (b ∷ vb) a_less b_less =
    concurrent_loop n va vb (if ltb a b then true else a_less)
      (if ltb a b then b_less else if ltb b a then true else b_less)

-- concurrent on the clocks of two calls.
unfoldable pub concurrent : ℕ → List ℕ → List ℕ → Bool
unfolding concurrent_loop
concurrent n va vb = concurrent_loop n va vb false false
