-- ===== src/VectorClock.antt =====
-- compareVectorClocks, which every use case of wellcoordination/benchmark holds in the same words.
pub mod Laws
use optimistic_replication.Prelude.{
  ℕ, Bool, true, false, List, [], ◌∷◌, Option, none, some, ltb, if◌then◌else◌,
}

-- The results -1, 0, 1 and 2, in this order.
pub data Causality : Type 0 where
  out_of_bounds before concurrent after : Causality

-- The first loop: the flag becomes true where an entry of `vc1` is greater. `none` is the early
-- return on an index that `vc2` does not have.
exceeds : Bool → List ℕ → List ℕ → Option Bool
exceeds flag [] ys = some flag
exceeds flag (x ∷ xs) [] = none
exceeds flag (x ∷ xs) (y ∷ ys) = exceeds (if ltb y x then true else flag) xs ys

-- The second loop: the flag becomes false where an entry of `vc1` is smaller.
never_below : Bool → List ℕ → List ℕ → Option Bool
never_below flag [] ys = some flag
never_below flag (x ∷ xs) [] = none
never_below flag (x ∷ xs) (y ∷ ys) = never_below (if ltb x y then false else flag) xs ys

second_verdict : Option Bool → Causality
second_verdict none = out_of_bounds
second_verdict (some true) = after
second_verdict (some false) = concurrent

first_verdict : Option Bool → Causality → Causality
first_verdict none later = out_of_bounds
first_verdict (some false) later = before
first_verdict (some true) later = later

unfoldable pub compare_vector_clocks : List ℕ → List ℕ → Causality
unfolding exceeds never_below first_verdict second_verdict
compare_vector_clocks vc1 vc2 =
    first_verdict (exceeds false vc1 vc2) (second_verdict (never_below true vc1 vc2))

-- `compareVectorClocks(...) == 2`
abbrev pub is_after : Causality → Bool
is_after after = true
is_after _ = false

-- `compareVectorClocks(...) == 1`
abbrev pub is_concurrent : Causality → Bool
is_concurrent concurrent = true
is_concurrent _ = false

-- The comparator that the handler gives to its priority queue: `compareVectorClocks(...) > 0`.
unfoldable pub comparator : List ℕ → List ℕ → Bool
comparator a b = elim (compare_vector_clocks a b) [ concurrent ↦ true | after ↦ true | _ ↦ false ]
