-- ===== src/Tests/Clocks.antt =====
-- Vector clocks and messages.
use optimistic_replication.Prelude.{◌≡◌, refl, ◌↔◌, true, [], ◌∷◌}
use optimistic_replication.VectorClock.{concurrent, after, compare_vector_clocks, comparator}
use optimistic_replication.VectorClock.Laws.{Means, compare-iff-Means, comparator-concurrent}

compare_concurrent : compare_vector_clocks (1 ∷ 0 ∷ []) (0 ∷ 1 ∷ []) ≡ concurrent
unfolding compare_vector_clocks
compare_concurrent = refl

compare_after : compare_vector_clocks (2 ∷ 1 ∷ []) (1 ∷ 1 ∷ []) ≡ after
unfolding compare_vector_clocks
compare_after = refl

compare-iff-Means_example :
    (compare_vector_clocks (2 ∷ 1 ∷ []) (1 ∷ 1 ∷ []) ≡ after)
    ↔ Means after (2 ∷ 1 ∷ []) (1 ∷ 1 ∷ [])
compare-iff-Means_example = compare-iff-Means (2 ∷ 1 ∷ []) (1 ∷ 1 ∷ []) after refl

compares_both_ways :
    (comparator (1 ∷ 0 ∷ []) (0 ∷ 1 ∷ []) ≡ true) × (comparator (0 ∷ 1 ∷ []) (1 ∷ 0 ∷ []) ≡ true)
compares_both_ways = comparator-concurrent (1 ∷ 0 ∷ []) (0 ∷ 1 ∷ []) refl compare_concurrent
