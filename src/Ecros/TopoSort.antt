-- ===== src/Ecros/TopoSort.antt =====
-- protocol-ecros.cpp: fullTopoSort, Kahn's algorithm.
use optimistic_replication.Prelude.{
  ℕ, zero, suc, ◌-◌, List, [], ◌∷◌, ◌++◌, ◌==◌, if◌then◌else◌, length, keep_if,
}
use optimistic_replication.Ecros.{HashSet, Edge}
use optimistic_replication.Ecros.Cycles.{update}

-- `indeg` after its two loops: how many of the edges lead to a call.
unfoldable pub indegree : List Edge → ℕ → ℕ
indegree [] p = 0
indegree (e ∷ es) p = if e.to == p then suc (indegree es p) else indegree es p

-- The loop over the edges after `u` was taken: the map and the queue, whose back is the list's head. The
-- test `--indeg[e.to] == 0` holds where the entry was 1.
unfoldable pub release : List Edge → ℕ → (ℕ → ℕ) → List ℕ → (ℕ → ℕ) × List ℕ
release [] u indeg q = (indeg, q)
release (e ∷ es) u indeg q =
    let skip = release es u indeg q in
    let lowered = update indeg e.to (indeg e.to - 1) in
    let pushed = release es u lowered (e.to ∷ q) in
    let kept = release es u lowered q in
    if e.from == u then if indeg e.to == 1 then pushed else kept else skip

-- `while (!q.empty())`: a round takes one call.
unfoldable pub sort_loop : ℕ → List Edge → (ℕ → ℕ) → List ℕ → List ℕ → List ℕ
sort_loop zero edges indeg q topo_order = topo_order
sort_loop (suc fuel) edges indeg [] topo_order = topo_order
sort_loop (suc fuel) edges indeg (u ∷ q) topo_order =
    let (indeg', q') = release edges u indeg q in
    sort_loop fuel edges indeg' q' (topo_order ++ (u ∷ []))

-- The elements from the last to the first.
unfoldable pub backwards : List ℕ → List ℕ
backwards [] = []
backwards (p ∷ ps) = backwards ps ++ (p ∷ [])

-- `topoOrder` for a set of calls. The keys of `indeg` at 0 are calls, as an edge raises its own.
unfoldable pub full_topo_sort : HashSet → List ℕ → List Edge → List ℕ
full_topo_sort H calls edges =
    sort_loop (length calls) edges (indegree edges)
      (backwards (keep_if (λ p. indegree edges p == 0) (H.by_address calls))) []
