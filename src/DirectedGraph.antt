-- ===== src/DirectedGraph.antt =====
-- wellcoordination/benchmark/replicated-object.hpp: class DirectedGraph, in which edges join strings.
pub mod Edges
pub mod Visited
pub mod Search
use optimistic_replication.Prelude.{
  ℕ, zero, suc, Bool, true, false, not, ◌&&◌, ◌||◌, List, [], ◌∷◌, ◌++◌, Bytes, eq_bytes,
  if◌then◌else◌, length,
}

-- An entry of `adjList`.
pub record Adjacency : Type 0 where
  pub vertex : Bytes
  pub targets : List Bytes

-- addEdge. A vertex without an entry gets one.
unfoldable pub add_edge : Bytes → Bytes → List Adjacency → List Adjacency
add_edge src dest [] = record { vertex = src; targets = dest ∷ [] } ∷ []
add_edge src dest (e ∷ es) =
    let rest = add_edge src dest es in
    if eq_bytes e.vertex src
    then record { vertex = e.vertex; targets = e.targets ++ (dest ∷ []) } ∷ es
    else e ∷ rest

-- `adjList[src]`. The empty entry that the access makes for a vertex without one changes no other access.
unfoldable pub neighbors : List Adjacency → Bytes → List Bytes
neighbors [] src = []
neighbors (e ∷ es) src =
    let rest = neighbors es src in if eq_bytes e.vertex src then e.targets else rest

-- `visited[n]`, where `visited` is the vertices that are set to true.
unfoldable pub has : Bytes → List Bytes → Bool
has n [] = false
has n (v ∷ vs) = eq_bytes v n || has n vs

-- How a search ends: its answer, and `visited`.
pub record Found : Type 0 where
  pub answer : Bool
  pub visited : List Bytes

-- The loop over the neighbours, with the recursive call.
unfoldable pub visit : (Bytes → List Bytes → Found) → List Bytes → List Bytes → Found
visit search [] visited = record { answer = false; visited = visited }
visit search (n ∷ ns) visited =
    let skip = visit search ns visited in
    let r = search n visited in
    let rest = visit search ns r.visited in
    if has n visited then skip else if r.answer then r else rest

-- dfs. Each call marks a vertex, so that their number is enough fuel.
unfoldable pub dfs : ℕ → List Adjacency → Bytes → Bytes → List Bytes → Found
dfs zero g dest src visited = record { answer = false; visited = visited }
dfs (suc fuel) g dest src visited =
    let loop = visit (dfs fuel g dest) (neighbors g src) (src ∷ visited) in
    if eq_bytes src dest then record { answer = true; visited = visited } else loop

unfoldable pub all_targets : List Adjacency → List Bytes
all_targets [] = []
all_targets (e ∷ es) = e.targets ++ all_targets es

-- isReachable, with fuel for the source and every end of an edge.
unfoldable pub is_reachable : List Adjacency → Bytes → Bytes → Bool
is_reachable g src dest =
    let r = dfs (suc (length (all_targets g))) g dest src [] in
    if eq_bytes src dest then false else r.answer
