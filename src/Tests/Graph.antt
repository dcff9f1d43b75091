-- ===== src/Tests/Graph.antt =====
-- A graph with a cycle.
use optimistic_replication.Prelude.{
  ◌≡◌, ◌≢◌, ◌↔◌, refl, true, false, Bytes, codes, eq_bytes, List, [],
}
use optimistic_replication.DirectedGraph.{
  Adjacency, add_edge, neighbors, has, visit, dfs, all_targets, is_reachable,
}
use optimistic_replication.DirectedGraph.Search.{Leads, is_reachable-iff-Leads}

abbrev a : Bytes
a = codes "AddProject"

abbrev w : Bytes
w = codes "WorksOn"

abbrev d : Bytes
d = codes "DeleteProject"

abbrev round_trip : List Adjacency
round_trip = add_edge d a (add_edge w d (add_edge a w []))

reached : is_reachable round_trip a d ≡ true
unfolding is_reachable dfs visit neighbors has all_targets add_edge eq_bytes
reached = refl

not_itself : is_reachable round_trip a a ≡ false
unfolding is_reachable dfs visit neighbors has all_targets add_edge eq_bytes
not_itself = refl

not_back : is_reachable (add_edge w d (add_edge a w [])) d a ≡ false
unfolding is_reachable dfs visit neighbors has all_targets add_edge eq_bytes
not_back = refl

is_reachable-iff-Leads_example :
    (is_reachable round_trip a d ≡ true) ↔ ((a ≢ d) × Leads round_trip d a)
is_reachable-iff-Leads_example = is_reachable-iff-Leads round_trip a d
