-- ===== src/Tests/Ecros.antt =====
-- The ECROS handler over the set.
use mathlib.Core.List.{mem-cons_self, mem-cons_of_mem}
use mathlib.Core.List.Perm
use optimistic_replication.Prelude.{
  ℕ, ◌<◌, ◌≡◌, All, refl, true, false, if◌then◌else◌, List, [], ◌∷◌, ◌==◌, codes, eq_bytes, arith,
}
use optimistic_replication.Call.{Call}
use optimistic_replication.VectorClock.{compare_vector_clocks, is_after, is_concurrent}
use optimistic_replication.Ecros.{HashSet, Edge, EcrosHandler, set_vars}
use optimistic_replication.Ecros.Clocks.{happened_before}
use optimistic_replication.Ecros.Clocks as Clocks
use optimistic_replication.Ecros.Clocks.Laws.{clocks_agree}
use optimistic_replication.Ecros.Ops.{
  remote_edge, exe_local, enter_remote, handle_ack_and_maybe_stabilize,
}
use optimistic_replication.Ecros.Ops as Ops
use optimistic_replication.Hamsou.{count_ack}
use optimistic_replication.Ecros.Cycles as Cycles
use optimistic_replication.Ecros.Cycles.{detect_and_resolve_cycles}
use optimistic_replication.Ecros.Sorted.{IsOnce, pending_edges}
use optimistic_replication.Ecros.Complete.{full_topo_sort_complete}
use optimistic_replication.Ecros.Respects.{Respects}
use optimistic_replication.Ecros.TopoSort.{full_topo_sort, indegree, release, backwards, sort_loop}
use optimistic_replication.Ecros.Set.{ecros_set_case, apply_call, has, SetState}
use optimistic_replication.Ecros.Set.Laws.{conflict_without_edge}
use optimistic_replication.Ecros.Laws.{IsClosed}
use optimistic_replication.Ecros.Closed.{run-IsClosed}
use optimistic_replication.Ecros.Remote.{issue, receive, run}
use optimistic_replication.Tests.Data.{add_one, remove_one, fresh_add, ack_add}

clocks_compared :
    (happened_before 2 (1 ∷ 0 ∷ []) (1 ∷ 2 ∷ [])
      ≡ is_after (compare_vector_clocks (1 ∷ 2 ∷ []) (1 ∷ 0 ∷ [])))
    × (Clocks.concurrent 2 (1 ∷ 0 ∷ []) (1 ∷ 2 ∷ [])
        ≡ is_concurrent (compare_vector_clocks (1 ∷ 0 ∷ []) (1 ∷ 2 ∷ [])))
clocks_compared = clocks_agree 2 (1 ∷ 0 ∷ []) (1 ∷ 2 ∷ []) refl refl

-- Pointer 1 to an addition of 1, all others to a removal of 1.
abbrev two_calls : ℕ → Call
two_calls p = if p == 1 then add_one else remove_one

abbrev five : SetState
five = record { elements = 5 ∷ []; applied = [] }

conflict_without_edge_example :
    (remote_edge ecros_set_case 2 two_calls 2 1 ≡ [])
    × (remote_edge ecros_set_case 2 two_calls 1 2 ≡ [])
    × (has 1 (apply_call (apply_call five add_one) remove_one).elements ≡ false)
    × (has 1 (apply_call (apply_call five remove_one) add_one).elements ≡ true)
unfolding eq_bytes Clocks.concurrent
conflict_without_edge_example =
    conflict_without_edge 2 two_calls 1 2 five refl refl refl refl refl refl

abbrev pub newest : HashSet
newest = record {
  place = λ p ps. p ∷ ps;
  place_perm = λ p ps. Perm.refl (p ∷ ps);
  by_address = λ ps. ps;
  by_address_perm = Perm.refl;
}

-- A node that holds the two calls, and an edge from the one to the other.
abbrev graph : EcrosHandler ecros_set_case
graph = record (set_vars ecros_set_case 1 2 4) {
  vc = 1 ∷ 1 ∷ [];
  heap = two_calls;
  fresh = 3;
  calls = 1 ∷ 2 ∷ [];
  edges = record { from = 1; to = 2; type = codes "hb" } ∷ [];
}

graph-IsClosed : IsClosed graph
graph-IsClosed = record {
  joined = record { all = ((mem-cons_self, mem-cons_of_mem 1 mem-cons_self), tt) };
  allocated = (omega arith, (omega arith, tt));
}

run-IsClosed_example :
    IsClosed (
      run ecros_set_case newest graph (issue fresh_add ∷ receive remove_one ∷ receive ack_add ∷ []))
run-IsClosed_example =
    run-IsClosed ecros_set_case newest graph
      (issue fresh_add ∷ receive remove_one ∷ receive ack_add ∷ []) graph-IsClosed

-- The acknowledgement of the addition frees it, and its edge.
acknowledged :
    ((handle_ack_and_maybe_stabilize ecros_set_case graph add_one).calls ≡ 2 ∷ [])
    × ((handle_ack_and_maybe_stabilize ecros_set_case graph add_one).edges ≡ [])
unfolding handle_ack_and_maybe_stabilize Ops.find_acknowledged Ops.is_acknowledged Ops.stabilize
    Ops.commit_call count_ack set_vars
acknowledged = (refl, refl)

abbrev edge : ℕ → ℕ → Edge
edge p q = record { from = p; to = q; type = codes "hb" }

-- Call 3 is before call 1, and 1 before 2.
sorted : full_topo_sort newest (1 ∷ 2 ∷ 3 ∷ []) (edge 3 1 ∷ edge 1 2 ∷ []) ≡ 3 ∷ 1 ∷ 2 ∷ []
unfolding full_topo_sort indegree release backwards sort_loop
sorted = refl

-- A cycle of two edges: the parent of a call is no cycle to the search. One of three is: its first edge,
-- seen from the end, is retagged.
cycles :
    (detect_and_resolve_cycles 1 (edge 1 2 ∷ edge 2 1 ∷ []) ≡ edge 1 2 ∷ edge 2 1 ∷ [])
    × (detect_and_resolve_cycles 1 (edge 1 2 ∷ edge 2 3 ∷ edge 3 1 ∷ [])
        ≡ edge 1 2 ∷ edge 3 1 ∷ record { from = 2; to = 3; type = codes "co" } ∷ [])
unfolding detect_and_resolve_cycles Cycles.detect_loop Cycles.scan Cycles.is_visited
    Cycles.parent_of Cycles.cycle_at Cycles.trace Cycles.resolve Cycles.find_ao Cycles.retag
    Cycles.has_edge Cycles.erase_first Cycles.same_edge eq_bytes
cycles = (refl, refl)

abbrev diamond : List Edge
diamond = edge 3 1 ∷ edge 1 2 ∷ edge 3 2 ∷ []

distinct : IsOnce (1 ∷ 2 ∷ 3 ∷ [])
unfolding Cycles.is_visited
distinct = (refl, (refl, (refl, tt)))

-- Calls 1 and 2 are on a cycle, and are left out.
abbrev cyclic : List Edge
cyclic = edge 1 2 ∷ edge 2 1 ∷ edge 3 1 ∷ []

to_keys : All (λ (e : Edge). Cycles.is_visited e.to (1 ∷ 2 ∷ 3 ∷ []) ≡ true) cyclic
unfolding Cycles.is_visited
to_keys = (refl, (refl, (refl, tt)))

left_out : Cycles.is_visited 1 (full_topo_sort newest (1 ∷ 2 ∷ 3 ∷ []) cyclic) ≡ false
unfolding full_topo_sort indegree release backwards sort_loop Cycles.is_visited
left_out = refl

is_key : Cycles.is_visited 1 (1 ∷ 2 ∷ 3 ∷ []) ≡ true
unfolding Cycles.is_visited
is_key = refl

full_topo_sort_complete_example :
    0 < pending_edges cyclic (full_topo_sort newest (1 ∷ 2 ∷ 3 ∷ []) cyclic) 1
full_topo_sort_complete_example =
    full_topo_sort_complete newest (1 ∷ 2 ∷ 3 ∷ []) cyclic distinct to_keys 1 is_key left_out
