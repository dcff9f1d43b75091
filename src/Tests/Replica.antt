-- ===== src/Tests/Replica.antt =====
-- Two nodes of the protocol over the replicated set.
use mathlib.Core.List.Perm
use optimistic_replication.Prelude.{
  ◌⊎◌, Bool, ◌≡◌, refl, true, false, some, List, [], ◌∷◌, ◌++◌, Perm, arith, codes, eq_bytes,
  empty_set,
}
use optimistic_replication.Call.{Call}
use optimistic_replication.UseCase.Set.{set_case, set_to_string}
use optimistic_replication.UseCase.Set as Set
use optimistic_replication.UseCase.Set.Laws.{set_case-IsConflictAware, replay_removes_win}
use optimistic_replication.VectorClock as VectorClock
use optimistic_replication.Hamsou.{Handler, set_vars, at_node, count_ack}
use optimistic_replication.Hamsou.Ops as Ops
use optimistic_replication.Hamsou.Ops.{
  local_handler, remote_handler, execute_remote, stabilizer_with_ack, internal_downstream_execute,
  drain, refuse, LocalResult,
}
use optimistic_replication.Hamsou.Failure as Failure
use optimistic_replication.Hamsou.Failure.{mark_node_failed}
use optimistic_replication.Hamsou.Failure.Laws.{mark_node_failed-empties}
use optimistic_replication.Hamsou.Failure.Effect.{mark_node_failed-perm, orphans}
use optimistic_replication.Hamsou.Splits.{Splits, set_vars-Splits, Any, Any-KeepsPending}
use optimistic_replication.Hamsou.Local.{
  local_handler-executes, local_handler-refuses, IsBlocked, executed, stamped_call,
}
use optimistic_replication.Hamsou.Deliver.{
  internal_downstream_execute-perm, drain-IsDrained, IsDrained, held,
}
use optimistic_replication.Hamsou.Stabilize.{Stabilized, stabilizer_with_ack-Stabilized}
use optimistic_replication.Hamsou.Place.{Placed, remote_handler-places}
use optimistic_replication.Hamsou.Order.{IsOrdered, replay}
use optimistic_replication.Hamsou.Run.{receive, fail, run, run_final, run-IsOrdered, run_converge}
use optimistic_replication.Tests.Data.{
  newest_first, call_of, add_one, remove_one, fresh_add, ack_add, history_1, history_2,
}

abbrev valid : Call → Bool
valid c = true

abbrev start_1 : Handler set_case
start_1 = set_vars set_case 1 2 4

abbrev start_2 : Handler set_case
start_2 = set_vars set_case 2 2 4

abbrev node_1 : Handler set_case
node_1 = run set_case newest_first valid start_1 history_1

abbrev node_2 : Handler set_case
node_2 = run set_case newest_first valid start_2 history_2

-- Both nodes put the addition before the removal, whichever they executed first.
same_lists :
    (node_1.execution_list ≡ add_one ∷ remove_one ∷ [])
    × (node_2.execution_list ≡ add_one ∷ remove_one ∷ [])
unfolding set_vars run local_handler Ops.no_conflict Ops.execute_local Ops.tick Ops.stamp_loop
    internal_downstream_execute Ops.remote_handler Ops.queue_handler Ops.behind_top
    Ops.behind_pending Ops.execute_remote Ops.insert_call drain eq_bytes Set.locally_permissibility
    Set.fast_is_reachable_local Set.fast_is_reachable_remote Set.compare_vector_clocks
    VectorClock.compare_vector_clocks
same_lists = (refl, refl)

run_converge_example :
    replay set_case empty_set node_1.execution_list
    ≡ replay set_case empty_set node_2.execution_list
unfolding set_vars run local_handler Ops.no_conflict Ops.execute_local Ops.tick Ops.stamp_loop
    internal_downstream_execute Ops.remote_handler Ops.queue_handler Ops.behind_top
    Ops.behind_pending Ops.execute_remote Ops.insert_call drain eq_bytes Set.locally_permissibility
    Set.fast_is_reachable_local Set.fast_is_reachable_remote Set.compare_vector_clocks
    VectorClock.compare_vector_clocks
run_converge_example =
    run_converge set_case newest_first valid set_case-IsConflictAware 1 2 2 4 4 history_1 history_2
      (omega arith) refl (Perm.refl _)

-- Node 1 after both calls: node 2 has acknowledged the addition, and a second addition is queued.
abbrev add_two : Call
add_two = call_of (codes "Add") 2 2 2 (0 ∷ 2 ∷ [])

abbrev busy : Handler set_case
busy = record start_1 {
  execution_list = add_one ∷ remove_one ∷ [];
  current_index = 2;
  acks = count_ack start_1.acks 1 1;
  priority_queue = add_two ∷ [];
}

busy-Splits : Splits busy [] (add_one ∷ remove_one ∷ [])
unfolding set_vars
busy-Splits = record {
  list = refl;
  boundary = refl;
  current = refl;
  waiting = refl;
  acknowledged = refl;
  clocks = refl;
  nodes = omega arith;
  replay = refl;
}

-- The addition becomes stable, and so does the removal, which needs no acknowledgement among two nodes;
-- the queued call is then executed.
stabilize_busy :
    ((stabilizer_with_ack set_case newest_first busy).stable_index ≡ 2)
    × ((stabilizer_with_ack set_case newest_first busy).execution_list
        ≡ add_one ∷ remove_one ∷ add_two ∷ [])
unfolding set_vars count_ack stabilizer_with_ack Ops.stabilize_loop Ops.commit Ops.acked
    Ops.quorum_of Ops.remote_handler Ops.queue_handler Ops.behind_top Ops.behind_pending
    Ops.execute_remote Ops.insert_call drain Ops.pop eq_bytes Set.fast_is_reachable_remote
    Set.compare_vector_clocks VectorClock.compare_vector_clocks
stabilize_busy = (refl, refl)

stabilizer_with_ack-Stabilized_example :
    Stabilized set_case Any busy
      (stabilizer_with_ack set_case newest_first busy)
      []
      (add_one ∷ remove_one ∷ [])
stabilizer_with_ack-Stabilized_example =
    stabilizer_with_ack-Stabilized set_case newest_first Any (Any-KeepsPending set_case) busy []
      (add_one ∷ remove_one ∷ []) busy-Splits tt

run_final_example :
    (more : List Call) × (pending : List Call) × Splits
      (run set_case newest_first valid busy (receive ack_add ∷ fail 2 ∷ []))
      ([] ++ more)
      pending
run_final_example =
    run_final set_case newest_first valid busy [] (add_one ∷ remove_one ∷ [])
      (receive ack_add ∷ fail 2 ∷ []) busy-Splits

run-IsOrdered_example :
    (stable : List Call) × (pending : List Call) × Splits node_2 stable pending
    × IsOrdered set_case pending
run-IsOrdered_example =
    run-IsOrdered set_case newest_first valid set_case-IsConflictAware 2 2 4 history_2 (omega arith)

internal_downstream_execute-perm_example :
    Perm
      (held set_case (internal_downstream_execute set_case newest_first busy remove_one))
      (remove_one ∷ held set_case busy)
internal_downstream_execute-perm_example =
    internal_downstream_execute-perm set_case newest_first busy remove_one

drain-IsDrained_example : IsDrained set_case newest_first (drain set_case newest_first busy)
drain-IsDrained_example = drain-IsDrained set_case newest_first busy

mark_node_failed-perm_example :
    Perm
      (held set_case (mark_node_failed set_case newest_first busy 2)
        ++ orphans set_case newest_first busy 2 (add_one ∷ remove_one ∷ []))
      (held set_case busy)
unfolding set_vars
mark_node_failed-perm_example =
    mark_node_failed-perm set_case newest_first busy 2 [] (add_one ∷ remove_one ∷ []) busy-Splits
      refl

-- The removal by node 2 is the one call that is lost.
orphans_of_2 : orphans set_case newest_first busy 2 (add_one ∷ remove_one ∷ []) ≡ remove_one ∷ []
unfolding set_vars count_ack Failure.is_orphan
orphans_of_2 = refl

mark_node_failed-empties_example :
    ((mark_node_failed set_case newest_first busy 2).priority_queue ≡ [])
    × (at_node (mark_node_failed set_case newest_first busy 2).node_failed 2 ≡ some true)
unfolding set_vars
mark_node_failed-empties_example = mark_node_failed-empties set_case newest_first busy 2 refl

start_1-Splits : Splits start_1 [] []
start_1-Splits = set_vars-Splits 1 2 4 (omega arith)

local_handler-executes_example :
    (local_handler set_case start_1 fresh_add ≡ executed set_case start_1 fresh_add)
    × Splits
        (local_handler set_case start_1 fresh_add).handler
        []
        ([] ++ (stamped_call set_case start_1 fresh_add ∷ []))
unfolding Set.locally_permissibility
local_handler-executes_example =
    local_handler-executes set_case start_1 fresh_add [] [] start_1-Splits refl tt

local_handler-refuses_example :
    (IsBlocked set_case busy fresh_add (add_one ∷ remove_one ∷ [])
      × (local_handler set_case busy fresh_add ≡ record {
        handler = busy;
        call = fresh_add;
        flag = false;
        permiss = set_case.locally_permissibility busy.current_state fresh_add;
        stableindex = 0;
      }))
    ⊎ ((¬ IsBlocked set_case busy fresh_add (add_one ∷ remove_one ∷ []))
        × ((local_handler set_case busy fresh_add).flag ≡ true))
unfolding set_vars
local_handler-refuses_example =
    local_handler-refuses set_case busy fresh_add [] (add_one ∷ remove_one ∷ []) busy-Splits

replay_removes_win_example : replay set_case empty_set (add_one ∷ remove_one ∷ []) 1 ≡ false
unfolding Set.fast_is_reachable_remote eq_bytes
replay_removes_win_example =
    replay_removes_win empty_set (add_one ∷ remove_one ∷ []) 1 ((refl, tt), (tt, tt))

-- Node 1 has executed its own removal of 1 when an addition by node 2 arrives: the addition goes before it.
abbrev removed : Handler set_case
removed = record start_1 { execution_list = remove_one ∷ []; current_index = 1 }

removed-Splits : Splits removed [] (remove_one ∷ [])
unfolding set_vars
removed-Splits = record {
  list = refl;
  boundary = refl;
  current = refl;
  waiting = refl;
  acknowledged = refl;
  clocks = refl;
  nodes = omega arith;
  replay = refl;
}

remote_handler-places_example :
    (remote_handler set_case newest_first true removed add_one
      ≡ (execute_remote set_case removed add_one, true))
    × ((suf : List Call) × Splits
          (remote_handler set_case newest_first true removed add_one).0
          []
          suf
        × Placed set_case add_one (remove_one ∷ []) suf)
unfolding set_vars Set.fast_is_reachable_remote Set.compare_vector_clocks eq_bytes
    VectorClock.compare_vector_clocks
remote_handler-places_example =
    remote_handler-places set_case newest_first true removed add_one [] (remove_one ∷ [])
      removed-Splits tt (refl, tt)
