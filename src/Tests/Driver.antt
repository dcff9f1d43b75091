-- ===== src/Tests/Driver.antt =====
-- The main loop of a node over the set.
use optimistic_replication.Prelude.{
  ◌≡◌, refl, Bool, true, false, some, List, [], ◌∷◌, ◌++◌, ◌+◌, map, length, codes, eq_bytes, arith,
  All,
}
use optimistic_replication.Call.{Call, type_is}
use optimistic_replication.UseCase.Set.{set_case}
use optimistic_replication.UseCase.Set as Set
use optimistic_replication.VectorClock as Clock
use optimistic_replication.Hamsou.Run.{receive_call}
use optimistic_replication.Driver as Driver
use optimistic_replication.Driver.Loop as Loop
use optimistic_replication.Hamsou.{Handler, set_vars, at_node}
use optimistic_replication.Hamsou.Ops as Ops
use optimistic_replication.Hamsou.Failure as Failure
use optimistic_replication.Hamsou.Failure.{mark_node_failed}
use optimistic_replication.Driver.{Driver, Build, start, message}
use optimistic_replication.Driver.Loop.{
  DriverEvent, round, receive, fail, signal, run, step, round_of, must_fail, send_next_ack, wake,
  try_call, advance, settle, enabled,
}
use optimistic_replication.Driver.Bounds.{Fits}
use optimistic_replication.Driver.Fits.{run-StaysWithin}
use optimistic_replication.Driver.Within.{StaysWithin}
use optimistic_replication.Driver.Waits.{IsWaiting, waits_for_stable, round_of_progress}
use optimistic_replication.Driver.MovesOn.{MovesOn}
use optimistic_replication.Driver.Accounts.{IsAccounted, main_loop-IsAccounted}
use optimistic_replication.Driver.Drives.{main_loop-IsOrdered}
use optimistic_replication.Hamsou.Splits.{Splits}
use optimistic_replication.Hamsou.Order.{IsOrdered}
use optimistic_replication.UseCase.Set.Laws.{set_case-IsConflictAware}
use optimistic_replication.Driver.Monitor.{monitor_pass, monitor_pass-marks}
use optimistic_replication.Driver.Ecros.{EcrosDriver, issue_call, skipped_call_is_sent}
use optimistic_replication.Ecros as Ecros
use optimistic_replication.Ecros.Set.{ecros_set_case}
use optimistic_replication.Ecros.Set as EcrosSet
use optimistic_replication.Tests.Ecros as EcrosTests
use optimistic_replication.Tests.Data.{newest_first, call_of, remove_one, fresh_add}

abbrev no_failure : Build
no_failure = record { failure_mode = false; failed_node = 0 }

abbrev valid : Call → Bool
valid c = true

-- Two calls to issue, and what the network brings meanwhile.
abbrev workload : List Call
workload = fresh_add ∷ call_of (codes "Read") 0 1 2 [] ∷ []

abbrev events : List DriverEvent
events =
    round true ∷ receive remove_one ∷ round true ∷ round true ∷ fail 2 ∷ signal ∷ round true ∷ []

-- Node 1 issues the addition and receives a removal, which it has to acknowledge.
abbrev busy : Driver set_case
busy =
    run set_case no_failure newest_first valid (start set_case no_failure 1 2 4 workload)
      (round true ∷ receive remove_one ∷ [])

-- One acknowledgement waits, the next round sends it, and the loop has not ended.
one_ack :
    (length busy.hdl.send_ack_call_list ≡ 1)
    × (busy.ack_index ≡ 0)
    × ((run set_case no_failure newest_first valid busy (map round (true ∷ []))).ack_index ≡ 1)
    × (enabled set_case no_failure
          (run set_case no_failure newest_first valid busy (map round (true ∷ [])))
        ≡ true)
unfolding start set_vars run step round_of must_fail send_next_ack Driver.broadcast_call wake
    try_call Loop.issue_call advance settle enabled Driver.resize_buffer Ops.local_handler
    Ops.no_conflict Ops.execute_local Ops.tick Ops.stamp_loop receive_call
    Ops.internal_downstream_execute Ops.remote_handler Ops.queue_handler Ops.behind_top
    Ops.behind_pending Ops.execute_remote Ops.insert_call Ops.drain eq_bytes
    Set.locally_permissibility Set.fast_is_reachable_local Set.fast_is_reachable_remote
    Set.compare_vector_clocks Clock.compare_vector_clocks
one_ack = (refl, refl, refl, refl)

workload-Fits : All (Fits 2) workload
workload-Fits = (
  record { own = omega arith; stamped = omega arith },
  (record { own = omega arith; stamped = omega arith }, tt),
)

run-StaysWithin_example :
    StaysWithin 2
      (run set_case no_failure newest_first valid (start set_case no_failure 1 2 4 workload) events)
run-StaysWithin_example =
    run-StaysWithin set_case no_failure newest_first valid 1 2 4 workload events workload-Fits

conflict_order_kept :
    (stable : List Call) × (pending : List Call) × Splits
      (run set_case no_failure newest_first valid
        (start set_case no_failure 1 2 4 workload)
        events).hdl
      stable
      pending
    × IsOrdered set_case pending
conflict_order_kept =
    main_loop-IsOrdered set_case no_failure newest_first valid set_case-IsConflictAware 1 2 4
      workload events (omega arith)

-- Node 1 has executed an addition of node 2, has been refused a removal, and waits. Node 2 fails, and the
-- addition, which nobody acknowledged, is erased.
abbrev foreign_add : Call
foreign_add = call_of (codes "Add") 1 2 1 (0 ∷ 1 ∷ [])

abbrev refused : Handler set_case
refused = record (set_vars set_case 1 2 4) { execution_list = foreign_add ∷ []; current_index = 1 }

abbrev stuck : Driver set_case
stuck = record (start set_case no_failure 1 2 4 (remove_one ∷ [])) {
  hdl = mark_node_failed set_case newest_first refused 2;
  wait = true;
}

abbrev nothing_executed : List Call
nothing_executed = []

-- Nothing is pending any more, so that nothing will become stable, and the removal still waits.
stuck_state : (stuck.hdl.execution_list ≡ nothing_executed) × (stuck.hdl.waittobestable ≡ 0)
unfolding start set_vars mark_node_failed Failure.bury Failure.force_drain Failure.is_orphan
    Ops.stabilizer_with_ack Ops.stabilize_loop
stuck_state = (refl, refl)

stuck-IsWaiting : IsWaiting remove_one [] stuck
unfolding start set_vars mark_node_failed Failure.bury Failure.force_drain Failure.is_orphan
    Ops.stabilizer_with_ack Ops.stabilize_loop
stuck-IsWaiting = record { next = refl; waits = refl; none_stable = refl }

no_read : type_is remove_one "Read" ≡ false
unfolding eq_bytes
no_read = refl

waits_for_stable_example :
    IsWaiting remove_one []
      (run set_case no_failure newest_first valid stuck (map round (true ∷ false ∷ true ∷ [])))
    × ((run set_case no_failure newest_first valid stuck
          (map round (true ∷ false ∷ true ∷ []))).sent
        ≡ stuck.sent)
waits_for_stable_example =
    waits_for_stable remove_one [] no_failure newest_first valid stuck (true ∷ false ∷ true ∷ [])
      no_read stuck-IsWaiting

abbrev ready : Driver set_case
ready = start set_case no_failure 1 2 4 workload

not_to_fail : must_fail set_case no_failure (send_next_ack set_case ready) ≡ false
unfolding must_fail
not_to_fail = refl

not_waiting : ready.wait ≡ false
unfolding start
not_waiting = refl

round_of_progress_example :
    (round_of set_case no_failure true ready).left ≡ call_of (codes "Read") 0 1 2 [] ∷ []
unfolding start set_vars
round_of_progress_example =
    round_of_progress no_failure ready fresh_add (call_of (codes "Read") 0 1 2 [] ∷ []) refl
      not_to_fail refl refl

-- Node 1 finds the connection to node 2 dead.
monitor_pass-marks_example :
    at_node (monitor_pass set_case newest_first (λ n. true) 1 refused).node_failed 2 ≡ some true
unfolding set_vars
monitor_pass-marks_example =
    monitor_pass-marks set_case newest_first (λ n. true) 1 refused 1 refl (omega arith) refl refl

-- A node of the ECROS protocol whose set is empty skips a removal, and sends it.
abbrev empty : EcrosDriver ecros_set_case
empty = record {
  hdl = record (Ecros.set_vars ecros_set_case 1 2 4) { obj = EcrosSet.initial };
  left = remove_one ∷ [];
  expected_calls = 4;
  sent = 0;
  ack_index = 0;
  buffer = record { memory = []; size = 0 };
  broadcasts = [];
  shutdown_requested = false;
}

abbrev skipping : EcrosDriver ecros_set_case
skipping = issue_call ecros_set_case EcrosTests.newest empty remove_one []

is_skipped : EcrosSet.should_skip empty.hdl.obj remove_one ≡ true
unfolding EcrosSet.should_skip eq_bytes
is_skipped = refl

sends_skipped :
    (skipping.hdl ≡ empty.hdl)
    × (skipping.broadcasts ≡ empty.broadcasts ++ (message remove_one empty.buffer ∷ []))
    × (skipping.sent ≡ empty.sent + 1)
sends_skipped = skipped_call_is_sent ecros_set_case EcrosTests.newest empty remove_one [] is_skipped

-- Node 1 executes its addition and a removal that it receives, and has a call to read left.
abbrev quiet_events : List DriverEvent
quiet_events = round true ∷ receive remove_one ∷ []

abbrev quiet : Driver set_case
quiet =
    run set_case no_failure newest_first valid (start set_case no_failure 1 2 4 workload)
      quiet_events

main_loop-IsAccounted_example :
    IsAccounted set_case valid workload (remove_one ∷ []) quiet.hdl quiet.left
    × MovesOn no_failure quiet.left (step set_case no_failure newest_first valid quiet (round true))
main_loop-IsAccounted_example =
    main_loop-IsAccounted set_case no_failure newest_first valid set_case-IsConflictAware 1 2 4
      workload quiet_events (omega arith) (tt, (tt, tt))
