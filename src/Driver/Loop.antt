-- ===== src/Driver/Loop.antt =====
-- tcp/main-replication-protocols.cpp: the main loop under OPTIMISTIC_REPLICATION, between the events of the
-- threads that receive messages and watch connections.
use optimistic_replication.Prelude.{
  ℕ, suc, ◌+◌, ◌/◌, Bool, true, false, not, ◌&&◌, none, some, List, [], ◌∷◌, if◌then◌else◌, ltb,
  leb, ◌==◌, length, get_elem?,
}
use optimistic_replication.Call.{Call, type_is}
use optimistic_replication.UseCase.{UseCase, PriorityQueue}
use optimistic_replication.Hamsou.Ops.{local_handler}
use optimistic_replication.Hamsou.Run.{receive_call}
use optimistic_replication.Hamsou.Failure.{mark_node_failed}
use optimistic_replication.Driver.{Driver, Build, broadcast_call}

-- A round of the loop, at a time when the next operation is due or is not; a message that another thread
-- receives, and a failure that one reports; and the signal to shut down.
pub data DriverEvent : Type 0 where
  round : Bool → DriverEvent
  receive : Call → DriverEvent
  fail : ℕ → DriverEvent
  signal : DriverEvent

module _ (U : UseCase) where
  -- The next acknowledgement that is not sent yet.
  unfoldable pub send_next_ack : Driver U → Driver U
  send_next_ack d = elim (get_elem? d.hdl.send_ack_call_list d.ack_index) [
    | none ↦ d
    | some ack ↦ record (broadcast_call d ack) { ack_index = suc d.ack_index }
  ]

  -- The end of the wait for the next stable call.
  unfoldable pub wake : Driver U → Driver U
  wake d = if d.wait && ltb d.stableindex d.hdl.waittobestable then record d { wait = false } else d

  -- `++it` where the calls that are left go on with `rest`.
  unfoldable pub advance : Driver U → List Call → Driver U
  advance d rest = record d { left = rest; passed = d.passed + 1 }

  -- The end of a round.
  unfoldable pub settle : Driver U → Driver U
  settle d = record d { hdl = record (d.hdl) { last_call_stable = false } }

  -- localHandler and its three outcomes: the call is sent, is tried again later, or is dropped.
  unfoldable pub issue_call : Driver U → Call → List Call → Driver U
  issue_call d call rest =
      let r = local_handler U d.hdl call in
      let called = record d { hdl = r.handler; stableindex = r.stableindex } in
      if r.flag
      then settle
          (record (advance (broadcast_call called r.call) rest) { sent = d.sent + 1; wait = false })
      else if r.permiss
      then record called { wait = true }
      else settle (advance called rest)

  -- What a round does with the next call.
  unfoldable pub try_call : Driver U → Call → List Call → Driver U
  try_call d call rest =
      if type_is call "Read"
      then settle (advance d rest)
      else if d.wait
      then settle d
      else issue_call d call rest

  module _ (B : Build) where
    -- The node that is to fail does so at half of its calls.
    unfoldable pub must_fail : Driver U → Bool
    must_fail d =
        B.failure_mode
        && (d.hdl.node_id == B.failed_node)
        && leb ((d.passed + length d.left) / 2) d.passed

    unfoldable pub round_of : Bool → Driver U → Driver U
    round_of due d =
        let d' = send_next_ack d in
        elim d.left [
          | [] ↦ settle d'
          | call ∷ rest ↦
              if must_fail d'
              then record d' { looping = false }
              else if due
              then try_call (wake d') call rest
              else d'
        ]

    -- The condition of the loop.
    unfoldable pub enabled : Driver U → Bool
    enabled d = d.looping && not d.shutdown_requested && ltb d.hdl.waittobestable d.expected_calls

    module _ (Q : PriorityQueue) (check_validcall : Call → Bool) where
      unfoldable pub step : Driver U → DriverEvent → Driver U
      step d (round due) = if enabled d then round_of due d else d
      step d (receive call) = record d { hdl = receive_call U Q check_validcall d.hdl call }
      step d (fail node) = record d { hdl = mark_node_failed U Q d.hdl node }
      step d signal = record d { shutdown_requested = true }

      unfoldable pub run : Driver U → List DriverEvent → Driver U
      unfolding step
      run d [] = d
      run d (e ∷ es) = run (step d e) es
