-- ===== src/Tests/PartialSyn.antt =====
-- The earlier protocol over the set, with the order "Add", "Remove".
use optimistic_replication.Prelude.{◌≡◌, ◌⊎◌, refl, List, [], ◌∷◌, ◌++◌, codes, eq_bytes}
use optimistic_replication.Call.{Call}
use optimistic_replication.UseCase.Set.{set_case}
use optimistic_replication.Hamsou.Ops as Hamsou
use optimistic_replication.PartialSyn.{PartialHandler, set_vars}
use optimistic_replication.PartialSyn.Ops as Ops
use optimistic_replication.PartialSyn.Ops.{find_position, internal_downstream_execute}
use optimistic_replication.PartialSyn.Stabilize as Stabilize
use optimistic_replication.PartialSyn.Stabilize.{stabilizer_with_ack}
use optimistic_replication.PartialSyn.Splits.{Splits, Extends}
use optimistic_replication.PartialSyn.Run.{
  PartialEvent, issue, receive, acknowledge, stabilize, step, run, run-Extends,
}
use optimistic_replication.PartialSyn.Lost.{unplaced_call_lost}
use optimistic_replication.PartialSyn.Enough.{IsStabilized, stabilizer_with_ack-IsStabilized}
use optimistic_replication.Tests.Data.{call_of, add_one, remove_one, fresh_add, ack_add}

abbrev order : List Call
order = call_of (codes "Add") 0 0 0 [] ∷ call_of (codes "Remove") 0 0 0 [] ∷ []

abbrev start : PartialHandler set_case
start = set_vars set_case order 1 2

abbrev events : List PartialEvent
events = receive remove_one ∷ issue fresh_add ∷ acknowledge ack_add ∷ stabilize ∷ []

start-Splits : Splits start [] []
unfolding set_vars
start-Splits = record { list = refl; boundary = refl; replay = refl; sorted = tt }

run-Extends_example : Extends [] (run set_case start events)
run-Extends_example = run-Extends set_case start [] [] events start-Splits

-- With an empty order, that of Project, a remote call is lost.
abbrev unordered : PartialHandler set_case
unordered = set_vars set_case [] 1 2

nothing_placed : find_position add_one.type unordered.topological_order ≡ 0
unfolding set_vars find_position
nothing_placed = refl

unplaced_call :
    (internal_downstream_execute set_case unordered add_one ≡ unordered)
    ⊎ (internal_downstream_execute set_case unordered add_one
        ≡ record unordered { queued_list = unordered.queued_list ++ (add_one ∷ []) })
unplaced_call = unplaced_call_lost set_case unordered add_one nothing_placed

-- A remote removal is executed, and becomes stable at once among two nodes.
stable_removal :
    ((run set_case start (receive remove_one ∷ stabilize ∷ [])).stable_index ≡ 1)
    × ((run set_case start (receive remove_one ∷ stabilize ∷ [])).execution_list ≡ remove_one ∷ [])
unfolding set_vars run step internal_downstream_execute Ops.remote_handler Ops.queue_handler
    Ops.behind_queued Ops.behind_pending find_position Ops.execute_remote Ops.insert_call
    Hamsou.tick stabilizer_with_ack Stabilize.stabilize_loop Stabilize.acked Stabilize.commit
    Stabilize.queue_pass eq_bytes
stable_removal = (refl, refl)

stabilizer_with_ack-IsStabilized_example :
    IsStabilized set_case
      (stabilizer_with_ack set_case (run set_case start (receive remove_one ∷ [])))
stabilizer_with_ack-IsStabilized_example =
    stabilizer_with_ack-IsStabilized set_case (run set_case start (receive remove_one ∷ []))
