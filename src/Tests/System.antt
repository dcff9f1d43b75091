-- ===== src/Tests/System.antt =====
-- A cluster of two nodes over the set: node 1 adds an element while node 2 removes it.
use mathlib.Core.List.Perm
use optimistic_replication.Prelude.{
  ℕ, zero, suc, ◌≤◌, ◌<◌, ◌≡◌, refl, Bool, true, Perm, arith, eq_bytes,
}
use optimistic_replication.Call.{Call}
use optimistic_replication.UseCase.Set.{set_case}
use optimistic_replication.UseCase.Set as Set
use optimistic_replication.UseCase.Set.Laws.{set_case-IsConflictAware}
use optimistic_replication.VectorClock as Clock
use optimistic_replication.Hamsou.{set_vars}
use optimistic_replication.Hamsou.Ops as Ops
use optimistic_replication.Hamsou.Run.{receive_call}
use optimistic_replication.Hamsou.Deliver.{held}
use optimistic_replication.Hamsou.Order.{replay}
use optimistic_replication.System.{
  System, init, is_operation, issue_at, deliver_at, Reach, start, later, issue, deliver, IsQuiet,
}
use optimistic_replication.System.Gather.{gather}
use optimistic_replication.System.Invariant.{part}
use optimistic_replication.System.Agree.{Reach-held, nodes_converge, broadcast_operations}
use optimistic_replication.System.Delivers.{Deliveries, delivers_all}
use optimistic_replication.Tests.Data.{newest_first, add_one, remove_one, fresh_add, fresh_remove}

abbrev valid : Call → Bool
valid c = true

abbrev added : System set_case
added = issue_at valid newest_first (init set_case 2 4) 1 fresh_add

abbrev both_issued : System set_case
both_issued = issue_at valid newest_first added 2 fresh_remove

abbrev one_delivered : System set_case
one_delivered = deliver_at valid newest_first both_issued 1 2 remove_one

abbrev both_delivered : System set_case
both_delivered = deliver_at valid newest_first one_delivered 2 1 add_one

both_issued-Reach : Reach valid newest_first 2 4 both_issued
unfolding is_operation eq_bytes
both_issued-Reach =
    later (later start (issue 1 fresh_add (omega arith) (omega arith) (λ vc. refl)))
      (issue 2 fresh_remove (omega arith) (omega arith) (λ vc. refl))

one_delivered-Reach : Reach valid newest_first 2 4 one_delivered
unfolding Ops.local_handler Ops.execute_local Ops.stamp_loop Ops.tick Ops.no_conflict set_vars
    Set.locally_permissibility
one_delivered-Reach = later both_issued-Reach (
    deliver 1 2 remove_one (omega arith) (omega arith) (omega arith) (omega arith) (omega arith)
      refl)

both_delivered-Reach : Reach valid newest_first 2 4 both_delivered
unfolding Ops.local_handler Ops.execute_local Ops.stamp_loop Ops.tick Ops.no_conflict set_vars
    Set.locally_permissibility
both_delivered-Reach =
    later one_delivered-Reach (
      deliver 2 1 add_one (omega arith) (omega arith) (omega arith) (omega arith) (omega arith)
        refl)

both_delivered-IsQuiet-1 : IsQuiet valid 2 both_delivered 1
unfolding Ops.local_handler Ops.execute_local Ops.stamp_loop Ops.tick Ops.no_conflict set_vars
    Set.locally_permissibility
both_delivered-IsQuiet-1 zero a b c = absurd (omega arith)
both_delivered-IsQuiet-1 (suc zero) a b c = absurd (omega arith)
both_delivered-IsQuiet-1 (suc (suc zero)) a b c = refl
both_delivered-IsQuiet-1 (suc (suc (suc k))) a b c = absurd (omega arith)

both_delivered-IsQuiet-2 : IsQuiet valid 2 both_delivered 2
unfolding Ops.local_handler Ops.execute_local Ops.stamp_loop Ops.tick Ops.no_conflict set_vars
    Set.locally_permissibility
both_delivered-IsQuiet-2 zero a b c = absurd (omega arith)
both_delivered-IsQuiet-2 (suc zero) a b c = refl
both_delivered-IsQuiet-2 (suc (suc k)) a b c = absurd (omega arith)

Reach-held_example :
    Perm
      (held set_case (one_delivered.node 1))
      (gather 2 (part valid one_delivered.sent (one_delivered.taken 1) 1))
Reach-held_example =
    Reach-held valid set_case newest_first 1 one_delivered-Reach (omega arith) (omega arith)

delivers_all_example :
    (t : System set_case) × Deliveries valid newest_first 2 4 both_issued t
    × Reach valid newest_first 2 4 t
    × (t.sent ≡ both_issued.sent)
    × ((i : ℕ)
        → 0 < i
        → i ≤ 2
        → Perm
            (held set_case (t.node i))
            (broadcast_operations valid set_case newest_first 2 both_issued))
delivers_all_example = delivers_all valid newest_first 2 4 both_issued both_issued-Reach

nodes_converge_example :
    replay set_case set_case.initial (both_delivered.node 1).execution_list
    ≡ replay set_case set_case.initial (both_delivered.node 2).execution_list
unfolding set_vars receive_call Ops.local_handler Ops.no_conflict Ops.execute_local Ops.tick
    Ops.stamp_loop Ops.internal_downstream_execute Ops.remote_handler Ops.queue_handler
    Ops.behind_top Ops.behind_pending Ops.execute_remote Ops.insert_call Ops.drain eq_bytes
    Set.locally_permissibility Set.fast_is_reachable_local Set.fast_is_reachable_remote
    Set.compare_vector_clocks Clock.compare_vector_clocks
nodes_converge_example =
    nodes_converge valid set_case newest_first set_case-IsConflictAware 1 2 both_delivered-Reach
      (omega arith) (omega arith) (omega arith) (omega arith) both_delivered-IsQuiet-1
      both_delivered-IsQuiet-2 refl refl (Perm.refl _) refl
