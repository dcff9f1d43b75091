-- ===== src/Tests/Crdt.antt =====
-- The handler under the macro CRDT, and its objects.
use mathlib.Core.List.Perm
use optimistic_replication.Prelude.{
  ◌≡◌, refl, ◌≢◌, List, [], ◌∷◌, All, codes, eq_bytes, empty_set, insert, true, arith,
}
use optimistic_replication.Call.{Call, default_call}
use optimistic_replication.Crdt.{
  CrdtHandler, CrdtEvent, issue, deliver, set_vars, run, step, local_handler, execute_local,
  remote_handler,
}
use optimistic_replication.Hamsou.Ops.{tick, stamp_loop}
use optimistic_replication.Crdt.Laws.{Settled, run-Settled, set_vars-Settled, replay}
use optimistic_replication.Crdt.Counter.{counter_case}
use optimistic_replication.Crdt.Gset.{gset_case}
use optimistic_replication.Crdt.Gset as Gset
use optimistic_replication.Crdt.Register.{
  initial, reg_case, update_current_state, BenchLine, read_bench_file,
}
use optimistic_replication.Crdt.Register.Laws.{
  register_converge, equal_timestamps_diverge, own_updates_ignored,
}
use optimistic_replication.Tests.Data.{call_of}

abbrev write_3 : Call
write_3 = record (call_of (codes "Update") 3 1 1 (1 ∷ 0 ∷ [])) { value2 = 1 }

abbrev write_4 : Call
write_4 = record (call_of (codes "Update") 4 2 1 (0 ∷ 1 ∷ [])) { value2 = 1 }

abbrev counting : List (CrdtEvent counter_case)
counting = issue write_3 ∷ deliver write_4 ∷ []

run-Settled_example :
    Settled counter_case 0 (run counter_case (set_vars counter_case 0 1 2) counting)
run-Settled_example =
    run-Settled counter_case 0 (set_vars counter_case 0 1 2) counting
      (set_vars-Settled counter_case 0 1 2 (omega arith))

abbrev growing : CrdtHandler gset_case
growing = run gset_case (set_vars gset_case empty_set 1 2) (issue write_3 ∷ deliver write_4 ∷ [])

grown : CrdtHandler.current_state growing 4 ≡ true
unfolding eq_bytes run set_vars step local_handler execute_local remote_handler tick stamp_loop
    Gset.locally_permissibility Gset.update_current_state insert
grown = refl

equal_timestamps_diverge_example :
    ((update_current_state (update_current_state initial write_3) write_4).value ≡ 3)
    × ((update_current_state (update_current_state initial write_4) write_3).value ≡ 4)
    × (update_current_state (update_current_state initial write_3) write_4
        ≢ update_current_state (update_current_state initial write_4) write_3)
unfolding eq_bytes
equal_timestamps_diverge_example =
    equal_timestamps_diverge initial write_3 write_4 refl refl refl (omega arith) (omega arith)

-- A file with two updates, read by node 1; then the node has executed a call of another node.
abbrev two_updates : List BenchLine
two_updates = record { tmp_op = 0; operand = 7 } ∷ record { tmp_op = 0; operand = 9 } ∷ []

own_updates_ignored_example :
    All
      (λ c.
        update_current_state
          (replay reg_case (read_bench_file 1 default_call initial two_updates).0 (write_4 ∷ []))
          c
        ≡ replay reg_case (read_bench_file 1 default_call initial two_updates).0 (write_4 ∷ []))
      (read_bench_file 1 default_call initial two_updates).1
own_updates_ignored_example = own_updates_ignored 1 default_call initial two_updates (write_4 ∷ [])

-- Node 1 issues the newer of two updates, node 2 delivers them in the other order.
abbrev newer_4 : Call
newer_4 = record write_4 { value2 = 2 }

abbrev replica_1 : CrdtHandler reg_case
replica_1 = run reg_case (set_vars reg_case initial 1 2) (deliver write_3 ∷ deliver newer_4 ∷ [])

abbrev replica_2 : CrdtHandler reg_case
replica_2 = run reg_case (set_vars reg_case initial 2 2) (deliver newer_4 ∷ deliver write_3 ∷ [])

register_converge_example : replica_1.current_state ≡ replica_2.current_state
unfolding run set_vars step remote_handler tick eq_bytes
register_converge_example =
    register_converge initial 1 2 2 (deliver write_3 ∷ deliver newer_4 ∷ [])
      (deliver newer_4 ∷ deliver write_3 ∷ []) (omega arith) (Perm.swap newer_4 write_3 [])
      (
        ((λ _ _ e. refl), ((λ _ _ e. absurd (omega (arith, e))), tt)),
        (((λ _ _ e. absurd (omega (arith, e))), ((λ _ _ e. refl), tt)), tt),
      )
