-- ===== src/PartialSyn/Run.antt =====
-- protocol2-partialsyn.cpp: a replica at work, in any order of events.
use optimistic_replication.Prelude.{Bool, List, [], ◌∷◌, ◌++◌}
use optimistic_replication.Call.{Call}
use optimistic_replication.UseCase.{UseCase}
use optimistic_replication.PartialSyn.{PartialHandler}
use optimistic_replication.PartialSyn.Ops.{
  local_handler, update_acks_table, internal_downstream_execute,
}
use optimistic_replication.PartialSyn.Stabilize.{stabilizer_with_ack}
use optimistic_replication.PartialSyn.Splits.{
  Splits, Extends, Extends-here, Extends-trans, local_handler-Splits, remote_handler-Splits,
  stabilize_loop-Extends,
}

-- A call issued here, a call received, an acknowledgement received, and the stabilizer's turn.
pub data PartialEvent : Type 0 where
  issue receive acknowledge : Call → PartialEvent
  stabilize : PartialEvent

module _ (U : UseCase) where
  unfoldable pub step : PartialHandler U → PartialEvent → PartialHandler U
  step s (issue call) = (local_handler U s call s.stable_index).handler
  step s (receive call) = internal_downstream_execute U s call
  step s (acknowledge call) = update_acks_table U s call
  step s stabilize = stabilizer_with_ack U s

  unfoldable pub run : PartialHandler U → List PartialEvent → PartialHandler U
  unfolding step
  run s [] = s
  run s (e ∷ es) = run (step s e) es

  step-Extends :
      (pre suf : List Call) (s : PartialHandler U) (e : PartialEvent)
      → Splits s pre suf
      → Extends pre (step s e)
  unfolding step internal_downstream_execute update_acks_table stabilizer_with_ack
  step-Extends pre suf s (issue call) v =
      let (suf', w) = local_handler-Splits U s call s.stable_index pre suf v in Extends-here suf' w
  step-Extends pre suf s (receive call) v =
      let (suf', w) = remote_handler-Splits U Bool.true s call pre suf v in Extends-here suf' w
  step-Extends pre suf s (acknowledge call) v =
      Extends-here suf
        (record { list = v.list; boundary = v.boundary; replay = v.replay; sorted = v.sorted })
  step-Extends pre suf s stabilize v = stabilize_loop-Extends U _ s pre suf v

  -- In the earlier protocol, from a well-formed handler, whatever calls are issued and received, whatever
  -- acknowledgements arrive and whenever the stabilizer runs: the calls that were stable stay stable, first
  -- and in their order, the stable state is the replay of the stable calls, and the pending calls stay
  -- sorted by the places of their types in the topological order.
  pub run-Extends :
      (s : PartialHandler U) (pre suf : List Call) (es : List PartialEvent)
      → Splits s pre suf
      → Extends pre (run s es)
  unfolding run
  run-Extends s pre suf [] v = Extends-here suf v
  run-Extends s pre suf (e ∷ es) v =
      let x = step-Extends pre suf s e v in
      Extends-trans pre x.more _ (run-Extends (step s e) (pre ++ x.more) x.pending es x.splits)
