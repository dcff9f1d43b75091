-- ===== src/Ecros/Remote.antt =====
-- protocol-ecros.cpp: exeRemote, which is all of internalDownstreamExecute, and a replica at work.
use optimistic_replication.Prelude.{◌+◌, true, List, [], ◌∷◌, ◌++◌, codes, if◌then◌else◌, map}
use optimistic_replication.Call.{Call, type_is}
use optimistic_replication.Ecros.{EcrosCase, HashSet, EcrosHandler}
use optimistic_replication.Ecros.Ops.{exe_local, enter_remote, handle_ack_and_maybe_stabilize}
use optimistic_replication.Ecros.Cycles.{detect_and_resolve_cycles}
use optimistic_replication.Ecros.TopoSort.{full_topo_sort}

-- A call issued at this node, or a message received.
pub data EcrosEvent : Type 0 where
  issue receive : Call → EcrosEvent

module _ (E : EcrosCase) where
  -- recomputeState: the object gets the calls of `topoOrder`.
  unfoldable pub recompute_state : EcrosHandler E → EcrosHandler E
  recompute_state s = record s { obj = E.recompute_state s.obj (map s.heap s.topo_order) }

  -- The acknowledgement that exeRemote leaves to be sent.
  unfoldable pub queue_ack : EcrosHandler E → Call → EcrosHandler E
  queue_ack s call =
      let ack = record (s.send_ack_call) {
        type = codes "Ack";
        node_id = call.node_id;
        call_id = call.call_id;
        value1 = call.value1;
        call_vector_clock = s.seen;
      } in
      record s {
        send_ack = true;
        send_ack_call = ack;
        send_ack_call_list = s.send_ack_call_list ++ (ack ∷ []);
        ackindex = s.ackindex + 1;
      }

  module _ (H : HashSet) where
    unfoldable pub exe_remote : EcrosHandler E → Call → EcrosHandler E
    exe_remote s call =
        let entered = enter_remote E H s call in
        let edges = detect_and_resolve_cycles s.fresh entered.edges in
        let sorted = record entered {
          edges = edges;
          topo_order = full_topo_sort H entered.calls edges;
        } in
        if type_is call "Ack"
        then handle_ack_and_maybe_stabilize E s call
        else queue_ack (recompute_state sorted) call

    unfoldable pub step : EcrosHandler E → EcrosEvent → EcrosHandler E
    step s (issue call) = (exe_local E H s call).0
    step s (receive call) = exe_remote s call

    unfoldable pub run : EcrosHandler E → List EcrosEvent → EcrosHandler E
    unfolding step
    run s [] = s
    run s (e ∷ es) = run (step s e) es
