-- ===== src/Crdt.antt =====
-- protocol-hamsou.cpp under the macro CRDT, which tcp/config.hpp sets for the operation-based CRDTs: every
-- call is stable at once, remote calls are not queued or ordered, and no acknowledgement is sent.
-- `obj.current_state` is split into its `index` and the rest; of `obj.stable_state` this mode writes the
-- `index` alone. Not represented: what this mode leaves unused (the queue, the acknowledgements) or never
-- reads, the locks and output.
pub mod Laws
pub mod Counter
pub mod Gset
pub mod Register
pub mod Values
use optimistic_replication.Prelude.{
  ℕ, ◌+◌, Bool, true, false, List, [], ◌∷◌, ◌++◌, if◌then◌else◌, take, drop,
}
use optimistic_replication.Call.{Call, zeros}
use optimistic_replication.Hamsou.Ops.{tick, stamp_loop}

-- What the handler uses of its object in this mode.
pub record CrdtCase : Type 1 where
  pub State : Type 0
  pub locally_permissibility : State → Call → Bool
  pub update_current_state : State → Call → State

pub record CrdtHandler (C : CrdtCase) : Type 0 where
  pub current_state : C.State
  pub current_index : ℕ
  pub stable_index : ℕ
  pub waittobestable : ℕ
  pub execution_list : List Call
  pub node_id : ℕ
  pub number_of_nodes : ℕ
  pub vector_clock : List ℕ

-- The handler after setVars, with an object in state `state`: readBenchFile may have written to it.
unfoldable pub set_vars : (C : CrdtCase) → C.State → ℕ → ℕ → CrdtHandler C
set_vars C state id num_nodes = record {
  current_state = state;
  current_index = 0;
  stable_index = 0;
  waittobestable = 0;
  execution_list = [];
  node_id = id;
  number_of_nodes = num_nodes;
  vector_clock = zeros num_nodes;
}

module _ (C : CrdtCase) where
  -- The handler and the reference arguments of localHandler with the call.
  pub record CrdtResult : Type 0 where
    pub handler : CrdtHandler C
    pub call : Call
    pub flag : Bool
    pub permiss : Bool
    pub stableindex : ℕ

  unfoldable pub execute_local : CrdtHandler C → Call → CrdtResult
  execute_local s call =
      let vc = tick s.vector_clock s.node_id in
      let stamped = stamp_loop s.number_of_nodes 0 s.number_of_nodes vc call.call_vector_clock in
      let call' = record call { call_vector_clock = stamped.0 } in
      let executed = record s {
        vector_clock = vc;
        execution_list = s.execution_list ++ (call' ∷ []);
        current_state = C.update_current_state s.current_state call';
        current_index = s.current_index + 1;
        stable_index = s.stable_index + 1;
        waittobestable = s.waittobestable + 1;
      } in
      record {
        handler = if stamped.1 then executed else record s { vector_clock = vc };
        call = call';
        flag = true;
        permiss = true;
        stableindex = s.stable_index;
      }

  unfoldable pub local_handler : CrdtHandler C → Call → CrdtResult
  local_handler s call =
      if C.locally_permissibility s.current_state call then execute_local s call else record {
        handler = s;
        call = call;
        flag = false;
        permiss = false;
        stableindex = s.stable_index;
      }

  -- remoteHandler, which is all that internalDownstreamExecute does in this mode.
  unfoldable pub remote_handler : CrdtHandler C → Call → CrdtHandler C
  remote_handler s call = record s {
    execution_list =
        take s.stable_index s.execution_list ++ (call ∷ drop s.stable_index s.execution_list);
    current_index = s.current_index + 1;
    stable_index = s.stable_index + 1;
    current_state = C.update_current_state s.current_state call;
    vector_clock = tick s.vector_clock call.node_id;
    waittobestable = s.waittobestable + 1;
  }

  -- A replica at work: calls issued at this node, and calls delivered from others.
  pub data CrdtEvent : Type 0 where
    issue deliver : Call → CrdtEvent

  unfoldable pub step : CrdtHandler C → CrdtEvent → CrdtHandler C
  step s (issue call) = (local_handler s call).handler
  step s (deliver call) = remote_handler s call

  unfoldable pub run : CrdtHandler C → List CrdtEvent → CrdtHandler C
  unfolding step
  run s [] = s
  run s (e ∷ es) = run (step s e) es
