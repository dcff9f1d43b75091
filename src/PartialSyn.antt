-- ===== src/PartialSyn.antt =====
-- protocol2-partialsyn.cpp: the state of class Handler of the earlier protocol, which orders the calls that
-- are not stable by the places of their types in `obj.topologicalOrder`. Not represented: the locks,
-- output, and `remote_verctor_clocks`, which only code behind a `return` reads.
pub mod Ops
pub mod Stabilize
pub mod Sorted
pub mod Splits
pub mod Lost
pub mod Run
pub mod Enough
use optimistic_replication.Prelude.{ℕ, Bool, false, List, []}
use optimistic_replication.Call.{Call, default_call, zeros}
use optimistic_replication.UseCase.{UseCase}

pub record PartialHandler (U : UseCase) : Type 0 where
  pub topological_order : List Call
  pub current_state : U.State
  pub current_index : ℕ
  pub stable_state : U.State
  pub stable_index : ℕ
  pub send_ack : Bool
  pub send_ack_call : Call
  pub send_ack_call_list : List Call
  pub waittobestable : ℕ
  pub ackindex : ℕ
  -- `acks[node - 1][call]` is `acks node call`.
  pub acks : ℕ → ℕ → ℕ
  pub execution_list : List Call
  pub node_id : ℕ
  pub number_of_nodes : ℕ
  pub vector_clock : List ℕ
  pub queued_list : List Call

-- A handler after its constructor and setVars, with an object of the given topological order.
unfoldable pub set_vars : (U : UseCase) → List Call → ℕ → ℕ → PartialHandler U
set_vars U order id num_nodes = record {
  topological_order = order;
  current_state = U.initial;
  current_index = 0;
  stable_state = U.initial;
  stable_index = 0;
  send_ack = false;
  send_ack_call = default_call;
  send_ack_call_list = [];
  waittobestable = 0;
  ackindex = 0;
  acks = λ n c. 0;
  execution_list = [];
  node_id = id;
  number_of_nodes = num_nodes;
  vector_clock = zeros 8;
  queued_list = [];
}
