-- ===== src/Hamsou.antt =====
-- protocol-hamsou.cpp: the state of class Handler, for any use case, without the macro CRDT.
-- `obj.current_state` and `obj.stable_state` are split into their `index` and the rest.
-- Not represented: the locks (each function is one step), the clock times of the heartbeats, the
-- fields that nothing reads (`failed`, `test`, `remote_verctor_clocks`, `write_percentage`), output.
pub mod Ops
pub mod Failure
pub mod Splits
pub mod Stamp
pub mod Local
pub mod Deliver
pub mod Pending
pub mod Progress
pub mod Stabilize
pub mod Order
pub mod Place
pub mod Run
use optimistic_replication.Prelude.{
  ℕ, zero, suc, ◌+◌, Bool, true, false, Option, none, List, [], ◌∷◌, ◌&&◌, if◌then◌else◌, ◌==◌,
  get_elem?, set,
}
use optimistic_replication.Call.{Call, default_call, zeros}
use optimistic_replication.UseCase.{UseCase}

pub record Handler (U : UseCase) : Type 0 where
  pub current_state : U.State
  pub current_index : ℕ
  pub stable_state : U.State
  pub stable_index : ℕ
  pub send_ack : Bool
  pub send_ack_call : Call
  pub send_ack_call_list : List Call
  pub waittobestable : ℕ
  pub ackindex : ℕ
  pub execution_list : List Call
  pub node_id : ℕ
  pub number_of_nodes : ℕ
  pub expected_calls : ℕ
  pub vector_clock : List ℕ
  pub last_call_stable : Bool
  -- `acks[node - 1][call]` is `acks node call`.
  pub acks : ℕ → ℕ → ℕ
  pub node_failed : List Bool
  pub priority_queue : List Call

-- `xs[node - 1]`; node numbers start at 1.
abbrev pub at_node {ℓ} : {A : Type ℓ} → List A → ℕ → Option A
at_node xs zero = none
at_node xs (suc i) = get_elem? xs i

abbrev pub set_node {ℓ} : {A : Type ℓ} → List A → ℕ → A → List A
set_node xs zero v = xs
set_node xs (suc i) v = set xs i v

-- `acks[node - 1][call]++`
unfoldable pub count_ack : (ℕ → ℕ → ℕ) → ℕ → ℕ → ℕ → ℕ → ℕ
count_ack acks node call n c = if (node == n) && (call == c) then acks n c + 1 else acks n c

all_alive : ℕ → List Bool
all_alive zero = []
all_alive (suc n) = false ∷ all_alive n

-- A handler after its constructor, that of `obj` and `setVars`.
unfoldable pub set_vars : (U : UseCase) → ℕ → ℕ → ℕ → Handler U
unfolding all_alive
set_vars U id num_nodes expected = record {
  current_state = U.initial;
  current_index = 0;
  stable_state = U.initial;
  stable_index = 0;
  send_ack = false;
  send_ack_call = default_call;
  send_ack_call_list = [];
  waittobestable = 0;
  ackindex = 0;
  execution_list = [];
  node_id = id;
  number_of_nodes = num_nodes;
  expected_calls = expected;
  vector_clock = zeros num_nodes;
  last_call_stable = false;
  acks = λ n c. 0;
  node_failed = all_alive num_nodes;
  priority_queue = [];
}
