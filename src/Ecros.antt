-- ===== src/Ecros.antt =====
-- protocol-ecros.cpp: the state of its class Handler. The calls are objects on the heap that the handler's
-- containers point to: here a pointer is a number, `heap` gives the object behind it, and `fresh` is the
-- pointer that the next `new` returns; 0 is the null pointer. Not represented: the locks, output, and what
-- nothing reads (`ackCounter`, `callLockMap`, `write_percentage`).
pub mod Clocks
pub mod Ops
pub mod Cycles
pub mod TopoSort
pub mod Remote
pub mod Wire
pub mod Set
pub mod Stack
pub mod Movie
pub mod Project
pub mod Courseware
pub mod Skips
pub mod Edges
pub mod Laws
pub mod Closed
pub mod Sorted
pub mod Respects
pub mod Remaining
pub mod Complete
use optimistic_replication.Prelude.{ℕ, ◌≡◌, Bool, false, List, [], ◌∷◌, Bytes, Perm}
use optimistic_replication.Call.{Call, default_call, zeros}

-- What the handler uses of the file of its use case: the object, the analysis of its calls and the
-- comparison of call identifiers. A character is its code.
pub record EcrosCase : Type 1 where
  pub State : Type 0
  pub initial : State
  pub set_vars : State → ℕ → ℕ → State
  pub recompute_state : State → List Call → State
  pub should_skip : State → Call → Bool
  pub apply_call : State → Call → State
  pub seq_commutative : Call → Call → Bool
  pub commutative : Call → Call → Bool
  pub resolution : Call → Call → ℕ
  pub idcmp : Call → Call → ℕ

-- std::unordered_set of pointers as the list of its elements in the order of iteration. Where an
-- insertion puts the new element depends on the library. A std::map iterates over its keys in the order of
-- the addresses, which the allocator chooses.
pub record HashSet : Type 0 where
  pub place : ℕ → List ℕ → List ℕ
  pub place_perm : (p : ℕ) (ps : List ℕ) → Perm (place p ps) (p ∷ ps)
  pub by_address : List ℕ → List ℕ
  pub by_address_perm : (ps : List ℕ) → Perm (by_address ps) ps

pub record Edge : Type 0 where
  pub from : ℕ
  pub to : ℕ
  pub type : Bytes

pub record EcrosHandler (E : EcrosCase) : Type 0 where
  pub node_id : ℕ
  pub number_of_nodes : ℕ
  pub expected_calls : ℕ
  pub last_call_stable : Bool
  pub vc : List ℕ
  pub heap : ℕ → Call
  pub fresh : ℕ
  pub calls : List ℕ
  pub edges : List Edge
  pub ack_counts : ℕ → ℕ → ℕ
  pub waittobestable : ℕ
  pub obj : E.State
  pub seen : List ℕ
  pub topo_order : List ℕ
  pub send_ack : Bool
  pub send_ack_call : Call
  pub send_ack_call_list : List Call
  pub ackindex : ℕ

-- A handler after its constructor, that of `obj` and setVars.
unfoldable pub set_vars : (E : EcrosCase) → ℕ → ℕ → ℕ → EcrosHandler E
set_vars E id num_nodes expected = record {
  node_id = id;
  number_of_nodes = num_nodes;
  expected_calls = expected;
  last_call_stable = false;
  vc = zeros num_nodes;
  heap = λ p. default_call;
  fresh = 1;
  calls = [];
  edges = [];
  ack_counts = λ n c. 0;
  waittobestable = 0;
  obj = E.set_vars E.initial id num_nodes;
  seen = zeros num_nodes;
  topo_order = [];
  send_ack = false;
  send_ack_call = default_call;
  send_ack_call_list = [];
  ackindex = 0;
}
