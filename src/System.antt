-- ===== src/System.antt =====
-- The nodes of the cluster together: the handler of protocol-hamsou.cpp at each of them, what
-- tcp/main-replication-protocols.cpp broadcasts, and what ServerConnection::receive takes from each peer.
-- A connection keeps the order of its messages and loses none, and no failure is reported. The nodes are
-- numbered from 1; an index beyond them names none.
pub mod Gather
pub mod Messages
pub mod Invariant
pub mod Reachable
pub mod Agree
pub mod Delivers
use optimistic_replication.Prelude.{
  ℕ, suc, ◌+◌, ◌≤◌, ◌<◌, ◌≡◌, ◌≢◌, Bool, true, false, some, List, [], ◌∷◌, ◌++◌, if◌then◌else◌,
  get_elem?, drop, ◌==◌, keep_if,
}
use optimistic_replication.Call.{Call, type_is}
use optimistic_replication.UseCase.{UseCase, PriorityQueue}
use optimistic_replication.Hamsou.{Handler, set_vars}
use optimistic_replication.Hamsou.Ops.{LocalResult, local_handler}
use optimistic_replication.Hamsou.Run.{receive_call}

abbrev pub update {ℓ} : {A : Type ℓ} → (ℕ → A) → ℕ → A → ℕ → A
update f i a k = if k == i then a else f k

-- What localHandler's flag lets the main loop broadcast.
abbrev pub broadcast_of : {U : UseCase} → LocalResult U → List Call
broadcast_of r = if r.flag then r.call ∷ [] else []

-- `sent k` are the messages that node k has broadcast, in order; `taken i k` counts those that node i
-- has received, and `ack_index i` the acknowledgements that it has sent.
pub record System (U : UseCase) : Type 0 where
  pub node : ℕ → Handler U
  pub sent : ℕ → List Call
  pub ack_index : ℕ → ℕ
  pub taken : ℕ → ℕ → ℕ

abbrev pub init : (U : UseCase) → ℕ → ℕ → System U
init U n expected = record {
  node = λ i. set_vars U i n expected;
  sent = λ i. [];
  ack_index = λ i. 0;
  taken = λ i k. 0;
}

module _ (check_validcall : Call → Bool) where
  -- Is a message an operation that the receiver hands to its handler?
  unfoldable pub is_operation : Call → Bool
  is_operation c =
      if type_is c "Heartbeat"
      then false
      else if type_is c "Ack"
      then false
      else if check_validcall c
      then true
      else false

  abbrev pub operations : List Call → List Call
  operations = keep_if is_operation

  module _ {U : UseCase} (Q : PriorityQueue) where
    -- A node issues a call: it broadcasts it if it has executed it.
    abbrev pub issue_at : System U → ℕ → Call → System U
    issue_at s i c = record s {
      node = update s.node i (local_handler U (s.node i) c).handler;
      sent = update s.sent i (s.sent i ++ broadcast_of (local_handler U (s.node i) c));
    }

    -- A node broadcasts the acknowledgement `a`, its next one.
    abbrev pub acknowledge_at : System U → ℕ → Call → System U
    acknowledge_at s i a = record s {
      sent = update s.sent i (s.sent i ++ (a ∷ []));
      ack_index = update s.ack_index i (suc (s.ack_index i));
    }

    -- Node i receives `m`, the next message of node k.
    abbrev pub deliver_at : System U → ℕ → ℕ → Call → System U
    deliver_at s i k m = record s {
      node = update s.node i (receive_call U Q check_validcall (s.node i) m);
      taken = update s.taken i (update (s.taken i) k (suc (s.taken i k)));
    }

    pub data Step (n : ℕ) (s : System U) : System U → Type 0 where
      issue :
          (i : ℕ) (c : Call)
          → 0 < i
          → i ≤ n
          → ((vc : List ℕ) → is_operation (record c { call_vector_clock = vc }) ≡ true)
          → Step n s (issue_at s i c)
      acknowledge :
          (i : ℕ) (a : Call)
          → 0 < i
          → i ≤ n
          → get_elem? (s.node i).send_ack_call_list (s.ack_index i) ≡ some a
          → Step n s (acknowledge_at s i a)
      deliver :
          (i k : ℕ) (m : Call)
          → 0 < i
          → i ≤ n
          → 0 < k
          → k ≤ n
          → k ≢ i
          → get_elem? (s.sent k) (s.taken i k) ≡ some m
          → Step n s (deliver_at s i k m)

    pub data Reach (n expected : ℕ) : System U → Type 0 where
      start : Reach n expected (init U n expected)
      later : {s t : System U} → Reach n expected s → Step n s t → Reach n expected t

  -- Every operation that another node has broadcast has arrived at node i.
  abbrev pub IsQuiet : {U : UseCase} → ℕ → System U → ℕ → Type 0
  IsQuiet n s i = (k : ℕ) → 0 < k → k ≤ n → k ≢ i → operations (drop (s.taken i k) (s.sent k)) ≡ []
