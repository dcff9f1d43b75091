-- ===== src/PartialSyn/Ops.antt =====
-- protocol2-partialsyn.cpp: localHandler, queueHandler, remoteHandler, updateAcksTable and
-- internalDownstreamExecute.
use optimistic_replication.Prelude.{
  ℕ, zero, suc, ◌+◌, Bool, true, false, ◌&&◌, none, some, List, [], ◌∷◌, ◌++◌, Bytes, codes,
  eq_bytes, if◌then◌else◌, ltb, leb, ◌==◌, get_elem?, set, take, drop,
}
use optimistic_replication.Call.{Call}
use optimistic_replication.VectorClock.{Causality, is_after}
use optimistic_replication.VectorClock as VectorClock
use optimistic_replication.UseCase.{UseCase}
use optimistic_replication.Hamsou.{count_ack}
use optimistic_replication.Hamsou.Ops.{tick}
use optimistic_replication.PartialSyn.{PartialHandler}

-- The handler's own copy of compareVectorClocks.
unfoldable pub compare_vector_clocks : List ℕ → List ℕ → Causality
compare_vector_clocks = VectorClock.compare_vector_clocks

-- findPosition and findCallIndex, whose results here are greater by one: 0 for a type that is not found.
unfoldable pub find_position : Bytes → List Call → ℕ
find_position type [] = 0
find_position type (c ∷ cs) =
    let rest = find_position type cs in
    if eq_bytes c.type type then 1 else if rest == 0 then 0 else suc rest

unfoldable pub find_call_index : Bytes → List Call → ℕ
find_call_index type calls = find_position type calls

unfoldable pub check_order : Bytes → Bytes → List Call → Bool
check_order type1 type2 calls = leb (find_call_index type2 calls) (find_call_index type1 calls)

-- The loop over the calls that are not stable: true if it ends with its flag set.
unfoldable pub no_conflict : List Call → Call → List Call → Bool
no_conflict order call [] = true
no_conflict order call (e ∷ es) =
    let rest = no_conflict order call es in
    if check_order call.type e.type order then rest else false

-- The loop that copies the clock: `rounds` rounds from index `i`. The flag is false after the early return.
unfoldable pub stamp_loop : ℕ → ℕ → List ℕ → List ℕ → List ℕ × Bool
stamp_loop zero i vc call_vc = (call_vc, true)
stamp_loop (suc rounds) i vc call_vc = elim (get_elem? vc i) [
  | none ↦ (call_vc, false)
  | some v ↦ stamp_loop rounds (suc i) vc (set call_vc i v)
]

-- The search for the place of a remote call of position `it` and the insertion.
unfoldable pub insert_call : List Call → ℕ → Call → List Call → List Call
insert_call order it call [] = call ∷ []
insert_call order it call (e ∷ es) =
    let rest = insert_call order it call es in
    if ltb it (find_position e.type order) then call ∷ e ∷ es else e ∷ rest

-- The first loop of queueHandler: is the call after a queued one?
unfoldable pub behind_queued : Call → List Call → Bool
behind_queued call [] = false
behind_queued call (q ∷ qs) =
    if is_after (compare_vector_clocks call.call_vector_clock q.call_vector_clock)
    then true
    else behind_queued call qs

-- Its second loop, over the calls that are not stable.
unfoldable pub behind_pending : List Call → Call → List Call → Bool
behind_pending order call [] = false
behind_pending order call (e ∷ es) =
    if ltb (find_position call.type order) (find_position e.type order)
      && is_after (compare_vector_clocks call.call_vector_clock e.call_vector_clock)
    then true
    else behind_pending order call es

module _ (U : UseCase) where
  -- The handler and the reference arguments of localHandler with the call.
  pub record PartialResult : Type 0 where
    pub handler : PartialHandler U
    pub call : Call
    pub flag : Bool
    pub permiss : Bool
    pub stableindex : ℕ

  unfoldable pub execute_local : PartialHandler U → Call → ℕ → PartialResult
  execute_local s call stableindex =
      let vc = tick s.vector_clock s.node_id in
      let stamped = stamp_loop s.number_of_nodes 0 vc call.call_vector_clock in
      let call' = record call { call_vector_clock = stamped.0 } in
      let executed = record s {
        vector_clock = vc;
        execution_list = s.execution_list ++ (call' ∷ []);
        current_index = s.current_index + 1;
        current_state = U.update_current_state s.current_state call';
      } in
      record {
        handler = if stamped.1 then executed else record s { vector_clock = vc };
        call = call';
        flag = true;
        permiss = true;
        stableindex = if stamped.1 then s.stable_index else stableindex;
      }

  unfoldable pub local_handler : PartialHandler U → Call → ℕ → PartialResult
  local_handler s call stableindex =
      let refused : Bool → PartialResult = λ permiss. record {
        handler = s;
        call = call;
        flag = false;
        permiss = permiss;
        stableindex = stableindex;
      } in
      if U.locally_permissibility s.current_state call
      then if no_conflict s.topological_order call (drop s.stable_index s.execution_list)
        then execute_local s call stableindex
        else refused true
      else refused false

  unfoldable pub queue_handler : Bool → PartialHandler U → Call → PartialHandler U × Bool
  queue_handler add s call =
      let queued = if add then record s { queued_list = s.queued_list ++ (call ∷ []) } else s in
      if behind_queued call s.queued_list
      then (queued, true)
      else if behind_pending s.topological_order call (drop s.stable_index s.execution_list)
      then (queued, true)
      else (s, false)

  -- remoteHandler on a call of position `it` in the order.
  unfoldable pub execute_remote : PartialHandler U → ℕ → Call → PartialHandler U
  execute_remote s it call =
      let ack = record (s.send_ack_call) {
        type = codes "Ack";
        node_id = call.node_id;
        call_id = call.call_id;
        value1 = call.value1;
      } in
      record s {
        execution_list =
            take s.stable_index s.execution_list
            ++ insert_call s.topological_order it call (drop s.stable_index s.execution_list);
        send_ack = true;
        send_ack_call = ack;
        send_ack_call_list = s.send_ack_call_list ++ (ack ∷ []);
        ackindex = s.ackindex + 1;
        current_index = s.current_index + 1;
        current_state = U.update_current_state s.current_state call;
        vector_clock = tick s.vector_clock call.node_id;
      }

  unfoldable pub remote_handler : Bool → PartialHandler U → Call → PartialHandler U × Bool
  remote_handler add s call =
      let (s', queued) = queue_handler add s call in
      let it = find_position call.type s.topological_order in
      if queued
      then (s', false)
      else if it == 0
      then (s', false)
      else (execute_remote s' it call, true)

  unfoldable pub update_acks_table : PartialHandler U → Call → PartialHandler U
  update_acks_table s call = record s { acks = count_ack s.acks call.node_id call.call_id }

  unfoldable pub internal_downstream_execute : PartialHandler U → Call → PartialHandler U
  internal_downstream_execute s call = (remote_handler true s call).0
