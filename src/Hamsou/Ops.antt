-- ===== src/Hamsou/Ops.antt =====
-- protocol-hamsou.cpp: localHandler, queueHandler, remoteHandler, updateAcksTable, stabilizerWithAck
-- and internalDownstreamExecute.
use optimistic_replication.Prelude.{
  ℕ, zero, suc, ◌+◌, ◌-◌, ◌/◌, Bool, true, false, ◌&&◌, none, some, List, [], ◌∷◌, ◌++◌,
  if◌then◌else◌, leb, ◌==◌, codes, length, get_elem?, set, take, drop, resize,
}
use optimistic_replication.Call.{Call}
use optimistic_replication.VectorClock.{is_after}
use optimistic_replication.UseCase.{UseCase, PriorityQueue}
use optimistic_replication.Hamsou.{Handler, at_node, set_node, count_ack}

-- `vector_clock[node - 1]++`
unfoldable pub tick : List ℕ → ℕ → List ℕ
tick vc node = elim (at_node vc node) [ none ↦ vc | some v ↦ set_node vc node (v + 1) ]

-- The loop that copies `vector_clock` into the call: `rounds` rounds from index `i`. The flag is false
-- after the early return on an index out of bounds.
unfoldable pub stamp_loop : ℕ → ℕ → ℕ → List ℕ → List ℕ → List ℕ × Bool
stamp_loop zero i n vc call_vc = (call_vc, true)
stamp_loop (suc rounds) i n vc call_vc = elim (get_elem? vc i) [
  | none ↦ (call_vc, false)
  | some v ↦ stamp_loop rounds (suc i) n vc (set (resize n 0 call_vc) i v)
]

module _ (U : UseCase) where
  -- The loop over the calls that are not stable: true if it ends with its flag set.
  unfoldable pub no_conflict : Call → List Call → Bool
  no_conflict call [] = true
  no_conflict call (e ∷ es) =
      if U.fast_is_reachable_local call e then false else no_conflict call es

  -- The results of localHandler: the handler, and its three reference arguments with the call.
  pub record LocalResult : Type 0 where
    pub handler : Handler U
    pub call : Call
    pub flag : Bool
    pub permiss : Bool
    pub stableindex : ℕ

  unfoldable pub execute_local : Handler U → Call → LocalResult
  execute_local s call =
      let vc = tick s.vector_clock s.node_id in
      let stamped = stamp_loop s.number_of_nodes 0 s.number_of_nodes vc call.call_vector_clock in
      let call' = record call { call_vector_clock = stamped.0 } in
      let executed = record s {
        vector_clock = vc;
        execution_list = s.execution_list ++ (call' ∷ []);
        current_state = U.update_current_state s.current_state call';
        current_index = s.current_index + 1;
      } in
      record {
        handler = if stamped.1 then executed else record s { vector_clock = vc };
        call = call';
        flag = true;
        permiss = true;
        stableindex = s.stable_index;
      }

  abbrev pub refuse : Handler U → Call → Bool → LocalResult
  refuse s call permiss = record {
    handler = s;
    call = call;
    flag = false;
    permiss = permiss;
    stableindex = s.stable_index;
  }

  unfoldable pub local_handler : Handler U → Call → LocalResult
  local_handler s call =
      if U.locally_permissibility s.current_state call
      then if no_conflict call (drop s.stable_index s.execution_list)
        then execute_local s call
        else refuse s call true
      else refuse s call false

  -- The first loop of queueHandler, over `priorityQueue.size()` rounds that all ask about the top.
  unfoldable pub behind_top : ℕ → Call → List Call → Bool
  behind_top zero call q = false
  behind_top (suc rounds) call [] = false
  behind_top (suc rounds) call (top ∷ q) =
      if is_after (U.compare_vector_clocks call.call_vector_clock top.call_vector_clock)
      then true
      else behind_top rounds call (top ∷ q)

  -- Its second loop, over the calls that are not stable.
  unfoldable pub behind_pending : Call → List Call → Bool
  behind_pending call [] = false
  behind_pending call (e ∷ es) =
      if U.fast_is_reachable_remote call e
        && is_after (U.compare_vector_clocks call.call_vector_clock e.call_vector_clock)
      then true
      else behind_pending call es

  -- The search for the place of a remote call among the calls that are not stable, and the insertion.
  unfoldable pub insert_call : Call → List Call → List Call
  insert_call call [] = call ∷ []
  insert_call call (e ∷ es) =
      if U.fast_is_reachable_remote call e then call ∷ e ∷ es else e ∷ insert_call call es

  abbrev pub ack_of : Call → Call → Call
  ack_of before call = record before {
    type = codes "Ack";
    node_id = call.node_id;
    call_id = call.call_id;
    value1 = call.value1;
  }

  -- remoteHandler's part for a call that is not queued, up to its `return true`.
  unfoldable pub execute_remote : Handler U → Call → Handler U
  execute_remote s call =
      let ack = ack_of s.send_ack_call call in
      record s {
        execution_list =
            take s.stable_index s.execution_list
            ++ insert_call call (drop s.stable_index s.execution_list);
        current_index = s.current_index + 1;
        current_state = U.update_current_state s.current_state call;
        vector_clock = tick s.vector_clock call.node_id;
        send_ack = true;
        send_ack_call = ack;
        send_ack_call_list = s.send_ack_call_list ++ (ack ∷ []);
        ackindex = s.ackindex + 1;
      }

  -- Does the object's acknowledgement count of `call` reach the quorum that this node waits for?
  -- The program's `quorum` is an int that may fall below zero, where the test holds: so it does here,
  -- with the subtraction stopped at 0, since a count is at least 0.
  unfoldable pub acked : Handler U → ℕ → Call → Bool
  acked s quorum call =
      if call.node_id == s.node_id
      then leb quorum (s.acks call.node_id call.call_id)
      else leb (quorum - 1) (s.acks call.node_id call.call_id)

  -- countFailed
  unfoldable pub count_failed : List Bool → ℕ
  count_failed [] = 0
  count_failed (true ∷ bs) = suc (count_failed bs)
  count_failed (false ∷ bs) = count_failed bs

  unfoldable pub quorum_of : Handler U → ℕ
  unfolding count_failed
  quorum_of s = s.number_of_nodes - 1 - count_failed s.node_failed

  -- One call becomes stable.
  unfoldable pub commit : Handler U → Call → Handler U
  commit s call = record s {
    last_call_stable =
        if (call.node_id == s.node_id) && (call.call_id + 1 == s.expected_calls / s.number_of_nodes)
        then true
        else s.last_call_stable;
    stable_state = U.update_stable_state s.stable_state call;
    stable_index = s.stable_index + 1;
    waittobestable = s.waittobestable + 1;
  }

  -- The loop of stabilizerWithAck over the calls from `stable_state.index` on, with `can_unqued`.
  unfoldable pub stabilize_loop : ℕ → List Call → Handler U → Bool → Handler U × Bool
  stabilize_loop quorum [] s can = (s, can)
  stabilize_loop quorum (call ∷ calls) s can =
      if acked s quorum call then stabilize_loop quorum calls (commit s call) true else (s, can)

  module _ (Q : PriorityQueue) where
    unfoldable pub queue_handler : Bool → Handler U → Call → Handler U × Bool
    queue_handler add s call =
        let queued =
          if add then record s { priority_queue = Q.push_heap call s.priority_queue } else s in
        if behind_top (length s.priority_queue) call s.priority_queue
        then (queued, true)
        else if behind_pending call (drop s.stable_index s.execution_list)
        then (queued, true)
        else (s, false)

    unfoldable pub remote_handler : Bool → Handler U → Call → Handler U × Bool
    remote_handler add s call =
        let (s', queued) = queue_handler add s call in
        if queued then (s', false) else (execute_remote s' call, true)

    -- `priorityQueue.pop()`
    unfoldable pub pop : Handler U → Handler U
    pop s = elim s.priority_queue [
      | [] ↦ s
      | top ∷ rest ↦ record s { priority_queue = Q.pop_heap top rest }
    ]

    -- `while (!priorityQueue.empty())`: a round that goes on pops one call.
    unfoldable pub drain_loop : ℕ → Handler U → Handler U
    drain_loop zero s = s
    drain_loop (suc fuel) s = elim s.priority_queue [
      | [] ↦ s
      | top ∷ rest ↦
          let (s', removed) = remote_handler false s top in
          let again = drain_loop fuel (pop s') in if removed then again else s'
    ]

    unfoldable pub drain : Handler U → Handler U
    unfolding drain_loop
    drain s = drain_loop (length s.priority_queue) s

    unfoldable pub stabilizer_with_ack : Handler U → Handler U
    stabilizer_with_ack s =
        let (s', can_unqued) =
          stabilize_loop (quorum_of s) (drop s.stable_index s.execution_list) s false in
        if can_unqued then drain s' else s'

    unfoldable pub update_acks_table : Handler U → Call → Handler U
    update_acks_table s call =
        let s' = record s { acks = count_ack s.acks call.node_id call.call_id } in
        if acked s' (quorum_of s) call then stabilizer_with_ack s' else s'

    unfoldable pub internal_downstream_execute : Handler U → Call → Handler U
    internal_downstream_execute s call = let (s', executed) = remote_handler true s call in drain s'
