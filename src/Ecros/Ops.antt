-- ===== src/Ecros/Ops.antt =====
-- protocol-ecros.cpp: exeLocal, which is all of localHandler, the part of exeRemote up to the edges of the
-- new call, handleAckAndMaybeStabilize and commitStableCalls.
use optimistic_replication.Prelude.{
  ℕ, zero, suc, ◌+◌, ◌-◌, ◌/◌, Bool, true, not, ◌&&◌, ◌||◌, Option, none, some, List, [], ◌∷◌, ◌++◌,
  codes, ltb, leb, ◌==◌, if◌then◌else◌, get_elem?, set, keep_if,
}
use optimistic_replication.Call.{Call}
use optimistic_replication.Hamsou.{count_ack}
use optimistic_replication.Ecros.{EcrosCase, HashSet, Edge, EcrosHandler}
use optimistic_replication.Ecros.Clocks.{happened_before, concurrent}

-- `vc[node_id]++`: the index is the node's number itself. Out of range it is undefined in the source,
-- and changes nothing here.
unfoldable pub tick_at : List ℕ → ℕ → List ℕ
tick_at vc node = elim (get_elem? vc node) [ none ↦ vc | some v ↦ set vc node (v + 1) ]

-- `vc[i] = std::max(vc[i], clock[i])` for the first `n` entries.
unfoldable pub merge : ℕ → List ℕ → List ℕ → List ℕ
merge zero vc clock = vc
merge (suc n) [] clock = []
merge (suc n) (v ∷ vc) [] = v ∷ vc
merge (suc n) (v ∷ vc) (c ∷ clock) = (if ltb v c then c else v) ∷ merge n vc clock

-- `*p = call`
unfoldable pub store : (ℕ → Call) → ℕ → Call → ℕ → Call
store heap p call q = if q == p then call else heap q

-- The call that an acknowledgement names, while it is not stable.
unfoldable pub is_acknowledged : Call → Call → Bool
is_acknowledged ack c = (c.node_id == ack.node_id) && (c.call_id == ack.call_id) && not c.stable

-- The loop over `calls` up to its `break`: the first such call.
unfoldable pub find_acknowledged : (ℕ → Call) → Call → List ℕ → Option ℕ
find_acknowledged heap ack [] = none
find_acknowledged heap ack (p ∷ ps) =
    if is_acknowledged ack (heap p) then some p else find_acknowledged heap ack ps

module _ (E : EcrosCase) where
  -- The edges that exeLocal adds for the new call `cptr`, in their order.
  unfoldable pub local_edges : ℕ → (ℕ → Call) → ℕ → List ℕ → List Edge
  local_edges n heap cptr [] = []
  local_edges n heap cptr (v ∷ vs) =
      let rest = local_edges n heap cptr vs in
      let a = heap v in
      let c = heap cptr in
      let there =
        if happened_before n a.call_vector_clock c.call_vector_clock && not (E.seq_commutative a c)
        then record { from = v; to = cptr; type = codes "hb" } ∷ []
        else [] in
      let back =
        if happened_before n c.call_vector_clock a.call_vector_clock && not (E.seq_commutative c a)
        then record { from = cptr; to = v; type = codes "hb" } ∷ []
        else [] in
      if v == cptr then rest else there ++ (back ++ rest)

  -- The edge that exeRemote adds between the call `v` and the new call, if any.
  unfoldable pub remote_edge : ℕ → (ℕ → Call) → ℕ → ℕ → List Edge
  remote_edge n heap new_ptr v =
      let a = heap v in
      let c = heap new_ptr in
      if happened_before n a.call_vector_clock c.call_vector_clock && not (E.seq_commutative a c)
      then record { from = v; to = new_ptr; type = codes "hb" } ∷ []
      else if happened_before n c.call_vector_clock a.call_vector_clock
          && not (E.seq_commutative c a)
      then record { from = new_ptr; to = v; type = codes "hb" } ∷ []
      else if concurrent n a.call_vector_clock c.call_vector_clock
      then if E.resolution c a == 60
        then record { from = new_ptr; to = v; type = codes "co" } ∷ []
        else if E.resolution c a == 62
        then record { from = v; to = new_ptr; type = codes "co" } ∷ []
        else if (E.resolution a c == 84) && not (E.commutative a c)
        then if E.idcmp c a == 60
          then record { from = new_ptr; to = v; type = codes "ao" } ∷ []
          else record { from = v; to = new_ptr; type = codes "ao" } ∷ []
        else []
      else []

  unfoldable pub remote_edges : ℕ → (ℕ → Call) → ℕ → List ℕ → List Edge
  remote_edges n heap new_ptr [] = []
  remote_edges n heap new_ptr (v ∷ vs) =
      let rest = remote_edges n heap new_ptr vs in
      if (v == new_ptr) || (heap v).stable then rest else remote_edge n heap new_ptr v ++ rest

  -- One round of commitStableCalls.
  unfoldable pub commit_call : EcrosHandler E → ℕ → EcrosHandler E
  commit_call s c = record s {
    calls = keep_if (λ p. not (p == c)) s.calls;
    edges = keep_if (λ e. not ((e.from == c) || (e.to == c))) s.edges;
  }

  -- A call has its acknowledgements: it is marked, and committed as the only element of `stableCalls`.
  unfoldable pub stabilize : EcrosHandler E → ℕ → EcrosHandler E
  stabilize s p =
      let c = s.heap p in
      let marked = record s {
        heap = store s.heap p (record c { stable = true });
        last_call_stable =
            if (c.node_id == s.node_id) && (c.call_id + 1 == s.expected_calls / s.number_of_nodes)
            then true
            else s.last_call_stable;
      } in
      let committed = commit_call marked p in
      record committed { waittobestable = committed.waittobestable + 1 }

  -- The program's `required` is an int that may fall below zero, where the test holds: so it does here,
  -- with the subtraction stopped at 0.
  unfoldable pub handle_ack_and_maybe_stabilize : EcrosHandler E → Call → EcrosHandler E
  handle_ack_and_maybe_stabilize s ack =
      let s' = record s { ack_counts = count_ack s.ack_counts ack.node_id ack.call_id } in
      let required =
        if ack.node_id == s.node_id then s.number_of_nodes - 1 else s.number_of_nodes - 2 in
      if leb required (s'.ack_counts ack.node_id ack.call_id)
      then elim (find_acknowledged s'.heap ack s'.calls) [ none ↦ s' | some p ↦ stabilize s' p ]
      else s'

  module _ (H : HashSet) where
    -- The handler, and the call with what exeLocal writes into it.
    unfoldable pub exe_local : EcrosHandler E → Call → EcrosHandler E × Call
    exe_local s call =
        let vc = tick_at s.vc s.node_id in
        let call' = record call { call_vector_clock = vc; node_id = s.node_id } in
        let heap = store s.heap s.fresh call' in
        let calls = H.place s.fresh s.calls in
        let executed = record s {
          vc = vc;
          heap = heap;
          fresh = s.fresh + 1;
          calls = calls;
          edges = s.edges ++ local_edges s.number_of_nodes heap s.fresh calls;
          obj = E.apply_call s.obj call';
        } in
        if E.should_skip s.obj call then (s, call) else (executed, call')

    -- exeRemote on a call that is no acknowledgement, before it resolves cycles.
    unfoldable pub enter_remote : EcrosHandler E → Call → EcrosHandler E
    enter_remote s call =
        let heap = store s.heap s.fresh call in
        let calls = H.place s.fresh s.calls in
        record s {
          vc = merge s.number_of_nodes s.vc call.call_vector_clock;
          heap = heap;
          fresh = s.fresh + 1;
          calls = calls;
          edges = s.edges ++ remote_edges s.number_of_nodes heap s.fresh calls;
        }
