-- ===== src/Driver/Ecros.antt =====
-- tcp/main-replication-protocols.cpp: the main loop under ECROS, where the handler is that of
-- protocol-ecros.cpp and a call is always sent. The macro FAILURE_MODE is left out.
use optimistic_replication.Prelude.{
  ℕ, suc, ◌+◌, ◌≡◌, refl, Bool, true, false, not, ◌&&◌, none, some, List, [], ◌∷◌, ◌++◌, Bytes,
  if◌then◌else◌, ltb, get_elem?,
}
use optimistic_replication.Call.{Call, type_is}
use optimistic_replication.Wire.{serialize_calls}
use optimistic_replication.Ecros.{EcrosCase, HashSet, EcrosHandler}
use optimistic_replication.Ecros.Ops.{exe_local}
use optimistic_replication.Driver.{PayloadBuffer, resize_buffer, message}

pub record EcrosDriver (E : EcrosCase) : Type 0 where
  pub hdl : EcrosHandler E
  pub left : List Call
  pub expected_calls : ℕ
  pub sent : ℕ
  pub ack_index : ℕ
  pub buffer : PayloadBuffer
  pub broadcasts : List Bytes
  pub shutdown_requested : Bool

module _ (E : EcrosCase) where
  unfoldable pub broadcast_call : EcrosDriver E → Call → EcrosDriver E
  broadcast_call d call =
      let (written, length) = serialize_calls call d.buffer.memory in
      record d {
        buffer = resize_buffer (record (d.buffer) { memory = written }) length;
        broadcasts = d.broadcasts ++ (message call d.buffer ∷ []);
      }

  unfoldable pub send_next_ack : EcrosDriver E → EcrosDriver E
  send_next_ack d = elim (get_elem? d.hdl.send_ack_call_list d.ack_index) [
    | none ↦ d
    | some ack ↦ record (broadcast_call d ack) { ack_index = suc d.ack_index }
  ]

  unfoldable pub settle : EcrosDriver E → EcrosDriver E
  settle d = record d { hdl = record (d.hdl) { last_call_stable = false } }

  module _ (H : HashSet) where
    -- localHandler and the broadcast of what it left in the call.
    unfoldable pub issue_call : EcrosDriver E → Call → List Call → EcrosDriver E
    issue_call d call rest =
        let (hdl, call') = exe_local E H d.hdl call in
        let sending = broadcast_call (record d { hdl = hdl }) call' in
        record sending { sent = d.sent + 1; left = rest }

    unfoldable pub round_of : Bool → EcrosDriver E → EcrosDriver E
    round_of due d =
        let d' = send_next_ack d in
        elim d.left [
          | [] ↦ settle d'
          | call ∷ rest ↦
              if not due
              then d'
              else if type_is call "Read"
              then settle (record d' { left = rest })
              else settle (issue_call d' call rest)
        ]

    -- The loop's condition and one round.
    unfoldable pub loop : Bool → EcrosDriver E → EcrosDriver E
    loop due d =
        if not d.shutdown_requested && ltb d.hdl.waittobestable d.expected_calls
        then round_of due d
        else d

    -- A call that the object skips leaves the handler as it was, but is broadcast all the same and counted
    -- as sent, with the clock that it had in the workload.
    pub skipped_call_is_sent :
        (d : EcrosDriver E) (call : Call) (rest : List Call)
        → E.should_skip d.hdl.obj call ≡ true
        → ((issue_call d call rest).hdl ≡ d.hdl)
          × ((issue_call d call rest).broadcasts ≡ d.broadcasts ++ (message call d.buffer ∷ []))
          × ((issue_call d call rest).sent ≡ d.sent + 1)
    unfolding issue_call exe_local broadcast_call
    skipped_call_is_sent d call rest h = simp h (refl, refl, refl)
