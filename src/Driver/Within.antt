-- ===== src/Driver/Within.antt =====
-- tcp/main-replication-protocols.cpp: what is sent by a round of the main loop fits its 256 bytes.
use optimistic_replication.Prelude.{
  ℕ, ◌≤◌, ◌≡◌, refl, sym, ap, ◌∙◌, inl, inr, false, ◌&&◌, List, All, All-append, subst,
  Option-cases, length, ltb, get_elem?, arith, All-get_elem?,
}
use optimistic_replication.Call.{Call, zeros}
use optimistic_replication.UseCase.{UseCase}
use optimistic_replication.Hamsou.{Handler}
use optimistic_replication.Hamsou.Run.{if_keeps}
use optimistic_replication.Driver.{Driver, broadcast_call}
use optimistic_replication.Driver.Loop.{send_next_ack, wake, settle}
use optimistic_replication.Driver.Acks.{Keeps, Keeps-same, IsAck}
use optimistic_replication.Driver.Bounds.{
  capacity, message_size, IsBuffer, IsWhole, Fits, serialize_calls-IsBuffer, message-IsWhole,
}

-- The clock of every acknowledgement: that of a call made without arguments.
abbrev pub ack_clock : List ℕ
ack_clock = zeros 31

-- What holds of the handler: its number of nodes, and its acknowledgements.
pub record HandlerFits {U : UseCase} (n : ℕ) (s : Handler U) : Type 0 where
  pub nodes : s.number_of_nodes ≡ n
  pub next : s.send_ack_call.call_vector_clock ≡ ack_clock
  pub acks : All (IsAck ack_clock) s.send_ack_call_list

-- What holds of the loop.
pub record StaysWithin {U : UseCase} (n : ℕ) (d : Driver U) : Type 0 where
  pub buffer : IsBuffer d.buffer
  pub handler : HandlerFits n d.hdl
  pub left : All (Fits n) d.left
  pub sends : All IsWhole d.broadcasts

HandlerFits-Keeps :
    {U : UseCase} (n : ℕ) (s t : Handler U) → Keeps s t → HandlerFits n s → HandlerFits n t
HandlerFits-Keeps n s t k h = record {
  nodes = k.nodes ∙ h.nodes;
  next = k.clock ∙ h.next;
  acks = subst (All (IsAck ack_clock)) (sym k.list) (
      All-append (IsAck ack_clock) s.send_ack_call_list k.more h.acks
        (subst (λ vc. All (IsAck vc) k.more) h.next k.acks));
}

ack_small : (c : Call) → IsAck ack_clock c → message_size c ≤ capacity
ack_small c a = omega (arith, ap length a.ack_type, ap length a.ack_clock)

module _ {U : UseCase} (n : ℕ) where
  pub broadcast_call-StaysWithin :
      (d : Driver U) (c : Call)
      → message_size c ≤ capacity
      → StaysWithin n d
      → StaysWithin n (broadcast_call d c)
  unfolding broadcast_call
  broadcast_call-StaysWithin d c h v = record {
    buffer = serialize_calls-IsBuffer c d.buffer h v.buffer;
    handler = v.handler;
    left = v.left;
    sends = All-append IsWhole d.broadcasts _ v.sends (message-IsWhole c d.buffer h v.buffer, tt);
  }

  -- Another handler that keeps the acknowledgements, and calls that are among those left.
  pub StaysWithin-next :
      (d t : Driver U)
      → Keeps d.hdl t.hdl
      → t.buffer ≡ d.buffer
      → All (Fits n) t.left
      → t.broadcasts ≡ d.broadcasts
      → StaysWithin n d
      → StaysWithin n t
  StaysWithin-next d t k b l s v = record {
    buffer = subst IsBuffer (sym b) v.buffer;
    handler = HandlerFits-Keeps n d.hdl t.hdl k v.handler;
    left = l;
    sends = subst (All IsWhole) (sym s) v.sends;
  }

  pub settle-StaysWithin : (d : Driver U) → StaysWithin n d → StaysWithin n (settle U d)
  unfolding settle
  settle-StaysWithin d v =
      StaysWithin-next d _ (Keeps-same d.hdl _ refl refl refl) refl v.left refl v

  pub wake-StaysWithin : (d : Driver U) → StaysWithin n d → StaysWithin n (wake U d)
  unfolding wake
  wake-StaysWithin d v =
      if_keeps (StaysWithin n) (d.wait && ltb d.stableindex d.hdl.waittobestable)
        (StaysWithin-next d (record d { wait = false }) (Keeps-same d.hdl _ refl refl refl) refl
          v.left refl v)
        v

  pub left-wake : (d : Driver U) → (wake U d).left ≡ d.left
  unfolding wake
  left-wake d =
      if_keeps (λ (t : Driver U). t.left ≡ d.left)
        (d.wait && ltb d.stableindex d.hdl.waittobestable) refl refl

  pub send_next_ack-StaysWithin :
      (d : Driver U)
      → StaysWithin n d
      → StaysWithin n (send_next_ack U d) × ((send_next_ack U d).left ≡ d.left)
  unfolding send_next_ack broadcast_call
  send_next_ack-StaysWithin d v =
      elim (Option-cases (get_elem? d.hdl.send_ack_call_list d.ack_index)) [
        | inl e ↦ rw (e, send_next_ack) (v, refl)
        | inr (c, e) ↦
            let a = All-get_elem? (IsAck ack_clock) _ d.ack_index c v.handler.acks e in
            let w = broadcast_call-StaysWithin d c (ack_small c a) v in
            rw (e, send_next_ack)
              (
                StaysWithin-next (broadcast_call d c) _ (Keeps-same d.hdl _ refl refl refl) refl
                    v.left refl w,
                refl,
              )
      ]
