-- ===== src/Driver/Bounds.antt =====
-- tcp/main-replication-protocols.cpp: the 256 bytes that `payload` points to, under the writes of serializeCalls
-- and the resizes of `payload_buffer`.
use optimistic_replication.Prelude.{
  ℕ, zero, suc, ◌+◌, ◌-◌, ◌*◌, ◌≤◌, ◌<◌, ◌≡◌, ◌∙◌, Bool, inl, inr, List, [], ◌∷◌, ◌++◌, Bytes,
  length, length-append, length-take, length-set, length-resize, get_elem?, set, resize, take, drop,
  ltb, Bool-cases, Option-cases, arith,
}
use optimistic_replication.Call.{Call, zeros}
use native.Mathlib.Decide.{dec_le}
use optimistic_replication.Wire.{le_bytes, payload, serialize_calls}
use optimistic_replication.Wire.RoundTrip.{length-payload, length-le_bytes}
use optimistic_replication.UseCase.{UseCase}
use optimistic_replication.Hamsou.{Handler}
use optimistic_replication.Hamsou.Ops.{stamp_loop, execute_local, tick}
use optimistic_replication.Hamsou.Splits.{length-zeros}
use optimistic_replication.Driver.{PayloadBuffer, resize_buffer, message}
use optimistic_replication.Network.Delivery.{message_lem}

-- The bytes that serializeCalls announces for a call, and those that the buffer has.
abbrev pub message_size : Call → ℕ
message_size c = 57 + length c.type + 4 * length c.call_vector_clock

abbrev pub capacity : ℕ
capacity = 256

-- The buffer owns its 256 bytes, and its size does not exceed them.
pub record IsBuffer (b : PayloadBuffer) : Type 0 where
  pub memory : length b.memory ≡ capacity
  pub size : b.size ≤ capacity

-- A message that is the encoding of some call up to its announced end.
pub record IsWhole (m : Bytes) : Type 0 where
  pub call : Call
  pub rest : Bytes
  pub bytes : m ≡ le_bytes 8 (length (payload call)) ++ (payload call ++ rest)
  pub announced : length m ≡ message_size call
  pub small : length m ≤ capacity

length-drop : (n : ℕ) (xs : Bytes) → length (drop n xs) ≡ length xs - n
length-drop zero xs = omega arith
length-drop (suc n) [] = omega arith
length-drop (suc n) (x ∷ xs) = omega (arith, length-drop n xs)

length-serialize_calls :
    (c : Call) (memory : Bytes)
    → message_size c ≤ length memory
    → (length (serialize_calls c memory).0 ≡ length memory)
      × ((serialize_calls c memory).1 ≡ message_size c)
unfolding serialize_calls
length-serialize_calls c memory h =
    let len = length (payload c) in
    (
      omega (
        arith,
        h,
        length-payload c,
        length-append (le_bytes 8 len) (payload c ++ drop (8 + len) memory),
        length-append (payload c) (drop (8 + len) memory),
        length-le_bytes 8 len,
        length-drop (8 + len) memory,
      ),
      omega (arith, length-payload c),
    )

pub resize_buffer-IsBuffer :
    (b : PayloadBuffer) (n : ℕ) → n ≤ capacity → IsBuffer b → IsBuffer (resize_buffer b n)
unfolding resize_buffer
resize_buffer-IsBuffer b n h v = record {
  memory = elim (Bool-cases (ltb b.size n)) [
    | inr e ↦ rw e v.memory
    | inl e ↦ rw e (
        omega (
          arith,
          v.memory,
          v.size,
          below e,
          h,
          length-append (take b.size b.memory) (zeros (n - b.size) ++ drop n b.memory),
          length-append (zeros (n - b.size)) (drop n b.memory),
          length-take b.size b.memory (omega (arith, v.memory, v.size)),
          length-zeros (n - b.size),
          length-drop n b.memory,
        ))
  ];
  size = h;
}
  where
    below : ltb b.size n ≡ Bool.true → b.size < n
    below e = ground arith

-- After a call that fits was written and sent, the buffer has its 256 bytes as before.
pub serialize_calls-IsBuffer :
    (c : Call) (b : PayloadBuffer)
    → message_size c ≤ capacity
    → IsBuffer b
    → IsBuffer (
        resize_buffer
          (record b { memory = (serialize_calls c b.memory).0 })
          (serialize_calls c b.memory).1)
serialize_calls-IsBuffer c b h v =
    let (e, f) = length-serialize_calls c b.memory (omega (arith, h, v.memory)) in
    resize_buffer-IsBuffer (record b { memory = (serialize_calls c b.memory).0 })
      (serialize_calls c b.memory).1 (omega (arith, f, h))
      (record { memory = e ∙ v.memory; size = v.size })

-- And its message is whole.
pub message-IsWhole :
    (c : Call) (b : PayloadBuffer) → message_size c ≤ capacity → IsBuffer b → IsWhole (message c b)
unfolding message
message-IsWhole c b h v =
    let (e, f) = length-serialize_calls c b.memory (omega (arith, h, v.memory)) in
    let (rest, g) = message_lem c b in
    let n =
      length-take (serialize_calls c b.memory).1 (serialize_calls c b.memory).0
        (omega (arith, e, f, h, v.memory)) in
    record {
      call = c;
      rest = rest;
      bytes = unfold message in g;
      announced = n ∙ f;
      small = omega (arith, n, f, h);
    }

-- The clock that localHandler writes into a call is no longer than the longer of the call's and the
-- number of nodes.
stamp_loop-le :
    (rounds i n : ℕ) (vc call_vc : List ℕ) (bound : ℕ)
    → n ≤ bound
    → length call_vc ≤ bound
    → length (stamp_loop rounds i n vc call_vc).0 ≤ bound
unfolding stamp_loop
stamp_loop-le zero i n vc call_vc bound h k = k
stamp_loop-le (suc rounds) i n vc call_vc bound h k = elim (Option-cases (get_elem? vc i)) [
  | inl e ↦ rw (e, stamp_loop) k
  | inr (v, e) ↦
      rw (e, stamp_loop)
        (stamp_loop-le rounds (suc i) n vc (set (resize n 0 call_vc) i v) bound h
          (omega (arith, h, length-set (resize n 0 call_vc) i v, length-resize {0} n 0 call_vc)))
]

-- A call that fits with its own clock and with one of an entry for each node.
pub record Fits (n : ℕ) (c : Call) : Type 0 where
  pub own : message_size c ≤ capacity
  pub stamped : 57 + length c.type + 4 * n ≤ capacity

pub execute_local_small :
    (U : UseCase) (s : Handler U) (c : Call)
    → Fits s.number_of_nodes c
    → message_size (execute_local U s c).call ≤ capacity
unfolding execute_local
execute_local_small U s c h = elim (dec_le s.number_of_nodes (length c.call_vector_clock)) [
  | yes p ↦ omega (
    arith,
    h.own,
    stamp_loop-le s.number_of_nodes 0 s.number_of_nodes (tick s.vector_clock s.node_id)
        c.call_vector_clock (length c.call_vector_clock) p (omega arith),
  )
  | no p ↦ omega (
    arith,
    h.stamped,
    stamp_loop-le s.number_of_nodes 0 s.number_of_nodes (tick s.vector_clock s.node_id)
        c.call_vector_clock s.number_of_nodes (omega arith) (omega arith),
  )
]
