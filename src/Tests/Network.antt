-- ===== src/Tests/Network.antt =====
-- Messages between two nodes.
use optimistic_replication.Prelude.{
  ℕ, zero, suc, ◌<◌, ◌≤◌, ◌≡◌, refl, ap, Bool, true, false, some, List, [], ◌∷◌, ◌++◌, length, All,
  take, arith,
}
use optimistic_replication.Call.{Call, zeros}
use optimistic_replication.UseCase.Set.{set_case}
use optimistic_replication.Hamsou.{set_vars}
use optimistic_replication.Hamsou.Run.{receive_call}
use optimistic_replication.Wire.RoundTrip.{IsEncodable}
use optimistic_replication.Wire as Wire
use optimistic_replication.Driver.{PayloadBuffer, message}
use optimistic_replication.Network.Socket.{to_string}
use optimistic_replication.Network.Socket as Socket
use optimistic_replication.Network.Layer.{Answers, write}
use optimistic_replication.Network.Receive.{Node, receive, read_message}
use optimistic_replication.Network.Framing.{Serves}
use optimistic_replication.Network.Delivery.{receive-message, receive-prefix, partial_send_misread}
use optimistic_replication.Tests.Data.{newest_first, add_one, ack_add}

abbrev valid : Call → Bool
valid c = true

abbrev node : Node set_case
node = record { initcounter = 0; handler = set_vars set_case 2 2 4 }

abbrev buffer : PayloadBuffer
buffer = record { memory = zeros 80; size = 80 }

-- The system answers with one byte at each call.
abbrev ones : ℕ → List ℕ
ones zero = []
ones (suc n) = 1 ∷ ones n

abbrev byte_by_byte : Answers
byte_by_byte = record { header = ones 9; content = ones 100 }

ones-positive : (n : ℕ) → All (λ v. 0 < v) (ones n)
ones-positive zero = tt
ones-positive (suc n) = (omega arith, ones-positive n)

length-ones : (n : ℕ) → length (ones n) ≡ n
length-ones zero = refl
length-ones (suc n) = ap suc (length-ones n)

ones-Serves : (n size : ℕ) → size ≤ n → Serves (ones n) size
ones-Serves n size h = record {
  positive = ones-positive n;
  enough = omega (arith, h, length-ones n);
}

add_one-IsEncodable : IsEncodable add_one
add_one-IsEncodable = omega arith

-- The message has 68 bytes, and its length two digits.
sizes :
    (length (message add_one buffer) ≡ 68)
    × (length (to_string (length (message add_one buffer)) ++ (0 ∷ [])) ≡ 3)
unfolding message Wire.serialize_calls Wire.payload Wire.le_bytes Wire.clock_bytes to_string
    Socket.to_string_loop
sizes = (refl, refl)

two_nodes : length add_one.call_vector_clock ≡ node.handler.number_of_nodes
unfolding set_vars
two_nodes = refl

whole_clock_arrives :
    receive set_case newest_first valid 1
      (ones 100)
      node
      (write byte_by_byte (message add_one buffer) ++ (9 ∷ []))
    ≡ some (
      record node {
        handler =
            receive_call set_case newest_first valid node.handler
              (record add_one { applied = false });
      },
      9 ∷ [],
    )
whole_clock_arrives =
    receive-message set_case newest_first valid 1 node add_one buffer byte_by_byte (ones 100)
      (9 ∷ []) add_one-IsEncodable (omega arith) two_nodes
      (ones-Serves 9 _ (omega (arith, sizes.1))) (ones-Serves 100 _ (omega (arith, sizes.0)))
      (ones-Serves 100 _ (omega (arith, sizes.0)))

-- An acknowledgement has a clock of 31 entries, of which a node of two takes two.
abbrev full_buffer : PayloadBuffer
full_buffer = record { memory = zeros 256; size = 256 }

ack_add-IsEncodable : IsEncodable ack_add
ack_add-IsEncodable = omega arith

ack_sizes :
    (length (message ack_add full_buffer) ≡ 184)
    × (length (to_string (length (message ack_add full_buffer)) ++ (0 ∷ [])) ≡ 4)
unfolding message Wire.serialize_calls Wire.payload Wire.le_bytes Wire.clock_bytes to_string
    Socket.to_string_loop
ack_sizes = (refl, refl)

fewer_nodes : node.handler.number_of_nodes ≤ length ack_add.call_vector_clock
unfolding set_vars
fewer_nodes = omega arith

abbrev by_single_bytes : Answers
by_single_bytes = record { header = ones 9; content = ones 200 }

receive-prefix_example :
    receive set_case newest_first valid 1
      (ones 200)
      node
      (write by_single_bytes (message ack_add full_buffer) ++ (9 ∷ []))
    ≡ some (
      record node {
        handler = receive_call set_case newest_first valid node.handler (record ack_add {
          call_vector_clock = take node.handler.number_of_nodes ack_add.call_vector_clock;
          applied = false;
        });
      },
      9 ∷ [],
    )
receive-prefix_example =
    receive-prefix set_case newest_first valid 1 node ack_add full_buffer by_single_bytes (ones 200)
      (9 ∷ []) ack_add-IsEncodable (omega arith) fewer_nodes
      (ones-Serves 9 _ (omega (arith, ack_sizes.1)))
      (ones-Serves 200 _ (omega (arith, ack_sizes.0)))
      (ones-Serves 200 _ (omega (arith, ack_sizes.0)))

-- Two bytes of three were sent; the first of the next message takes the place of the third.
abbrev two_bytes : Answers
two_bytes = record { header = ones 9; content = 2 ∷ [] }

header_size : length (to_string 3 ++ (0 ∷ [])) ≡ 2
unfolding to_string Socket.to_string_loop
header_size = refl

partial_send_misread_example :
    read_message
      (ones 9)
      (write two_bytes ((5 ∷ 6 ∷ []) ++ (7 ∷ [])) ++ ((49 ∷ []) ++ (0 ∷ 8 ∷ [])))
    ≡ some ((5 ∷ 6 ∷ []) ++ (49 ∷ []), 0 ∷ 8 ∷ [])
partial_send_misread_example =
    partial_send_misread two_bytes (ones 9) 1 (5 ∷ 6 ∷ []) (7 ∷ []) (49 ∷ []) (0 ∷ 8 ∷ []) refl refl
      (omega arith) refl (ones-Serves 9 _ (omega (arith, header_size)))
      (ones-Serves 9 _ (omega arith))
