-- ===== src/Wire.antt =====
-- serializeCalls and deserializeCalls of protocol-hamsou.cpp. (protocol-ecros.cpp has the same text.)
-- A buffer is a list of bytes; an integer is stored with its lowest byte first.
pub mod RoundTrip
use optimistic_replication.Prelude.{
  ℕ, zero, suc, ◌+◌, ◌*◌, ◌/◌, ◌%◌, Bool, true, false, not, Option, none, some, List, [], ◌∷◌, ◌++◌,
  Bytes, ◌==◌, if◌then◌else◌, length, drop,
}
use optimistic_replication.Call.{Call}

-- The bytes of a value of `width` bytes, and the value of some bytes.
unfoldable pub le_bytes : ℕ → ℕ → Bytes
le_bytes zero v = []
le_bytes (suc width) v = (v % 256) ∷ le_bytes width (v / 256)

unfoldable pub le_value : Bytes → ℕ
le_value [] = 0
le_value (b ∷ bs) = b + 256 * le_value bs

unfoldable pub clock_bytes : List ℕ → Bytes
clock_bytes [] = []
clock_bytes (v ∷ vs) = le_bytes 4 v ++ clock_bytes vs

abbrev pub bool_byte : Bool → ℕ
bool_byte true = 1
bool_byte false = 0

-- What follows the length at the front of the buffer.
unfoldable pub payload : Call → Bytes
payload call =
    le_bytes 8 (length call.type)
    ++ (call.type
        ++ (le_bytes 4 call.value1
            ++ (le_bytes 4 call.value2
                ++ (le_bytes 4 call.value3
                    ++ (le_bytes 4 call.value4
                        ++ (le_bytes 4 call.node_id
                            ++ (le_bytes 4 call.call_id
                                ++ ((bool_byte call.stable ∷ [])
                                    ++ clock_bytes call.call_vector_clock))))))))

-- The buffer after serializeCalls, and its result: the bytes to send, 16 more than it wrote.
unfoldable pub serialize_calls : Call → Bytes → Bytes × ℕ
serialize_calls call buffer =
    let len = length (payload call) in
    (le_bytes 8 len ++ (payload call ++ drop (8 + len) buffer), len + 8 + 2 * 8)

-- Reading past the end of the buffer is undefined in the source: `none`.
infixl 5 ◌>>=◌
abbrev pub ◌>>=◌ {ℓ κ} : {A : Type ℓ} {B : Type κ} → Option A → (A → Option B) → Option B
none >>= f = none
some a >>= f = f a

unfoldable pub read_bytes : ℕ → Bytes → Option (Bytes × Bytes)
read_bytes zero buffer = some ([], buffer)
read_bytes (suc n) [] = none
read_bytes (suc n) (b ∷ bs) = read_bytes n bs >>= λ (xs, rest). some (b ∷ xs, rest)

unfoldable pub read_int : ℕ → Bytes → Option (ℕ × Bytes)
read_int width buffer = read_bytes width buffer >>= λ (xs, rest). some (le_value xs, rest)

unfoldable pub read_clock : ℕ → Bytes → Option (List ℕ × Bytes)
read_clock zero buffer = some ([], buffer)
read_clock (suc n) buffer =
    let later = λ (r : Bytes). read_clock n r in
    read_int 4 buffer >>= λ (v, rest). later rest >>= λ (vs, rest'). some (v ∷ vs, rest')

unfoldable pub deserialize_calls : ℕ → Bytes → Option Call
deserialize_calls number_of_nodes buffer = do
  (len, b) ← read_int 8 buffer
  (type_len, b) ← read_int 8 b
  (type, b) ← read_bytes type_len b
  (value1, b) ← read_int 4 b
  (value2, b) ← read_int 4 b
  (value3, b) ← read_int 4 b
  (value4, b) ← read_int 4 b
  (node_id, b) ← read_int 4 b
  (call_id, b) ← read_int 4 b
  (stable, b) ← read_int 1 b
  (clock, b) ← read_clock number_of_nodes b
  some (record {
    type = type;
    value1 = value1;
    value2 = value2;
    value3 = value3;
    value4 = value4;
    node_id = node_id;
    call_id = call_id;
    stable = not (stable == 0);
    call_vector_clock = clock;
    applied = false;
  })
