-- ===== src/Wire/RoundTrip.antt =====
-- What deserializeCalls reads of what serializeCalls wrote.
use optimistic_replication.Prelude.{
  ℕ, zero, suc, ◌+◌, ◌*◌, ◌/◌, ◌^◌, ◌<◌, ◌≡◌, refl, ap, ◌∙◌, Bool, true, false, not, some, List, [],
  ◌∷◌, ◌++◌, append_assoc, Bytes, ◌==◌, length, length-append, All, arith, subst, take, ◌≤◌,
}
use optimistic_replication.Call.{Call}
use optimistic_replication.Wire.{
  le_bytes, le_value, clock_bytes, bool_byte, payload, serialize_calls, read_bytes, read_int,
  read_clock, deserialize_calls,
}

le_value-le_bytes : (width v : ℕ) → v < 256 ^ width → le_value (le_bytes width v) ≡ v
unfolding le_value le_bytes
le_value-le_bytes zero v h = omega arith
le_value-le_bytes (suc width) v h = omega (arith, le_value-le_bytes width (v / 256) (omega arith))

pub length-le_bytes : (width v : ℕ) → length (le_bytes width v) ≡ width
unfolding le_bytes
length-le_bytes zero v = refl
length-le_bytes (suc width) v = ap suc (length-le_bytes width (v / 256))

read_bytes-append : (xs rest : Bytes) → read_bytes (length xs) (xs ++ rest) ≡ some (xs, rest)
unfolding read_bytes
read_bytes-append [] rest = refl
read_bytes-append (x ∷ xs) rest = rw (read_bytes-append xs rest)

read_int-append : (xs rest : Bytes) → read_int (length xs) (xs ++ rest) ≡ some (le_value xs, rest)
unfolding read_int
read_int-append xs rest = rw (read_bytes-append xs rest)

read_int-le_bytes :
    (width v : ℕ) (rest : Bytes)
    → v < 256 ^ width
    → read_int width (le_bytes width v ++ rest) ≡ some (v, rest)
read_int-le_bytes width v rest h =
    subst (λ n. read_int n (le_bytes width v ++ rest) ≡ some (v, rest)) (length-le_bytes width v)
      (read_int-append (le_bytes width v) rest
        ∙ ap (λ u. some (u, rest)) (le_value-le_bytes width v h))

-- A value that fits an `int` of 32 bits.
abbrev pub IsInt : ℕ → Type 0
IsInt v = v < 256 ^ 4

read_clock-clock_bytes :
    (vs : List ℕ) (rest : Bytes)
    → All IsInt vs
    → read_clock (length vs) (clock_bytes vs ++ rest) ≡ some (vs, rest)
unfolding read_clock clock_bytes
read_clock-clock_bytes [] rest h = refl
read_clock-clock_bytes (v ∷ vs) rest h = rw (
  append_assoc (le_bytes 4 v) (clock_bytes vs) rest,
  read_int-le_bytes 4 v (clock_bytes vs ++ rest) h.0,
  read_clock-clock_bytes vs rest h.1,
)

-- A reader of fewer entries reads the first ones.
read_clock-part :
    (n : ℕ) (vs : List ℕ) (rest : Bytes)
    → n ≤ length vs
    → All IsInt vs
    → (rest' : Bytes) × (read_clock n (clock_bytes vs ++ rest) ≡ some (take n vs, rest'))
unfolding read_clock clock_bytes
read_clock-part zero vs rest k h = (clock_bytes vs ++ rest, refl)
read_clock-part (suc n) [] rest k h = absurd (omega arith)
read_clock-part (suc n) (v ∷ vs) rest k h =
    let (rest', e) = read_clock-part n vs rest (omega arith) h.1 in
    (
      rest',
      rw (
        append_assoc (le_bytes 4 v) (clock_bytes vs) rest,
        read_int-le_bytes 4 v (clock_bytes vs ++ rest) h.0,
        e,
      ),
    )

-- The fields of the call fit what carries them.
pub record IsEncodable (call : Call) : Type 0 where
  pub type : length call.type < 256 ^ 8
  pub value1 : IsInt call.value1
  pub value2 : IsInt call.value2
  pub value3 : IsInt call.value3
  pub value4 : IsInt call.value4
  pub node_id : IsInt call.node_id
  pub call_id : IsInt call.call_id
  pub clock : All IsInt call.call_vector_clock

payload_then :
    (call : Call) (rest : Bytes)
    → payload call ++ rest
      ≡ le_bytes 8 (length call.type)
        ++ (call.type
            ++ (le_bytes 4 call.value1
                ++ (le_bytes 4 call.value2
                    ++ (le_bytes 4 call.value3
                        ++ (le_bytes 4 call.value4
                            ++ (le_bytes 4 call.node_id
                                ++ (le_bytes 4 call.call_id
                                    ++ (bool_byte call.stable
                                        ∷ (clock_bytes call.call_vector_clock ++ rest)))))))))
unfolding payload
payload_then call rest = simp append_assoc

read_flag : (b : Bool) (rest : Bytes) → read_int 1 (bool_byte b ∷ rest) ≡ some (bool_byte b, rest)
unfolding read_int read_bytes le_value
read_flag true rest = refl
read_flag false rest = refl

flag_back : (b : Bool) → not (bool_byte b == 0) ≡ b
flag_back true = refl
flag_back false = refl

pub deserialize-payload :
    (call : Call) (len : ℕ) (rest : Bytes)
    → IsEncodable call
    → len < 256 ^ 8
    → deserialize_calls (length call.call_vector_clock) (le_bytes 8 len ++ (payload call ++ rest))
      ≡ some (record call { applied = false })
unfolding deserialize_calls
deserialize-payload call len rest e h = rw (
  read_int-le_bytes 8 len (payload call ++ rest) h,
  payload_then call rest,
  read_int-le_bytes 8 (length call.type) _ e.type,
  read_bytes-append call.type,
  read_int-le_bytes 4 call.value1 _ e.value1,
  read_int-le_bytes 4 call.value2 _ e.value2,
  read_int-le_bytes 4 call.value3 _ e.value3,
  read_int-le_bytes 4 call.value4 _ e.value4,
  read_int-le_bytes 4 call.node_id _ e.node_id,
  read_int-le_bytes 4 call.call_id _ e.call_id,
  read_flag call.stable,
  read_clock-clock_bytes call.call_vector_clock rest e.clock,
  flag_back call.stable,
)

-- The same where the reader expects clocks that may be shorter.
pub deserialize-part :
    (n : ℕ) (call : Call) (len : ℕ) (rest : Bytes)
    → IsEncodable call
    → len < 256 ^ 8
    → n ≤ length call.call_vector_clock
    → deserialize_calls n (le_bytes 8 len ++ (payload call ++ rest))
      ≡ some (record call { call_vector_clock = take n call.call_vector_clock; applied = false })
unfolding deserialize_calls
deserialize-part n call len rest e h k =
    let (rest', f) = read_clock-part n call.call_vector_clock rest k e.clock in
    rw (
      read_int-le_bytes 8 len (payload call ++ rest) h,
      payload_then call rest,
      read_int-le_bytes 8 (length call.type) _ e.type,
      read_bytes-append call.type,
      read_int-le_bytes 4 call.value1 _ e.value1,
      read_int-le_bytes 4 call.value2 _ e.value2,
      read_int-le_bytes 4 call.value3 _ e.value3,
      read_int-le_bytes 4 call.value4 _ e.value4,
      read_int-le_bytes 4 call.node_id _ e.node_id,
      read_int-le_bytes 4 call.call_id _ e.call_id,
      read_flag call.stable,
      f,
      flag_back call.stable,
    )

pub length-clock_bytes : (vs : List ℕ) → length (clock_bytes vs) ≡ 4 * length vs
unfolding clock_bytes
length-clock_bytes [] = omega arith
length-clock_bytes (v ∷ vs) = omega (
  arith,
  length-append (le_bytes 4 v) (clock_bytes vs),
  length-le_bytes 4 v,
  length-clock_bytes vs,
)

pub length-payload :
    (call : Call)
    → length (payload call) ≡ 33 + length call.type + 4 * length call.call_vector_clock
unfolding payload
length-payload call =
    simp (length-append, length-le_bytes) (omega (arith, length-clock_bytes call.call_vector_clock))

-- A call whose fields fit their integers, and whose text and clock are short enough that the length of
-- the message fits 64 bits, is read back from any buffer that it was written to by a node that expects
-- clocks of its length: all fields but `applied`, which is not sent and comes back false. The number of
-- bytes to send is 57 more than the text's length and four for each clock entry.
pub deserialize-serialize :
    (call : Call) (buffer : Bytes)
    → IsEncodable call
    → 33 + length call.type + 4 * length call.call_vector_clock < 256 ^ 8
    → (deserialize_calls (length call.call_vector_clock) (serialize_calls call buffer).0
        ≡ some (record call { applied = false }))
      × ((serialize_calls call buffer).1
          ≡ 57 + length call.type + 4 * length call.call_vector_clock)
unfolding serialize_calls
deserialize-serialize call buffer e h = (
  deserialize-payload call (length (payload call)) _ e (rw (length-payload call) h),
  omega (arith, length-payload call),
)
