-- ===== src/Network/Delivery.antt =====
-- From the broadcast of a call in tcp/main-replication-protocols.cpp to its handling by another node in
-- tcp/ServerConnection.cpp.
use optimistic_replication.Prelude.{
  ℕ, zero, suc, ◌+◌, ◌*◌, ◌/◌, ◌%◌, ◌<◌, ◌≤◌, ◌≡◌, sym, ◌∙◌, ap, inl, inr, Bool, false, some, List,
  [], ◌∷◌, ◌++◌, Bytes, append_assoc, append-nil, Bool-cases, length, codes, eq_bytes, eq_bytes→eq,
  length-append, take, take-all, subst, drop, take-append, drop-append, arith,
}
use optimistic_replication.Call.{Call}
use optimistic_replication.UseCase.{UseCase, PriorityQueue}
use optimistic_replication.Hamsou.Run.{receive_call}
use optimistic_replication.Wire.{le_bytes, payload, serialize_calls}
use optimistic_replication.Wire.RoundTrip.{
  IsEncodable, deserialize-part, length-payload, length-le_bytes,
}
use optimistic_replication.Driver.{PayloadBuffer, message}
use optimistic_replication.Network.Socket.{send_loop, send_string, to_string}
use optimistic_replication.Network.Layer.{Answers, write}
use optimistic_replication.Network.Receive.{c_string, read_message, Node, dispatch, receive}
use optimistic_replication.Network.Framing.{
  Serves, write-Serves, read_message-header, to_string_lem, get_string-append, positive-to_string,
  send_loop-Serves,
}

take-past : (xs ys : Bytes) (n k : ℕ) → n ≡ length xs + k → take n (xs ++ ys) ≡ xs ++ take k ys
take-past [] ys n k h = ap (λ i. take i ys) (omega (arith, h))
take-past (x ∷ xs) ys zero k h = absurd (omega (arith, h))
take-past (x ∷ xs) ys (suc n) k h = ap (◌∷◌ x) (take-past xs ys n k (omega (arith, h)))

-- What the message of a call is: its length, its bytes, and 16 more bytes of the buffer.
pub message_lem :
    (c : Call) (b : PayloadBuffer)
    → (rest : Bytes) × (message c b ≡ le_bytes 8 (length (payload c)) ++ (payload c ++ rest))
unfolding message serialize_calls
message_lem c b =
    let len = length (payload c) in
    let tail = drop (8 + len) b.memory in
    (
      take 16 tail,
      ap (take (len + 8 + 16)) (sym (append_assoc (le_bytes 8 len) (payload c) tail))
          ∙ (take-past (le_bytes 8 len ++ payload c) tail (len + 8 + 16) 16
                (omega (arith, length-append (le_bytes 8 len) (payload c), length-le_bytes 8 len))
              ∙ append_assoc (le_bytes 8 len) (payload c) (take 16 tail)),
    )

length-c_string : (x y : ℕ) (rest : Bytes) → length (c_string (x ∷ y ∷ 0 ∷ rest)) ≤ 2
unfolding c_string
length-c_string zero y rest = omega arith
length-c_string (suc x) zero rest = omega arith
length-c_string (suc x) (suc y) rest = omega arith

-- A length below 65536 has a zero as its third byte, so that its text is none of the words.
length-c_string-le_bytes :
    (len : ℕ) (rest : Bytes) → len < 65536 → length (c_string (le_bytes 8 len ++ rest)) ≤ 2
unfolding le_bytes
length-c_string-le_bytes len rest h =
    let z : len / 256 / 256 % 256 ≡ 0 = omega (arith, h) in
    rw z (length-c_string (len % 256) (len / 256 % 256) _)

c_string-other :
    (len : ℕ) (rest word : Bytes)
    → len < 65536
    → 2 < length word
    → eq_bytes (c_string (le_bytes 8 len ++ rest)) word ≡ false
c_string-other len rest word h w =
    elim (Bool-cases (eq_bytes (c_string (le_bytes 8 len ++ rest)) word)) [
      | inl e ↦ absurd (differ (eq_bytes→eq _ word e))
      | inr e ↦ e
    ]
  where
    differ : c_string (le_bytes 8 len ++ rest) ≡ word → ⊥
    differ e = omega (arith, w, ap length e, length-c_string-le_bytes len rest h)

module _ (U : UseCase) (Q : PriorityQueue) (check_validcall : Call → Bool) where
  -- A call as a node reads it that expects `n` clock entries.
  abbrev pub as_read : ℕ → Call → Call
  as_read n c = record c { call_vector_clock = take n c.call_vector_clock; applied = false }

  pub dispatch-message :
      (remote_id : ℕ) (n : Node U) (c : Call) (b : PayloadBuffer)
      → IsEncodable c
      → length (payload c) < 65536
      → n.handler.number_of_nodes ≤ length c.call_vector_clock
      → dispatch U Q check_validcall remote_id n (message c b)
        ≡ some (record n {
          handler =
              receive_call U Q check_validcall n.handler (as_read n.handler.number_of_nodes c);
        })
  unfolding dispatch
  dispatch-message remote_id n c b e h l =
      let (rest, f) = message_lem c b in
      let len = length (payload c) in
      rw (
        f,
        c_string-other len (payload c ++ rest) (codes "init") h (omega arith),
        c_string-other len (payload c ++ rest) (codes "shutdown") h (omega arith),
        deserialize-part n.handler.number_of_nodes c len rest e (omega (arith, h)) l,
      )

  -- From node to node: the call that one node broadcasts is the call that another handles. When the system
  -- takes and gives at least a byte at each call of `send` and `recv`, however it splits the bytes, then
  -- the receiver reads the message up to its end and no further, takes it for no other kind of message, and
  -- hands the handler the call as it was sent, but for `applied`, which is not sent, and for the clock, of
  -- which it has as many entries as there are nodes. The call's fields fit their integers, its message is
  -- shorter than 64 KB, and its clock has at least an entry for each node; that of an acknowledgement has 31.
  pub receive-prefix :
      (remote_id : ℕ) (n : Node U) (c : Call) (b : PayloadBuffer) (a : Answers) (answers : List ℕ)
      (rest : Bytes)
      → IsEncodable c
      → 33 + length c.type + 4 * length c.call_vector_clock < 65536
      → n.handler.number_of_nodes ≤ length c.call_vector_clock
      → Serves a.header (length (to_string (length (message c b)) ++ (0 ∷ [])))
      → Serves a.content (length (message c b))
      → Serves answers (length (message c b))
      → receive U Q check_validcall remote_id answers n (write a (message c b) ++ rest)
        ≡ some (
          record n {
            handler =
                receive_call U Q check_validcall n.handler (as_read n.handler.number_of_nodes c);
          },
          rest,
        )
  unfolding receive
  receive-prefix remote_id n c b a answers rest e l' h s t u =
      let m = message c b in
      let (d, ds, f, g) = to_string_lem (length m) in
      let w : write a m ++ rest ≡ to_string (length m) ++ (0 ∷ (m ++ rest)) =
        ap (λ x. x ++ rest) (write-Serves a m s t)
        ∙ append_assoc (to_string (length m)) (0 ∷ m) rest in
      ap (receive U Q check_validcall remote_id answers n) w
      ∙ rw (
        get_string-append (to_string (length m)) (m ++ rest) (positive-to_string (length m)),
        f,
        read_message-header answers m rest u,
        dispatch-message remote_id n c b e (omega (arith, l', length-payload c)) h,
      )

  -- A clock with just an entry for each node arrives whole.
  pub receive-message :
      (remote_id : ℕ) (n : Node U) (c : Call) (b : PayloadBuffer) (a : Answers) (answers : List ℕ)
      (rest : Bytes)
      → IsEncodable c
      → 33 + length c.type + 4 * length c.call_vector_clock < 65536
      → length c.call_vector_clock ≡ n.handler.number_of_nodes
      → Serves a.header (length (to_string (length (message c b)) ++ (0 ∷ [])))
      → Serves a.content (length (message c b))
      → Serves answers (length (message c b))
      → receive U Q check_validcall remote_id answers n (write a (message c b) ++ rest)
        ≡ some (
          record n {
            handler = receive_call U Q check_validcall n.handler (record c { applied = false });
          },
          rest,
        )
  receive-message remote_id n c b a answers rest e l h s t u =
      receive-prefix remote_id n c b a answers rest e l (omega (arith, h)) s t u
      ∙ ap
          (λ vc. some (
            record n {
              handler =
                  receive_call U Q check_validcall n.handler
                    (record c { call_vector_clock = vc; applied = false });
            },
            rest,
          ))
          (subst (λ k. take k c.call_vector_clock ≡ c.call_vector_clock) h
            (take-all c.call_vector_clock))

send_loop-part :
    (k : ℕ) (xs ys : Bytes)
    → length xs ≡ suc k
    → 0 < length ys
    → send_loop (suc k ∷ []) (xs ++ ys) ≡ (xs, false)
unfolding send_loop
send_loop-part k xs [] l h = absurd (omega (arith, h))
send_loop-part k [] (y ∷ ys) l h = absurd (omega (arith, l))
send_loop-part k (x ∷ xs) (y ∷ ys) l h =
    let e : length xs ≡ k = omega (arith, l) in
    rw (sym e, drop-append xs (y ∷ ys), take-append xs (y ∷ ys))
      (ap (λ zs. (x ∷ zs, false)) (append-nil xs))

regroup :
    (head sent next rest : Bytes)
    → ((head ++ (0 ∷ [])) ++ sent) ++ (next ++ rest) ≡ head ++ (0 ∷ ((sent ++ next) ++ rest))
regroup head sent next rest = simp append_assoc

-- After a send of whose content the system took a part and then no more, the receiver takes as many bytes
-- as are missing from what the sender writes next, in their place, and reads on behind them. The system
-- took the whole header, and serves the receiver.
pub partial_send_misread :
    (a : Answers) (answers : List ℕ) (k : ℕ) (sent missing next rest : Bytes)
    → a.content ≡ suc k ∷ []
    → length sent ≡ suc k
    → 0 < length missing
    → length next ≡ length missing
    → Serves a.header (length (to_string (length (sent ++ missing)) ++ (0 ∷ [])))
    → Serves answers (length (sent ++ missing))
    → read_message answers (write a (sent ++ missing) ++ (next ++ rest)) ≡ some (sent ++ next, rest)
unfolding write send_string send_loop
partial_send_misread a answers k sent missing next rest p q m l h s =
    let n = length (sent ++ missing) in
    let same : n ≡ length (sent ++ next) =
      omega (arith, length-append sent missing, length-append sent next, l) in
    let part : send_loop a.content (sent ++ missing) ≡ (sent, false) =
      rw p (send_loop-part k sent missing q m) in
    rw (send_loop-Serves a.header _ h, part)
      (ap (read_message answers) (
          regroup (to_string n) sent next rest
          ∙ ap (λ i. to_string i ++ (0 ∷ ((sent ++ next) ++ rest))) same)
        ∙ read_message-header answers (sent ++ next) rest
            (record { positive = s.positive; enough = omega (arith, s.enough, same) }))
