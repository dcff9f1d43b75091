-- ===== src/Network/Socket.antt =====
-- tcp/Socket.cpp: send, receive and getString of class TCPSocket, and the numbers that std::to_string and
-- std::stoi write and read.
use optimistic_replication.Prelude.{
  ℕ, zero, suc, ◌+◌, ◌-◌, ◌*◌, ◌/◌, ◌%◌, Bool, true, false, ◌&&◌, Option, none, some, List, [], ◌∷◌,
  ◌++◌, Bytes, if◌then◌else◌, ltb, leb, length, take, drop,
}
use optimistic_replication.Wire.{◌>>=◌}

-- Both functions `send`: the loop over the bytes that are left, given the answers of the system. The results
-- are the bytes that were written, and false for an exception.
unfoldable pub send_loop : List ℕ → Bytes → Bytes × Bool
send_loop answers [] = ([], true)
send_loop [] (b ∷ bs) = ([], false)
send_loop (zero ∷ answers) (b ∷ bs) = ([], false)
send_loop (suc val ∷ answers) (b ∷ bs) =
    let (later, sent) = send_loop answers (drop val bs) in (b ∷ (take val bs ++ later), sent)

-- `send` of a string: with its final zero byte.
unfoldable pub send_string : List ℕ → Bytes → Bytes × Bool
send_string answers message = send_loop answers (message ++ (0 ∷ []))

unfoldable pub at_most : ℕ → ℕ → ℕ
at_most bound v = if ltb bound v then bound else v

-- `receive(size)` from the bytes that arrive: what was read, and the rest. The system gives at most what is
-- wanted and what there is. `none` is an exception.
unfoldable pub receive_loop : List ℕ → ℕ → Bytes → Option (Bytes × Bytes)
receive_loop answers zero stream = some ([], stream)
receive_loop [] (suc size) stream = none
receive_loop (zero ∷ answers) (suc size) stream = none
receive_loop (suc val ∷ answers) (suc size) [] = none
receive_loop (suc val ∷ answers) (suc size) (b ∷ stream) =
    let more = at_most (length stream) (at_most size val) in
    receive_loop answers (size - more) (drop more stream) >>= λ (bytes, rest).
    some (b ∷ (take more stream ++ bytes), rest)

-- `getString`: up to the first zero byte. `none` where the stream ends before it.
unfoldable pub get_string : Bytes → Option (Bytes × Bytes)
get_string [] = none
get_string (zero ∷ stream) = some ([], stream)
get_string (suc c ∷ stream) = get_string stream >>= λ (message, rest). some (suc c ∷ message, rest)

-- The digits of a number, in ASCII. A number below ten to the `fuel` has at most `fuel` digits.
unfoldable pub to_string_loop : ℕ → ℕ → Bytes
to_string_loop zero n = (48 + n % 10) ∷ []
to_string_loop (suc fuel) n =
    let front = to_string_loop fuel (n / 10) in
    if ltb n 10 then (48 + n) ∷ [] else front ++ ((48 + n % 10) ∷ [])

unfoldable pub to_string : ℕ → Bytes
to_string n = to_string_loop n n

-- The value of a text that is all digits; `none` for any other, where std::stoi may throw or stop early.
unfoldable pub digits_value : ℕ → Bytes → Option ℕ
digits_value v [] = some v
digits_value v (c ∷ cs) =
    let rest = digits_value (v * 10 + (c - 48)) cs in if leb 48 c && leb c 57 then rest else none

unfoldable pub stoi : Bytes → Option ℕ
stoi [] = none
stoi (c ∷ cs) = digits_value 0 (c ∷ cs)
