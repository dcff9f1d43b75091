-- ===== src/Network/Framing.antt =====
-- tcp/Socket.cpp: a message that is sent whole is received whole, however the system splits it.
use optimistic_replication.Prelude.{
  ℕ, zero, suc, ◌+◌, ◌-◌, ◌*◌, ◌/◌, ◌%◌, ◌<◌, ◌≤◌, ◌≡◌, refl, ◌∙◌, ap, inl, inr, true, ◌&&◌, some,
  List, [], ◌∷◌, ◌++◌, Bytes, append_assoc, Bool-cases, ltb, leb, length, take, drop,
  take-append-drop, All, All-append, arith,
}
use mathlib.Core.Option.{none-ne-some, some-injective}
use optimistic_replication.Network.Socket.{
  send_loop, send_string, at_most, receive_loop, get_string, to_string_loop, to_string,
  digits_value, stoi,
}
use optimistic_replication.Network.Layer.{Answers, write}
use optimistic_replication.Network.Receive.{read_message}

-- The system takes or gives at least one byte at each call, for as many calls as there are bytes.
pub record Serves (answers : List ℕ) (size : ℕ) : Type 0 where
  pub positive : All (λ v. 0 < v) answers
  pub enough : size ≤ length answers

length-drop : (n : ℕ) (xs : Bytes) → length (drop n xs) ≤ length xs
length-drop zero xs = omega arith
length-drop (suc n) [] = omega arith
length-drop (suc n) (x ∷ xs) = omega (arith, length-drop n xs)

pub send_loop-Serves :
    (answers : List ℕ) (bs : Bytes) → Serves answers (length bs) → send_loop answers bs ≡ (bs, true)
unfolding send_loop
send_loop-Serves answers [] s = refl
send_loop-Serves [] (b ∷ bs) s = absurd (omega (arith, s.enough))
send_loop-Serves (zero ∷ answers) (b ∷ bs) s = absurd (omega (arith, s.positive.0))
send_loop-Serves (suc val ∷ answers) (b ∷ bs) s = rw (
  send_loop-Serves answers (drop val bs)
      (record { positive = s.positive.1; enough = omega (arith, s.enough, length-drop val bs) }),
  take-append-drop val bs,
)

at_most-le : (bound v : ℕ) → (at_most bound v ≤ bound) × (at_most bound v ≤ v)
unfolding at_most
at_most-le bound v = elim (Bool-cases (ltb bound v)) [
  | inl e ↦ rw e (omega arith, ground arith)
  | inr e ↦ rw e (ground arith, omega arith)
]

front :
    (m : ℕ) (xs rest : Bytes)
    → m ≤ length xs
    → (take m (xs ++ rest) ≡ take m xs)
      × (drop m (xs ++ rest) ≡ drop m xs ++ rest)
      × (length xs - m ≡ length (drop m xs))
front zero xs rest h = (refl, refl, omega arith)
front (suc m) [] rest h = absurd (omega arith)
front (suc m) (x ∷ xs) rest h =
    let (t, d, l) = front m xs rest (omega arith) in (ap (◌∷◌ x) t, d, omega (arith, l))

-- Reading from bytes whose front has the wanted size.
receive_loop-Serves :
    (answers : List ℕ) (xs rest : Bytes)
    → Serves answers (length xs)
    → receive_loop answers (length xs) (xs ++ rest) ≡ some (xs, rest)
unfolding receive_loop
receive_loop-Serves answers [] rest s = refl
receive_loop-Serves [] (x ∷ xs) rest s = absurd (omega (arith, s.enough))
receive_loop-Serves (zero ∷ answers) (x ∷ xs) rest s = absurd (omega (arith, s.positive.0))
receive_loop-Serves (suc val ∷ answers) (x ∷ xs) rest s =
    let m = at_most (length (xs ++ rest)) (at_most (length xs) val) in
    let (t, d, l) = front m xs rest (
      omega (
        arith,
        (at_most-le (length (xs ++ rest)) (at_most (length xs) val)).1,
        (at_most-le (length xs) val).0,
      )) in
    rw (
      l,
      d,
      t,
      receive_loop-Serves answers (drop m xs) rest
          (record { positive = s.positive.1; enough = omega (arith, s.enough, length-drop m xs) }),
      take-append-drop m xs,
    )

pub get_string-append :
    (s rest : Bytes) → All (λ c. 0 < c) s → get_string (s ++ (0 ∷ rest)) ≡ some (s, rest)
unfolding get_string
get_string-append [] rest h = refl
get_string-append (zero ∷ s) rest h = absurd (omega (arith, h.0))
get_string-append (suc c ∷ s) rest h = rw (get_string-append s rest h.1)

digits_value-append :
    (xs : Bytes) (v w d : ℕ)
    → d < 10
    → digits_value v xs ≡ some w
    → digits_value v (xs ++ ((48 + d) ∷ [])) ≡ some (w * 10 + d)
unfolding digits_value
digits_value-append [] v w d h e =
    let t : leb 48 (48 + d) && leb (48 + d) 57 ≡ true = ground arith in
    rw t (ap some (omega (arith, some-injective v w e)))
digits_value-append (c ∷ cs) v w d h e = elim (Bool-cases (leb 48 c && leb c 57)) [
  | inl t ↦ rw t (digits_value-append cs (v * 10 + (c - 48)) w d h (rw t at e))
  | inr t ↦ absurd (none-ne-some w (rw t at e))
]

digits_value-to_string_loop :
    (fuel n : ℕ) → n ≤ fuel → digits_value 0 (to_string_loop fuel n) ≡ some n
unfolding to_string_loop
digits_value-to_string_loop zero n h =
    digits_value-append [] 0 0 (n % 10) (omega arith) (unfold digits_value in refl)
    ∙ ap some (omega (arith, h))
digits_value-to_string_loop (suc fuel) n h = elim (Bool-cases (ltb n 10)) [
  | inl t ↦ rw t (
      digits_value-append [] 0 0 n (ground arith) (unfold digits_value in refl)
      ∙ ap some (omega arith))
  | inr t ↦
      let small : n / 10 ≤ fuel = below (ground arith) in
      rw t (
        digits_value-append (to_string_loop fuel (n / 10)) 0 (n / 10) (n % 10) (omega arith)
          (digits_value-to_string_loop fuel (n / 10) small)
        ∙ ap some (omega arith))
]
  where
    below : 10 ≤ n → n / 10 ≤ fuel
    below k = omega (arith, h, k)

nonempty-to_string_loop : (fuel n : ℕ) → (c : ℕ) × (cs : Bytes) × (to_string_loop fuel n ≡ c ∷ cs)
unfolding to_string_loop
nonempty-to_string_loop zero n = (_, _, refl)
nonempty-to_string_loop (suc fuel) n = elim (Bool-cases (ltb n 10)) [
  | inl t ↦ (48 + n, [], rw t refl)
  | inr t ↦
      let (c, cs, e) = nonempty-to_string_loop fuel (n / 10) in
      (c, cs ++ ((48 + n % 10) ∷ []), rw (t, e) refl)
]

positive-to_string_loop : (fuel n : ℕ) → All (λ c. 0 < c) (to_string_loop fuel n)
unfolding to_string_loop
positive-to_string_loop zero n = (omega arith, tt)
positive-to_string_loop (suc fuel) n = elim (Bool-cases (ltb n 10)) [
  | inl t ↦ rw t (omega arith, tt)
  | inr t ↦ rw t (
      All-append (λ c. 0 < c) (to_string_loop fuel (n / 10)) ((48 + n % 10) ∷ [])
        (positive-to_string_loop fuel (n / 10)) (omega arith, tt))
]

-- The text of a number: it is not empty, and is read back.
pub to_string_lem :
    (n : ℕ) → (c : ℕ) × (cs : Bytes) × (to_string n ≡ c ∷ cs) × (stoi (to_string n) ≡ some n)
unfolding to_string stoi
to_string_lem n =
    let (c, cs, e) = nonempty-to_string_loop n n in
    (c, cs, e, rw e (rw e at (digits_value-to_string_loop n n (omega arith))))

pub positive-to_string : (n : ℕ) → All (λ c. 0 < c) (to_string n)
unfolding to_string
positive-to_string n = positive-to_string_loop n n

-- A message that is sent whole: its length, a zero byte, and its content.
pub write-Serves :
    (a : Answers) (buff : Bytes)
    → Serves a.header (length (to_string (length buff) ++ (0 ∷ [])))
    → Serves a.content (length buff)
    → write a buff ≡ to_string (length buff) ++ (0 ∷ buff)
unfolding write send_string
write-Serves a buff h c =
    rw (send_loop-Serves a.header _ h, send_loop-Serves a.content buff c)
      (append_assoc (to_string (length buff)) (0 ∷ []) buff)

-- A length, a zero byte, and at least so many bytes: the reader takes so many, whatever they are.
pub read_message-header :
    (answers : List ℕ) (content rest : Bytes)
    → Serves answers (length content)
    → read_message answers (to_string (length content) ++ (0 ∷ (content ++ rest)))
      ≡ some (content, rest)
unfolding read_message
read_message-header answers content rest s =
    let (c, cs, e, f) = to_string_lem (length content) in
    rw (
      get_string-append (to_string (length content)) (content ++ rest)
          (positive-to_string (length content)),
      f,
      receive_loop-Serves answers content rest s,
    )
