-- ===== src/Crdt/Register/Laws.antt =====
-- op-crdt-reg.hpp: when replicas of the register agree, and what its timestamps do to the calls of a
-- workload file.
use mathlib.Core.HLevel.{×_prop}
use optimistic_replication.Prelude.{
  ℕ, ◌≤◌, ◌<◌, ◌≡◌, refl, ap, sym, ◌∙◌, ◌≢◌, ◌⊎◌, inl, inr, true, false, List, [], ◌∷◌, codes,
  eq_bytes, eq_bytes_other, All, Perm, Bool-cases, ◌==◌, ==→eq, Bytes, arith,
}
use optimistic_replication.Call.{Call, type_is}
use optimistic_replication.Hamsou.Order.{mem_of_All}
use optimistic_replication.Crdt.{CrdtEvent, set_vars, run}
use optimistic_replication.Crdt.Laws.{replay, run_converge}
use optimistic_replication.Crdt.Register.{
  RegState, reg_case, reg_to_string, update_current_state, BenchLine, read_line, read_lines,
  read_bench_file,
}

-- Updates with one timestamp carry one value.
abbrev pub Agree : Call → Call → Type 0
Agree a b =
    type_is a "Update" ≡ true
    → type_is b "Update" ≡ true
    → a.value2 ≡ b.value2
    → a.value1 ≡ b.value1

commute-value :
    (t : RegState) (a b : Call)
    → ((a.value2 ≡ b.value2) × (a.value1 ≡ b.value1)) ⊎ (a.value2 ≢ b.value2)
    → (update_current_state (update_current_state t a) b).value
      ≡ (update_current_state (update_current_state t b) a).value
unfolding update_current_state
commute-value t a b (inl (e, k)) = ground arith
commute-value t a b (inr n) = ground arith

commute-timestamp :
    (t : RegState) (a b : Call)
    → (update_current_state (update_current_state t a) b).timestamp
      ≡ (update_current_state (update_current_state t b) a).timestamp
unfolding update_current_state
commute-timestamp t a b = ground arith

-- Two updates with one timestamp, newer than the register's, and different values: each order of the two
-- calls leaves the register with the value of the first, so replicas that execute them in different
-- orders differ.
pub equal_timestamps_diverge :
    (t : RegState) (a b : Call)
    → type_is a "Update" ≡ true
    → type_is b "Update" ≡ true
    → a.value2 ≡ b.value2
    → t.timestamp < a.value2
    → a.value1 ≢ b.value1
    → ((update_current_state (update_current_state t a) b).value ≡ a.value1)
      × ((update_current_state (update_current_state t b) a).value ≡ b.value1)
      × (update_current_state (update_current_state t a) b
          ≢ update_current_state (update_current_state t b) a)
unfolding update_current_state
equal_timestamps_diverge t a b ua ub e h d = (
  first a b ua ub e h,
  first b a ub ua (sym e) (omega arith),
  λ p. d (sym (first a b ua ub e h) ∙ ap (λ s. s.value) p ∙ first b a ub ua (sym e) (omega arith)),
)
  where
    first :
        (x y : Call)
        → type_is x "Update" ≡ true
        → type_is y "Update" ≡ true
        → x.value2 ≡ y.value2
        → t.timestamp < x.value2
        → (update_current_state (update_current_state t x) y).value ≡ x.value1
    first x y ux uy e h = ground arith

timestamp_grows : (t : RegState) (c : Call) → t.timestamp ≤ (update_current_state t c).timestamp
unfolding update_current_state
timestamp_grows t c = ground arith

stale_ignored : (t : RegState) (c : Call) → c.value2 ≤ t.timestamp → update_current_state t c ≡ t
unfolding update_current_state
stale_ignored t c h = ground arith

not_update : (t : RegState) (c : Call) → type_is c "Update" ≡ false → update_current_state t c ≡ t
unfolding update_current_state
not_update t c h = ground arith

commute :
    (t : RegState) (a b : Call)
    → Agree a b
    → update_current_state (update_current_state t a) b
      ≡ update_current_state (update_current_state t b) a
commute t a b h = elim (Bool-cases (type_is a "Update")) [
  | inr ua ↦
      ap (λ s. update_current_state s b) (not_update t a ua)
      ∙ sym (not_update (update_current_state t b) a ua)
  | inl ua ↦ elim (Bool-cases (type_is b "Update")) [
    | inr ub ↦
        not_update (update_current_state t a) b ub
        ∙ ap (λ s. update_current_state s a) (sym (not_update t b ub))
    | inl ub ↦ λ i. record {
      value = commute-value t a b (stamps ua ub) i;
      timestamp = commute-timestamp t a b i;
    }
  ]
]
  where
    stamps :
        type_is a "Update" ≡ true
        → type_is b "Update" ≡ true
        → ((a.value2 ≡ b.value2) × (a.value1 ≡ b.value1)) ⊎ (a.value2 ≢ b.value2)
    stamps ua ub = elim (Bool-cases (a.value2 == b.value2)) [
      | inl e ↦ inl (==→eq a.value2 b.value2 e, h ua ub (==→eq a.value2 b.value2 e))
      | inr n ↦ inr (λ e. ground arith)
    ]

RegState-set : IsSet RegState
RegState-set = hlevel

Agree-prop : (a b : Call) → IsProp (Agree a b)
Agree-prop a b = hlevel

All-prop : (P : Call → Type 0) → ((c : Call) → IsProp (P c)) → (cs : List Call) → IsProp (All P cs)
All-prop P h [] = hlevel
All-prop P h (c ∷ cs) = ×_prop (h c) (All-prop P h cs)

-- Two replicas of the register whose objects started in one state and which have executed the same calls,
-- in whatever order, are in the same state, if among these calls no two Update calls with one timestamp
-- carry different values.
pub register_converge :
    (start : RegState) (id id' num_nodes : ℕ) (es es' : List (CrdtEvent reg_case))
    → 0 < num_nodes
    → let s = run reg_case (set_vars reg_case start id num_nodes) es in
      let r = run reg_case (set_vars reg_case start id' num_nodes) es' in
      Perm s.execution_list r.execution_list
      → All (λ a. All (Agree a) s.execution_list) s.execution_list
      → s.current_state ≡ r.current_state
register_converge start id id' num_nodes es es' h p agree =
    run_converge reg_case RegState-set start id id' num_nodes es es' h p (λ t a b m n.
      commute t a b (
        mem_of_All (Agree a) (Agree-prop a) _
          (mem_of_All (λ c. All (Agree c) _) (λ c. All-prop (Agree c) (Agree-prop c) _) _ agree a m)
          b n))

-- The call is no update, or its timestamp is not newer than the register's.
abbrev pub IsStale : RegState → Call → Type 0
IsStale t c = type_is c "Update" ≡ true → c.value2 ≤ t.timestamp

IsStale-ignored : (t : RegState) (c : Call) → IsStale t c → update_current_state t c ≡ t
IsStale-ignored t c h = elim (Bool-cases (type_is c "Update")) [
  | inl u ↦ stale_ignored t c (h u)
  | inr n ↦ not_update t c n
]

replay_grows : (t : RegState) (cs : List Call) → t.timestamp ≤ (replay reg_case t cs).timestamp
replay_grows t [] = omega arith
replay_grows t (c ∷ cs) =
    omega (arith, timestamp_grows t c, replay_grows (update_current_state t c) cs)

true_ne_false : true ≢ false
true_ne_false e = ground arith

read_not_update :
    (t : Bytes) → eq_bytes t (codes "Read") ≡ true → eq_bytes t (codes "Update") ≡ false
unfolding eq_bytes
read_not_update t r = eq_bytes_other t (codes "Read") (codes "Update") refl r

-- A call that is read from the file is stale for the object that has read it.
read_line-IsStale :
    (id counter : ℕ) (s : RegState) (call : Call) (line : BenchLine)
    → let r = read_line id (s, counter, call) line in
      IsStale r.0 r.2 × (s.timestamp ≤ r.0.timestamp)
unfolding read_line
read_line-IsStale id counter s call line =
    elim (Bool-cases (eq_bytes (reg_to_string line.tmp_op) (codes "Read"))) [
      | inl r ↦ rw r (
        λ u. absurd (true_ne_false (sym u ∙ read_not_update (reg_to_string line.tmp_op) r)),
        omega arith,
      )
      | inr n ↦ elim (Bool-cases (eq_bytes (reg_to_string line.tmp_op) (codes "Update"))) [
        | inl u ↦ rw (n, u) (λ _. omega arith, omega arith)
        | inr k ↦ rw (n, k) (λ u. absurd (true_ne_false (sym u ∙ k)), omega arith)
      ]
    ]

IsStale-later : (t u : RegState) (c : Call) → t.timestamp ≤ u.timestamp → IsStale t c → IsStale u c
IsStale-later t u c h k e = omega (arith, k e)

read_lines-IsStale :
    (id counter : ℕ) (s : RegState) (call : Call) (lines : List BenchLine)
    → let r = read_lines id (s, counter, call) lines in
      All (IsStale r.0) r.1 × (s.timestamp ≤ r.0.timestamp)
unfolding read_lines
read_lines-IsStale id counter s call [] = (tt, omega arith)
read_lines-IsStale id counter s call (line ∷ lines) =
    let r = read_line id (s, counter, call) line in
    let one = read_line-IsStale id counter s call line in
    let rest = read_lines-IsStale id r.1 r.0 r.2 lines in
    (
      (IsStale-later r.0 (read_lines id r lines).0 r.2 rest.1 one.0, rest.0),
      omega (arith, one.1, rest.1),
    )

-- A node's own updates never reach its register: readBenchFile raises the register's timestamp once for
-- every update that it reads, so that in every later state of the register, whatever calls were executed
-- since, no call of the file changes it.
pub own_updates_ignored :
    (id : ℕ) (call : Call) (s : RegState) (lines : List BenchLine) (since : List Call)
    → let read = read_bench_file id call s lines in
      let t = replay reg_case read.0 since in All (λ c. update_current_state t c ≡ t) read.1
unfolding read_bench_file
own_updates_ignored id call s lines since =
    let read = read_lines id (s, 0, call) lines in
    ignored read.1 (read_lines-IsStale id 0 s call lines).0
  where
    t : RegState
    t = replay reg_case (read_lines id (s, 0, call) lines).0 since

    ignored :
        (cs : List Call)
        → All (IsStale (read_lines id (s, 0, call) lines).0) cs
        → All (λ c. update_current_state t c ≡ t) cs
    ignored [] h = tt
    ignored (c ∷ cs) h = (
      IsStale-ignored t c (
          IsStale-later (read_lines id (s, 0, call) lines).0 t c
            (replay_grows (read_lines id (s, 0, call) lines).0 since) h.0),
      ignored cs h.1,
    )
