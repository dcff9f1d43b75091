-- ===== src/PartialSyn/Sorted.antt =====
-- protocol2-partialsyn.cpp: the pending calls stay sorted by the places of their types.
use optimistic_replication.Prelude.{
  ℕ, ◌≤◌, ◌≡◌, sym, ◌∙◌, inl, inr, true, List, [], ◌∷◌, ◌++◌, All-append, All, Bool-cases, ltb, leb,
  arith,
}
use mathlib.Core.Bool.{true≢false}
use optimistic_replication.Call.{Call}
use optimistic_replication.PartialSyn.Ops.{
  find_position, find_call_index, check_order, no_conflict, insert_call,
}

-- The place of a call's type, from 1; 0 for a type that has none.
abbrev pub place : List Call → Call → ℕ
place order c = find_position c.type order

abbrev pub IsSorted : List Call → List Call → Type 0
IsSorted order [] = Unit {0}
IsSorted order (x ∷ xs) = All (λ y. place order x ≤ place order y) xs × IsSorted order xs

All-above :
    (order : List Call) (m n : ℕ) (es : List Call)
    → m ≤ n
    → All (λ y. n ≤ place order y) es
    → All (λ y. m ≤ place order y) es
All-above order m n [] h k = tt
All-above order m n (e ∷ es) h k = (omega (arith, k.0), All-above order m n es h k.1)

All-insert_call :
    (P : Call → Type 0) (order : List Call) (it : ℕ) (c : Call) (es : List Call)
    → P c
    → All P es
    → All P (insert_call order it c es)
unfolding insert_call
All-insert_call P order it c [] h k = (h, tt)
All-insert_call P order it c (e ∷ es) h k =
    elim (Bool-cases (ltb it (find_position e.type order))) [
      | inl r ↦ rw r (h, k)
      | inr r ↦ rw r (k.0, All-insert_call P order it c es h k.1)
    ]

pub IsSorted-insert_call :
    (order : List Call) (c : Call) (es : List Call)
    → IsSorted order es
    → IsSorted order (insert_call order (place order c) c es)
unfolding insert_call
IsSorted-insert_call order c [] h = (tt, tt)
IsSorted-insert_call order c (e ∷ es) h =
    elim (Bool-cases (ltb (find_position c.type order) (find_position e.type order))) [
      | inl r ↦
          let less : place order c ≤ place order e = ground arith in
          rw r ((less, All-above order (place order c) (place order e) es less h.0), h)
      | inr r ↦ rw r (
        All-insert_call (λ y. place order e ≤ place order y) order (place order c) c es
            (ground arith) h.0,
        IsSorted-insert_call order c es h.1,
      )
    ]

pub IsSorted-append :
    (order : List Call) (c : Call) (vc : List ℕ) (es : List Call)
    → no_conflict order c es ≡ true
    → IsSorted order es
    → IsSorted order (es ++ (record c { call_vector_clock = vc } ∷ []))
unfolding no_conflict check_order find_call_index
IsSorted-append order c vc [] n h = (tt, tt)
IsSorted-append order c vc (e ∷ es) n h =
    elim (Bool-cases (leb (find_position e.type order) (find_position c.type order))) [
      | inl r ↦ (
        All-append (λ y. place order e ≤ place order y) es _ h.0 ((ground arith), tt),
        IsSorted-append order c vc es (rw r at n) h.1,
      )
      | inr r ↦ absurd (true≢false (sym n ∙ rw r))
    ]
