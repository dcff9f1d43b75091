-- ===== src/Ecros/Set/Laws.antt =====
-- ecros-set.hpp: the conflict that the analysis of the set leaves without an order.
use optimistic_replication.Prelude.{
  ℕ, ◌≡◌, refl, true, false, not, List, [], ◌∷◌, length, codes, eq_bytes, eq_bytes_other, ◌==◌,
  keep_if-true, keep_if-false, Bool-cases, inl, inr, arith,
}
use optimistic_replication.Call.{Call, type_is}
use optimistic_replication.Ecros.Clocks.{concurrent, happened_before}
use optimistic_replication.Ecros.Clocks.Laws.{concurrent_unordered}
use optimistic_replication.Ecros.Ops.{remote_edge}
use optimistic_replication.Ecros.Set.{
  has, insert_element, erase_element, apply_to, apply_call, SetState, resolution, ecros_set_case,
  is_empty,
}

has-erase : (x : ℕ) (l : List ℕ) → has x (erase_element x l) ≡ false
unfolding erase_element
has-erase x [] = refl
has-erase x (y ∷ ys) = elim (Bool-cases (y == x)) [
  | inl e ↦ rw (keep_if-false (λ z. not (z == x)) y ys (rw e)) (has-erase x ys)
  | inr e ↦ rw (keep_if-true (λ z. not (z == x)) y ys (rw e), e) (has-erase x ys)
]

has-insert : (x : ℕ) (l : List ℕ) → has x (insert_element x l) ≡ true
unfolding insert_element
has-insert x l = ground arith

has_not_empty : (x : ℕ) (l : List ℕ) → has x l ≡ true → is_empty l ≡ false
has_not_empty x [] h = ground arith
has_not_empty x (y ∷ ys) h = refl

remove_not_add : (c : Call) → type_is c "Remove" ≡ true → type_is c "Add" ≡ false
unfolding eq_bytes
remove_not_add c h = eq_bytes_other c.type (codes "Remove") (codes "Add") refl h

add_then_remove :
    (l : List ℕ) (a r : Call)
    → type_is a "Add" ≡ true
    → type_is r "Remove" ≡ true
    → a.value1 ≡ r.value1
    → has a.value1 (apply_to (apply_to l a) r) ≡ false
unfolding apply_to
add_then_remove l a r h k e =
    rw (h, k, remove_not_add r k, has_not_empty a.value1 _ (has-insert a.value1 l), e)
      (has-erase r.value1 _)

remove_then_add :
    (l : List ℕ) (a r : Call)
    → type_is a "Add" ≡ true
    → type_is r "Remove" ≡ true
    → has a.value1 (apply_to (apply_to l r) a) ≡ true
unfolding apply_to
remove_then_add l a r h k = rw h (has-insert a.value1 _)

-- When a node receives one of two concurrent calls, an Add and a Remove of one element, while it holds
-- the other, it puts no edge between them, whichever of the two is the new one, as resolution answers '⊤'
-- and exeRemote asks for 'T'; and yet the order decides: the element is in the set exactly if the Add
-- comes last.
pub conflict_without_edge :
    (n : ℕ) (heap : ℕ → Call) (p q : ℕ) (s : SetState)
    → length (heap p).call_vector_clock ≡ n
    → length (heap q).call_vector_clock ≡ n
    → concurrent n (heap p).call_vector_clock (heap q).call_vector_clock ≡ true
    → type_is (heap p) "Add" ≡ true
    → type_is (heap q) "Remove" ≡ true
    → (heap p).value1 ≡ (heap q).value1
    → (remote_edge ecros_set_case n heap q p ≡ [])
      × (remote_edge ecros_set_case n heap p q ≡ [])
      × (has (heap p).value1 (apply_call (apply_call s (heap p)) (heap q)).elements ≡ false)
      × (has (heap p).value1 (apply_call (apply_call s (heap q)) (heap p)).elements ≡ true)
unfolding remote_edge resolution apply_call
conflict_without_edge n heap p q s hp hq c a r e =
    let (pq, qp) = concurrent_unordered n _ _ hp hq c in
    (
      no_edge q p pq qp,
      no_edge p q qp pq,
      add_then_remove s.elements (heap p) (heap q) a r e,
      remove_then_add s.elements (heap p) (heap q) a r,
    )
  where
    no_edge :
        (new v : ℕ)
        → happened_before n (heap v).call_vector_clock (heap new).call_vector_clock ≡ false
        → happened_before n (heap new).call_vector_clock (heap v).call_vector_clock ≡ false
        → remote_edge ecros_set_case n heap new v ≡ []
    no_edge new v h k = ground arith
