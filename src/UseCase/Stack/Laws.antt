-- ===== src/UseCase/Stack/Laws.antt =====
-- stack.hpp: a push followed by a pop, and the conflict that the remote relation does not order.
use optimistic_replication.Prelude.{
  ℕ, ◌≡◌, refl, ap, ◌≢◌, true, false, List, [], ◌∷◌, ◌++◌, codes, eq_bytes, eq_bytes_other, arith,
}
use optimistic_replication.Call.{Call, type_is}
use optimistic_replication.UseCase.Stack.{pop_back, fast_is_reachable_remote, update_stable_state}

pop_back-snoc : (xs : List ℕ) (x : ℕ) → pop_back (xs ++ (x ∷ [])) ≡ xs
unfolding pop_back
pop_back-snoc [] x = refl
pop_back-snoc (y ∷ []) x = refl
pop_back-snoc (y ∷ z ∷ zs) x = ap (◌∷◌ y) (pop_back-snoc (z ∷ zs) x)

push_not_pop : (c : Call) → type_is c "Push" ≡ true → type_is c "Pop" ≡ false
unfolding eq_bytes
push_not_pop c h = eq_bytes_other c.type (codes "Push") (codes "Pop") refl h

pop_not_push : (c : Call) → type_is c "Pop" ≡ true → type_is c "Push" ≡ false
unfolding eq_bytes
pop_not_push c h = eq_bytes_other c.type (codes "Pop") (codes "Push") refl h

-- On any stack, a Pop after a Push restores the stack.
pub push_then_pop :
    (s : List ℕ) (a b : Call)
    → type_is a "Push" ≡ true
    → type_is b "Pop" ≡ true
    → update_stable_state (update_stable_state s a) b ≡ s
unfolding update_stable_state
push_then_pop s a b h k = rw (h, k, pop_not_push b k) (pop_back-snoc s a.value1)

last_differs :
    (s : List ℕ) (x y : ℕ) → (s ++ (x ∷ [])) ++ (y ∷ []) ≡ (s ++ (y ∷ [])) ++ (x ∷ []) → x ≡ y
last_differs [] x y e = ground arith
last_differs (z ∷ s) x y e = last_differs s x y (ground arith)

-- Two Push calls of different values are ordered by the remote relation in neither
-- direction, whatever their clocks, and yet on every stack the two orders give different stacks.
pub pushes_diverge :
    (s : List ℕ) (a b : Call)
    → type_is a "Push" ≡ true
    → type_is b "Push" ≡ true
    → a.value1 ≢ b.value1
    → (fast_is_reachable_remote a b ≡ false)
      × (fast_is_reachable_remote b a ≡ false)
      × (update_stable_state (update_stable_state s a) b
          ≢ update_stable_state (update_stable_state s b) a)
unfolding fast_is_reachable_remote update_stable_state
pushes_diverge s a b h k d = (
  rw (h, push_not_pop b k),
  rw (k, push_not_pop a h),
  rw (h, k) (λ e. d (last_differs s a.value1 b.value1 e)),
)
