-- ===== src/Ecros/Stack/Laws.antt =====
-- ecros-stack.hpp: a call that a node issues takes effect there twice.
use optimistic_replication.Prelude.{◌≡◌, true, false, List, [], ◌∷◌, ◌++◌, append_assoc, ap}
use optimistic_replication.Call.{Call, type_is}
use optimistic_replication.Ecros.Set.{is_applied}
use optimistic_replication.Ecros.Stack.{StackState, apply_to, apply_call, recompute_state}

-- applyCall does not enter the call that it applies into `applied`. So a Push that a node has issued, and that
-- no recomputeState has applied, is on its stack once, and recomputeState on an order that begins with it
-- pushes it again: the rest of the order meets a stack that ends with the value twice.
pub pushed_twice :
    (s : StackState) (c : Call) (order : List Call)
    → type_is c "Push" ≡ true
    → is_applied c s.applied ≡ false
    → recompute_state (apply_call s c) (c ∷ order)
      ≡ recompute_state
          (record {
            elements = s.elements ++ (c.value1 ∷ c.value1 ∷ []);
            applied = (c.call_id, c.node_id) ∷ s.applied;
          })
          order
unfolding recompute_state apply_call apply_to
pushed_twice s c order h k =
    rw (h, k)
      (ap
        (λ l.
          recompute_state (record { elements = l; applied = (c.call_id, c.node_id) ∷ s.applied })
            order)
        (append_assoc s.elements (c.value1 ∷ []) (c.value1 ∷ [])))
