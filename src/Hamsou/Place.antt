-- ===== src/Hamsou/Place.antt =====
-- protocol-hamsou.cpp, remoteHandler: when it executes a call, and the place that it gives it.
use optimistic_replication.Prelude.{
  ℕ, zero, suc, ◌≡◌, refl, ap, ◌&&◌, Bool, true, false, List, [], ◌∷◌, ◌++◌, All, Bool-cases, inl,
  inr, length,
}
use optimistic_replication.Call.{Call}
use optimistic_replication.VectorClock.{is_after}
use optimistic_replication.UseCase.{UseCase, PriorityQueue}
use optimistic_replication.Hamsou.{Handler}
use optimistic_replication.Hamsou.Ops.{
  behind_top, behind_pending, insert_call, execute_remote, remote_handler,
}
use optimistic_replication.Hamsou.Splits.{Splits, drop_stable, execute_remote-Splits}
use optimistic_replication.Hamsou.Deliver.{remote_handler-runs}

module _ (U : UseCase) where
  -- The top of the queue, if there is one, is no cause of the call.
  abbrev pub TopAllows : Call → List Call → Type 0
  TopAllows c [] = Unit {0}
  TopAllows c (top ∷ q) =
      is_after (U.compare_vector_clocks c.call_vector_clock top.call_vector_clock) ≡ false

  -- The pending call `e` is no cause of `c`, or no call that `c` must precede.
  abbrev pub PendingAllows : Call → Call → Type 0
  PendingAllows c e =
      (U.fast_is_reachable_remote c e
        && is_after (U.compare_vector_clocks c.call_vector_clock e.call_vector_clock))
      ≡ false

  -- The list starts with a call that `c` must precede, or is empty.
  abbrev pub StartsAfter : Call → List Call → Type 0
  StartsAfter c [] = Unit {0}
  StartsAfter c (e ∷ es) = U.fast_is_reachable_remote c e ≡ true

  -- `c` stands among `es` right before the first call that it must precede.
  pub record Placed (c : Call) (es with_c : List Call) : Type 0 where
    pub front : List Call
    pub back : List Call
    pub split : es ≡ front ++ back
    pub joined : with_c ≡ front ++ (c ∷ back)
    pub free : All (λ e. U.fast_is_reachable_remote c e ≡ false) front
    pub first : StartsAfter c back

  behind_top-false :
      (rounds : ℕ) (c : Call) (q : List Call) → TopAllows c q → behind_top U rounds c q ≡ false
  unfolding behind_top
  behind_top-false zero c q h = refl
  behind_top-false (suc rounds) c [] h = refl
  behind_top-false (suc rounds) c (top ∷ q) h = rw h (behind_top-false rounds c (top ∷ q) h)

  behind_pending-false :
      (c : Call) (es : List Call) → All (PendingAllows c) es → behind_pending U c es ≡ false
  unfolding behind_pending
  behind_pending-false c [] h = refl
  behind_pending-false c (e ∷ es) h = rw h.0 (behind_pending-false c es h.1)

  insert_call-Placed : (c : Call) (es : List Call) → Placed c es (insert_call U c es)
  unfolding insert_call
  insert_call-Placed c [] = record {
    front = [];
    back = [];
    split = refl;
    joined = refl;
    free = tt;
    first = tt;
  }
  insert_call-Placed c (e ∷ es) = elim (Bool-cases (U.fast_is_reachable_remote c e)) [
    | inl r ↦
        rw r
          (record { front = []; back = e ∷ es; split = refl; joined = refl; free = tt; first = r })
    | inr r ↦
        let rest = insert_call-Placed c es in
        rw r (record {
          front = e ∷ rest.front;
          back = rest.back;
          split = ap (◌∷◌ e) rest.split;
          joined = ap (◌∷◌ e) rest.joined;
          free = (r, rest.free);
          first = rest.first;
        })
  ]

  -- In a well-formed handler, a remote call that is no effect of the top of the queue, nor of a pending
  -- call that it must precede, is executed at once: it is put among the pending calls right before the
  -- first that it must precede, or last, and the stable calls stay as they are.
  pub remote_handler-places :
      (Q : PriorityQueue) (add : Bool) (s : Handler U) (c : Call) (pre suf : List Call)
      → Splits s pre suf
      → TopAllows c s.priority_queue
      → All (PendingAllows c) suf
      → (remote_handler U Q add s c ≡ (execute_remote U s c, true))
        × ((suf' : List Call) × Splits (remote_handler U Q add s c).0 pre suf' × Placed c suf suf')
  remote_handler-places Q add s c pre suf v t h =
      let e = remote_handler-runs U Q add s c (
        rw (
          behind_top-false (length s.priority_queue) c s.priority_queue t,
          drop_stable v,
          behind_pending-false c suf h,
        )) in
      (
        e,
        (insert_call U c suf, rw e (execute_remote-Splits s c pre suf v), insert_call-Placed c suf),
      )
