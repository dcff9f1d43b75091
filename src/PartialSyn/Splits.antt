-- ===== src/PartialSyn/Splits.antt =====
-- protocol2-partialsyn.cpp: a well-formed handler, and that every operation keeps it so.
use optimistic_replication.Prelude.{
  ℕ, zero, suc, ◌≡◌, refl, sym, ap, ◌∙◌, inl, inr, Bool, true, false, some, List, [], ◌∷◌, ◌++◌,
  subst, foldl, foldl-append, append_assoc, append-nil, Bool-cases, Option-cases, ◌==◌, get_elem?,
  length, length-append, drop, take-append, drop-append, arith, if◌then◌else◌,
}
use mathlib.Core.Option.{none-ne-some, some-injective}
use optimistic_replication.Call.{Call}
use optimistic_replication.UseCase.{UseCase}
use optimistic_replication.Hamsou.Ops.{tick}
use optimistic_replication.PartialSyn.{PartialHandler}
use optimistic_replication.PartialSyn.Ops.{
  no_conflict, stamp_loop, insert_call, behind_queued, behind_pending, execute_local, local_handler,
  queue_handler, execute_remote, remote_handler,
}
use optimistic_replication.PartialSyn.Stabilize.{acked, queue_pass, commit, stabilize_loop}
use optimistic_replication.PartialSyn.Sorted.{
  place, IsSorted, IsSorted-insert_call, IsSorted-append,
}

module _ {U : UseCase} where
  -- `stable` are the calls that are final, and their replay is the stable state; `pending` are those that
  -- were executed and may still be joined by others, sorted.
  pub record Splits (s : PartialHandler U) (stable pending : List Call) : Type 0 where
    pub list : s.execution_list ≡ stable ++ pending
    pub boundary : s.stable_index ≡ length stable
    pub replay : s.stable_state ≡ foldl U.update_stable_state U.initial stable
    pub sorted : IsSorted s.topological_order pending

  -- The handler is still well-formed, and `stable` is the front of its stable calls.
  pub record Extends (stable : List Call) (s : PartialHandler U) : Type 0 where
    pub more : List Call
    pub pending : List Call
    pub splits : Splits s (stable ++ more) pending

  pub Extends-here :
      {s : PartialHandler U} {pre : List Call} (suf : List Call) → Splits s pre suf → Extends pre s
  Extends-here {s} {pre} suf v = record {
    more = [];
    pending = suf;
    splits = subst (λ l. Splits s l suf) (sym (append-nil pre)) v;
  }

  pub Extends-trans :
      (pre more : List Call) (s : PartialHandler U) → Extends (pre ++ more) s → Extends pre s
  Extends-trans pre more s x = record {
    more = more ++ x.more;
    pending = x.pending;
    splits = subst (λ l. Splits s l x.pending) (append_assoc pre more x.more) x.splits;
  }

module _ (U : UseCase) where
  execute_remote-Splits :
      (s : PartialHandler U) (c : Call) (pre suf : List Call)
      → Splits s pre suf
      → Splits
          (execute_remote U s (place s.topological_order c) c)
          pre
          (insert_call s.topological_order (place s.topological_order c) c suf)
  unfolding execute_remote
  execute_remote-Splits s c pre suf v = record {
    list = rw (v.list, v.boundary, take-append pre suf, drop-append pre suf);
    boundary = v.boundary;
    replay = v.replay;
    sorted = IsSorted-insert_call s.topological_order c suf v.sorted;
  }

  -- What remoteHandler can do: keep the handler, queue the call, or execute it.
  pub remote_handler-cases {ℓ} :
      (P : PartialHandler U × Bool → Type ℓ) (add : Bool) (s : PartialHandler U) (c : Call)
      → P (s, false)
      → (add ≡ true → P (record s { queued_list = s.queued_list ++ (c ∷ []) }, false))
      → P (execute_remote U s (place s.topological_order c) c, true)
      → P (remote_handler U add s c)
  unfolding remote_handler queue_handler
  remote_handler-cases P add s c kept queued done =
      elim (Bool-cases (behind_queued c s.queued_list)) [
        | inl b ↦ rw b (waits add queued)
        | inr b ↦
            elim (Bool-cases
              (behind_pending s.topological_order c (drop s.stable_index s.execution_list))) [
                | inl p ↦ rw (b, p) (waits add queued)
                | inr p ↦ elim (Bool-cases (place s.topological_order c == 0)) [
                  | inl z ↦ rw (b, p, z) kept
                  | inr z ↦ rw (b, p, z) done
                ]
              ]
      ]
    where
      waits :
          (a : Bool)
          → (a ≡ true → P (record s { queued_list = s.queued_list ++ (c ∷ []) }, false))
          → P (if a then record s { queued_list = s.queued_list ++ (c ∷ []) } else s, false)
      waits true q = q refl
      waits false q = kept

  -- Fields that `Splits` does not ask about.
  Splits-queue :
      (s : PartialHandler U) (q : List Call) (pre suf : List Call)
      → Splits s pre suf
      → Splits (record s { queued_list = q }) pre suf
  Splits-queue s q pre suf v = record {
    list = v.list;
    boundary = v.boundary;
    replay = v.replay;
    sorted = v.sorted;
  }

  pub remote_handler-Splits :
      (add : Bool) (s : PartialHandler U) (c : Call) (pre suf : List Call)
      → Splits s pre suf
      → (suf' : List Call) × Splits (remote_handler U add s c).0 pre suf'
  remote_handler-Splits add s c pre suf v =
      remote_handler-cases (λ r. (suf' : List Call) × Splits r.0 pre suf') add s c (suf, v)
        (λ _. (suf, Splits-queue s _ pre suf v)) (_, execute_remote-Splits s c pre suf v)

  pub queue_pass-Splits :
      (kept left : List Call) (s : PartialHandler U) (pre suf : List Call)
      → Splits s pre suf
      → (suf' : List Call) × Splits (queue_pass U kept left s) pre suf'
  unfolding queue_pass
  queue_pass-Splits kept [] s pre suf v = (suf, v)
  queue_pass-Splits kept (c ∷ left) s pre suf v =
      let r = remote_handler U false s c in
      let (suf', v') = remote_handler-Splits false s c pre suf v in
      elim (Bool-cases r.1) [
        | inl e ↦ rw e (
            queue_pass-Splits kept left (record (r.0) { queued_list = kept ++ left }) pre suf'
              (Splits-queue r.0 _ pre suf' v'))
        | inr e ↦ rw e (queue_pass-Splits (kept ++ (c ∷ [])) left r.0 pre suf' v')
      ]

  commit-Extends :
      (s : PartialHandler U) (c : Call) (pre suf : List Call)
      → Splits s pre (c ∷ suf)
      → (suf' : List Call) × Splits (commit U s c) (pre ++ (c ∷ [])) suf'
  unfolding commit
  commit-Extends s c pre suf v =
      queue_pass-Splits [] s.queued_list _ (pre ++ (c ∷ [])) suf (record {
        list = v.list ∙ sym (append_assoc pre (c ∷ []) suf);
        boundary = omega (arith, v.boundary, length-append pre (c ∷ []));
        replay =
            ap (λ t. U.update_stable_state t c) v.replay
            ∙ sym (foldl-append U.update_stable_state U.initial pre (c ∷ []));
        sorted = v.sorted.1;
      })

  -- The call at the stable index is the first that is pending.
  pub first_pending :
      (pre suf : List Call) (c : Call)
      → get_elem? (pre ++ suf) (length pre) ≡ some c
      → (rest : List Call) × (suf ≡ c ∷ rest)
  first_pending [] [] c e = absurd (none-ne-some c e)
  first_pending [] (x ∷ rest) c e = (rest, ap (λ y. y ∷ rest) (some-injective x c e))
  first_pending (y ∷ pre) suf c e = first_pending pre suf c e

  pub stabilize_loop-Extends :
      (fuel : ℕ) (s : PartialHandler U) (pre suf : List Call)
      → Splits s pre suf
      → Extends pre (stabilize_loop U fuel s)
  unfolding stabilize_loop
  stabilize_loop-Extends zero s pre suf v = Extends-here suf v
  stabilize_loop-Extends (suc fuel) s pre suf v =
      elim (Option-cases (get_elem? s.execution_list s.stable_index)) [
        | inl e ↦ rw (e, stabilize_loop) (Extends-here suf v)
        | inr (c, e) ↦
            let (rest, f) = first_pending pre suf c (rw (v.list, v.boundary) at e) in
            let (suf', v') = commit-Extends s c pre rest (subst (Splits s pre) f v) in
            elim (Bool-cases (acked U s c)) [
              | inl a ↦
                  rw (e, stabilize_loop, a)
                    (Extends-trans pre (c ∷ []) _
                      (stabilize_loop-Extends fuel (commit U s c) (pre ++ (c ∷ [])) suf' v'))
              | inr a ↦ rw (e, stabilize_loop, a) (Extends-here suf v)
            ]
      ]

  pub local_handler-Splits :
      (s : PartialHandler U) (c : Call) (n : ℕ) (pre suf : List Call)
      → Splits s pre suf
      → (suf' : List Call) × Splits (local_handler U s c n).handler pre suf'
  unfolding local_handler execute_local
  local_handler-Splits s c n pre suf v =
      elim (Bool-cases (U.locally_permissibility s.current_state c)) [
        | inr p ↦ rw p (suf, v)
        | inl p ↦ elim (Bool-cases (no_conflict s.topological_order c suf)) [
          | inr f ↦ rw (p, pending, f) (suf, v)
          | inl f ↦ elim (Bool-cases stamped.1) [
            | inr t ↦ rw (p, pending, f, t) (suf, same v)
            | inl t ↦
                rw (p, pending, f, t)
                  (
                    suf ++ (record c { call_vector_clock = stamped.0 } ∷ []),
                    record {
                      list =
                          ap (λ l. l ++ (record c { call_vector_clock = stamped.0 } ∷ [])) v.list
                          ∙ append_assoc pre suf _;
                      boundary = v.boundary;
                      replay = v.replay;
                      sorted = IsSorted-append s.topological_order c stamped.0 suf f v.sorted;
                    },
                  )
          ]
        ]
      ]
    where
      pending : drop s.stable_index s.execution_list ≡ suf
      pending = rw (v.list, v.boundary) (drop-append pre suf)

      stamped : List ℕ × Bool
      stamped = stamp_loop s.number_of_nodes 0 (tick s.vector_clock s.node_id) c.call_vector_clock

      same :
          Splits s pre suf
          → Splits (record s { vector_clock = tick s.vector_clock s.node_id }) pre suf
      same w = record { list = w.list; boundary = w.boundary; replay = w.replay; sorted = w.sorted }
