-- ===== src/Hamsou/Local.antt =====
-- protocol-hamsou.cpp, localHandler: when it executes a call, and what it then does.
use mathlib.Core.Bool.{true≢false}
use optimistic_replication.Prelude.{
  ◌+◌, ◌<◌, ◌≡◌, refl, sym, ap, ◌∙◌, ◌⊎◌, inl, inr, Bool, true, false, List, [], ◌∷◌, ◌++◌,
  append_assoc, arith, length, length-append, All, Bool-cases,
}
use optimistic_replication.Call.{Call}
use optimistic_replication.UseCase.{UseCase}
use optimistic_replication.Hamsou.{Handler}
use optimistic_replication.Hamsou.Ops.{
  tick, no_conflict, LocalResult, execute_local, refuse, local_handler,
}
use optimistic_replication.Hamsou.Splits.{Splits, drop_stable, length-tick}
use optimistic_replication.Hamsou.Stamp.{stamp_all}

module _ (U : UseCase) where
  -- The call with the clock that localHandler writes into it.
  abbrev pub stamped_call : Handler U → Call → Call
  stamped_call s call = record call { call_vector_clock = tick s.vector_clock s.node_id }

  no_conflict_of_All :
      (call : Call) (es : List Call)
      → All (λ e. U.fast_is_reachable_local call e ≡ false) es
      → no_conflict U call es ≡ true
  unfolding no_conflict
  no_conflict_of_All call [] h = refl
  no_conflict_of_All call (e ∷ es) h = rw h.0 (no_conflict_of_All call es h.1)

  conflict_of_middle :
      (call : Call) (front : List Call) (e : Call) (back : List Call)
      → U.fast_is_reachable_local call e ≡ true
      → no_conflict U call (front ++ (e ∷ back)) ≡ false
  unfolding no_conflict
  conflict_of_middle call [] e back h = rw h
  conflict_of_middle call (x ∷ front) e back h =
      ground (arith, conflict_of_middle call front e back h)

  pub All-of_no_conflict :
      (call : Call) (es : List Call)
      → no_conflict U call es ≡ true
      → All (λ e. U.fast_is_reachable_local call e ≡ false) es
  unfolding no_conflict
  All-of_no_conflict call [] h = tt
  All-of_no_conflict call (e ∷ es) h = elim (Bool-cases (U.fast_is_reachable_local call e)) [
    | inl r ↦ ground arith
    | inr r ↦ (r, All-of_no_conflict call es (rw r at h))
  ]

  -- The handler after a call that localHandler executes.
  abbrev pub after_local : Handler U → Call → Handler U
  after_local s call = record s {
    vector_clock = tick s.vector_clock s.node_id;
    execution_list = s.execution_list ++ (stamped_call s call ∷ []);
    current_state = U.update_current_state s.current_state (stamped_call s call);
    current_index = s.current_index + 1;
  }

  -- Its results: both flags, the old stable index, and the call with its clock.
  abbrev pub executed : Handler U → Call → LocalResult U
  executed s call = record {
    handler = after_local s call;
    call = stamped_call s call;
    flag = true;
    permiss = true;
    stableindex = s.stable_index;
  }

  execute_local_lem :
      (s : Handler U) (call : Call)
      → length s.vector_clock ≡ s.number_of_nodes
      → 0 < s.number_of_nodes
      → execute_local U s call ≡ executed s call
  unfolding execute_local
  execute_local_lem s call h k = rw (
      stamp_all s.number_of_nodes (tick s.vector_clock s.node_id) call.call_vector_clock
        (length-tick s.vector_clock s.node_id ∙ h) k)

  pub after_local-Splits :
      (s : Handler U) (call : Call) (pre suf : List Call)
      → Splits s pre suf
      → Splits (after_local s call) pre (suf ++ (stamped_call s call ∷ []))
  after_local-Splits s call pre suf v = record {
    list = ap (λ l. l ++ (stamped_call s call ∷ [])) v.list ∙ append_assoc pre suf _;
    boundary = v.boundary;
    current =
        omega (arith, v.current, length-append {0} s.execution_list (stamped_call s call ∷ []));
    waiting = v.waiting;
    acknowledged = v.acknowledged;
    clocks = length-tick s.vector_clock s.node_id ∙ v.clocks;
    nodes = v.nodes;
    replay = v.replay;
  }

  local_handler-free :
      (s : Handler U) (call : Call) (pre suf : List Call)
      → Splits s pre suf
      → U.locally_permissibility s.current_state call ≡ true
      → no_conflict U call suf ≡ true
      → local_handler U s call ≡ executed s call
  unfolding local_handler
  local_handler-free s call pre suf v p free =
      rw (p, drop_stable v, free) (execute_local_lem s call v.clocks v.nodes)

  -- In a well-formed handler, localHandler executes a call that is permissible and
  -- conflicts with no pending call: it reports both flags true and the old stable index, gives the call
  -- the handler's clock after its own entry was raised, appends it to the pending calls, keeps the
  -- stable ones, and applies it to the current state.
  pub local_handler-executes :
      (s : Handler U) (call : Call) (pre suf : List Call)
      → Splits s pre suf
      → U.locally_permissibility s.current_state call ≡ true
      → All (λ e. U.fast_is_reachable_local call e ≡ false) suf
      → (local_handler U s call ≡ executed s call)
        × Splits (local_handler U s call).handler pre (suf ++ (stamped_call s call ∷ []))
  local_handler-executes s call pre suf v p free =
      let e = local_handler-free s call pre suf v p (no_conflict_of_All call suf free) in
      (e, rw e (after_local-Splits s call pre suf v))

  -- A call that is not permissible, or that conflicts with one of the calls `es`.
  abbrev pub IsBlocked : Handler U → Call → List Call → Type 0
  IsBlocked s call es =
      (U.locally_permissibility s.current_state call ≡ false)
      ⊎ ((front : List Call) × (e : Call) × (back : List Call) × (es ≡ front ++ (e ∷ back))
          × (U.fast_is_reachable_local call e ≡ true))

  conflict_found :
      (call : Call) (es : List Call)
      → no_conflict U call es ≡ false
      → (front : List Call) × (e : Call) × (back : List Call) × (es ≡ front ++ (e ∷ back))
        × (U.fast_is_reachable_local call e ≡ true)
  unfolding no_conflict
  conflict_found call [] h = absurd (true≢false h)
  conflict_found call (x ∷ es) h = elim (Bool-cases (U.fast_is_reachable_local call x)) [
    | inl r ↦ ([], x, es, refl, r)
    | inr r ↦
        let (front, e, back, split, q) = conflict_found call es (rw r at h) in
        (x ∷ front, e, back, ap (◌∷◌ x) split, q)
  ]

  free-not-IsBlocked :
      (s : Handler U) (call : Call) (es : List Call)
      → U.locally_permissibility s.current_state call ≡ true
      → no_conflict U call es ≡ true
      → ¬ IsBlocked s call es
  free-not-IsBlocked s call es p f (inl q) = true≢false (sym p ∙ q)
  free-not-IsBlocked s call es p f (inr (front, e, back, split, r)) =
      true≢false (sym f ∙ ap (no_conflict U call) split ∙ conflict_of_middle call front e back r)

  -- In a well-formed handler, localHandler refuses exactly the calls that are not permissible or that
  -- conflict with a pending call. Then the handler and the call stay as they were, the flag is false,
  -- `permiss` tells whether the call is permissible, and the stable index is the handler's; for any other call the flag is true.
  pub local_handler-refuses :
      (s : Handler U) (call : Call) (pre suf : List Call)
      → Splits s pre suf
      → (IsBlocked s call suf
          × (local_handler U s call ≡ record {
            handler = s;
            call = call;
            flag = false;
            permiss = U.locally_permissibility s.current_state call;
            stableindex = s.stable_index;
          }))
        ⊎ ((¬ IsBlocked s call suf) × ((local_handler U s call).flag ≡ true))
  unfolding local_handler
  local_handler-refuses s call pre suf v =
      elim (Bool-cases (U.locally_permissibility s.current_state call)) [
        | inr q ↦ inl (inl q, rw q refl)
        | inl q ↦ elim (Bool-cases (no_conflict U call suf)) [
          | inr c ↦ inl (inr (conflict_found call suf c), rw (q, drop_stable v, c) refl)
          | inl c ↦ inr (
            free-not-IsBlocked s call suf q c,
            rw (q, drop_stable v, c, execute_local_lem s call v.clocks v.nodes) refl,
          )
        ]
      ]

  -- What holds of a refusal and of an execution holds of every result in a well-formed handler.
  pub local_handler-cases {ℓ} :
      (P : LocalResult U → Type ℓ) (s : Handler U) (call : Call) (pre suf : List Call)
      → Splits s pre suf
      → ((permiss : Bool) → P (refuse U s call permiss))
      → (All (λ e. U.fast_is_reachable_local call e ≡ false) suf → P (executed s call))
      → P (local_handler U s call)
  unfolding local_handler
  local_handler-cases P s call pre suf v refused done =
      elim (Bool-cases (U.locally_permissibility s.current_state call)) [
        | inr q ↦ rw q (refused false)
        | inl q ↦ elim (Bool-cases (no_conflict U call suf)) [
          | inr c ↦ rw (q, drop_stable v, c) (refused true)
          | inl c ↦
              rw (q, drop_stable v, c, execute_local_lem s call v.clocks v.nodes)
                (done (All-of_no_conflict call suf c))
        ]
      ]
