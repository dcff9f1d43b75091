-- ===== src/Crdt/Laws.antt =====
-- protocol-hamsou.cpp under the macro CRDT: what holds after every history, and when replicas agree.
use mathlib.Core.List.{Mem, mem-cons_self, mem-cons_of_mem, Permᴰ}
use mathlib.Core.List.Permᴰ as PermD
use optimistic_replication.Prelude.{
  ℕ, ◌+◌, ◌<◌, ◌≡◌, refl, sym, ap, ◌∙◌, inl, inr, List, [], ◌∷◌, ◌++◌, foldl, arith, length,
  length-append, take, drop, foldl-append, Perm, ∥∥₁_elim, Bool-cases,
}
use optimistic_replication.Call.{Call}
use optimistic_replication.Hamsou.Ops.{tick}
use optimistic_replication.Hamsou.Splits.{length-tick, length-zeros}
use optimistic_replication.Hamsou.Stamp.{stamp_all}
use optimistic_replication.Crdt.{
  CrdtCase, CrdtHandler, set_vars, execute_local, local_handler, remote_handler, CrdtEvent, issue,
  deliver, step, run,
}

-- Steps that commute on the members of a list lead to one state from each of its orders.
foldl-permᴰ {ℓ κ} :
    {A : Type ℓ} {B : Type κ} (f : B → A → B) {xs ys : List A}
    → Permᴰ xs ys
    → ((b : B) (x y : A) → Mem x xs → Mem y xs → f (f b x) y ≡ f (f b y) x)
    → (b : B) → foldl f b xs ≡ foldl f b ys
foldl-permᴰ f Permᴰ.nil c b = refl
foldl-permᴰ f (Permᴰ.cons {a} {l₁} {l₂} e p) c b =
    foldl-permᴰ f p (λ t x y m n. c t x y (mem-cons_of_mem a m) (mem-cons_of_mem a n)) (f b a)
    ∙ ap (λ z. foldl f (f b z) l₂) e
foldl-permᴰ f (Permᴰ.swap {a} {b = a'} {l} e e') c b =
    ap (λ t. foldl f t l) (c b a a' mem-cons_self (mem-cons_of_mem a mem-cons_self)) ∙ rw (e, e')
foldl-permᴰ f (Permᴰ.trans p q) c b =
    foldl-permᴰ f p c b
    ∙ foldl-permᴰ f q
        (λ t x y m n. c t x y (PermD.mem (PermD.symm p) m) (PermD.mem (PermD.symm p) n)) b

insert_at_end {ℓ} :
    {A : Type ℓ} (xs : List A) (x : A)
    → take (length xs) xs ++ (x ∷ drop (length xs) xs) ≡ xs ++ (x ∷ [])
insert_at_end [] x = refl
insert_at_end (y ∷ ys) x = ap (◌∷◌ y) (insert_at_end ys x)

module _ (C : CrdtCase) where
  abbrev pub replay : C.State → List Call → C.State
  replay = foldl C.update_current_state

  -- All executed calls count as stable, and the state is their replay.
  pub record Settled (start : C.State) (s : CrdtHandler C) : Type 0 where
    pub current : s.current_index ≡ length s.execution_list
    pub stable : s.stable_index ≡ length s.execution_list
    pub waiting : s.waittobestable ≡ length s.execution_list
    pub clocks : length s.vector_clock ≡ s.number_of_nodes
    pub nodes : 0 < s.number_of_nodes
    pub replays : s.current_state ≡ replay start s.execution_list

  -- The handler after it has executed `call`, with the clock `vc`.
  abbrev executed : CrdtHandler C → Call → List ℕ → CrdtHandler C
  executed s call vc = record s {
    execution_list = s.execution_list ++ (call ∷ []);
    current_index = s.current_index + 1;
    stable_index = s.stable_index + 1;
    current_state = C.update_current_state s.current_state call;
    vector_clock = vc;
    waittobestable = s.waittobestable + 1;
  }

  executed-Settled :
      (start : C.State) (s : CrdtHandler C) (call : Call) (node : ℕ)
      → Settled start s
      → Settled start (executed s call (tick s.vector_clock node))
  executed-Settled start s call node v = record {
    current = omega (arith, v.current, longer);
    stable = omega (arith, v.stable, longer);
    waiting = omega (arith, v.waiting, longer);
    clocks = length-tick s.vector_clock node ∙ v.clocks;
    nodes = v.nodes;
    replays =
        ap (λ t. C.update_current_state t call) v.replays
        ∙ sym (foldl-append C.update_current_state start s.execution_list (call ∷ []));
  }
    where
      longer : length (s.execution_list ++ (call ∷ [])) ≡ length s.execution_list + 1
      longer = length-append s.execution_list (call ∷ [])

  -- A remote call is appended, since all calls before it are stable.
  remote_handler_lem :
      (start : C.State) (s : CrdtHandler C) (call : Call)
      → Settled start s
      → remote_handler C s call ≡ executed s call (tick s.vector_clock call.node_id)
  unfolding remote_handler
  remote_handler_lem start s call v =
      ap (λ l. record (executed s call (tick s.vector_clock call.node_id)) { execution_list = l })
        (ap (λ k. take k s.execution_list ++ (call ∷ drop k s.execution_list)) v.stable
          ∙ insert_at_end s.execution_list call)

  local_handler-cases {ℓ} :
      (P : CrdtHandler C → Type ℓ) (start : C.State) (s : CrdtHandler C) (call : Call)
      → Settled start s
      → P s
      → P (
          executed s
            (record call { call_vector_clock = tick s.vector_clock s.node_id })
            (tick s.vector_clock s.node_id))
      → P (local_handler C s call).handler
  unfolding local_handler execute_local
  local_handler-cases P start s call v refused done =
      elim (Bool-cases (C.locally_permissibility s.current_state call)) [
        | inr q ↦ rw q refused
        | inl q ↦
            rw
              (
                q,
                stamp_all s.number_of_nodes (tick s.vector_clock s.node_id) call.call_vector_clock
                    (length-tick s.vector_clock s.node_id ∙ v.clocks) v.nodes,
              )
              done
      ]

  step-Settled :
      (start : C.State) (s : CrdtHandler C) (e : CrdtEvent C)
      → Settled start s
      → Settled start (step C s e)
  unfolding step
  step-Settled start s (issue call) v =
      local_handler-cases (Settled start) start s call v v (executed-Settled start s _ s.node_id v)
  step-Settled start s (deliver call) v =
      rw (remote_handler_lem start s call v) (executed-Settled start s call call.node_id v)

  -- Under the macro CRDT, in every history of a replica whose counters agree: they still do, every
  -- executed call counts as stable, and the current state is the replay of the execution list.
  pub run-Settled :
      (start : C.State) (s : CrdtHandler C) (es : List (CrdtEvent C))
      → Settled start s
      → Settled start (run C s es)
  unfolding run
  run-Settled start s [] v = v
  run-Settled start s (e ∷ es) v = run-Settled start (step C s e) es (step-Settled start s e v)

  pub set_vars-Settled :
      (start : C.State) (id num_nodes : ℕ)
      → 0 < num_nodes
      → Settled start (set_vars C start id num_nodes)
  unfolding set_vars
  set_vars-Settled start id num_nodes h = record {
    current = refl;
    stable = refl;
    waiting = refl;
    clocks = length-zeros num_nodes;
    nodes = h;
    replays = refl;
  }

  -- Under the macro CRDT, two replicas whose objects started in one state and which have executed the
  -- same calls, in whatever order, are in the same state, if those calls commute in pairs.
  pub run_converge :
      IsSet C.State
      → (start : C.State) (id id' num_nodes : ℕ) (es es' : List (CrdtEvent C)) → 0 < num_nodes
      → let s = run C (set_vars C start id num_nodes) es in
        let r = run C (set_vars C start id' num_nodes) es' in
        Perm s.execution_list r.execution_list
        → ((t : C.State) (x y : Call)
            → Mem x s.execution_list
            → Mem y s.execution_list
            → C.update_current_state (C.update_current_state t x) y
              ≡ C.update_current_state (C.update_current_state t y) x)
        → s.current_state ≡ r.current_state
  run_converge set start id id' num_nodes es es' h p c =
      (settled id es).replays
      ∙ ∥∥₁_elim p (set _ _) (λ q. foldl-permᴰ C.update_current_state q c start)
      ∙ sym (settled id' es').replays
    where
      settled :
          (i : ℕ) (fs : List (CrdtEvent C))
          → Settled start (run C (set_vars C start i num_nodes) fs)
      settled i fs =
          run-Settled start (set_vars C start i num_nodes) fs (set_vars-Settled start i num_nodes h)
