-- ===== src/Hamsou/Splits.antt =====
-- protocol-hamsou.cpp: what holds of a handler between two operations, as a split of the execution list
-- into the stable calls and the pending ones.
use optimistic_replication.Prelude.{
  ℕ, zero, suc, ◌+◌, ◌<◌, ◌≡◌, refl, sym, ap, ◌∙◌, List, [], ◌∷◌, ◌++◌, foldl, All, append-nil,
  Bool, false, append_assoc, arith, length, length-append, length-set, take, drop, take-append,
  drop-append, foldl-append, not, keep_if, Option-cases, inl, inr,
}
use optimistic_replication.Call.{Call, zeros}
use optimistic_replication.UseCase.{UseCase, PriorityQueue}
use optimistic_replication.Hamsou.{Handler, at_node, set_node, set_vars}
use optimistic_replication.Hamsou.Ops.{tick, insert_call, execute_remote, commit, pop}
use optimistic_replication.Hamsou.Failure.{is_orphan, bury}

length-set_node : (vc : List ℕ) (node v : ℕ) → length (set_node vc node v) ≡ length vc
length-set_node vc zero v = refl
length-set_node vc (suc i) v = length-set vc i v

pub length-tick : (vc : List ℕ) (node : ℕ) → length (tick vc node) ≡ length vc
unfolding tick
length-tick vc node = elim (Option-cases (at_node vc node)) [
  | inl e ↦ rw (e, tick)
  | inr (v, e) ↦ rw (e, tick) (length-set_node vc node (v + 1))
]

pub length-zeros : (n : ℕ) → length (zeros n) ≡ n
length-zeros zero = refl
length-zeros (suc n) = ap suc (length-zeros n)

pub length-insert_call :
    (U : UseCase) (c : Call) (es : List Call) → length (insert_call U c es) ≡ suc (length es)
unfolding insert_call
length-insert_call U c [] = refl
length-insert_call U c (e ∷ es) = ground (arith, length-insert_call U c es)

module _ {U : UseCase} where
  -- `stable` are the calls that are final, and their replay is the stable state; `pending` are those
  -- that were executed and may still be joined by others. The counters agree with the lists.
  pub record Splits (s : Handler U) (stable pending : List Call) : Type 0 where
    pub list : s.execution_list ≡ stable ++ pending
    pub boundary : s.stable_index ≡ length stable
    pub current : s.current_index ≡ length s.execution_list
    pub waiting : s.waittobestable ≡ s.stable_index
    pub acknowledged : s.ackindex ≡ length s.send_ack_call_list
    pub clocks : length s.vector_clock ≡ s.number_of_nodes
    pub nodes : 0 < s.number_of_nodes
    pub replay : s.stable_state ≡ foldl U.update_stable_state U.initial stable

  pub take_stable :
      {s : Handler U} {pre suf : List Call}
      → Splits s pre suf
      → take s.stable_index s.execution_list ≡ pre
  take_stable {pre} {suf} v = rw (v.list, v.boundary) (take-append pre suf)

  pub drop_stable :
      {s : Handler U} {pre suf : List Call}
      → Splits s pre suf
      → drop s.stable_index s.execution_list ≡ suf
  drop_stable {pre} {suf} v = rw (v.list, v.boundary) (drop-append pre suf)

  pub execute_remote-Splits :
      (s : Handler U) (c : Call) (pre suf : List Call)
      → Splits s pre suf
      → Splits (execute_remote U s c) pre (insert_call U c suf)
  unfolding execute_remote
  execute_remote-Splits s c pre suf v = record {
    list = rw (take_stable v, drop_stable v);
    boundary = v.boundary;
    current = omega (
      arith,
      v.current,
      ap length v.list,
      length-append pre suf,
      ap length lists,
      length-append pre (insert_call U c suf),
      length-insert_call U c suf,
    );
    waiting = v.waiting;
    acknowledged = omega (arith, v.acknowledged, length-append {0} s.send_ack_call_list);
    clocks = length-tick s.vector_clock c.node_id ∙ v.clocks;
    nodes = v.nodes;
    replay = v.replay;
  }
    where
      lists :
          take s.stable_index s.execution_list
            ++ insert_call U c (drop s.stable_index s.execution_list)
          ≡ pre ++ insert_call U c suf
      lists = rw (take_stable v, drop_stable v)

  pub commit-Splits :
      (s : Handler U) (c : Call) (pre suf : List Call)
      → Splits s pre (c ∷ suf)
      → Splits (commit U s c) (pre ++ (c ∷ [])) suf
  unfolding commit
  commit-Splits s c pre suf v = record {
    list = v.list ∙ sym (append_assoc pre (c ∷ []) suf);
    boundary = omega (arith, v.boundary, length-append pre (c ∷ []));
    current = v.current;
    waiting = omega (arith, v.waiting);
    acknowledged = v.acknowledged;
    clocks = v.clocks;
    nodes = v.nodes;
    replay =
        ap (λ t. U.update_stable_state t c) v.replay
        ∙ sym (foldl-append U.update_stable_state U.initial pre (c ∷ []));
  }

  pub pop-Splits :
      (Q : PriorityQueue) (s : Handler U) (pre suf : List Call)
      → Splits s pre suf
      → Splits (pop U Q s) pre suf
  unfolding pop
  pop-Splits Q s pre suf v = go s.priority_queue refl
    where
      go : (q : List Call) → s.priority_queue ≡ q → Splits (pop U Q s) pre suf
      go [] e = rw (e, pop) v
      go (top ∷ rest) e =
          rw (e, pop)
            (record {
              list = v.list;
              boundary = v.boundary;
              current = v.current;
              waiting = v.waiting;
              acknowledged = v.acknowledged;
              clocks = v.clocks;
              nodes = v.nodes;
              replay = v.replay;
            })

  pub bury-Splits :
      (s : Handler U) (r : ℕ) (pre suf : List Call)
      → Splits s pre suf
      → Splits (bury U s r) pre (keep_if (λ c. not (is_orphan s.acks r c)) suf)
  unfolding bury
  bury-Splits s r pre suf v = record {
    list = rw (take_stable v, drop_stable v);
    boundary = v.boundary;
    current = refl;
    waiting = v.waiting;
    acknowledged = v.acknowledged;
    clocks = v.clocks;
    nodes = v.nodes;
    replay = v.replay;
  }

  -- A new handler of at least one node has executed nothing.
  pub set_vars-Splits :
      (id num_nodes expected : ℕ) → 0 < num_nodes → Splits (set_vars U id num_nodes expected) [] []
  unfolding set_vars
  set_vars-Splits id num_nodes expected h = record {
    list = refl;
    boundary = refl;
    current = refl;
    waiting = refl;
    acknowledged = refl;
    clocks = length-zeros num_nodes;
    nodes = h;
    replay = refl;
  }

  -- `pre` are the stable calls, and the pending ones satisfy `R`.
  pub record Holds (R : List Call → Type 0) (pre : List Call) (s : Handler U) : Type 0 where
    pub pending : List Call
    pub splits : Splits s pre pending
    pub holds : R pending

  -- The stable calls `pre` are still in front; `more` may have followed them.
  pub record Extends (R : List Call → Type 0) (pre : List Call) (s : Handler U) : Type 0 where
    pub more : List Call
    pub rest : Holds R (pre ++ more) s

  pub Extends-trans :
      (R : List Call → Type 0) (pre mid : List Call) (s : Handler U)
      → Extends R (pre ++ mid) s
      → Extends R pre s
  Extends-trans R pre mid s x = record {
    more = mid ++ x.more;
    rest = rw (append_assoc pre mid x.more) at x.rest;
  }

  pub Extends-here :
      (R : List Call → Type 0) (pre : List Call) (s : Handler U) → Holds R pre s → Extends R pre s
  Extends-here R pre s h = record { more = []; rest = rw append-nil h }

-- What the operations do to the pending calls keeps `R`: they insert a remote call at its place, make a
-- front part stable, drop some, and append a local call without a conflict.
pub record KeepsPending (U : UseCase) (R : List Call → Type 0) : Type 0 where
  pub insert : (c : Call) (es : List Call) → R es → R (insert_call U c es)
  pub suffix : (xs ys : List Call) → R (xs ++ ys) → R ys
  pub keep : (p : Call → Bool) (es : List Call) → R es → R (keep_if p es)
  pub append :
      (c : Call) (vc : List ℕ) (es : List Call)
      → All (λ e. U.fast_is_reachable_local c e ≡ false) es
      → R es
      → R (es ++ (record c { call_vector_clock = vc } ∷ []))

-- The property that holds of every list.
abbrev pub Any : List Call → Type 0
Any es = Unit {0}

pub Any-KeepsPending : (U : UseCase) → KeepsPending U Any
Any-KeepsPending U = record {
  insert = λ c es h. tt;
  suffix = λ xs ys h. tt;
  keep = λ p es h. tt;
  append = λ c vc es free h. tt;
}
