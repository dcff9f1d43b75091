-- ===== src/Driver/Accounts.antt =====
-- tcp/main-replication-protocols.cpp: the calls that the handler of the main loop holds.
use mathlib.Core.List.Perm
use optimistic_replication.Prelude.{
  true, ℕ, ◌<◌, ◌≡◌, refl, sym, Bool, List, [], ◌∷◌, ◌++◌, All, append-nil, append_assoc,
}
use optimistic_replication.Call.{Call}
use optimistic_replication.UseCase.{UseCase, PriorityQueue, IsConflictAware}
use optimistic_replication.Hamsou.{Handler, set_vars}
use optimistic_replication.Hamsou.Run.{if_keeps}
use optimistic_replication.Hamsou.Splits.{Splits, set_vars-Splits}
use optimistic_replication.Hamsou.Order.{IsOrdered, IsOrdered-KeepsPending}
use optimistic_replication.Driver.{Driver, Build, start}
use optimistic_replication.Driver.Loop.{
  DriverEvent, round, receive, fail, signal, enabled, step, run,
}
use optimistic_replication.Driver.Faithful.{Issued}
use optimistic_replication.Driver.Drives.{step-Extends}
use optimistic_replication.Driver.MovesOn.{MovesOn, step-MovesOn}
use optimistic_replication.Driver.Contents.{Accounts, round_of-Accounts, receive-Accounts}

-- The messages that arrive in a history.
abbrev pub received : List DriverEvent → List Call
received [] = []
received (receive c ∷ es) = c ∷ received es
received (round due ∷ es) = received es
received (fail node ∷ es) = received es
received (signal ∷ es) = received es

-- No failure is reported.
abbrev pub IsNoFailure : DriverEvent → Type 0
IsNoFailure (round due) = Unit {0}
IsNoFailure (receive c) = Unit {0}
IsNoFailure (fail node) = ⊥
IsNoFailure signal = Unit {0}

module _ (U : UseCase) (check_validcall : Call → Bool) where
  -- What holds of the loop: the account of its calls, and of the calls that are pending.
  pub record IsAccounted (calls heard : List Call) (s : Handler U) (left : List Call) : Type 0 where
    pub account : Accounts U check_validcall calls heard s left
    pub stable : List Call
    pub pending : List Call
    pub splits : Splits s stable pending
    pub ordered : IsOrdered U pending

  module _ (B : Build) (Q : PriorityQueue) (L : IsConflictAware U) (calls : List Call) where
    step-Accounts :
        (d : Driver U) (e : DriverEvent) (heard pre suf : List Call)
        → IsNoFailure e
        → Splits d.hdl pre suf
        → Accounts U check_validcall calls heard d.hdl d.left
        → Accounts U check_validcall calls
            (heard ++ received (e ∷ []))
            (step U B Q check_validcall d e).hdl
            (step U B Q check_validcall d e).left
    unfolding step
    step-Accounts d (round due) heard pre suf n h v = rw append-nil (
        if_keeps (λ (t : Driver U). Accounts U check_validcall calls heard t.hdl t.left)
          (enabled U B d) (round_of-Accounts U check_validcall calls heard B due d pre suf h v) v)
    step-Accounts d (receive c) heard pre suf n h v =
        receive-Accounts U check_validcall Q calls heard d.hdl c d.left pre suf h v
    step-Accounts d (fail node) heard pre suf n h v = absurd n
    step-Accounts d signal heard pre suf n h v = rw append-nil v

    received-cons :
        (e : DriverEvent) (es : List DriverEvent)
        → received (e ∷ es) ≡ received (e ∷ []) ++ received es
    received-cons (round due) es = refl
    received-cons (receive c) es = refl
    received-cons (fail node) es = refl
    received-cons signal es = refl

    run-IsAccounted :
        (d : Driver U) (es : List DriverEvent) (heard : List Call)
        → All IsNoFailure es
        → IsAccounted calls heard d.hdl d.left
        → IsAccounted calls
            (heard ++ received es)
            (run U B Q check_validcall d es).hdl
            (run U B Q check_validcall d es).left
    unfolding run
    run-IsAccounted d [] heard n v = rw append-nil v
    run-IsAccounted d (e ∷ es) heard n v =
        let x =
          step-Extends U (IsOrdered U) (IsOrdered-KeepsPending U L) B Q check_validcall v.stable d e
            (record { pending = v.pending; splits = v.splits; holds = v.ordered }) in
        rw (received-cons e es, sym (append_assoc heard (received (e ∷ [])) (received es)))
          (run-IsAccounted (step U B Q check_validcall d e) es (heard ++ received (e ∷ [])) n.1
            (record {
              account = step-Accounts d e heard v.stable v.pending n.0 v.splits v.account;
              stable = v.stable ++ x.more;
              pending = x.rest.pending;
              splits = x.rest.splits;
              ordered = x.rest.holds;
            }))

start-IsAccounted :
    (U : UseCase) (B : Build) (check_validcall : Call → Bool) (id numnodes expected : ℕ)
    (calls : List Call)
    → 0 < numnodes
    → IsAccounted U check_validcall calls []
        (start U B id numnodes expected calls).hdl
        (start U B id numnodes expected calls).left
unfolding start set_vars
start-IsAccounted U B check_validcall id numnodes expected calls p = record {
  account = record {
    done = [];
    ours = [];
    workload = refl;
    issued = Issued.nothing;
    contents = Perm.refl [];
  };
  stable = [];
  pending = [];
  splits = set_vars-Splits id numnodes expected p;
  ordered = tt;
}

-- For a use case whose remote relation orders all conflicting calls: take a node that starts with any
-- workload, among at least one node. After any rounds, messages and signals, while no failure is
-- reported, the calls that the loop has passed are the first of the workload in their order, and the
-- handler holds, executed or queued, exactly those of them that localHandler executed and the operations
-- among the messages that have arrived, each as often as it was executed or arrived; the other calls
-- passed only read, or were not permissible. The handler is well-formed and its pending calls are in
-- conflict order. With a further round at a due time the loop passes the next call, unless it ends, has
-- none left, or waits.
pub main_loop-IsAccounted :
    (U : UseCase) (B : Build) (Q : PriorityQueue) (check_validcall : Call → Bool)
    (L : IsConflictAware U) (id numnodes expected : ℕ) (calls : List Call) (es : List DriverEvent)
    → 0 < numnodes
    → All IsNoFailure es
    → IsAccounted U check_validcall calls
        (received es)
        (run U B Q check_validcall (start U B id numnodes expected calls) es).hdl
        (run U B Q check_validcall (start U B id numnodes expected calls) es).left
      × MovesOn B (run U B Q check_validcall (start U B id numnodes expected calls) es).left (
          step U B Q check_validcall
            (run U B Q check_validcall (start U B id numnodes expected calls) es)
            (round true))
main_loop-IsAccounted U B Q check_validcall L id numnodes expected calls es p n =
    let d = start U B id numnodes expected calls in
    (
      run-IsAccounted U check_validcall B Q L calls d es [] n
          (start-IsAccounted U B check_validcall id numnodes expected calls p),
      step-MovesOn U B Q check_validcall (run U B Q check_validcall d es),
    )
