-- ===== src/Hamsou/Run.antt =====
-- A replica at work: the calls that tcp/main-replication-protocols.cpp issues at this node, the messages
-- that ServerConnection::receive dispatches, and the failures that it and the monitor thread report,
-- in any order.
use optimistic_replication.Prelude.{
  ℕ, ◌<◌, ◌≡◌, Bool, true, false, List, [], ◌∷◌, ◌++◌, if◌then◌else◌, Perm, drop,
}
use optimistic_replication.Call.{Call, type_is}
use optimistic_replication.UseCase.{UseCase, PriorityQueue, IsConflictAware}
use optimistic_replication.Hamsou.{Handler, set_vars}
use optimistic_replication.Hamsou.Ops.{
  LocalResult, local_handler, update_acks_table, internal_downstream_execute,
}
use optimistic_replication.Hamsou.Failure.{mark_node_failed}
use optimistic_replication.Hamsou.Failure.Effect.{mark_node_failed-Extends}
use optimistic_replication.Hamsou.Splits.{
  Splits, Holds, Extends, KeepsPending, Extends-trans, Extends-here, set_vars-Splits, Any,
  Any-KeepsPending, drop_stable,
}
use optimistic_replication.Hamsou.Local.{local_handler-cases, stamped_call, after_local-Splits}
use optimistic_replication.Hamsou.Pending.{internal_downstream_execute-Holds}
use optimistic_replication.Hamsou.Stabilize.{update_acks_table-Extends}
use optimistic_replication.Hamsou.Order.{
  IsOrdered, IsOrdered-KeepsPending, replay, replicas_converge,
}

pub if_keeps {ℓ κ} :
    {A : Type ℓ} (P : A → Type κ) (b : Bool) {x y : A} → P x → P y → P (if b then x else y)
if_keeps P true h k = h
if_keeps P false h k = k

pub data Event : Type 0 where
  issue receive : Call → Event
  fail : ℕ → Event

module _ (U : UseCase) (Q : PriorityQueue) (check_validcall : Call → Bool) where
  -- The dispatch of ServerConnection::receive for this protocol, on a message that it has decoded. A
  -- heartbeat writes a clock time only. `check_validcall` stands for the object's checkValidcall.
  unfoldable pub receive_call : Handler U → Call → Handler U
  receive_call s call =
      if type_is call "Heartbeat"
      then s
      else if type_is call "Ack"
      then update_acks_table U Q s call
      else if check_validcall call
      then internal_downstream_execute U Q s call
      else s

  unfoldable pub step : Handler U → Event → Handler U
  unfolding receive_call
  step s (issue call) = (local_handler U s call).handler
  step s (receive call) = receive_call s call
  step s (fail remote_node_id) = mark_node_failed U Q s remote_node_id

  unfoldable pub run : Handler U → List Event → Handler U
  unfolding step
  run s [] = s
  run s (e ∷ es) = run (step s e) es

  module _ (R : List Call → Type 0) (K : KeepsPending U R) where
    pub issue-Extends :
        (pre : List Call) (s : Handler U) (call : Call)
        → Holds R pre s
        → Extends R pre (local_handler U s call).handler
    issue-Extends pre s call h =
        local_handler-cases U (λ r. Extends R pre (LocalResult.handler r)) s call pre h.pending
          h.splits (λ permiss. Extends-here R pre s h)
          (λ free. Extends-here R pre _ (record {
            pending = h.pending ++ (stamped_call U s call ∷ []);
            splits = after_local-Splits U s call pre h.pending h.splits;
            holds = K.append call _ h.pending free h.holds;
          }))

    pub receive-Extends :
        (pre : List Call) (s : Handler U) (call : Call)
        → Holds R pre s
        → Extends R pre (receive_call s call)
    unfolding receive_call
    receive-Extends pre s call h =
        if_keeps (Extends R pre) (type_is call "Heartbeat") (Extends-here R pre s h) (
          if_keeps (Extends R pre) (type_is call "Ack")
            (update_acks_table-Extends U Q R K pre s call h)
            (if_keeps (Extends R pre) (check_validcall call)
              (Extends-here R pre _ (internal_downstream_execute-Holds U Q R K pre s call h))
              (Extends-here R pre s h)))

    step-Extends :
        (pre : List Call) (s : Handler U) (e : Event) → Holds R pre s → Extends R pre (step s e)
    unfolding step
    step-Extends pre s (issue call) h = issue-Extends pre s call h
    step-Extends pre s (receive call) h = receive-Extends pre s call h
    step-Extends pre s (fail r) h = mark_node_failed-Extends U Q R K pre s r h

    run-Extends :
        (pre : List Call) (s : Handler U) (es : List Event)
        → Holds R pre s
        → Extends R pre (run s es)
    unfolding run
    run-Extends pre s [] h = Extends-here R pre s h
    run-Extends pre s (e ∷ es) h =
        let x = step-Extends pre s e h in
        Extends-trans R pre x.more _ (run-Extends (pre ++ x.more) (step s e) es x.rest)

  -- From a well-formed handler, whatever calls are issued, whatever messages arrive and whatever nodes
  -- fail, in any order and number: the handler stays well-formed, and the calls that were stable stay
  -- stable, first and in their order.
  pub run_final :
      (s : Handler U) (pre suf : List Call) (es : List Event)
      → Splits s pre suf
      → (more : List Call) × (pending : List Call) × Splits (run s es) (pre ++ more) pending
  run_final s pre suf es v =
      let x =
        run-Extends Any (Any-KeepsPending U) pre s es
          (record { pending = suf; splits = v; holds = tt }) in
      (x.more, x.rest.pending, x.rest.splits)

  module _ (L : IsConflictAware U) where
    -- For a use case whose remote relation orders all conflicting calls: after any history of a new
    -- handler of at least one node, the handler is well-formed and its pending calls are in conflict
    -- order.
    pub run-IsOrdered :
        (id num_nodes expected : ℕ) (es : List Event)
        → 0 < num_nodes
        → (stable : List Call) × (pending : List Call) × Splits
            (run (set_vars U id num_nodes expected) es)
            stable
            pending
          × IsOrdered U pending
    run-IsOrdered id num_nodes expected es n =
        let x =
          run-Extends (IsOrdered U) (IsOrdered-KeepsPending U L) []
            (set_vars U id num_nodes expected) es
            (record {
              pending = [];
              splits = set_vars-Splits id num_nodes expected n;
              holds = tt;
            }) in
        (x.more, x.rest.pending, x.rest.splits, x.rest.holds)

    -- Convergence. For a use case whose remote relation orders all conflicting calls, take two nodes, each
    -- after any history of its own. If their stable states agree and they have the same pending calls, in
    -- whatever order the calls arrived, then replaying the execution lists leads both to the same state.
    pub run_converge :
        (id id' num_nodes expected expected' : ℕ) (es es' : List Event)
        → 0 < num_nodes
        → let s = run (set_vars U id num_nodes expected) es in
          let r = run (set_vars U id' num_nodes expected') es' in
          s.stable_state ≡ r.stable_state
          → Perm (drop s.stable_index s.execution_list) (drop r.stable_index r.execution_list)
          → replay U U.initial s.execution_list ≡ replay U U.initial r.execution_list
    run_converge id id' num_nodes expected expected' es es' n e p =
        let (pre, suf, v, h) = run-IsOrdered id num_nodes expected es n in
        let (pre', suf', w, k) = run-IsOrdered id' num_nodes expected' es' n in
        replicas_converge U L _ _ pre suf pre' suf' v w e h k
          (rw (drop_stable v, drop_stable w) at p)
