-- ===== src/Hamsou/Pending.antt =====
-- protocol-hamsou.cpp, what remoteHandler and the loop that empties the queue keep of the pending calls.
use optimistic_replication.Prelude.{inl, inr, true, List, length, Bool-cases}
use optimistic_replication.Call.{Call}
use optimistic_replication.UseCase.{UseCase, PriorityQueue}
use optimistic_replication.Hamsou.{Handler}
use optimistic_replication.Hamsou.Ops.{
  insert_call, execute_remote, pop, drain, internal_downstream_execute,
}
use optimistic_replication.Hamsou.Splits.{Holds, KeepsPending, execute_remote-Splits, pop-Splits}
use optimistic_replication.Hamsou.Deliver.{
  must_wait, enqueue, remote_handler-waits, remote_handler-runs, drain_loop-keeps,
}

module _ (U : UseCase) (Q : PriorityQueue) (R : List Call → Type 0) (K : KeepsPending U R) where
  -- Executing a remote call adds to the pending calls only.
  execute_remote-Holds :
      (pre : List Call) (s : Handler U) (c : Call)
      → Holds R pre s
      → Holds R pre (execute_remote U s c)
  execute_remote-Holds pre s c x = record {
    pending = insert_call U c x.pending;
    splits = execute_remote-Splits s c pre x.pending x.splits;
    holds = K.insert c x.pending x.holds;
  }

  -- So does each round of a loop over the queue.
  pub round-Holds :
      (pre : List Call) (s : Handler U) (c : Call)
      → Holds R pre s
      → Holds R pre (pop U Q (execute_remote U s c))
  round-Holds pre s c x =
      let y = execute_remote-Holds pre s c x in
      record {
        pending = y.pending;
        splits = pop-Splits Q (execute_remote U s c) pre y.pending y.splits;
        holds = y.holds;
      }

  pub drain-Holds : (pre : List Call) (s : Handler U) → Holds R pre s → Holds R pre (drain U Q s)
  unfolding drain
  drain-Holds pre s x =
      drain_loop-keeps U Q (Holds R pre) (λ t top rest e h. round-Holds pre t top h)
        (length s.priority_queue) s x

  enqueue-Holds :
      (pre : List Call) (s : Handler U) (c : Call) → Holds R pre s → Holds R pre (enqueue U Q s c)
  enqueue-Holds pre s c x = record {
    pending = x.pending;
    splits = record {
      list = x.splits.list;
      boundary = x.splits.boundary;
      current = x.splits.current;
      waiting = x.splits.waiting;
      acknowledged = x.splits.acknowledged;
      clocks = x.splits.clocks;
      nodes = x.splits.nodes;
      replay = x.splits.replay;
    };
    holds = x.holds;
  }

  pub internal_downstream_execute-Holds :
      (pre : List Call) (s : Handler U) (c : Call)
      → Holds R pre s
      → Holds R pre (internal_downstream_execute U Q s c)
  unfolding internal_downstream_execute
  internal_downstream_execute-Holds pre s c x = elim (Bool-cases (must_wait U Q s c)) [
    | inl w ↦
        rw (remote_handler-waits U Q true s c w)
          (drain-Holds pre (enqueue U Q s c) (enqueue-Holds pre s c x))
    | inr w ↦
        rw (remote_handler-runs U Q true s c w)
          (drain-Holds pre (execute_remote U s c) (execute_remote-Holds pre s c x))
  ]
