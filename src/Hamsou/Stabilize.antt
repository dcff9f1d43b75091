-- ===== src/Hamsou/Stabilize.antt =====
-- protocol-hamsou.cpp, updateAcksTable and stabilizerWithAck: which calls become final.
use mathlib.Core.Bool.{true≢false}
use mathlib.Core.List.Perm
use mathlib.Core.Path.{ap₂}
use optimistic_replication.Prelude.{
  refl, ◌-◌, suc, length, keep_if, ℕ, ◌+◌, ◌≤◌, ◌≡◌, sym, ap, ◌∙◌, ◌⊎◌, ◌≢◌, Bool, true, false,
  List, [], ◌∷◌, ◌++◌, append_assoc, Perm, arith, All, subst, if◌then◌else◌,
}
use optimistic_replication.Call.{Call}
use optimistic_replication.UseCase.{UseCase, PriorityQueue}
use optimistic_replication.Hamsou.{Handler, count_ack}
use optimistic_replication.Hamsou.Ops.{
  acked, count_failed, quorum_of, stabilize_loop, drain, stabilizer_with_ack, update_acks_table,
}
use optimistic_replication.Hamsou.Splits.{
  Splits, Extends-here, Holds, Extends, KeepsPending, drop_stable,
}
use optimistic_replication.Hamsou.Deliver.{drain-perm, held}
use optimistic_replication.Hamsou.Pending.{drain-Holds}
use optimistic_replication.Hamsou.Progress.{Stops, Progress, stabilize_loop-Progress}

module _ (U : UseCase) where
  -- The other nodes that have not failed.
  abbrev pub live_others : Handler U → ℕ
  live_others s = s.number_of_nodes - 1 - length (keep_if (λ b. b) s.node_failed)

  -- A call has the acknowledgements that this node waits for: one from every other live node for its
  -- own call, and one less for the call of another node.
  abbrev pub HasQuorum : Handler U → Call → Type 0
  HasQuorum s c =
      ((c.node_id ≡ s.node_id) × (live_others s ≤ s.acks c.node_id c.call_id))
      ⊎ ((c.node_id ≢ s.node_id) × (live_others s ≤ s.acks c.node_id c.call_id + 1))

  count_failed_lem : (bs : List Bool) → count_failed U bs ≡ length (keep_if (λ b. b) bs)
  unfolding count_failed
  count_failed_lem [] = refl
  count_failed_lem (true ∷ bs) = ap suc (count_failed_lem bs)
  count_failed_lem (false ∷ bs) = count_failed_lem bs

  quorum_of_lem : (s : Handler U) → quorum_of U s ≡ live_others s
  unfolding quorum_of
  quorum_of_lem s = ap (λ n. s.number_of_nodes - 1 - n) (count_failed_lem s.node_failed)

  acked→HasQuorum : (s : Handler U) (c : Call) → acked U s (quorum_of U s) c ≡ true → HasQuorum s c
  unfolding acked
  acked→HasQuorum s c h = split (live_others s) (rw (quorum_of_lem s) at h)
    where
      split :
          (n : ℕ)
          → acked U s n c ≡ true
          → ((c.node_id ≡ s.node_id) × (n ≤ s.acks c.node_id c.call_id))
            ⊎ ((c.node_id ≢ s.node_id) × (n ≤ s.acks c.node_id c.call_id + 1))
      split n h = ground arith

  HasQuorum→acked : (s : Handler U) (c : Call) → HasQuorum s c → acked U s (quorum_of U s) c ≡ true
  unfolding acked
  HasQuorum→acked s c h = rw (quorum_of_lem s) (join (live_others s) h)
    where
      join :
          (n : ℕ)
          → ((c.node_id ≡ s.node_id) × (n ≤ s.acks c.node_id c.call_id))
            ⊎ ((c.node_id ≢ s.node_id) × (n ≤ s.acks c.node_id c.call_id + 1))
          → acked U s n c ≡ true
      join n h = ground arith

  -- No pending call is left, or the next one lacks acknowledgements.
  abbrev pub NextLacks : Handler U → List Call → Type 0
  NextLacks s [] = Unit {0}
  NextLacks s (c ∷ cs) = ¬ HasQuorum s c

  -- What stabilizerWithAck makes of a handler: `now` is the longest front part of the pending calls in
  -- which each has its quorum; these calls follow the stable ones, and others are pending.
  pub record Stabilized (R : List Call → Type 0) (s s' : Handler U) (pre suf : List Call)
      : Type 0 where
    pub now : List Call
    pub later : List Call
    pub parts : suf ≡ now ++ later
    pub quorums : All (HasQuorum s) now
    pub next : NextLacks s later
    pub rest : Holds R (pre ++ now) s'

  All-HasQuorum :
      (s : Handler U) (cs : List Call)
      → All (λ c. acked U s (quorum_of U s) c ≡ true) cs
      → All (HasQuorum s) cs
  All-HasQuorum s [] h = tt
  All-HasQuorum s (c ∷ cs) h = (acked→HasQuorum s c h.0, All-HasQuorum s cs h.1)

  Stops→NextLacks : (s : Handler U) (cs : List Call) → Stops U s (quorum_of U s) cs → NextLacks s cs
  Stops→NextLacks s [] h = tt
  Stops→NextLacks s (c ∷ cs) h = λ q. true≢false (sym (HasQuorum→acked s c q) ∙ h)

  module _ (Q : PriorityQueue) where
    -- The queue is emptied after the loop, if a call became stable.
    stabilizer-perm_of_Progress :
        (s s' : Handler U) (quorum : ℕ) (pre suf : List Call)
        → Splits s pre suf
        → Progress U s s' quorum pre suf
        → held U s' ≡ held U s
    stabilizer-perm_of_Progress s s' quorum pre suf v g =
        ap₂ ◌++◌
          (g.splits.list
            ∙ append_assoc pre g.now g.later
            ∙ ap (◌++◌ pre) (sym g.parts)
            ∙ sym v.list)
          g.same_queue

    -- In a well-formed handler, stabilizerWithAck loses no call and doubles none.
    pub stabilizer_with_ack-perm :
        (s : Handler U) (pre suf : List Call)
        → Splits s pre suf
        → Perm (held U (stabilizer_with_ack U Q s)) (held U s)
    unfolding stabilizer_with_ack
    stabilizer_with_ack-perm s pre suf v =
        rw (drop_stable v) (go (stabilize_loop U _ suf s false).1)
      where
        s' : Handler U
        s' = (stabilize_loop U (quorum_of U s) suf s false).0

        same : held U s' ≡ held U s
        same =
            stabilizer-perm_of_Progress s s' (quorum_of U s) pre suf v
              (stabilize_loop-Progress U (quorum_of U s) s false pre suf v)

        go : (can : Bool) → Perm (held U (if can then drain U Q s' else s')) (held U s)
        go true = subst (Perm (held U (drain U Q s'))) same (drain-perm U Q s')
        go false = subst (Perm (held U s')) same (Perm.refl _)

    module _ (R : List Call → Type 0) (K : KeepsPending U R) where
      -- In a well-formed handler, stabilizerWithAck makes stable exactly the longest front part of the
      -- pending calls in which each has its quorum of acknowledgements; the calls that were stable stay
      -- so in their order, and the stable state is the replay of the new stable calls.
      pub stabilizer_with_ack-Stabilized :
          (s : Handler U) (pre suf : List Call)
          → Splits s pre suf
          → R suf
          → Stabilized R s (stabilizer_with_ack U Q s) pre suf
      unfolding stabilizer_with_ack
      stabilizer_with_ack-Stabilized s pre suf v r = record {
        now = g.now;
        later = g.later;
        parts = g.parts;
        quorums = All-HasQuorum s g.now g.enough;
        next = Stops→NextLacks s g.later g.stops;
        rest = rw (drop_stable v) (go (stabilize_loop U _ suf s false).1);
      }
        where
          s' : Handler U
          s' = (stabilize_loop U (quorum_of U s) suf s false).0

          g : Progress U s s' (quorum_of U s) pre suf
          g = stabilize_loop-Progress U (quorum_of U s) s false pre suf v

          kept : Holds R (pre ++ g.now) s'
          kept = record {
            pending = g.later;
            splits = g.splits;
            holds = K.suffix g.now g.later (subst R g.parts r);
          }

          go : (can : Bool) → Holds R (pre ++ g.now) (if can then drain U Q s' else s')
          go true = drain-Holds U Q R K (pre ++ g.now) s' kept
          go false = kept

      pub stabilizer_with_ack-Extends :
          (pre : List Call) (s : Handler U)
          → Holds R pre s
          → Extends R pre (stabilizer_with_ack U Q s)
      stabilizer_with_ack-Extends pre s h =
          let t = stabilizer_with_ack-Stabilized s pre h.pending h.splits h.holds in
          record { more = t.now; rest = t.rest }

      -- An acknowledgement is counted, and may make calls stable.
      pub update_acks_table-Extends :
          (pre : List Call) (s : Handler U) (c : Call)
          → Holds R pre s
          → Extends R pre (update_acks_table U Q s c)
      unfolding update_acks_table
      update_acks_table-Extends pre s c h = choose (acked U counted (quorum_of U s) c)
        where
          counted : Handler U
          counted = record s { acks = count_ack s.acks c.node_id c.call_id }

          kept : Holds R pre counted
          kept = record {
            pending = h.pending;
            splits = record {
              list = h.splits.list;
              boundary = h.splits.boundary;
              current = h.splits.current;
              waiting = h.splits.waiting;
              acknowledged = h.splits.acknowledged;
              clocks = h.splits.clocks;
              nodes = h.splits.nodes;
              replay = h.splits.replay;
            };
            holds = h.holds;
          }

          choose :
              (b : Bool) → Extends R pre (if b then stabilizer_with_ack U Q counted else counted)
          choose true = stabilizer_with_ack-Extends pre counted kept
          choose false = Extends-here R pre counted kept
