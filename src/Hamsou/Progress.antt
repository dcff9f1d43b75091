-- ===== src/Hamsou/Progress.antt =====
-- protocol-hamsou.cpp, the loop of stabilizerWithAck: how it splits the pending calls.
use optimistic_replication.Prelude.{
  ℕ, ◌≡◌, refl, ap, inl, inr, Bool, true, false, List, [], ◌∷◌, ◌++◌, append_assoc, append-nil, All,
  Bool-cases,
}
use optimistic_replication.Call.{Call}
use optimistic_replication.UseCase.{UseCase}
use optimistic_replication.Hamsou.{Handler}
use optimistic_replication.Hamsou.Ops.{acked, commit, stabilize_loop}
use optimistic_replication.Hamsou.Splits.{Splits, commit-Splits}

module _ (U : UseCase) where
  -- Committing a call changes no count of acknowledgements.
  acked-commit :
      (s : Handler U) (d c : Call) (quorum : ℕ)
      → acked U (commit U s d) quorum c ≡ acked U s quorum c
  unfolding acked commit
  acked-commit s d c quorum = refl

  -- No call follows, or the next one lacks acknowledgements.
  abbrev pub Stops : Handler U → ℕ → List Call → Type 0
  Stops s quorum [] = Unit {0}
  Stops s quorum (c ∷ cs) = acked U s quorum c ≡ false

  -- How the loop splits the pending calls: `now` become stable and `later` stay.
  pub record Progress (s s' : Handler U) (quorum : ℕ) (pre suf : List Call) : Type 0 where
    pub now : List Call
    pub later : List Call
    pub parts : suf ≡ now ++ later
    pub splits : Splits s' (pre ++ now) later
    pub enough : All (λ c. acked U s quorum c ≡ true) now
    pub stops : Stops s quorum later
    pub same_queue : s'.priority_queue ≡ s.priority_queue
    pub same_acks : s'.acks ≡ s.acks

  Progress-none :
      (s : Handler U) (quorum : ℕ) (pre suf : List Call)
      → Splits s pre suf
      → Stops s quorum suf
      → Progress s s quorum pre suf
  Progress-none s quorum pre suf v stop = record {
    now = [];
    later = suf;
    parts = refl;
    splits = rw append-nil v;
    enough = tt;
    stops = stop;
    same_queue = refl;
    same_acks = refl;
  }

  Stops-commit :
      (s : Handler U) (c : Call) (quorum : ℕ) (cs : List Call)
      → Stops (commit U s c) quorum cs
      → Stops s quorum cs
  unfolding acked commit
  Stops-commit s c quorum [] h = tt
  Stops-commit s c quorum (d ∷ ds) h = h

  Progress-commit :
      (s s' : Handler U) (c : Call) (quorum : ℕ) (pre cs : List Call)
      → acked U s quorum c ≡ true
      → Progress (commit U s c) s' quorum (pre ++ (c ∷ [])) cs
      → Progress s s' quorum pre (c ∷ cs)
  unfolding commit acked
  Progress-commit s s' c quorum pre cs e rest = record {
    now = c ∷ rest.now;
    later = rest.later;
    parts = ap (◌∷◌ c) rest.parts;
    splits = rw (append_assoc pre (c ∷ []) rest.now) at rest.splits;
    enough = (e, rest.enough);
    stops = Stops-commit s c quorum rest.later rest.stops;
    same_queue = rest.same_queue;
    same_acks = rest.same_acks;
  }

  pub stabilize_loop-Progress :
      (quorum : ℕ) (s : Handler U) (can : Bool) (pre suf : List Call)
      → Splits s pre suf
      → Progress s (stabilize_loop U quorum suf s can).0 quorum pre suf
  unfolding stabilize_loop
  stabilize_loop-Progress quorum s can pre [] v = Progress-none s quorum pre [] v tt
  stabilize_loop-Progress quorum s can pre (c ∷ cs) v = elim (Bool-cases (acked U s quorum c)) [
    | inr e ↦ rw e (Progress-none s quorum pre (c ∷ cs) v e)
    | inl e ↦
        let rest =
          stabilize_loop-Progress quorum (commit U s c) true (pre ++ (c ∷ [])) cs
            (commit-Splits s c pre cs v) in
        rw e (Progress-commit s _ c quorum pre cs e rest)
  ]
