-- ===== src/System/Invariant.antt =====
-- What holds of every node of the cluster, whatever the order of the steps: its handler is well-formed and
-- holds the operations that it has issued and those that it has received.
use mathlib.Core.List.Perm
use native.Mathlib.Decide.{ℕ_discrete}
use optimistic_replication.Prelude.{
  ℕ, suc, ◌≤◌, ◌<◌, ◌≡◌, ◌≢◌, sym, ap, ◌∙◌, Bool, some, List, [], ◌∷◌, ◌++◌, Perm, All, All-append,
  length, length-append, take, take-more, take-next, get_elem?, codes, subst, arith, if◌then◌else◌,
  ◌==◌, keep_if-append, ◌⊎◌, inl, inr,
}
use optimistic_replication.Call.{Call}
use optimistic_replication.UseCase.{UseCase}
use optimistic_replication.Hamsou.{Handler}
use optimistic_replication.Hamsou.Splits.{Holds}
use optimistic_replication.Hamsou.Deliver.{held}
use optimistic_replication.Driver.Acks.{Keeps, IsAck}
use optimistic_replication.System.{update, is_operation, operations}
use optimistic_replication.System.Gather.{gather, gather-grows, gather-same}

pub update_self {ℓ} : {A : Type ℓ} → (f : ℕ → A) (i : ℕ) (a : A) → update f i a i ≡ a
update_self f i a = ground arith

pub update_other {ℓ} :
    {A : Type ℓ} → (f : ℕ → A) (i : ℕ) (a : A) (k : ℕ) → k ≢ i → update f i a k ≡ f k
update_other f i a k h = ground arith

-- What a node has acknowledged.
abbrev pub AllAcks : List Call → Type 0
AllAcks = All (λ c. c.type ≡ codes "Ack")

-- The messages that were taken stay the same when others follow.
take-update :
    (sent : ℕ → List Call) (taken : ℕ → ℕ) (p : ℕ) (ms : List Call) (k : ℕ)
    → taken k ≤ length (sent k)
    → take (taken k) (update sent p (sent p ++ ms) k) ≡ take (taken k) (sent k)
take-update sent taken p ms k h = elim (ℕ_discrete k p) [
  | yes e ↦
      subst (λ q. take (taken k) (update sent q (sent q ++ ms) k) ≡ take (taken k) (sent k)) e
        (ap (take (taken k)) (update_self sent k (sent k ++ ms))
          ∙ take-more (taken k) (sent k) ms h)
  | no e ↦ ap (take (taken k)) (update_other sent p (sent p ++ ms) k e)
]

bound-update :
    (sent : ℕ → List Call) (taken : ℕ → ℕ) (p : ℕ) (ms : List Call) (k : ℕ)
    → taken k ≤ length (sent k)
    → taken k ≤ length (update sent p (sent p ++ ms) k)
bound-update sent taken p ms k h = elim (ℕ_discrete k p) [
  | yes e ↦
      subst (λ q. taken k ≤ length (update sent q (sent q ++ ms) k)) e
        (rw (update_self sent k (sent k ++ ms)) (omega (arith, h, length-append (sent k) ms)))
  | no e ↦ rw (update_other sent p (sent p ++ ms) k e) h
]

module _ (check_validcall : Call → Bool) where
  -- The operations of node k that node i has: its own are those that it has broadcast.
  abbrev pub part : (ℕ → List Call) → (ℕ → ℕ) → ℕ → ℕ → List Call
  part sent taken i k =
      if k == i
      then operations check_validcall (sent k)
      else operations check_validcall (take (taken k) (sent k))

  pub part_self :
      (sent : ℕ → List Call) (taken : ℕ → ℕ) (i : ℕ)
      → part sent taken i i ≡ operations check_validcall (sent i)
  part_self sent taken i = ground arith

  pub part_other :
      (sent : ℕ → List Call) (taken : ℕ → ℕ) (i k : ℕ)
      → k ≢ i
      → part sent taken i k ≡ operations check_validcall (take (taken k) (sent k))
  part_other sent taken i k h = ground arith

  -- A broadcast changes nothing of what other nodes have received.
  part_sends :
      (sent : ℕ → List Call) (taken : ℕ → ℕ) (i p : ℕ) (ms : List Call) (k : ℕ)
      → k ≢ i ⊎ i ≢ p
      → taken k ≤ length (sent k)
      → part (update sent p (sent p ++ ms)) taken i k ≡ part sent taken i k
  part_sends sent taken i p ms k d h = elim (ℕ_discrete k i) [
    | no e ↦
        part_other (update sent p (sent p ++ ms)) taken i k e
        ∙ ap (operations check_validcall) (take-update sent taken p ms k h)
        ∙ sym (part_other sent taken i k e)
    | yes e ↦
        let f : i ≢ p = elim d [ inl g ↦ absurd (g e) | inr g ↦ g ] in
        subst (λ k. part (update sent p (sent p ++ ms)) taken i k ≡ part sent taken i k) (sym e)
          (part_self (update sent p (sent p ++ ms)) taken i
            ∙ ap (operations check_validcall) (update_other sent p (sent p ++ ms) i f)
            ∙ sym (part_self sent taken i))
  ]

  part_own :
      (sent : ℕ → List Call) (taken : ℕ → ℕ) (i : ℕ) (ms : List Call)
      → part (update sent i (sent i ++ ms)) taken i i
        ≡ part sent taken i i ++ operations check_validcall ms
  part_own sent taken i ms =
      part_self (update sent i (sent i ++ ms)) taken i
      ∙ ap (operations check_validcall) (update_self sent i (sent i ++ ms))
      ∙ keep_if-append (is_operation check_validcall) (sent i) ms
      ∙ ap (λ l. l ++ operations check_validcall ms) (sym (part_self sent taken i))

  part_takes :
      (sent : ℕ → List Call) (taken : ℕ → ℕ) (i k : ℕ) (m : Call)
      → k ≢ i
      → get_elem? (sent k) (taken k) ≡ some m
      → part sent (update taken k (suc (taken k))) i k
        ≡ part sent taken i k ++ operations check_validcall (m ∷ [])
  part_takes sent taken i k m h e =
      part_other sent (update taken k (suc (taken k))) i k h
      ∙ ap (λ n. operations check_validcall (take n (sent k))) (update_self taken k (suc (taken k)))
      ∙ ap (operations check_validcall) (take-next (taken k) (sent k) m e).0
      ∙ keep_if-append (is_operation check_validcall) (take (taken k) (sent k)) (m ∷ [])
      ∙ ap (λ l. l ++ operations check_validcall (m ∷ [])) (sym (part_other sent taken i k h))

  part_keeps :
      (sent : ℕ → List Call) (taken : ℕ → ℕ) (i k : ℕ) (v l : ℕ)
      → l ≢ k
      → part sent (update taken k v) i l ≡ part sent taken i l
  part_keeps sent taken i k v l h =
      ap
        (λ n.
          if l == i
          then operations check_validcall (sent l)
          else operations check_validcall (take n (sent l)))
        (update_other taken k v l h)

  module _ (U : UseCase) (R : List Call → Type 0) where
    pub record NodeHolds (n i : ℕ) (s : Handler U) (sent : ℕ → List Call) (taken : ℕ → ℕ)
        : Type 0 where
      pub stable : List Call
      pub rest : Holds R stable s
      pub acks : AllAcks s.send_ack_call_list
      pub bound : (k : ℕ) → taken k ≤ length (sent k)
      pub calls : Perm (held U s) (gather n (part sent taken i))

    -- What a step of its own may do to the handler of a node, where it adds the operations `more`.
    pub record Grows (s t : Handler U) (more : List Call) : Type 0 where
      pub stable : List Call
      pub rest : Holds R stable t
      pub acks : AllAcks t.send_ack_call_list
      pub calls : Perm (held U t) (more ++ held U s)

    pub AllAcks-Keeps :
        (s t : Handler U) → Keeps s t → AllAcks s.send_ack_call_list → AllAcks t.send_ack_call_list
    AllAcks-Keeps s t k h =
        subst AllAcks (sym k.list)
          (All-append _ s.send_ack_call_list k.more h (types k.more k.acks))
      where
        types : (cs : List Call) → All (IsAck s.send_ack_call.call_vector_clock) cs → AllAcks cs
        types [] a = tt
        types (c ∷ cs) a = (a.0.ack_type, types cs a.1)

    module _ (n i : ℕ) (s : Handler U) (sent : ℕ → List Call) (taken : ℕ → ℕ) where
      -- Another node broadcasts messages.
      pub NodeHolds-other :
          (p : ℕ) (ms : List Call)
          → i ≢ p
          → NodeHolds n i s sent taken
          → NodeHolds n i s (update sent p (sent p ++ ms)) taken
      NodeHolds-other p ms h v = record {
        stable = v.stable;
        rest = v.rest;
        acks = v.acks;
        bound = λ k. bound-update sent taken p ms k (v.bound k);
        calls =
            rw
              (gather-same n (part sent taken i) (part (update sent p (sent p ++ ms)) taken i)
                (λ k a b. part_sends sent taken i p ms k (inr h) (v.bound k)))
              v.calls;
      }

      -- The node broadcasts messages itself.
      pub NodeHolds-own :
          (t : Handler U) (ms : List Call)
          → 0 < i
          → i ≤ n
          → Grows s t (operations check_validcall ms)
          → NodeHolds n i s sent taken
          → NodeHolds n i t (update sent i (sent i ++ ms)) taken
      NodeHolds-own t ms a b g v = record {
        stable = g.stable;
        rest = g.rest;
        acks = g.acks;
        bound = λ k. bound-update sent taken i ms k (v.bound k);
        calls = Perm.trans g.calls (
            Perm.trans (Perm.append_left (operations check_validcall ms) v.calls) (
              Perm.symm (
                gather-grows n i (part sent taken i) (part (update sent i (sent i ++ ms)) taken i)
                  (operations check_validcall ms) a b (part_own sent taken i ms)
                  (λ k h. part_sends sent taken i i ms k (inl h) (v.bound k)))));
      }

      -- The node receives the next message of another.
      pub NodeHolds-take :
          (t : Handler U) (k : ℕ) (m : Call)
          → 0 < k
          → k ≤ n
          → k ≢ i
          → get_elem? (sent k) (taken k) ≡ some m
          → Grows s t (operations check_validcall (m ∷ []))
          → NodeHolds n i s sent taken
          → NodeHolds n i t sent (update taken k (suc (taken k)))
      NodeHolds-take t k m a b h e g v = record {
        stable = g.stable;
        rest = g.rest;
        acks = g.acks;
        bound = within;
        calls = Perm.trans g.calls (
            Perm.trans (Perm.append_left (operations check_validcall (m ∷ [])) v.calls) (
              Perm.symm (
                gather-grows n k (part sent taken i) (part sent (update taken k (suc (taken k))) i)
                  (operations check_validcall (m ∷ [])) a b (part_takes sent taken i k m h e)
                  (λ l d. part_keeps sent taken i k (suc (taken k)) l d))));
      }
        where
          within : (l : ℕ) → update taken k (suc (taken k)) l ≤ length (sent l)
          within l = elim (ℕ_discrete l k) [
            | yes q ↦
                rw (q, update_self taken k (suc (taken k))) (take-next (taken k) (sent k) m e).1
            | no q ↦ rw (update_other taken k (suc (taken k)) l q) (v.bound l)
          ]
