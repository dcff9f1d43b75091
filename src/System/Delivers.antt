-- ===== src/System/Delivers.antt =====
-- The cluster comes to rest: the messages on their way can all be delivered, and then the nodes agree.
use native.Mathlib.Decide.{ℕ_discrete, dec_le}
use optimistic_replication.Prelude.{
  ℕ, zero, suc, ◌+◌, ◌≤◌, ◌<◌, ◌≡◌, ◌≢◌, refl, sym, ap, ◌∙◌, Bool, some, List, [], ◌∷◌, Perm,
  length, drop, get_elem?, subst, arith,
}
use optimistic_replication.Call.{Call}
use optimistic_replication.UseCase.{UseCase, PriorityQueue}
use optimistic_replication.Hamsou.Deliver.{held}
use optimistic_replication.System.{update, System, operations, Reach, later, deliver, deliver_at}
use optimistic_replication.System.Invariant.{update_self, update_other}
use optimistic_replication.System.Agree.{Reach-quiet, broadcast_operations}

module _ {A : Type 0} where
  get_elem?-within : (n : ℕ) (xs : List A) → n < length xs → (a : A) × (get_elem? xs n ≡ some a)
  get_elem?-within n [] h = absurd (omega arith)
  get_elem?-within zero (x ∷ xs) h = (x, refl)
  get_elem?-within (suc n) (x ∷ xs) h = get_elem?-within n xs (omega arith)

  drop-all : (n : ℕ) (xs : List A) → length xs ≤ n → drop n xs ≡ []
  drop-all zero [] h = refl
  drop-all zero (x ∷ xs) h = absurd (omega arith)
  drop-all (suc n) [] h = refl
  drop-all (suc n) (x ∷ xs) h = drop-all n xs (omega arith)

module _ (check_validcall : Call → Bool) {U : UseCase} (Q : PriorityQueue) (n expected : ℕ) where
  -- The states that deliveries alone reach from `s`: in each step a node receives the next message of
  -- another node.
  pub data Deliveries (s : System U) : System U → Type 0 where
    nothing : Deliveries s s
    further :
        {t : System U}
        → Deliveries s t
        → (i k : ℕ) (m : Call) → 0 < i
        → i ≤ n
        → 0 < k
        → k ≤ n
        → k ≢ i
        → get_elem? (t.sent k) (t.taken i k) ≡ some m
        → Deliveries s (deliver_at check_validcall Q t i k m)

  Deliveries-trans : {s t u : System U} → Deliveries s t → Deliveries t u → Deliveries s u
  Deliveries-trans p nothing = p
  Deliveries-trans p (further q i k m a b c d e f) =
      further (Deliveries-trans p q) i k m a b c d e f

  -- Node i has received everything that node k has broadcast.
  abbrev AllTaken : System U → ℕ → ℕ → Type 0
  AllTaken s i k = length (s.sent k) ≤ s.taken i k

  -- A state that is reached by deliveries only.
  record Onward (s : System U) : Type 0 where
    next : System U
    path : Deliveries s next
    reach : Reach check_validcall Q n expected next
    same_sent : next.sent ≡ s.sent
    more_taken : (i k : ℕ) → s.taken i k ≤ next.taken i k

  AllTaken-Onward : (s : System U) (t : Onward s) (i k : ℕ) → AllTaken s i k → AllTaken t.next i k
  AllTaken-Onward s t i k h =
      omega (arith, h, t.more_taken i k, ap (λ (f : ℕ → List Call). length (f k)) t.same_sent)

  abbrev Onward-trans : (s : System U) (t : Onward s) → Onward t.next → Onward s
  Onward-trans s t u = record {
    next = u.next;
    path = Deliveries-trans t.path u.path;
    reach = u.reach;
    same_sent = u.same_sent ∙ t.same_sent;
    more_taken = λ i k. omega (arith, t.more_taken i k, u.more_taken i k);
  }

  abbrev Onward-here : (s : System U) → Reach check_validcall Q n expected s → Onward s
  Onward-here s h = record {
    next = s;
    path = nothing;
    reach = h;
    same_sent = refl;
    more_taken = λ i k. omega arith;
  }

  -- The counts after one delivery.
  taken-deliver :
      (s : System U) (i k : ℕ) (m : Call)
      → (deliver_at check_validcall Q s i k m).taken i k ≡ suc (s.taken i k)
  taken-deliver s i k m = rw (
    update_self s.taken i (update (s.taken i) k (suc (s.taken i k))),
    update_self (s.taken i) k (suc (s.taken i k)),
  )

  taken-grows :
      (s : System U) (i k : ℕ) (m : Call) (j l : ℕ)
      → s.taken j l ≤ (deliver_at check_validcall Q s i k m).taken j l
  taken-grows s i k m j l = elim (ℕ_discrete j i) [
    | no e ↦
        rw (update_other s.taken i (update (s.taken i) k (suc (s.taken i k))) j e) (omega arith)
    | yes e ↦
        rw (e, update_self s.taken i (update (s.taken i) k (suc (s.taken i k))))
          (elim (ℕ_discrete l k) [
            | no f ↦ rw (update_other (s.taken i) k (suc (s.taken i k)) l f) (omega arith)
            | yes f ↦ rw (f, update_self (s.taken i) k (suc (s.taken i k))) (omega arith)
          ])
  ]

  -- Node i receives what is left of the messages of node k.
  from_one :
      (left : ℕ) (s : System U) (i k : ℕ)
      → Reach check_validcall Q n expected s
      → 0 < i
      → i ≤ n
      → 0 < k
      → k ≤ n
      → k ≢ i
      → length (s.sent k) ≤ left + s.taken i k
      → (t : Onward s) × AllTaken t.next i k
  from_one zero s i k h a b c d e g = (Onward-here s h, omega (arith, g))
  from_one (suc left) s i k h a b c d e g = elim (dec_le (length (s.sent k)) (s.taken i k)) [
    | yes p ↦ (Onward-here s h, p)
    | no p ↦
        let (m, q) = get_elem?-within (s.taken i k) (s.sent k) (omega arith) in
        let t = deliver_at check_validcall Q s i k m in
        let (u, r) =
          from_one left t i k (later h (deliver i k m a b c d e q)) a b c d e
            (omega (arith, g, taken-deliver s i k m)) in
        (
          Onward-trans s
              (record {
                next = t;
                path = further nothing i k m a b c d e q;
                reach = later h (deliver i k m a b c d e q);
                same_sent = refl;
                more_taken = taken-grows s i k m;
              })
              u,
          r,
        )
  ]

  -- Node i receives everything of the nodes up to `l`.
  from_all :
      (l : ℕ) (s : System U) (i : ℕ)
      → Reach check_validcall Q n expected s
      → 0 < i
      → i ≤ n
      → l ≤ n
      → (t : Onward s) × ((k : ℕ) → 0 < k → k ≤ l → k ≢ i → AllTaken t.next i k)
  from_all zero s i h a b c = (Onward-here s h, λ k x y. absurd (omega arith))
  from_all (suc l) s i h a b c =
      let (t, f) = from_all l s i h a b (omega arith) in
      elim (ℕ_discrete (suc l) i) [
        | yes e ↦ (t, λ k x y z. f k x (omega (arith, z, e)) z)
        | no e ↦
            let (u, g) =
              from_one (length (t.next.sent (suc l))) t.next i (suc l) t.reach a b (omega arith) c e
                (omega arith) in
            (
              Onward-trans s t u,
              λ k x y z. elim (ℕ_discrete k (suc l)) [
                | yes q ↦ subst (AllTaken u.next i) (sym q) g
                | no q ↦ AllTaken-Onward t.next u i k (f k x (omega arith) z)
              ],
            )
      ]

  -- All nodes up to `j` receive everything.
  at_all :
      (j : ℕ) (s : System U)
      → Reach check_validcall Q n expected s
      → j ≤ n
      → (t : Onward s) × ((i : ℕ)
          → 0 < i
          → i ≤ j
          → (k : ℕ) → 0 < k
          → k ≤ n
          → k ≢ i
          → AllTaken t.next i k)
  at_all zero s h c = (Onward-here s h, λ i x y. absurd (omega arith))
  at_all (suc j) s h c =
      let (t, f) = at_all j s h (omega arith) in
      let (u, g) = from_all n t.next (suc j) t.reach (omega arith) c (omega arith) in
      (
        Onward-trans s t u,
        λ i x y k p q r. elim (ℕ_discrete i (suc j)) [
          | yes e ↦ subst (λ i. AllTaken u.next i k) (sym e) (g k p q (λ d. r (d ∙ sym e)))
          | no e ↦ AllTaken-Onward t.next u i k (f i x (omega arith) k p q r)
        ],
      )

  -- From every state that the cluster reaches, deliveries alone, without a further broadcast, lead on to a
  -- state in which every node holds, executed or queued, each operation that was broadcast, as often as
  -- it was, and nothing else.
  pub delivers_all :
      (s : System U)
      → Reach check_validcall Q n expected s
      → (t : System U) × Deliveries s t
        × Reach check_validcall Q n expected t
        × (t.sent ≡ s.sent)
        × ((i : ℕ)
            → 0 < i
            → i ≤ n
            → Perm (held U (t.node i)) (broadcast_operations check_validcall U Q n s))
  delivers_all s h =
      let (t, f) = at_all n s h (omega arith) in
      (
        t.next,
        t.path,
        t.reach,
        t.same_sent,
        λ i a b.
            subst
              (λ (l : ℕ → List Call).
                Perm (held U (t.next.node i))
                  (broadcast_operations check_validcall U Q n (record s { sent = l })))
              t.same_sent
              (Reach-quiet check_validcall U Q i t.reach a b (λ k c d e.
                ap (operations check_validcall)
                  (drop-all (t.next.taken i k) (t.next.sent k) (f i a b k c d e)))),
      )
