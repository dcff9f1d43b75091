-- ===== src/Hamsou/Order.antt =====
-- protocol-hamsou.cpp: the order that remoteHandler and localHandler keep among the pending calls, and
-- why it makes replicas agree.
use mathlib.Core.Bool.{Bool-set}
use mathlib.Core.List.{
  Mem, mem-cons_self, mem-cons_of_mem, mem-append_left, append_of_mem, not-mem-nil, mem-cons,
  perm_middle,
}
use mathlib.Core.List.Perm
use mathlib.Core.Logic.Or
use optimistic_replication.Prelude.{
  ℕ, ◌≡◌, refl, sym, ap, ◌∙◌, inl, inr, Bool, false, List, [], ◌∷◌, ◌++◌, foldl, Perm, arith,
  perm_length, keep_if, keep_if-true, keep_if-false, All, All-left, All-right, All-append, subst,
  Bool-cases, foldl-append, ∥∥₁_elim,
}
use optimistic_replication.Call.{Call}
use optimistic_replication.UseCase.{UseCase, IsConflictAware}
use optimistic_replication.Hamsou.{Handler}
use optimistic_replication.Hamsou.Ops.{insert_call}
use optimistic_replication.Hamsou.Splits.{Splits, KeepsPending}

pub All-of_mem {ℓ κ} :
    {A : Type ℓ} (P : A → Type κ) (xs : List A) → ((a : A) → Mem a xs → P a) → All P xs
All-of_mem P [] h = tt
All-of_mem P (x ∷ xs) h = (h x mem-cons_self, All-of_mem P xs (λ a m. h a (mem-cons_of_mem x m)))

pub mem_of_All {ℓ κ} :
    {A : Type ℓ} (P : A → Type κ)
    → ((a : A) → IsProp (P a))
    → (xs : List A) → All P xs
    → (a : A) → Mem a xs
    → P a
mem_of_All P prop [] h a m = absurd (not-mem-nil m)
mem_of_All P prop (x ∷ xs) h a m =
    Or.elim (prop a) (mem-cons.0 m) (λ e. subst P (sym e) h.0) (mem_of_All P prop xs h.1 a)

pub All-keep {ℓ κ} :
    {A : Type ℓ} (P : A → Type κ) (p : A → Bool) (xs : List A) → All P xs → All P (keep_if p xs)
All-keep P p [] h = tt
All-keep P p (x ∷ xs) h = elim (Bool-cases (p x)) [
  | inl e ↦ rw (keep_if-true p x xs e) (h.0, All-keep P p xs h.1)
  | inr e ↦ rw (keep_if-false p x xs e) (All-keep P p xs h.1)
]

module _ (U : UseCase) where
  -- Two calls that the remote relation does not order, this way round.
  abbrev pub Free : Call → Call → Type 0
  Free a b = U.fast_is_reachable_remote a b ≡ false

  -- No call stands behind one that it must precede.
  abbrev pub IsOrdered : List Call → Type 0
  IsOrdered [] = Unit {0}
  IsOrdered (x ∷ xs) = All (λ y. Free y x) xs × IsOrdered xs

  IsOrdered-suffix : (xs ys : List Call) → IsOrdered (xs ++ ys) → IsOrdered ys
  IsOrdered-suffix [] ys h = h
  IsOrdered-suffix (x ∷ xs) ys h = IsOrdered-suffix xs ys h.1

  IsOrdered-keep : (p : Call → Bool) (es : List Call) → IsOrdered es → IsOrdered (keep_if p es)
  IsOrdered-keep p [] h = tt
  IsOrdered-keep p (x ∷ xs) h = elim (Bool-cases (p x)) [
    | inl e ↦
        rw (keep_if-true p x xs e) (All-keep (λ y. Free y x) p xs h.0, IsOrdered-keep p xs h.1)
    | inr e ↦ rw (keep_if-false p x xs e) (IsOrdered-keep p xs h.1)
  ]

  All-insert_call :
      (P : Call → Type 0) (c : Call) (es : List Call) → P c → All P es → All P (insert_call U c es)
  unfolding insert_call
  All-insert_call P c [] h k = (h, tt)
  All-insert_call P c (e ∷ es) h k = elim (Bool-cases (U.fast_is_reachable_remote c e)) [
    | inl r ↦ rw r (h, k)
    | inr r ↦ rw r (k.0, All-insert_call P c es h k.1)
  ]

  All-snoc :
      (P : Call → Type 0) (es : List Call) (c : Call) → All P es → P c → All P (es ++ (c ∷ []))
  All-snoc P [] c h k = (k, tt)
  All-snoc P (e ∷ es) c h k = (h.0, All-snoc P es c h.1 k)

  IsOrdered-snoc :
      (es : List Call) (c : Call)
      → All (λ e. Free c e) es
      → IsOrdered es
      → IsOrdered (es ++ (c ∷ []))
  IsOrdered-snoc [] c h k = (tt, tt)
  IsOrdered-snoc (e ∷ es) c h k =
      (All-snoc (λ y. Free y e) es c k.0 h.0, IsOrdered-snoc es c h.1 k.1)

  -- The state after the calls `es`, in this order.
  abbrev pub replay : U.State → List Call → U.State
  replay = foldl U.update_stable_state

  module _ (L : IsConflictAware U) where
    -- A remote call is put where it precedes every call that it must precede.
    IsOrdered-insert_call :
        (c : Call) (es : List Call) → IsOrdered es → IsOrdered (insert_call U c es)
    unfolding insert_call
    IsOrdered-insert_call c [] h = (tt, tt)
    IsOrdered-insert_call c (e ∷ es) h = elim (Bool-cases (U.fast_is_reachable_remote c e)) [
      | inl r ↦ rw r (All-of_mem (λ y. Free y c) (e ∷ es) (λ y m. L.no_chain c e y r), h)
      | inr r ↦ rw r (All-insert_call (λ y. Free y e) c es r h.0, IsOrdered-insert_call c es h.1)
    ]

    IsOrdered-append :
        (c : Call) (vc : List ℕ) (es : List Call)
        → All (λ e. U.fast_is_reachable_local c e ≡ false) es
        → IsOrdered es
        → IsOrdered (es ++ (record c { call_vector_clock = vc } ∷ []))
    IsOrdered-append c vc es free h =
        IsOrdered-snoc es (record c { call_vector_clock = vc }) (covered es free) h
      where
        covered :
            (ds : List Call)
            → All (λ e. U.fast_is_reachable_local c e ≡ false) ds
            → All (λ e. Free (record c { call_vector_clock = vc }) e) ds
        covered [] f = tt
        covered (d ∷ ds) f = (L.local_covers c d vc f.0, covered ds f.1)

    pub IsOrdered-KeepsPending : KeepsPending U IsOrdered
    IsOrdered-KeepsPending = record {
      insert = IsOrdered-insert_call;
      suffix = IsOrdered-suffix;
      keep = IsOrdered-keep;
      append = IsOrdered-append;
    }

    -- A call can be moved to the front of calls with which it has no conflict.
    replay_front :
        (t : U.State) (front : List Call) (x : Call) (back : List Call)
        → All (λ e. Free x e × Free e x) front
        → replay t (front ++ (x ∷ back)) ≡ replay t (x ∷ (front ++ back))
    replay_front t [] x back h = refl
    replay_front t (e ∷ front) x back h =
        replay_front (U.update_stable_state t e) front x back h.1
        ∙ ap (λ u. replay u (front ++ back)) (L.commute t e x h.0.1 h.0.0)

    Free-front :
        (front : List Call) (x : Call) (back : List Call)
        → IsOrdered (front ++ (x ∷ back))
        → All (λ e. Free x e) front
    Free-front [] x back h = tt
    Free-front (e ∷ front) x back h =
        ((All-right (λ y. Free y e) front (x ∷ back) h.0).0, Free-front front x back h.1)

    IsOrdered-drop :
        (front : List Call) (x : Call) (back : List Call)
        → IsOrdered (front ++ (x ∷ back))
        → IsOrdered (front ++ back)
    IsOrdered-drop [] x back h = h.1
    IsOrdered-drop (e ∷ front) x back h = (
      All-append (λ y. Free y e) front back (All-left (λ y. Free y e) front (x ∷ back) h.0)
          (All-right (λ y. Free y e) front (x ∷ back) h.0).1,
      IsOrdered-drop front x back h.1,
    )

    All-both :
        (P R : Call → Type 0) (es : List Call) → All P es → All R es → All (λ e. P e × R e) es
    All-both P R [] h k = tt
    All-both P R (e ∷ es) h k = ((h.0, k.0), All-both P R es h.1 k.1)

    -- Of two ordered lists with the same calls, the second with `x` in the middle: `x` has no conflict
    -- with the calls before it there.
    Free-both :
        (x : Call) (xs front back : List Call)
        → IsOrdered (x ∷ xs)
        → IsOrdered (front ++ (x ∷ back))
        → Perm xs (front ++ back)
        → All (λ e. Free x e × Free e x) front
    Free-both x xs front back h k p =
        All-both (Free x) (λ e. Free e x) front (Free-front front x back k)
          (All-of_mem (λ e. Free e x) front
            (λ e m.
              mem_of_All (λ y. Free y x) (λ y. Bool-set _ _) xs h.0 e
                ((Perm.mem_iff p).1 (mem-append_left back m))))

    replay-perm :
        (t : U.State) (xs ys : List Call)
        → IsOrdered xs
        → IsOrdered ys
        → Perm xs ys
        → replay t xs ≡ replay t ys
    replay-perm t [] [] h k p = refl
    replay-perm t [] (y ∷ ys) h k p = absurd (omega (arith, perm_length p))
    replay-perm t (x ∷ xs) ys h k p =
        ∥∥₁_elim (append_of_mem ((Perm.mem_iff p).0 mem-cons_self)) (L.State-set _ _) (λ found.
          let front = found.0 in
          let back = found.1 in
          let k' : IsOrdered (front ++ (x ∷ back)) = subst IsOrdered found.2 k in
          let p' : Perm xs (front ++ back) =
            Perm.cons_inv (Perm.trans (subst (Perm (x ∷ xs)) found.2 p) (perm_middle front back)) in
          replay-perm (U.update_stable_state t x) xs (front ++ back) h.1
            (IsOrdered-drop front x back k') p'
          ∙ sym (replay_front t front x back (Free-both x xs front back h k' p'))
          ∙ ap (replay t) (sym found.2))

    -- Two replicas of a use case whose remote relation orders all conflicting calls: if their stable
    -- states agree, their pending calls are the same up to order, and both keep the pending calls in
    -- conflict order, then the replay of the pending calls leads both to the same state.
    pub replicas_converge :
        (s r : Handler U) (pre suf pre' suf' : List Call)
        → Splits s pre suf
        → Splits r pre' suf'
        → s.stable_state ≡ r.stable_state
        → IsOrdered suf
        → IsOrdered suf'
        → Perm suf suf'
        → replay U.initial s.execution_list ≡ replay U.initial r.execution_list
    replicas_converge s r pre suf pre' suf' v w e h k p =
        whole s pre suf v
        ∙ replay-perm s.stable_state suf suf' h k p
        ∙ ap (λ t. replay t suf') e
        ∙ sym (whole r pre' suf' w)
      where
        whole :
            (t : Handler U) (a b : List Call)
            → Splits t a b
            → replay U.initial t.execution_list ≡ replay t.stable_state b
        whole t a b x =
            ap (replay U.initial) x.list
            ∙ foldl-append U.update_stable_state U.initial a b
            ∙ ap (λ u. replay u b) (sym x.replay)
