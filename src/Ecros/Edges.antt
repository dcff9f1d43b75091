-- ===== src/Ecros/Edges.antt =====
-- protocol-ecros.cpp: the ends of the edges that exeLocal and exeRemote add and commitStableCalls keeps.
use mathlib.Core.List.{Mem, Mem-prop, mem-cons_self, mem-cons_of_mem, mem-cons}
use Prim.Native.String.{String}
use mathlib.Core.Logic.Or
use optimistic_replication.Prelude.{
  ℕ, ◌≡◌, inl, inr, Bool, true, false, not, ◌&&◌, ◌||◌, List, [], ◌∷◌, ◌++◌, ◌==◌, All, All-append,
  Bool-cases, keep_if, keep_if-true, keep_if-false, if◌then◌else◌, codes, arith,
}
use optimistic_replication.Call.{Call}
use optimistic_replication.Ecros.{EcrosCase, Edge}
use optimistic_replication.Ecros.Clocks.{happened_before, concurrent}
use optimistic_replication.Ecros.Ops.{local_edges, remote_edge, remote_edges}

-- Both ends of an edge are among the calls.
abbrev pub Joins : List ℕ → Edge → Type 0
Joins ps e = Mem e.from ps × Mem e.to ps

-- All edges join calls of the set.
pub record Joined (ps : List ℕ) (es : List Edge) : Type 0 where
  pub all : All (Joins ps) es

module _ {ps : List ℕ} where
  pub Joined-nil : Joined ps []
  Joined-nil = record { all = tt }

  pub Joined-one : {e : Edge} → Mem e.from ps → Mem e.to ps → Joined ps (e ∷ [])
  Joined-one m k = record { all = ((m, k), tt) }

  pub Joined-append : {xs ys : List Edge} → Joined ps xs → Joined ps ys → Joined ps (xs ++ ys)
  Joined-append {xs} {ys} h k = record { all = All-append (Joins ps) xs ys h.all k.all }

  Joined-if :
      (b : Bool) {xs ys : List Edge}
      → Joined ps xs
      → Joined ps ys
      → Joined ps (if b then xs else ys)
  Joined-if true h k = h
  Joined-if false h k = k

pub All-map {ℓ κ μ} :
    {A : Type ℓ} (P : A → Type κ) (R : A → Type μ)
    → ((a : A) → P a → R a)
    → (xs : List A) → All P xs
    → All R xs
All-map P R f [] h = tt
All-map P R f (x ∷ xs) h = (f x h.0, All-map P R f xs h.1)

module _ (E : EcrosCase) where
  pub local_edges-Joined :
      (n : ℕ) (heap : ℕ → Call) (c : ℕ) (ps vs : List ℕ)
      → Mem c ps
      → All (λ v. Mem v ps) vs
      → Joined ps (local_edges E n heap c vs)
  unfolding local_edges
  local_edges-Joined n heap c ps [] m h = Joined-nil
  local_edges-Joined n heap c ps (v ∷ vs) m h =
      let rest = local_edges-Joined n heap c ps vs m h.1 in
      Joined-if _ rest (
        Joined-append (Joined-if _ (Joined-one h.0 m) Joined-nil)
          (Joined-append (Joined-if _ (Joined-one m h.0) Joined-nil) rest))

  remote_edge-Joined :
      (n : ℕ) (heap : ℕ → Call) (c v : ℕ) (ps : List ℕ)
      → Mem c ps
      → Mem v ps
      → Joined ps (remote_edge E n heap c v)
  unfolding remote_edge happened_before
  remote_edge-Joined n heap c v ps m k =
      Joined-if
        (happened_before n (heap v).call_vector_clock (heap c).call_vector_clock
          && not (E.seq_commutative (heap v) (heap c)))
        (there "hb")
        (Joined-if
          (happened_before n (heap c).call_vector_clock (heap v).call_vector_clock
            && not (E.seq_commutative (heap c) (heap v)))
          (back "hb")
          (Joined-if (concurrent n (heap v).call_vector_clock (heap c).call_vector_clock)
            (Joined-if (E.resolution (heap c) (heap v) == 60) (back "co") (
              Joined-if (E.resolution (heap c) (heap v) == 62) (there "co") (
                Joined-if
                  ((E.resolution (heap v) (heap c) == 84) && not (E.commutative (heap v) (heap c)))
                  (Joined-if (E.idcmp (heap c) (heap v) == 60) (back "ao") (there "ao"))
                  Joined-nil)))
            Joined-nil))
    where
      there : (t : String) → Joined ps (record { from = v; to = c; type = codes t } ∷ [])
      there t = Joined-one k m

      back : (t : String) → Joined ps (record { from = c; to = v; type = codes t } ∷ [])
      back t = Joined-one m k

  pub remote_edges-Joined :
      (n : ℕ) (heap : ℕ → Call) (c : ℕ) (ps vs : List ℕ)
      → Mem c ps
      → All (λ v. Mem v ps) vs
      → Joined ps (remote_edges E n heap c vs)
  unfolding remote_edges
  remote_edges-Joined n heap c ps [] m h = Joined-nil
  remote_edges-Joined n heap c ps (v ∷ vs) m h =
      let rest = remote_edges-Joined n heap c ps vs m h.1 in
      Joined-if _ rest (Joined-append (remote_edge-Joined n heap c v ps m h.0) rest)

Mem-keep :
    (c p : ℕ) (ps : List ℕ) → Mem p ps → (p == c) ≡ false → Mem p (keep_if (λ q. not (q == c)) ps)
Mem-keep c p [] m n = m
Mem-keep c p (q ∷ ps) m n = elim (Bool-cases (q == c)) [
  | inl e ↦
      rw (keep_if-false (λ r. not (r == c)) q ps (ground arith))
        (Or.elim Mem-prop (mem-cons.0 m) (λ k. absurd (differ q k e)) (λ k. Mem-keep c p ps k n))
  | inr e ↦ rw (keep_if-true (λ r. not (r == c)) q ps (ground arith)) (
      Or.elim Mem-prop (mem-cons.0 m) (λ k. rw k mem-cons_self)
        (λ k. mem-cons_of_mem q (Mem-keep c p ps k n)))
]
  where
    differ : (q : ℕ) → p ≡ q → (q == c) ≡ true → ⊥
    differ q k e = ground arith

pub Joined-commit :
    (c : ℕ) (ps : List ℕ) (es : List Edge)
    → Joined ps es
    → Joined (keep_if (λ p. not (p == c)) ps) (keep_if (λ e. not ((e.from == c) || (e.to == c))) es)
Joined-commit c ps [] h = Joined-nil
Joined-commit c ps (e ∷ es) h =
    let rest = Joined-commit c ps es (record { all = h.all.1 }) in
    elim (Bool-cases ((e.from == c) || (e.to == c))) [
      | inl k ↦ rw (keep_if-false (λ d. not ((d.from == c) || (d.to == c))) e es (rw k)) rest
      | inr k ↦ rw (keep_if-true (λ d. not ((d.from == c) || (d.to == c))) e es (rw k)) (
          Joined-append
            (Joined-one (Mem-keep c e.from ps h.all.0.0 (ground arith))
              (Mem-keep c e.to ps h.all.0.1 (ground arith)))
            rest)
    ]
