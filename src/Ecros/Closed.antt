-- ===== src/Ecros/Closed.antt =====
-- protocol-ecros.cpp: resolving a cycle leaves no dangling edge, and so does every history.
use optimistic_replication.Prelude.{
  ℕ, zero, suc, ◌≡◌, sym, inl, inr, true, not, List, [], ◌∷◌, ◌==◌, All, All-append, Bool-cases,
  Option-cases, List-cases, length, arith,
}
use mathlib.Core.Bool.{true≢false}
use optimistic_replication.Call.{Call, type_is}
use optimistic_replication.Hamsou.Order.{All-keep}
use optimistic_replication.Hamsou.Run.{if_keeps}
use optimistic_replication.Ecros.{EcrosCase, HashSet, Edge, EcrosHandler}
use optimistic_replication.Ecros.Edges.{Joins}
use optimistic_replication.Ecros.Laws.{IsClosed, IsClosed-kept}
use optimistic_replication.Ecros.Ops.{enter_remote}
use optimistic_replication.Ecros.Cycles.{
  same_edge, Search, is_visited, find_ao, erase_first, has_edge, retag, resolve, Scan, searching,
  resolved, parent_of, cycle_at, scan, detect_loop, detect_and_resolve_cycles,
}
use optimistic_replication.Ecros.Remote.{
  EcrosEvent, issue, receive, recompute_state, queue_ack, exe_remote, step, run,
}

module _ (ps : List ℕ) where
  Joins-same : (e front : Edge) → same_edge e front ≡ true → Joins ps e → Joins ps front
  unfolding same_edge
  Joins-same e front h j =
      let f : e.from ≡ front.from = ground arith in
      let t : e.to ≡ front.to = ground arith in (rw (sym f) j.0, rw (sym t) j.1)

  Joins-has_edge :
      (front : Edge) (es : List Edge)
      → has_edge front es ≡ true
      → All (Joins ps) es
      → Joins ps front
  unfolding has_edge
  Joins-has_edge front [] h j = absurd (true≢false (sym h))
  Joins-has_edge front (e ∷ es) h j = elim (Bool-cases (same_edge e front)) [
    | inl s ↦ Joins-same e front s j.0
    | inr s ↦ Joins-has_edge front es (rw s at h) j.1
  ]

  All-erase_first :
      (front : Edge) (es : List Edge) → All (Joins ps) es → All (Joins ps) (erase_first front es)
  unfolding erase_first
  All-erase_first front [] j = tt
  All-erase_first front (e ∷ es) j =
      if_keeps (All (Joins ps)) (same_edge e front) j.1 (j.0, All-erase_first front es j.1)

  All-retag : (front : Edge) (es : List Edge) → All (Joins ps) es → All (Joins ps) (retag front es)
  unfolding retag
  All-retag front es j = elim (Bool-cases (has_edge front es)) [
    | inl h ↦ rw h (
        All-append (Joins ps) (erase_first front es) _ (All-erase_first front es j)
          (Joins-has_edge front es h j, tt))
    | inr h ↦ rw h j
  ]

  All-resolve : (cycle es : List Edge) → All (Joins ps) es → All (Joins ps) (resolve cycle es)
  unfolding resolve
  All-resolve [] es j = unfold find_ao in j
  All-resolve (front ∷ more) es j = elim (Option-cases (find_ao (front ∷ more))) [
    | inr (ao, e) ↦ rw (e, resolve) (All-keep (Joins ps) (λ d. not (same_edge d ao)) es j)
    | inl e ↦ rw (e, resolve) (All-retag front es j)
  ]

  Kept : Scan → Type 0
  Kept (searching s) = Unit
  Kept (resolved es) = All (Joins ps) es

  scan-Kept :
      (edges : List Edge) (curr : ℕ) (left : List Edge) (s : Search)
      → All (Joins ps) edges
      → Kept (scan edges curr left s)
  unfolding Kept scan
  scan-Kept edges curr [] s j = tt
  scan-Kept edges curr (e ∷ left) s j =
      if_keeps Kept (not (e.from == curr)) (scan-Kept edges curr left s j) (
        if_keeps Kept (not (is_visited e.to s.visited)) (scan-Kept edges curr left _ j) (
          if_keeps Kept (not (parent_of s.parent curr == e.to))
            (All-resolve (cycle_at edges s curr e) edges j) (scan-Kept edges curr left _ j)))

  -- The end of a round, given what the search does from each state.
  round-All :
      (fuel : ℕ) (edges : List Edge) (r : Scan)
      → Kept r
      → ((s : Search) → All (Joins ps) (detect_loop fuel edges s))
      → All (Joins ps) (elim r [ searching s ↦ detect_loop fuel edges s | resolved es ↦ es ])
  unfolding Kept
  round-All fuel edges (searching s) k f = f s
  round-All fuel edges (resolved es) k f = k

  detect_loop-All :
      (fuel : ℕ) (edges : List Edge) (s : Search)
      → All (Joins ps) edges
      → All (Joins ps) (detect_loop fuel edges s)
  unfolding detect_loop
  detect_loop-All zero edges s j = j
  detect_loop-All (suc fuel) edges s j = elim (List-cases s.stack) [
    | inl e ↦ rw (e, detect_loop) j
    | inr (curr, rest, e) ↦
        simp (e, detect_loop)
          (if_keeps (All (Joins ps)) (is_visited curr s.visited) (detect_loop-All fuel edges _ j) (
            round-All fuel edges _ (scan-Kept edges curr edges _ j)
              (λ t. detect_loop-All fuel edges t j)))
  ]

module _ (E : EcrosCase) (H : HashSet) where
  exe_remote-IsClosed :
      (s : EcrosHandler E) (call : Call) → IsClosed s → IsClosed (exe_remote E H s call)
  unfolding exe_remote detect_and_resolve_cycles queue_ack recompute_state
  exe_remote-IsClosed s call v =
      let (a, b, c) = IsClosed-kept E H s call v in
      if_keeps (λ (t : EcrosHandler E). IsClosed t) (type_is call "Ack") c
        (record {
          joined = record {
            all =
                detect_loop-All (enter_remote E H s call).calls
                  (suc (length (enter_remote E H s call).edges)) (enter_remote E H s call).edges _
                  b.joined.all;
          };
          allocated = b.allocated;
        })

  -- From a handler whose edges join calls of its call set, whatever calls are issued and whatever calls and
  -- acknowledgements arrive: after each of them no edge dangles, though calls are freed and cycles are broken
  -- up, and the next object is new to the set.
  pub run-IsClosed :
      (s : EcrosHandler E) (es : List EcrosEvent) → IsClosed s → IsClosed (run E H s es)
  unfolding run step
  run-IsClosed s [] v = v
  run-IsClosed s (issue call ∷ es) v =
      run-IsClosed (step E H s (issue call)) es (IsClosed-kept E H s call v).0
  run-IsClosed s (receive call ∷ es) v =
      run-IsClosed (step E H s (receive call)) es (exe_remote-IsClosed s call v)
