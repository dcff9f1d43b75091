-- ===== src/DirectedGraph/Edges.antt =====
-- wellcoordination/benchmark/replicated-object.hpp: what addEdge of DirectedGraph adds.
use mathlib.Core.Bool.{true≢false}
use optimistic_replication.Prelude.{
  ◌≡◌, refl, sym, ap, ◌∙◌, inl, inr, List, [], ◌∷◌, ◌++◌, Bytes, eq_bytes, eq_bytes_refl,
  eq_bytes→eq, append-nil, if◌then◌else◌, Bool-cases,
}
use optimistic_replication.DirectedGraph.{Adjacency, add_edge, neighbors}

-- addEdge puts its target last among the neighbours of its source, and changes no other vertex.
neighbors-add_edge :
    (src dest a : Bytes) (g : List Adjacency)
    → neighbors (add_edge src dest g) a
      ≡ neighbors g a ++ (if eq_bytes src a then dest ∷ [] else [])
unfolding add_edge neighbors
neighbors-add_edge src dest a [] = elim (Bool-cases (eq_bytes src a)) [
  | inl k ↦ rw k refl
  | inr k ↦ rw k refl
]
neighbors-add_edge src dest a (e ∷ es) = elim (Bool-cases (eq_bytes e.vertex src)) [
  | inl q ↦
      let v : e.vertex ≡ src = eq_bytes→eq e.vertex src q in
      elim (Bool-cases (eq_bytes src a)) [
        | inl k ↦ rw (v, eq_bytes_refl src, k) refl
        | inr k ↦ rw (v, eq_bytes_refl src, k) (sym (append-nil (neighbors es a)))
      ]
  | inr q ↦ elim (Bool-cases (eq_bytes e.vertex a)) [
    | inl p ↦
        let v : e.vertex ≡ a = eq_bytes→eq e.vertex a p in
        elim (Bool-cases (eq_bytes src a)) [
          | inl k ↦ absurd (
              true≢false (
                sym (eq_bytes_refl src)
                ∙ ap (λ z. eq_bytes z src) (eq_bytes→eq src a k ∙ sym v)
                ∙ q))
          | inr k ↦ rw (q, p, k) (sym (append-nil e.targets))
        ]
    | inr p ↦ rw (q, p) (neighbors-add_edge src dest a es)
  ]
]
