-- ===== src/Ecros/Cycles.antt =====
-- protocol-ecros.cpp: detectAndResolveCycles, a depth-first search that stops at the first edge to a call
-- that it has visited, and then drops or retags one edge.
use optimistic_replication.Prelude.{
  ℕ, zero, suc, Bool, true, false, not, ◌&&◌, Option, none, some, List, [], ◌∷◌, ◌++◌, Bytes, codes,
  eq_bytes, ◌==◌, if◌then◌else◌, length, keep_if,
}
use optimistic_replication.Ecros.{Edge}

-- Edge::operator==
unfoldable pub same_edge : Edge → Edge → Bool
same_edge e other = (e.from == other.from) && (e.to == other.to) && eq_bytes e.type other.type

-- The local variables of the search. The head of `stack` is its top.
pub record Search : Type 0 where
  pub visited : List ℕ
  pub parent : ℕ → Option ℕ
  pub incoming_edge_type : ℕ → Bytes
  pub stack : List ℕ

-- `visited.count(p)`
unfoldable pub is_visited : ℕ → List ℕ → Bool
is_visited p [] = false
is_visited p (q ∷ qs) = if q == p then true else is_visited p qs

-- `map[p] = v`
abbrev pub update {ℓ} : {A : Type ℓ} → (ℕ → A) → ℕ → A → ℕ → A
update map p v q = if q == p then v else map q

-- The loop that walks the parents back from `p`. Each parent was visited before its child, and the start
-- has none, or the null pointer, which has none: so the number of visited calls and one are enough rounds.
unfoldable pub trace : ℕ → (ℕ → Option ℕ) → (ℕ → Bytes) → ℕ → ℕ → List Edge
trace zero parent incoming neighbor p = []
trace (suc fuel) parent incoming neighbor p = if p == neighbor then [] else elim (parent p) [
  | none ↦ []
  | some q ↦ record { from = q; to = p; type = incoming p } ∷ trace fuel parent incoming neighbor q
]

-- The first edge of the cycle with the type "ao".
unfoldable pub find_ao : List Edge → Option Edge
find_ao [] = none
find_ao (e ∷ es) = if eq_bytes e.type (codes "ao") then some e else find_ao es

-- `edges.erase` at the first edge that equals `front`, if there is one, and its return as "co".
unfoldable pub erase_first : Edge → List Edge → List Edge
erase_first front [] = []
erase_first front (e ∷ es) = if same_edge e front then es else e ∷ erase_first front es

unfoldable pub has_edge : Edge → List Edge → Bool
has_edge front [] = false
has_edge front (e ∷ es) = if same_edge e front then true else has_edge front es

unfoldable pub retag : Edge → List Edge → List Edge
retag front edges =
    if has_edge front edges
    then erase_first front edges
      ++ (record { from = front.from; to = front.to; type = codes "co" } ∷ [])
    else edges

-- What the search does with a cycle.
unfoldable pub resolve : List Edge → List Edge → List Edge
resolve cycle edges = elim (find_ao cycle) [
  | some ao ↦ keep_if (λ e. not (same_edge e ao)) edges
  | none ↦ elim cycle [ [] ↦ edges | front ∷ more ↦ retag front edges ]
]

-- How the loop over the edges ends: with the search to go on, or with the edges at a `return`.
pub data Scan : Type 0 where
  searching : Search → Scan
  resolved : List Edge → Scan

-- `parent[curr]`, which enters the null pointer where there is no parent.
unfoldable pub parent_of : (ℕ → Option ℕ) → ℕ → ℕ
parent_of parent p = elim (parent p) [ none ↦ 0 | some q ↦ q ]

unfoldable pub cycle_at : List Edge → Search → ℕ → Edge → List Edge
cycle_at edges s curr edge =
    let parent = update s.parent curr (some (parent_of s.parent curr)) in
    trace (suc (length s.visited)) parent s.incoming_edge_type edge.to curr
    ++ (record { from = curr; to = edge.to; type = edge.type } ∷ [])

-- The loop over the edges, at those that are left of `edges`.
unfoldable pub scan : List Edge → ℕ → List Edge → Search → Scan
scan edges curr [] s = searching s
scan edges curr (edge ∷ left) s =
    let skip = scan edges curr left s in
    let push = scan edges curr left (record s {
      parent = update s.parent edge.to (some curr);
      incoming_edge_type = update s.incoming_edge_type edge.to edge.type;
      stack = edge.to ∷ s.stack;
    }) in
    let back =
      scan edges curr left
        (record s { parent = update s.parent curr (some (parent_of s.parent curr)) }) in
    if not (edge.from == curr)
    then skip
    else if not (is_visited edge.to s.visited)
    then push
    else if not (parent_of s.parent curr == edge.to)
    then resolved (resolve (cycle_at edges s curr edge) edges)
    else back

-- The outer loop. A round pops one call, and pushes one for each edge of a call that it visits, which it
-- does once: one round for each edge and one for the start are enough.
unfoldable pub detect_loop : ℕ → List Edge → Search → List Edge
detect_loop zero edges s = edges
detect_loop (suc fuel) edges s = elim s.stack [
  | [] ↦ edges
  | curr ∷ rest ↦
      let skip = detect_loop fuel edges (record s { stack = rest }) in
      let entered = record s { visited = curr ∷ s.visited; stack = rest } in
      if is_visited curr s.visited then skip else elim (scan edges curr edges entered) [
        | searching s' ↦ detect_loop fuel edges s'
        | resolved edges' ↦ edges'
      ]
]

-- The edges that the function leaves.
unfoldable pub detect_and_resolve_cycles : ℕ → List Edge → List Edge
detect_and_resolve_cycles start edges =
    detect_loop (suc (length edges)) edges (record {
      visited = [];
      parent = λ p. none;
      incoming_edge_type = λ p. [];
      stack = start ∷ [];
    })
