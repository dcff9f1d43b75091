-- ===== src/Ecros/Set.antt =====
-- wellcoordination/benchmark/ecros-set.hpp: the set of integers and the analysis of its calls. A character
-- is its code. The literal '⊤' of the source has three bytes of UTF-8; as a char it keeps the last.
pub mod Laws
use optimistic_replication.Prelude.{
  ℕ, zero, suc, ◌+◌, Bool, true, false, ◌&&◌, ◌||◌, List, [], ◌∷◌, ltb, if◌then◌else◌, keep_if, not,
  ◌==◌,
}
use optimistic_replication.Call.{Call, type_is}
use optimistic_replication.Ecros.{EcrosCase}

unfoldable pub seq_commutative : Call → Call → Bool
seq_commutative a b =
    (type_is a "Add" && type_is b "Add") || (type_is a "Remove" && type_is b "Remove")

unfoldable pub commutative : Call → Call → Bool
commutative a b = seq_commutative a b

-- The code 164 of '⊤'.
unfoldable pub resolution : Call → Call → ℕ
resolution a b = 164

-- '<' is 60 and '>' is 62.
unfoldable pub idcmp : Call → Call → ℕ
idcmp a b =
    if ltb a.node_id b.node_id
    then 60
    else if ltb b.node_id a.node_id
    then 62
    else if ltb a.call_id b.call_id
    then 60
    else if ltb b.call_id a.call_id
    then 62
    else 164

abbrev pub has : ℕ → List ℕ → Bool
has x [] = false
has x (y ∷ ys) = (y == x) || has x ys

-- elements.insert, elements.erase and elements.empty, on the list of the elements.
unfoldable pub insert_element : ℕ → List ℕ → List ℕ
insert_element x elements = if has x elements then elements else x ∷ elements

unfoldable pub erase_element : ℕ → List ℕ → List ℕ
erase_element x elements = keep_if (λ y. not (y == x)) elements

abbrev pub is_empty : List ℕ → Bool
is_empty [] = Bool.true
is_empty (x ∷ xs) = false

-- The state: the set, and the identifiers of the calls that recomputeState has applied.
pub record SetState : Type 0 where
  pub elements : List ℕ
  pub applied : List (ℕ × ℕ)

abbrev pub initial : SetState
initial = record { elements = []; applied = [] }

-- setVars: the numbers below 50 are in the set at the start. `n` rounds from `i`.
unfoldable pub fill : ℕ → ℕ → List ℕ → List ℕ
fill zero i elements = elements
fill (suc n) i elements = fill n (i + 1) (insert_element i elements)

unfoldable pub set_vars : SetState → ℕ → ℕ → SetState
set_vars s id nodes = record s { elements = fill 50 0 s.elements }

-- What applyCall and recomputeState do to the elements.
unfoldable pub apply_to : List ℕ → Call → List ℕ
apply_to elements c =
    if type_is c "Add"
    then insert_element c.value1 elements
    else if type_is c "Remove" && not (is_empty elements)
    then erase_element c.value1 elements
    else elements

unfoldable pub apply_call : SetState → Call → SetState
apply_call s c = record s { elements = apply_to s.elements c }

unfoldable pub should_skip : SetState → Call → Bool
should_skip s call = if type_is call "Remove" then is_empty s.elements else false

-- `applied.count({call_id, node_id})`
unfoldable pub is_applied : Call → List (ℕ × ℕ) → Bool
is_applied c [] = false
is_applied c ((call_id, node_id) ∷ ids) =
    if (c.call_id == call_id) && (c.node_id == node_id) then true else is_applied c ids

unfoldable pub recompute_state : SetState → List Call → SetState
recompute_state s [] = s
recompute_state s (c ∷ order) =
    let skipped = recompute_state s order in
    let applied =
      recompute_state
        (record { elements = apply_to s.elements c; applied = (c.call_id, c.node_id) ∷ s.applied })
        order in
    if is_applied c s.applied then skipped else applied

abbrev pub ecros_set_case : EcrosCase
ecros_set_case = record {
  State = SetState;
  initial = initial;
  set_vars = set_vars;
  recompute_state = recompute_state;
  should_skip = should_skip;
  apply_call = apply_call;
  seq_commutative = seq_commutative;
  commutative = commutative;
  resolution = resolution;
  idcmp = idcmp;
}
