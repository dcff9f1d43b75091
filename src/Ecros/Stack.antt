-- ===== src/Ecros/Stack.antt =====
-- wellcoordination/benchmark/ecros-stack.hpp: the stack and the analysis of its calls. Its resolution and its
-- idcmp have the text of ecros-set.hpp.
pub mod Laws
use optimistic_replication.Prelude.{
  ℕ, zero, suc, ◌+◌, Bool, true, false, ◌&&◌, List, [], ◌∷◌, ◌++◌, Bytes, codes, if◌then◌else◌, not,
}
use optimistic_replication.Call.{Call, type_is}
use optimistic_replication.Ecros.{EcrosCase}
use optimistic_replication.Ecros.Set.{resolution, idcmp, is_applied, is_empty}
use optimistic_replication.UseCase.Stack.{pop_back}

unfoldable pub seq_commutative : Call → Call → Bool
seq_commutative a b = type_is a "Pop" && type_is b "Pop"

unfoldable pub commutative : Call → Call → Bool
commutative a b = seq_commutative a b

-- The state: the stack, its top last, and the identifiers of the calls that recomputeState has applied.
pub record StackState : Type 0 where
  pub elements : List ℕ
  pub applied : List (ℕ × ℕ)

abbrev pub initial : StackState
initial = record { elements = []; applied = [] }

-- setVars: the numbers below 50 are on the stack at the start. `n` rounds from `i`.
unfoldable pub fill : ℕ → ℕ → List ℕ → List ℕ
fill zero i elements = elements
fill (suc n) i elements = fill n (i + 1) (elements ++ (i ∷ []))

unfoldable pub set_vars : StackState → ℕ → ℕ → StackState
unfolding fill
set_vars s id nodes = record s { elements = fill 50 0 s.elements }

-- What applyCall and recomputeState do to the elements.
unfoldable pub apply_to : List ℕ → Call → List ℕ
apply_to elements c =
    if type_is c "Push"
    then elements ++ (c.value1 ∷ [])
    else if type_is c "Pop" && not (is_empty elements)
    then pop_back elements
    else elements

unfoldable pub apply_call : StackState → Call → StackState
apply_call s c = record s { elements = apply_to s.elements c }

unfoldable pub should_skip : StackState → Call → Bool
should_skip s call = if type_is call "Pop" then is_empty s.elements else false

unfoldable pub recompute_state : StackState → List Call → StackState
recompute_state s [] = s
recompute_state s (c ∷ order) =
    let skipped = recompute_state s order in
    let applied =
      recompute_state
        (record { elements = apply_to s.elements c; applied = (c.call_id, c.node_id) ∷ s.applied })
        order in
    if is_applied c s.applied then skipped else applied

-- stackToString
unfoldable pub stack_to_string : ℕ → Bytes
stack_to_string zero = codes "Push"
stack_to_string (suc zero) = codes "Pop"
stack_to_string (suc (suc zero)) = codes "Read"
stack_to_string (suc (suc (suc n))) = codes "Invalid"

abbrev pub ecros_stack_case : EcrosCase
ecros_stack_case = record {
  State = StackState;
  initial = initial;
  set_vars = set_vars;
  recompute_state = recompute_state;
  should_skip = should_skip;
  apply_call = apply_call;
  seq_commutative = seq_commutative;
  commutative = commutative;
  resolution = resolution;
  idcmp = idcmp;
}
