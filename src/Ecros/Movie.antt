-- ===== src/Ecros/Movie.antt =====
-- wellcoordination/benchmark/ecros-movie.hpp: movies and customers, and the analysis of their calls. Its
-- resolution and its idcmp have the text of ecros-set.hpp.
pub mod Laws
use optimistic_replication.Prelude.{
  ℕ, zero, suc, ◌+◌, Bool, true, false, ◌&&◌, ◌||◌, List, [], ◌∷◌, Bytes, codes, if◌then◌else◌, not,
}
use optimistic_replication.Call.{Call, type_is}
use optimistic_replication.Ecros.{EcrosCase}
use optimistic_replication.Ecros.Set.{
  resolution, idcmp, is_applied, is_empty, insert_element, erase_element,
}

unfoldable pub seq_commutative : Call → Call → Bool
seq_commutative a b =
    type_is a "AddMovie"
      && (type_is b "AddMovie" || type_is b "AddCustomer" || type_is b "DeleteCustomer")
    || type_is a "AddCustomer"
      && (type_is b "AddMovie" || type_is b "AddCustomer" || type_is b "DeleteMovie")
    || type_is a "DeleteMovie"
      && (type_is b "AddCustomer" || type_is b "DeleteMovie" || type_is b "DeleteCustomer")
    || type_is a "DeleteCustomer"
      && (type_is b "AddMovie" || type_is b "DeleteMovie" || type_is b "DeleteCustomer")

unfoldable pub commutative : Call → Call → Bool
commutative a b = seq_commutative a b

pub record MovieState : Type 0 where
  pub movie_ids : List ℕ
  pub customer_ids : List ℕ
  pub applied : List (ℕ × ℕ)

abbrev pub initial : MovieState
initial = record { movie_ids = []; customer_ids = []; applied = [] }

-- setVars: `n` rounds from `i`.
unfoldable pub fill : ℕ → ℕ → List ℕ → List ℕ
fill zero i elements = elements
fill (suc n) i elements = fill n (i + 1) (insert_element i elements)

unfoldable pub set_vars : MovieState → ℕ → ℕ → MovieState
unfolding fill
set_vars s id nodes = record s {
  movie_ids = fill 50 0 s.movie_ids;
  customer_ids = fill 50 0 s.customer_ids;
}

-- The chain of tests that applyCall and recomputeState share but for the last, which is `may_delete`.
unfoldable pub change : Bool → MovieState → Call → MovieState
change may_delete s c =
    if type_is c "AddMovie"
    then record s { movie_ids = insert_element c.value1 s.movie_ids }
    else if type_is c "DeleteMovie" && not (is_empty s.movie_ids)
    then record s { movie_ids = erase_element c.value1 s.movie_ids }
    else if type_is c "AddCustomer"
    then record s { customer_ids = insert_element c.value1 s.customer_ids }
    else if type_is c "DeleteCustomer" && may_delete
    then record s { customer_ids = erase_element c.value1 s.customer_ids }
    else s

unfoldable pub mark_applied : Call → MovieState → MovieState
mark_applied c s = record s { applied = (c.call_id, c.node_id) ∷ s.applied }

-- applyCall deletes a customer where there are movies.
unfoldable pub apply_call : MovieState → Call → MovieState
unfolding change mark_applied
apply_call s c =
    if is_applied c s.applied then s else mark_applied c (change (not (is_empty s.movie_ids)) s c)

-- The second condition of shouldSkip is the literal "DeleteMovie", which is true of every call.
unfoldable pub should_skip : MovieState → Call → Bool
should_skip s call =
    if type_is call "DeleteCustomer" then is_empty s.customer_ids else is_empty s.movie_ids

-- recomputeState deletes a customer where there are customers.
unfoldable pub recompute_one : MovieState → Call → MovieState
unfolding change mark_applied
recompute_one s c =
    if is_applied c s.applied
    then s
    else mark_applied c (change (not (is_empty s.customer_ids)) s c)

unfoldable pub recompute_state : MovieState → List Call → MovieState
unfolding recompute_one
recompute_state s [] = s
recompute_state s (c ∷ order) = recompute_state (recompute_one s c) order

-- movieToString
unfoldable pub movie_to_string : ℕ → Bytes
movie_to_string zero = codes "AddMovie"
movie_to_string (suc zero) = codes "DeleteMovie"
movie_to_string (suc (suc zero)) = codes "AddCustomer"
movie_to_string (suc (suc (suc zero))) = codes "DeleteCustomer"
movie_to_string (suc (suc (suc (suc zero)))) = codes "Read"
movie_to_string (suc (suc (suc (suc (suc n))))) = codes "Invalid"

abbrev pub ecros_movie_case : EcrosCase
ecros_movie_case = record {
  State = MovieState;
  initial = initial;
  set_vars = set_vars;
  recompute_state = recompute_state;
  should_skip = should_skip;
  apply_call = apply_call;
  seq_commutative = seq_commutative;
  commutative = commutative;
  resolution = resolution;
  idcmp = idcmp;
}
