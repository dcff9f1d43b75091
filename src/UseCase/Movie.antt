-- ===== src/UseCase/Movie.antt =====
-- wellcoordination/benchmark/movie.hpp: the replicated movie and customer tables.
pub mod Laws
use optimistic_replication.Prelude.{
  ℕ, zero, suc, Bool, true, false, ◌&&◌, ◌||◌, Bytes, codes, List, IntSet, PairSet, empty_set,
  empty_pairs, insert, erase, insert_pair, if◌then◌else◌,
}
use optimistic_replication.Call.{Call, type_is}
use optimistic_replication.VectorClock.{Causality}
use optimistic_replication.VectorClock as VectorClock
use optimistic_replication.UseCase.{UseCase}

-- MovieState without its `index`.
pub record MovieState : Type 0 where
  pub movie_ids : IntSet
  pub customer_ids : IntSet

abbrev pub initial : MovieState
initial = record { movie_ids = empty_set; customer_ids = empty_set }

-- movieToString: the enumeration AddMovie, DeleteMovie, AddCustomer, DeleteCustomer, Read.
unfoldable pub movie_to_string : ℕ → Bytes
movie_to_string zero = codes "AddMovie"
movie_to_string (suc zero) = codes "DeleteMovie"
movie_to_string (suc (suc zero)) = codes "AddCustomer"
movie_to_string (suc (suc (suc zero))) = codes "DeleteCustomer"
movie_to_string (suc (suc (suc (suc zero)))) = codes "Read"
movie_to_string (suc (suc (suc (suc (suc n))))) = codes "Invalid"

unfoldable pub locally_permissibility : MovieState → Call → Bool
locally_permissibility current call = true

unfoldable pub compare_vector_clocks : List ℕ → List ℕ → Causality
compare_vector_clocks = VectorClock.compare_vector_clocks

unfoldable pub fast_is_reachable_local : Call → Call → Bool
fast_is_reachable_local input1 input2 =
    type_is input1 "AddMovie" && type_is input2 "DeleteMovie"
    || type_is input1 "AddCustomer" && type_is input2 "DeleteCustomer"

unfoldable pub fast_is_reachable_remote : Call → Call → Bool
fast_is_reachable_remote input1 input2 =
    type_is input1 "AddMovie" && type_is input2 "DeleteMovie"
    || type_is input1 "AddCustomer" && type_is input2 "DeleteCustomer"

-- `current_state` after a call.
unfoldable pub update_current_state : MovieState → Call → MovieState
update_current_state s call =
    if type_is call "AddMovie"
    then record s { movie_ids = insert call.value1 s.movie_ids }
    else if type_is call "DeleteMovie"
    then record s { movie_ids = erase call.value1 s.movie_ids }
    else if type_is call "AddCustomer"
    then record s { customer_ids = insert call.value1 s.customer_ids }
    else if type_is call "DeleteCustomer"
    then record s { customer_ids = erase call.value1 s.customer_ids }
    else s

-- `stable_state` after a call.
unfoldable pub update_stable_state : MovieState → Call → MovieState
update_stable_state s call =
    if type_is call "AddMovie"
    then record s { movie_ids = insert call.value1 s.movie_ids }
    else if type_is call "DeleteMovie"
    then record s { movie_ids = erase call.value1 s.movie_ids }
    else if type_is call "AddCustomer"
    then record s { customer_ids = insert call.value1 s.customer_ids }
    else if type_is call "DeleteCustomer"
    then record s { customer_ids = erase call.value1 s.customer_ids }
    else s

abbrev pub movie_case : UseCase
movie_case = record {
  State = MovieState;
  initial = initial;
  locally_permissibility = locally_permissibility;
  update_current_state = update_current_state;
  update_stable_state = update_stable_state;
  fast_is_reachable_local = fast_is_reachable_local;
  fast_is_reachable_remote = fast_is_reachable_remote;
  compare_vector_clocks = compare_vector_clocks;
}
