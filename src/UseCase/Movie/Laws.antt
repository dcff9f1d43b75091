-- ===== src/UseCase/Movie/Laws.antt =====
-- movie.hpp: its conflict relation orders every pair of calls that do not commute.
use optimistic_replication.Prelude.{
  ℕ, ◌≡◌, refl, false, true, List, codes, IntSet-set, PairSet-set, insert_comm, erase_comm,
  eq_bytes, eq_bytes_other, arith,
}
use optimistic_replication.Call.{Call, type_is}
use optimistic_replication.UseCase.{IsConflictAware}
use optimistic_replication.UseCase.Movie.{
  MovieState, fast_is_reachable_local, fast_is_reachable_remote, update_stable_state, movie_case,
}

commute :
    (s : MovieState) (a b : Call)
    → fast_is_reachable_remote a b ≡ false
    → fast_is_reachable_remote b a ≡ false
    → update_stable_state (update_stable_state s a) b
      ≡ update_stable_state (update_stable_state s b) a
unfolding fast_is_reachable_remote update_stable_state
commute s a b h k = ground (
  arith,
  insert_comm a.value1 b.value1 s.movie_ids,
  erase_comm a.value1 b.value1 s.movie_ids,
  insert_comm a.value1 b.value1 s.customer_ids,
  erase_comm a.value1 b.value1 s.customer_ids,
)

add_movie_not_delete_movie :
    (c : Call) → type_is c "AddMovie" ≡ true → type_is c "DeleteMovie" ≡ false
unfolding eq_bytes
add_movie_not_delete_movie c h =
    eq_bytes_other c.type (codes "AddMovie") (codes "DeleteMovie") refl h

add_movie_not_delete_customer :
    (c : Call) → type_is c "AddMovie" ≡ true → type_is c "DeleteCustomer" ≡ false
unfolding eq_bytes
add_movie_not_delete_customer c h =
    eq_bytes_other c.type (codes "AddMovie") (codes "DeleteCustomer") refl h

add_customer_not_delete_movie :
    (c : Call) → type_is c "AddCustomer" ≡ true → type_is c "DeleteMovie" ≡ false
unfolding eq_bytes
add_customer_not_delete_movie c h =
    eq_bytes_other c.type (codes "AddCustomer") (codes "DeleteMovie") refl h

add_customer_not_delete_customer :
    (c : Call) → type_is c "AddCustomer" ≡ true → type_is c "DeleteCustomer" ≡ false
unfolding eq_bytes
add_customer_not_delete_customer c h =
    eq_bytes_other c.type (codes "AddCustomer") (codes "DeleteCustomer") refl h

no_chain :
    (a b c : Call) → fast_is_reachable_remote a b ≡ true → fast_is_reachable_remote c a ≡ false
unfolding fast_is_reachable_remote
no_chain a b c h = ground (
  arith,
  add_movie_not_delete_movie a,
  add_movie_not_delete_customer a,
  add_customer_not_delete_movie a,
  add_customer_not_delete_customer a,
)

local_covers :
    (a b : Call) (vc : List ℕ)
    → fast_is_reachable_local a b ≡ false
    → fast_is_reachable_remote (record a { call_vector_clock = vc }) b ≡ false
unfolding fast_is_reachable_local fast_is_reachable_remote
local_covers a b vc h = h

State-set : IsSet MovieState
State-set = hlevel (IntSet-set, PairSet-set)

-- For this object, calls that the remote relation does not order commute; a call that must stand before
-- another has none that must stand before it; and the local test finds every conflict.
pub movie_case-IsConflictAware : IsConflictAware movie_case
movie_case-IsConflictAware = record {
  State-set = State-set;
  commute = commute;
  no_chain = no_chain;
  local_covers = local_covers;
}
