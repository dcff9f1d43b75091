-- ===== src/Prelude/Sets.antt =====
-- std::set<int> and std::unordered_set<int> (and the sets of pairs) as membership tests: the
-- operations that are modelled insert, erase and ask, and never iterate.
use Prim.Native.Nat.{ℕ}
use mathlib.Core.Path.{◌≡◌, fun_ext}
use mathlib.Core.Bool.{Bool, true, false, ◌&&◌}
use mathlib.Core.HLevel.{→_set}
use native.Mathlib.Omega.{arith}
use optimistic_replication.Prelude.Tests.{◌==◌, if◌then◌else◌}

abbrev pub IntSet : Type 0
IntSet = ℕ → Bool

abbrev pub PairSet : Type 0
PairSet = ℕ → ℕ → Bool

abbrev pub empty_set : IntSet
empty_set x = false

abbrev pub empty_pairs : PairSet
empty_pairs x y = false

unfoldable pub insert : ℕ → IntSet → IntSet
insert a s x = if a == x then true else s x

unfoldable pub erase : ℕ → IntSet → IntSet
erase a s x = if a == x then false else s x

unfoldable pub insert_pair : ℕ → ℕ → PairSet → PairSet
insert_pair a b s x y = if (a == x) && (b == y) then true else s x y

pub Bool-set : IsSet Bool
Bool-set = hlevel

pub IntSet-set : IsSet IntSet
IntSet-set = →_set Bool-set

pub PairSet-set : IsSet PairSet
PairSet-set = →_set IntSet-set

pub insert_comm : (a b : ℕ) (s : IntSet) → insert a (insert b s) ≡ insert b (insert a s)
unfolding insert
insert_comm a b s = fun_ext λ x. ground arith

pub erase_comm : (a b : ℕ) (s : IntSet) → erase a (erase b s) ≡ erase b (erase a s)
unfolding erase
erase_comm a b s = fun_ext λ x. ground arith

pub insert_pair_comm :
    (a b c d : ℕ) (s : PairSet)
    → insert_pair a b (insert_pair c d s) ≡ insert_pair c d (insert_pair a b s)
unfolding insert_pair
insert_pair_comm a b c d s = fun_ext λ x. fun_ext λ y. ground arith

pub insert_self : (a : ℕ) (s : IntSet) → insert a s a ≡ true
unfolding insert
insert_self a s = ground arith

pub erase_self : (a : ℕ) (s : IntSet) → erase a s a ≡ false
unfolding erase
erase_self a s = ground arith

pub insert_pair_self : (a b : ℕ) (s : PairSet) → insert_pair a b s a b ≡ true
unfolding insert_pair
insert_pair_self a b s = ground arith
