-- ===== src/UseCase/Set/Laws.antt =====
-- set.hpp: its conflict relation orders every pair of calls that do not commute.
use optimistic_replication.Prelude.{
  ℕ, ◌&&◌, ◌||◌, ◌==◌, ◌∷◌, [], ◌∙◌, Bool, true, if◌then◌else◌, All, insert, erase, ◌≡◌, refl,
  false, List, codes, IntSet, IntSet-set, insert_comm, erase_comm, eq_bytes, eq_bytes_other, arith,
}
use optimistic_replication.Call.{Call, type_is}
use optimistic_replication.UseCase.{IsConflictAware}
use optimistic_replication.Hamsou.Order.{IsOrdered, replay}
use optimistic_replication.UseCase.Set.{
  fast_is_reachable_local, fast_is_reachable_remote, update_stable_state, set_case,
}

commute :
    (s : IntSet) (a b : Call)
    → fast_is_reachable_remote a b ≡ false
    → fast_is_reachable_remote b a ≡ false
    → update_stable_state (update_stable_state s a) b
      ≡ update_stable_state (update_stable_state s b) a
unfolding fast_is_reachable_remote update_stable_state
commute s a b h k = ground (arith, insert_comm a.value1 b.value1 s, erase_comm a.value1 b.value1 s)

-- A call is not both an Add and a Remove.
add_not_remove : (c : Call) → type_is c "Add" ≡ true → type_is c "Remove" ≡ false
unfolding eq_bytes
add_not_remove c h = eq_bytes_other c.type (codes "Add") (codes "Remove") refl h

no_chain :
    (a b c : Call) → fast_is_reachable_remote a b ≡ true → fast_is_reachable_remote c a ≡ false
unfolding fast_is_reachable_remote
no_chain a b c h = ground (arith, add_not_remove a)

local_covers :
    (a b : Call) (vc : List ℕ)
    → fast_is_reachable_local a b ≡ false
    → fast_is_reachable_remote (record a { call_vector_clock = vc }) b ≡ false
unfolding fast_is_reachable_local fast_is_reachable_remote
local_covers a b vc h = h

-- For the replicated set, calls that the remote relation does not order commute; a call that must
-- stand before another has none that must stand before it; and the local test finds every conflict.
pub set_case-IsConflictAware : IsConflictAware set_case
set_case-IsConflictAware = record {
  State-set = IntSet-set;
  commute = commute;
  no_chain = no_chain;
  local_covers = local_covers;
}

-- Some call of the list adds the element, or removes it.
abbrev pub adds : ℕ → List Call → Bool
adds x [] = false
adds x (c ∷ cs) = type_is c "Add" && (c.value1 == x) || adds x cs

abbrev pub removes : ℕ → List Call → Bool
removes x [] = false
removes x (c ∷ cs) = type_is c "Remove" && (c.value1 == x) || removes x cs

no_adds :
    (x : ℕ) (c : Call) (cs : List Call)
    → type_is c "Remove" ≡ true
    → All (λ y. fast_is_reachable_remote y c ≡ false) cs
    → adds x cs ≡ false
unfolding fast_is_reachable_remote
no_adds x c [] h k = refl
no_adds x c (d ∷ ds) h k = ground (arith, no_adds x c ds h k.1)

-- Removals win: replaying calls in conflict order from a set of elements, an element that some call
-- removes is out; one that some call adds and none removes is in; any other is in as it was before.
pub replay_removes_win :
    (s : IntSet) (es : List Call) (x : ℕ)
    → IsOrdered set_case es
    → replay set_case s es x ≡ (if removes x es then false else if adds x es then true else s x)
replay_removes_win s [] x h = refl
replay_removes_win s (c ∷ cs) x h =
    replay_removes_win (update_stable_state s c) cs x h.1 ∙ first_call
  where
    first_call :
        (if removes x cs then false else if adds x cs then true else update_stable_state s c x)
        ≡ (if removes x (c ∷ cs) then false else if adds x (c ∷ cs) then true else s x)
    first_call =
        unfold update_stable_state insert erase in ground (arith, add_not_remove c, no_adds x c cs)
