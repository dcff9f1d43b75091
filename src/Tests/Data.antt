-- ===== src/Tests/Data.antt =====
-- The calls, the queue and the handlers that the tests share.
use mathlib.Core.List.Perm
use optimistic_replication.Prelude.{ℕ, List, [], ◌∷◌, Bytes, codes}
use optimistic_replication.Call.{Call, new_call}
use optimistic_replication.UseCase.{PriorityQueue}
use optimistic_replication.Hamsou.Run.{Event, issue, receive}

-- A queue that serves the newest call first.
abbrev pub newest_first : PriorityQueue
newest_first = record {
  push_heap = λ x q. x ∷ q;
  pop_heap = λ x q. q;
  push_perm = λ x q. Perm.refl (x ∷ q);
  pop_perm = λ x q. Perm.refl q;
}

abbrev pub call_of : Bytes → ℕ → ℕ → ℕ → List ℕ → Call
call_of type value node call clock = record (new_call type value 0 0 0 node call) {
  call_vector_clock = clock;
}

-- Node 1 adds 1 while node 2 removes 1.
abbrev pub add_one : Call
add_one = call_of (codes "Add") 1 1 1 (1 ∷ 0 ∷ [])

abbrev pub remove_one : Call
remove_one = call_of (codes "Remove") 1 2 1 (0 ∷ 1 ∷ [])

-- The same before the issuing node has written its clock.
abbrev pub fresh_add : Call
fresh_add = new_call (codes "Add") 1 0 0 0 1 1

abbrev pub fresh_remove : Call
fresh_remove = new_call (codes "Remove") 1 0 0 0 2 1

abbrev pub ack_add : Call
ack_add = new_call (codes "Ack") 1 0 0 0 1 1

abbrev pub history_1 : List Event
history_1 = issue fresh_add ∷ receive remove_one ∷ []

abbrev pub history_2 : List Event
history_2 = issue fresh_remove ∷ receive add_one ∷ []
