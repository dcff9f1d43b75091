-- ===== src/Crdt/Counter.antt =====
-- wellcoordination/benchmark/op-crdt-counter.hpp: the operation-based counter.
use optimistic_replication.Prelude.{ℕ, zero, suc, ◌+◌, Bool, true, Bytes, codes, if◌then◌else◌}
use optimistic_replication.Call.{Call, type_is}
use optimistic_replication.Crdt.{CrdtCase}

-- counterToString: the enumeration Update, Read.
unfoldable pub counter_to_string : ℕ → Bytes
counter_to_string zero = codes "Update"
counter_to_string (suc zero) = codes "Read"
counter_to_string (suc (suc n)) = codes "Invalid"

unfoldable pub locally_permissibility : ℕ → Call → Bool
locally_permissibility current call = true

-- `current_state.counter` after a call.
unfoldable pub update_current_state : ℕ → Call → ℕ
update_current_state counter call = if type_is call "Update" then counter + 1 else counter

abbrev pub counter_case : CrdtCase
counter_case = record {
  State = ℕ;
  locally_permissibility = locally_permissibility;
  update_current_state = update_current_state;
}
