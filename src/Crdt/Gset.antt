-- ===== src/Crdt/Gset.antt =====
-- wellcoordination/benchmark/op-crdt-gset.hpp: the operation-based set that only grows.
use optimistic_replication.Prelude.{
  ℕ, zero, suc, Bool, true, Bytes, codes, IntSet, insert, if◌then◌else◌,
}
use optimistic_replication.Call.{Call, type_is}
use optimistic_replication.Crdt.{CrdtCase}

-- gsetToString: the enumeration Update, Read.
unfoldable pub gset_to_string : ℕ → Bytes
gset_to_string zero = codes "Update"
gset_to_string (suc zero) = codes "Read"
gset_to_string (suc (suc n)) = codes "Invalid"

unfoldable pub locally_permissibility : IntSet → Call → Bool
locally_permissibility current call = true

-- `current_state.elements` after a call.
unfoldable pub update_current_state : IntSet → Call → IntSet
update_current_state elements call =
    if type_is call "Update" then insert call.value1 elements else elements

abbrev pub gset_case : CrdtCase
gset_case = record {
  State = IntSet;
  locally_permissibility = locally_permissibility;
  update_current_state = update_current_state;
}
