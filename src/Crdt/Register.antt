-- ===== src/Crdt/Register.antt =====
-- wellcoordination/benchmark/op-crdt-reg.hpp: the register whose last writer wins. updateStableState, which
-- the handler does not call in this mode, is not modelled.
pub mod Laws
use optimistic_replication.Prelude.{
  ℕ, zero, suc, ◌+◌, Bool, true, false, List, [], ◌∷◌, ◌++◌, Bytes, codes, ltb, eq_bytes,
  if◌then◌else◌,
}
use optimistic_replication.Call.{Call, type_is}
use optimistic_replication.Crdt.{CrdtCase}

-- OpRegState, without its `index`.
pub record RegState : Type 0 where
  pub value : ℕ
  pub timestamp : ℕ

abbrev pub initial : RegState
initial = record { value = 0; timestamp = 0 }

-- regToString: the enumeration Update, Read.
unfoldable pub reg_to_string : ℕ → Bytes
reg_to_string zero = codes "Update"
reg_to_string (suc zero) = codes "Read"
reg_to_string (suc (suc n)) = codes "Invalid"

unfoldable pub locally_permissibility : RegState → Call → Bool
locally_permissibility current call = true

-- `current_state` after a call.
unfoldable pub update_current_state : RegState → Call → RegState
update_current_state s call =
    if type_is call "Update"
    then if ltb s.timestamp call.value2
      then record { value = call.value1; timestamp = call.value2 }
      else s
    else s

abbrev pub reg_case : CrdtCase
reg_case = record {
  State = RegState;
  locally_permissibility = locally_permissibility;
  update_current_state = update_current_state;
}

-- A line of the workload file: the operation and the value that the program extracts from it. How the
-- text of the line is turned into them is the standard library's.
pub record BenchLine : Type 0 where
  pub tmp_op : ℕ
  pub operand : ℕ

-- What one round of readBenchFile's loop does to `call`, to the call identifier's counter and to the
-- object: the call before the round gives the fields that the round does not write.
unfoldable pub read_line : ℕ → RegState × ℕ × Call → BenchLine → RegState × ℕ × Call
read_line id (s, call_id_counter, call) line =
    let call1 = record call { type = reg_to_string line.tmp_op } in
    let call_id = call_id_counter + 1 in
    let call2 = record call1 { call_id = call_id } in
    let timestamp = s.timestamp + 1 in
    let call3 = record call2 { value1 = line.operand; value2 = timestamp } in
    if type_is call1 "Read"
    then (s, call_id_counter, record call1 { node_id = id; stable = false })
    else if type_is call2 "Update"
    then (
      record s { timestamp = timestamp },
      call_id,
      record call3 { node_id = id; stable = false },
    )
    else (s, call_id, record call2 { node_id = id; stable = false })

-- The loop: the object at the end, and the calls that were pushed to `calls`.
unfoldable pub read_lines : ℕ → RegState × ℕ × Call → List BenchLine → RegState × List Call
read_lines id (s, call_id_counter, call) [] = (s, [])
read_lines id (s, call_id_counter, call) (line ∷ lines) =
    let (s', counter, pushed) = read_line id (s, call_id_counter, call) line in
    let (s'', calls) = read_lines id (s', counter, pushed) lines in (s'', pushed ∷ calls)

-- readBenchFile after the first line of the file, which holds the number of expected calls.
unfoldable pub read_bench_file : ℕ → Call → RegState → List BenchLine → RegState × List Call
unfolding read_lines
read_bench_file id call s lines = read_lines id (s, 0, call) lines
