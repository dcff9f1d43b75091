-- ===== src/Call.antt =====
-- wellcoordination/benchmark/replicated-object.hpp: the record of one operation.
-- An `int` is carried as its 32-bit pattern, a number below 2 ^ 32; the counters, identifiers and clock
-- entries that the program compares by order are non-negative, so their pattern is their value.
use Prim.Native.String.{String}
use optimistic_replication.Prelude.{
  ℕ, zero, suc, Bool, false, List, [], ◌∷◌, Bytes, codes, eq_bytes,
}

pub record Call : Type 0 where
  pub type : Bytes
  pub value1 : ℕ
  pub value2 : ℕ
  pub value3 : ℕ
  pub value4 : ℕ
  pub node_id : ℕ
  pub call_id : ℕ
  pub stable : Bool
  pub call_vector_clock : List ℕ
  pub applied : Bool

abbrev pub zeros : ℕ → List ℕ
zeros zero = []
zeros (suc n) = 0 ∷ zeros n

-- The constructor with parameters, its two last arguments at their default `false`.
abbrev pub new_call : Bytes → ℕ → ℕ → ℕ → ℕ → ℕ → ℕ → Call
new_call t v1 v2 v3 v4 n_id c_id = record {
  type = t;
  value1 = v1;
  value2 = v2;
  value3 = v3;
  value4 = v4;
  node_id = n_id;
  call_id = c_id;
  stable = false;
  call_vector_clock = zeros 31;
  applied = false;
}

abbrev pub default_call : Call
default_call = new_call [] 0 0 0 0 0 0

-- `call.type == "..."`
abbrev pub type_is : Call → String → Bool
type_is c s = eq_bytes c.type (codes s)
