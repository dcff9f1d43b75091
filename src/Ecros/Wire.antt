-- ===== src/Ecros/Wire.antt =====
-- protocol-ecros.cpp: serializeCalls and deserializeCalls, in the words of protocol-hamsou.cpp. The
-- receiver reads as many clock entries as there are nodes.
use optimistic_replication.Prelude.{ℕ, Option, Bytes}
use optimistic_replication.Call.{Call}
use optimistic_replication.Ecros.{EcrosCase, EcrosHandler}
use optimistic_replication.Wire as Wire

module _ (E : EcrosCase) where
  unfoldable pub serialize_calls : EcrosHandler E → Call → Bytes → Bytes × ℕ
  serialize_calls s call buffer = Wire.serialize_calls call buffer

  unfoldable pub deserialize_calls : EcrosHandler E → Bytes → Option Call
  deserialize_calls s buffer = Wire.deserialize_calls s.number_of_nodes buffer
