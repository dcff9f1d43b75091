-- ===== src/Network/Receive.antt =====
-- tcp/ServerConnection.cpp: receive, for the protocol of protocol-hamsou.cpp.
use optimistic_replication.Prelude.{
  ℕ, zero, suc, ◌+◌, Bool, Option, some, List, [], ◌∷◌, Bytes, codes, eq_bytes, if◌then◌else◌,
}
use optimistic_replication.Call.{Call}
use optimistic_replication.UseCase.{UseCase, PriorityQueue}
use optimistic_replication.Wire.{◌>>=◌, deserialize_calls}
use optimistic_replication.Hamsou.{Handler}
use optimistic_replication.Hamsou.Run.{receive_call}
use optimistic_replication.Hamsou.Failure.{mark_node_failed}
use optimistic_replication.Network.Socket.{get_string, stoi, receive_loop}

-- The text at the front of a buffer, as strcmp reads it. It ends at a zero byte, or with the buffer, where
-- the source would read on.
unfoldable pub c_string : Bytes → Bytes
c_string [] = []
c_string (zero ∷ bs) = []
c_string (suc b ∷ bs) = suc b ∷ c_string bs

-- The length and the content of the next message, and the rest of the stream. `none` is an exception.
unfoldable pub read_message : List ℕ → Bytes → Option (Bytes × Bytes)
read_message answers stream = get_string stream >>= λ (length_str, b).
    stoi length_str >>= λ length. receive_loop answers length b

-- What receive changes: the counter of the nodes that are ready, and the handler.
pub record Node (U : UseCase) : Type 0 where
  pub initcounter : ℕ
  pub handler : Handler U

module _ (U : UseCase) (Q : PriorityQueue) (check_validcall : Call → Bool) where
  -- A message of the node `remote_id`.
  unfoldable pub dispatch : ℕ → Node U → Bytes → Option (Node U)
  dispatch remote_id n content =
      let text = c_string content in
      if eq_bytes text (codes "init")
      then some (record n { initcounter = n.initcounter + 1 })
      else if eq_bytes text (codes "shutdown")
      then some (record n { handler = mark_node_failed U Q n.handler remote_id })
      else deserialize_calls n.handler.number_of_nodes content >>= λ call.
          some (record n { handler = receive_call U Q check_validcall n.handler call })

  -- receive, when the socket is readable: the node and the rest of the stream. An empty length ends it.
  unfoldable pub receive : ℕ → List ℕ → Node U → Bytes → Option (Node U × Bytes)
  receive remote_id answers n stream = get_string stream >>= λ (length_str, b). elim length_str [
    | [] ↦ some (n, b)
    | c ∷ cs ↦ read_message answers stream >>= λ (content, rest).
        dispatch remote_id n content >>= λ n'. some (n', rest)
  ]
