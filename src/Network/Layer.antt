-- ===== src/Network/Layer.antt =====
-- tcp/ServerConnection.cpp: sending and connecting. tcp/ServersCommunicationLayer.cpp: the broadcast of a
-- message, and what the layer asks its connections.
use optimistic_replication.Prelude.{
  ℕ, zero, suc, Bool, true, false, not, ◌&&◌, Option, none, some, List, [], ◌∷◌, ◌++◌, Bytes,
  if◌then◌else◌, ltb, ◌==◌, length,
}
use optimistic_replication.Hamsou.{at_node}
use optimistic_replication.Network.{Connection, CommunicationLayer}
use optimistic_replication.Network.Socket.{send_loop, send_string, to_string}

-- The answers of the system to the two sends of a message: for its length and for its content.
pub record Answers : Type 0 where
  pub header : List ℕ
  pub content : List ℕ

-- The bytes that a message puts on a socket. An exception ends it.
unfoldable pub write : Answers → Bytes → Bytes
write a buff =
    let (head, sent) = send_string a.header (to_string (length buff)) in
    if sent then head ++ (send_loop a.content buff).0 else head

-- ServerConnection::send. Nothing is sent over a null socket.
unfoldable pub send : Answers → Bytes → Connection → Connection
send a buff c = elim c.socket [
  | none ↦ c
  | some written ↦ record c { socket = some (written ++ write a buff) }
]

-- ServerConnection::isToConnect: the node with the higher number connects.
unfoldable pub is_to_connect : ℕ → ℕ → Bool
is_to_connect id remote_id = ltb remote_id id

-- ServerConnection::reconnect with an accepted socket.
unfoldable pub reconnect : ℕ → Connection → Connection
reconnect id c = elim c.socket [
  | none ↦
      if is_to_connect id c.remote_id
      then record c { socket = some (to_string id ++ (0 ∷ [])) }
      else record c { socket = some [] }
  | some written ↦ c
]

-- The constructor: a connection to a node with a lower number is made at once, and says who connects.
unfoldable pub new_connection : ℕ → ℕ → Connection
new_connection id remote_id = record {
  remote_id = remote_id;
  socket = if is_to_connect id remote_id then some (to_string id ++ (0 ∷ [])) else none;
}

-- connectAll, from number `i` on.
unfoldable pub connect_all : ℕ → ℕ → ℕ → List Connection
connect_all id i zero = []
connect_all id i (suc hosts) = new_connection id i ∷ connect_all id (suc i) hosts

-- `!handler->node_failed[remote - 1]`. Out of range it is undefined in the source, and false here.
unfoldable pub is_alive : List Bool → ℕ → Bool
is_alive node_failed remote = elim (at_node node_failed remote) [ none ↦ false | some b ↦ not b ]

-- The loop of broadcast over the connections. An exception of one is caught, and the loop goes on.
unfoldable pub broadcast_loop :
    ℕ → List Bool → (ℕ → Answers) → Bytes → List Connection → List Connection
broadcast_loop id node_failed answers message [] = []
broadcast_loop id node_failed answers message (c ∷ cs) =
    let rest = broadcast_loop id node_failed answers message cs in
    if not (c.remote_id == id) && is_alive node_failed c.remote_id
    then send (answers c.remote_id) message c ∷ rest
    else c ∷ rest

unfoldable pub broadcast :
    List Bool → (ℕ → Answers) → Bytes → CommunicationLayer → CommunicationLayer
broadcast node_failed answers message l = record l {
  connections = broadcast_loop l.id node_failed answers message l.connections;
}

-- `connections.find(remoteId)`
unfoldable pub find : ℕ → List Connection → Option Connection
find remote_id [] = none
find remote_id (c ∷ cs) = if c.remote_id == remote_id then some c else find remote_id cs

-- ServerConnection::isSocketNull
unfoldable pub is_socket_null : Connection → Bool
is_socket_null c = elim c.socket [ none ↦ true | some written ↦ false ]

unfoldable pub is_connection_dead : CommunicationLayer → ℕ → Bool
is_connection_dead l remote_id = elim (find remote_id l.connections) [
  | none ↦ false
  | some c ↦ is_socket_null c
]
