-- ===== src/Network.antt =====
-- tcp/Socket.cpp, tcp/ServerConnection.cpp and tcp/ServersCommunicationLayer.cpp: messages over connections.
-- A Buffer is the list of its bytes. The operating system is outside: a call of its `send` or `recv` answers
-- with the number of bytes that it took or gave, and 0 stands for each answer that is not positive.
pub mod Socket
pub mod Framing
pub mod Layer
pub mod Receive
pub mod Delivery
use optimistic_replication.Prelude.{ℕ, Option, List, Bytes}

-- What the class ServerConnection keeps of a connection: the number of the other node, and the socket with
-- the bytes that were written to it. `none` is the null pointer.
pub record Connection : Type 0 where
  pub remote_id : ℕ
  pub socket : Option Bytes

-- The class ServersCommunicationLayer: its own number, and the map from numbers to connections in the order
-- of iteration.
pub record CommunicationLayer : Type 0 where
  pub id : ℕ
  pub connections : List Connection
