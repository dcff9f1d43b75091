-- ===== src/Driver.antt =====
-- tcp/main-replication-protocols.cpp: the variables of main that its loop keeps, without the macros CRDT and
-- CRDT_MESSAGE_PASSING. Not represented: clock times, output, and the numbers that are only printed. What
-- the network does with a message is outside: `broadcasts` holds those that were given to it, in order.
pub mod Loop
pub mod Acks
pub mod Pace
pub mod Faithful
pub mod Drives
pub mod Contents
pub mod MovesOn
pub mod Accounts
pub mod Sends
pub mod Waits
pub mod Monitor
pub mod Ecros
pub mod Bounds
pub mod Within
pub mod Fits
use optimistic_replication.Prelude.{
  ℕ, zero, suc, ◌-◌, ◌/◌, Bool, true, false, List, [], ◌∷◌, ◌++◌, Bytes, if◌then◌else◌, ltb, take,
  drop, resize,
}
use optimistic_replication.Call.{Call, zeros}
use optimistic_replication.UseCase.{UseCase}
use optimistic_replication.Wire.{serialize_calls}
use optimistic_replication.Hamsou.{Handler, set_vars}

-- The vector `payload_buffer`: the memory that it owns, which `payload` points to, and its size.
pub record PayloadBuffer : Type 0 where
  pub memory : Bytes
  pub size : ℕ

-- The macro FAILURE_MODE and the argument that names the node that is to fail.
pub record Build : Type 0 where
  pub failure_mode : Bool
  pub failed_node : ℕ

pub record Driver (U : UseCase) : Type 0 where
  pub hdl : Handler U
  -- The calls from `it` on, and the distance from the first to it.
  pub left : List Call
  pub passed : ℕ
  pub expected_calls : ℕ
  pub sent : ℕ
  pub ack_index : ℕ
  pub wait : Bool
  pub stableindex : ℕ
  pub buffer : PayloadBuffer
  pub broadcasts : List Bytes
  pub shutdown_requested : Bool
  -- False after the `break` of a node that is to fail.
  pub looping : Bool

-- `payload_buffer.resize(length)`: the elements that it gains are zero.
unfoldable pub resize_buffer : PayloadBuffer → ℕ → PayloadBuffer
resize_buffer b n =
    let grown = take b.size b.memory ++ (zeros (n - b.size) ++ drop n b.memory) in
    record { memory = if ltb b.size n then grown else b.memory; size = n }

-- The message of a call: `length` bytes of the memory after serializeCalls.
unfoldable pub message : Call → PayloadBuffer → Bytes
message call b = take (serialize_calls call b.memory).1 (serialize_calls call b.memory).0

module _ {U : UseCase} where
  -- Serialization, the copy into a Buffer, and its broadcast.
  unfoldable pub broadcast_call : Driver U → Call → Driver U
  broadcast_call d call =
      let (written, length) = serialize_calls call d.buffer.memory in
      record d {
        buffer = resize_buffer (record (d.buffer) { memory = written }) length;
        broadcasts = d.broadcasts ++ (message call d.buffer ∷ []);
      }

-- Before the loop: `calls` and `expected` are what readBenchFile found.
unfoldable pub start : (U : UseCase) → Build → ℕ → ℕ → ℕ → List Call → Driver U
start U B id numnodes expected calls = record {
  hdl = set_vars U id numnodes expected;
  left = calls;
  passed = 0;
  expected_calls = if B.failure_mode then expected - expected / numnodes / 2 else expected;
  sent = 0;
  ack_index = 0;
  wait = false;
  stableindex = 0;
  buffer = record { memory = zeros 256; size = 256 };
  broadcasts = [];
  shutdown_requested = false;
  looping = true;
}
