-- ===== src/Lib.antt =====
-- The replicated objects of this repository and Hamsou, the protocol that replicates them: each node
-- executes a call at once, sends it to all others, orders conflicting calls among those that are not
-- stable yet, and makes a call stable when enough nodes have acknowledged it. A node's failure lowers the
-- number of acknowledgements to wait for.
--
-- The parts, and the files that model them (BENCH is the folder wellcoordination/benchmark):
--   * Call: class Call of BENCH/replicated-object.hpp, the call and message record.
--   * DirectedGraph: class DirectedGraph of the same file, with addEdge and isReachable, which the use
--     cases hold and ask for nothing; DirectedGraph.Edges, Visited and Search: what addEdge adds and the
--     depth-first search finds.
--   * VectorClock: compareVectorClocks, which every use case of BENCH holds in the same words, and the
--     comparator of the priority queue of protocol-hamsou.cpp.
--   * UseCase: what the handler uses of its object `obj`, as an interface. UseCase.Set, Movie,
--     Courseware, Project, Stack and Ycsb: the objects of BENCH/set.hpp, movie.hpp, courseware.hpp,
--     project.hpp, stack.hpp and ycsb.hpp, each with its state, its conflict relations and its updates;
--     `*_case` fills the interface. UseCase.ComplexCourseware: the same for BENCH/complex-courseware.hpp;
--     its tables are lookup functions, and Tables holds the steps on one table.
--   * Hamsou: the state of class Handler of protocol-hamsou.cpp. Hamsou.Ops: localHandler, queueHandler,
--     remoteHandler, updateAcksTable, stabilizerWithAck and internalDownstreamExecute. Hamsou.Failure:
--     markNodeFailed. Hamsou.Run: the dispatch of a decoded message in ServerConnection::receive
--     (tcp/ServerConnection.cpp), and a replica as a fold of `step` over the calls it issues, the
--     messages it receives and the failures it is told of, in any order.
--   * Hamsou.Splits: the well-formedness of a handler, `Splits s stable pending`: the execution list is
--     the stable calls, as many as the stable index says, and then the pending ones. Hamsou.Stamp,
--     Local, Deliver, Pending, Place, Progress, Stabilize, Order, Failure.Laws and Failure.Effect: what
--     the operations do.
--   * Crdt: the handler under the macro CRDT, where every call is stable at once; Crdt.Counter, Crdt.Gset
--     and Crdt.Register: its objects of BENCH/op-crdt-counter.hpp, op-crdt-gset.hpp and op-crdt-reg.hpp,
--     the last with the loop of readBenchFile. Crdt.Laws, Crdt.Values and Crdt.Register.Laws: what they
--     do.
--   * Ecros: the state of class Handler of protocol-ecros.cpp, the second protocol, which keeps a graph
--     of the calls that are not stable. Ecros.Clocks: happenedBefore and concurrent. Ecros.Ops:
--     exeLocal, exeRemote up to the edges of the new call, handleAckAndMaybeStabilize and
--     commitStableCalls. Ecros.Cycles: detectAndResolveCycles. Ecros.TopoSort: fullTopoSort.
--     Ecros.Remote: the whole of exeRemote, and a replica as a fold of `step`. Ecros.Wire: its
--     serializeCalls and deserializeCalls. Ecros.Set, Stack, Movie, Project and Courseware: the objects
--     of BENCH/ecros-set.hpp, ecros-stack.hpp, ecros-movie.hpp, ecros-project.hpp and
--     ecros-courseware.hpp. Ecros.Edges, Laws, Closed, Sorted, Respects, Remaining, Complete,
--     Clocks.Laws, Skips and the Laws of the objects: what they do.
--   * PartialSyn: the state of class Handler of protocol2-partialsyn.cpp, an earlier protocol that orders
--     calls by the places of their types in a list. PartialSyn.Ops: its operations up to
--     internalDownstreamExecute. PartialSyn.Stabilize: stabilizerWithVC and stabilizerWithAck.
--     PartialSyn.Splits: its well-formedness. PartialSyn.Sorted, Run, Lost and Enough: what they do. The file
--     does not compile as it stands: it includes account.hpp, which does not compile, and reads a member
--     `acks` that the object does not declare; here the acknowledgements and the order are fields of the
--     handler.
--   * Wire: serializeCalls and deserializeCalls.
--   * Driver: the variables of the main loop of tcp/main-replication-protocols.cpp. Driver.Loop: a round of
--     the loop under OPTIMISTIC_REPLICATION, in any order with the messages and failures that the other
--     threads bring; it calls Hamsou and Wire. Driver.Ecros: the loop under ECROS. Driver.Monitor: the
--     thread that reports dead connections. Driver.Acks, Pace, Faithful, Sends,
--     Drives, Contents, MovesOn, Accounts, Waits, Bounds, Within and Fits: what the loop does.
--   * Network: connections. Network.Socket: sending and receiving over a socket of tcp/Socket.cpp.
--     Network.Layer: ServerConnection::send and reconnect, and ServersCommunicationLayer::broadcast
--     (tcp/ServersCommunicationLayer.cpp). Network.Receive: ServerConnection::receive. Network.Framing and
--     Network.Delivery: what becomes of a message between Driver and Hamsou of two nodes.
--   * System: the nodes together: the handler of each, what each has broadcast, and how much of it each
--     other has received; they work in any order, over connections that lose nothing and keep the order of
--     a sender, while no failure is reported. It uses Hamsou.Run. System.Gather, Messages, Invariant,
--     Reachable, Agree and Delivers: what holds of the nodes.
--   * Tests: concrete clocks, calls and replicas.
--
-- How code becomes a definition. A method that changes the handler takes it and returns it. Reference
-- arguments are results: localHandler returns `LocalResult`. A test on the name of a call compares the
-- bytes of the name. The objects' states are Boolean functions for std::set of int and of pairs, and a
-- list for std::vector. Node numbers start at 1, as in the program, and `at_node` reads `xs[node - 1]`.
--
-- Bounds and fuel. An int of a message is its 32-bit pattern, so the fields of an encodable call are
-- below 2 ^ 32; the counters of the handler (clock entries, indices, acknowledgements) are unbounded,
-- as a run that made one of them overflow would have to execute 2 ^ 31 calls. The program's quorum is
-- an int that may fall to -1, where the tests against it hold; here subtraction stops at 0 and the
-- tests hold too. The loops over the priority queue take the queue's length as fuel, and each round
-- that goes on pops one call, so that it is enough. stabilizerWithAck of PartialSyn has as fuel the
-- number of executed and queued calls, each of which it passes once. The search for cycles pops in
-- each round a call that was pushed for an edge, or the start: its fuel is the number of edges and
-- one. The topological order takes a call in each round, and has their number as fuel. A search in
-- DirectedGraph marks a vertex in each call, each the source or a target of an edge: their number is
-- its fuel. The text of a number has no more digits than the number itself says. All other loops are
-- structural.
--
-- Parameters. `Q : PriorityQueue` stands for std::priority_queue: which call comes next after a push or a
-- pop depends on the heap of the standard library, so that a push adds its element and a pop removes the
-- top are the only laws. `H : HashSet` stands for std::unordered_set in the same way, and for the order of
-- addresses. The lists of answers in Network stand for the results of the system's send and recv, and
-- `due` in Driver for the comparison of the clock with the time of the next operation. `check_validcall`
-- stands for the object's checkValidcall, which in most use cases ends without a return value.
--
-- Undefined behaviour of the source is left out as follows: an access out of a vector's range leaves the
-- state as it is; the table of acknowledgements, of 8 by 350000 counts in the source, has no bounds here; reading past the end of a message gives `none`.
--
-- Not modelled: the locks (each handler function is one step of a node, which the program's mutex
-- makes of most of it), the times of heartbeats, the fields that nothing reads, output, findPosition
-- and checkOrder of protocol-hamsou.cpp, which nothing calls; BENCH/ecros-complex-courseware.hpp; the
-- CRDTs of protocol0-crdt-message-passing.cpp, a configuration that does not compile; the texts of
-- workload files and their generators; opening, accepting and closing sockets, and threads, which are
-- input and output; protocol3-cyclepartialsyn.cpp, which does not compile, and gbox-creator.cpp, which
-- it is built on; the SQL analysis, which builds terms for a solver that is not in the repository; the
-- copies of other projects' libraries.
pub mod Prelude
pub mod Call
pub mod VectorClock
pub mod System
pub mod UseCase
pub mod Hamsou
pub mod Crdt
pub mod DirectedGraph
pub mod Driver
pub mod Ecros
pub mod Network
pub mod PartialSyn
pub mod Wire
pub mod Tests
