-- ===== src/Ecros/Laws.antt =====
-- protocol-ecros.cpp: no edge of the execution graph dangles.
use mathlib.Core.List.{Mem, mem-cons_self, mem-cons_of_mem, mem-cons}
use mathlib.Core.List.Perm
use native.Mathlib.Bridge.{le_prop}
use mathlib.Core.Logic.Or
use optimistic_replication.Prelude.{
  ℕ, ◌+◌, ◌<◌, inl, inr, Bool, true, false, not, Option, none, some, List, ◌∷◌, ◌==◌, All,
  Bool-cases, if◌then◌else◌, arith,
}
use optimistic_replication.Call.{Call}
use optimistic_replication.Hamsou.{count_ack}
use optimistic_replication.Hamsou.Order.{All-of_mem, mem_of_All, All-keep}
use optimistic_replication.Ecros.{EcrosCase, HashSet, Edge, EcrosHandler}
use optimistic_replication.Ecros.Ops.{
  commit_call, stabilize, find_acknowledged, handle_ack_and_maybe_stabilize, exe_local,
  enter_remote,
}
use optimistic_replication.Ecros.Edges.{
  Joins, Joined, Joined-append, All-map, local_edges-Joined, remote_edges-Joined, Joined-commit,
}

-- What holds of the pointers of a handler: the edges join calls of the call set, and the next object is
-- new to it.
pub record IsClosed {E : EcrosCase} (s : EcrosHandler E) : Type 0 where
  pub joined : Joined s.calls s.edges
  pub allocated : All (λ p. p < s.fresh) s.calls

-- A new pointer in a closed handler: the old edges and pointers keep what they have.
module _ (H : HashSet) where
  Mem-place : (p q : ℕ) (ps : List ℕ) → Mem q (p ∷ ps) → Mem q (H.place p ps)
  Mem-place p q ps m = (Perm.mem_iff (H.place_perm p ps)).1 m

  Joined-place : (p : ℕ) (ps : List ℕ) (es : List Edge) → Joined ps es → Joined (H.place p ps) es
  Joined-place p ps es h = record {
    all =
        All-map (Joins ps) (Joins (H.place p ps))
          (λ e j. (
            Mem-place p e.from ps (mem-cons_of_mem p j.0),
            Mem-place p e.to ps (mem-cons_of_mem p j.1),
          ))
          es h.all;
  }

  allocated-place :
      (p : ℕ) (ps : List ℕ) → All (λ q. q < p) ps → All (λ q. q < p + 1) (H.place p ps)
  allocated-place p ps h =
      All-of_mem (λ q. q < p + 1) (H.place p ps)
        (λ q m.
          Or.elim le_prop (mem-cons.0 ((Perm.mem_iff (H.place_perm p ps)).0 m))
            (λ e. omega (arith, e)) (λ k. bound q k))
    where
      bound : (q : ℕ) → Mem q ps → q < p + 1
      bound q k = omega (arith, mem_of_All (λ r. r < p) (λ r. le_prop) ps h q k)

  module _ (E : EcrosCase) where
    exe_local-IsClosed :
        (s : EcrosHandler E) (call : Call) → IsClosed s → IsClosed (exe_local E H s call).0
    unfolding exe_local
    exe_local-IsClosed s call v = elim (Bool-cases (E.should_skip s.obj call)) [
      | inl e ↦ rw e v
      | inr e ↦ rw e (record {
        joined = Joined-append (Joined-place s.fresh s.calls s.edges v.joined) (
            local_edges-Joined E s.number_of_nodes _ s.fresh (H.place s.fresh s.calls)
              (H.place s.fresh s.calls) (Mem-place s.fresh s.fresh s.calls mem-cons_self)
              (All-of_mem (λ p. Mem p (H.place s.fresh s.calls)) _ (λ p m. m)));
        allocated = allocated-place s.fresh s.calls v.allocated;
      })
    ]

    enter_remote-IsClosed :
        (s : EcrosHandler E) (call : Call) → IsClosed s → IsClosed (enter_remote E H s call)
    unfolding enter_remote
    enter_remote-IsClosed s call v = record {
      joined = Joined-append (Joined-place s.fresh s.calls s.edges v.joined) (
          remote_edges-Joined E s.number_of_nodes _ s.fresh (H.place s.fresh s.calls)
            (H.place s.fresh s.calls) (Mem-place s.fresh s.fresh s.calls mem-cons_self)
            (All-of_mem (λ p. Mem p (H.place s.fresh s.calls)) _ (λ p m. m)));
      allocated = allocated-place s.fresh s.calls v.allocated;
    }

module _ (E : EcrosCase) where
  stabilize-IsClosed : (s : EcrosHandler E) (p : ℕ) → IsClosed s → IsClosed (stabilize E s p)
  unfolding stabilize commit_call
  stabilize-IsClosed s p v = record {
    joined = Joined-commit p s.calls s.edges v.joined;
    allocated = All-keep (λ q. q < s.fresh) (λ q. not (q == p)) s.calls v.allocated;
  }

  IsClosed-if :
      (b : Bool) (s t : EcrosHandler E) → IsClosed s → IsClosed t → IsClosed (if b then s else t)
  IsClosed-if true s t h k = h
  IsClosed-if false s t h k = k

  IsClosed-found :
      (o : Option ℕ) (s : EcrosHandler E)
      → IsClosed s
      → IsClosed (elim o [ none ↦ s | some p ↦ stabilize E s p ])
  IsClosed-found none s h = h
  IsClosed-found (some p) s h = stabilize-IsClosed s p h

  handle_ack-IsClosed :
      (s : EcrosHandler E) (ack : Call)
      → IsClosed s
      → IsClosed (handle_ack_and_maybe_stabilize E s ack)
  unfolding handle_ack_and_maybe_stabilize
  handle_ack-IsClosed s ack v =
      let counted : EcrosHandler E = record s {
        ack_counts = count_ack s.ack_counts ack.node_id ack.call_id;
      } in
      let v' : IsClosed counted = record { joined = v.joined; allocated = v.allocated } in
      IsClosed-if _ _ counted (IsClosed-found (find_acknowledged s.heap ack s.calls) counted v') v'

  -- Every operation on the call set keeps its pointers sound: after a local call, after the entry of a
  -- remote call and after an acknowledgement, which may free a call, each edge still joins two calls of
  -- the set, and the next object is new to it.
  pub IsClosed-kept :
      (H : HashSet) (s : EcrosHandler E) (call : Call)
      → IsClosed s
      → IsClosed (exe_local E H s call).0
        × IsClosed (enter_remote E H s call)
        × IsClosed (handle_ack_and_maybe_stabilize E s call)
  IsClosed-kept H s call v = (
    exe_local-IsClosed H E s call v,
    enter_remote-IsClosed H E s call v,
    handle_ack-IsClosed s call v,
  )
