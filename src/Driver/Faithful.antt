-- ===== src/Driver/Faithful.antt =====
-- tcp/main-replication-protocols.cpp: what it means that the main loop broadcasts the right messages.
use optimistic_replication.Prelude.{
  ◌≤◌, ◌≡◌, sym, ◌∙◌, ap, true, false, List, [], ◌∷◌, ◌++◌, Bytes, subst, append_assoc, take-more,
  length, length-append, take, arith,
}
use optimistic_replication.Call.{Call, type_is}
use optimistic_replication.UseCase.{UseCase}
use optimistic_replication.Hamsou.{Handler}
use optimistic_replication.Hamsou.Ops.{local_handler}
use optimistic_replication.Driver.{Driver, PayloadBuffer, message}
use optimistic_replication.Driver.Acks.{Keeps}

-- The messages are those of the acknowledgements and of the own calls, in some interleaving, and each
-- is what the call's serialization leaves in the buffer.
pub data Interleaved : List Call → List Call → List Bytes → Type 0 where
  nothing : Interleaved [] [] []
  ack :
      {acks ours : List Call} {sent : List Bytes} (c : Call) (b : PayloadBuffer)
      → Interleaved acks ours sent
      → Interleaved (acks ++ (c ∷ [])) ours (sent ++ (message c b ∷ []))
  own :
      {acks ours : List Call} {sent : List Bytes} (c : Call) (b : PayloadBuffer)
      → Interleaved acks ours sent
      → Interleaved acks (ours ++ (c ∷ [])) (sent ++ (message c b ∷ []))

module _ (U : UseCase) where
  -- The second list has the calls of the first that localHandler executed, in order and as it left them.
  -- The others only read, or were not permissible in some state.
  pub data Issued : List Call → List Call → Type 0 where
    nothing : Issued [] []
    reads :
        {cs ours : List Call} (c : Call)
        → type_is c "Read" ≡ true
        → Issued cs ours
        → Issued (cs ++ (c ∷ [])) ours
    dropped :
        {cs ours : List Call} (c : Call) (st : U.State)
        → U.locally_permissibility st c ≡ false
        → Issued cs ours
        → Issued (cs ++ (c ∷ [])) ours
    executed :
        {cs ours : List Call} (c : Call) (s : Handler U)
        → (local_handler U s c).flag ≡ true
        → Issued cs ours
        → Issued (cs ++ (c ∷ [])) (ours ++ ((local_handler U s c).call ∷ []))

  -- What holds of the loop over the calls of the workload.
  pub record IsFaithful (calls : List Call) (d : Driver U) : Type 0 where
    pub done : List Call
    pub ours : List Call
    pub workload : done ++ d.left ≡ calls
    pub issued : Issued done ours
    pub count : d.sent ≡ length ours
    pub bound : d.ack_index ≤ length d.hdl.send_ack_call_list
    pub sends : Interleaved (take d.ack_index d.hdl.send_ack_call_list) ours d.broadcasts

module _ {U : UseCase} (calls : List Call) where
  -- Another handler that keeps the acknowledgements.
  pub IsFaithful-hdl :
      (d : Driver U) (t : Handler U)
      → Keeps d.hdl t
      → IsFaithful U calls d
      → IsFaithful U calls (record d { hdl = t })
  IsFaithful-hdl d t k v = record {
    done = v.done;
    ours = v.ours;
    workload = v.workload;
    issued = v.issued;
    count = v.count;
    bound = omega (arith, v.bound, ap length k.list, length-append d.hdl.send_ack_call_list k.more);
    sends =
        subst (λ l. Interleaved l v.ours d.broadcasts)
          (sym (
            ap (take d.ack_index) k.list
            ∙ take-more d.ack_index d.hdl.send_ack_call_list k.more v.bound))
          v.sends;
  }

  -- One more call of the workload is done, and the messages are as before.
  pub IsFaithful-next :
      (d t : Driver U) (c : Call) (rest : List Call) (v : IsFaithful U calls d)
      → d.left ≡ c ∷ rest
      → t.left ≡ rest
      → (ours : List Call) → Issued U (v.done ++ (c ∷ [])) ours
      → t.sent ≡ length ours
      → t.ack_index ≤ length t.hdl.send_ack_call_list
      → Interleaved (take t.ack_index t.hdl.send_ack_call_list) ours t.broadcasts
      → IsFaithful U calls t
  IsFaithful-next d t c rest v e f ours i n b s = record {
    done = v.done ++ (c ∷ []);
    ours = ours;
    workload = rw (f, append_assoc v.done (c ∷ []) rest) (rw e at v.workload);
    issued = i;
    count = n;
    bound = b;
    sends = s;
  }

  -- What the loop changes in its own variables.
  pub IsFaithful-same :
      (d t : Driver U)
      → t.left ≡ d.left
      → t.sent ≡ d.sent
      → t.ack_index ≡ d.ack_index
      → t.hdl.send_ack_call_list ≡ d.hdl.send_ack_call_list
      → t.broadcasts ≡ d.broadcasts
      → IsFaithful U calls d
      → IsFaithful U calls t
  IsFaithful-same d t l n i a b v = record {
    done = v.done;
    ours = v.ours;
    workload = rw l v.workload;
    issued = v.issued;
    count = rw n v.count;
    bound = rw (i, a) v.bound;
    sends = rw (i, a, b) v.sends;
  }
