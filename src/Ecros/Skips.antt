-- ===== src/Ecros/Skips.antt =====
-- protocol-ecros.cpp, exeLocal, over an object whose shouldSkip tests by mistake for a set that is empty.
pub mod Cases
use optimistic_replication.Prelude.{
  ℕ, ◌≡◌, ap, ◌∙◌, inl, inr, true, false, List, [], ◌∷◌, foldl, Bytes, Bool-cases, eq_bytes,
}
use optimistic_replication.Call.{Call}
use optimistic_replication.Ecros.{EcrosCase, EcrosHandler, HashSet}
use optimistic_replication.Ecros.Ops.{exe_local}
use optimistic_replication.Ecros.Set.{is_empty}

-- Calls of other types than `exempt` are skipped while the set `ids` is empty, and those of that type leave
-- the set as it is.
pub record SkipsOthers (E : EcrosCase) (ids : E.State → List ℕ) (exempt : Bytes) : Type 0 where
  pub skips :
      (s : E.State) (c : Call)
      → is_empty (ids s) ≡ true
      → eq_bytes c.type exempt ≡ false
      → E.should_skip s c ≡ true
  pub keeps :
      (s : E.State) (c : Call) → eq_bytes c.type exempt ≡ true → ids (E.apply_call s c) ≡ ids s

module _ (E : EcrosCase) (H : HashSet) where
  -- What a node makes of the calls that it issues, one after the other.
  abbrev pub issue_all : EcrosHandler E → List Call → EcrosHandler E
  issue_all = foldl (λ s c. (exe_local E H s c).0)

  module _ (ids : E.State → List ℕ) (exempt : Bytes) (K : SkipsOthers E ids exempt) where
    exe_local-keeps :
        (s : EcrosHandler E) (c : Call)
        → is_empty (ids s.obj) ≡ true
        → is_empty (ids (exe_local E H s c).0.obj) ≡ true
    unfolding exe_local
    exe_local-keeps s c h = elim (Bool-cases (E.should_skip s.obj c)) [
      | inl k ↦ rw k h
      | inr k ↦ elim (Bool-cases (eq_bytes c.type exempt)) [
        | inl d ↦ rw k (ap is_empty (K.keeps s.obj _ d) ∙ h)
        | inr d ↦ rw (K.skips s.obj c h d) h
      ]
    ]

    -- A set that is empty stays so, whatever the node issues.
    pub stays_empty :
        (s : EcrosHandler E) (calls : List Call)
        → is_empty (ids s.obj) ≡ true
        → is_empty (ids (issue_all s calls).obj) ≡ true
    stays_empty s [] h = h
    stays_empty s (c ∷ calls) h = stays_empty (exe_local E H s c).0 calls (exe_local-keeps s c h)
