-- ===== src/Core/PolicyAuthority/Kernel/Reach.antt =====
-- The states that the operations of the store and of the kernel lead to, and the invariant that they
-- keep.
use tinycloud_node.Common.{ℕ, ◌≡◌, ◌∙◌, ap, List, ◌++◌, inl, inr, In, In-append}
use tinycloud_node.Common.Classes.{Str, List_eq, Nat_eq}
use tinycloud_node.Common.Maps.{get, put}
use tinycloud_node.Core.PolicyAuthority.Platform.{Platform}
use tinycloud_node.Core.PolicyAuthority.Artifacts.{PolicyDelegation}
use tinycloud_node.Core.PolicyAuthority.Records.{VerifiedEdge, ChallengeState, AuthorityStatus}
use tinycloud_node.Core.PolicyAuthority.Store.{
  MemoryState, default_store, insert_verified_authority, insert_challenge, set_status,
  fail_next_transaction,
}
use tinycloud_node.Core.PolicyAuthority.Kernel.{Issuance, issue_root, persist_descendant}
use tinycloud_node.Core.PolicyAuthority.Kernel.Edges.{
  EdgeSound, Extends, Extends-EdgeSound, IsVerified, Addressed, put-kept, put-Addressed,
}

module _ (platform : Platform) (node : Str) where
  open platform use {json}
  open json use {Value}

  module _ (artifact_of : Str → PolicyDelegation Value) where
    -- The artifacts that an issuance is given have passed the verifier.
    abbrev pub IsVerifiedIssuance : Issuance Value → Type 0
    IsVerifiedIssuance i =
        IsVerified platform artifact_of i.policy_authority
        × IsVerified platform artifact_of i.policy_enforcement
        × IsVerified platform artifact_of i.root

    -- One call of an operation, whether it succeeds or not.
    pub data Step : MemoryState Value → MemoryState Value → Type 0 where
      insert :
          (s : MemoryState Value) (d : PolicyDelegation Value) (status : AuthorityStatus)
          → IsVerified platform artifact_of d
          → Step s (insert_verified_authority d status s).1
      challenged : (s : MemoryState Value) (c : ChallengeState) → Step s (insert_challenge c s).1
      updated :
          (s : MemoryState Value) (cid : Str) (status : AuthorityStatus)
          → Step s (set_status cid status s).1
      failing : (s : MemoryState Value) → Step s (fail_next_transaction s)
      issued :
          (s : MemoryState Value) (i : Issuance Value)
          → IsVerifiedIssuance i
          → Step s (issue_root platform node i s).1
      persisted :
          (s : MemoryState Value) (d : PolicyDelegation Value) (now : ℕ)
          → IsVerified platform artifact_of d
          → Step s (persist_descendant platform node d now s).1

    -- The states that calls lead to from a given one.
    pub data Steps (s : MemoryState Value) : MemoryState Value → Type 0 where
      none_yet : Steps s s
      then_step : {t u : MemoryState Value} → Steps s t → Step t u → Steps s u

    abbrev pub Reachable : MemoryState Value → Type 0
    Reachable s = Steps default_store s

    -- Artifacts stand under their CIDs, and every edge is sound.
    pub record Invariant (s : MemoryState Value) : Type 0 where
      pub addressed : Addressed platform artifact_of s.artifacts
      pub sound : (edge : VerifiedEdge) → In edge s.edges → EdgeSound platform s edge

    -- A step that leaves artifacts and edges alone.
    pub kept-Invariant :
        (s t : MemoryState Value)
        → s.artifacts ≡ t.artifacts
        → s.edges ≡ t.edges
        → Invariant s
        → Invariant t
    kept-Invariant s t e f inv = record {
      addressed = rw (← e) inv.addressed;
      sound = λ edge m.
          Extends-EdgeSound platform s t edge (λ cid a h. rw (← e) h) (inv.sound edge (rw f m));
    }

    -- A step that stores a verified artifact, with edges that are sound afterwards.
    pub stored-Invariant :
        (s t : MemoryState Value) (d : PolicyDelegation Value) (added : List VerifiedEdge)
        → t.artifacts ≡ put d.delegation_cid d s.artifacts
        → t.edges ≡ s.edges ++ added
        → IsVerified platform artifact_of d
        → (Extends platform s t → (edge : VerifiedEdge) → In edge added → EdgeSound platform t edge)
        → Invariant s
        → Invariant t
    stored-Invariant s t d added e f verified new inv =
        let kept : Extends platform s t = λ cid a h.
          ap (get cid) e
          ∙ put-kept platform artifact_of d s.artifacts inv.addressed verified cid a h in
        record {
          addressed =
              rw e (put-Addressed platform artifact_of d s.artifacts inv.addressed verified);
          sound = λ edge m. elim (In-append edge s.edges added (rw (← f) m)) [
            | inl old ↦ Extends-EdgeSound platform s t edge kept (inv.sound edge old)
            | inr fresh ↦ new kept edge fresh
          ];
        }
