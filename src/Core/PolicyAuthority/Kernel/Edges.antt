-- ===== src/Core/PolicyAuthority/Kernel/Edges.antt =====
-- What the edges of the store stand for, and that the transactions keep it.
use tinycloud_node.Common.{ℕ, ◌+◌, ◌≡◌, ◌∙◌, sym, ap, List, some, inl, inr, Bool-cases, ok}
use tinycloud_node.Common.Classes.{◌==◌, Str, List_eq, Nat_eq, eq→≡}
use tinycloud_node.Common.Maps.{get, put, get-put_same, get-put_other, get-put_cases}
use tinycloud_node.Core.PolicyAuthority.Platform.{Platform}
use tinycloud_node.Core.PolicyAuthority.Artifacts
use tinycloud_node.Core.PolicyAuthority.Artifacts.{PolicyDelegation, mode_eq}
use tinycloud_node.Core.PolicyAuthority.Capabilities.Within.{Within}
use tinycloud_node.Core.PolicyAuthority.Shape.{depth}
use tinycloud_node.Core.PolicyAuthority.Records
use tinycloud_node.Core.PolicyAuthority.Records.{VerifiedEdge, EdgeKind, IssuanceAudit}
use tinycloud_node.Core.PolicyAuthority.Descendant.Accepted.{IsSession}
use tinycloud_node.Core.PolicyAuthority.Store.{MemoryState}

module _ (platform : Platform) where
  open platform use {json}
  open json use {Value}

  -- What an edge says of the artifact below and the one above it.
  abbrev pub EdgeFits : EdgeKind → ℕ → PolicyDelegation Value → PolicyDelegation Value → Type 0
  EdgeFits Records.authority position child parent =
      (child.role ≡ Artifacts.policy_session_root)
      × (position ≡ 0 → parent.role ≡ Artifacts.policy_authority)
  EdgeFits Records.immediate position child parent =
      (child.role ≡ Artifacts.policy_session_descendant)
      × IsSession parent.role
      × (n : ℕ) × (depth child ≡ ok n)
      × (depth parent ≡ ok (n + 1))

  -- Both ends of an edge are stored, and the capabilities of the child are within the parent's.
  pub record EdgeSound (s : MemoryState Value) (edge : VerifiedEdge) : Type 0 where
    pub child : PolicyDelegation Value
    pub child_stored : get edge.child_cid s.artifacts ≡ some child
    pub parent : PolicyDelegation Value
    pub parent_stored : get edge.parent_cid s.artifacts ≡ some parent
    pub within : Within platform child.capabilities parent.capabilities
    pub fits : EdgeFits edge.kind edge.position child parent

  -- No stored artifact is lost or changed.
  abbrev pub Extends : MemoryState Value → MemoryState Value → Type 0
  Extends s t =
      (cid : Str) (a : PolicyDelegation Value)
      → get cid s.artifacts ≡ some a
      → get cid t.artifacts ≡ some a

  pub Extends-EdgeSound :
      (s t : MemoryState Value) (edge : VerifiedEdge)
      → Extends s t
      → EdgeSound s edge
      → EdgeSound t edge
  Extends-EdgeSound s t edge e sound = record {
    child = sound.child;
    child_stored = e edge.child_cid sound.child sound.child_stored;
    parent = sound.parent;
    parent_stored = e edge.parent_cid sound.parent sound.parent_stored;
    within = sound.within;
    fits = sound.fits;
  }

  -- A CID stands for one artifact, that of its content.
  module _ (artifact_of : Str → PolicyDelegation Value) where
    abbrev pub IsVerified : PolicyDelegation Value → Type 0
    IsVerified d = artifact_of d.delegation_cid ≡ d

    -- An artifact is stored under the CID of its content.
    abbrev pub Addressed : List (Str × PolicyDelegation Value) → Type 0
    Addressed artifacts =
        (cid : Str) (a : PolicyDelegation Value) → get cid artifacts ≡ some a → artifact_of cid ≡ a

    pub put-kept :
        (d : PolicyDelegation Value) (artifacts : List (Str × PolicyDelegation Value))
        → Addressed artifacts
        → IsVerified d
        → (cid : Str) (a : PolicyDelegation Value) → get cid artifacts ≡ some a
        → get cid (put d.delegation_cid d artifacts) ≡ some a
    put-kept d artifacts addressed verified cid a h = elim (Bool-cases (d.delegation_cid == cid)) [
      | inl e ↦
          let same : d.delegation_cid ≡ cid = eq→≡ d.delegation_cid cid e in
          let q : d ≡ a = sym verified ∙ (ap artifact_of same ∙ addressed cid a h) in
          rw (← same) (get-put_same d.delegation_cid d artifacts ∙ ap some q)
      | inr e ↦ get-put_other d.delegation_cid cid d artifacts e ∙ h
    ]

    pub put-Addressed :
        (d : PolicyDelegation Value) (artifacts : List (Str × PolicyDelegation Value))
        → Addressed artifacts
        → IsVerified d
        → Addressed (put d.delegation_cid d artifacts)
    put-Addressed d artifacts addressed verified cid a h =
        elim (get-put_cases d.delegation_cid cid d a artifacts h) [
          | inl (same, q) ↦ ap artifact_of (sym same) ∙ (verified ∙ q)
          | inr (other, k) ↦ addressed cid a k
        ]
