-- ===== src/Core/PolicyAuthority/Kernel.antt =====
-- tinycloud-core/src/policy_authority/mod.rs: the kernel's transactions, which issue a session root
-- and persist a descendant.
pub mod Edges
pub mod Checked
pub mod Reach
pub mod Outcomes
pub mod Invariant
pub mod Sound
pub mod Chains
pub mod Challenges
use tinycloud_node.Common.{
  ℕ, zero, suc, ◌+◌, ◌≡◌, List, [], ◌∷◌, ◌++◌, Option, none, some, Bool, true, false, ◌&&◌, not,
  is_none, if◌then◌else◌, Result, ok, err, ◌>>=◌, ◌>>◌, require, ok_or,
}
use tinycloud_node.Common.Classes.{Eq, ◌==◌, Str, codes, List_eq, Nat_eq}
use tinycloud_node.Common.Maps.{get, put}
use tinycloud_node.Core.Json.{Json}
use tinycloud_node.Core.PolicyAuthority.Errors
use tinycloud_node.Core.PolicyAuthority.Errors.{AuthorityError}
use tinycloud_node.Core.PolicyAuthority.Platform.{Platform, seconds}
use tinycloud_node.Core.PolicyAuthority.Artifacts
use tinycloud_node.Core.PolicyAuthority.Artifacts.{
  PolicyDelegation, role_eq, mode_eq, delegation_eq, max_status_age_seconds,
}
use tinycloud_node.Core.PolicyAuthority.Shape.{fact}
use tinycloud_node.Core.PolicyAuthority.Records
use tinycloud_node.Core.PolicyAuthority.Records.{
  VerifiedAttestedEnforcerBinding, VerifiedPolicyState, TrustedPolicyDecision, ChallengeState,
  IssuanceBindings, IssuanceAudit, VerifiedEdge, AuthorityStatus,
}
use tinycloud_node.Core.PolicyAuthority.Pair.{validate_authority_pair}
use tinycloud_node.Core.PolicyAuthority.Root.Audit.{validate_root}
use tinycloud_node.Core.PolicyAuthority.Descendant.{validate_descendant}
use tinycloud_node.Core.PolicyAuthority.Store.{MemoryState}
use tinycloud_node.Core.PolicyAuthority.Live.{ensure_live, walk_memory_edges, levels}

-- `proof_cids[i]`, of a list that is known to be long enough.
abbrev pub proof_at : List Str → ℕ → Str
proof_at [] i = []
proof_at (p ∷ ps) zero = p
proof_at (p ∷ ps) (suc i) = proof_at ps i

-- The status of an artifact that has just been stored.
abbrev pub fresh_status : ℕ → AuthorityStatus
fresh_status now = record {
  checked_at = now;
  fresh_until = now + seconds max_status_age_seconds;
  sequence = 0;
  revoked_at = none;
}

-- `get_mut(id)…consumed_at = Some(now)`.
unfoldable pub consume : Str → ℕ → List (Str × ChallengeState) → List (Str × ChallengeState)
consume id now challenges = elim (get id challenges) [
  | none ↦ challenges
  | some c ↦ put id (record c { consumed_at = some now }) challenges
]

-- The arguments of `issue_root`.
pub record Issuance (V : Type 0) : Type 0 where
  pub policy_authority : PolicyDelegation V
  pub policy_enforcement : PolicyDelegation V
  pub policy_state : VerifiedPolicyState
  pub root : PolicyDelegation V
  pub binding : VerifiedAttestedEnforcerBinding
  pub decision : TrustedPolicyDecision
  pub bindings : IssuanceBindings

abbrev pub first : List Str → Option Str
first [] = none
first (p ∷ ps) = some p

module _ {V : Type 0} where
  -- The writes of `issue_root`.
  unfoldable pub commit_root : Issuance V → IssuanceAudit → MemoryState V → MemoryState V
  unfolding consume
  commit_root i audit s =
      let cid = i.root.delegation_cid in
      record s {
        artifacts = put cid i.root s.artifacts;
        statuses = put cid (fresh_status i.bindings.now) s.statuses;
        edges =
            s.edges
            ++ record {
              child_cid = cid;
              parent_cid = proof_at i.root.proof_cids 0;
              kind = Records.authority;
              position = 0;
            }
              ∷ record {
                child_cid = cid;
                parent_cid = proof_at i.root.proof_cids 1;
                kind = Records.authority;
                position = 1;
              }
              ∷ [];
        audits = put audit.issuance_id audit s.audits;
        challenges = consume i.bindings.challenge_id i.bindings.now s.challenges;
      }

  -- The writes of `persist_descendant`.
  unfoldable pub commit_descendant : PolicyDelegation V → ℕ → MemoryState V → MemoryState V
  commit_descendant descendant now s =
      let cid = descendant.delegation_cid in
      record s {
        artifacts = put cid descendant s.artifacts;
        statuses = put cid (fresh_status now) s.statuses;
        edges =
            s.edges
            ++ record {
              child_cid = cid;
              parent_cid = proof_at descendant.proof_cids 0;
              kind = Records.immediate;
              position = 0;
            }
              ∷ [];
      }

module _ (platform : Platform) (running_node_did : Str) where
  open platform use {json}
  open json use {Value}

  abbrev is_stored : Option (PolicyDelegation Value) → PolicyDelegation Value → Bool
  is_stored none a = false
  is_stored (some stored) a = delegation_eq json stored a

  -- The checks of `issue_root` before the challenge is looked up.
  unfoldable pub check_issue_authorities :
      Issuance Value → MemoryState Value → Result AuthorityError (Unit {0})
  check_issue_authorities i s = do
    validate_authority_pair platform i.policy_authority i.policy_enforcement i.policy_state
        running_node_did
    ensure_live platform s i.policy_authority.delegation_cid i.bindings.now false
    ensure_live platform s i.policy_enforcement.delegation_cid i.bindings.now false
    require
        (is_stored (get i.policy_authority.delegation_cid s.artifacts) i.policy_authority
          && is_stored (get i.policy_enforcement.delegation_cid s.artifacts) i.policy_enforcement)
        Errors.authority_state_unavailable

  -- All checks of `issue_root`.
  unfoldable pub check_issue_root :
      Issuance Value → MemoryState Value → Result AuthorityError IssuanceAudit
  unfolding check_issue_authorities
  check_issue_root i s = do
    check_issue_authorities i s
    challenge ← ok_or (get i.bindings.challenge_id s.challenges) Errors.challenge_not_found
    require (is_none challenge.consumed_at) Errors.challenge_consumed
    validate_root platform i.policy_authority i.policy_enforcement i.policy_state challenge i.root
        i.binding i.decision i.bindings running_node_did

  unfoldable pub issue_root :
      Issuance Value → MemoryState Value → Result AuthorityError (Unit {0}) × MemoryState Value
  unfolding check_issue_root commit_root
  issue_root i s = elim (check_issue_root i s) [
    | err e ↦ (err e, s)
    | ok audit ↦
        if s.fail_next_transaction
        then (err Errors.transaction_failed, record s { fail_next_transaction = false })
        else (ok tt, commit_root i audit s)
  ]

  -- The root of the session that a parent belongs to.
  unfoldable pub session_root_cid : PolicyDelegation Value → Result AuthorityError Str
  session_root_cid parent =
      if role_eq parent.role Artifacts.policy_session_root
      then ok parent.delegation_cid
      else fact parent (codes "rootSessionDelegationCid")

  -- The checks of `persist_descendant`.
  unfoldable pub check_descendant :
      PolicyDelegation Value → ℕ → MemoryState Value → Result AuthorityError (Unit {0})
  unfolding session_root_cid
  check_descendant descendant now s = do
    parent_cid ← ok_or (first descendant.proof_cids) Errors.descendant_parent_mismatch
    parent ← ok_or (get parent_cid s.artifacts) Errors.descendant_parent_mismatch
    require (not (mode_eq parent.delegation_mode Artifacts.conditional_mint))
        Errors.conditional_mint_not_parent
    root_cid ← session_root_cid parent
    root ← ok_or (get root_cid s.artifacts) Errors.descendant_authority_roots_mismatch
    validate_descendant platform descendant parent root
    walk_memory_edges platform s now levels parent.delegation_cid false []

  unfoldable pub persist_descendant :
      PolicyDelegation Value
      → ℕ
      → MemoryState Value
      → Result AuthorityError (Unit {0}) × MemoryState Value
  unfolding check_descendant commit_descendant
  persist_descendant descendant now s = elim (check_descendant descendant now s) [
    | err e ↦ (err e, s)
    | ok _ ↦
        if s.fail_next_transaction
        then (err Errors.transaction_failed, record s { fail_next_transaction = false })
        else (ok tt, commit_descendant descendant now s)
  ]
