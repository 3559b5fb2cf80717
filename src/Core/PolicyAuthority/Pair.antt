-- ===== src/Core/PolicyAuthority/Pair.antt =====
-- tinycloud-core/src/policy_authority/mod.rs: the checks of a policy with its enforcement.
pub mod Accepted
use tinycloud_node.Common.{
  ℕ, ◌≡◌, List, [], ◌∷◌, ◌++◌, Option, none, some, Bool, true, false, ◌&&◌, ◌||◌, not, is_empty,
  nat_eq, ltb, leb, starts_with, Result, ok, err, ◌>>=◌, ◌>>◌, require,
}
use tinycloud_node.Common.Classes.{Eq, ◌==◌, Str, codes, List_eq, Nat_eq}
use tinycloud_node.Core.PolicyAuthority.Errors
use tinycloud_node.Core.PolicyAuthority.Errors.{AuthorityError}
use tinycloud_node.Core.PolicyAuthority.Platform.{Platform}
use tinycloud_node.Core.PolicyAuthority.Artifacts
use tinycloud_node.Core.PolicyAuthority.Artifacts.{
  PolicyDelegation, role_eq, mode_eq, capabilities_eq,
}
use tinycloud_node.Core.PolicyAuthority.Shape.{
  fact, decimal_fact, require_fact, require_same_fact, capability_hash, validate_wire_shape,
}
use tinycloud_node.Core.PolicyAuthority.Records
use tinycloud_node.Core.PolicyAuthority.Records.{
  VerifiedPolicyState, PolicyGrantMode, grant_mode_text,
}

-- `policy_state.grant_mode == PolicyGrantMode::Terminal`.
unfoldable pub is_terminal : PolicyGrantMode → Bool
is_terminal Records.attenuable = false
is_terminal Records.terminal = true

module _ {V : Type 0} where
  unfoldable pub validate_pair_roles :
      PolicyDelegation V → PolicyDelegation V → Result AuthorityError (Unit {0})
  unfolding role_eq mode_eq
  validate_pair_roles policy enforcement =
      require
        (role_eq policy.role Artifacts.policy_authority
          && (mode_eq policy.delegation_mode Artifacts.policy_source
              && (is_empty policy.proof_cids
                  && (role_eq enforcement.role Artifacts.policy_enforcement
                      && (mode_eq enforcement.delegation_mode Artifacts.conditional_mint
                          && is_empty enforcement.proof_cids)))))
        Errors.role_mode_mismatch

  unfoldable pub validate_pair_owner :
      PolicyDelegation V → PolicyDelegation V → Result AuthorityError (Unit {0})
  validate_pair_owner policy enforcement = do
    require (policy.issuer_did == enforcement.issuer_did) Errors.owner_mismatch
    require_same_fact policy enforcement (codes "ownerDid") Errors.owner_mismatch
    require_fact policy (codes "ownerDid") policy.issuer_did Errors.owner_mismatch

  unfoldable pub validate_pair_policy :
      PolicyDelegation V → PolicyDelegation V → Result AuthorityError (Unit {0})
  validate_pair_policy policy enforcement = do
    policy_id ← fact policy (codes "policyId")
    require (starts_with policy_id (codes "pol_")) Errors.policy_mismatch
    require_fact enforcement (codes "nodeAudience") policy.audience_did Errors.policy_mismatch
    require_same_fact policy enforcement (codes "policyId") Errors.policy_mismatch
    require_same_fact policy enforcement (codes "policyDigestHex") Errors.policy_mismatch
    require_same_fact policy enforcement (codes "capabilityCeilingHashHex") Errors.policy_mismatch

  unfoldable pub validate_pair_state :
      PolicyDelegation V → VerifiedPolicyState → Result AuthorityError (Unit {0})
  validate_pair_state policy policy_state = do
    require_fact policy (codes "ownerDid") policy_state.owner_did Errors.policy_mismatch
    require_fact policy (codes "policyId") policy_state.policy_id Errors.policy_mismatch
    require_fact policy (codes "policyDigestHex") policy_state.policy_digest_hex
        Errors.policy_mismatch
    require_fact policy (codes "capabilityCeilingHashHex") policy_state.capability_ceiling_hash_hex
        Errors.policy_mismatch

  unfoldable pub validate_pair_enforcer :
      PolicyDelegation V → Str → Result AuthorityError (Unit {0})
  validate_pair_enforcer enforcement running_node_did = do
    require_fact enforcement (codes "enforcerDid") enforcement.audience_did Errors.wrong_enforcer
    require (enforcement.audience_did == running_node_did) Errors.wrong_enforcer

  unfoldable pub validate_pair_limits :
      PolicyDelegation V → VerifiedPolicyState → Result AuthorityError (Unit {0})
  unfolding is_terminal
  validate_pair_limits enforcement policy_state = do
    ttl ← decimal_fact enforcement (codes "maxSessionTtlSeconds")
    depth ← decimal_fact enforcement (codes "maxRedelegationDepth")
    require (leb 1 ttl && (leb ttl 300 && leb depth 8)) Errors.facts_mismatch
    require_fact enforcement (codes "auditProfile") (codes "vp-digest-v1") Errors.facts_mismatch
    require (leb ttl policy_state.max_ttl_seconds) Errors.policy_mismatch
    require_fact enforcement (codes "sessionMode") (grant_mode_text policy_state.grant_mode)
        Errors.policy_mismatch
    require (not (is_terminal policy_state.grant_mode) || nat_eq depth 0) Errors.policy_mismatch

module _ (platform : Platform) where
  open platform use {json}
  open json use {Value}

  unfoldable pub validate_pair_capabilities :
      PolicyDelegation Value → PolicyDelegation Value → Result AuthorityError (Unit {0})
  validate_pair_capabilities policy enforcement = do
    require (capabilities_eq json policy.capabilities enforcement.capabilities)
        Errors.capability_hash_mismatch
    hash ← capability_hash platform policy
    require_fact policy (codes "capabilityCeilingHashHex") hash Errors.capability_hash_mismatch

  unfoldable pub validate_authority_pair :
      PolicyDelegation Value
      → PolicyDelegation Value
      → VerifiedPolicyState
      → Str
      → Result AuthorityError (Unit {0})
  unfolding validate_pair_roles validate_pair_owner validate_pair_policy validate_pair_capabilities
      validate_pair_state validate_pair_enforcer validate_pair_limits
  validate_authority_pair policy enforcement policy_state running_node_did = do
    validate_wire_shape platform policy
    validate_wire_shape platform enforcement
    validate_pair_roles policy enforcement
    validate_pair_owner policy enforcement
    validate_pair_policy policy enforcement
    validate_pair_capabilities policy enforcement
    validate_pair_state policy policy_state
    validate_pair_enforcer enforcement running_node_did
    validate_pair_limits enforcement policy_state
