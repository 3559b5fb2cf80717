-- ===== src/Core/PolicyAuthority/Root/Limits.antt =====
-- tinycloud-core/src/policy_authority/mod.rs: the capabilities, the decision and the times of a
-- session root.
use tinycloud_node.Common.{ℕ, ◌+◌, [], ◌∷◌, ◌&&◌, ltb, leb, Result, ok, ◌>>=◌, ◌>>◌, require}
use tinycloud_node.Common.Classes.{◌==◌, Str, codes, List_eq, Nat_eq}
use tinycloud_node.Core.PolicyAuthority.Errors
use tinycloud_node.Core.PolicyAuthority.Errors.{AuthorityError}
use tinycloud_node.Core.PolicyAuthority.Platform.{Platform, seconds}
use tinycloud_node.Core.PolicyAuthority.Artifacts.{PolicyDelegation}
use tinycloud_node.Core.PolicyAuthority.Capabilities.{capability_set_contained}
use tinycloud_node.Core.PolicyAuthority.Shape.{
  fact, decimal_fact, require_fact, not_before, expires_at, capability_hash,
}
use tinycloud_node.Core.PolicyAuthority.Records.{
  VerifiedPolicyState, DecisionContext, context_eq, digest_hex, TrustedPolicyDecision,
  ChallengeState, IssuanceBindings,
}
use tinycloud_node.Core.PolicyAuthority.Root.{minimum}

module _ (platform : Platform) where
  open platform use {json}
  open json use {Value}

  -- The hash of the capabilities, and that they are within those of the policy and the enforcement.
  unfoldable pub validate_root_capabilities :
      PolicyDelegation Value
      → PolicyDelegation Value
      → PolicyDelegation Value
      → IssuanceBindings
      → Result AuthorityError (Unit {0})
  validate_root_capabilities policy enforcement root bindings = do
    hash ← capability_hash platform root
    require_fact root (codes "capabilityHashHex") hash Errors.capability_broadened
    require (hash == bindings.requested_capabilities_hash_hex) Errors.capability_broadened
    in_policy ← capability_set_contained platform root.capabilities policy.capabilities
    require in_policy Errors.capability_broadened
    in_enforcement ← capability_set_contained platform root.capabilities enforcement.capabilities
    require in_enforcement Errors.capability_broadened

  unfoldable pub expected_context :
      PolicyDelegation Value
      → PolicyDelegation Value
      → IssuanceBindings
      → Str
      → Result AuthorityError DecisionContext
  expected_context policy enforcement bindings running_node_did = do
    owner ← fact policy (codes "ownerDid")
    policy_id ← fact policy (codes "policyId")
    digest ← fact policy (codes "policyDigestHex")
    ceiling ← fact policy (codes "capabilityCeilingHashHex")
    audience ← fact enforcement (codes "nodeAudience")
    ok (record {
      owner_did = owner;
      policy_id = policy_id;
      policy_digest_hex = digest;
      capability_ceiling_hash_hex = ceiling;
      enforcer_did = running_node_did;
      node_audience = audience;
      claimant_did = bindings.claimant_did;
      challenge_id = bindings.challenge_id;
      challenge_nonce_hash_hex = bindings.challenge_nonce_hash_hex;
      requested_capabilities_hash_hex = bindings.requested_capabilities_hash_hex;
      claim_invocation_digest_hex = bindings.claim_invocation_digest_hex;
      vp_digest_hex = bindings.vp_digest_hex;
    })

  unfoldable pub validate_root_decision :
      PolicyDelegation Value
      → PolicyDelegation Value
      → TrustedPolicyDecision
      → IssuanceBindings
      → Str
      → Result AuthorityError (Unit {0})
  unfolding expected_context context_eq
  validate_root_decision policy enforcement decision bindings running_node_did = do
    context ← expected_context policy enforcement bindings running_node_did
    require
        (context_eq decision.context context
          && decision.decision_context_digest_hex == digest_hex platform context)
        Errors.decision_context_mismatch
    require (leb decision.evaluated_at bindings.now && ltb bindings.now decision.valid_until)
        Errors.policy_decision_expired

  -- The earliest of the bounds on the expiry.
  unfoldable pub maximum_expiry :
      PolicyDelegation Value
      → PolicyDelegation Value
      → VerifiedPolicyState
      → ChallengeState
      → TrustedPolicyDecision
      → IssuanceBindings
      → ℕ
      → Result AuthorityError ℕ
  unfolding minimum
  maximum_expiry policy enforcement policy_state challenge decision bindings from = do
    ttl ← decimal_fact enforcement (codes "maxSessionTtlSeconds")
    policy_end ← expires_at platform policy
    enforcement_end ← expires_at platform enforcement
    ok (
        minimum policy_end (
          enforcement_end
          ∷ policy_state.expires_at
          ∷ challenge.expires_at
          ∷ bindings.claim_expires_at
          ∷ decision.valid_until
          ∷ (from + seconds (minimum ttl (policy_state.max_ttl_seconds ∷ [])))
          ∷ []))

  unfoldable pub validate_root_times :
      PolicyDelegation Value
      → PolicyDelegation Value
      → VerifiedPolicyState
      → ChallengeState
      → PolicyDelegation Value
      → TrustedPolicyDecision
      → IssuanceBindings
      → Result AuthorityError (Unit {0})
  unfolding maximum_expiry
  validate_root_times policy enforcement policy_state challenge root decision bindings = do
    from ← not_before platform root
    until ← expires_at platform root
    last ← maximum_expiry policy enforcement policy_state challenge decision bindings from
    policy_start ← not_before platform policy
    require (leb policy_start from) Errors.session_time_invalid
    enforcement_start ← not_before platform enforcement
    require
        (leb enforcement_start from
          && (leb bindings.now from
              && (leb bindings.claim_issued_at from
                  && (leb decision.evaluated_at from && (leb until last && ltb from until)))))
        Errors.session_time_invalid
