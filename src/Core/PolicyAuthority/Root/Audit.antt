-- ===== src/Core/PolicyAuthority/Root/Audit.antt =====
-- tinycloud-core/src/policy_authority/mod.rs: `validate_root`, with the audit that it builds.
use tinycloud_node.Common.{[], Result, ok, ◌>>=◌, ◌>>◌, require}
use tinycloud_node.Common.Classes.{Str, codes, List_eq, Nat_eq}
use tinycloud_node.Core.PolicyAuthority.Errors
use tinycloud_node.Core.PolicyAuthority.Errors.{AuthorityError}
use tinycloud_node.Core.PolicyAuthority.Platform.{Platform}
use tinycloud_node.Core.PolicyAuthority.Artifacts.{PolicyDelegation}
use tinycloud_node.Core.PolicyAuthority.Shape.{fact, require_fact, validate_wire_shape}
use tinycloud_node.Core.PolicyAuthority.Records.{
  VerifiedAttestedEnforcerBinding, VerifiedPolicyState, TrustedPolicyDecision, ChallengeState,
  IssuanceBindings, IssuanceAudit, recompute_digest_hex,
}
use tinycloud_node.Core.PolicyAuthority.Root.{
  valid_prefixed_base32, validate_challenge, validate_root_status, validate_root_proofs,
  validate_root_depth, validate_root_parties, validate_root_facts, validate_root_binding,
}
use tinycloud_node.Core.PolicyAuthority.Root.Limits.{
  validate_root_capabilities, validate_root_decision, validate_root_times,
}

module _ (platform : Platform) where
  open platform use {json}
  open json use {Value}

  -- The audit before its own digest is set.
  unfoldable pub draft_audit :
      PolicyDelegation Value
      → PolicyDelegation Value
      → ChallengeState
      → PolicyDelegation Value
      → TrustedPolicyDecision
      → IssuanceBindings
      → Str
      → Result AuthorityError IssuanceAudit
  draft_audit policy enforcement challenge root decision bindings running_node_did = do
    issuance_id ← fact root (codes "issuanceId")
    require (valid_prefixed_base32 issuance_id (codes "peiss_") 26) Errors.schema_invalid
    owner ← fact policy (codes "ownerDid")
    policy_id ← fact policy (codes "policyId")
    digest ← fact policy (codes "policyDigestHex")
    audience ← fact enforcement (codes "nodeAudience")
    hash ← fact root (codes "capabilityHashHex")
    ok (record {
      schema = codes "xyz.tinycloud.policy/issuance-audit/v1";
      issuance_id = issuance_id;
      owner_did = owner;
      policy_id = policy_id;
      policy_digest_hex = digest;
      policy_delegation_cid = policy.delegation_cid;
      enforcement_delegation_cid = enforcement.delegation_cid;
      enforcer_did = running_node_did;
      node_audience = audience;
      claimant_did = bindings.claimant_did;
      capability_hash_hex = hash;
      challenge_id = challenge.challenge_id;
      challenge_nonce_hash_hex = challenge.nonce_hash_hex;
      claim_invocation_digest_hex = bindings.claim_invocation_digest_hex;
      vp_digest_hex = bindings.vp_digest_hex;
      decision_context_digest_hex = decision.decision_context_digest_hex;
      decision = codes "allow";
      issued_at = root.not_before;
      expires_at = root.expires_at;
      audit_digest_hex = [];
      session_delegation_cid = root.delegation_cid;
    })

  unfoldable pub validate_root_audit :
      PolicyDelegation Value
      → PolicyDelegation Value
      → ChallengeState
      → PolicyDelegation Value
      → TrustedPolicyDecision
      → IssuanceBindings
      → Str
      → Result AuthorityError IssuanceAudit
  unfolding draft_audit
  validate_root_audit policy enforcement challenge root decision bindings running_node_did = do
    draft ← draft_audit policy enforcement challenge root decision bindings running_node_did
    let audit : IssuanceAudit = record draft {
      audit_digest_hex = recompute_digest_hex platform draft;
    }
    require_fact root (codes "issuanceAuditDigestHex") audit.audit_digest_hex
        Errors.audit_digest_mismatch
    ok audit

  -- The checks up to the capabilities.
  unfoldable pub validate_root_claims :
      PolicyDelegation Value
      → PolicyDelegation Value
      → VerifiedPolicyState
      → ChallengeState
      → PolicyDelegation Value
      → VerifiedAttestedEnforcerBinding
      → TrustedPolicyDecision
      → IssuanceBindings
      → Str
      → Result AuthorityError (Unit {0})
  validate_root_claims policy enforcement policy_state challenge root binding decision bindings
        running_node_did =
      do
        validate_wire_shape platform root
        validate_root_status policy_state bindings
        validate_challenge challenge policy enforcement bindings running_node_did
        validate_root_proofs policy enforcement root
        validate_root_depth enforcement root
        validate_root_parties enforcement root bindings running_node_did
        validate_root_facts policy enforcement root binding decision bindings
        validate_root_capabilities platform policy enforcement root bindings

  unfoldable pub validate_root :
      PolicyDelegation Value
      → PolicyDelegation Value
      → VerifiedPolicyState
      → ChallengeState
      → PolicyDelegation Value
      → VerifiedAttestedEnforcerBinding
      → TrustedPolicyDecision
      → IssuanceBindings
      → Str
      → Result AuthorityError IssuanceAudit
  unfolding validate_root_claims validate_root_audit
  validate_root policy enforcement policy_state challenge root binding decision bindings
        running_node_did =
      do
        validate_root_claims policy enforcement policy_state challenge root binding decision
            bindings running_node_did
        validate_root_binding enforcement binding bindings running_node_did
        validate_root_decision platform policy enforcement decision bindings running_node_did
        validate_root_times platform policy enforcement policy_state challenge root decision
            bindings
        validate_root_audit policy enforcement challenge root decision bindings running_node_did
