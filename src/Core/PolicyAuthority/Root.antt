-- ===== src/Core/PolicyAuthority/Root.antt =====
-- tinycloud-core/src/policy_authority/mod.rs: the checks of a challenge and of a session root.
pub mod Limits
pub mod Audit
pub mod Accepted
use tinycloud_node.Common.{
  ℕ, ◌+◌, ◌-◌, ◌≡◌, List, [], ◌∷◌, ◌++◌, Option, none, some, Bool, true, false, ◌&&◌, ◌||◌, not,
  all, is_some, nat_eq, ltb, leb, str_len, strip_prefix, if◌then◌else◌, Result, ok, err, ◌>>=◌,
  ◌>>◌, require, as_bytes,
}
use tinycloud_node.Common.Classes.{Eq, ◌==◌, Str, codes, List_eq, Nat_eq}
use tinycloud_node.Core.PolicyAuthority.Errors
use tinycloud_node.Core.PolicyAuthority.Errors.{AuthorityError}
use tinycloud_node.Core.PolicyAuthority.Platform.{Platform, seconds}
use tinycloud_node.Core.PolicyAuthority.Artifacts
use tinycloud_node.Core.PolicyAuthority.Artifacts.{
  PolicyDelegation, DelegationMode, role_eq, mode_eq, max_status_age_seconds,
}
use tinycloud_node.Core.PolicyAuthority.Capabilities.{capability_set_contained}
use tinycloud_node.Core.PolicyAuthority.Shape.{
  fact, depth, decimal_fact, require_fact, require_same_fact, not_before, expires_at,
  capability_hash, validate_wire_shape,
}
use tinycloud_node.Core.PolicyAuthority.Records.{
  VerifiedAttestedEnforcerBinding, VerifiedPolicyState, DecisionContext, context_eq, digest_hex,
  TrustedPolicyDecision, ChallengeState, validate_challenge_lifetime_for_read, IssuanceBindings,
  IssuanceAudit, recompute_digest_hex,
}

-- The suffix is a base 32 text of the given length.
unfoldable pub valid_prefixed_base32 : Str → Str → ℕ → Bool
valid_prefixed_base32 value prefix suffix_len = elim (strip_prefix prefix value) [
  | none ↦ false
  | some suffix ↦
      nat_eq (str_len suffix) suffix_len
      && all (λ b. (leb b'a' b && leb b b'z') || (leb b'2' b && leb b b'7')) (as_bytes suffix)
]

-- The mode of a session with that many redelegations left.
unfoldable pub session_mode : ℕ → DelegationMode
session_mode n = if ltb 0 n then Artifacts.attenuable else Artifacts.terminal

unfoldable pub minimum : ℕ → List ℕ → ℕ
minimum x [] = x
minimum x (y ∷ ys) = minimum (if leb x y then x else y) ys

-- The status of the policy is fresh.
unfoldable pub validate_root_status :
    VerifiedPolicyState → IssuanceBindings → Result AuthorityError (Unit {0})
validate_root_status policy_state bindings =
    require
      (leb policy_state.status_checked_at bindings.now
        && (leb (bindings.now - policy_state.status_checked_at) (seconds max_status_age_seconds)
            && ltb bindings.now policy_state.expires_at))
      Errors.authority_state_unavailable

module _ {V : Type 0} where
  unfoldable pub validate_challenge :
      ChallengeState
      → PolicyDelegation V
      → PolicyDelegation V
      → IssuanceBindings
      → Str
      → Result AuthorityError (Unit {0})
  unfolding validate_challenge_lifetime_for_read
  validate_challenge challenge policy enforcement bindings running_node_did = do
    validate_challenge_lifetime_for_read challenge
    require
        (challenge.challenge_id == bindings.challenge_id
          && challenge.nonce_hash_hex == bindings.challenge_nonce_hash_hex)
        Errors.challenge_not_found
    require_fact policy (codes "ownerDid") challenge.owner_did Errors.challenge_not_found
    require_fact policy (codes "policyId") challenge.policy_id Errors.challenge_not_found
    require_fact policy (codes "policyDigestHex") challenge.policy_digest_hex
        Errors.challenge_not_found
    require
        (challenge.policy_delegation_cid == policy.delegation_cid
          && (challenge.enforcement_delegation_cid == enforcement.delegation_cid
              && challenge.enforcer_did == running_node_did))
        Errors.challenge_not_found
    require_fact enforcement (codes "nodeAudience") challenge.node_audience
        Errors.challenge_not_found
    require
        (challenge.claimant_did == bindings.claimant_did
          && challenge.requested_capabilities_hash_hex == bindings.requested_capabilities_hash_hex)
        Errors.challenge_not_found
    require (leb challenge.issued_at bindings.now && ltb bindings.now challenge.expires_at)
        Errors.challenge_expired

  -- The role and the proofs.
  unfoldable pub validate_root_proofs :
      PolicyDelegation V
      → PolicyDelegation V
      → PolicyDelegation V
      → Result AuthorityError (Unit {0})
  unfolding role_eq
  validate_root_proofs policy enforcement root =
      require
        (role_eq root.role Artifacts.policy_session_root
          && root.proof_cids == policy.delegation_cid ∷ enforcement.delegation_cid ∷ [])
        Errors.proof_set_unmatched

  unfoldable pub validate_root_depth :
      PolicyDelegation V → PolicyDelegation V → Result AuthorityError (Unit {0})
  unfolding depth decimal_fact session_mode mode_eq
  validate_root_depth enforcement root = do
    n ← depth root
    require (mode_eq root.delegation_mode (session_mode n)) Errors.session_redelegation_invalid
    most ← decimal_fact enforcement (codes "maxRedelegationDepth")
    require (nat_eq n most) Errors.session_redelegation_invalid

  -- The enforcer, the audience and the claimant.
  unfoldable pub validate_root_parties :
      PolicyDelegation V
      → PolicyDelegation V
      → IssuanceBindings
      → Str
      → Result AuthorityError (Unit {0})
  validate_root_parties enforcement root bindings running_node_did = do
    require (root.issuer_did == enforcement.audience_did) Errors.wrong_enforcer
    require_fact root (codes "enforcerDid") enforcement.audience_did Errors.wrong_enforcer
    require (root.issuer_did == running_node_did) Errors.wrong_enforcer
    require_same_fact root enforcement (codes "nodeAudience") Errors.wrong_audience
    require (root.audience_did == bindings.claimant_did) Errors.claimant_mismatch
    require_fact root (codes "rootClaimantDid") bindings.claimant_did Errors.claimant_mismatch
    require_fact root (codes "sessionSubjectDid") bindings.claimant_did Errors.claimant_mismatch

  -- The loop over the facts that are bound.
  unfoldable pub require_facts :
      PolicyDelegation V → List (Str × Str) → Result AuthorityError (Unit {0})
  require_facts root [] = ok tt
  require_facts root ((name, expected) ∷ rest) = do
    require_fact root name expected Errors.facts_mismatch
    require_facts root rest

  unfoldable pub validate_root_facts :
      PolicyDelegation V
      → PolicyDelegation V
      → PolicyDelegation V
      → VerifiedAttestedEnforcerBinding
      → TrustedPolicyDecision
      → IssuanceBindings
      → Result AuthorityError (Unit {0})
  unfolding require_facts
  validate_root_facts policy enforcement root binding decision bindings = do
    owner ← fact policy (codes "ownerDid")
    policy_id ← fact policy (codes "policyId")
    digest ← fact policy (codes "policyDigestHex")
    ceiling ← fact policy (codes "capabilityCeilingHashHex")
    require_facts root (
        (codes "ownerDid", owner)
        ∷ (codes "policyId", policy_id)
        ∷ (codes "policyDigestHex", digest)
        ∷ (codes "capabilityCeilingHashHex", ceiling)
        ∷ (codes "policyDelegationCid", policy.delegation_cid)
        ∷ (codes "enforcementDelegationCid", enforcement.delegation_cid)
        ∷ (codes "attestationBindingDigestHex", binding.binding_digest_hex)
        ∷ (codes "claimInvocationDigestHex", bindings.claim_invocation_digest_hex)
        ∷ (codes "vpDigestHex", bindings.vp_digest_hex)
        ∷ (codes "decisionContextDigestHex", decision.decision_context_digest_hex)
        ∷ [])

  unfoldable pub validate_root_binding :
      PolicyDelegation V
      → VerifiedAttestedEnforcerBinding
      → IssuanceBindings
      → Str
      → Result AuthorityError (Unit {0})
  validate_root_binding enforcement binding bindings running_node_did = do
    require (binding.enforcer_did == enforcement.audience_did) Errors.attestation_binding_mismatch
    require_fact enforcement (codes "nodeAudience") binding.node_audience
        Errors.attestation_binding_mismatch
    require (binding.enforcer_did == running_node_did) Errors.attestation_binding_mismatch
    require_fact enforcement (codes "attestationBindingDigestHex") binding.binding_digest_hex
        Errors.attestation_binding_mismatch
    require (ltb bindings.now binding.expires_at) Errors.attestation_expired
