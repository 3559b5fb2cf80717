-- ===== src/Core/PolicyAuthority/Records.antt =====
-- tinycloud-core/src/policy_authority/mod.rs: the verified inputs of the kernel, and the records that
-- it keeps.
use tinycloud_node.Common.{
  ℕ, ◌-◌, List, [], ◌∷◌, ◌++◌, Option, Bool, ◌&&◌, is_none, ltb, leb, Result, ◌>>◌, require,
}
use tinycloud_node.Common.Classes.{◌==◌, Str, codes, List_eq, Nat_eq}
use tinycloud_node.Core.PolicyAuthority.Errors
use tinycloud_node.Core.PolicyAuthority.Errors.{AuthorityError}
use tinycloud_node.Core.PolicyAuthority.Platform.{Platform, seconds}
use tinycloud_node.Core.PolicyAuthority.Capabilities.{hex_encode}

pub record VerifiedAttestedEnforcerBinding : Type 0 where
  pub binding_digest_hex : Str
  pub enforcer_did : Str
  pub node_audience : Str
  pub expires_at : ℕ

pub data PolicyGrantMode : Type 0 where
  attenuable : PolicyGrantMode
  terminal : PolicyGrantMode

unfoldable pub grant_mode_text : PolicyGrantMode → Str
grant_mode_text attenuable = codes "attenuable"
grant_mode_text terminal = codes "terminal"

pub record VerifiedPolicyState : Type 0 where
  pub owner_did : Str
  pub policy_id : Str
  pub policy_digest_hex : Str
  pub capability_ceiling_hash_hex : Str
  pub grant_mode : PolicyGrantMode
  pub max_ttl_seconds : ℕ
  pub status_checked_at : ℕ
  pub expires_at : ℕ

pub record DecisionContext : Type 0 where
  pub owner_did : Str
  pub policy_id : Str
  pub policy_digest_hex : Str
  pub capability_ceiling_hash_hex : Str
  pub enforcer_did : Str
  pub node_audience : Str
  pub claimant_did : Str
  pub challenge_id : Str
  pub challenge_nonce_hash_hex : Str
  pub requested_capabilities_hash_hex : Str
  pub claim_invocation_digest_hex : Str
  pub vp_digest_hex : Str

-- The derived `==`.
unfoldable pub context_eq : DecisionContext → DecisionContext → Bool
context_eq a b =
    a.owner_did == b.owner_did
    && (a.policy_id == b.policy_id
        && (a.policy_digest_hex == b.policy_digest_hex
            && (a.capability_ceiling_hash_hex == b.capability_ceiling_hash_hex
                && (a.enforcer_did == b.enforcer_did
                    && (a.node_audience == b.node_audience
                        && (a.claimant_did == b.claimant_did
                            && (a.challenge_id == b.challenge_id
                                && (a.challenge_nonce_hash_hex == b.challenge_nonce_hash_hex
                                    && (a.requested_capabilities_hash_hex
                                          == b.requested_capabilities_hash_hex
                                        && (a.claim_invocation_digest_hex
                                              == b.claim_invocation_digest_hex
                                            && a.vp_digest_hex == b.vp_digest_hex))))))))))

pub record TrustedPolicyDecision : Type 0 where
  pub context : DecisionContext
  pub decision_context_digest_hex : Str
  pub evaluated_at : ℕ
  pub valid_until : ℕ

pub record ChallengeState : Type 0 where
  pub challenge_id : Str
  pub nonce_hash_hex : Str
  pub owner_did : Str
  pub policy_id : Str
  pub policy_digest_hex : Str
  pub policy_delegation_cid : Str
  pub enforcement_delegation_cid : Str
  pub enforcer_did : Str
  pub node_audience : Str
  pub claimant_did : Str
  pub requested_capabilities_hash_hex : Str
  pub issued_at : ℕ
  pub expires_at : ℕ
  pub consumed_at : Option ℕ

unfoldable pub validate_challenge_lifetime_for_read :
    ChallengeState → Result AuthorityError (Unit {0})
validate_challenge_lifetime_for_read challenge =
    require
      (ltb challenge.issued_at challenge.expires_at
        && leb (challenge.expires_at - challenge.issued_at) (seconds 300))
      Errors.challenge_expired

unfoldable pub validate_challenge_lifetime : ChallengeState → Result AuthorityError (Unit {0})
unfolding validate_challenge_lifetime_for_read
validate_challenge_lifetime challenge = do
  require (is_none challenge.consumed_at) Errors.challenge_expired
  validate_challenge_lifetime_for_read challenge

pub record IssuanceBindings : Type 0 where
  pub now : ℕ
  pub claim_issued_at : ℕ
  pub claim_expires_at : ℕ
  pub challenge_id : Str
  pub challenge_nonce_hash_hex : Str
  pub claimant_did : Str
  pub requested_capabilities_hash_hex : Str
  pub claim_invocation_digest_hex : Str
  pub vp_digest_hex : Str

pub record IssuanceAudit : Type 0 where
  pub schema : Str
  pub issuance_id : Str
  pub owner_did : Str
  pub policy_id : Str
  pub policy_digest_hex : Str
  pub policy_delegation_cid : Str
  pub enforcement_delegation_cid : Str
  pub enforcer_did : Str
  pub node_audience : Str
  pub claimant_did : Str
  pub capability_hash_hex : Str
  pub challenge_id : Str
  pub challenge_nonce_hash_hex : Str
  pub claim_invocation_digest_hex : Str
  pub vp_digest_hex : Str
  pub decision_context_digest_hex : Str
  pub decision : Str
  pub issued_at : Str
  pub expires_at : Str
  pub audit_digest_hex : Str
  pub session_delegation_cid : Str

pub data EdgeKind : Type 0 where
  authority : EdgeKind
  immediate : EdgeKind

pub record VerifiedEdge : Type 0 where
  pub child_cid : Str
  pub parent_cid : Str
  pub kind : EdgeKind
  pub position : ℕ

pub record AuthorityStatus : Type 0 where
  pub checked_at : ℕ
  pub fresh_until : ℕ
  pub sequence : ℕ
  pub revoked_at : Option ℕ

module _ (platform : Platform) where
  open platform use {json, text, object, canonicalize, sha256}
  open json use {Value}

  -- `sha256(domain || jcs(value))` in hexadecimal, of an object with text fields.
  unfoldable domain_digest_hex : List ℕ → List (Str × Value) → Str
  domain_digest_hex domain entries = hex_encode (sha256 (domain ++ canonicalize (object entries)))

  unfoldable pub digest_hex : DecisionContext → Str
  unfolding domain_digest_hex
  digest_hex c = domain_digest_hex (codes "xyz.tinycloud.policy/DecisionContext/v1" ++ 0 ∷ []) (
      (codes "ownerDid", text c.owner_did)
      ∷ (codes "policyId", text c.policy_id)
      ∷ (codes "policyDigestHex", text c.policy_digest_hex)
      ∷ (codes "capabilityCeilingHashHex", text c.capability_ceiling_hash_hex)
      ∷ (codes "enforcerDid", text c.enforcer_did)
      ∷ (codes "nodeAudience", text c.node_audience)
      ∷ (codes "claimantDid", text c.claimant_did)
      ∷ (codes "challengeId", text c.challenge_id)
      ∷ (codes "challengeNonceHashHex", text c.challenge_nonce_hash_hex)
      ∷ (codes "requestedCapabilitiesHashHex", text c.requested_capabilities_hash_hex)
      ∷ (codes "claimInvocationDigestHex", text c.claim_invocation_digest_hex)
      ∷ (codes "vpDigestHex", text c.vp_digest_hex)
      ∷ [])

  -- The fields but `auditDigestHex` and `sessionDelegationCid`.
  unfoldable pub recompute_digest_hex : IssuanceAudit → Str
  unfolding domain_digest_hex
  recompute_digest_hex a =
      domain_digest_hex (codes "xyz.tinycloud.policy/IssuanceAudit/v1" ++ 0 ∷ []) (
        (codes "schema", text a.schema)
        ∷ (codes "issuanceId", text a.issuance_id)
        ∷ (codes "ownerDid", text a.owner_did)
        ∷ (codes "policyId", text a.policy_id)
        ∷ (codes "policyDigestHex", text a.policy_digest_hex)
        ∷ (codes "policyDelegationCid", text a.policy_delegation_cid)
        ∷ (codes "enforcementDelegationCid", text a.enforcement_delegation_cid)
        ∷ (codes "enforcerDid", text a.enforcer_did)
        ∷ (codes "nodeAudience", text a.node_audience)
        ∷ (codes "claimantDid", text a.claimant_did)
        ∷ (codes "capabilityHashHex", text a.capability_hash_hex)
        ∷ (codes "challengeId", text a.challenge_id)
        ∷ (codes "challengeNonceHashHex", text a.challenge_nonce_hash_hex)
        ∷ (codes "claimInvocationDigestHex", text a.claim_invocation_digest_hex)
        ∷ (codes "vpDigestHex", text a.vp_digest_hex)
        ∷ (codes "decisionContextDigestHex", text a.decision_context_digest_hex)
        ∷ (codes "decision", text a.decision)
        ∷ (codes "issuedAt", text a.issued_at)
        ∷ (codes "expiresAt", text a.expires_at)
        ∷ [])
