-- ===== src/Core/PolicyAuthority/Errors.antt =====
-- The errors of tinycloud-core/src/policy_authority/mod.rs.
pub data AuthorityError : Type 0 where
  schema_invalid : AuthorityError
  canonicalization_mismatch : AuthorityError
  timestamp_noncanonical : AuthorityError
  capability_noncanonical : AuthorityError
  proof_set_unmatched : AuthorityError
  role_mode_mismatch : AuthorityError
  conditional_mint_not_parent : AuthorityError
  owner_mismatch : AuthorityError
  policy_mismatch : AuthorityError
  facts_mismatch : AuthorityError
  wrong_enforcer : AuthorityError
  wrong_audience : AuthorityError
  claimant_mismatch : AuthorityError
  capability_hash_mismatch : AuthorityError
  capability_broadened : AuthorityError
  decision_context_mismatch : AuthorityError
  audit_digest_mismatch : AuthorityError
  policy_decision_expired : AuthorityError
  attestation_binding_mismatch : AuthorityError
  attestation_expired : AuthorityError
  challenge_not_found : AuthorityError
  challenge_consumed : AuthorityError
  challenge_expired : AuthorityError
  session_time_invalid : AuthorityError
  session_redelegation_invalid : AuthorityError
  terminal_parent : AuthorityError
  descendant_parent_mismatch : AuthorityError
  descendant_authority_roots_mismatch : AuthorityError
  authority_state_unavailable : AuthorityError
  delegation_revoked : AuthorityError
  delegation_ancestor_revoked : AuthorityError
  ancestry_too_deep : AuthorityError
  transaction_failed : AuthorityError
