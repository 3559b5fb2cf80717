-- ===== src/Core/PolicyAuthority/Shape.antt =====
-- tinycloud-core/src/policy_authority/mod.rs: the wire shape of a delegation, its instants, its facts
-- and its redelegation depth.
use tinycloud_node.Common.{
  ℕ, List, [], ◌∷◌, ◌++◌, Bool, true, ◌&&◌, ◌||◌, not, map, contains, all, is_empty, nat_eq, leb,
  length, str_len, ends_with_byte, starts_with, Result, ok, ◌>>=◌, ◌>>◌, require, ok_or,
}
use tinycloud_node.Common.Classes.{◌==◌, Str, codes, List_eq, Nat_eq}
use tinycloud_node.Common.Decimal.{parse_u64}
use tinycloud_node.Core.Json.{get}
use tinycloud_node.Core.PolicyAuthority.Errors
use tinycloud_node.Core.PolicyAuthority.Errors.{AuthorityError}
use tinycloud_node.Core.PolicyAuthority.Platform.{Platform}
use tinycloud_node.Core.PolicyAuthority.Artifacts.{
  DelegationRole, DelegationMode, PolicyDelegation, policy_authority, policy_enforcement,
  policy_session_root, policy_session_descendant, policy_source, conditional_mint, attenuable,
  terminal, mode_eq, policy_prefix, authority_facts, enforcement_facts, session_facts, eip191_suite,
  ed25519_suite,
}
use tinycloud_node.Core.PolicyAuthority.Capabilities.{
  canonical_capabilities, requested_capabilities_hash_hex,
}

-- `format!("{POLICY_PREFIX}{name}")`.
abbrev pub prefixed : Str → Str
prefixed name = policy_prefix ++ name

-- The mode, the number of proofs, the facts and the signature suite that a role requires.
unfoldable pub mode_ok : DelegationRole → DelegationMode → Bool
unfolding mode_eq
mode_ok policy_authority mode = mode_eq mode policy_source
mode_ok policy_enforcement mode = mode_eq mode conditional_mint
mode_ok policy_session_root mode = mode_eq mode attenuable || mode_eq mode terminal
mode_ok policy_session_descendant mode = mode_eq mode attenuable || mode_eq mode terminal

unfoldable pub proof_count : DelegationRole → ℕ
proof_count policy_authority = 0
proof_count policy_enforcement = 0
proof_count policy_session_root = 2
proof_count policy_session_descendant = 1

unfoldable pub fact_names : DelegationRole → List Str
fact_names policy_authority = authority_facts
fact_names policy_enforcement = enforcement_facts
fact_names policy_session_root = session_facts
fact_names policy_session_descendant =
    session_facts ++ codes "rootSessionDelegationCid" ∷ codes "immediateParentDelegationCid" ∷ []

unfoldable pub signature_suite : DelegationRole → Str
signature_suite policy_authority = eip191_suite
signature_suite policy_enforcement = eip191_suite
signature_suite policy_session_root = ed25519_suite
signature_suite policy_session_descendant = ed25519_suite

-- The hash set of a list has as many elements as the list.
unfoldable pub all_unique : List Str → Bool
all_unique [] = true
all_unique (x ∷ xs) = not (contains xs x) && all_unique xs

-- `==` of two hash sets.
unfoldable pub same_set : List Str → List Str → Bool
same_set xs ys = all (contains ys) xs && all (contains xs) ys

module _ {V : Type 0} where
  unfoldable pub fact : PolicyDelegation V → Str → Result AuthorityError Str
  fact self name = ok_or (get (prefixed name) self.facts) Errors.facts_mismatch

  unfoldable pub depth : PolicyDelegation V → Result AuthorityError ℕ
  unfolding fact
  depth self = do
    value ← fact self (codes "remainingRedelegationDepth")
    n ← ok_or (parse_u64 value) Errors.session_redelegation_invalid
    require (leb n 8) Errors.session_redelegation_invalid
    ok n

  unfoldable pub decimal_fact : PolicyDelegation V → Str → Result AuthorityError ℕ
  unfolding fact
  decimal_fact delegation name = do
    value ← fact delegation name
    require (value == codes "0" || not (starts_with value (codes "0"))) Errors.facts_mismatch
    ok_or (parse_u64 value) Errors.facts_mismatch

  -- `if a != b.fact(name)? { return Err(e) }`.
  unfoldable pub require_fact :
      PolicyDelegation V → Str → Str → AuthorityError → Result AuthorityError (Unit {0})
  unfolding fact
  require_fact delegation name expected reason = do
    value ← fact delegation name
    require (value == expected) reason

  -- `if a.fact(name)? != b.fact(name)? { return Err(e) }`.
  unfoldable pub require_same_fact :
      PolicyDelegation V
      → PolicyDelegation V
      → Str
      → AuthorityError
      → Result AuthorityError (Unit {0})
  unfolding fact
  require_same_fact a b name reason = do
    left ← fact a name
    right ← fact b name
    require (left == right) reason

module _ (platform : Platform) where
  open platform use {json, parse_rfc3339}
  open json use {Value}

  unfoldable pub canonical_time : Str → Result AuthorityError ℕ
  canonical_time value = do
    require (nat_eq (str_len value) 20 && ends_with_byte b'Z' value) Errors.timestamp_noncanonical
    ok_or (parse_rfc3339 value) Errors.timestamp_noncanonical

  unfoldable pub not_before : PolicyDelegation Value → Result AuthorityError ℕ
  unfolding canonical_time
  not_before self = canonical_time self.not_before

  unfoldable pub expires_at : PolicyDelegation Value → Result AuthorityError ℕ
  unfolding canonical_time
  expires_at self = canonical_time self.expires_at

  unfoldable pub capability_hash : PolicyDelegation Value → Result AuthorityError Str
  capability_hash self = do
    caps ← canonical_capabilities platform self.capabilities
    ok (requested_capabilities_hash_hex platform caps)

  -- The checks behind those that do not depend on the role.
  unfoldable pub validate_role_shape : PolicyDelegation Value → Result AuthorityError (Unit {0})
  unfolding mode_ok proof_count fact_names signature_suite same_set
  validate_role_shape self = do
    require (mode_ok self.role self.delegation_mode) Errors.role_mode_mismatch
    require (self.signature.suite == signature_suite self.role) Errors.role_mode_mismatch
    require (nat_eq (length self.proof_cids) (proof_count self.role)) Errors.proof_set_unmatched
    require (same_set (map (λ f. f.0) self.facts) (map prefixed (fact_names self.role)))
        Errors.facts_mismatch

  unfoldable pub validate_wire_shape : PolicyDelegation Value → Result AuthorityError (Unit {0})
  unfolding validate_role_shape canonical_time all_unique
  validate_wire_shape self = do
    require
        (self.schema == codes "xyz.tinycloud.policy/enforcement-delegation/v1"
          && (not (is_empty self.delegation_cid)
              && (not (is_empty self.issuer_did)
                  && (not (is_empty self.audience_did) && not (is_empty self.capabilities)))))
        Errors.schema_invalid
    _ ← canonical_time self.not_before
    _ ← canonical_time self.expires_at
    _ ← canonical_capabilities platform self.capabilities
    require (all_unique self.proof_cids) Errors.proof_set_unmatched
    validate_role_shape self
