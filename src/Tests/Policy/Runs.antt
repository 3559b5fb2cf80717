-- ===== src/Tests/Policy/Runs.antt =====
-- The theorems of the policy kernel at a run that issues a session root and a descendant.
use tinycloud_node.Core.Policy.Registry as PolicyRegistry
use tinycloud_node.Common.{
  ◌≡◌, refl, none, some, inl, inr, ok, if◌then◌else◌, In, contains_byte, starts_with,
  ends_with_byte, split_char, str_len, as_bytes, utf8, strip_prefix,
}
use tinycloud_node.Common.Sort.{sort, dedup, str_le, insert_sorted}
use tinycloud_node.Common.Decimal.{parse_u64, parse_digits, is_digit}
use tinycloud_node.Common.Maps.{get, put}
use tinycloud_node.Common.Classes.{◌==◌, Str, codes, List_eq, Nat_eq, list_eq, option_eq}
use tinycloud_node.Core.Policy.Paths.{normalize_path, percent_decode_unreserved, escaped}
use tinycloud_node.Core.Policy.Capability.{
  parse, check_keys, check_service, check_space, parse_action_set, parse_actions, parse_path,
  parse_space, parse_rest, parse_entries, check_caveats, capability_contains, actions_granted,
  caveats_contained,
}
use tinycloud_node.Core.PolicyAuthority.Capabilities.{
  canonical_capabilities, action_allowed, canonical_value, requested_capabilities_hash_hex,
  hex_encode, capability_set_contained,
}
use tinycloud_node.Core.PolicyAuthority.Artifacts.{
  PolicyDelegation, delegation_eq, role_eq, mode_eq, facts_eq, capabilities_eq,
}
use tinycloud_node.Core.PolicyAuthority.Shape.{
  mode_ok, fact_names, proof_count, signature_suite, all_unique, same_set, fact, depth,
  decimal_fact, require_fact, require_same_fact, canonical_time, capability_hash, not_before,
  expires_at, validate_wire_shape,
}
use tinycloud_node.Core.PolicyAuthority.Records.{
  VerifiedPolicyState, ChallengeState, IssuanceBindings, TrustedPolicyDecision, DecisionContext,
  VerifiedAttestedEnforcerBinding, AuthorityStatus, VerifiedEdge, grant_mode_text, context_eq,
  validate_challenge_lifetime, digest_hex, recompute_digest_hex,
}
use tinycloud_node.Core.PolicyAuthority.Pair.{validate_authority_pair}
use tinycloud_node.Core.PolicyAuthority.Root.{
  valid_prefixed_base32, session_mode, minimum, validate_challenge, require_facts,
  validate_root_status, validate_root_proofs, validate_root_depth, validate_root_parties,
  validate_root_facts, validate_root_binding,
}
use tinycloud_node.Core.PolicyAuthority.Root.Limits.{
  validate_root_capabilities, validate_root_decision, validate_root_times,
}
use tinycloud_node.Core.PolicyAuthority.Root.Audit.{validate_root}
use tinycloud_node.Core.PolicyAuthority.Descendant.{
  validate_descendant, validate_descendant_parent, validate_descendant_facts,
  validate_descendant_depth, validate_descendant_capabilities, validate_descendant_times,
  require_inherited,
}
use tinycloud_node.Core.PolicyAuthority.Store.{
  MemoryState, default_store, edges_of, insert_verified_authority, insert_challenge, set_status,
  validate_status_transition, check_set_status,
}
use tinycloud_node.Core.PolicyAuthority.Live.{
  ensure_live, status_live, edges_fit, for_each, sort_edges, validate_persisted_edge_shape,
  walk_verified_edges, walk_memory_edges, validate_for_invocation,
}
use tinycloud_node.Core.PolicyAuthority.Kernel.{
  Issuance, consume, commit_root, commit_descendant, check_issue_authorities, check_issue_root,
  issue_root, session_root_cid, check_descendant, persist_descendant,
}
use tinycloud_node.Core.Policy.Registry as PolicyRegistry
use tinycloud_node.Core.PolicyAuthority.Platform.{seconds}
use tinycloud_node.Core.PolicyAuthority.Records
use tinycloud_node.Auth.Registry
use tinycloud_node.Core.Policy.Actions
use tinycloud_node.Tests.Policy.{Tree, trees, policy, enforcement, root, descendant}

abbrev pub enforcer : Str
enforcer = codes "enforcer"

abbrev pub active : AuthorityStatus
active = record {
  checked_at = seconds 95;
  fresh_until = seconds 395;
  sequence = 0;
  revoked_at = none;
}

abbrev pub question : ChallengeState
question = record {
  challenge_id = codes "challenge";
  nonce_hash_hex = codes "n1";
  owner_did = codes "owner";
  policy_id = codes "pol_1";
  policy_digest_hex = codes "d1";
  policy_delegation_cid = codes "policy";
  enforcement_delegation_cid = codes "enforcement";
  enforcer_did = enforcer;
  node_audience = codes "node";
  claimant_did = codes "claimant";
  requested_capabilities_hash_hex = codes "7879";
  issued_at = seconds 90;
  expires_at = seconds 200;
  consumed_at = none;
}

abbrev claim : IssuanceBindings
claim = record {
  now = seconds 100;
  claim_issued_at = seconds 100;
  claim_expires_at = seconds 200;
  challenge_id = codes "challenge";
  challenge_nonce_hash_hex = codes "n1";
  claimant_did = codes "claimant";
  requested_capabilities_hash_hex = codes "7879";
  claim_invocation_digest_hex = codes "c1";
  vp_digest_hex = codes "v1";
}

abbrev context : DecisionContext
context = record {
  owner_did = codes "owner";
  policy_id = codes "pol_1";
  policy_digest_hex = codes "d1";
  capability_ceiling_hash_hex = codes "7879";
  enforcer_did = enforcer;
  node_audience = codes "node";
  claimant_did = codes "claimant";
  challenge_id = codes "challenge";
  challenge_nonce_hash_hex = codes "n1";
  requested_capabilities_hash_hex = codes "7879";
  claim_invocation_digest_hex = codes "c1";
  vp_digest_hex = codes "v1";
}

abbrev pub issuance : Issuance Tree
issuance = record {
  policy_authority = policy;
  policy_enforcement = enforcement;
  policy_state = record {
    owner_did = codes "owner";
    policy_id = codes "pol_1";
    policy_digest_hex = codes "d1";
    capability_ceiling_hash_hex = codes "7879";
    grant_mode = Records.attenuable;
    max_ttl_seconds = 60;
    status_checked_at = seconds 95;
    expires_at = seconds 600;
  };
  root = root;
  binding = record {
    binding_digest_hex = codes "b1";
    enforcer_did = enforcer;
    node_audience = codes "node";
    expires_at = seconds 300;
  };
  decision = record {
    context = context;
    decision_context_digest_hex = codes "7879";
    evaluated_at = seconds 100;
    valid_until = seconds 200;
  };
  bindings = claim;
}

-- The artifacts by their CIDs.
abbrev pub by_cid : Str → PolicyDelegation Tree
by_cid cid =
    if cid == codes "policy"
    then policy
    else if cid == codes "enforcement"
    then enforcement
    else if cid == codes "descendant"
    then descendant
    else root

abbrev pub with_policy : MemoryState Tree
with_policy = (insert_verified_authority policy active default_store).1

abbrev pub with_enforcement : MemoryState Tree
with_enforcement = (insert_verified_authority enforcement active with_policy).1

abbrev pub with_challenge : MemoryState Tree
with_challenge = (insert_challenge question with_enforcement).1

abbrev pub with_root : MemoryState Tree
with_root = (issue_root trees enforcer issuance with_challenge).1

abbrev pub with_descendant : MemoryState Tree
with_descendant = (persist_descendant trees enforcer descendant (seconds 102) with_root).1

-- The edges of the run.
abbrev pub to_root : VerifiedEdge
to_root = record {
  child_cid = codes "descendant";
  parent_cid = codes "root";
  kind = Records.immediate;
  position = 0;
}

abbrev pub to_policy : VerifiedEdge
to_policy = record {
  child_cid = codes "root";
  parent_cid = codes "policy";
  kind = Records.authority;
  position = 0;
}

-- The policy is revoked afterwards.
abbrev pub revoked : AuthorityStatus
revoked = record {
  checked_at = seconds 105;
  fresh_until = seconds 405;
  sequence = 1;
  revoked_at = some (seconds 104);
}

abbrev pub with_revocation : MemoryState Tree
with_revocation = (set_status (codes "policy") revoked with_descendant).1

-- What the run computes to, with its edges, before and after the revocation.
pub run :
    ((issue_root trees enforcer issuance with_challenge).0 ≡ ok tt)
    × ((persist_descendant trees enforcer descendant (seconds 102) with_root).0 ≡ ok tt)
    × (validate_for_invocation trees with_descendant (codes "descendant") (seconds 110) ≡ ok tt)
    × (get (codes "descendant") with_descendant.artifacts ≡ some descendant)
    × In to_root with_descendant.edges
    × In to_policy with_descendant.edges
    × (get (codes "policy") with_revocation.statuses ≡ some revoked)
    × In to_root with_revocation.edges
    × In to_policy with_revocation.edges
unfolding contains_byte starts_with ends_with_byte split_char str_len as_bytes utf8 strip_prefix
    sort dedup str_le insert_sorted parse_u64 parse_digits is_digit get put list_eq option_eq
    normalize_path percent_decode_unreserved escaped parse check_keys check_service check_space
    parse_action_set parse_actions parse_path parse_space parse_rest parse_entries check_caveats
    capability_contains actions_granted caveats_contained canonical_capabilities action_allowed
    canonical_value requested_capabilities_hash_hex hex_encode capability_set_contained
    delegation_eq role_eq mode_eq facts_eq capabilities_eq mode_ok fact_names proof_count
    signature_suite all_unique same_set fact depth decimal_fact require_fact require_same_fact
    canonical_time capability_hash not_before expires_at validate_wire_shape grant_mode_text
    context_eq validate_challenge_lifetime digest_hex recompute_digest_hex validate_authority_pair
    valid_prefixed_base32 session_mode minimum validate_challenge require_facts validate_root_status
    validate_root_proofs validate_root_depth validate_root_parties validate_root_facts
    validate_root_binding validate_root_capabilities validate_root_decision validate_root_times
    validate_root validate_descendant validate_descendant_parent validate_descendant_facts
    validate_descendant_depth validate_descendant_capabilities validate_descendant_times
    require_inherited edges_of insert_verified_authority insert_challenge set_status
    validate_status_transition check_set_status ensure_live status_live edges_fit for_each
    sort_edges validate_persisted_edge_shape walk_verified_edges walk_memory_edges
    validate_for_invocation consume commit_root commit_descendant check_issue_authorities
    check_issue_root issue_root session_root_cid check_descendant persist_descendant
    Actions.accepted_actions Registry.accepted_actions Actions.path_contains
    Actions.expand_granted_actions PolicyRegistry.resolve_alias PolicyRegistry.implied_actions
run = (refl, refl, refl, refl, inr (inr (inl refl)), inl refl, refl, inr (inr (inl refl)), inl refl)
