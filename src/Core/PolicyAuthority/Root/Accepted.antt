-- ===== src/Core/PolicyAuthority/Root/Accepted.antt =====
-- What the checks of a session root establish of its proofs and its capabilities.
use tinycloud_node.Common.{
  ◌≡◌, refl, [], ◌∷◌, Bool, true, false, and-eq-true, ok, >>=-eq-ok, require-eq-ok, require,
}
use tinycloud_node.Common.Classes.{◌==◌, Str, codes, List_eq, Nat_eq, list_eq_iff}
use tinycloud_node.Core.PolicyAuthority.Platform.{Platform}
use tinycloud_node.Core.PolicyAuthority.Artifacts
use tinycloud_node.Core.PolicyAuthority.Artifacts.{PolicyDelegation, role_eq, role_eq→≡}
use tinycloud_node.Core.PolicyAuthority.Capabilities.{capability_set_contained}
use tinycloud_node.Core.PolicyAuthority.Capabilities.Within.{
  Within, capability_set_contained-Within,
}
use tinycloud_node.Core.PolicyAuthority.Shape.{require_fact, capability_hash, validate_wire_shape}
use tinycloud_node.Core.PolicyAuthority.Records.{
  VerifiedAttestedEnforcerBinding, VerifiedPolicyState, TrustedPolicyDecision, ChallengeState,
  IssuanceBindings, IssuanceAudit,
}
use tinycloud_node.Core.PolicyAuthority.Root.{
  validate_challenge, validate_root_status, validate_root_proofs, validate_root_depth,
  validate_root_parties, validate_root_facts,
}
use tinycloud_node.Core.PolicyAuthority.Root.Limits.{validate_root_capabilities}
use tinycloud_node.Core.PolicyAuthority.Root.Audit.{validate_root_claims, validate_root}

pub require-ok : {E : Type 0} (t : Bool) (e : E) → require t e ≡ ok tt → t ≡ true
require-ok true e h = refl
require-ok false e h = cc

module _ (platform : Platform) where
  open platform use {json}
  open json use {Value}

  -- A session root that two artifacts prove, with its capabilities within those of both.
  pub record IsRootOf (root policy enforcement : PolicyDelegation Value) : Type 0 where
    pub role : root.role ≡ Artifacts.policy_session_root
    pub proofs : root.proof_cids ≡ policy.delegation_cid ∷ enforcement.delegation_cid ∷ []
    pub in_policy : Within platform root.capabilities policy.capabilities
    pub in_enforcement : Within platform root.capabilities enforcement.capabilities

  validate_root_capabilities-Within :
      (policy enforcement root : PolicyDelegation Value) (bindings : IssuanceBindings)
      → validate_root_capabilities platform policy enforcement root bindings ≡ ok tt
      → Within platform root.capabilities policy.capabilities
        × Within platform root.capabilities enforcement.capabilities
  unfolding validate_root_capabilities
  validate_root_capabilities-Within policy enforcement root bindings h =
      let (hash, e, h1) = >>=-eq-ok (capability_hash platform root) _ h in
      let (_, f, h2) = >>=-eq-ok (require_fact root (codes "capabilityHashHex") hash _) _ h1 in
      let (t, h3) = require-eq-ok (hash == bindings.requested_capabilities_hash_hex) _ _ h2 in
      let (b, g, h4) =
        >>=-eq-ok (capability_set_contained platform root.capabilities policy.capabilities) _ h3 in
      let (u, h5) = require-eq-ok b _ _ h4 in
      let (c, k, h6) =
        >>=-eq-ok (capability_set_contained platform root.capabilities enforcement.capabilities) _
          h5 in
      let v = require-ok c _ h6 in
      (
        capability_set_contained-Within platform root.capabilities policy.capabilities (rw u at g),
        capability_set_contained-Within platform root.capabilities enforcement.capabilities
            (rw v at k),
      )

  validate_root_claims-IsRootOf :
      (policy enforcement : PolicyDelegation Value) (policy_state : VerifiedPolicyState)
      (challenge : ChallengeState) (root : PolicyDelegation Value)
      (binding : VerifiedAttestedEnforcerBinding) (decision : TrustedPolicyDecision)
      (bindings : IssuanceBindings) (node : Str)
      → validate_root_claims platform policy enforcement policy_state challenge root binding
          decision bindings node
        ≡ ok tt
      → IsRootOf root policy enforcement
  unfolding validate_root_claims validate_root_proofs
  validate_root_claims-IsRootOf policy enforcement policy_state challenge root binding decision
        bindings node h =
      let (_, e1, h1) = >>=-eq-ok (validate_wire_shape platform root) _ h in
      let (_, e2, h2) = >>=-eq-ok (validate_root_status policy_state bindings) _ h1 in
      let (_, e3, h3) =
        >>=-eq-ok (validate_challenge challenge policy enforcement bindings node) _ h2 in
      let (t, h4) = require-eq-ok _ _ _ h3 in
      let (_, e5, h5) = >>=-eq-ok (validate_root_depth enforcement root) _ h4 in
      let (_, e6, h6) = >>=-eq-ok (validate_root_parties enforcement root bindings node) _ h5 in
      let (_, e7, h7) =
        >>=-eq-ok (validate_root_facts policy enforcement root binding decision bindings) _ h6 in
      let (w, w') = validate_root_capabilities-Within policy enforcement root bindings h7 in
      let (r, p) = and-eq-true (role_eq root.role Artifacts.policy_session_root) _ t in
      record {
        role = role_eq→≡ root.role Artifacts.policy_session_root r;
        proofs =
            (list_eq_iff root.proof_cids
                (policy.delegation_cid ∷ enforcement.delegation_cid ∷ [])).0
              p;
        in_policy = w;
        in_enforcement = w';
      }

  pub validate_root-IsRootOf :
      (policy enforcement : PolicyDelegation Value) (policy_state : VerifiedPolicyState)
      (challenge : ChallengeState) (root : PolicyDelegation Value)
      (binding : VerifiedAttestedEnforcerBinding) (decision : TrustedPolicyDecision)
      (bindings : IssuanceBindings) (node : Str) (audit : IssuanceAudit)
      → validate_root platform policy enforcement policy_state challenge root binding decision
          bindings node
        ≡ ok audit
      → IsRootOf root policy enforcement
  unfolding validate_root
  validate_root-IsRootOf policy enforcement policy_state challenge root binding decision bindings
        node audit h =
      let (_, e, k) =
        >>=-eq-ok
          (validate_root_claims platform policy enforcement policy_state challenge root binding
            decision bindings node)
          _ h in
      validate_root_claims-IsRootOf policy enforcement policy_state challenge root binding decision
        bindings node e
