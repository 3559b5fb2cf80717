-- ===== src/Core/PolicyAuthority/Pair/Accepted.antt =====
-- What the checks of a policy with its enforcement establish of their roles.
use tinycloud_node.Common.{◌≡◌, is_empty, and-eq-true, ok, >>=-eq-ok}
use tinycloud_node.Common.Classes.{Str}
use tinycloud_node.Core.PolicyAuthority.Platform.{Platform}
use tinycloud_node.Core.PolicyAuthority.Artifacts
use tinycloud_node.Core.PolicyAuthority.Artifacts.{PolicyDelegation, role_eq, mode_eq, role_eq→≡}
use tinycloud_node.Core.PolicyAuthority.Shape.{validate_wire_shape}
use tinycloud_node.Core.PolicyAuthority.Records.{VerifiedPolicyState}
use tinycloud_node.Core.PolicyAuthority.Root.Accepted.{require-ok}
use tinycloud_node.Core.PolicyAuthority.Pair.{validate_pair_roles, validate_authority_pair}

validate_pair_roles-role :
    {V : Type 0} (policy enforcement : PolicyDelegation V)
    → validate_pair_roles policy enforcement ≡ ok tt
    → (policy.role ≡ Artifacts.policy_authority) × (enforcement.role ≡ Artifacts.policy_enforcement)
unfolding validate_pair_roles
validate_pair_roles-role policy enforcement h =
    let t = require-ok _ _ h in
    let (p, t1) = and-eq-true (role_eq policy.role Artifacts.policy_authority) _ t in
    let (_, t2) = and-eq-true (mode_eq policy.delegation_mode Artifacts.policy_source) _ t1 in
    let (_, t3) = and-eq-true (is_empty policy.proof_cids) _ t2 in
    let (e, t4) = and-eq-true (role_eq enforcement.role Artifacts.policy_enforcement) _ t3 in
    (
      role_eq→≡ policy.role Artifacts.policy_authority p,
      role_eq→≡ enforcement.role Artifacts.policy_enforcement e,
    )

module _ (platform : Platform) where
  open platform use {json}
  open json use {Value}

  pub validate_authority_pair-role :
      (policy enforcement : PolicyDelegation Value) (policy_state : VerifiedPolicyState)
      (node : Str)
      → validate_authority_pair platform policy enforcement policy_state node ≡ ok tt
      → (policy.role ≡ Artifacts.policy_authority)
        × (enforcement.role ≡ Artifacts.policy_enforcement)
  unfolding validate_authority_pair
  validate_authority_pair-role policy enforcement policy_state node h =
      let (_, e1, h1) = >>=-eq-ok (validate_wire_shape platform policy) _ h in
      let (_, e2, h2) = >>=-eq-ok (validate_wire_shape platform enforcement) _ h1 in
      let (_, e3, h3) = >>=-eq-ok (validate_pair_roles policy enforcement) _ h2 in
      validate_pair_roles-role policy enforcement e3
