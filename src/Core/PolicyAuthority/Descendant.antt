-- ===== src/Core/PolicyAuthority/Descendant.antt =====
-- tinycloud-core/src/policy_authority/mod.rs: the checks of a session descendant.
pub mod Accepted
use tinycloud_node.Common.{
  ℕ, ◌+◌, ◌≡◌, List, [], ◌∷◌, ◌++◌, Option, none, some, Bool, true, false, ◌&&◌, ◌||◌, not, map,
  contains, nat_eq, ltb, if◌then◌else◌, Result, ok, err, ◌>>=◌, ◌>>◌, require,
}
use tinycloud_node.Common.Classes.{Eq, ◌==◌, Str, codes, List_eq, Nat_eq, Option_eq}
use tinycloud_node.Core.Json.{get}
use tinycloud_node.Core.PolicyAuthority.Errors
use tinycloud_node.Core.PolicyAuthority.Errors.{AuthorityError}
use tinycloud_node.Core.PolicyAuthority.Platform.{Platform}
use tinycloud_node.Core.PolicyAuthority.Artifacts
use tinycloud_node.Core.PolicyAuthority.Artifacts.{
  PolicyDelegation, DelegationMode, role_eq, mode_eq,
}
use tinycloud_node.Core.PolicyAuthority.Capabilities.{capability_set_contained}
use tinycloud_node.Core.PolicyAuthority.Shape.{
  prefixed, fact, depth, require_fact, require_same_fact, not_before, expires_at, capability_hash,
  validate_wire_shape,
}
use tinycloud_node.Core.PolicyAuthority.Root.{session_mode}

-- The facts that a descendant may have otherwise than its parent.
abbrev mutable_facts : List Str
mutable_facts =
    codes "capabilityHashHex"
    ∷ codes "sessionSubjectDid"
    ∷ codes "remainingRedelegationDepth"
    ∷ codes "rootSessionDelegationCid"
    ∷ codes "immediateParentDelegationCid"
    ∷ []

-- The loop over the facts of the parent: each that may not change is a fact of the child.
unfoldable pub require_inherited :
    List (Str × Str) → List (Str × Str) → Result AuthorityError (Unit {0})
require_inherited child_facts [] = ok tt
require_inherited child_facts ((key, value) ∷ rest) = do
  require (contains (map prefixed mutable_facts) key || get key child_facts == some value)
      Errors.descendant_authority_roots_mismatch
  require_inherited child_facts rest

module _ {V : Type 0} where
  unfoldable pub validate_descendant_parent :
      PolicyDelegation V → PolicyDelegation V → Result AuthorityError (Unit {0})
  unfolding role_eq mode_eq
  validate_descendant_parent child parent = do
    require
        (role_eq child.role Artifacts.policy_session_descendant
          && child.proof_cids == parent.delegation_cid ∷ [])
        Errors.descendant_parent_mismatch
    require_fact child (codes "immediateParentDelegationCid") parent.delegation_cid
        Errors.descendant_parent_mismatch
    require (not (mode_eq parent.delegation_mode Artifacts.conditional_mint))
        Errors.conditional_mint_not_parent
    require (not (mode_eq parent.delegation_mode Artifacts.terminal)) Errors.terminal_parent
    require
        (role_eq parent.role Artifacts.policy_session_root
          || role_eq parent.role Artifacts.policy_session_descendant)
        Errors.role_mode_mismatch
    require (child.issuer_did == parent.audience_did) Errors.session_redelegation_invalid
    require_fact child (codes "sessionSubjectDid") child.audience_did
        Errors.session_redelegation_invalid

  unfoldable pub validate_descendant_facts :
      PolicyDelegation V
      → PolicyDelegation V
      → PolicyDelegation V
      → Result AuthorityError (Unit {0})
  unfolding require_inherited
  validate_descendant_facts child parent root = do
    require_fact child (codes "rootSessionDelegationCid") root.delegation_cid
        Errors.descendant_authority_roots_mismatch
    require_same_fact child root (codes "policyDelegationCid")
        Errors.descendant_authority_roots_mismatch
    require_same_fact child root (codes "enforcementDelegationCid")
        Errors.descendant_authority_roots_mismatch
    require_inherited child.facts parent.facts

  unfoldable pub validate_descendant_depth :
      PolicyDelegation V → PolicyDelegation V → Result AuthorityError (Unit {0})
  unfolding depth session_mode mode_eq
  validate_descendant_depth child parent = do
    parent_depth ← depth parent
    child_depth ← depth child
    require
        (ltb 0 parent_depth
          && (nat_eq (child_depth + 1) parent_depth
              && mode_eq child.delegation_mode (session_mode child_depth)))
        Errors.session_redelegation_invalid

module _ (platform : Platform) where
  open platform use {json}
  open json use {Value}

  unfoldable pub validate_descendant_capabilities :
      PolicyDelegation Value → PolicyDelegation Value → Result AuthorityError (Unit {0})
  validate_descendant_capabilities child parent = do
    hash ← capability_hash platform child
    require_fact child (codes "capabilityHashHex") hash Errors.capability_broadened
    contained ← capability_set_contained platform child.capabilities parent.capabilities
    require contained Errors.capability_broadened

  unfoldable pub validate_descendant_times :
      PolicyDelegation Value → PolicyDelegation Value → Result AuthorityError (Unit {0})
  validate_descendant_times child parent = do
    child_start ← not_before platform child
    parent_start ← not_before platform parent
    require (ltb parent_start child_start) Errors.session_time_invalid
    child_end ← expires_at platform child
    parent_end ← expires_at platform parent
    require (ltb child_end parent_end && ltb child_start child_end) Errors.session_time_invalid

  unfoldable pub validate_descendant :
      PolicyDelegation Value
      → PolicyDelegation Value
      → PolicyDelegation Value
      → Result AuthorityError (Unit {0})
  unfolding validate_descendant_parent validate_descendant_facts validate_descendant_depth
      validate_descendant_capabilities validate_descendant_times
  validate_descendant child parent root = do
    validate_wire_shape platform child
    validate_wire_shape platform parent
    validate_wire_shape platform root
    validate_descendant_parent child parent
    validate_descendant_facts child parent root
    validate_descendant_depth child parent
    validate_descendant_capabilities child parent
    validate_descendant_times child parent
