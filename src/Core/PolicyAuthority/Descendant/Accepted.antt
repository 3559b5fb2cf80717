-- ===== src/Core/PolicyAuthority/Descendant/Accepted.antt =====
-- What the checks of a session descendant establish of its parent, its capabilities and its depth.
use tinycloud_node.Common.{
  ℕ, ◌+◌, ◌≤◌, ◌≡◌, [], ◌∷◌, not, ◌||◌, leb, ltb, nat_eq, arith, and-eq-true, ok, ok_or, >>=-eq-ok,
  require-eq-ok, Bool-cases, inl, inr, ◌⊎◌,
}
use tinycloud_node.Common.Classes.{codes, List_eq, Nat_eq, list_eq_iff}
use tinycloud_node.Common.Decimal.{parse_u64}
use tinycloud_node.Core.PolicyAuthority.Platform.{Platform}
use tinycloud_node.Core.PolicyAuthority.Artifacts
use tinycloud_node.Core.PolicyAuthority.Artifacts.{
  PolicyDelegation, DelegationRole, role_eq, mode_eq, role_eq→≡,
}
use tinycloud_node.Core.PolicyAuthority.Capabilities.{capability_set_contained}
use tinycloud_node.Core.PolicyAuthority.Capabilities.Within.{
  Within, capability_set_contained-Within,
}
use tinycloud_node.Core.PolicyAuthority.Shape.{
  fact, depth, require_fact, capability_hash, validate_wire_shape,
}
use tinycloud_node.Core.PolicyAuthority.Root.Accepted.{require-ok}
use tinycloud_node.Core.PolicyAuthority.Descendant.{
  validate_descendant_parent, validate_descendant_facts, validate_descendant_depth,
  validate_descendant_capabilities, validate_descendant,
}

-- A session root or a descendant.
abbrev pub IsSession : DelegationRole → Type 0
IsSession role =
    (role ≡ Artifacts.policy_session_root) ⊎ (role ≡ Artifacts.policy_session_descendant)

module _ {V : Type 0} where
  pub depth-le : (d : PolicyDelegation V) (n : ℕ) → depth d ≡ ok n → n ≤ 8
  unfolding depth
  depth-le d n h =
      let (value, e, h1) = >>=-eq-ok (fact d (codes "remainingRedelegationDepth")) _ h in
      let (m, f, h2) = >>=-eq-ok (ok_or (parse_u64 value) _) _ h1 in
      let (t, h3) = require-eq-ok (leb m 8) _ _ h2 in ground arith

  validate_descendant_depth-lt :
      (child parent : PolicyDelegation V)
      → validate_descendant_depth child parent ≡ ok tt
      → (n : ℕ) × (depth child ≡ ok n) × (depth parent ≡ ok (n + 1))
  unfolding validate_descendant_depth
  validate_descendant_depth-lt child parent h =
      let (m, e, h1) = >>=-eq-ok (depth parent) _ h in
      let (n, f, h2) = >>=-eq-ok (depth child) _ h1 in
      let (t, u) = and-eq-true (ltb 0 m) _ (require-ok _ _ h2) in
      let (v, _) = and-eq-true (nat_eq (n + 1) m) _ u in
      let same : n + 1 ≡ m = ground arith in (n, f, rw same e)

  validate_descendant_parent-role :
      (child parent : PolicyDelegation V)
      → validate_descendant_parent child parent ≡ ok tt
      → (child.role ≡ Artifacts.policy_session_descendant)
        × (child.proof_cids ≡ parent.delegation_cid ∷ [])
        × IsSession parent.role
  unfolding validate_descendant_parent
  validate_descendant_parent-role child parent h =
      let (t, h1) = require-eq-ok _ _ _ h in
      let (r, p) = and-eq-true (role_eq child.role Artifacts.policy_session_descendant) _ t in
      let (_, e, h2) =
        >>=-eq-ok
          (require_fact child (codes "immediateParentDelegationCid") parent.delegation_cid _) _
          h1 in
      let (_, h3) =
        require-eq-ok (not (mode_eq parent.delegation_mode Artifacts.conditional_mint)) _ _ h2 in
      let (_, h4) =
        require-eq-ok (not (mode_eq parent.delegation_mode Artifacts.terminal)) _ _ h3 in
      let (u, h5) =
        require-eq-ok
          (role_eq parent.role Artifacts.policy_session_root
            || role_eq parent.role Artifacts.policy_session_descendant)
          _ _ h4 in
      (
        role_eq→≡ child.role Artifacts.policy_session_descendant r,
        (list_eq_iff child.proof_cids (parent.delegation_cid ∷ [])).0 p,
        elim (Bool-cases (role_eq parent.role Artifacts.policy_session_root)) [
          | inl e ↦ inl (role_eq→≡ parent.role Artifacts.policy_session_root e)
          | inr e ↦
              inr (role_eq→≡ parent.role Artifacts.policy_session_descendant (ground (arith, e, u)))
        ],
      )

module _ (platform : Platform) where
  open platform use {json}
  open json use {Value}

  -- A descendant of a session, with its capabilities within the session's and one redelegation less.
  pub record IsChildOf (child parent : PolicyDelegation Value) : Type 0 where
    pub role : child.role ≡ Artifacts.policy_session_descendant
    pub proofs : child.proof_cids ≡ parent.delegation_cid ∷ []
    pub session : IsSession parent.role
    pub within : Within platform child.capabilities parent.capabilities
    pub left : ℕ
    pub child_depth : depth child ≡ ok left
    pub parent_depth : depth parent ≡ ok (left + 1)

  validate_descendant_capabilities-Within :
      (child parent : PolicyDelegation Value)
      → validate_descendant_capabilities platform child parent ≡ ok tt
      → Within platform child.capabilities parent.capabilities
  unfolding validate_descendant_capabilities
  validate_descendant_capabilities-Within child parent h =
      let (hash, e, h1) = >>=-eq-ok (capability_hash platform child) _ h in
      let (_, f, h2) = >>=-eq-ok (require_fact child (codes "capabilityHashHex") hash _) _ h1 in
      let (b, g, h3) =
        >>=-eq-ok (capability_set_contained platform child.capabilities parent.capabilities) _ h2 in
      let t = require-ok b _ h3 in
      capability_set_contained-Within platform child.capabilities parent.capabilities (rw t at g)

  pub validate_descendant-IsChildOf :
      (child parent root : PolicyDelegation Value)
      → validate_descendant platform child parent root ≡ ok tt
      → IsChildOf child parent
  unfolding validate_descendant
  validate_descendant-IsChildOf child parent root h =
      let (_, e1, h1) = >>=-eq-ok (validate_wire_shape platform child) _ h in
      let (_, e2, h2) = >>=-eq-ok (validate_wire_shape platform parent) _ h1 in
      let (_, e3, h3) = >>=-eq-ok (validate_wire_shape platform root) _ h2 in
      let (_, e4, h4) = >>=-eq-ok (validate_descendant_parent child parent) _ h3 in
      let (_, e5, h5) = >>=-eq-ok (validate_descendant_facts child parent root) _ h4 in
      let (_, e6, h6) = >>=-eq-ok (validate_descendant_depth child parent) _ h5 in
      let (_, e7, h7) = >>=-eq-ok (validate_descendant_capabilities platform child parent) _ h6 in
      let (r, p, s) = validate_descendant_parent-role child parent e4 in
      let (n, f, g) = validate_descendant_depth-lt child parent e6 in
      record {
        role = r;
        proofs = p;
        session = s;
        within = validate_descendant_capabilities-Within child parent e7;
        left = n;
        child_depth = f;
        parent_depth = g;
      }
