-- ===== src/Core/PolicyAuthority/Kernel/Checked.antt =====
-- What the checks of the two transactions establish.
use tinycloud_node.Common.{
  ℕ, ◌≡◌, refl, List, [], ◌∷◌, Option, none, some, true, false, not, arith, is_none, ok, ok_or,
  >>=-eq-ok, require-eq-ok, ok_or-eq-ok,
}
use tinycloud_node.Common.Classes.{Str}
use tinycloud_node.Common.Maps.{get}
use tinycloud_node.Core.PolicyAuthority.Platform.{Platform}
use tinycloud_node.Core.PolicyAuthority.Artifacts
use tinycloud_node.Core.PolicyAuthority.Artifacts.{PolicyDelegation, mode_eq}
use tinycloud_node.Core.PolicyAuthority.Records.{ChallengeState, IssuanceAudit}
use tinycloud_node.Core.PolicyAuthority.Pair.{validate_authority_pair}
use tinycloud_node.Core.PolicyAuthority.Pair.Accepted.{validate_authority_pair-role}
use tinycloud_node.Core.PolicyAuthority.Root.Accepted.{IsRootOf, validate_root-IsRootOf}
use tinycloud_node.Core.PolicyAuthority.Descendant.{validate_descendant}
use tinycloud_node.Core.PolicyAuthority.Descendant.Accepted.{
  IsChildOf, validate_descendant-IsChildOf,
}
use tinycloud_node.Core.PolicyAuthority.Store.{MemoryState}
use tinycloud_node.Core.PolicyAuthority.Live.{ensure_live}
use tinycloud_node.Core.PolicyAuthority.Live.Sound.{IsLive, ensure_live-IsLive}
use tinycloud_node.Core.PolicyAuthority.Kernel.{
  Issuance, first, check_issue_authorities, check_issue_root, session_root_cid, check_descendant,
}

none-eq_of_is_none : {A : Type 0} (o : Option A) → is_none o ≡ true → o ≡ none
none-eq_of_is_none none h = refl
none-eq_of_is_none (some a) h = cc

module _ (platform : Platform) (node : Str) where
  open platform use {json}
  open json use {Value}

  -- Live authorities of the right roles, an unused challenge, and a root that they prove.
  pub record IsIssuable (i : Issuance Value) (s : MemoryState Value) : Type 0 where
    pub policy_role : i.policy_authority.role ≡ Artifacts.policy_authority
    pub policy_live : IsLive platform s i.bindings.now i.policy_authority.delegation_cid
    pub enforcement_live : IsLive platform s i.bindings.now i.policy_enforcement.delegation_cid
    pub challenge : ChallengeState
    pub known : get i.bindings.challenge_id s.challenges ≡ some challenge
    pub unused : challenge.consumed_at ≡ none
    pub proved : IsRootOf platform i.root i.policy_authority i.policy_enforcement

  pub check_issue_root-IsIssuable :
      (i : Issuance Value) (s : MemoryState Value) (audit : IssuanceAudit)
      → check_issue_root platform node i s ≡ ok audit
      → IsIssuable i s
  unfolding check_issue_root check_issue_authorities
  check_issue_root-IsIssuable i s audit h =
      let (_, a, h1) = >>=-eq-ok (check_issue_authorities platform node i s) _ h in
      let (_, b, a1) =
        >>=-eq-ok
          (validate_authority_pair platform i.policy_authority i.policy_enforcement i.policy_state
            node)
          _ a in
      let (_, c, a2) =
        >>=-eq-ok (ensure_live platform s i.policy_authority.delegation_cid i.bindings.now false) _
          a1 in
      let (_, d, a3) =
        >>=-eq-ok (ensure_live platform s i.policy_enforcement.delegation_cid i.bindings.now false)
          _ a2 in
      let (challenge, e, h2) =
        >>=-eq-ok (ok_or (get i.bindings.challenge_id s.challenges) _) _ h1 in
      let (t, h3) = require-eq-ok (is_none challenge.consumed_at) _ _ h2 in
      record {
        policy_role =
            (validate_authority_pair-role platform i.policy_authority i.policy_enforcement
              i.policy_state node b).0;
        policy_live =
            ensure_live-IsLive platform s i.policy_authority.delegation_cid i.bindings.now false c;
        enforcement_live =
            ensure_live-IsLive platform s i.policy_enforcement.delegation_cid i.bindings.now false
              d;
        challenge = challenge;
        known = ok_or-eq-ok (get i.bindings.challenge_id s.challenges) _ e;
        unused = none-eq_of_is_none challenge.consumed_at t;
        proved =
            validate_root-IsRootOf platform i.policy_authority i.policy_enforcement i.policy_state
              challenge i.root i.binding i.decision i.bindings node audit h3;
      }

  -- A stored parent that the descendant names as its only proof.
  pub record IsPersistable (d : PolicyDelegation Value) (s : MemoryState Value) : Type 0 where
    pub parent : PolicyDelegation Value
    pub stored : get parent.delegation_cid s.artifacts ≡ some parent
    pub child : IsChildOf platform d parent

  first-eq-some : (xs : List Str) (x : Str) → first xs ≡ some x → (ys : List Str) × (xs ≡ x ∷ ys)
  first-eq-some [] x h = cc
  first-eq-some (y ∷ ys) x h = (ys, ground arith)

  pub check_descendant-IsPersistable :
      (d : PolicyDelegation Value) (now : ℕ) (s : MemoryState Value)
      → check_descendant platform node d now s ≡ ok tt
      → IsPersistable d s
  unfolding check_descendant
  check_descendant-IsPersistable d now s h =
      let (cid, e, h1) = >>=-eq-ok (ok_or (first d.proof_cids) _) _ h in
      let (parent, f, h2) = >>=-eq-ok (ok_or (get cid s.artifacts) _) _ h1 in
      let (_, h3) =
        require-eq-ok (not (mode_eq parent.delegation_mode Artifacts.conditional_mint)) _ _ h2 in
      let (root_cid, g, h4) = >>=-eq-ok (session_root_cid platform node parent) _ h3 in
      let (root, k, h5) = >>=-eq-ok (ok_or (get root_cid s.artifacts) _) _ h4 in
      let (_, l, h6) = >>=-eq-ok (validate_descendant platform d parent root) _ h5 in
      let child = validate_descendant-IsChildOf platform d parent root l in
      let (rest, q) = first-eq-some d.proof_cids cid (ok_or-eq-ok (first d.proof_cids) _ e) in
      let same : cid ≡ parent.delegation_cid = ground (arith, child.proofs) in
      record {
        parent = parent;
        stored = rw (← same) (ok_or-eq-ok (get cid s.artifacts) _ f);
        child = child;
      }
