-- ===== src/Core/PolicyAuthority/Artifacts.antt =====
-- The signed artifacts of tinycloud-core/src/policy_authority/mod.rs: delegations with their roles,
-- modes and facts.
use tinycloud_node.Common.{ℕ, ◌≡◌, refl, List, [], ◌∷◌, Bool, true, false, ◌&&◌}
use tinycloud_node.Common.Classes.{◌==◌, Str, codes, List_eq, Nat_eq, list_eq}
use tinycloud_node.Core.Json.{Json}

abbrev pub policy_prefix : Str
policy_prefix = codes "xyz.tinycloud.policy/"

abbrev pub max_status_age_seconds : ℕ
max_status_age_seconds = 300

abbrev pub max_ancestry_depth : ℕ
max_ancestry_depth = 64

abbrev pub eip191_suite : Str
eip191_suite = codes "eip191-secp256k1-sha256-jcs-v1"

abbrev pub ed25519_suite : Str
ed25519_suite = codes "eddsa-ed25519-sha256-jcs-v1"

abbrev pub authority_facts : List Str
authority_facts =
    codes "ownerDid"
    ∷ codes "policyId"
    ∷ codes "policyDigestHex"
    ∷ codes "capabilityCeilingHashHex"
    ∷ []

abbrev pub enforcement_facts : List Str
enforcement_facts =
    codes "ownerDid"
    ∷ codes "policyId"
    ∷ codes "policyDigestHex"
    ∷ codes "capabilityCeilingHashHex"
    ∷ codes "enforcerDid"
    ∷ codes "nodeAudience"
    ∷ codes "attestationBindingDigestHex"
    ∷ codes "maxSessionTtlSeconds"
    ∷ codes "sessionMode"
    ∷ codes "maxRedelegationDepth"
    ∷ codes "auditProfile"
    ∷ []

abbrev pub session_facts : List Str
session_facts =
    codes "ownerDid"
    ∷ codes "policyId"
    ∷ codes "policyDigestHex"
    ∷ codes "capabilityCeilingHashHex"
    ∷ codes "capabilityHashHex"
    ∷ codes "enforcerDid"
    ∷ codes "nodeAudience"
    ∷ codes "rootClaimantDid"
    ∷ codes "sessionSubjectDid"
    ∷ codes "policyDelegationCid"
    ∷ codes "enforcementDelegationCid"
    ∷ codes "attestationBindingDigestHex"
    ∷ codes "claimInvocationDigestHex"
    ∷ codes "vpDigestHex"
    ∷ codes "decisionContextDigestHex"
    ∷ codes "issuanceAuditDigestHex"
    ∷ codes "issuanceId"
    ∷ codes "remainingRedelegationDepth"
    ∷ codes "auditProfile"
    ∷ []

pub data DelegationRole : Type 0 where
  policy_authority : DelegationRole
  policy_enforcement : DelegationRole
  policy_session_root : DelegationRole
  policy_session_descendant : DelegationRole

pub data DelegationMode : Type 0 where
  policy_source : DelegationMode
  conditional_mint : DelegationMode
  attenuable : DelegationMode
  terminal : DelegationMode

-- The derived `==`.
unfoldable pub role_eq : DelegationRole → DelegationRole → Bool
role_eq policy_authority policy_authority = true
role_eq policy_enforcement policy_enforcement = true
role_eq policy_session_root policy_session_root = true
role_eq policy_session_descendant policy_session_descendant = true
role_eq _ _ = false

unfoldable pub mode_eq : DelegationMode → DelegationMode → Bool
mode_eq policy_source policy_source = true
mode_eq conditional_mint conditional_mint = true
mode_eq attenuable attenuable = true
mode_eq terminal terminal = true
mode_eq _ _ = false

pub record DelegationSignature : Type 0 where
  pub suite : Str
  pub value : Str

pub record PolicyDelegation (V : Type 0) : Type 0 where
  pub schema : Str
  pub role : DelegationRole
  pub delegation_cid : Str
  pub issuer_did : Str
  pub audience_did : Str
  pub capabilities : List V
  pub proof_cids : List Str
  pub not_before : Str
  pub expires_at : Str
  pub delegation_mode : DelegationMode
  pub facts : List (Str × Str)
  pub signature : DelegationSignature

-- The derived `==`.
unfoldable pub facts_eq : List (Str × Str) → List (Str × Str) → Bool
facts_eq [] [] = true
facts_eq [] (f ∷ fs) = false
facts_eq (f ∷ fs) [] = false
facts_eq ((k, v) ∷ fs) ((l, w) ∷ gs) = k == l && (v == w && facts_eq fs gs)

module _ (json : Json) where
  open json use {Value, value_eq}

  unfoldable pub capabilities_eq : List Value → List Value → Bool
  capabilities_eq = list_eq ⦃e = value_eq⦄

  unfoldable pub delegation_eq : PolicyDelegation Value → PolicyDelegation Value → Bool
  unfolding role_eq mode_eq facts_eq capabilities_eq
  delegation_eq a b =
      a.schema == b.schema
      && (role_eq a.role b.role
          && (a.delegation_cid == b.delegation_cid
              && (a.issuer_did == b.issuer_did
                  && (a.audience_did == b.audience_did
                      && (capabilities_eq a.capabilities b.capabilities
                          && (a.proof_cids == b.proof_cids
                              && (a.not_before == b.not_before
                                  && (a.expires_at == b.expires_at
                                      && (mode_eq a.delegation_mode b.delegation_mode
                                          && (facts_eq a.facts b.facts
                                              && (a.signature.suite == b.signature.suite
                                                  && a.signature.value
                                                    == b.signature.value)))))))))))

pub role_eq→≡ : (r s : DelegationRole) → role_eq r s ≡ true → r ≡ s
unfolding role_eq
role_eq→≡ policy_authority policy_authority h = refl
role_eq→≡ policy_enforcement policy_enforcement h = refl
role_eq→≡ policy_session_root policy_session_root h = refl
role_eq→≡ policy_session_descendant policy_session_descendant h = refl
role_eq→≡ policy_authority policy_enforcement h = cc
role_eq→≡ policy_authority policy_session_root h = cc
role_eq→≡ policy_authority policy_session_descendant h = cc
role_eq→≡ policy_enforcement policy_authority h = cc
role_eq→≡ policy_enforcement policy_session_root h = cc
role_eq→≡ policy_enforcement policy_session_descendant h = cc
role_eq→≡ policy_session_root policy_authority h = cc
role_eq→≡ policy_session_root policy_enforcement h = cc
role_eq→≡ policy_session_root policy_session_descendant h = cc
role_eq→≡ policy_session_descendant policy_authority h = cc
role_eq→≡ policy_session_descendant policy_enforcement h = cc
role_eq→≡ policy_session_descendant policy_session_root h = cc
