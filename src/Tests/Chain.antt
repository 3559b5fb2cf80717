-- ===== src/Tests/Chain.antt =====
-- Delegations, invocations and revocations at concrete inputs. The JSON values are strings.
use tinycloud_node.Common.{
  ℕ, ◌≡◌, refl, ◌⊎◌, inl, inr, In, List, [], ◌∷◌, ◌++◌, none, some, true, false, arith, ok, err,
  starts_with, strip_prefix, ends_with_byte, get_byte, contains_byte, split_once,
}
use tinycloud_node.Common.Classes.{Str, codes, List_eq, Nat_eq, list_eq, option_eq}
use tinycloud_node.Common.Sort.{sort, dedup}
use tinycloud_node.Auth.Registry
use tinycloud_node.Auth.Ability
use tinycloud_node.Auth.Identity.{
  did_principal_matches, canonicalize_did, principal_did, parse_pkh_did, is_did,
}
use tinycloud_node.Auth.Resource.{extends}
use tinycloud_node.Core.Json.{Json}
use tinycloud_node.Core.Policy.Actions
use tinycloud_node.Core.Resource.{Resource, tiny_cloud, other, space, resource_extends}
use tinycloud_node.Core.Traversal.{
  Hash, ancestor_chain_ids, traverse, parents_of, is_revoked, first_revoked_ancestor,
}
use tinycloud_node.Core.Traversal.Sound.{Ancestor, self, up}
use tinycloud_node.Core.Traversal.Complete.{FewParents}
use tinycloud_node.Core.Authority.{
  Capability, DelegationRow, AbilityRow, Db, abilities_of, parent_abilities, search_candidates,
  extract_sql_caveat, contain_extracted, is_root_authority, is_candidate,
}
use tinycloud_node.Core.Delegation
use tinycloud_node.Core.Delegation.{DelegationInfo, ensure_parent_active, parent_revoked}
use tinycloud_node.Core.Delegation.Sound as DelegationSound
use tinycloud_node.Core.Delegation.Complete.{validate_complete}
use tinycloud_node.Core.Invocation
use tinycloud_node.Core.Invocation.{InvocationInfo, expired, too_early, check_parent}
use tinycloud_node.Core.Invocation.Chain.{check_parent-chain}
use tinycloud_node.Core.Invocation.Sound as InvocationSound
use tinycloud_node.Core.Revocation.{
  RevocationInfo, process_revocation, control_proof_decision, persistent_principal,
  insert_revocation,
}
use tinycloud_node.Core.Revocation.Laws.{
  ProvesControl, process_revocation-ensure_parent_active, control_proof_decision-persistent,
}
use tinycloud_node.Tests.Hex.{hex}
use tinycloud_node.Tests.Core.{length-parents_of}

abbrev strings : Json
strings = record {
  Value = Str;
  as_object = λ v. none;
  as_array = λ v. none;
  as_str = λ v. some v;
  as_bool = λ v. none;
  as_i64 = λ v. none;
  value_eq = List_eq;
}

abbrev id : ℕ → Hash
id n = n ∷ []

abbrev cid_text : Hash → Str
cid_text h = h

abbrev alice : Str
alice = codes "did:key:alice"

abbrev bob : Str
bob = codes "did:key:bob"

abbrev carol : Str
carol = codes "did:key:carol"

abbrev notes : Str → Resource
notes path = tiny_cloud (record {
  space = record { base_did = alice; name = codes "default" };
  service = codes "kv";
  path = some path;
  query = none;
  fragment = none;
})

abbrev capability : Str → Str → Capability Str
capability path ability = record { resource = notes path; ability = ability; caveats = [] }

abbrev grant : Str → Str → Str → ℕ → DelegationRow Str
grant delegator delegatee unused n = record {
  id = id n;
  delegator = delegator;
  delegatee = delegatee;
  expiry = some 100;
  not_before = none;
  facts = none;
}

-- Alice's grant to Bob, Bob's to Carol, and Alice's grant of control over the second to Bob.
abbrev store : Db Str
store = record {
  delegations = grant alice bob [] 1 ∷ grant bob carol [] 2 ∷ grant alice bob [] 3 ∷ [];
  abilities =
      record {
        delegation = id 1;
        resource = notes (codes "notes");
        ability = codes "tinycloud.kv/del";
        caveats = [];
      }
      ∷ record {
        delegation = id 2;
        resource = notes (codes "notes/a");
        ability = codes "tinycloud.kv/del";
        caveats = [];
      }
      ∷ record {
        delegation = id 3;
        resource = other (codes "urn:cid:" ++ id 2);
        ability = codes "tinycloud.delegation/revoke";
        caveats = [];
      }
      ∷ [];
  links = record { child = id 2; parent = id 1 } ∷ [];
  revocations = [];
}

-- Bob passes a part of his grant on to Carol.
abbrev sharing : DelegationInfo Str
sharing = record {
  capabilities = capability (codes "notes/a") (codes "tinycloud.kv/delete") ∷ [];
  delegator = bob;
  delegate = carol;
  parents = id 1 ∷ [];
  expiry = some 90;
  not_before = none;
}

-- Carol uses it.
abbrev use_it : InvocationInfo Str
use_it = record {
  capabilities = capability (codes "notes/a/b") (codes "tinycloud.kv/delete") ∷ [];
  invoker = carol;
  parents = id 2 ∷ [];
}

sharing_accepted : Delegation.validate strings hex store sharing ≡ ok tt
unfolding Delegation.validate is_root_authority did_principal_matches principal_did canonicalize_did
    list_eq option_eq parse_pkh_did strip_prefix split_once is_did is_revoked first_revoked_ancestor
    dedup sort traverse parents_of search_candidates extract_sql_caveat contain_extracted
    is_candidate resource_extends extends starts_with ends_with_byte get_byte contains_byte
    Actions.ability_matches Ability.ability_matches parent_abilities Registry.resolve_alias
    Registry.implied_actions Delegation.cited_parents Delegation.ensure_all_active
    ensure_parent_active Delegation.parent_is_terminal Delegation.check_time Delegation.expiry_valid
    Delegation.not_before_valid Delegation.check_capabilities Delegation.check_capability
    Delegation.caveats_contain_child
sharing_accepted = refl

sharing-Supported :
    (is_root_authority strings hex (capability (codes "notes/a") (codes "tinycloud.kv/delete")) bob
      ≡ true)
    ⊎ (DelegationSound.Supported strings hex store sharing
          (capability (codes "notes/a") (codes "tinycloud.kv/delete"))
        × DelegationSound.ParentsLive strings hex store sharing)
sharing-Supported =
    DelegationSound.validate-Supported strings hex store sharing
      (capability (codes "notes/a") (codes "tinycloud.kv/delete")) sharing_accepted (inl refl)

not_root :
    is_root_authority strings hex (capability (codes "notes/a") (codes "tinycloud.kv/delete")) bob
    ≡ false
unfolding is_root_authority did_principal_matches principal_did canonicalize_did list_eq
    parse_pkh_did strip_prefix split_once is_did
not_root = refl

sharing-ParentsLive : DelegationSound.ParentsLive strings hex store sharing
sharing-ParentsLive =
    elim (DelegationSound.validate-Supported strings hex store sharing
      (capability (codes "notes/a") (codes "tinycloud.kv/delete")) sharing_accepted (inl refl)) [
        | inl e ↦ absurd (ground (arith, e, not_root))
        | inr (s, live) ↦ live
      ]

sharing_capabilities-Supported :
    (c : Capability Str)
    → In c sharing.capabilities
    → (is_root_authority strings hex c bob ≡ true)
      ⊎ DelegationSound.Supported strings hex store sharing c
sharing_capabilities-Supported c m =
    elim (DelegationSound.validate-Supported strings hex store sharing c sharing_accepted m) [
      | inl e ↦ inl e
      | inr (s, live) ↦ inr s
    ]

validate_complete_example : Delegation.validate strings hex store sharing ≡ ok tt
validate_complete_example =
    validate_complete strings hex store sharing sharing-ParentsLive sharing_capabilities-Supported

chain_checked : check_parent store 50 use_it.capabilities (grant bob carol [] 2) ≡ ok tt
unfolding check_parent is_revoked first_revoked_ancestor dedup sort traverse parents_of list_eq
    expired too_early
chain_checked = refl

chain_walked : ancestor_chain_ids store.links (id 2) ≡ ok (id 2 ∷ id 1 ∷ [])
unfolding ancestor_chain_ids dedup sort traverse parents_of list_eq
chain_walked = refl

chain-FewParents : FewParents store.links (id 2 ∷ id 1 ∷ [])
chain-FewParents a m = omega (arith, length-parents_of store.links a)

chain_up : Ancestor store.links (id 2) (id 1)
unfolding parents_of list_eq
chain_up = up (inl refl) self

check_parent-chain_example :
    (is_revoked store.revocations (id 1) ≡ false)
    × (expired 50 (some 100) ≡ false)
    × (too_early 50 none ≡ false)
check_parent-chain_example =
    check_parent-chain store 50 use_it.capabilities (grant bob carol [] 2) (grant alice bob [] 1)
      (id 2 ∷ id 1 ∷ []) chain_checked chain_walked chain-FewParents (inl refl) chain_up

-- Bob revokes what he passed on, with the control that Alice gave him as proof.
abbrev withdrawal : RevocationInfo
withdrawal = record { parents = id 3 ∷ []; revoked = id 2; revoker = bob }

abbrev withdrawn : Db Str
withdrawn = insert_revocation store (id 9) bob (id 2) (id 3 ∷ [])

controlled :
    control_proof_decision hex cid_text store 50 bob
      (id 3 ∷ [])
      (codes "tinycloud.delegation/revoke")
      (id 2)
    ≡ persistent_principal alice
unfolding control_proof_decision did_principal_matches principal_did canonicalize_did list_eq
    parse_pkh_did strip_prefix split_once is_did is_revoked ancestor_chain_ids dedup sort traverse
    parents_of expired too_early abilities_of
controlled = refl

control_proof_decision-persistent_example :
    (proof : Hash) × (parent : DelegationRow Str) × (a : AbilityRow Str) × (ids : List Hash) × (id 3
        ∷ []
      ≡ proof ∷ [])
    × (parent.delegator ≡ alice)
    × ProvesControl hex cid_text store 50 bob proof
        (codes "tinycloud.delegation/revoke")
        (id 2)
        parent
        a
        ids
control_proof_decision-persistent_example =
    control_proof_decision-persistent hex cid_text store 50 bob
      (codes "tinycloud.delegation/revoke") (id 2) (id 3 ∷ []) alice controlled

withdrawal_processed :
    process_revocation hex cid_text store 50 withdrawal (id 9) ≡ ok (id 9, withdrawn)
unfolding process_revocation control_proof_decision did_principal_matches principal_did
    canonicalize_did list_eq parse_pkh_did strip_prefix split_once is_did is_revoked
    ancestor_chain_ids dedup sort traverse parents_of expired too_early abilities_of space
withdrawal_processed = refl

process_revocation-ensure_parent_active_example :
    ensure_parent_active withdrawn (id 2) ≡ err (parent_revoked (id 2))
process_revocation-ensure_parent_active_example =
    process_revocation-ensure_parent_active hex cid_text store withdrawn 50 withdrawal (id 9) (id 9)
      withdrawal_processed (λ row m e. absurd m)
