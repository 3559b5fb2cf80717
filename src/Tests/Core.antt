-- ===== src/Tests/Core.antt =====
-- The theorems of tinycloud-core's modules at concrete inputs. The JSON values of the examples are
-- strings.
use tinycloud_node.Common.{
  contains_byte, split_char, if◌then◌else◌, ℕ, ◌≡◌, refl, ◌↔◌, inl, inr, List, [], ◌∷◌, Option,
  none, some, true, false, In, arith, length, ◌≤◌, Result, ok, reverse, starts_with, strip_prefix,
  ends_with_byte, get_byte,
}
use tinycloud_node.Common.Classes.{◌==◌, Str, codes, List_eq, Nat_eq, list_eq, option_eq}
use tinycloud_node.Common.Sort.{sort, dedup}
use tinycloud_node.Auth.Registry as AuthRegistry
use tinycloud_node.Auth.Resource.{extends}
use tinycloud_node.Core.Json.{Json, get}
use tinycloud_node.Core.Policy.Paths.{normalize_path, percent_decode_unreserved}
use tinycloud_node.Core.Policy.Registry
use tinycloud_node.Core.Policy.Actions
use tinycloud_node.Core.Policy.Actions.Agree.{registries_agree}
use tinycloud_node.Core.Policy.SqlCaveat.{
  FixedParam, SqlConstrainedStatementCaveat, contains, contains_statements, contains_statement,
  contains_params,
}
use tinycloud_node.Core.Policy.SqlCaveat.Contains.{Contains, contains_iff, contains_trans}
use tinycloud_node.Core.Policy.Capability.{
  PolicyCapability, parse, check_keys, check_service, check_space, capability_contains,
  actions_granted, caveats_contained,
}
use tinycloud_node.Core.Policy.Capability.Parse.{IsGiven, IsValid, parse-IsValid}
use tinycloud_node.Core.Policy.Capability.Contains.{capability_contains_trans}
use tinycloud_node.Core.Resource.{Resource, tiny_cloud, resource_extends}
use tinycloud_node.Core.Resource.Extends.{resource_extends_trans}
use tinycloud_node.Core.Traversal.{
  Hash, Link, RevocationRow, ChainTraversalError, ancestor_chain_ids_for_roots, ancestor_chain_ids,
  traverse, push_parents, parents_of, is_revoked, first_revoked_ancestor, traversal_fuel,
  max_chain_traversal_nodes,
}
use tinycloud_node.Core.Traversal.Sound.{Ancestor, self, up, ancestor_chain_ids_for_roots_sound}
use tinycloud_node.Core.Traversal.Fuel.{
  ancestor_chain_ids_for_roots_ends, ancestor_chain_ids_for_roots_bound,
}
use tinycloud_node.Core.Traversal.Complete.{FewParents, ancestor_chain_ids_for_roots_complete}
use tinycloud_node.Core.Traversal.Revoked.{first_revoked_ancestor_complete}
use tinycloud_node.Tests.Hex.{hex}

abbrev strings : Json
strings = record {
  Value = Str;
  as_object = λ v. none;
  as_array = λ v. none;
  as_str = λ v. some v;
  as_bool = λ v. none;
  as_i64 = λ v. none;
  value_eq = List_eq;
}

registries_agree_example :
    (Registry.accepted_actions (codes "tinycloud.kv")
      ≡ AuthRegistry.accepted_actions (codes "tinycloud.kv"))
    × (Registry.resolve_alias (codes "tinycloud.kv")
        ≡ AuthRegistry.resolve_alias (codes "tinycloud.kv"))
    × (Registry.implied_actions (codes "tinycloud.kv")
        ≡ AuthRegistry.implied_actions (codes "tinycloud.kv"))
registries_agree_example = registries_agree (codes "tinycloud.kv")

-- A caveat whose statement binds the given parameters.
abbrev caveat : List (FixedParam Str) → SqlConstrainedStatementCaveat Str
caveat fixed = record {
  read_only = true;
  statements =
      record { name = codes "own"; sql = codes "SELECT * FROM t WHERE o = ?"; fixed_params = fixed }
      ∷ [];
}

abbrev owner : FixedParam Str
owner = record { index = 0; value = codes "alice" }

abbrev year : FixedParam Str
year = record { index = 1; value = codes "2025" }

contains_iff_example :
    (contains strings (caveat (owner ∷ [])) (caveat (year ∷ [])) ≡ ok tt)
    ↔ Contains strings (caveat (owner ∷ [])) (caveat (year ∷ []))
contains_iff_example = contains_iff strings (caveat (owner ∷ [])) (caveat (year ∷ []))

free-owner : contains strings (caveat []) (caveat (owner ∷ [])) ≡ ok tt
unfolding contains contains_statements contains_statement contains_params list_eq
free-owner = refl

owner-both : contains strings (caveat (owner ∷ [])) (caveat (year ∷ owner ∷ [])) ≡ ok tt
unfolding contains contains_statements contains_statement contains_params list_eq
owner-both = refl

contains_trans_example : contains strings (caveat []) (caveat (year ∷ owner ∷ [])) ≡ ok tt
contains_trans_example =
    contains_trans strings (caveat []) (caveat (owner ∷ [])) (caveat (year ∷ owner ∷ [])) free-owner
      owner-both

abbrev grant : Str → Str → Option Str → PolicyCapability Str
grant path action caveats = record {
  service = codes "tinycloud.kv";
  space = codes "s";
  path = path;
  actions = action ∷ [];
  caveats = caveats;
}

abbrev kv_delete : Str
kv_delete = codes "tinycloud.kv/delete"

abbrev kv_del : Str
kv_del = codes "tinycloud.kv/del"

folder-inner :
    capability_contains strings
      (grant (codes "a/") kv_delete none)
      (grant (codes "a/b/") kv_del (some (codes "c")))
    ≡ ok tt
unfolding capability_contains actions_granted caveats_contained list_eq Actions.path_contains
    ends_with_byte strip_prefix Actions.expand_granted_actions Registry.implied_actions
    Registry.resolve_alias
folder-inner = refl

inner-item :
    capability_contains strings
      (grant (codes "a/b/") kv_del (some (codes "c")))
      (grant (codes "a/b/c") kv_delete (some (codes "c")))
    ≡ ok tt
unfolding capability_contains actions_granted caveats_contained list_eq Actions.path_contains
    ends_with_byte strip_prefix Actions.expand_granted_actions Registry.implied_actions
    Registry.resolve_alias
inner-item = refl

capability_contains_trans_example :
    capability_contains strings
      (grant (codes "a/") kv_delete none)
      (grant (codes "a/b/c") kv_delete (some (codes "c")))
    ≡ ok tt
capability_contains_trans_example =
    capability_contains_trans strings (grant (codes "a/") kv_delete none)
      (grant (codes "a/b/") kv_del (some (codes "c")))
      (grant (codes "a/b/c") kv_delete (some (codes "c"))) folder-inner inner-item

abbrev kv : Option Str → Resource
kv path = tiny_cloud (record {
  space = record { base_did = codes "did:key:z6Mk"; name = codes "default" };
  service = codes "kv";
  path = path;
  query = none;
  fragment = none;
})

item-notes : resource_extends hex (kv (some (codes "notes/a"))) (kv (some (codes "notes"))) ≡ true
unfolding resource_extends list_eq option_eq extends starts_with ends_with_byte get_byte
item-notes = refl

notes-all : resource_extends hex (kv (some (codes "notes"))) (kv none) ≡ true
unfolding resource_extends list_eq option_eq extends starts_with ends_with_byte get_byte
notes-all = refl

resource_extends_trans_example : resource_extends hex (kv (some (codes "notes/a"))) (kv none) ≡ true
resource_extends_trans_example =
    resource_extends_trans hex (kv (some (codes "notes/a"))) (kv (some (codes "notes"))) (kv none)
      item-notes notes-all

-- A delegation with two parents that share a parent.
abbrev id : ℕ → Hash
id n = n ∷ []

abbrev diamond : List Link
diamond =
    record { child = id 4; parent = id 2 }
    ∷ record { child = id 4; parent = id 3 }
    ∷ record { child = id 3; parent = id 1 }
    ∷ record { child = id 2; parent = id 1 }
    ∷ []

abbrev diamond_ids : List Hash
diamond_ids = id 4 ∷ id 3 ∷ id 1 ∷ id 2 ∷ []

diamond-walk : ancestor_chain_ids_for_roots diamond (id 4 ∷ []) ≡ ok diamond_ids
unfolding ancestor_chain_ids_for_roots traverse push_parents parents_of sort dedup list_eq
diamond-walk = refl

pub length-parents_of : (links : List Link) (a : Hash) → length (parents_of links a) ≤ length links
unfolding parents_of
length-parents_of [] a = omega arith
length-parents_of (l ∷ links) a = ground (arith, length-parents_of links a)

diamond-FewParents : FewParents diamond diamond_ids
diamond-FewParents a m = omega (arith, length-parents_of diamond a)

ancestor_chain_ids_for_roots_sound_example :
    (r : Hash) × In r (id 4 ∷ []) × Ancestor diamond r (id 1)
ancestor_chain_ids_for_roots_sound_example =
    ancestor_chain_ids_for_roots_sound diamond (id 4 ∷ []) diamond_ids (id 1) diamond-walk
      (inr (inr (inl refl)))

diamond_up : Ancestor diamond (id 4) (id 1)
unfolding parents_of list_eq
diamond_up = up (inl refl) (up (inl refl) self)

ancestor_chain_ids_for_roots_complete_example : In (id 1) diamond_ids
ancestor_chain_ids_for_roots_complete_example =
    ancestor_chain_ids_for_roots_complete diamond (id 4 ∷ []) diamond_ids (id 4) (id 1) diamond-walk
      diamond-FewParents (inl refl) diamond_up

ancestor_chain_ids_for_roots_bound_example : length diamond_ids ≤ max_chain_traversal_nodes
ancestor_chain_ids_for_roots_bound_example =
    ancestor_chain_ids_for_roots_bound diamond (id 4 ∷ []) diamond_ids diamond-walk

few_roots : length (dedup (sort (id 4 ∷ []))) ≤ max_chain_traversal_nodes
unfolding dedup sort
few_roots = omega arith

ancestor_chain_ids_for_roots_ends_example :
    (r : Result ChainTraversalError (List Hash)) × (traverse diamond traversal_fuel []
        (reverse (dedup (sort (id 4 ∷ []))))
      ≡ some r)
    × (ancestor_chain_ids_for_roots diamond (id 4 ∷ []) ≡ r)
ancestor_chain_ids_for_roots_ends_example =
    ancestor_chain_ids_for_roots_ends diamond (id 4 ∷ []) few_roots

-- The revocation of a delegation outside the diamond.
abbrev elsewhere : List RevocationRow
elsewhere = record { id = id 9; revoker = codes "did:key:owner"; revoked = id 7 } ∷ []

diamond_active : is_revoked elsewhere (id 4) ≡ false
unfolding is_revoked list_eq
diamond_active = refl

diamond_clean : first_revoked_ancestor diamond elsewhere (id 4) ≡ ok none
unfolding first_revoked_ancestor ancestor_chain_ids ancestor_chain_ids_for_roots traverse
    push_parents parents_of sort dedup list_eq is_revoked
diamond_clean = refl

diamond-chain : ancestor_chain_ids diamond (id 4) ≡ ok diamond_ids
unfolding ancestor_chain_ids
diamond-chain = diamond-walk

first_revoked_ancestor_complete_example : is_revoked elsewhere (id 1) ≡ false
first_revoked_ancestor_complete_example =
    first_revoked_ancestor_complete diamond elsewhere (id 4) (id 1) diamond_ids diamond_active
      diamond_clean diamond-chain diamond-FewParents diamond_up

-- JSON values by name: one of them is an object that describes a capability.
abbrev named : Json
named = record {
  Value = Str;
  as_object = λ v.
      if v == codes "capability"
      then some (
          (codes "service", codes "tinycloud.kv")
          ∷ (codes "space", codes "s")
          ∷ (codes "path", codes "a/")
          ∷ (codes "actions", codes "list")
          ∷ [])
      else none;
  as_array = λ v. if v == codes "list" then some (codes "tinycloud.kv/get" ∷ []) else none;
  as_str = λ v. some v;
  as_bool = λ v. none;
  as_i64 = λ v. none;
  value_eq = List_eq;
}

abbrev named_capability : PolicyCapability Str
named_capability = record {
  service = codes "tinycloud.kv";
  space = codes "s";
  path = codes "a/";
  actions = codes "tinycloud.kv/get" ∷ [];
  caveats = none;
}

named_parses : parse named (λ s. s) (codes "capability") ≡ ok named_capability
unfolding parse list_eq check_keys get check_service Actions.accepted_actions
    AuthRegistry.accepted_actions check_space contains_byte starts_with normalize_path split_char
    percent_decode_unreserved dedup sort
named_parses = refl

parse-IsValid_example :
    (raw_path : Str) × (accepted : List Str) × IsGiven named
      (λ s. s)
      (codes "capability")
      named_capability
      raw_path
    × IsValid named (λ s. s) named_capability raw_path accepted
parse-IsValid_example =
    parse-IsValid named (λ s. s) (codes "capability") named_capability named_parses
