-- ===== src/Core/PolicyAuthority/Capabilities.antt =====
-- tinycloud-core/src/policy_authority/mod.rs and policy_capability/mod.rs: canonical capabilities,
-- their hash, and the containment of sets of them.
pub mod Within
use tinycloud_node.Common.{
  ℕ, ◌/◌, ◌%◌, ◌+◌, ◌≡◌, List, [], ◌∷◌, ◌++◌, Option, none, some, Bool, true, false, ◌&&◌, ◌||◌,
  not, if◌then◌else◌, ltb, map, contains, all, any, is_ok, Result, ok, err, ◌>>=◌, ◌>>◌, require,
}
use tinycloud_node.Common.Classes.{Eq, ◌==◌, Str, codes, List_eq, Nat_eq}
use tinycloud_node.Common.Sort.{str_le}
use tinycloud_node.Core.Json.{Json, get, and_then}
use tinycloud_node.Core.Policy.Capability
use tinycloud_node.Core.Policy.Capability.{PolicyCapability, parse, capability_contains}
use tinycloud_node.Core.PolicyAuthority.Errors
use tinycloud_node.Core.PolicyAuthority.Errors.{AuthorityError}
use tinycloud_node.Core.PolicyAuthority.Platform.{Platform}

-- The actions that the kernel allows for a service.
unfoldable pub action_allowed : Str → Str → Bool
action_allowed service action =
    if service == codes "tinycloud.kv"
    then contains
        (codes "tinycloud.kv/get"
          ∷ codes "tinycloud.kv/list"
          ∷ codes "tinycloud.kv/metadata"
          ∷ codes "tinycloud.kv/put"
          ∷ codes "tinycloud.kv/delete"
          ∷ [])
        action
    else if service == codes "tinycloud.sql"
    then contains
        (codes "tinycloud.sql/read"
          ∷ codes "tinycloud.sql/select"
          ∷ codes "tinycloud.sql/write"
          ∷ [])
        action
    else if service == codes "tinycloud.vfs"
    then contains
        (codes "tinycloud.vfs/get"
          ∷ codes "tinycloud.vfs/list"
          ∷ codes "tinycloud.vfs/metadata"
          ∷ codes "tinycloud.vfs/put"
          ∷ codes "tinycloud.vfs/delete"
          ∷ [])
        action
    else false

abbrev hex_digit : ℕ → ℕ
hex_digit n = if ltb n 10 then b'0' + n else 87 + n

unfoldable pub hex_encode : List ℕ → Str
hex_encode [] = []
hex_encode (b ∷ bytes) = hex_digit (b / 16) ∷ hex_digit (b % 16) ∷ hex_encode bytes

-- `unwrap_or("")`.
abbrev or_empty : Option Str → Str
or_empty none = []
or_empty (some s) = s

abbrev requested_capabilities_domain : Str
requested_capabilities_domain = codes "xyz.tinycloud.policy/RequestedCapabilities/v0" ++ 0 ∷ []

module _ (platform : Platform) where
  open platform use {json, text, array, object, nfc, canonicalize, sha256}
  open json use {Value, as_object, as_str, value_eq}

  unfoldable pub canonical_value : PolicyCapability Value → Value
  canonical_value self = object (
      (codes "actions", array (map text self.actions)) ∷ caveat_entry self.caveats
      ++ (codes "path", text self.path)
        ∷ (codes "service", text self.service)
        ∷ (codes "space", text self.space)
        ∷ [])
    where
      caveat_entry : Option Value → List (Str × Value)
      caveat_entry none = []
      caveat_entry (some v) = (codes "caveats", v) ∷ []

  -- A text field of a canonical value.
  unfoldable field : Str → Value → Str
  field name v = or_empty (and_then (and_then (as_object v) (get name)) as_str)

  -- The comparison of the sort: by service, then space, then path.
  unfoldable value_le : Value → Value → Bool
  unfolding field
  value_le left right =
      if not (field (codes "service") left == field (codes "service") right)
      then str_le (field (codes "service") left) (field (codes "service") right)
      else if not (field (codes "space") left == field (codes "space") right)
      then str_le (field (codes "space") left) (field (codes "space") right)
      else str_le (field (codes "path") left) (field (codes "path") right)

  unfoldable insert_value : Value → List Value → List Value
  unfolding value_le
  insert_value x [] = x ∷ []
  insert_value x (y ∷ ys) =
      let rest = insert_value x ys in if value_le x y then x ∷ y ∷ ys else y ∷ rest

  -- `sort_by`, which keeps the order of equal values.
  unfoldable sort_values : List Value → List Value
  unfolding insert_value
  sort_values [] = []
  sort_values (x ∷ xs) = insert_value x (sort_values xs)

  unfoldable pub requested_capabilities_hash_hex : List (PolicyCapability Value) → Str
  unfolding canonical_value sort_values hex_encode
  requested_capabilities_hash_hex capabilities = hex_encode (
      sha256 (
        requested_capabilities_domain
        ++ canonicalize (array (sort_values (map canonical_value capabilities)))))

  -- The check of one value.
  unfoldable pub canonical_capability : Value → Result AuthorityError (PolicyCapability Value)
  unfolding action_allowed canonical_value
  canonical_capability value = elim (parse json nfc value) [
    | err _ ↦ err Errors.capability_noncanonical
    | ok capability ↦ do
      require (all (action_allowed capability.service) capability.actions)
          Errors.capability_noncanonical
      require (value_eq.beq (canonical_value capability) value) Errors.capability_noncanonical
      ok capability
  ]

  unfoldable pub canonical_capabilities :
      List Value → Result AuthorityError (List (PolicyCapability Value))
  unfolding canonical_capability
  canonical_capabilities [] = ok []
  canonical_capabilities (v ∷ vs) = do
    capability ← canonical_capability v
    rest ← canonical_capabilities vs
    ok (capability ∷ rest)

  -- Every child is contained in one of the parents.
  unfoldable pub all_contained :
      List (PolicyCapability Value) → List (PolicyCapability Value) → Bool
  all_contained children parents =
      all (λ child. any (λ parent. is_ok (capability_contains json parent child)) parents) children

  unfoldable pub capability_set_contained : List Value → List Value → Result AuthorityError Bool
  unfolding canonical_capabilities all_contained
  capability_set_contained child_values parent_values = do
    children ← canonical_capabilities child_values
    parents ← canonical_capabilities parent_values
    ok (all_contained children parents)
