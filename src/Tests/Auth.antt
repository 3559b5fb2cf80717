-- ===== src/Tests/Auth.antt =====
-- The theorems of tinycloud-auth's modules at concrete inputs.
use tinycloud_node.Common.{
  ◌≡◌, refl, ◌↔◌, ◌⊎◌, List, [], ◌∷◌, Option, none, some, true, arith, In, split_once, strip_prefix,
  starts_with, ends_with_byte, contains_byte, str_len, as_bytes, get_byte, ok,
}
use tinycloud_node.Common.Classes.{Str, codes, list_eq, option_eq}
use tinycloud_node.Common.Decimal.{parse_u64, print_u64, print_from}
use tinycloud_node.Auth.Registry.{resolve_alias, implied_actions}
use tinycloud_node.Auth.Ability.{
  ability_matches, path_contains, expand_actions, expand_from, push_all,
}
use tinycloud_node.Auth.Ability.Closure.{Grants, expand_actions_iff}
use tinycloud_node.Auth.Ability.Fuel.{expand_actions_total}
use tinycloud_node.Auth.Ability.Laws.{
  ability_matches_iff, ability_matches_trans, ability_matches-service, service_of,
}
use tinycloud_node.Auth.Ability.Paths.{Covers, path_contains_iff}
use tinycloud_node.Auth.Identity.{
  canonicalize_did, did_principal_matches, parse_pkh_did, parse_pkh_rest,
  canonicalize_eip155_address, address_bytes, hex_nibble, canonical_text, principal_did,
  same_principal, is_did,
}
use tinycloud_node.Auth.Identity.Canonical.{canonicalize_did_idem}
use tinycloud_node.Auth.Identity.Laws.{SharePrincipal, did_principal_matches_iff}
use tinycloud_node.Auth.Resource.{
  ResourceId, extends, leaves_path, space_eq, suffix, resource_from_str, resource_text, marked,
}
use tinycloud_node.Auth.Resource.Extends.{Extends, extends_iff}
use tinycloud_node.Auth.Resource.Paths.{IsWellFormed, path_text, resource_from_str-resource_text}
use tinycloud_node.Tests.Uri.{split_uri, split_uri-IsUriParser}
use tinycloud_node.Tests.Hex.{hex, digit, hex-IsEip55}

abbrev sql_all : Str
sql_all = codes "tinycloud.sql/*"

abbrev sql_read : Str
sql_read = codes "tinycloud.sql/read"

abbrev sql_admin : Str
sql_admin = codes "tinycloud.sql/admin"

abbrev sql_schema : Str
sql_schema = codes "tinycloud.sql/schema"

ability_matches_iff_example :
    (ability_matches sql_admin sql_read ≡ true) ↔ Grants sql_admin (resolve_alias sql_read)
ability_matches_iff_example = ability_matches_iff sql_admin sql_read

all-admin : ability_matches sql_all sql_admin ≡ true
unfolding ability_matches expand_actions expand_from push_all resolve_alias implied_actions list_eq
all-admin = refl

all-schema : ability_matches sql_all sql_schema ≡ true
unfolding ability_matches expand_actions expand_from push_all resolve_alias implied_actions list_eq
all-schema = refl

admin-schema : ability_matches sql_admin sql_schema ≡ true
unfolding ability_matches expand_actions expand_from push_all resolve_alias implied_actions list_eq
admin-schema = refl

ability_matches-service_example : service_of sql_all ≡ service_of sql_schema
ability_matches-service_example = ability_matches-service sql_all sql_schema all-schema

-- A chain of two steps in the registry.
ability_matches_trans_example : ability_matches sql_all sql_schema ≡ true
ability_matches_trans_example =
    ability_matches_trans sql_all sql_admin sql_schema all-admin admin-schema

expand_actions_total_example :
    (set : List Str) × (expand_actions (sql_all ∷ sql_read ∷ []) ≡ some set)
expand_actions_total_example = expand_actions_total (sql_all ∷ sql_read ∷ [])

admin-expanded : expand_actions (sql_admin ∷ []) ≡ some (sql_schema ∷ sql_admin ∷ [])
unfolding expand_actions expand_from push_all resolve_alias implied_actions list_eq
admin-expanded = refl

expand_actions_iff_example :
    (In sql_schema (sql_schema ∷ sql_admin ∷ []))
    ↔ ((a : Str) × In a (sql_admin ∷ []) × Grants a sql_schema)
expand_actions_iff_example =
    expand_actions_iff (sql_admin ∷ []) (sql_schema ∷ sql_admin ∷ []) sql_schema admin-expanded

path_contains_iff_example :
    (path_contains (codes "tinycloud.kv") (codes "notes/") (codes "notes/a") ≡ true)
    ↔ Covers (codes "tinycloud.kv") (codes "notes/") (codes "notes/a")
path_contains_iff_example =
    path_contains_iff (codes "tinycloud.kv") (codes "notes/") (codes "notes/a")

notes-work : path_contains (codes "tinycloud.kv") (codes "notes/") (codes "notes/work/") ≡ true
unfolding path_contains list_eq ends_with_byte strip_prefix
notes-work = refl

work-today :
    path_contains (codes "tinycloud.kv") (codes "notes/work/") (codes "notes/work/today") ≡ true
unfolding path_contains list_eq ends_with_byte strip_prefix
work-today = refl

-- An address in capitals, in small letters, and with a fragment.
abbrev did_upper : Str
did_upper = codes "did:pkh:eip155:1:0xF39FD6E51AAD88F6F4CE6AB8827279CFFFB92266"

abbrev did_lower : Str
did_lower = codes "did:pkh:eip155:1:0xf39fd6e51aad88f6f4ce6ab8827279cfffb92266"

abbrev did_session : Str
did_session = codes "did:pkh:eip155:1:0xf39fd6e51aad88f6f4ce6ab8827279cfffb92266#session"

upper-canonical : canonicalize_did hex did_upper ≡ ok did_lower
unfolding canonicalize_did parse_pkh_did parse_pkh_rest canonicalize_eip155_address address_bytes
    hex_nibble canonical_text hex digit parse_u64 print_u64 print_from split_once strip_prefix
    contains_byte str_len as_bytes
upper-canonical = refl

canonicalize_did_idem_example : canonicalize_did hex did_lower ≡ ok did_lower
canonicalize_did_idem_example =
    canonicalize_did_idem hex hex-IsEip55 did_upper did_lower upper-canonical

did_principal_matches_iff_example :
    (did_principal_matches hex did_upper did_session ≡ true)
    ↔ ((did_upper ≡ did_session) ⊎ SharePrincipal hex did_upper did_session)
did_principal_matches_iff_example = did_principal_matches_iff hex did_upper did_session

upper-lower : did_principal_matches hex did_upper did_lower ≡ true
unfolding did_principal_matches principal_did canonicalize_did parse_pkh_did parse_pkh_rest
    canonicalize_eip155_address address_bytes hex_nibble canonical_text hex digit parse_u64
    print_u64 print_from split_once strip_prefix contains_byte str_len as_bytes list_eq
    same_principal
upper-lower = refl

lower-session : did_principal_matches hex did_lower did_session ≡ true
unfolding did_principal_matches principal_did canonicalize_did parse_pkh_did parse_pkh_rest
    canonicalize_eip155_address address_bytes hex_nibble canonical_text hex digit parse_u64
    print_u64 print_from split_once strip_prefix contains_byte str_len as_bytes list_eq
    same_principal
lower-session = refl

abbrev kv : Option Str → ResourceId
kv path = record {
  space = record { base_did = codes "did:key:z6Mk"; name = codes "default" };
  service = codes "kv";
  path = path;
  query = none;
  fragment = none;
}

extends_iff_example :
    (extends (kv (some (codes "notes/a"))) (kv (some (codes "notes"))) ≡ ok tt)
    ↔ Extends (kv (some (codes "notes/a"))) (kv (some (codes "notes")))
extends_iff_example = extends_iff (kv (some (codes "notes/a"))) (kv (some (codes "notes")))

under-notes : extends (kv (some (codes "notes/a"))) (kv (some (codes "notes"))) ≡ ok tt
unfolding extends leaves_path space_eq list_eq option_eq starts_with strip_prefix ends_with_byte
    str_len as_bytes get_byte
under-notes = refl

under-root : extends (kv (some (codes "notes"))) (kv none) ≡ ok tt
unfolding extends leaves_path space_eq list_eq option_eq
under-root = refl

-- The resource with a path, a query and a fragment.
abbrev note : ResourceId
note = record (kv (some (codes "notes/a"))) {
  query = some (codes "v=1");
  fragment = some (codes "top");
}

note-IsWellFormed : IsWellFormed hex (λ did. true) (λ s. true) (λ s. true) note
unfolding canonicalize_did parse_pkh_did canonical_text is_did split_once strip_prefix contains_byte
    suffix path_text marked
note-IsWellFormed = record {
  did_form = refl;
  canonical = refl;
  valid = refl;
  did_slash = refl;
  name_slash = refl;
  name_colon = refl;
  named = refl;
  service_slash = refl;
  syntax = refl;
  normalized = refl;
  no_query_mark = refl;
  no_fragment_mark = refl;
  query_marks = λ q h. let same : codes "v=1" ≡ q = ground (arith, h) in rw (← same) refl;
}

resource_from_str-resource_text_example :
    resource_from_str hex (λ did. true) split_uri (resource_text note) ≡ ok note
resource_from_str-resource_text_example =
    resource_from_str-resource_text hex (λ did. true) split_uri (λ s. true) (λ s. true) note
      split_uri-IsUriParser note-IsWellFormed
