-- ===== src/Auth/Resource.antt =====
-- tinycloud-auth/src/resource.rs: space and resource identifiers, their text, their parsing from a
-- URI that is taken apart already, and when one resource lies under another.
pub mod Extends
pub mod Paths
use tinycloud_node.Common.{
  ℕ, List, [], ◌∷◌, ◌++◌, Option, none, some, Bool, true, false, ◌&&◌, ◌||◌, not, if◌then◌else◌,
  length, drop, starts_with, ends_with_byte, contains_byte, split_once, rsplit_once, str_len,
  as_bytes, get_byte, is_some, is_empty, Result, ok, err, ◌>>=◌, ◌>>◌, require, ok_or,
}
use tinycloud_node.Common.Classes.{
  ◌==◌, Eq, Str, codes, list_eq, option_eq, List_eq, Option_eq, Nat_eq,
}
use tinycloud_node.Auth.Identity.{IdentityError, canonicalize_did}

pub record SpaceId : Type 0 where
  pub base_did : Str
  pub name : Str

pub record ResourceId : Type 0 where
  pub space : SpaceId
  pub service : Str
  pub path : Option Str
  pub query : Option Str
  pub fragment : Option Str

pub data ResourceCheckError : Type 0 where
  incorrect_space incorrect_service incorrect_fragment does_not_extend_path : ResourceCheckError

unfoldable pub space_eq : SpaceId → SpaceId → Bool
space_eq a b = a.base_did == b.base_did && a.name == b.name

-- The part of a DID behind `did:`.
unfoldable pub suffix : SpaceId → Str
suffix s = drop 4 s.base_did

unfoldable pub to_resource : SpaceId → Str → Option Str → Option Str → Option Str → ResourceId
to_resource s service path query fragment = record {
  space = s;
  service = service;
  path = path;
  query = query;
  fragment = fragment;
}

-- The `match` on the two paths: the extension does not lie under the base.
unfoldable pub leaves_path : Option Str → Option Str → Bool
unfolding str_len
leaves_path (some s) (some b) =
    not (starts_with s b)
    || not (
        ends_with_byte b'/' b
        || (str_len s == str_len b || get_byte (as_bytes s) (str_len b) == some b'/'))
leaves_path (some s) none = false
leaves_path none none = false
leaves_path none (some b) = true

unfoldable pub extends : ResourceId → ResourceId → Result ResourceCheckError (Unit {0})
unfolding leaves_path space_eq
extends self base =
    if not (space_eq base.space self.space)
    then err incorrect_space
    else if not (base.service == self.service)
    then err incorrect_service
    else if not (base.fragment == self.fragment)
    then err incorrect_fragment
    else if leaves_path self.path base.path
    then err does_not_extend_path
    else ok tt

-- `Display` of a space.
unfoldable pub space_text : SpaceId → Str
unfolding suffix
space_text s = codes "tinycloud:" ++ (suffix s ++ (codes ":" ++ s.name))

-- A text behind its mark, if there is one.
unfoldable pub marked : Str → Option Str → Str
marked mark none = []
marked mark (some s) = mark ++ s

-- `Display` of a resource.
unfoldable pub resource_text : ResourceId → Str
unfolding space_text marked
resource_text r =
    space_text r.space
    ++ (codes "/"
        ++ (r.service
            ++ (marked (codes "/") r.path
                ++ (marked (codes "?") r.query ++ marked (codes "#") r.fragment))))

-- A URI, as the iri-string package takes it apart.
pub record Uri : Type 0 where
  pub scheme : Str
  pub authority : Option Str
  pub path : Str
  pub query : Option Str
  pub fragment : Option Str
  pub is_normalized : Bool

pub data KriParseError : Type 0 where
  incorrect_form uri_string_parse did_parse : KriParseError
  identity : IdentityError → KriParseError

abbrev lift_identity : {A : Type 0} → Result IdentityError A → Result KriParseError A
lift_identity (ok a) = ok a
lift_identity (err e) = err (identity e)

-- The name of a space is not empty.
unfoldable pub space_parts : Str → Option (Str × Str)
space_parts s = elim (rsplit_once b':' s) [
  | none ↦ none
  | some parts ↦ if is_empty parts.1 then none else some parts
]

-- The service, and the path behind it.
unfoldable pub service_parts : Str → Str × Option Str
service_parts s = elim (split_once b'/' s) [ none ↦ (s, none) | some rest ↦ (rest.0, some rest.1) ]

-- The space, and the service with the path, of a resource's URI path.
unfoldable pub resource_parts : Str → Option ((Str × Str) × (Str × Option Str))
unfolding space_parts service_parts
resource_parts s = elim (split_once b'/' s) [
  | none ↦ none
  | some halves ↦ elim (space_parts halves.0) [
    | none ↦ none
    | some space ↦ some (space, service_parts halves.1)
  ]
]

-- `valid_did` is the check of the ssi package that a text is a DID.
module _ (encode_eip55 : List ℕ → Str) (valid_did : Str → Bool) where
  unfoldable pub did_from_suffix : Str → Result KriParseError Str
  did_from_suffix s = do
    did ← lift_identity (canonicalize_did encode_eip55 (codes "did:" ++ s))
    require (valid_did did) did_parse
    ok did

  unfoldable pub space_of_uri : Uri → Result KriParseError SpaceId
  unfolding did_from_suffix space_parts
  space_of_uri uri =
      if not (uri.scheme == codes "tinycloud")
        || (is_some uri.authority
            || (is_some uri.query
                || (is_some uri.fragment
                    || (ends_with_byte b':' uri.path
                        || (contains_byte b'/' uri.path || not uri.is_normalized)))))
      then err incorrect_form
      else elim (space_parts uri.path) [
        | none ↦ err incorrect_form
        | some parts ↦
            did_from_suffix parts.0 >>= λ did. ok (record { base_did = did; name = parts.1 })
      ]

  unfoldable pub resource_of_uri : Uri → Result KriParseError ResourceId
  unfolding did_from_suffix resource_parts to_resource
  resource_of_uri uri =
      if not (uri.scheme == codes "tinycloud")
        || (is_some uri.authority || (not (contains_byte b'/' uri.path) || not uri.is_normalized))
      then err incorrect_form
      else elim (resource_parts uri.path) [
        | none ↦ err incorrect_form
        | some parts ↦ do
          did ← did_from_suffix parts.0.0
          ok (
              to_resource (record { base_did = did; name = parts.0.1 }) parts.1.0 parts.1.1
                uri.query uri.fragment)
      ]

  -- `FromStr` of a resource. The argument is `UriStr::new` of the iri-string package.
  unfoldable pub resource_from_str : (Str → Option Uri) → Str → Result KriParseError ResourceId
  unfolding resource_of_uri
  resource_from_str new_uri s = ok_or (new_uri s) uri_string_parse >>= resource_of_uri

  -- `FromStr` of a space.
  unfoldable pub space_from_str : (Str → Option Uri) → Str → Result KriParseError SpaceId
  unfolding space_of_uri
  space_from_str new_uri s = ok_or (new_uri s) uri_string_parse >>= space_of_uri
