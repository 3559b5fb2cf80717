-- ===== src/Auth/Resource/Paths.antt =====
-- The text of a resource, read back.
use tinycloud_node.Common.{
  ℕ, ◌≡◌, refl, sym, List, ◌∷◌, ◌++◌, Option, none, some, Bool, true, false, arith, ok,
  contains_byte, contains_byte-append, split_once-append, split_once_of_none, rsplit_once-append,
  is_empty, starts_with, [],
}
use mathlib.Core.List.{append_assoc, append-nil}
use tinycloud_node.Common.Classes.{Str, codes, list_eq}
use tinycloud_node.Auth.Identity.{canonicalize_did}
use tinycloud_node.Auth.Resource.{
  ResourceId, Uri, space_parts, service_parts, resource_parts, suffix, marked, resource_text,
  did_from_suffix, resource_of_uri, resource_from_str, to_resource,
}

abbrev slash : ℕ
slash = b'/'

-- The path of the URI that a resource prints as.
unfoldable pub path_text : ResourceId → Str
path_text r =
    suffix r.space ++ b':' ∷ (r.space.name ++ slash ∷ (r.service ++ marked (codes "/") r.path))

-- The text of a URI without authority under the scheme.
abbrev pub uri_text : Str → Option Str → Option Str → Str
uri_text path query fragment =
    codes "tinycloud:" ++ (path ++ (marked (codes "?") query ++ marked (codes "#") fragment))

-- What RFC 3986 says of the texts of the form `tinycloud:path?query#fragment`: one that is a URI is
-- taken apart at its first marks. `is_uri` is the syntax test of the iri-string package, and
-- `is_normalized` its test of the same name.
pub record IsUriParser (new_uri : Str → Option Uri) (is_uri is_normalized : Str → Bool)
    : Type 0 where
  pub taken_apart :
      (path : Str) (query fragment : Option Str)
      → is_uri (uri_text path query fragment) ≡ true
      → starts_with path (codes "//") ≡ false
      → contains_byte b'?' path ≡ false
      → contains_byte b'#' path ≡ false
      → ((q : Str) → query ≡ some q → contains_byte b'#' q ≡ false)
      → new_uri (uri_text path query fragment)
        ≡ some (record {
          scheme = codes "tinycloud";
          authority = none;
          path = path;
          query = query;
          fragment = fragment;
          is_normalized = is_normalized (uri_text path query fragment);
        })

-- A space name without colons and slashes, and not empty; a service without slashes; a DID in
-- canonical form that the DID library accepts; a text that is a normalized URI; and no mark of a
-- query or a fragment before the query or in it.
pub record IsWellFormed (encode_eip55 : List ℕ → Str) (valid_did is_uri is_normalized : Str → Bool)
    (r : ResourceId) : Type 0 where
  pub did_form : codes "did:" ++ suffix r.space ≡ r.space.base_did
  pub canonical : canonicalize_did encode_eip55 r.space.base_did ≡ ok r.space.base_did
  pub valid : valid_did r.space.base_did ≡ true
  pub did_slash : contains_byte b'/' (suffix r.space) ≡ false
  pub name_slash : contains_byte b'/' r.space.name ≡ false
  pub name_colon : contains_byte b':' r.space.name ≡ false
  pub named : is_empty r.space.name ≡ false
  pub service_slash : contains_byte b'/' r.service ≡ false
  pub syntax : is_uri (resource_text r) ≡ true
  pub normalized : is_normalized (resource_text r) ≡ true
  pub no_query_mark : contains_byte b'?' (path_text r) ≡ false
  pub no_fragment_mark : contains_byte b'#' (path_text r) ≡ false
  pub query_marks : (q : Str) → r.query ≡ some q → contains_byte b'#' q ≡ false

service_parts-text :
    (service : Str) (path : Option Str)
    → contains_byte b'/' service ≡ false
    → service_parts (service ++ marked (codes "/") path) ≡ (service, path)
unfolding marked service_parts
service_parts-text service none h =
    rw (append-nil service) (rw (split_once_of_none b'/' service h, service_parts))
service_parts-text service (some p) h = rw (split_once-append b'/' service p h, service_parts)

space_parts-text :
    (s name : Str)
    → contains_byte b':' name ≡ false
    → is_empty name ≡ false
    → space_parts (s ++ b':' ∷ name) ≡ some (s, name)
unfolding space_parts
space_parts-text s name h k = rw (rsplit_once-append b':' s name h, space_parts, k)

resource_parts-path_text :
    (r : ResourceId)
    → contains_byte b'/' (suffix r.space) ≡ false
    → contains_byte b'/' r.space.name ≡ false
    → contains_byte b':' r.space.name ≡ false
    → is_empty r.space.name ≡ false
    → contains_byte b'/' r.service ≡ false
    → resource_parts (path_text r) ≡ some ((suffix r.space, r.space.name), (r.service, r.path))
unfolding resource_parts path_text
resource_parts-path_text r h1 h2 h3 h4 h5 =
    let space = suffix r.space ++ b':' ∷ r.space.name in
    let rest = r.service ++ marked (codes "/") r.path in
    let no_slash : contains_byte b'/' space ≡ false =
      rw (contains_byte-append b'/' (suffix r.space) (b':' ∷ r.space.name), h1)
        (unfold contains_byte in h2) in
    let whole : suffix r.space ++ b':' ∷ (r.space.name ++ b'/' ∷ rest) ≡ space ++ b'/' ∷ rest =
      sym (append_assoc (suffix r.space) (b':' ∷ r.space.name) (b'/' ∷ rest)) in
    rw (
      whole,
      split_once-append b'/' space rest no_slash,
      resource_parts,
      space_parts-text (suffix r.space) r.space.name h3 h4,
      service_parts-text r.service r.path h5,
    )

did_from_suffix-canonical :
    (encode_eip55 : List ℕ → Str) (valid_did : Str → Bool) (did s : Str)
    → codes "did:" ++ s ≡ did
    → canonicalize_did encode_eip55 did ≡ ok did
    → valid_did did ≡ true
    → did_from_suffix encode_eip55 valid_did s ≡ ok did
unfolding did_from_suffix
did_from_suffix-canonical encode_eip55 valid_did did s e c v = rw (e, c, v)

path_text-contains_slash : (r : ResourceId) → contains_byte b'/' (path_text r) ≡ true
unfolding path_text contains_byte
path_text-contains_slash r =
    let s = suffix r.space in
    let name = r.space.name in
    let rest = r.service ++ marked (codes "/") r.path in
    ground (
      arith,
      contains_byte-append b'/' s (b':' ∷ (name ++ b'/' ∷ rest)),
      contains_byte-append b'/' name (b'/' ∷ rest),
    )

resource_text-uri_text :
    (r : ResourceId) → resource_text r ≡ uri_text (path_text r) r.query r.fragment
unfolding resource_text path_text
resource_text-uri_text r = simp append_assoc

-- A text without slashes before a colon does not begin as an authority does.
starts_with-colon :
    (s rest : Str)
    → contains_byte b'/' s ≡ false
    → starts_with (s ++ b':' ∷ rest) (codes "//") ≡ false
unfolding starts_with contains_byte
starts_with-colon [] rest h = refl
starts_with-colon (c ∷ s) rest h = ground arith

-- A well-formed resource is read back from its text: parsing the text that it prints as, with a URI
-- parser that follows RFC 3986, gives the resource.
pub resource_from_str-resource_text :
    (encode_eip55 : List ℕ → Str) (valid_did : Str → Bool) (new_uri : Str → Option Uri)
    (is_uri is_normalized : Str → Bool) (r : ResourceId)
    → IsUriParser new_uri is_uri is_normalized
    → IsWellFormed encode_eip55 valid_did is_uri is_normalized r
    → resource_from_str encode_eip55 valid_did new_uri (resource_text r) ≡ ok r
unfolding resource_from_str resource_of_uri list_eq to_resource path_text
resource_from_str-resource_text encode_eip55 valid_did new_uri is_uri is_normalized r parser w =
    let text = resource_text-uri_text r in
    let uri =
      parser.taken_apart (path_text r) r.query r.fragment (rw (← text) w.syntax)
        (starts_with-colon (suffix r.space) _ w.did_slash) w.no_query_mark w.no_fragment_mark
        w.query_marks in
    let normal : is_normalized (uri_text (path_text r) r.query r.fragment) ≡ true =
      rw (← text) w.normalized in
    rw (
      text,
      uri,
      normal,
      path_text-contains_slash r,
      resource_parts-path_text r w.did_slash w.name_slash w.name_colon w.named w.service_slash,
      did_from_suffix-canonical encode_eip55 valid_did r.space.base_did (suffix r.space) w.did_form
          w.canonical w.valid,
    )
