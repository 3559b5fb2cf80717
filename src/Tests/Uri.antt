-- ===== src/Tests/Uri.antt =====
-- A URI parser for the examples: it takes a text apart at the first marks.
use tinycloud_node.Common.{
  ℕ, ◌≡◌, refl, ◌∙◌, ap, [], ◌∷◌, ◌++◌, Option, none, some, true, false, contains_byte,
  contains_byte-append, split_once, split_once-append, split_once_of_none, starts_with,
  if◌then◌else◌,
}
use mathlib.Core.List.{append_assoc, append-nil}
use tinycloud_node.Common.Classes.{Str, codes}
use tinycloud_node.Auth.Resource.{Uri, marked}
use tinycloud_node.Auth.Resource.Paths.{uri_text, IsUriParser}

unfoldable cut : ℕ → Str → Str × Option Str
cut c s = elim (split_once c s) [ none ↦ (s, none) | some parts ↦ (parts.0, some parts.1) ]

cut-marked :
    (c : ℕ) (s : Str) (m : Option Str)
    → contains_byte c s ≡ false
    → cut c (s ++ marked (c ∷ []) m) ≡ (s, m)
unfolding marked cut
cut-marked c s none h = rw (append-nil s) (rw (cut, split_once_of_none c s h) refl)
cut-marked c s (some m) h = rw (cut, split_once-append c s m h) refl

-- The scheme and the path of a text without query and fragment.
unfoldable of_parts : Str → Option Str → Option Str → Option Uri
of_parts s query fragment = elim (split_once b':' s) [
  | none ↦ none
  | some parts ↦ some (record {
    scheme = parts.0;
    authority = if starts_with parts.1 (codes "//") then some [] else none;
    path = parts.1;
    query = query;
    fragment = fragment;
    is_normalized = true;
  })
]

unfoldable pub split_uri : Str → Option Uri
unfolding cut of_parts
split_uri s = let tail = cut b'#' s in let head = cut b'?' tail.0 in of_parts head.0 head.1 tail.1

marked-hash :
    (query : Option Str)
    → ((q : Str) → query ≡ some q → contains_byte b'#' q ≡ false)
    → contains_byte b'#' (marked (codes "?") query) ≡ false
unfolding marked contains_byte
marked-hash none h = refl
marked-hash (some q) h = h q refl

split_uri-marked :
    (s : Str) (query fragment : Option Str)
    → contains_byte b'?' s ≡ false
    → contains_byte b'#' s ≡ false
    → ((q : Str) → query ≡ some q → contains_byte b'#' q ≡ false)
    → split_uri ((s ++ marked (codes "?") query) ++ marked (codes "#") fragment)
      ≡ of_parts s query fragment
unfolding split_uri
split_uri-marked s query fragment question hash marks =
    let head = s ++ marked (codes "?") query in
    let no_hash : contains_byte b'#' head ≡ false =
      rw (contains_byte-append b'#' s (marked (codes "?") query), hash) (marked-hash query marks) in
    rw (cut-marked b'#' head fragment no_hash, cut-marked b'?' s query question) refl

of_parts-path :
    (path : Str) (query fragment : Option Str)
    → starts_with path (codes "//") ≡ false
    → of_parts (codes "tinycloud:" ++ path) query fragment
      ≡ some (record {
        scheme = codes "tinycloud";
        authority = none;
        path = path;
        query = query;
        fragment = fragment;
        is_normalized = true;
      })
unfolding of_parts contains_byte
of_parts-path path query fragment slashes =
    let split : split_once b':' (codes "tinycloud:" ++ path) ≡ some (codes "tinycloud", path) =
      split_once-append b':' (codes "tinycloud") path refl in
    rw (split, of_parts, slashes) refl

pub split_uri-IsUriParser : IsUriParser split_uri (λ s. true) (λ s. true)
unfolding contains_byte
split_uri-IsUriParser = record {
  taken_apart = λ path query fragment ok slashes question hash marks.
      let start = codes "tinycloud:" ++ path in
      let whole : uri_text path query fragment
          ≡ (start ++ marked (codes "?") query) ++ marked (codes "#") fragment =
        simp append_assoc in
      ap split_uri whole
      ∙ (split_uri-marked start query fragment question hash marks
          ∙ of_parts-path path query fragment slashes);
}
