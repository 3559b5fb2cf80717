-- ===== src/Auth/Identity.antt =====
-- tinycloud-auth/src/identity.rs: DIDs in canonical form, and when two DID URLs name one principal.
-- The checksum spelling of an address (`encode_eip55`, of the siwe package) is a parameter. An
-- address error carries the position of the character that is no hexadecimal digit.
pub mod Canonical
pub mod Laws
use tinycloud_node.Common.{
  ℕ, zero, suc, ◌+◌, ◌-◌, ◌*◌, List, [], ◌∷◌, ◌++◌, Option, none, some, Bool, true, false, ◌&&◌,
  length, if◌then◌else◌, strip_prefix, starts_with, contains_byte, split_once, str_len, Result, ok,
  err, ◌>>=◌, ◌>>◌, require, ok_or, leb, ltb, not, nat_eq, is_some,
}
use tinycloud_node.Common.Classes.{◌==◌, Str, codes, List_eq, Nat_eq}
use tinycloud_node.Common.Decimal.{parse_u64, print_u64}

pub data IdentityError : Type 0 where
  invalid_address_prefix : IdentityError
  invalid_address_length : ℕ → IdentityError
  invalid_address_char : ℕ → ℕ → IdentityError
  invalid_chain_id invalid_pkh_did invalid_did : IdentityError

pub record PkhDid : Type 0 where
  pub chain_id : ℕ
  pub address : Str

unfoldable pub hex_nibble : ℕ → ℕ → Result IdentityError ℕ
hex_nibble index c =
    if leb b'0' c && leb c b'9'
    then ok (c - b'0')
    else if leb b'a' c && leb c b'f'
    then ok (c - b'a' + 10)
    else if leb b'A' c && leb c b'F'
    then ok (c - b'A' + 10)
    else err (invalid_address_char index c)

-- The loop over the bytes of the address, from a position on; two characters make a byte.
unfoldable pub address_bytes : ℕ → ℕ → Str → Result IdentityError (List ℕ)
unfolding hex_nibble
address_bytes zero index s = ok []
address_bytes (suc n) index [] = err invalid_pkh_did
address_bytes (suc n) index (h ∷ []) = err invalid_pkh_did
address_bytes (suc n) index (h ∷ l ∷ s) = do
  hi ← hex_nibble index h
  lo ← hex_nibble (index + 1) l
  rest ← address_bytes n (index + 2) s
  ok ((hi * 16 + lo) ∷ rest)

-- `filter(|id| *id > 0)`.
abbrev positive : Option ℕ → Option ℕ
positive none = none
positive (some n) = if ltb 0 n then some n else none

-- The `match` on two canonical principals.
unfoldable pub same_principal :
    Result IdentityError Str → Result IdentityError Str → Str → Str → Bool
same_principal (ok a) (ok b) actual expected = a == b
same_principal (ok a) (err e) actual expected = actual == expected
same_principal (err e) right actual expected = actual == expected

-- A `did:` prefix with a method and a colon behind it.
unfoldable pub is_did : Str → Bool
is_did did = elim (strip_prefix (codes "did:") did) [
  | none ↦ false
  | some rest ↦ is_some (split_once b':' rest)
]

-- The text of a DID in canonical form, from what `parse_pkh_did` read in it.
unfoldable pub canonical_text : Str → Option PkhDid → Result IdentityError Str
canonical_text did (some pkh) =
    ok (codes "did:pkh:eip155:" ++ (print_u64 pkh.chain_id ++ (codes ":" ++ pkh.address)))
canonical_text did none = if is_did did then ok did else err invalid_did

module _ (encode_eip55 : List ℕ → Str) where
  unfoldable pub canonicalize_eip155_address : Str → Result IdentityError Str
  unfolding address_bytes
  canonicalize_eip155_address address = do
    raw ← ok_or (strip_prefix (codes "0x") address) invalid_address_prefix
    require (str_len raw == 40) (invalid_address_length (str_len raw))
    bytes ← address_bytes 20 0 raw
    ok (codes "0x" ++ encode_eip55 bytes)

  -- The part of a `did:pkh:eip155:` DID behind its prefix.
  unfoldable pub parse_pkh_rest : Str → Result IdentityError PkhDid
  parse_pkh_rest rest = do
    parts ← ok_or (split_once b':' rest) invalid_pkh_did
    require (not (contains_byte b':' parts.1)) invalid_pkh_did
    chain_id ← ok_or (positive (parse_u64 parts.0)) invalid_chain_id
    address ← canonicalize_eip155_address parts.1
    ok (record { chain_id = chain_id; address = address })

  unfoldable pub parse_pkh_did : Str → Result IdentityError (Option PkhDid)
  unfolding parse_pkh_rest
  parse_pkh_did did = elim (strip_prefix (codes "did:pkh:eip155:") did) [
    | none ↦ ok none
    | some rest ↦ parse_pkh_rest rest >>= λ pkh. ok (some pkh)
  ]

  unfoldable pub canonicalize_did : Str → Result IdentityError Str
  unfolding canonical_text
  canonicalize_did did = parse_pkh_did did >>= canonical_text did

  unfoldable pub canonicalize_did_url : Str → Result IdentityError Str
  canonicalize_did_url did_url = elim (split_once b'#' did_url) [
    | some parts ↦ canonicalize_did parts.0 >>= λ did. ok (did ++ (codes "#" ++ parts.1))
    | none ↦ canonicalize_did did_url
  ]

  unfoldable pub principal_did : Str → Result IdentityError Str
  principal_did did_url =
      canonicalize_did (elim (split_once b'#' did_url) [ none ↦ did_url | some parts ↦ parts.0 ])

  unfoldable pub canonicalize_principal : Str → Result IdentityError Str
  canonicalize_principal principal =
      if starts_with principal (codes "did:") then canonicalize_did principal else ok principal

  unfoldable pub did_principal_matches : Str → Str → Bool
  unfolding same_principal
  did_principal_matches actual expected =
      same_principal (principal_did actual) (principal_did expected) actual expected
