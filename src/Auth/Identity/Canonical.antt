-- ===== src/Auth/Identity/Canonical.antt =====
-- The canonical form of a DID is stable: canonicalising it again changes nothing.
use tinycloud_node.Common.{
  ℕ, zero, suc, ◌+◌, ◌*◌, ◌<◌, ◌≤◌, ◌≡◌, refl, sym, ap, ◌∙◌, inl, inr, List, [], ◌∷◌, ◌++◌, true,
  false, arith, Option, none, some, ok, Option-cases, ltb, strip_prefix, strip_prefix-append,
  split_once, split_once-append, contains_byte, str_len, >>=-eq-ok, require-eq-ok, ok_or-eq-ok,
  ◌>>=◌, ok_or, not,
}
use tinycloud_node.Common.Classes.{◌==◌, Str, codes, List_eq, Nat_eq}
use tinycloud_node.Common.Decimal.{
  u64_max, parse_u64, print_u64, parse_u64-print_u64, parse_u64-le, print_u64-contains_byte,
  is_digit,
}
use tinycloud_node.Auth.Identity.{
  invalid_pkh_did, invalid_chain_id, PkhDid, hex_nibble, address_bytes, canonicalize_eip155_address,
  parse_pkh_rest, parse_pkh_did, positive, canonicalize_did, canonical_text,
}

hex_nibble-lt : (i c n : ℕ) → hex_nibble i c ≡ ok n → n < 16
unfolding hex_nibble
hex_nibble-lt i c n h = ground arith

-- Twenty bytes, each below 256.
abbrev pub AreBytes : ℕ → List ℕ → Type 0
AreBytes zero [] = Unit
AreBytes zero (b ∷ bs) = ⊥
AreBytes (suc n) [] = ⊥
AreBytes (suc n) (b ∷ bs) = (b < 256) × AreBytes n bs

address_bytes-AreBytes :
    (n i : ℕ) (s : Str) (bytes : List ℕ) → address_bytes n i s ≡ ok bytes → AreBytes n bytes
unfolding address_bytes
address_bytes-AreBytes zero i s bytes h = let e : bytes ≡ [] = ground arith in rw e tt
address_bytes-AreBytes (suc n) i [] bytes h = cc
address_bytes-AreBytes (suc n) i (c ∷ []) bytes h = cc
address_bytes-AreBytes (suc n) i (c ∷ d ∷ s) bytes h =
    let (hi, p, h1) = >>=-eq-ok (hex_nibble i c) _ h in
    let (lo, q, h2) = >>=-eq-ok (hex_nibble (i + 1) d) _ h1 in
    let (rest, r, h3) = >>=-eq-ok (address_bytes n (i + 2) s) _ h2 in
    let e : bytes ≡ (hi * 16 + lo) ∷ rest = ground arith in
    rw e (
      (omega (arith, hex_nibble-lt i c hi p, hex_nibble-lt (i + 1) d lo q)),
      address_bytes-AreBytes n (i + 2) s rest r,
    )

positive-eq-some : (o : Option ℕ) (n : ℕ) → positive o ≡ some n → (o ≡ some n) × (ltb 0 n ≡ true)
positive-eq-some none n h = cc
positive-eq-some (some m) n h = ground arith

-- What EIP-55 says of the checksum spelling of twenty bytes: forty hexadecimal digits that stand
-- for the bytes, whatever the case of the letters.
pub record IsEip55 (encode_eip55 : List ℕ → Str) : Type 0 where
  pub forty : (bytes : List ℕ) → AreBytes 20 bytes → str_len (encode_eip55 bytes) ≡ 40
  pub decodes :
      (bytes : List ℕ) → AreBytes 20 bytes → address_bytes 20 0 (encode_eip55 bytes) ≡ ok bytes
  pub no_colon :
      (bytes : List ℕ) → AreBytes 20 bytes → contains_byte b':' (encode_eip55 bytes) ≡ false

abbrev pkh_prefix : Str
pkh_prefix = codes "did:pkh:eip155:"

module _ (encode_eip55 : List ℕ → Str) (eip55 : IsEip55 encode_eip55) where
  -- The spelling of a canonical address.
  abbrev spelled : List ℕ → Str
  spelled bytes = codes "0x" ++ encode_eip55 bytes

  address_of :
      (a b : Str)
      → canonicalize_eip155_address encode_eip55 a ≡ ok b
      → (bytes : List ℕ) × AreBytes 20 bytes × (b ≡ spelled bytes)
  unfolding canonicalize_eip155_address
  address_of a b h =
      let (raw, p, h1) = >>=-eq-ok (ok_or (strip_prefix (codes "0x") a) _) _ h in
      let (_, h2) = require-eq-ok (str_len raw == 40) _ _ h1 in
      let (bytes, q, h3) = >>=-eq-ok (address_bytes 20 0 raw) _ h2 in
      (bytes, address_bytes-AreBytes 20 0 raw bytes q, ground arith)

  canonicalize-spelled :
      (bytes : List ℕ)
      → AreBytes 20 bytes
      → canonicalize_eip155_address encode_eip55 (spelled bytes) ≡ ok (spelled bytes)
  unfolding canonicalize_eip155_address
  canonicalize-spelled bytes are = rw (
    strip_prefix-append (codes "0x") (encode_eip55 bytes),
    eip55.forty bytes are,
    eip55.decodes bytes are,
  )

  -- The text of a canonical did:pkh DID, behind the prefix.
  abbrev pkh_rest : ℕ → List ℕ → Str
  pkh_rest chain_id bytes = print_u64 chain_id ++ b':' ∷ spelled bytes

  spelled-no_colon :
      (bytes : List ℕ) → AreBytes 20 bytes → contains_byte b':' (spelled bytes) ≡ false
  unfolding contains_byte
  spelled-no_colon bytes are = eip55.no_colon bytes are

  parse_pkh_rest-pkh_rest :
      (chain_id : ℕ) (bytes : List ℕ)
      → AreBytes 20 bytes
      → chain_id ≤ u64_max
      → ltb 0 chain_id ≡ true
      → parse_pkh_rest encode_eip55 (pkh_rest chain_id bytes)
        ≡ ok (record { chain_id = chain_id; address = spelled bytes })
  unfolding parse_pkh_rest
  parse_pkh_rest-pkh_rest chain_id bytes are bound pos = rw (
    split_once-append b':' (print_u64 chain_id) (spelled bytes)
        (print_u64-contains_byte b':' chain_id (unfold is_digit in refl)),
    spelled-no_colon bytes are,
    parse_u64-print_u64 chain_id bound,
    pos,
    canonicalize-spelled bytes are,
  )

  -- What a parsed did:pkh DID holds.
  parse_pkh_rest-eq-ok :
      (rest : Str) (pkh : PkhDid)
      → parse_pkh_rest encode_eip55 rest ≡ ok pkh
      → (bytes : List ℕ) × AreBytes 20 bytes
        × (pkh.address ≡ spelled bytes)
        × (pkh.chain_id ≤ u64_max)
        × (ltb 0 pkh.chain_id ≡ true)
  unfolding parse_pkh_rest
  parse_pkh_rest-eq-ok rest pkh h =
      let (parts, p, h1) = >>=-eq-ok (ok_or (split_once b':' rest) invalid_pkh_did) _ h in
      let (_, h2) = require-eq-ok (not (contains_byte b':' parts.1)) _ _ h1 in
      let (n, q, h3) = >>=-eq-ok (ok_or (positive (parse_u64 parts.0)) invalid_chain_id) _ h2 in
      let (address, r, h4) = >>=-eq-ok (canonicalize_eip155_address encode_eip55 parts.1) _ h3 in
      let (bytes, are, e) = address_of parts.1 address r in
      let (bound, pos) =
        positive-eq-some (parse_u64 parts.0) n (ok_or-eq-ok _ invalid_chain_id q) in
      let same_id : pkh.chain_id ≡ n = ground arith in
      let same_address : pkh.address ≡ address = ground arith in
      (bytes, are, same_address ∙ e, rw same_id (parse_u64-le parts.0 n bound), rw same_id pos)

  parse_pkh_did-plain :
      (did : Str) → strip_prefix pkh_prefix did ≡ none → parse_pkh_did encode_eip55 did ≡ ok none
  unfolding parse_pkh_did
  parse_pkh_did-plain did e = rw (e, parse_pkh_did)

  parse_pkh_did-prefixed :
      (did rest : Str)
      → strip_prefix pkh_prefix did ≡ some rest
      → parse_pkh_did encode_eip55 did ≡ (parse_pkh_rest encode_eip55 rest >>= λ pkh. ok (some pkh))
  unfolding parse_pkh_did
  parse_pkh_did-prefixed did rest e = rw (e, parse_pkh_did)

  canonicalize_did-pkh :
      (n : ℕ) (bytes : List ℕ)
      → AreBytes 20 bytes
      → n ≤ u64_max
      → ltb 0 n ≡ true
      → canonicalize_did encode_eip55 (pkh_prefix ++ pkh_rest n bytes)
        ≡ ok (pkh_prefix ++ pkh_rest n bytes)
  unfolding canonicalize_did
  canonicalize_did-pkh n bytes are bound pos = rw (
    parse_pkh_did-prefixed _ _ (strip_prefix-append pkh_prefix (pkh_rest n bytes)),
    parse_pkh_rest-pkh_rest n bytes are bound pos,
  )

  -- If the spelling of addresses is as EIP-55 says, the canonical form of a DID is its own
  -- canonical form.
  pub canonicalize_did_idem :
      (did canonical : Str)
      → canonicalize_did encode_eip55 did ≡ ok canonical
      → canonicalize_did encode_eip55 canonical ≡ ok canonical
  unfolding canonicalize_did
  canonicalize_did_idem did canonical h = elim (Option-cases (strip_prefix pkh_prefix did)) [
    | inl e ↦
        let h1 : canonical_text did none ≡ ok canonical =
          rw (canonicalize_did, parse_pkh_did-plain did e) at h in
        let same : did ≡ canonical = unfold canonical_text in ground arith in same_did same
    | inr (rest, e) ↦
        let h1 = >>=-eq-ok (parse_pkh_did encode_eip55 did) _ (unfold canonicalize_did in h) in
        let (parsed, p0, q0) = h1 in
        let (pkh, p, q) =
          >>=-eq-ok (parse_pkh_rest encode_eip55 rest) _
            (sym (parse_pkh_did-prefixed did rest e) ∙ p0) in
        let (bytes, are, spelling, bound, pos) = parse_pkh_rest-eq-ok rest pkh p in
        let text : canonical_text did (some pkh) ≡ ok canonical =
          let same : parsed ≡ some pkh = ground arith in rw same at q0 in
        let form : canonical ≡ pkh_prefix ++ (print_u64 pkh.chain_id ++ b':' ∷ pkh.address) =
          unfold canonical_text in ground arith in
        let whole : canonical ≡ pkh_prefix ++ pkh_rest pkh.chain_id bytes =
          form ∙ ap (λ a. pkh_prefix ++ (print_u64 pkh.chain_id ++ b':' ∷ a)) spelling in
        rw whole (canonicalize_did-pkh pkh.chain_id bytes are bound pos)
  ]
    where
      same_did : did ≡ canonical → canonicalize_did encode_eip55 canonical ≡ ok canonical
      same_did e = rw e at h
