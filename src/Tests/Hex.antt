-- ===== src/Tests/Hex.antt =====
-- A spelling of addresses, in small hexadecimal digits, that meets what is asked of the checksum
-- spelling.
use tinycloud_node.Common.{
  ℕ, zero, suc, ◌+◌, ◌*◌, ◌/◌, ◌%◌, ◌<◌, ◌≡◌, refl, ap, ◌∙◌, List, [], ◌∷◌, false, arith, ltb,
  if◌then◌else◌, str_len, as_bytes, utf8, contains_byte, ok, nat_eq,
}
use tinycloud_node.Common.Classes.{Str}
use tinycloud_node.Auth.Identity.{hex_nibble, address_bytes}
use tinycloud_node.Auth.Identity.Canonical.{AreBytes, IsEip55}

unfoldable pub digit : ℕ → ℕ
digit n = if ltb n 10 then 48 + n else 87 + n

unfoldable pub hex : List ℕ → Str
unfolding digit
hex [] = []
hex (b ∷ bytes) = digit (b / 16) ∷ digit (b % 16) ∷ hex bytes

hex_nibble-digit : (i n : ℕ) → n < 16 → hex_nibble i (digit n) ≡ ok n
unfolding hex_nibble digit
hex_nibble-digit i n h = ground arith

address_bytes-hex :
    (n i : ℕ) (bytes : List ℕ) → AreBytes n bytes → address_bytes n i (hex bytes) ≡ ok bytes
unfolding address_bytes hex
address_bytes-hex zero i [] h = refl
address_bytes-hex zero i (b ∷ bytes) h = absurd h
address_bytes-hex (suc n) i [] h = absurd h
address_bytes-hex (suc n) i (b ∷ bytes) h =
    rw
      (
        hex_nibble-digit i (b / 16) (omega (arith, h.0)),
        hex_nibble-digit (i + 1) (b % 16) (omega arith),
        address_bytes-hex n (i + 2) bytes h.1,
      )
      (ap (λ x. ok (x ∷ bytes)) (omega arith))

digit_lt : (n : ℕ) → n < 16 → (digit n < 128) × (nat_eq (digit n) 58 ≡ false)
unfolding digit
digit_lt n h = ground arith

contains_byte-hex :
    (n : ℕ) (bytes : List ℕ) → AreBytes n bytes → contains_byte b':' (hex bytes) ≡ false
unfolding hex contains_byte
contains_byte-hex zero [] h = refl
contains_byte-hex zero (b ∷ bytes) h = absurd h
contains_byte-hex (suc n) [] h = absurd h
contains_byte-hex (suc n) (b ∷ bytes) h =
    rw ((digit_lt (b / 16) (omega (arith, h.0))).1, (digit_lt (b % 16) (omega arith)).1)
      (contains_byte-hex n bytes h.1)

utf8_plain : (c : ℕ) → c < 128 → utf8 c ≡ c ∷ []
unfolding utf8
utf8_plain c h = ground arith

str_len-hex : (n : ℕ) (bytes : List ℕ) → AreBytes n bytes → str_len (hex bytes) ≡ n * 2
unfolding hex str_len as_bytes
str_len-hex zero [] h = refl
str_len-hex zero (b ∷ bytes) h = absurd h
str_len-hex (suc n) [] h = absurd h
str_len-hex (suc n) (b ∷ bytes) h =
    rw
      (
        utf8_plain (digit (b / 16)) (digit_lt (b / 16) (omega (arith, h.0))).0,
        utf8_plain (digit (b % 16)) (digit_lt (b % 16) (omega arith)).0,
      )
      (ap (λ x. suc (suc x)) (str_len-hex n bytes h.1) ∙ omega arith)

-- The spelling is one of those that EIP-55 allows.
pub hex-IsEip55 : IsEip55 hex
hex-IsEip55 = record {
  forty = λ bytes h. str_len-hex 20 bytes h;
  decodes = λ bytes h. address_bytes-hex 20 0 bytes h;
  no_colon = λ bytes h. contains_byte-hex 20 bytes h;
}
