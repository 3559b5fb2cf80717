-- ===== src/Core/Policy/Paths.antt =====
-- tinycloud-core/src/policy_capability/mod.rs: the normal form of a capability's path. Unicode
-- normalisation (NFC, of the unicode-normalization package) is a parameter.
use tinycloud_node.Common.{
  ℕ, ◌+◌, ◌-◌, ◌*◌, [], ◌∷◌, Option, none, some, Bool, ◌&&◌, ◌||◌, if◌then◌else◌, any, nat_eq, leb,
  is_empty, Result, ok, err, split_char,
}
use tinycloud_node.Common.Classes.{◌==◌, Str, codes, List_eq, Nat_eq}
use tinycloud_node.Core.Policy.Codes.{RejectionCode, policy_capability_malformed_path}
use tinycloud_node.Core.Policy.SqlText.{is_ascii_alphanumeric}

-- `c.to_digit(16)`.
unfoldable pub hex_digit : ℕ → Option ℕ
hex_digit c =
    if leb b'0' c && leb c b'9'
    then some (c - b'0')
    else if leb b'a' c && leb c b'f'
    then some (c - b'a' + 10)
    else if leb b'A' c && leb c b'F'
    then some (c - b'A' + 10)
    else none

abbrev pub is_unreserved : ℕ → Bool
is_unreserved c =
    is_ascii_alphanumeric c
    || (nat_eq c b'-' || (nat_eq c b'.' || (nat_eq c b'_' || nat_eq c b'~')))

-- The byte of two hexadecimal digits, if it is unreserved.
abbrev unreserved_byte : Option ℕ → Option ℕ → Option ℕ
unreserved_byte (some hi) (some lo) =
    if is_unreserved (hi * 16 + lo) then some (hi * 16 + lo) else none
unreserved_byte (some hi) none = none
unreserved_byte none lo = none

-- The unreserved character that three characters stand for.
unfoldable pub escaped : ℕ → ℕ → ℕ → Option ℕ
unfolding hex_digit
escaped c h l = if nat_eq c b'%' then unreserved_byte (hex_digit h) (hex_digit l) else none

unfoldable pub percent_decode_unreserved : Str → Str
unfolding escaped
percent_decode_unreserved [] = []
percent_decode_unreserved (c ∷ []) = c ∷ []
percent_decode_unreserved (c ∷ h ∷ []) = c ∷ h ∷ []
percent_decode_unreserved (c ∷ h ∷ l ∷ s) = elim (escaped c h l) [
  | none ↦ c ∷ percent_decode_unreserved (h ∷ l ∷ s)
  | some b ↦ b ∷ percent_decode_unreserved s
]

module _ (nfc : Str → Str) where
  unfoldable pub normalize_path : Str → Str → Result RejectionCode Str
  normalize_path service path =
      let normal = nfc (percent_decode_unreserved path) in
      if any (λ segment. segment == codes "..") (split_char b'/' normal)
      then err policy_capability_malformed_path
      else if service == codes "tinycloud.sql" && is_empty normal
      then err policy_capability_malformed_path
      else ok normal
