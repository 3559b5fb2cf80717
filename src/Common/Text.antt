-- ===== src/Common/Text.antt =====
-- Rust's string operations, over the characters of a string.
use tinycloud_node.Common.Tests.{
  if◌then◌else◌, ltb, leb, nat_eq, nat_eq_iff, is_some, Option-cases, Bool-cases,
}
use tinycloud_node.Common.Lists.{length, is_empty}
use tinycloud_node.Common.Classes.{Str}
use Prim.Native.Nat.{ℕ, zero, suc, ◌+◌, ◌/◌, ◌%◌}
use mathlib.Core.Path.{◌≡◌, refl}
use mathlib.Core.Bool.{Bool, false, ◌&&◌, ◌||◌}
use mathlib.Core.Logic.{◌↔◌, inl, inr}
use mathlib.Core.Option.{Option, none, some}
use mathlib.Core.List.{List, [], ◌∷◌, ◌++◌, append_assoc}
use native.Mathlib.Omega.{arith}

-- `s.strip_prefix(prefix)`.
unfoldable pub strip_prefix : Str → Str → Option Str
strip_prefix [] s = some s
strip_prefix (p ∷ ps) [] = none
strip_prefix (p ∷ ps) (c ∷ s) = if nat_eq p c then strip_prefix ps s else none

-- `s.starts_with(prefix)`, the string first as in the method call.
unfoldable pub starts_with : Str → Str → Bool
unfolding strip_prefix
starts_with s prefix = is_some (strip_prefix prefix s)

-- `s.ends_with('c')` for a character.
unfoldable pub ends_with_byte : ℕ → Str → Bool
ends_with_byte c [] = false
ends_with_byte c (x ∷ []) = nat_eq x c
ends_with_byte c (x ∷ y ∷ s) = ends_with_byte c (y ∷ s)

-- `s.contains('c')` for a character.
unfoldable pub contains_byte : ℕ → Str → Bool
contains_byte c [] = false
contains_byte c (x ∷ s) = nat_eq x c || contains_byte c s

-- `s.contains(needle)`.
unfoldable pub contains_str : Str → Str → Bool
unfolding starts_with
contains_str needle [] = is_empty needle
contains_str needle (c ∷ s) = starts_with (c ∷ s) needle || contains_str needle s

-- The UTF-8 bytes of a character.
unfoldable pub utf8 : ℕ → List ℕ
utf8 c =
    if ltb c 0x80
    then c ∷ []
    else if ltb c 0x800
    then (0xc0 + c / 64) ∷ (0x80 + c % 64) ∷ []
    else if ltb c 0x10000
    then (0xe0 + c / 4096) ∷ (0x80 + c / 64 % 64) ∷ (0x80 + c % 64) ∷ []
    else (0xf0 + c / 262144) ∷ (0x80 + c / 4096 % 64) ∷ (0x80 + c / 64 % 64) ∷ (0x80 + c % 64) ∷ []

-- `s.as_bytes()`.
unfoldable pub as_bytes : Str → List ℕ
unfolding utf8
as_bytes [] = []
as_bytes (c ∷ s) = utf8 c ++ as_bytes s

-- `s.len()`, in bytes.
unfoldable pub str_len : Str → ℕ
unfolding as_bytes
str_len s = length (as_bytes s)

-- `bytes.get(i)`.
unfoldable pub get_byte : List ℕ → ℕ → Option ℕ
get_byte [] i = none
get_byte (b ∷ bytes) zero = some b
get_byte (b ∷ bytes) (suc i) = get_byte bytes i

-- `s.split_once(c)`: before and after the first occurrence.
unfoldable pub split_once : ℕ → Str → Option (Str × Str)
split_once c [] = none
split_once c (x ∷ s) =
    if nat_eq x c
    then some ([], s)
    else elim (split_once c s) [ none ↦ none | some r ↦ some (x ∷ r.0, r.1) ]

-- `s.rsplit_once(c)`: before and after the last occurrence.
unfoldable pub rsplit_once : ℕ → Str → Option (Str × Str)
rsplit_once c [] = none
rsplit_once c (x ∷ s) = elim (rsplit_once c s) [
  | none ↦ if nat_eq x c then some ([], s) else none
  | some r ↦ some (x ∷ r.0, r.1)
]

pub strip_prefix-eq-some : (p s r : Str) → strip_prefix p s ≡ some r → s ≡ p ++ r
unfolding strip_prefix
strip_prefix-eq-some [] s r h = cc
strip_prefix-eq-some (p ∷ ps) [] r h = cc
strip_prefix-eq-some (p ∷ ps) (c ∷ s) r h =
    ground (arith, nat_eq_iff p c, strip_prefix-eq-some ps s r)

pub strip_prefix-append : (p r : Str) → strip_prefix p (p ++ r) ≡ some r
unfolding strip_prefix
strip_prefix-append [] r = refl
strip_prefix-append (p ∷ ps) r = rw ((nat_eq_iff p p).1 refl) (strip_prefix-append ps r)

pub ends_with_byte-append :
    (c : ℕ) (s t : Str) → is_empty t ≡ false → ends_with_byte c (s ++ t) ≡ ends_with_byte c t
unfolding ends_with_byte
ends_with_byte-append c [] t h = refl
ends_with_byte-append c (x ∷ []) [] h = cc
ends_with_byte-append c (x ∷ []) (y ∷ t) h = refl
ends_with_byte-append c (x ∷ y ∷ s) t h = ends_with_byte-append c (y ∷ s) t h

pub get_byte-append : (s t : List ℕ) → get_byte (s ++ t) (length s) ≡ get_byte t 0
unfolding get_byte
get_byte-append [] t = refl
get_byte-append (x ∷ s) t = get_byte-append s t

pub as_bytes-append : (s t : Str) → as_bytes (s ++ t) ≡ as_bytes s ++ as_bytes t
unfolding as_bytes
as_bytes-append [] t = refl
as_bytes-append (c ∷ s) t = simp (as_bytes-append s t, append_assoc)

-- The first byte of a text is a slash exactly when its first character is one.
pub slash_byte_iff : (c : ℕ) (s : Str) → (get_byte (as_bytes (c ∷ s)) 0 ≡ some b'/') ↔ (c ≡ b'/')
unfolding as_bytes utf8 get_byte
slash_byte_iff c s = ground arith

pub rsplit_once-eq-none : (c : ℕ) (s : Str) → rsplit_once c s ≡ none → contains_byte c s ≡ false
unfolding rsplit_once contains_byte
rsplit_once-eq-none c [] h = refl
rsplit_once-eq-none c (x ∷ s) h = ground (arith, rsplit_once-eq-none c s)

-- The two parts, with the separator between them, are the string, and the last part has none.
pub rsplit_once-eq-some :
    (c : ℕ) (s a b : Str)
    → rsplit_once c s ≡ some (a, b)
    → (s ≡ a ++ c ∷ b) × (contains_byte c b ≡ false)
unfolding rsplit_once
rsplit_once-eq-some c [] a b h = cc
rsplit_once-eq-some c (x ∷ s) a b h = elim (Option-cases (rsplit_once c s)) [
  | inl e ↦ ground (arith, e, rsplit_once-eq-none c s e, nat_eq_iff x c)
  | inr (r, e) ↦ let ih = rsplit_once-eq-some c s r.0 r.1 e in ground (arith, e, ih)
]

pub split_once-append :
    (c : ℕ) (a b : Str) → contains_byte c a ≡ false → split_once c (a ++ c ∷ b) ≡ some (a, b)
unfolding split_once contains_byte
split_once-append c [] b h = rw ((nat_eq_iff c c).1 refl)
split_once-append c (x ∷ a) b h = elim (Bool-cases (nat_eq x c)) [
  | inl e ↦ ground arith
  | inr e ↦ rw e (rw (split_once-append c a b (ground arith)))
]

pub contains_byte-append :
    (c : ℕ) (a b : Str) → contains_byte c (a ++ b) ≡ (contains_byte c a || contains_byte c b)
unfolding contains_byte
contains_byte-append c [] b = refl
contains_byte-append c (x ∷ a) b = ground (arith, contains_byte-append c a b)

rsplit_once_of_none : (c : ℕ) (s : Str) → contains_byte c s ≡ false → rsplit_once c s ≡ none
unfolding contains_byte rsplit_once
rsplit_once_of_none c [] h = refl
rsplit_once_of_none c (x ∷ s) h = ground (arith, rsplit_once_of_none c s)

pub rsplit_once-append :
    (c : ℕ) (a b : Str) → contains_byte c b ≡ false → rsplit_once c (a ++ c ∷ b) ≡ some (a, b)
unfolding rsplit_once
rsplit_once-append c [] b h = rw (rsplit_once_of_none c b h, (nat_eq_iff c c).1 refl)
rsplit_once-append c (x ∷ a) b h = rw (rsplit_once-append c a b h)

pub split_once_of_none : (c : ℕ) (s : Str) → contains_byte c s ≡ false → split_once c s ≡ none
unfolding contains_byte split_once
split_once_of_none c [] h = refl
split_once_of_none c (x ∷ s) h = ground (arith, split_once_of_none c s)

-- A character before the first piece.
abbrev onto_first : ℕ → List Str → List Str
onto_first x [] = (x ∷ []) ∷ []
onto_first x (p ∷ ps) = (x ∷ p) ∷ ps

-- `s.split(c)`: the pieces between the separators; the text has one piece more than separators.
unfoldable pub split_char : ℕ → Str → List Str
split_char c [] = [] ∷ []
split_char c (x ∷ s) = if nat_eq x c then [] ∷ split_char c s else onto_first x (split_char c s)

-- `c.is_whitespace()`: the characters that Unicode calls white space.
abbrev pub is_whitespace : ℕ → Bool
is_whitespace c =
    (leb 0x9 c && leb c 0xd)
    || ((leb 0x2000 c && leb c 0x200a)
        || (nat_eq c 0x20
            || (nat_eq c 0x85
                || (nat_eq c 0xa0
                    || (nat_eq c 0x1680
                        || (nat_eq c 0x2028
                            || (nat_eq c 0x2029
                                || (nat_eq c 0x202f || (nat_eq c 0x205f || nat_eq c 0x3000)))))))))
