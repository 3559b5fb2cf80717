-- ===== src/Common/Decimal.antt =====
-- `u64` in decimal, as `str::parse` reads it and `Display` writes it.
use tinycloud_node.Common.Tests.{if◌then◌else◌, ltb, leb, nat_eq, Bool-cases}
use tinycloud_node.Common.Classes.{Str}
use tinycloud_node.Common.Text.{contains_byte}
use Prim.Native.Nat.{ℕ, zero, suc, ◌+◌, ◌-◌, ◌*◌, ◌/◌, ◌%◌, ◌^◌, ◌<◌, ◌≤◌}
use mathlib.Core.Path.{◌≡◌, refl, ap, ◌∙◌}
use mathlib.Core.Bool.{Bool, true, false, ◌&&◌}
use mathlib.Core.Logic.{inl, inr}
use native.Mathlib.Nat.{pow-suc}
use mathlib.Core.Option.{Option, none, some}
use mathlib.Core.List.{[], ◌∷◌}
use native.Mathlib.Omega.{arith}

abbrev pub u64_max : ℕ
u64_max = 18446744073709551615

unfoldable pub is_digit : ℕ → Bool
is_digit c = leb b'0' c && leb c b'9'

-- The loop of `parse`: each step is checked for overflow.
unfoldable pub parse_digits : ℕ → Str → Option ℕ
unfolding is_digit
parse_digits acc [] = some acc
parse_digits acc (c ∷ s) =
    let next = acc * 10 + (c - b'0') in
    let rest = parse_digits next s in if is_digit c && leb next u64_max then rest else none

-- `s.parse::<u64>().ok()`: a leading plus sign is accepted.
unfoldable pub parse_u64 : Str → Option ℕ
unfolding parse_digits
parse_u64 [] = none
parse_u64 (c ∷ []) = parse_digits 0 (c ∷ [])
parse_u64 (c ∷ d ∷ s) = if nat_eq c b'+' then parse_digits 0 (d ∷ s) else parse_digits 0 (c ∷ d ∷ s)

-- The digits of a number, before those that are written already.
unfoldable pub print_from : ℕ → ℕ → Str → Str
print_from zero n out = out
print_from (suc fuel) n out =
    let more = print_from fuel (n / 10) ((b'0' + n % 10) ∷ out) in
    if ltb n 10 then (b'0' + n) ∷ out else more

-- A `u64` has at most twenty digits.
unfoldable pub print_u64 : ℕ → Str
print_u64 n = print_from 20 n []

parse_digits_step :
    (acc d : ℕ) (s : Str)
    → d < 10
    → acc * 10 + d ≤ u64_max
    → parse_digits acc ((b'0' + d) ∷ s) ≡ parse_digits (acc * 10 + d) s
unfolding parse_digits
parse_digits_step acc d s h k = let e : b'0' + d - b'0' ≡ d = omega arith in rw e (ground arith)

-- Reading digits that are written for `n` is reading the rest with `n` behind the accumulator.
parse_digits-print_from :
    (fuel n : ℕ) (out : Str)
    → n < 10 ^ fuel
    → n ≤ u64_max
    → parse_digits 0 (print_from fuel n out) ≡ parse_digits n out
unfolding print_from
parse_digits-print_from zero n out h k = let e : n ≡ 0 = omega arith in rw e
parse_digits-print_from (suc fuel) n out h k = elim (Bool-cases (ltb n 10)) [
  | inl e ↦ rw e (
      parse_digits_step 0 n out (ground arith) (omega arith)
      ∙ ap (λ j. parse_digits j out) (omega arith))
  | inr e ↦ rw e (
      parse_digits-print_from fuel (n / 10) ((b'0' + n % 10) ∷ out) (omega (arith, pow-suc 10 fuel))
        (omega arith)
      ∙ parse_digits_step (n / 10) (n % 10) out (omega arith) (omega arith)
      ∙ ap (λ j. parse_digits j out) (omega arith))
]

abbrev StartsWithDigit : Str → Type 0
StartsWithDigit [] = ⊥
StartsWithDigit (c ∷ s) = is_digit c ≡ true

print_from-StartsWithDigit :
    (fuel n : ℕ) (out : Str) → StartsWithDigit out → StartsWithDigit (print_from fuel n out)
unfolding print_from is_digit
print_from-StartsWithDigit zero n out h = h
print_from-StartsWithDigit (suc fuel) n out h = elim (Bool-cases (ltb n 10)) [
  | inl e ↦ rw e (ground arith)
  | inr e ↦ rw e (print_from-StartsWithDigit fuel (n / 10) ((b'0' + n % 10) ∷ out) (ground arith))
]

print_from-suc-StartsWithDigit :
    (fuel n : ℕ) (out : Str) → StartsWithDigit (print_from (suc fuel) n out)
unfolding print_from is_digit
print_from-suc-StartsWithDigit fuel n out = elim (Bool-cases (ltb n 10)) [
  | inl e ↦ rw e (ground arith)
  | inr e ↦ rw e (print_from-StartsWithDigit fuel (n / 10) ((b'0' + n % 10) ∷ out) (ground arith))
]

parse_u64_of_digit : (s : Str) → StartsWithDigit s → parse_u64 s ≡ parse_digits 0 s
unfolding parse_u64 is_digit
parse_u64_of_digit [] h = absurd h
parse_u64_of_digit (c ∷ []) h = refl
parse_u64_of_digit (c ∷ d ∷ s) h = ground arith

-- Every `u64` is read back from its decimal form.
pub parse_u64-print_u64 : (n : ℕ) → n ≤ u64_max → parse_u64 (print_u64 n) ≡ some n
unfolding print_u64
parse_u64-print_u64 n h =
    parse_u64_of_digit (print_from 20 n []) (print_from-suc-StartsWithDigit 19 n [])
    ∙ parse_digits-print_from 20 n [] (omega arith) h
    ∙ unfold parse_digits in refl

-- No decimal form holds a character that is no digit.
print_from-contains_byte :
    (c fuel n : ℕ) (out : Str)
    → is_digit c ≡ false
    → contains_byte c out ≡ false
    → contains_byte c (print_from fuel n out) ≡ false
unfolding print_from contains_byte is_digit
print_from-contains_byte c zero n out d h = h
print_from-contains_byte c (suc fuel) n out d h = elim (Bool-cases (ltb n 10)) [
  | inl e ↦ rw e (ground arith)
  | inr e ↦ rw e (print_from-contains_byte c fuel (n / 10) ((b'0' + n % 10) ∷ out) d (ground arith))
]

pub print_u64-contains_byte : (c n : ℕ) → is_digit c ≡ false → contains_byte c (print_u64 n) ≡ false
unfolding print_u64 contains_byte
print_u64-contains_byte c n d = print_from-contains_byte c 20 n [] d refl

parse_digits-le :
    (acc : ℕ) (s : Str) (n : ℕ) → acc ≤ u64_max → parse_digits acc s ≡ some n → n ≤ u64_max
unfolding parse_digits
parse_digits-le acc [] n h e = ground arith
parse_digits-le acc (c ∷ s) n h e = ground (arith, parse_digits-le (acc * 10 + (c - b'0')) s n)

pub parse_u64-le : (s : Str) (n : ℕ) → parse_u64 s ≡ some n → n ≤ u64_max
unfolding parse_u64
parse_u64-le [] n e = cc
parse_u64-le (c ∷ []) n e = parse_digits-le 0 (c ∷ []) n (omega arith) e
parse_u64-le (c ∷ d ∷ s) n e = ground (
  arith,
  parse_digits-le 0 (d ∷ s) n (omega arith),
  parse_digits-le 0 (c ∷ d ∷ s) n (omega arith),
)
