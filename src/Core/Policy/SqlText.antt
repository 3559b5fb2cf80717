-- ===== src/Core/Policy/SqlText.antt =====
-- The scans of SQL text in tinycloud-core/src/policy_capability/sql_caveat.rs.
use tinycloud_node.Common.{
  ℕ, zero, suc, ◌-◌, List, [], ◌∷◌, Option, none, some, Bool, true, false, not, ◌&&◌, ◌||◌,
  if◌then◌else◌, any, length, map, nat_eq, leb, contains_byte, contains_str, strip_prefix,
}
use tinycloud_node.Common.Classes.{Str, codes}

abbrev pub is_ascii_alphanumeric : ℕ → Bool
is_ascii_alphanumeric c =
    (leb b'0' c && leb c b'9') || ((leb b'A' c && leb c b'Z') || (leb b'a' c && leb c b'z'))

-- A character of a word.
abbrev pub is_word : ℕ → Bool
is_word c = is_ascii_alphanumeric c || nat_eq c b'_'

unfoldable pub to_ascii_uppercase : Str → Str
to_ascii_uppercase s = map (λ c. if leb b'a' c && leb c b'z' then c - 32 else c) s

-- The first occurrence of a text: the character before it, if there is one, and what follows it.
unfoldable pub find_behind : Option ℕ → Str → Str → Option (Option ℕ × Str)
unfolding strip_prefix
find_behind before [] needle = elim (strip_prefix needle []) [
  | none ↦ none
  | some rest ↦ some (before, rest)
]
find_behind before (c ∷ s) needle = elim (strip_prefix needle (c ∷ s)) [
  | none ↦ find_behind (some c) s needle
  | some rest ↦ some (before, rest)
]

abbrev pub ends_word : Option ℕ → Bool
ends_word none = true
ends_word (some c) = not (is_word c)

abbrev pub first : Str → Option ℕ
first [] = none
first (c ∷ s) = some c

abbrev pub last_of : Option ℕ → Str → Option ℕ
last_of before [] = before
last_of before (c ∷ s) = last_of (some c) s

-- The loop of `contains_word`, from a place in the text on. Each round takes the needle away, so
-- the length of the text is fuel enough.
unfoldable pub contains_word_from : ℕ → Option ℕ → Str → Str → Bool
unfolding find_behind
contains_word_from zero before haystack needle = false
contains_word_from (suc fuel) before haystack needle = elim (find_behind before haystack needle) [
  | none ↦ false
  | some found ↦ elim (ends_word found.0 && ends_word (first found.1)) [
    | true ↦ true
    | false ↦ contains_word_from fuel (last_of none needle) found.1 needle
  ]
]

unfoldable pub contains_word : Str → Str → Bool
unfolding contains_word_from
contains_word haystack needle = contains_word_from (suc (length haystack)) none haystack needle

abbrev pub write_keywords : List Str
write_keywords =
    codes "INSERT"
    ∷ codes "UPDATE"
    ∷ codes "DELETE"
    ∷ codes "REPLACE"
    ∷ codes "MERGE"
    ∷ codes "CREATE"
    ∷ codes "DROP"
    ∷ codes "ALTER"
    ∷ codes "TRUNCATE"
    ∷ codes "ATTACH"
    ∷ codes "DETACH"
    ∷ codes "PRAGMA"
    ∷ codes "VACUUM"
    ∷ codes "ANALYZE"
    ∷ []

unfoldable pub contains_write_keyword : Str → Bool
unfolding contains_word to_ascii_uppercase
contains_write_keyword sql = any (λ kw. contains_word (to_ascii_uppercase sql) kw) write_keywords

unfoldable pub looks_like_escape : Str → Bool
unfolding contains_byte contains_str to_ascii_uppercase
looks_like_escape value =
    contains_byte 0x22 value
    || (contains_byte 0x27 value
        || (contains_byte b';' value
            || (contains_str (codes "--") value
                || (contains_str (codes " OR 1=1") (to_ascii_uppercase value)
                    || (contains_str (codes "/*") value || contains_str (codes "*/") value)))))
