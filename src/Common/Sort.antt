-- ===== src/Common/Sort.antt =====
-- Sorting and removing duplicates, of byte strings and texts.
use tinycloud_node.Common.Tests.{if◌then◌else◌, ltb, nat_eq, Bool-cases}
use tinycloud_node.Common.Lists.{In}
use tinycloud_node.Common.Classes.{◌==◌, eq→≡, Str, List_eq, Nat_eq}
use mathlib.Core.Path.{◌≡◌}
use mathlib.Core.Logic.{◌⊎◌, inl, inr}
use mathlib.Core.Bool.{Bool, true, false, ◌&&◌, ◌||◌}
use mathlib.Core.List.{List, [], ◌∷◌}
use native.Mathlib.Omega.{arith}

-- The order of strings.
unfoldable pub str_le : Str → Str → Bool
str_le [] t = true
str_le (c ∷ s) [] = false
str_le (c ∷ s) (d ∷ t) = ltb c d || (nat_eq c d && str_le s t)

unfoldable pub insert_sorted : Str → List Str → List Str
insert_sorted x [] = x ∷ []
insert_sorted x (y ∷ ys) = if str_le x y then x ∷ y ∷ ys else y ∷ insert_sorted x ys

-- `sort()`.
unfoldable pub sort : List Str → List Str
unfolding insert_sorted
sort [] = []
sort (x ∷ xs) = insert_sorted x (sort xs)

-- `dedup()`: a string that stands beside its equal is dropped.
abbrev push_new : Str → List Str → List Str
push_new x [] = x ∷ []
push_new x (y ∷ ys) = if x == y then y ∷ ys else x ∷ y ∷ ys

unfoldable pub dedup : List Str → List Str
dedup [] = []
dedup (x ∷ xs) = push_new x (dedup xs)

insert_sorted-In : (a x : Str) (ys : List Str) → In a (insert_sorted x ys) → (x ≡ a) ⊎ In a ys
unfolding insert_sorted
insert_sorted-In a x [] m = ground arith
insert_sorted-In a x (y ∷ ys) m = elim (Bool-cases (str_le x y)) [
  | inl e ↦ ground (arith, e)
  | inr e ↦ ground (arith, e, insert_sorted-In a x ys)
]

In-insert_sorted : (a x : Str) (ys : List Str) → (x ≡ a) ⊎ In a ys → In a (insert_sorted x ys)
unfolding insert_sorted
In-insert_sorted a x [] m = ground arith
In-insert_sorted a x (y ∷ ys) m = elim (Bool-cases (str_le x y)) [
  | inl e ↦ ground (arith, e)
  | inr e ↦ ground (arith, e, In-insert_sorted a x ys)
]

sort-In : (a : Str) (xs : List Str) → In a (sort xs) → In a xs
unfolding sort
sort-In a [] m = absurd m
sort-In a (x ∷ xs) m = ground (arith, insert_sorted-In a x (sort xs), sort-In a xs)

In-sort : (a : Str) (xs : List Str) → In a xs → In a (sort xs)
unfolding sort
In-sort a [] m = absurd m
In-sort a (x ∷ xs) m = ground (arith, In-insert_sorted a x (sort xs), In-sort a xs)

push_new-In : (a x : Str) (ys : List Str) → In a (push_new x ys) → (x ≡ a) ⊎ In a ys
push_new-In a x [] m = ground arith
push_new-In a x (y ∷ ys) m = elim (Bool-cases (x == y)) [
  | inl e ↦ ground (arith, e)
  | inr e ↦ ground (arith, e)
]

In-push_new : (a x : Str) (ys : List Str) → (x ≡ a) ⊎ In a ys → In a (push_new x ys)
In-push_new a x [] m = ground arith
In-push_new a x (y ∷ ys) m = elim (Bool-cases (x == y)) [
  | inl e ↦ ground (arith, e, eq→≡ x y e)
  | inr e ↦ ground (arith, e)
]

dedup-In : (a : Str) (xs : List Str) → In a (dedup xs) → In a xs
unfolding dedup
dedup-In a [] m = absurd m
dedup-In a (x ∷ xs) m = ground (arith, push_new-In a x (dedup xs), dedup-In a xs)

In-dedup : (a : Str) (xs : List Str) → In a xs → In a (dedup xs)
unfolding dedup
In-dedup a [] m = absurd m
In-dedup a (x ∷ xs) m = ground (arith, In-push_new a x (dedup xs), In-dedup a xs)

-- A sorted list without its duplicates has the members of the list.
pub dedup-sort-In : (a : Str) (xs : List Str) → In a (dedup (sort xs)) → In a xs
dedup-sort-In a xs m = sort-In a xs (dedup-In a (sort xs) m)

pub In-dedup-sort : (a : Str) (xs : List Str) → In a xs → In a (dedup (sort xs))
In-dedup-sort a xs m = In-dedup a (sort xs) (In-sort a xs m)
