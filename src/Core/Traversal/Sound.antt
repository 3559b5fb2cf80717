-- ===== src/Core/Traversal/Sound.antt =====
-- Every id of the walk's result is a root or an ancestor of one.
use tinycloud_node.Common.{
  ℕ, zero, suc, ◌≡◌, refl, ap, ◌∙◌, ◌⊎◌, inl, inr, List, [], ◌∷◌, ◌++◌, some, arith, length, take,
  In, In-append, reverse, Bool-cases, Option-cases, ltb, ok,
}
use mathlib.Core.List.{reverse_aux}
use tinycloud_node.Common.Sort.{sort, dedup, dedup-sort-In, In-dedup-sort}
use tinycloud_node.Common.Classes.{List_eq, Nat_eq}
use tinycloud_node.Core.Traversal.{
  Hash, Link, max_chain_traversal_nodes, parents_of, traverse, traversal_fuel,
  ancestor_chain_ids_for_roots,
}
use tinycloud_node.Core.Traversal.Step.{Pushed, cited, traverse-step}

-- A chain of links from a delegation up to an ancestor.
pub data Ancestor (links : List Link) : Hash → Hash → Type 0 where
  self : {a : Hash} → Ancestor links a a
  up : {a b c : Hash} → In b (parents_of links a) → Ancestor links b c → Ancestor links a c

pub Ancestor-trans :
    (links : List Link) {a b c : Hash}
    → Ancestor links a b
    → Ancestor links b c
    → Ancestor links a c
Ancestor-trans links self g = g
Ancestor-trans links (up m f) g = up m (Ancestor-trans links f g)

take-In : (n : ℕ) (xs : List Hash) (a : Hash) → In a (take n xs) → In a xs
take-In zero xs a m = absurd m
take-In (suc n) [] a m = absurd m
take-In (suc n) (x ∷ xs) a m = ground (arith, take-In n xs a)

pub In-reverse_aux : (a : Hash) (xs ys : List Hash) → In a xs ⊎ In a ys → In a (reverse_aux xs ys)
In-reverse_aux a [] ys m = ground arith
In-reverse_aux a (x ∷ xs) ys m = In-reverse_aux a xs (x ∷ ys) (ground arith)

pub reverse_aux-In : (a : Hash) (xs ys : List Hash) → In a (reverse_aux xs ys) → In a xs ⊎ In a ys
reverse_aux-In a [] ys m = inr m
reverse_aux-In a (x ∷ xs) ys m = ground (arith, reverse_aux-In a xs (x ∷ ys))

module _ (links : List Link) (P : Hash → Type 0)
    (closed : (a b : Hash) → P a → In b (parents_of links a) → P b) where
  -- What holds of the roots, and of the parents of what it holds of, holds of every id.
  pub traverse_inv :
      (fuel : ℕ) (ordered frontier ids : List Hash)
      → ((a : Hash) → In a ordered → P a)
      → ((a : Hash) → In a frontier → P a)
      → traverse links fuel ordered frontier ≡ some (ok ids)
      → (a : Hash) → In a ids
      → P a
  traverse_inv zero ordered frontier ids o f h a m = unfold traverse in cc
  traverse_inv (suc fuel) ordered [] ids o f h a m =
      let e : ordered ≡ ids = unfold traverse in ground arith in o a (rw e m)
  traverse_inv (suc fuel) ordered (x ∷ frontier) ids o f h a m =
      elim (traverse-step links fuel ordered x frontier ids h) [
        | inl (seen, k) ↦ traverse_inv fuel ordered frontier ids o (λ b i. f b (inr i)) k a m
        | inr (next, room, w, k) ↦
            traverse_inv fuel (ordered ++ x ∷ []) next ids (visited o f) (pushed f w) k a m
      ]
    where
      visited :
          ((a : Hash) → In a ordered → P a)
          → ((a : Hash) → In a (x ∷ frontier) → P a)
          → (b : Hash) → In b (ordered ++ x ∷ [])
          → P b
      visited o f b i = elim (In-append b ordered (x ∷ []) i) [
        | inl j ↦ o b j
        | inr j ↦ elim j [ inl e ↦ f b (inl e) | inr k ↦ absurd k ]
      ]

      pushed :
          {next : List Hash}
          → ((a : Hash) → In a (x ∷ frontier) → P a)
          → Pushed (ordered ++ x ∷ []) frontier (cited links fuel ordered x frontier) next
          → (b : Hash) → In b next
          → P b
      pushed f w b i = elim (w.from b i) [
        | inl j ↦ f b (inr j)
        | inr j ↦ closed x b (f x (inl refl)) (take-In _ (parents_of links x) b j)
      ]

-- The walk of a result starts at the roots.
pub chain_walk :
    (links : List Link) (roots ids : List Hash)
    → ancestor_chain_ids_for_roots links roots ≡ ok ids
    → traverse links traversal_fuel [] (reverse (dedup (sort roots))) ≡ some (ok ids)
unfolding ancestor_chain_ids_for_roots
chain_walk links roots ids h =
    let frontier = reverse (dedup (sort roots)) in
    elim (Bool-cases (ltb max_chain_traversal_nodes (length (dedup (sort roots))))) [
      | inl over ↦ absurd (ground (arith, over))
      | inr room ↦ elim (Option-cases (traverse links traversal_fuel [] frontier)) [
        | inl e ↦ absurd (ground (arith, room, e))
        | inr (r, e) ↦ e ∙ ap some (ground (arith, room, e))
      ]
    ]

pub frontier-roots :
    (roots : List Hash) (a : Hash) → In a (reverse (dedup (sort roots))) → In a roots
frontier-roots roots a m =
    dedup-sort-In a roots
      (elim (reverse_aux-In a (dedup (sort roots)) [] m) [ inl i ↦ i | inr i ↦ absurd i ])

pub roots-frontier :
    (roots : List Hash) (a : Hash) → In a roots → In a (reverse (dedup (sort roots)))
roots-frontier roots a m = In-reverse_aux a (dedup (sort roots)) [] (inl (In-dedup-sort a roots m))

-- Every id that the walk returns is one of the roots, or an ancestor of one.
pub ancestor_chain_ids_for_roots_sound :
    (links : List Link) (roots ids : List Hash) (a : Hash)
    → ancestor_chain_ids_for_roots links roots ≡ ok ids
    → In a ids
    → (r : Hash) × In r roots × Ancestor links r a
ancestor_chain_ids_for_roots_sound links roots ids a h m =
    traverse_inv links FromRoots closed traversal_fuel [] (reverse (dedup (sort roots))) ids
      (λ b i. absurd i) (λ b i. (b, frontier-roots roots b i, self)) (chain_walk links roots ids h)
      a m
  where
    FromRoots : Hash → Type 0
    FromRoots b = (r : Hash) × In r roots × Ancestor links r b

    closed : (b c : Hash) → FromRoots b → In c (parents_of links b) → FromRoots c
    closed b c (r, i, g) k = (r, i, Ancestor-trans links g (up k self))
