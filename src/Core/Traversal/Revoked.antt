-- ===== src/Core/Traversal/Revoked.antt =====
-- What the search for a revoked ancestor tells of the whole chain.
use tinycloud_node.Common.{
  ℕ, zero, suc, ◌≡◌, refl, sym, ◌∙◌, ap, inl, inr, List, [], ◌∷◌, ◌++◌, none, some, Bool, false,
  arith, drop, find, In, ok, >>=-eq-ok, ok_unique,
}
use mathlib.Core.List.{append_assoc, append-nil}
use tinycloud_node.Core.Traversal.{
  Hash, Link, RevocationRow, traverse, ancestor_chain_ids_for_roots, ancestor_chain_ids, is_revoked,
  first_revoked_ancestor,
}
use tinycloud_node.Common.Sort.{dedup, sort}
use tinycloud_node.Core.Traversal.Step.{traverse-step}
use tinycloud_node.Core.Traversal.Sound.{Ancestor, chain_walk}
use tinycloud_node.Core.Traversal.Complete.{FewParents, ancestor_chain_ids_for_roots_complete}

find-eq-none :
    {A : Type 0} (p : A → Bool) (xs : List A) (a : A) → find p xs ≡ none → In a xs → p a ≡ false
find-eq-none p [] a h m = absurd m
find-eq-none p (x ∷ xs) a h m = ground (arith, find-eq-none p xs a)

module _ (links : List Link) where
  -- The walk keeps the ids that it has visited, in front.
  traverse-prefix :
      (fuel : ℕ) (ordered frontier ids : List Hash)
      → traverse links fuel ordered frontier ≡ some (ok ids)
      → (rest : List Hash) × (ids ≡ ordered ++ rest)
  traverse-prefix zero ordered frontier ids h = unfold traverse in cc
  traverse-prefix (suc fuel) ordered [] ids h =
      let e : ordered ≡ ids = unfold traverse in ground arith in
      ([], sym e ∙ sym (append-nil ordered))
  traverse-prefix (suc fuel) ordered (x ∷ frontier) ids h =
      elim (traverse-step links fuel ordered x frontier ids h) [
        | inl (seen, k) ↦ traverse-prefix fuel ordered frontier ids k
        | inr (next, room, w, k) ↦
            let (rest, e) = traverse-prefix fuel (ordered ++ x ∷ []) next ids k in
            (x ∷ rest, e ∙ append_assoc ordered (x ∷ []) rest)
      ]

  -- The walk from one delegation returns it first.
  ancestor_chain_ids-first :
      (start : Hash) (ids : List Hash)
      → ancestor_chain_ids links start ≡ ok ids
      → (rest : List Hash) × (ids ≡ start ∷ rest)
  unfolding ancestor_chain_ids dedup sort
  ancestor_chain_ids-first start ids h =
      elim (traverse-step links 4225 [] start [] ids (chain_walk links (start ∷ []) ids h)) [
        | inl (seen, k) ↦ absurd seen
        | inr (next, room, w, k) ↦ traverse-prefix 4225 (start ∷ []) next ids k
      ]

  module _ (rows : List RevocationRow) (start : Hash) (ids : List Hash)
      (walk : ancestor_chain_ids links start ≡ ok ids) where
    -- If neither the delegation nor, by the search, an ancestor is revoked, no id of the chain is.
    chain_unrevoked :
        (a : Hash)
        → is_revoked rows start ≡ false
        → first_revoked_ancestor links rows start ≡ ok none
        → In a ids
        → is_revoked rows a ≡ false
    unfolding first_revoked_ancestor
    chain_unrevoked a active h m =
        let (rest, e) = ancestor_chain_ids-first start ids walk in
        let (ids', f, k) = >>=-eq-ok (ancestor_chain_ids links start) _ h in
        let same : ids' ≡ start ∷ rest = ok_unique (ancestor_chain_ids links start) f walk ∙ e in
        let found : find (is_revoked rows) rest ≡ none =
          ap (λ x. find (is_revoked rows) (drop 1 x)) (sym same) ∙ ground arith in
        ground (arith, find-eq-none (is_revoked rows) rest a found, m, e)

-- A delegation that is not revoked itself and behind which the search finds no revoked ancestor has
-- no revoked ancestor at all, if each delegation of its chain has, together with the number of the
-- chain's delegations, at most sixty-five parents.
pub first_revoked_ancestor_complete :
    (links : List Link) (rows : List RevocationRow) (start a : Hash) (ids : List Hash)
    → is_revoked rows start ≡ false
    → first_revoked_ancestor links rows start ≡ ok none
    → ancestor_chain_ids links start ≡ ok ids
    → FewParents links ids
    → Ancestor links start a
    → is_revoked rows a ≡ false
first_revoked_ancestor_complete links rows start a ids active h walk few g =
    let k : ancestor_chain_ids_for_roots links (start ∷ []) ≡ ok ids =
      unfold ancestor_chain_ids in walk in
    chain_unrevoked links rows start ids walk a active h
      (ancestor_chain_ids_for_roots_complete links (start ∷ []) ids start a k few (inl refl) g)
