-- ===== src/Core/Traversal/Fuel.antt =====
-- The walk ends: its fuel is enough for every graph.
use tinycloud_node.Common.{
  ℕ, zero, suc, ◌+◌, ◌-◌, ◌*◌, ◌≤◌, ◌<◌, ◌≡◌, refl, inl, inr, List, [], ◌∷◌, ◌++◌, some, true,
  false, arith, length, length-append, contains, ltb, Bool-cases, reverse, Result, ok, err,
  Result-cases,
}
use tinycloud_node.Common.Classes.{List_eq, Nat_eq}
use mathlib.Core.List.{reverse_aux}
use tinycloud_node.Common.Sort.{sort, dedup}
use tinycloud_node.Core.Traversal.Sound.{chain_walk}
use tinycloud_node.Core.Traversal.{
  ancestor_chain_ids_for_roots, Hash, Link, ChainTraversalError, max_chain_traversal_nodes,
  push_parents, traverse, traversal_fuel,
}
use tinycloud_node.Core.Traversal.Step.{
  traverse-step, visited_of, cited, push_parents-Pushed, Pushed,
}

module _ (links : List Link) where
  -- The walk ends with a result.
  abbrev pub Ends : ℕ → List Hash → List Hash → Type 0
  Ends fuel ordered frontier =
      (r : Result ChainTraversalError (List Hash)) × (traverse links fuel ordered frontier ≡ some r)

  Ends-seen :
      (fuel : ℕ) (ordered : List Hash) (x : Hash) (frontier : List Hash)
      → contains ordered x ≡ true
      → Ends fuel ordered frontier
      → Ends (suc fuel) ordered (x ∷ frontier)
  unfolding traverse
  Ends-seen fuel ordered x frontier e (r, p) = (r, rw (e, traverse) p)

  Ends-visit :
      (fuel : ℕ) (ordered : List Hash) (x : Hash) (frontier : List Hash)
      → contains ordered x ≡ false
      → ((next : List Hash)
          → length (visited_of links fuel ordered x frontier) ≤ 64
          → Pushed
              (visited_of links fuel ordered x frontier)
              frontier
              (cited links fuel ordered x frontier)
              next
          → Ends fuel (visited_of links fuel ordered x frontier) next)
      → Ends (suc fuel) ordered (x ∷ frontier)
  unfolding traverse
  Ends-visit fuel ordered x frontier e rest =
      let v = visited_of links fuel ordered x frontier in
      let ps = cited links fuel ordered x frontier in
      elim (Bool-cases (ltb max_chain_traversal_nodes (length v))) [
        | inl over ↦ (err ChainTraversalError.limit_exceeded, ground (arith, e, over))
        | inr room ↦ elim (Result-cases (push_parents v frontier ps)) [
          | inr (y, f) ↦ (err y, ground (arith, e, room, f))
          | inl (next, f) ↦
              let (r, p) = rest next (ground arith) (push_parents-Pushed v frontier ps next f) in
              (r, ground (arith, e, room, f, p))
        ]
      ]

  -- Every visit takes one of sixty-four places, and leaves at most sixty-four ids to look at.
  pub traverse-Ends :
      (fuel : ℕ) (ordered frontier : List Hash)
      → length frontier ≤ 64
      → length ordered ≤ 64
      → (64 - length ordered) * 65 + length frontier < fuel
      → Ends fuel ordered frontier
  traverse-Ends zero ordered frontier h o m = elim m [ ]
  traverse-Ends (suc fuel) ordered [] h o m = (ok ordered, unfold traverse in refl)
  traverse-Ends (suc fuel) ordered (x ∷ frontier) h o m = elim (Bool-cases (contains ordered x)) [
    | inl e ↦
        Ends-seen fuel ordered x frontier e
          (traverse-Ends fuel ordered frontier (omega arith) o (omega arith))
    | inr e ↦ Ends-visit fuel ordered x frontier e λ next v w.
        traverse-Ends fuel (ordered ++ x ∷ []) next (w.bound (omega arith)) v
          (omega (arith, length-append ordered (x ∷ []), w.bound (omega arith), v))
  ]

length-reverse_aux : (xs ys : List Hash) → length (reverse_aux xs ys) ≡ length xs + length ys
length-reverse_aux [] ys = omega arith
length-reverse_aux (x ∷ xs) ys = omega (arith, length-reverse_aux xs (x ∷ ys))

-- For every graph and at most sixty-four distinct roots the walk comes to its end, with the ids or
-- with the limit as its result, and that result is what is returned.
pub ancestor_chain_ids_for_roots_ends :
    (links : List Link) (roots : List Hash)
    → length (dedup (sort roots)) ≤ max_chain_traversal_nodes
    → (r : Result ChainTraversalError (List Hash)) × (traverse links traversal_fuel []
          (reverse (dedup (sort roots)))
        ≡ some r)
      × (ancestor_chain_ids_for_roots links roots ≡ r)
unfolding ancestor_chain_ids_for_roots
ancestor_chain_ids_for_roots_ends links roots h =
    let frontier = reverse (dedup (sort roots)) in
    let (r, e) =
      traverse-Ends links traversal_fuel [] frontier
        (omega (arith, length-reverse_aux (dedup (sort roots)) [])) (omega arith)
        (omega (arith, length-reverse_aux (dedup (sort roots)) [])) in
    (r, e, ground (arith, e))

module _ (links : List Link) where
  traverse_bound :
      (fuel : ℕ) (ordered frontier ids : List Hash)
      → length ordered ≤ 64
      → traverse links fuel ordered frontier ≡ some (ok ids)
      → length ids ≤ 64
  traverse_bound zero ordered frontier ids o h = unfold traverse in cc
  traverse_bound (suc fuel) ordered [] ids o h =
      let e : ordered ≡ ids = unfold traverse in ground arith in rw (← e) o
  traverse_bound (suc fuel) ordered (x ∷ frontier) ids o h =
      elim (traverse-step links fuel ordered x frontier ids h) [
        | inl (seen, k) ↦ traverse_bound fuel ordered frontier ids o k
        | inr (next, room, w, k) ↦ traverse_bound fuel (ordered ++ x ∷ []) next ids room k
      ]

  -- No walk returns more than sixty-four ids.
  pub ancestor_chain_ids_for_roots_bound :
      (roots ids : List Hash)
      → ancestor_chain_ids_for_roots links roots ≡ ok ids
      → length ids ≤ max_chain_traversal_nodes
  ancestor_chain_ids_for_roots_bound roots ids h =
      traverse_bound traversal_fuel [] (reverse (dedup (sort roots))) ids (omega arith)
        (chain_walk links roots ids h)
