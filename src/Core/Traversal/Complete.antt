-- ===== src/Core/Traversal/Complete.antt =====
-- When no delegation has more parents than the query's limit lets through, no ancestor is missed.
use tinycloud_node.Common.{
  ℕ, zero, suc, ◌+◌, ◌-◌, ◌≤◌, ◌≡◌, refl, ◌⊎◌, inl, inr, List, [], ◌∷◌, ◌++◌, some, arith, length,
  length-append, take, In, In-append_left, In-append_right, In-append, reverse, ok,
}
use tinycloud_node.Common.Sort.{sort, dedup}
use tinycloud_node.Core.Traversal.{
  Hash, Link, max_chain_traversal_nodes, parents_of, traverse, traversal_fuel,
  ancestor_chain_ids_for_roots,
}
use tinycloud_node.Core.Traversal.Step.{Pushed, cited, traverse-step}
use tinycloud_node.Core.Traversal.Sound.{Ancestor, self, up, chain_walk, roots-frontier}

take-length : (n : ℕ) (xs : List Hash) → length xs ≤ n → take n xs ≡ xs
take-length zero [] h = refl
take-length zero (x ∷ xs) h = elim h [ ]
take-length (suc n) [] h = refl
take-length (suc n) (x ∷ xs) h = rw (take-length n xs (omega arith))

module _ (links : List Link) where
  traverse-length :
      (fuel : ℕ) (ordered frontier ids : List Hash)
      → traverse links fuel ordered frontier ≡ some (ok ids)
      → length ordered ≤ length ids
  traverse-length zero ordered frontier ids h = unfold traverse in cc
  traverse-length (suc fuel) ordered [] ids h =
      let e : ordered ≡ ids = unfold traverse in ground arith in rw e (omega arith)
  traverse-length (suc fuel) ordered (x ∷ frontier) ids h =
      elim (traverse-step links fuel ordered x frontier ids h) [
        | inl (seen, k) ↦ traverse-length fuel ordered frontier ids k
        | inr (next, room, w, k) ↦ omega (
          arith,
          traverse-length fuel (ordered ++ x ∷ []) next ids k,
          length-append ordered (x ∷ []),
        )
      ]

  traverse-keeps :
      (fuel : ℕ) (ordered frontier ids : List Hash) (a : Hash)
      → traverse links fuel ordered frontier ≡ some (ok ids)
      → In a ordered
      → In a ids
  traverse-keeps zero ordered frontier ids a h m = unfold traverse in cc
  traverse-keeps (suc fuel) ordered [] ids a h m =
      let e : ordered ≡ ids = unfold traverse in ground arith in rw (← e) m
  traverse-keeps (suc fuel) ordered (x ∷ frontier) ids a h m =
      elim (traverse-step links fuel ordered x frontier ids h) [
        | inl (seen, k) ↦ traverse-keeps fuel ordered frontier ids a k m
        | inr (next, room, w, k) ↦
            traverse-keeps fuel (ordered ++ x ∷ []) next ids a k
              (In-append_left a ordered (x ∷ []) m)
      ]

  -- With the number of ids that are returned, each of them has few enough parents.
  abbrev pub FewParents : List Hash → Type 0
  FewParents ids = (a : Hash) → In a ids → length (parents_of links a) + length ids ≤ 65

  abbrev Covered : List Hash → List Hash → Type 0
  Covered ordered frontier =
      (a b : Hash) → In a ordered → In b (parents_of links a) → In b ordered ⊎ In b frontier

  record Closed (ordered frontier ids : List Hash) : Type 0 where
    keeps : (a : Hash) → In a ordered → In a ids
    looks : (a : Hash) → In a frontier → In a ids
    closed : (a b : Hash) → In a ids → In b (parents_of links a) → In b ids

  traverse-Closed :
      (fuel : ℕ) (ordered frontier ids : List Hash)
      → FewParents ids
      → Covered ordered frontier
      → traverse links fuel ordered frontier ≡ some (ok ids)
      → Closed ordered frontier ids
  traverse-Closed zero ordered frontier ids few c h = unfold traverse in cc
  traverse-Closed (suc fuel) ordered [] ids few c h =
      let e : ordered ≡ ids = unfold traverse in ground arith in
      rw (← e) (record {
        keeps = λ a m. m;
        looks = λ a m. absurd m;
        closed = λ a b m k. elim (c a b m k) [ inl q ↦ q | inr q ↦ absurd q ];
      })
  traverse-Closed (suc fuel) ordered (x ∷ frontier) ids few c h =
      elim (traverse-step links fuel ordered x frontier ids h) [
        | inl (seen, k) ↦
            let r = traverse-Closed fuel ordered frontier ids few (covered_seen seen c) k in
            record {
              keeps = r.keeps;
              looks = λ a m. elim m [ inl e ↦ rw (← e) (r.keeps x seen) | inr i ↦ r.looks a i ];
              closed = r.closed;
            }
        | inr (next, room, w, k) ↦
            let longer = traverse-length fuel (ordered ++ x ∷ []) next ids k in
            let inside =
              traverse-keeps fuel (ordered ++ x ∷ []) next ids x k
                (In-append_right x ordered (x ∷ []) (inl refl)) in
            let whole = cited_all (few x inside) longer in
            let r =
              traverse-Closed fuel (ordered ++ x ∷ []) next ids few (covered_new w whole c) k in
            record {
              keeps = λ a m. r.keeps a (In-append_left a ordered (x ∷ []) m);
              looks = λ a m. elim m [ inl e ↦ rw (← e) inside | inr i ↦ r.looks a (w.kept a i) ];
              closed = r.closed;
            }
      ]
    where
      covered_seen : In x ordered → Covered ordered (x ∷ frontier) → Covered ordered frontier
      covered_seen seen c a b m k = elim (c a b m k) [
        | inl q ↦ inl q
        | inr q ↦ elim q [ inl e ↦ inl (rw (← e) seen) | inr i ↦ inr i ]
      ]

      cited_all :
          length (parents_of links x) + length ids ≤ 65
          → length (ordered ++ x ∷ []) ≤ length ids
          → cited links fuel ordered x frontier ≡ parents_of links x
      cited_all p q =
          take-length (max_chain_traversal_nodes - length (ordered ++ x ∷ []) + 1)
            (parents_of links x) (omega arith)

      covered_new :
          {next : List Hash}
          → Pushed (ordered ++ x ∷ []) frontier (cited links fuel ordered x frontier) next
          → cited links fuel ordered x frontier ≡ parents_of links x
          → Covered ordered (x ∷ frontier)
          → Covered (ordered ++ x ∷ []) next
      covered_new w whole c a b m k = elim (In-append a ordered (x ∷ []) m) [
        | inl i ↦ elim (c a b i k) [
          | inl q ↦ inl (In-append_left b ordered (x ∷ []) q)
          | inr q ↦ elim q [
            | inl e ↦ inl (In-append_right b ordered (x ∷ []) (inl e))
            | inr j ↦ inr (w.kept b j)
          ]
        ]
        | inr i ↦ elim i [ inl e ↦ w.covered b (rw whole (rw e k)) | inr z ↦ absurd z ]
      ]

  Closed-Ancestor :
      {ordered frontier ids : List Hash} {a b : Hash}
      → Closed ordered frontier ids
      → In a ids
      → Ancestor links a b
      → In b ids
  Closed-Ancestor c m self = m
  Closed-Ancestor c m (up {a} {b} k g) = Closed-Ancestor c (c.closed a b m k) g

  -- If each id that the walk returns has, together with the number of ids, at most sixty-five
  -- parents, then every ancestor of every root is among the ids.
  pub ancestor_chain_ids_for_roots_complete :
      (roots ids : List Hash) (r a : Hash)
      → ancestor_chain_ids_for_roots links roots ≡ ok ids
      → FewParents ids
      → In r roots
      → Ancestor links r a
      → In a ids
  ancestor_chain_ids_for_roots_complete roots ids r a h few m g =
      let c =
        traverse-Closed traversal_fuel [] (reverse (dedup (sort roots))) ids few
          (λ x y i k. absurd i) (chain_walk links roots ids h) in
      Closed-Ancestor c (c.looks r (roots-frontier roots r m)) g
