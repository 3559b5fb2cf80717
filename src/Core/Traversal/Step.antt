-- ===== src/Core/Traversal/Step.antt =====
-- One round of the walk up the proof graph, and what pushing parents does to the frontier.
use tinycloud_node.Common.{
  ℕ, suc, ◌+◌, ◌-◌, ◌≤◌, ◌≡◌, ◌⊎◌, inl, inr, List, [], ◌∷◌, ◌++◌, some, true, ◌||◌, arith, length,
  take, contains, In, contains→In, leb, ltb, Bool-cases, ok, Result-cases,
}
use tinycloud_node.Common.Classes.{List_eq, Nat_eq}
use tinycloud_node.Core.Traversal.{
  Hash, Link, max_chain_traversal_nodes, parents_of, push_parents, traverse,
}

module _ (visited : List Hash) where
  -- What the loop over the links does to the frontier.
  pub record Pushed (frontier ps next : List Hash) : Type 0 where
    pub kept : (q : Hash) → In q frontier → In q next
    pub covered : (p : Hash) → In p ps → In p visited ⊎ In p next
    pub from : (q : Hash) → In q next → In q frontier ⊎ In q ps
    pub bound : length frontier ≤ 64 → length next ≤ 64

  Pushed-skip :
      (frontier : List Hash) (p : Hash) (ps next : List Hash)
      → In p visited ⊎ In p frontier
      → Pushed frontier ps next
      → Pushed frontier (p ∷ ps) next
  Pushed-skip frontier p ps next old w = record {
    kept = w.kept;
    covered = λ q m. elim m [
      | inr m' ↦ w.covered q m'
      | inl e ↦ elim old [ inl v ↦ inl (rw (← e) v) | inr f ↦ inr (w.kept q (rw (← e) f)) ]
    ];
    from = λ q m. elim (w.from q m) [ inl f ↦ inl f | inr k ↦ inr (inr k) ];
    bound = w.bound;
  }

  Pushed-new :
      (frontier : List Hash) (p : Hash) (ps next : List Hash)
      → length frontier + 1 ≤ 64
      → Pushed (p ∷ frontier) ps next
      → Pushed frontier (p ∷ ps) next
  Pushed-new frontier p ps next room w = record {
    kept = λ q m. w.kept q (inr m);
    covered = λ q m. elim m [ inl e ↦ inr (w.kept q (inl e)) | inr m' ↦ w.covered q m' ];
    from = λ q m. elim (w.from q m) [
      | inr k ↦ inr (inr k)
      | inl f ↦ elim f [ inl e ↦ inr (inl e) | inr f' ↦ inl f' ]
    ];
    bound = λ h. w.bound (omega arith);
  }

  pub push_parents-Pushed :
      (frontier ps next : List Hash)
      → push_parents visited frontier ps ≡ ok next
      → Pushed frontier ps next
  unfolding push_parents
  push_parents-Pushed frontier [] next h =
      let e : frontier ≡ next = ground arith in
      rw (← e)
        (record { kept = λ q m. m; covered = λ p m. absurd m; from = λ q m. inl m; bound = λ k. k })
  push_parents-Pushed frontier (p ∷ ps) next h =
      elim (Bool-cases (contains visited p || contains frontier p)) [
        | inl e ↦
            Pushed-skip frontier p ps next (old e)
              (push_parents-Pushed frontier ps next (rw (e, push_parents) at h))
        | inr e ↦
            elim (Bool-cases (leb max_chain_traversal_nodes (length visited + length frontier))) [
              | inl full ↦ absurd (ground (arith, e, full))
              | inr room ↦
                  Pushed-new frontier p ps next (ground arith)
                    (push_parents-Pushed (p ∷ frontier) ps next (ground (arith, e, room)))
            ]
      ]
    where
      old : (contains visited p || contains frontier p) ≡ true → In p visited ⊎ In p frontier
      old t = ground (arith, contains→In visited p, contains→In frontier p)

module _ (links : List Link) (fuel : ℕ) (ordered : List Hash) (current : Hash)
    (frontier : List Hash) where
  abbrev pub visited_of : List Hash
  visited_of = ordered ++ current ∷ []

  -- The parents that the query returns, under its limit.
  abbrev pub cited : List Hash
  cited = take (max_chain_traversal_nodes - length visited_of + 1) (parents_of links current)

  -- A round that ends well: the id was visited before, or it is visited and its parents are pushed.
  pub traverse-step :
      (ids : List Hash)
      → traverse links (suc fuel) ordered (current ∷ frontier) ≡ some (ok ids)
      → (In current ordered × (traverse links fuel ordered frontier ≡ some (ok ids)))
        ⊎ ((next : List Hash) × (length visited_of ≤ 64)
            × Pushed visited_of frontier cited next
            × (traverse links fuel visited_of next ≡ some (ok ids)))
  unfolding traverse
  traverse-step ids h = elim (Bool-cases (contains ordered current)) [
    | inl e ↦ inl (contains→In ordered current e, rw (e, traverse) at h)
    | inr e ↦ elim (Bool-cases (ltb max_chain_traversal_nodes (length visited_of))) [
      | inl over ↦ absurd (ground (arith, e, over))
      | inr room ↦ elim (Result-cases (push_parents visited_of frontier cited)) [
        | inr (x, f) ↦ absurd (ground (arith, e, room, f))
        | inl (next, f) ↦ inr (
          next,
          ground arith,
          push_parents-Pushed visited_of frontier cited next f,
          ground (arith, e, room, f),
        )
      ]
    ]
  ]
