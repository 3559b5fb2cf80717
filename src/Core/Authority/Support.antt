-- ===== src/Core/Authority/Support.antt =====
-- The search for a supporting ability, and the abilities of several delegations.
use tinycloud_node.Common.{
  ℕ, ◌≡◌, refl, sym, ◌∙◌, ap, inl, inr, List, [], ◌∷◌, true, arith, In, In-append, In-append_left,
  In-append_right, filter, filter-In, In-filter, Result, ok, Result-cases,
}
use tinycloud_node.Common.Classes.{Str, ◌==◌, eq→≡, eq_refl, List_eq, Nat_eq}
use tinycloud_node.Core.Json.{Json}
use tinycloud_node.Core.Policy.Actions.{ability_matches}
use tinycloud_node.Core.Resource.{resource_extends}
use tinycloud_node.Core.Authority.{
  Caveats, Capability, DelegationRow, AbilityRow, authorized, abilities_of, parent_abilities,
  try_candidates, search_candidates, is_candidate,
}

module _ {V : Type 0} (accept : Caveats V → Caveats V → Result Str (Unit {0}))
    (child : Caveats V) where
  -- A stored ability of the list accepts the caveats.
  abbrev pub Accepted : List (AbilityRow V) → Type 0
  Accepted pcs = (pc : AbilityRow V) × In pc pcs × (accept pc.caveats child ≡ ok tt)

  try_candidates_sound :
      (reason : Str) (pcs : List (AbilityRow V))
      → try_candidates accept child reason pcs ≡ authorized
      → Accepted pcs
  unfolding try_candidates
  try_candidates_sound reason [] h = cc
  try_candidates_sound reason (pc ∷ pcs) h = elim (Result-cases (accept pc.caveats child)) [
    | inl (u, e) ↦ (pc, inl refl, e)
    | inr (why, e) ↦
        let (qc, m, f) = try_candidates_sound why pcs (rw (e, try_candidates) at h) in
        (qc, inr m, f)
  ]

  try_candidates_complete :
      (reason : Str) (pcs : List (AbilityRow V)) (pc : AbilityRow V)
      → In pc pcs
      → accept pc.caveats child ≡ ok tt
      → try_candidates accept child reason pcs ≡ authorized
  unfolding try_candidates
  try_candidates_complete reason [] pc m h = absurd m
  try_candidates_complete reason (qc ∷ pcs) pc (inl e) h =
      let t : accept qc.caveats child ≡ ok tt = ap (λ x. accept x.caveats child) e ∙ h in
      rw (t, try_candidates)
  try_candidates_complete reason (qc ∷ pcs) pc (inr m) h =
      elim (Result-cases (accept qc.caveats child)) [
        | inl (u, e) ↦ rw (e, try_candidates)
        | inr (why, e) ↦ rw (e, try_candidates) (try_candidates_complete why pcs pc m h)
      ]

  pub search_candidates_sound :
      (reason : Str) (pcs : List (AbilityRow V))
      → search_candidates accept child reason pcs ≡ authorized
      → Accepted pcs
  unfolding search_candidates
  search_candidates_sound reason [] h = cc
  search_candidates_sound reason (pc ∷ pcs) h = try_candidates_sound reason (pc ∷ pcs) h

  pub search_candidates_complete :
      (reason : Str) (pcs : List (AbilityRow V)) (pc : AbilityRow V)
      → In pc pcs
      → accept pc.caveats child ≡ ok tt
      → search_candidates accept child reason pcs ≡ authorized
  unfolding search_candidates
  search_candidates_complete reason [] pc m h = absurd m
  search_candidates_complete reason (qc ∷ pcs) pc m h =
      try_candidates_complete reason (qc ∷ pcs) pc m h

module _ {V : Type 0} (rows : List (AbilityRow V)) where
  pub parent_abilities-In :
      (ps : List (DelegationRow V)) (a : AbilityRow V)
      → In a (parent_abilities rows ps)
      → (p : DelegationRow V) × In p ps × In a rows × (a.delegation ≡ p.id)
  unfolding parent_abilities abilities_of
  parent_abilities-In [] a m = absurd m
  parent_abilities-In (p ∷ ps) a m =
      elim (In-append a (abilities_of rows p.id) (parent_abilities rows ps) m) [
        | inl i ↦
            let (j, e) = filter-In (λ a. a.delegation == p.id) rows a i in
            (p, inl refl, j, eq→≡ a.delegation p.id e)
        | inr i ↦ let (q, j, k, e) = parent_abilities-In ps a i in (q, inr j, k, e)
      ]

  pub In-parent_abilities :
      (ps : List (DelegationRow V)) (p : DelegationRow V) (a : AbilityRow V)
      → In p ps
      → In a rows
      → a.delegation ≡ p.id
      → In a (parent_abilities rows ps)
  unfolding parent_abilities abilities_of
  In-parent_abilities [] p a m i e = absurd m
  In-parent_abilities (q ∷ ps) p a (inl f) i e =
      In-append_left a (abilities_of rows q.id) (parent_abilities rows ps) (
        In-filter (λ a. a.delegation == q.id) rows a i
          (rw (e ∙ sym (ap (λ x. x.id) f)) (eq_refl q.id)))
  In-parent_abilities (q ∷ ps) p a (inr m) i e =
      In-append_right a (abilities_of rows q.id) (parent_abilities rows ps)
        (In-parent_abilities ps p a m i e)

module _ (json : Json) (encode_eip55 : List ℕ → Str)
    (accept : Caveats json.Value → Caveats json.Value → Result Str (Unit {0})) where
  -- A stored ability supports a capability: its resource is extended, its ability matches, and its
  -- caveats are narrowed.
  pub record Supports (c : Capability json.Value) (a : AbilityRow json.Value) : Type 0 where
    pub resource : resource_extends encode_eip55 c.resource a.resource ≡ true
    pub ability : ability_matches a.ability c.ability ≡ true
    pub caveats : accept a.caveats c.caveats ≡ ok tt

  -- The search among the candidates finds a supporting ability.
  pub search_sound :
      (reason : Str) (c : Capability json.Value) (rows : List (AbilityRow json.Value))
      → search_candidates accept c.caveats reason (filter (is_candidate json encode_eip55 c) rows)
        ≡ authorized
      → (a : AbilityRow json.Value) × In a rows × Supports c a
  unfolding is_candidate
  search_sound reason c rows h =
      let (a, m, e) =
        search_candidates_sound accept c.caveats reason
          (filter (is_candidate json encode_eip55 c) rows) h in
      let (i, t) = filter-In (is_candidate json encode_eip55 c) rows a m in
      (a, i, record { resource = ground arith; ability = ground arith; caveats = e })

  pub search_complete :
      (reason : Str) (c : Capability json.Value) (rows : List (AbilityRow json.Value))
      (a : AbilityRow json.Value)
      → In a rows
      → Supports c a
      → search_candidates accept c.caveats reason (filter (is_candidate json encode_eip55 c) rows)
        ≡ authorized
  unfolding is_candidate
  search_complete reason c rows a m s =
      search_candidates_complete accept c.caveats reason
        (filter (is_candidate json encode_eip55 c) rows) a
        (In-filter (is_candidate json encode_eip55 c) rows a m (rw (s.resource) s.ability))
        s.caveats
