-- ===== src/Core/Delegation/Sound.antt =====
-- What an accepted delegation rests on.
use tinycloud_node.Common.{
  ℕ, ◌≡◌, refl, sym, ◌∙◌, ap, ◌⊎◌, inl, inr, List, [], ◌∷◌, Bool, true, false, not, ◌&&◌, arith, In,
  any, any-eq-false_In, filter, filter-In, In-filter, contains, contains→In, is_empty, Bool-cases,
  if◌then◌else◌, Result, ok, err, >>=-eq-ok, require-eq-ok,
}
use tinycloud_node.Common.Classes.{Str, ◌==◌, List_eq, Nat_eq, eq→≡}
use tinycloud_node.Core.Json.{Json}
use tinycloud_node.Core.Traversal.{Hash}
use tinycloud_node.Core.Authority.{
  Capability, DelegationRow, AbilityRow, Db, parent_abilities, Search, no_candidate, refused,
  authorized, is_root_authority,
}
use tinycloud_node.Core.Authority.Support.{
  Supports, search_sound, search_complete, parent_abilities-In,
}
use tinycloud_node.Core.Delegation.{
  DelegationInfo, DelegationError, expiry_valid, not_before_valid, ensure_parent_active,
  ensure_all_active, search_result, check_time, parent_is_terminal, caveats_contain_child,
  check_capability, check_capabilities, cited_parents, validate_against, validate,
}

module _ {V : Type 0} where
  search_result-ok : (c : Capability V) (s : Search) → search_result c s ≡ ok tt → s ≡ authorized
  unfolding search_result
  search_result-ok c no_candidate h = cc
  search_result-ok c (refused reason) h = cc
  search_result-ok c authorized h = refl

  ensure_all_active-In :
      (db : Db V) (ps : List (DelegationRow V)) (p : DelegationRow V)
      → ensure_all_active db ps ≡ ok tt
      → In p ps
      → ensure_parent_active db p.id ≡ ok tt
  unfolding ensure_all_active
  ensure_all_active-In db [] p h m = absurd m
  ensure_all_active-In db (q ∷ ps) p h m =
      let (u, e, k) = >>=-eq-ok (ensure_parent_active db q.id) _ h in
      elim m [
        | inl f ↦ sym (ap (λ x. ensure_parent_active db x.id) f) ∙ e
        | inr i ↦ ensure_all_active-In db ps p k i
      ]

  pub ensure_all_active_of_In :
      (db : Db V) (ps : List (DelegationRow V))
      → ((p : DelegationRow V) → In p ps → ensure_parent_active db p.id ≡ ok tt)
      → ensure_all_active db ps ≡ ok tt
  unfolding ensure_all_active
  ensure_all_active_of_In db [] h = refl
  ensure_all_active_of_In db (q ∷ ps) h =
      rw (h q (inl refl), ensure_all_active) (ensure_all_active_of_In db ps (λ p m. h p (inr m)))

module _ (json : Json) (encode_eip55 : List ℕ → Str) where
  open json use {Value}

  -- A stored delegation and one of its abilities support a capability of a new delegation.
  pub record SupportedBy (db : Db Value) (d : DelegationInfo Value) (c : Capability Value)
      (p : DelegationRow Value) (a : AbilityRow Value) : Type 0 where
    pub stored : In p db.delegations
    pub cited : In p.id d.parents
    pub delegatee : p.delegatee ≡ d.delegator
    pub expiry : expiry_valid p.expiry d.expiry ≡ true
    pub not_before : not_before_valid p.not_before d.not_before ≡ true
    pub row : In a db.abilities
    pub of_parent : a.delegation ≡ p.id
    pub supports : Supports json encode_eip55 (caveats_contain_child json) c a

  abbrev pub Supported : Db Value → DelegationInfo Value → Capability Value → Type 0
  Supported db d c = (p : DelegationRow Value) × (a : AbilityRow Value) × SupportedBy db d c p a

  -- Every cited parent is active and may be delegated from.
  pub record ParentsLive (db : Db Value) (d : DelegationInfo Value) : Type 0 where
    pub active :
        (p : DelegationRow Value)
        → In p (cited_parents json encode_eip55 db d)
        → ensure_parent_active db p.id ≡ ok tt
    pub attenuable :
        (p : DelegationRow Value)
        → In p (cited_parents json encode_eip55 db d)
        → parent_is_terminal json p ≡ false

  check_capabilities-In :
      (rows : List (AbilityRow Value)) (cs : List (Capability Value)) (c : Capability Value)
      → check_capabilities json encode_eip55 rows cs ≡ ok tt
      → In c cs
      → check_capability json encode_eip55 rows c ≡ ok tt
  unfolding check_capabilities
  check_capabilities-In rows [] c h m = absurd m
  check_capabilities-In rows (b ∷ cs) c h m =
      let (u, e, k) = >>=-eq-ok (check_capability json encode_eip55 rows b) _ h in
      elim m [
        | inl f ↦ sym (ap (λ x. check_capability json encode_eip55 rows x) f) ∙ e
        | inr i ↦ check_capabilities-In rows cs c k i
      ]

  pub check_capabilities_of_In :
      (rows : List (AbilityRow Value)) (cs : List (Capability Value))
      → ((c : Capability Value) → In c cs → check_capability json encode_eip55 rows c ≡ ok tt)
      → check_capabilities json encode_eip55 rows cs ≡ ok tt
  unfolding check_capabilities
  check_capabilities_of_In rows [] h = refl
  check_capabilities_of_In rows (c ∷ cs) h =
      rw (h c (inl refl), check_capabilities)
        (check_capabilities_of_In rows cs (λ b m. h b (inr m)))

  check_capability_sound :
      (rows : List (AbilityRow Value)) (c : Capability Value)
      → check_capability json encode_eip55 rows c ≡ ok tt
      → (a : AbilityRow Value) × In a rows
        × Supports json encode_eip55 (caveats_contain_child json) c a
  unfolding check_capability
  check_capability_sound rows c h =
      search_sound json encode_eip55 (caveats_contain_child json) _ c rows (search_result-ok c _ h)

  pub check_capability_complete :
      (rows : List (AbilityRow Value)) (c : Capability Value) (a : AbilityRow Value)
      → In a rows
      → Supports json encode_eip55 (caveats_contain_child json) c a
      → check_capability json encode_eip55 rows c ≡ ok tt
  unfolding check_capability search_result
  check_capability_complete rows c a m s =
      ap (search_result c)
        (search_complete json encode_eip55 (caveats_contain_child json) _ c rows a m s)

  abbrev pub in_time : DelegationInfo Value → DelegationRow Value → Bool
  in_time d p = expiry_valid p.expiry d.expiry && not_before_valid p.not_before d.not_before

  -- The capabilities that the loop accepts are supported.
  Supported-of_check :
      (db : Db Value) (d : DelegationInfo Value) (c : Capability Value)
      → check_capability json encode_eip55
          (parent_abilities db.abilities
            (filter (in_time d) (cited_parents json encode_eip55 db d)))
          c
        ≡ ok tt
      → Supported db d c
  unfolding cited_parents
  Supported-of_check db d c h =
      let parents = cited_parents json encode_eip55 db d in
      let (a, m, s) =
        check_capability_sound (parent_abilities db.abilities (filter (in_time d) parents)) c h in
      let (p, i, r, e) = parent_abilities-In db.abilities (filter (in_time d) parents) a m in
      let (j, t) = filter-In (in_time d) parents p i in
      let (k, q) =
        filter-In (λ p. contains d.parents p.id && p.delegatee == d.delegator) db.delegations p j in
      (
        p,
        a,
        record {
          stored = k;
          cited = contains→In d.parents p.id (ground arith);
          delegatee = eq→≡ p.delegatee d.delegator (ground arith);
          expiry = ground arith;
          not_before = ground arith;
          row = r;
          of_parent = e;
          supports = s;
        },
      )

  -- The early returns of `validate` with a dependent capability.
  passed :
      (r : Result DelegationError (Unit {0})) (e : DelegationError) (cs : List (Capability Value))
      (parents : List Hash) (c : Capability Value)
      → In c cs
      → (if is_empty cs then ok tt else if is_empty parents then err e else r) ≡ ok tt
      → r ≡ ok tt
  passed r e [] parents c m h = absurd m
  passed r e (b ∷ cs) [] c m h = cc
  passed r e (b ∷ cs) (p ∷ parents) c m h = h

  validate_against_sound :
      (db : Db Value) (d : DelegationInfo Value) (cs : List (Capability Value))
      (c : Capability Value)
      → validate_against json encode_eip55 db d cs (cited_parents json encode_eip55 db d) ≡ ok tt
      → In c cs
      → Supported db d c × ParentsLive db d
  unfolding validate_against
  validate_against_sound db d cs c h m =
      let parents = cited_parents json encode_eip55 db d in
      let kept = filter (in_time d) parents in
      let (t, h1) = require-eq-ok (not (is_empty parents)) _ _ h in
      let (u, live, h2) = >>=-eq-ok (ensure_all_active db parents) _ h1 in
      let (s, h3) = require-eq-ok (not (any (parent_is_terminal json) parents)) _ _ h2 in
      let (w, time, h4) = >>=-eq-ok (check_time d parents kept) _ h3 in
      let found = check_capabilities-In (parent_abilities db.abilities kept) cs c h4 m in
      (
        Supported-of_check db d c found,
        record {
          active = λ p i. ensure_all_active-In db parents p live i;
          attenuable = λ p i. any-eq-false_In (parent_is_terminal json) parents p (ground arith) i;
        },
      )

  -- A delegation that the validation accepts: each of its capabilities either belongs to a resource
  -- whose root authority is the delegator, or is supported by an ability of a stored delegation
  -- that it cites, that was made to the delegator, and that contains its time window, while every
  -- cited delegation made to the delegator is active and not terminal.
  pub validate-Supported :
      (db : Db Value) (d : DelegationInfo Value) (c : Capability Value)
      → validate json encode_eip55 db d ≡ ok tt
      → In c d.capabilities
      → (is_root_authority json encode_eip55 c d.delegator ≡ true)
        ⊎ (Supported db d c × ParentsLive db d)
  unfolding validate
  validate-Supported db d c h m =
      elim (Bool-cases (is_root_authority json encode_eip55 c d.delegator)) [
        | inl e ↦ inl e
        | inr e ↦
            let root : Capability Value → Bool =
              λ c. not (is_root_authority json encode_eip55 c d.delegator) in
            let dependent = filter root d.capabilities in
            let i = In-filter root d.capabilities c m (rw e) in
            let k : validate_against json encode_eip55 db d dependent
                  (cited_parents json encode_eip55 db d)
                ≡ ok tt =
              passed _ _ dependent d.parents c i h in
            inr (validate_against_sound db d dependent c k i)
      ]
