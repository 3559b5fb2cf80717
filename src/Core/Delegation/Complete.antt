-- ===== src/Core/Delegation/Complete.antt =====
-- When a delegation is accepted.
use tinycloud_node.Common.{
  ℕ, ◌≡◌, refl, ◌⊎◌, inl, inr, List, [], ◌∷◌, Bool, true, false, not, ◌&&◌, arith, In, any, filter,
  filter-In, In-filter, contains, In→contains, is_empty, if◌then◌else◌, Result, ok, err,
}
use tinycloud_node.Common.Classes.{Str, ◌==◌, List_eq, Nat_eq, eq_refl}
use tinycloud_node.Core.Json.{Json}
use tinycloud_node.Core.Authority.{
  Capability, DelegationRow, AbilityRow, Db, parent_abilities, is_root_authority,
}
use tinycloud_node.Core.Authority.Support.{In-parent_abilities}
use tinycloud_node.Core.Delegation.{
  DelegationInfo, DelegationError, check_time, parent_is_terminal, check_capabilities,
  cited_parents, validate_against, validate,
}
use tinycloud_node.Core.Delegation.Sound.{
  ensure_all_active_of_In, Supported, SupportedBy, ParentsLive, check_capabilities_of_In,
  check_capability_complete, in_time,
}

any-false_of_In :
    {A : Type 0} (p : A → Bool) (xs : List A) → ((a : A) → In a xs → p a ≡ false) → any p xs ≡ false
any-false_of_In p [] h = refl
any-false_of_In p (x ∷ xs) h = rw (h x (inl refl)) (any-false_of_In p xs (λ a m. h a (inr m)))

is_empty-In : {A : Type 0} (xs : List A) (a : A) → In a xs → is_empty xs ≡ false
is_empty-In [] a m = absurd m
is_empty-In (x ∷ xs) a m = refl

In-not_empty : {A : Type 0} (xs : List A) → is_empty xs ≡ false → (a : A) × In a xs
In-not_empty [] h = cc
In-not_empty (x ∷ xs) h = (x, inl refl)

check_time-In :
    {V : Type 0} (d : DelegationInfo V) (cited kept : List (DelegationRow V)) (p : DelegationRow V)
    → In p kept
    → check_time d cited kept ≡ ok tt
unfolding check_time
check_time-In d cited [] p m = absurd m
check_time-In d cited (q ∷ kept) p m = refl

-- The early returns of `validate`, when a dependent capability has parents to look at.
reached :
    (r : Result DelegationError (Unit {0})) (e : DelegationError) (t u : Bool)
    → (t ≡ false → (u ≡ false) × (r ≡ ok tt))
    → (if t then ok tt else if u then err e else r) ≡ ok tt
reached r e true u h = refl
reached r e false u h = let (k, l) = h refl in rw k l

module _ (json : Json) (encode_eip55 : List ℕ → Str) where
  open json use {Value}

  module _ (db : Db Value) (d : DelegationInfo Value) where
    cited_of_Supported :
        (p : DelegationRow Value) (a : AbilityRow Value) (c : Capability Value)
        → SupportedBy json encode_eip55 db d c p a
        → In p (cited_parents json encode_eip55 db d)
          × In p (filter (in_time json encode_eip55 d) (cited_parents json encode_eip55 db d))
    unfolding cited_parents
    cited_of_Supported p a c s =
        let here =
          In-filter (λ p. contains d.parents p.id && p.delegatee == d.delegator) db.delegations p
            s.stored (rw (In→contains d.parents p.id s.cited, s.delegatee) (eq_refl d.delegator)) in
        (
          here,
          In-filter (in_time json encode_eip55 d) (cited_parents json encode_eip55 db d) p here
              (rw (s.expiry) s.not_before),
        )

    validate_against_complete :
        (cs : List (Capability Value)) (c : Capability Value)
        → ParentsLive json encode_eip55 db d
        → In c cs
        → ((b : Capability Value) → In b cs → Supported json encode_eip55 db d b)
        → validate_against json encode_eip55 db d cs (cited_parents json encode_eip55 db d) ≡ ok tt
    unfolding validate_against
    validate_against_complete cs c live m h =
        let cited = cited_parents json encode_eip55 db d in
        let kept = filter (in_time json encode_eip55 d) cited in
        let (p, a, s) = h c m in
        let (i, j) = cited_of_Supported p a c s in
        let checked : check_capabilities json encode_eip55 (parent_abilities db.abilities kept) cs
            ≡ ok tt =
          check_capabilities_of_In json encode_eip55 (parent_abilities db.abilities kept) cs (λ b n.
            let (q, e, t) = h b n in
            check_capability_complete json encode_eip55 (parent_abilities db.abilities kept) b e
              (In-parent_abilities db.abilities kept q e (cited_of_Supported q e b t).1 t.row
                t.of_parent)
              t.supports) in
        rw
          (
            is_empty-In cited p i,
            ensure_all_active_of_In db cited live.active,
            any-false_of_In (parent_is_terminal json) cited live.attenuable,
            check_time-In d cited kept p j,
          )
          checked

    -- If every cited delegation made to the delegator is active and not terminal, and each
    -- capability either belongs to a resource whose root authority is the delegator or is supported
    -- by an ability of a stored delegation that is cited, was made to the delegator and contains the
    -- time window, then the validation accepts.
    pub validate_complete :
        ParentsLive json encode_eip55 db d
        → ((c : Capability Value)
            → In c d.capabilities
            → (is_root_authority json encode_eip55 c d.delegator ≡ true)
              ⊎ Supported json encode_eip55 db d c)
        → validate json encode_eip55 db d ≡ ok tt
    unfolding validate
    validate_complete live h =
        let root : Capability Value → Bool =
          λ c. not (is_root_authority json encode_eip55 c d.delegator) in
        let dependent = filter root d.capabilities in
        let supported : (c : Capability Value)
            → In c dependent
            → Supported json encode_eip55 db d c =
          λ c m.
            let (i, t) = filter-In root d.capabilities c m in
            elim (h c i) [ inl e ↦ absurd (ground (arith, e)) | inr s ↦ s ] in
        reached _ _ (is_empty dependent) (is_empty d.parents) (λ some_left.
          let (c, m) = In-not_empty dependent some_left in
          let (p, a, s) = supported c m in
          (
            is_empty-In d.parents p.id s.cited,
            validate_against_complete dependent c live m supported,
          ))
