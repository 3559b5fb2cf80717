-- ===== src/Core/PolicyAuthority/Capabilities/Within.antt =====
-- Sets of capabilities that are contained in others.
use tinycloud_node.Common.{
  ◌≡◌, refl, List, [], ◌∷◌, Bool, true, arith, In, inl, inr, all-In, any, is_ok, Bool-cases, ok,
  err, >>=-eq-ok, ok_unique, Result,
}
use tinycloud_node.Core.Policy.Capability.{PolicyCapability, capability_contains}
use tinycloud_node.Core.Policy.Capability.Contains.{capability_contains_trans}
use tinycloud_node.Core.PolicyAuthority.Platform.{Platform}
use tinycloud_node.Core.PolicyAuthority.Capabilities.{
  canonical_capabilities, all_contained, capability_set_contained,
}

any_witness :
    {A : Type 0} (p : A → Bool) (xs : List A) → any p xs ≡ true → (x : A) × In x xs × (p x ≡ true)
any_witness p [] h = absurd (ground (arith, h))
any_witness p (x ∷ xs) h = elim (Bool-cases (p x)) [
  | inl e ↦ (x, inl refl, e)
  | inr e ↦
      let h' : any p xs ≡ true = ground (arith, e) in
      let (y, m, k) = any_witness p xs h' in (y, inr m, k)
]

is_ok_sound : {E : Type 0} (r : Result E (Unit {0})) → is_ok r ≡ true → r ≡ ok tt
is_ok_sound (ok tt) h = refl
is_ok_sound (err e) h = cc

module _ (platform : Platform) where
  open platform use {json}
  open json use {Value}

  -- Both lists are canonical capabilities, and each of the first is contained in one of the second.
  pub record Within (child_values parent_values : List Value) : Type 0 where
    pub children : List (PolicyCapability Value)
    pub children_parse : canonical_capabilities platform child_values ≡ ok children
    pub parents : List (PolicyCapability Value)
    pub parents_parse : canonical_capabilities platform parent_values ≡ ok parents
    pub contained :
        (c : PolicyCapability Value)
        → In c children
        → (p : PolicyCapability Value) × In p parents × (capability_contains json p c ≡ ok tt)

  pub capability_set_contained-Within :
      (child_values parent_values : List Value)
      → capability_set_contained platform child_values parent_values ≡ ok true
      → Within child_values parent_values
  unfolding capability_set_contained all_contained
  capability_set_contained-Within child_values parent_values h =
      let (children, e, h1) = >>=-eq-ok (canonical_capabilities platform child_values) _ h in
      let (parents, f, h2) = >>=-eq-ok (canonical_capabilities platform parent_values) _ h1 in
      let t : all_contained platform children parents ≡ true = ground (arith, h2) in
      record {
        children = children;
        children_parse = e;
        parents = parents;
        parents_parse = f;
        contained = λ c m.
            let (p, i, k) =
              any_witness (λ parent. is_ok (capability_contains json parent c)) parents
                (all-In _ children c t m) in
            (p, i, is_ok_sound (capability_contains json p c) k);
      }

  pub Within-trans :
      (child middle parent : List Value)
      → Within child middle
      → Within middle parent
      → Within child parent
  Within-trans child middle parent v w =
      let same =
        ok_unique (canonical_capabilities platform middle) v.parents_parse w.children_parse in
      record {
        children = v.children;
        children_parse = v.children_parse;
        parents = w.parents;
        parents_parse = w.parents_parse;
        contained = λ c m.
            let (q, i, k) = v.contained c m in
            let (p, j, l) = w.contained q (rw (← same) i) in
            (p, j, capability_contains_trans json p q c l k);
      }
