-- ===== src/Auth/Ability/Laws.antt =====
-- What `ability_matches` decides, and the laws of a capability comparison.
use tinycloud_node.Common.{
  ◌≡◌, refl, ◌↔◌, inl, inr, [], ◌∷◌, Option, none, some, Bool, true, contains, In, contains→In,
  In→contains, Bool-cases, sym, ◌∙◌, all-In, all, split_once,
}
use tinycloud_node.Common.Classes.{◌==◌, Str, codes, option_eq, List_eq, Option_eq, Nat_eq, eq→≡}
use tinycloud_node.Auth.Registry.{resolve_alias, implied_actions}
use tinycloud_node.Auth.Ability.{ability_matches}
use tinycloud_node.Auth.Ability.Closure.{Grants, itself, implied, expand_actions_iff}
use tinycloud_node.Auth.Ability.Fuel.{expand_actions_total}

ability_matches-Grants :
    (held required : Str)
    → ability_matches held required ≡ true
    → Grants held (resolve_alias required)
unfolding ability_matches
ability_matches-Grants held required h =
    let (set, e) = expand_actions_total (held ∷ []) in
    let m : contains set (resolve_alias required) ≡ true = rw (e, ability_matches) at h in
    single ((expand_actions_iff (held ∷ []) set _ e).0 (contains→In set _ m))
  where
    single :
        (a : Str) × In a (held ∷ []) × Grants a (resolve_alias required)
        → Grants held (resolve_alias required)
    single (a, inl e, g) = rw e g
    single (a, inr k, g) = absurd k

Grants-ability_matches :
    (held required : Str)
    → Grants held (resolve_alias required)
    → ability_matches held required ≡ true
unfolding ability_matches
Grants-ability_matches held required g =
    let (set, e) = expand_actions_total (held ∷ []) in
    rw (e, ability_matches)
      (In→contains set _ ((expand_actions_iff (held ∷ []) set _ e).1 (held, inl refl, g)))

-- `ability_matches held required` is true exactly when the registry's aliases and implications
-- lead from the held action to the canonical form of the required one.
pub ability_matches_iff :
    (held required : Str)
    → (ability_matches held required ≡ true) ↔ Grants held (resolve_alias required)
ability_matches_iff held required =
    (ability_matches-Grants held required, Grants-ability_matches held required)

-- Every action satisfies a requirement for itself.
pub ability_matches_refl : (a : Str) → ability_matches a a ≡ true
ability_matches_refl a = Grants-ability_matches a a (itself refl)

pub Grants-trans : {a b c d : Str} → Grants a c → c ≡ resolve_alias b → Grants b d → Grants a d
Grants-trans (itself p) q (itself r) = itself (r ∙ sym q ∙ p)
Grants-trans (itself p) q (implied {i} k g) = implied (rw (sym p ∙ q) k) g
Grants-trans (implied k f) q g = implied k (Grants-trans f q g)

-- What satisfies a requirement for an action satisfies all that this action satisfies.
pub ability_matches_trans :
    (a b c : Str)
    → ability_matches a b ≡ true
    → ability_matches b c ≡ true
    → ability_matches a c ≡ true
ability_matches_trans a b c h k =
    Grants-ability_matches a c
      (Grants-trans (ability_matches-Grants a b h) refl (ability_matches-Grants b c k))

-- The part of an action URN before its first slash.
pub service_of : Str → Option Str
unfolding split_once
service_of action = elim (split_once b'/' action) [ none ↦ none | some r ↦ some r.0 ]

service_of-resolve_alias : (a : Str) → service_of (resolve_alias a) ≡ service_of a
unfolding resolve_alias service_of
service_of-resolve_alias a = elim (Bool-cases (a == codes "tinycloud.duckdb/select")) [
  | inl e ↦ rw (eq→≡ a _ e)
  | inr e ↦ rw e (elim (Bool-cases (a == codes "tinycloud.kv/delete")) [
    | inl e ↦ rw (eq→≡ a _ e)
    | inr e ↦ rw e (elim (Bool-cases (a == codes "tinycloud.sql/select")) [
      | inl e ↦ rw (eq→≡ a _ e)
      | inr e ↦ rw e
    ])
  ])
]

-- The test that every action that `a` implies is of its service.
abbrev keeps_service : Str → Bool
keeps_service a = all (λ i. service_of i == service_of a) (implied_actions a)

keeps_service_all : (a : Str) → keeps_service a ≡ true
unfolding implied_actions service_of option_eq
keeps_service_all a = elim (Bool-cases (a == codes "tinycloud.duckdb/*")) [
  | inl e ↦ rw (eq→≡ a _ e)
  | inr e ↦ rw e (elim (Bool-cases (a == codes "tinycloud.sql/*")) [
    | inl e ↦ rw (eq→≡ a _ e)
    | inr e ↦ rw e (elim (Bool-cases (a == codes "tinycloud.sql/admin")) [
      | inl e ↦ rw (eq→≡ a _ e)
      | inr e ↦ rw e
    ])
  ])
]

service_of-implied : (a i : Str) → In i (implied_actions a) → service_of i ≡ service_of a
service_of-implied a i m =
    eq→≡ (service_of i) (service_of a)
      (all-In (λ i. service_of i == service_of a) (implied_actions a) i (keeps_service_all a) m)

service_of-Grants : {a b : Str} → Grants a b → service_of b ≡ service_of a
service_of-Grants (itself {a} e) = rw e (service_of-resolve_alias a)
service_of-Grants (implied {a} {i} k g) =
    service_of-Grants g ∙ service_of-implied (resolve_alias a) i k ∙ service_of-resolve_alias a

-- No action satisfies a requirement of another service: the parts of the two URNs before the
-- first slash are the same.
pub ability_matches-service :
    (held required : Str)
    → ability_matches held required ≡ true
    → service_of held ≡ service_of required
ability_matches-service held required h =
    sym (service_of-Grants (ability_matches-Grants held required h))
    ∙ service_of-resolve_alias required

Grants-of_plain : {a b : Str} → resolve_alias a ≡ a → implied_actions a ≡ [] → Grants a b → b ≡ a
Grants-of_plain p q (itself e) = e ∙ p
Grants-of_plain p q (implied {i} k g) = let none_left : In i [] = rw (p, q) at k in absurd none_left

-- An action that is no alias and implies nothing satisfies exactly the requirements whose
-- canonical form is that action.
pub ability_matches_of_plain :
    (held required : Str)
    → resolve_alias held ≡ held
    → implied_actions held ≡ []
    → (ability_matches held required ≡ true) ↔ (resolve_alias required ≡ held)
ability_matches_of_plain held required p q = (
  λ h. Grants-of_plain p q (ability_matches-Grants held required h),
  λ e. Grants-ability_matches held required (itself (e ∙ sym p)),
)
