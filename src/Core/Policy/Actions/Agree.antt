-- ===== src/Core/Policy/Actions/Agree.antt =====
-- The engine of tinycloud-core and that of tinycloud-auth decide alike.
use tinycloud_node.Common.{
  ℕ, zero, suc, ◌≡◌, refl, inl, inr, List, [], ◌∷◌, true, false, contains, Bool-cases,
}
use tinycloud_node.Common.Classes.{Str, List_eq, Nat_eq}
use tinycloud_node.Auth.Registry as AuthRegistry
use tinycloud_node.Auth.Ability
use tinycloud_node.Auth.Ability.{push_all, expand_rounds}
use tinycloud_node.Core.Policy.Registry
use tinycloud_node.Core.Policy.Actions

pub resolve_alias_agree : (a : Str) → Registry.resolve_alias a ≡ AuthRegistry.resolve_alias a
unfolding Registry.resolve_alias AuthRegistry.resolve_alias
resolve_alias_agree a = refl

implied_actions_agree : (a : Str) → Registry.implied_actions a ≡ AuthRegistry.implied_actions a
unfolding Registry.implied_actions AuthRegistry.implied_actions
implied_actions_agree a = refl

-- The two generated tables are the same: accepted actions, aliases and implications, of every text.
pub registries_agree :
    (a : Str)
    → (Registry.accepted_actions a ≡ AuthRegistry.accepted_actions a)
      × (Registry.resolve_alias a ≡ AuthRegistry.resolve_alias a)
      × (Registry.implied_actions a ≡ AuthRegistry.implied_actions a)
unfolding Registry.accepted_actions AuthRegistry.accepted_actions
registries_agree a = (refl, resolve_alias_agree a, implied_actions_agree a)

expand_from_agree :
    (fuel : ℕ) (out stack : List Str)
    → Actions.expand_from fuel out stack ≡ Ability.expand_from fuel out stack
unfolding Actions.expand_from Ability.expand_from
expand_from_agree zero out stack = refl
expand_from_agree (suc fuel) out [] = refl
expand_from_agree (suc fuel) out (x ∷ stack) =
    let same = resolve_alias_agree x in
    elim (Bool-cases (contains out (AuthRegistry.resolve_alias x))) [
      | inl e ↦
          let e' : contains out (Registry.resolve_alias x) ≡ true = rw same e in
          rw (e, Ability.expand_from, e', Actions.expand_from) (expand_from_agree fuel out stack)
      | inr e ↦
          let e' : contains out (Registry.resolve_alias x) ≡ false = rw same e in
          rw
            (
              e,
              Ability.expand_from,
              e',
              Actions.expand_from,
              same,
              implied_actions_agree (AuthRegistry.resolve_alias x),
            )
            (expand_from_agree fuel (AuthRegistry.resolve_alias x ∷ out)
              (push_all (AuthRegistry.implied_actions (AuthRegistry.resolve_alias x)) stack))
    ]

-- The engine of tinycloud-core expands every list of actions as that of tinycloud-auth does.
pub expand_actions_agree :
    (actions : List Str) → Actions.expand_granted_actions actions ≡ Ability.expand_actions actions
unfolding Actions.expand_granted_actions Ability.expand_actions
expand_actions_agree actions = expand_from_agree (expand_rounds actions) [] (push_all actions [])

-- So do the two path tests.
pub path_contains_agree :
    (service auth req : Str)
    → Actions.path_contains service auth req ≡ Ability.path_contains service auth req
unfolding Actions.path_contains Ability.path_contains
path_contains_agree service auth req = refl
