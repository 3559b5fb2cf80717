-- ===== src/Core/Policy/Actions.antt =====
-- tinycloud-core/src/policy_capability/mod.rs: the actions that a set of held actions authorises,
-- and the calls that are passed on to tinycloud-auth.
pub mod Agree
use tinycloud_node.Common.{
  ℕ, zero, suc, ◌*◌, List, [], ◌∷◌, Option, none, some, Bool, true, false, contains, if◌then◌else◌,
  ends_with_byte, strip_prefix, is_empty, not,
}
use tinycloud_node.Common.Classes.{◌==◌, Str, codes, List_eq, Nat_eq}
use tinycloud_node.Auth.Registry
use tinycloud_node.Auth.Ability
use tinycloud_node.Auth.Ability.{push_all, expand_rounds}
use tinycloud_node.Core.Policy.Registry.{resolve_alias, implied_actions}

unfoldable pub accepted_actions : Str → Option (List Str)
accepted_actions service = Registry.accepted_actions service

unfoldable pub ability_matches : Str → Str → Bool
ability_matches held required = Ability.ability_matches held required

-- The loop of `expand_actions`: the hash set `out` as a list, `none` when the fuel runs out.
unfoldable pub expand_from : ℕ → List Str → List Str → Option (List Str)
expand_from zero out stack = none
expand_from (suc fuel) out [] = some out
expand_from (suc fuel) out (action ∷ stack) =
    let canonical = resolve_alias action in
    elim (contains out canonical) [
      | true ↦ expand_from fuel out stack
      | false ↦ expand_from fuel (canonical ∷ out) (push_all (implied_actions canonical) stack)
    ]

unfoldable pub expand_actions : List Str → Option (List Str)
unfolding expand_from push_all
expand_actions actions = expand_from (expand_rounds actions) [] (push_all actions [])

unfoldable pub expand_granted_actions : List Str → Option (List Str)
unfolding expand_actions
expand_granted_actions actions = expand_actions actions

unfoldable pub path_contains : Str → Str → Str → Bool
path_contains service auth req =
    if service == codes "tinycloud.sql"
    then auth == req
    else if auth == req
    then true
    else if ends_with_byte b'/' auth
    then elim (strip_prefix auth req) [ none ↦ false | some rest ↦ not (is_empty rest) ]
    else false
