-- ===== src/Auth/Ability.antt =====
-- tinycloud-auth/src/policy_capability.rs: which action URNs a held URN authorises, and which
-- paths a granted path covers.
pub mod Closure
pub mod Fuel
pub mod Laws
pub mod Paths
use tinycloud_node.Common.{
  ℕ, zero, suc, ◌+◌, ◌*◌, ◌≡◌, List, [], ◌∷◌, Option, none, some, Bool, true, false, length,
  contains, is_empty, not, if◌then◌else◌, ends_with_byte, strip_prefix,
}
use tinycloud_node.Common.Classes.{◌==◌, Str, codes, list_eq, List_eq, Nat_eq}
use tinycloud_node.Auth.Registry.{resolve_alias, implied_actions}

-- `for implied in … { stack.push(implied) }`, the top of the stack at the head of the list.
unfoldable pub push_all : List Str → List Str → List Str
push_all [] stack = stack
push_all (x ∷ xs) stack = push_all xs (x ∷ stack)

-- The loop of `expand_actions`: the set `out` as a list, `none` when the fuel runs out.
unfoldable pub expand_from : ℕ → List Str → List Str → Option (List Str)
expand_from zero out stack = none
expand_from (suc fuel) out [] = some out
expand_from (suc fuel) out (action ∷ stack) =
    let canonical = resolve_alias action in
    elim (contains out canonical) [
      | true ↦ expand_from fuel out stack
      | false ↦ expand_from fuel (canonical ∷ out) (push_all (implied_actions canonical) stack)
    ]

-- An action stands for at most six rounds, and one more round finds the stack empty.
abbrev pub expand_rounds : List Str → ℕ
expand_rounds actions = suc (6 * length actions)

unfoldable pub expand_actions : List Str → Option (List Str)
unfolding expand_from push_all
expand_actions actions = expand_from (expand_rounds actions) [] (push_all actions [])

unfoldable pub ability_matches : Str → Str → Bool
unfolding expand_actions
ability_matches held required = elim (expand_actions (held ∷ [])) [
  | none ↦ false
  | some granted ↦ contains granted (resolve_alias required)
]

unfoldable pub path_contains : Str → Str → Str → Bool
path_contains service auth req =
    if service == codes "tinycloud.sql"
    then auth == req
    else if auth == req
    then true
    else if ends_with_byte b'/' auth
    then elim (strip_prefix auth req) [ none ↦ false | some rest ↦ not (is_empty rest) ]
    else false
