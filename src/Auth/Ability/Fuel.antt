-- ===== src/Auth/Ability/Fuel.antt =====
-- The worklist of `expand_actions` ends: six rounds for an action are enough.
use tinycloud_node.Common.{
  ℕ, zero, suc, ◌+◌, ◌*◌, ◌≤◌, ◌<◌, ◌≡◌, refl, inl, inr, List, [], ◌∷◌, some, true, false, contains,
  arith, ◌∙◌, Bool-cases, length, if◌then◌else◌,
}
use tinycloud_node.Common.Classes.{◌==◌, Str, codes, list_eq, List_eq, Nat_eq}
use tinycloud_node.Auth.Registry.{resolve_alias, implied_actions}
use tinycloud_node.Auth.Ability.{expand_rounds, push_all, expand_from, expand_actions}

-- The rounds that a canonical action can stand for: itself, and all that it implies.
cost : Str → ℕ
unfolding list_eq
cost c =
    if c == codes "tinycloud.duckdb/*"
    then 6
    else if c == codes "tinycloud.sql/*"
    then 6
    else if c == codes "tinycloud.sql/admin"
    then 2
    else 1

work : List Str → ℕ
work [] = 0
work (a ∷ stack) = cost (resolve_alias a) + work stack

work-push_all : (xs stack : List Str) → work (push_all xs stack) ≡ work xs + work stack
unfolding work push_all
work-push_all [] stack = omega arith
work-push_all (x ∷ xs) stack = omega (arith, work-push_all xs (x ∷ stack))

cost_bounds : (c : Str) → (1 ≤ cost c) × (cost c ≤ 6)
unfolding cost
cost_bounds c = ground arith

work-implied : (c : Str) → work (implied_actions c) + 1 ≤ cost c
unfolding work implied_actions cost resolve_alias
work-implied c = ground arith

work-le : (xs : List Str) → work xs ≤ 6 * length xs
unfolding work
work-le [] = omega arith
work-le (x ∷ xs) = omega (arith, work-le xs, cost_bounds (resolve_alias x))

module _ (fuel : ℕ) (out : List Str) (x : Str) (stack : List Str) where
  expand_from-seen :
      contains out (resolve_alias x) ≡ true
      → expand_from (suc fuel) out (x ∷ stack) ≡ expand_from fuel out stack
  unfolding expand_from
  expand_from-seen e = rw (e, expand_from)

  abbrev pushed : List Str
  pushed = push_all (implied_actions (resolve_alias x)) stack

  expand_from-fresh :
      contains out (resolve_alias x) ≡ false
      → expand_from (suc fuel) out (x ∷ stack) ≡ expand_from fuel (resolve_alias x ∷ out) pushed
  unfolding expand_from
  expand_from-fresh e = rw (e, expand_from)

expand_from_total :
    (fuel : ℕ) (out stack : List Str)
    → work stack < fuel
    → (set : List Str) × (expand_from fuel out stack ≡ some set)
unfolding work
expand_from_total zero out stack h = elim h [ ]
expand_from_total (suc fuel) out [] h = (out, unfold expand_from in refl)
expand_from_total (suc fuel) out (x ∷ stack) h =
    let c = resolve_alias x in
    elim (Bool-cases (contains out c)) [
      | inl e ↦
          let (set, p) = expand_from_total fuel out stack (omega (arith, cost_bounds c)) in
          (set, expand_from-seen fuel out x stack e ∙ p)
      | inr e ↦
          let (set, p) =
            expand_from_total fuel (c ∷ out) (push_all (implied_actions c) stack)
              (omega (arith, work-push_all (implied_actions c) stack, work-implied c)) in
          (set, expand_from-fresh fuel out x stack e ∙ p)
    ]

-- The expansion of any list of actions ends with a set.
pub expand_actions_total :
    (actions : List Str) → (set : List Str) × (expand_actions actions ≡ some set)
unfolding expand_actions work
expand_actions_total actions =
    expand_from_total (expand_rounds actions) [] (push_all actions [])
      (omega (arith, work-push_all actions [], work-le actions))
