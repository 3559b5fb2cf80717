-- ===== src/Auth/Ability/Closure.antt =====
-- The set that the worklist of `expand_actions` returns, against the registry's relation.
use tinycloud_node.Common.{
  ℕ, zero, suc, ◌≡◌, refl, ◌↔◌, ◌⊎◌, inl, inr, List, [], ◌∷◌, some, contains, In, contains→In,
  arith, Bool-cases, ap, sym,
}
use tinycloud_node.Common.Classes.{Str, List_eq, Nat_eq}
use tinycloud_node.Auth.Registry.{resolve_alias, implied_actions}
use tinycloud_node.Auth.Ability.{expand_rounds, push_all, expand_from, expand_actions}

-- What the registry says: an action grants its canonical form, and what that form implies.
pub data Grants : Str → Str → Type 0 where
  itself : {a b : Str} → b ≡ resolve_alias a → Grants a b
  implied : {a i b : Str} → In i (implied_actions (resolve_alias a)) → Grants i b → Grants a b

In-push_all : (a : Str) (xs stack : List Str) → In a xs ⊎ In a stack → In a (push_all xs stack)
unfolding push_all
In-push_all a [] stack h = ground arith
In-push_all a (x ∷ xs) stack h = In-push_all a xs (x ∷ stack) (ground arith)

push_all-In : (a : Str) (xs stack : List Str) → In a (push_all xs stack) → In a xs ⊎ In a stack
unfolding push_all
push_all-In a [] stack h = inr h
push_all-In a (x ∷ xs) stack h = ground (arith, push_all-In a xs (x ∷ stack) h)

-- One of the stack's actions grants `b`.
abbrev GrantedBy : Str → List Str → Type 0
GrantedBy b stack = (a : Str) × In a stack × Grants a b

-- Every member of the result was in the set or is granted by an action of the stack.
pub expand_from_sound :
    (fuel : ℕ) (out stack set : List Str) (b : Str)
    → expand_from fuel out stack ≡ some set
    → In b set
    → In b out ⊎ GrantedBy b stack
unfolding expand_from
expand_from_sound zero out stack set b h m = cc
expand_from_sound (suc fuel) out [] set b h m = let e : out ≡ set = cc in inl (rw e m)
expand_from_sound (suc fuel) out (x ∷ stack) set b h m =
    elim (Bool-cases (contains out (resolve_alias x))) [
      | inl e ↦ widen (expand_from_sound fuel out stack set b (rw (e, expand_from) at h) m)
      | inr e ↦ deepen (
          expand_from_sound fuel (resolve_alias x ∷ out)
            (push_all (implied_actions (resolve_alias x)) stack) set b (rw (e, expand_from) at h) m)
    ]
  where
    widen : In b out ⊎ GrantedBy b stack → In b out ⊎ GrantedBy b (x ∷ stack)
    widen (inl k) = inl k
    widen (inr (a, k, g)) = inr (a, inr k, g)

    from_stack :
        (a : Str)
        → In a (implied_actions (resolve_alias x)) ⊎ In a stack
        → Grants a b
        → GrantedBy b (x ∷ stack)
    from_stack a (inl k) g = (x, inl refl, implied k g)
    from_stack a (inr k) g = (a, inr k, g)

    deepen :
        In b (resolve_alias x ∷ out)
          ⊎ GrantedBy b (push_all (implied_actions (resolve_alias x)) stack)
        → In b out ⊎ GrantedBy b (x ∷ stack)
    deepen (inl (inl e)) = inr (x, inl refl, itself (sym e))
    deepen (inl (inr k)) = inl k
    deepen (inr (a, k, g)) = inr (from_stack a (push_all-In a _ stack k) g)

-- What a member of the set implies is in the set, or still waits on the stack.
abbrev Covered : List Str → List Str → Type 0
Covered out stack =
    (x i : Str) → In x out → In i (implied_actions x) → In (resolve_alias i) out ⊎ In i stack

abbrev Complete : List Str → List Str → List Str → Type 0
Complete out stack set =
    ((x : Str) → In x out → In x set)
    × ((a : Str) → In a stack → In (resolve_alias a) set)
    × ((x i : Str) → In x set → In i (implied_actions x) → In (resolve_alias i) set)

Covered-seen :
    (x : Str) (out stack : List Str)
    → In (resolve_alias x) out
    → Covered out (x ∷ stack)
    → Covered out stack
Covered-seen x out stack m c y i hy hi = elim (c y i hy hi) [
  | inl k ↦ inl k
  | inr k ↦ elim k [ inl e ↦ inl (rw (← e) m) | inr k' ↦ inr k' ]
]

Covered-fresh :
    (x : Str) (out stack : List Str)
    → Covered out (x ∷ stack)
    → Covered (resolve_alias x ∷ out) (push_all (implied_actions (resolve_alias x)) stack)
Covered-fresh x out stack c y i (inl e) hi = inr (In-push_all i _ stack (inl (rw e hi)))
Covered-fresh x out stack c y i (inr hy) hi = elim (c y i hy hi) [
  | inl k ↦ inl (inr k)
  | inr k ↦ elim k [
    | inl e ↦ inl (inl (ap resolve_alias e))
    | inr k' ↦ inr (In-push_all i _ stack (inr k'))
  ]
]

pub expand_from-Complete :
    (fuel : ℕ) (out stack set : List Str)
    → Covered out stack
    → expand_from fuel out stack ≡ some set
    → Complete out stack set
unfolding expand_from
expand_from-Complete zero out stack set c h = cc
expand_from-Complete (suc fuel) out [] set c h =
    let e : out ≡ set = cc in
    rw (← e)
      ((λ x m. m), (λ a m. absurd m), λ x i m k. elim (c x i m k) [ inl q ↦ q | inr q ↦ absurd q ])
expand_from-Complete (suc fuel) out (x ∷ stack) set c h =
    elim (Bool-cases (contains out (resolve_alias x))) [
      | inl e ↦
          let m = contains→In out (resolve_alias x) e in
          let (a, b, d) =
            expand_from-Complete fuel out stack set (Covered-seen x out stack m c)
              (rw (e, expand_from) at h) in
          (a, (λ y k. elim k [ inl q ↦ rw (← q) (a _ m) | inr k' ↦ b y k' ]), d)
      | inr e ↦
          let (a, b, d) =
            expand_from-Complete fuel (resolve_alias x ∷ out)
              (push_all (implied_actions (resolve_alias x)) stack) set (Covered-fresh x out stack c)
              (rw (e, expand_from) at h) in
          (
            (λ y k. a y (inr k)),
            (λ y k. elim k [
              | inl q ↦ rw (← q) (a _ (inl refl))
              | inr k' ↦ b y (In-push_all y _ stack (inr k'))
            ]),
            d,
          )
    ]

-- A set that the expansion returns holds exactly what the actions grant.
pub expand_actions_iff :
    (actions set : List Str) (b : Str)
    → expand_actions actions ≡ some set
    → (In b set) ↔ ((a : Str) × In a actions × Grants a b)
unfolding expand_actions
expand_actions_iff actions set b h = (sound, complete)
  where
    from_start : In b [] ⊎ GrantedBy b (push_all actions []) → GrantedBy b actions
    from_start (inl k) = absurd k
    from_start (inr (a, k, g)) = elim (push_all-In a actions [] k) [
      | inl q ↦ (a, q, g)
      | inr q ↦ absurd q
    ]

    sound : In b set → GrantedBy b actions
    sound m =
        from_start (expand_from_sound (expand_rounds actions) [] (push_all actions []) set b h m)

    facts : Complete [] (push_all actions []) set
    facts =
        expand_from-Complete (expand_rounds actions) [] (push_all actions []) set
          (λ x i m k. absurd m) h

    reach : {a c : Str} → Grants a c → In (resolve_alias a) set → In c set
    reach (itself e) m = rw e m
    reach (implied {i} k g) m = reach g (facts.2 _ i m k)

    complete : GrantedBy b actions → In b set
    complete (a, k, g) = reach g (facts.1 a (In-push_all a actions [] (inl k)))
