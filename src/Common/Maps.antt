-- ===== src/Common/Maps.antt =====
-- Maps as association lists: `get` finds the first entry of a key, `put` replaces it or adds one.
use tinycloud_node.Common.Tests.{if◌then◌else◌, Bool-cases}
use tinycloud_node.Common.Classes.{◌==◌, eq→≡, eq_refl, Str, List_eq, Nat_eq}
use mathlib.Core.Path.{◌≡◌, sym, ◌∙◌}
use mathlib.Core.Logic.{◌⊎◌, inl, inr}
use mathlib.Core.Bool.{false}
use mathlib.Core.Option.{Option, none, some}
use mathlib.Core.List.{List, [], ◌∷◌}
use native.Mathlib.Omega.{arith}

module _ {ℓ} {V : Type ℓ} where
  -- `map.get(key)`.
  unfoldable pub get : Str → List (Str × V) → Option V
  get key [] = none
  get key ((k, v) ∷ entries) = if k == key then some v else get key entries

  -- `map.insert(key, value)`.
  unfoldable pub put : Str → V → List (Str × V) → List (Str × V)
  put key v [] = (key, v) ∷ []
  put key v ((k, w) ∷ entries) = if k == key then (key, v) ∷ entries else (k, w) ∷ put key v entries

  pub get-put_same : (key : Str) (v : V) (m : List (Str × V)) → get key (put key v m) ≡ some v
  unfolding get put
  get-put_same key v [] = rw (eq_refl key)
  get-put_same key v ((k, w) ∷ m) = elim (Bool-cases (k == key)) [
    | inl e ↦ rw (e, put, get, eq_refl key)
    | inr e ↦ rw (e, put, get, e) (get-put_same key v m)
  ]

  pub get-put_other :
      (key other : Str) (v : V) (m : List (Str × V))
      → (key == other) ≡ false
      → get other (put key v m) ≡ get other m
  unfolding get put
  get-put_other key other v [] h = rw h
  get-put_other key other v ((k, w) ∷ m) h = elim (Bool-cases (k == key)) [
    | inl e ↦
        let same : k ≡ key = eq→≡ k key e in
        let t : (k == other) ≡ false = rw same h in rw (e, put, get, h, t)
    | inr e ↦ elim (Bool-cases (k == other)) [
      | inl f ↦ rw (e, put, get, f)
      | inr f ↦ rw (e, put, get, f) (get-put_other key other v m h)
    ]
  ]

  -- What stands under a key after an insertion.
  pub get-put_cases :
      (key other : Str) (v w : V) (m : List (Str × V))
      → get other (put key v m) ≡ some w
      → ((key ≡ other) × (v ≡ w)) ⊎ (((key == other) ≡ false) × (get other m ≡ some w))
  get-put_cases key other v w m h = elim (Bool-cases (key == other)) [
    | inl e ↦
        let same : key ≡ other = eq→≡ key other e in
        let k : some v ≡ some w = sym (get-put_same key v m) ∙ (rw (← same) at h) in
        inl (same, ground (arith, k))
    | inr e ↦ inr (e, sym (get-put_other key other v m e) ∙ h)
  ]
