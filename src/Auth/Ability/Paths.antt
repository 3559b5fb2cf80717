-- ===== src/Auth/Ability/Paths.antt =====
-- Which paths a granted path covers.
use tinycloud_node.Common.{
  ◌≡◌, refl, sym, ap, ◌∙◌, ◌↔◌, inl, inr, [], ◌∷◌, ◌++◌, some, true, false, arith, Bool-cases,
  Option-cases, is_empty, ends_with_byte, strip_prefix, strip_prefix-eq-some, strip_prefix-append,
}
use mathlib.Core.List.{append_assoc}
use tinycloud_node.Common.Classes.{◌==◌, Str, codes, List_eq, Nat_eq, eq→≡, list_eq_iff}
use tinycloud_node.Auth.Ability.{path_contains}

-- A path covers itself; outside SQL, a path that ends with a slash covers what lies below it.
pub data Covers (service auth req : Str) : Type 0 where
  exact : auth ≡ req → Covers service auth req
  inside :
      (r : Str)
      → (service == codes "tinycloud.sql") ≡ false
      → ends_with_byte b'/' auth ≡ true
      → is_empty r ≡ false
      → req ≡ auth ++ r
      → Covers service auth req

path_contains-Covers :
    (service auth req : Str) → path_contains service auth req ≡ true → Covers service auth req
unfolding path_contains
path_contains-Covers service auth req h = elim (Bool-cases (auth == req)) [
  | inl e ↦ exact (eq→≡ auth req e)
  | inr e ↦ elim (Option-cases (strip_prefix auth req)) [
    | inl p ↦ absurd (ground (arith, p))
    | inr (r, p) ↦
        inside r (ground (arith, p)) (ground (arith, p)) (ground (arith, p))
          (strip_prefix-eq-some auth req r p)
  ]
]

Covers-path_contains :
    (service auth req : Str) → Covers service auth req → path_contains service auth req ≡ true
unfolding path_contains
Covers-path_contains service auth req (exact e) = ground (arith, (list_eq_iff auth req).1 e)
Covers-path_contains service auth req (inside r sql slash more e) =
    let p : strip_prefix auth req ≡ some r = rw e (strip_prefix-append auth r) in ground (arith, p)

-- `path_contains` is true exactly when the granted path covers the requested one: the two are the
-- same, or the service is not SQL, the granted path ends with a slash and the other goes on.
pub path_contains_iff :
    (service auth req : Str) → (path_contains service auth req ≡ true) ↔ Covers service auth req
path_contains_iff service auth req =
    (path_contains-Covers service auth req, Covers-path_contains service auth req)

pub Covers-trans :
    (service a b c : Str) → Covers service a b → Covers service b c → Covers service a c
Covers-trans service a b c (exact e) k = rw e k
Covers-trans service a b c (inside r q h m e) (exact f) = inside r q h m (sym f ∙ e)
Covers-trans service a b c (inside r q h m e) (inside t u v w f) =
    inside (r ++ t) q h (is_empty-append r t m) (f ∙ ap (λ x. x ++ t) e ∙ append_assoc a r t)
  where
    is_empty-append : (r t : Str) → is_empty r ≡ false → is_empty (r ++ t) ≡ false
    is_empty-append [] t h = cc
    is_empty-append (x ∷ r) t h = refl

pub path_contains_refl : (service path : Str) → path_contains service path path ≡ true
path_contains_refl service path = Covers-path_contains service path path (exact refl)

-- Coverage is transitive.
path_contains_trans :
    (service a b c : Str)
    → path_contains service a b ≡ true
    → path_contains service b c ≡ true
    → path_contains service a c ≡ true
path_contains_trans service a b c h k = Covers-path_contains service a c (
    Covers-trans service a b c (path_contains-Covers service a b h)
      (path_contains-Covers service b c k))
