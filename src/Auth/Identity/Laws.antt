-- ===== src/Auth/Identity/Laws.antt =====
-- When two DID URLs name one principal.
use tinycloud_node.Common.{ℕ, ◌≡◌, ◌↔◌, ◌⊎◌, inl, inr, List, true, ok, Result-cases}
use tinycloud_node.Common.Classes.{Str, List_eq, Nat_eq, eq→≡, eq_refl}
use tinycloud_node.Auth.Identity.{principal_did, did_principal_matches, same_principal}

module _ (encode_eip55 : List ℕ → Str) where
  -- Two DID URLs have one principal: a canonical DID, the same for both.
  abbrev pub SharePrincipal : Str → Str → Type 0
  SharePrincipal a b =
      (p : Str) × (principal_did encode_eip55 a ≡ ok p) × (principal_did encode_eip55 b ≡ ok p)

  matches-SharePrincipal :
      (a b : Str) → did_principal_matches encode_eip55 a b ≡ true → (a ≡ b) ⊎ SharePrincipal a b
  unfolding did_principal_matches
  matches-SharePrincipal a b h = elim (Result-cases (principal_did encode_eip55 a)) [
    | inr (e, p) ↦ inl (eq→≡ a b (rw (p, same_principal) at h))
    | inl (x, p) ↦ elim (Result-cases (principal_did encode_eip55 b)) [
      | inr (e, q) ↦ inl (eq→≡ a b (rw (p, q, same_principal) at h))
      | inl (y, q) ↦ let s : x ≡ y = eq→≡ x y (rw (p, q, same_principal) at h) in inr (x, p, rw s q)
    ]
  ]

  SharePrincipal-matches :
      (a b : Str) → SharePrincipal a b → did_principal_matches encode_eip55 a b ≡ true
  unfolding did_principal_matches
  SharePrincipal-matches a b (p, x, y) = rw (x, y, same_principal) (eq_refl p)

  matches_refl : (a : Str) → did_principal_matches encode_eip55 a a ≡ true
  unfolding did_principal_matches
  matches_refl a = elim (Result-cases (principal_did encode_eip55 a)) [
    | inr (e, p) ↦ rw (p, same_principal) (eq_refl a)
    | inl (x, p) ↦ rw (p, same_principal) (eq_refl x)
  ]

  -- Two DID URLs match exactly when they are the same text, or both have a canonical principal
  -- and it is the same one.
  pub did_principal_matches_iff :
      (a b : Str) → (did_principal_matches encode_eip55 a b ≡ true) ↔ ((a ≡ b) ⊎ SharePrincipal a b)
  did_principal_matches_iff a b = (
    matches-SharePrincipal a b,
    λ d. elim d [ inl e ↦ rw e (matches_refl b) | inr s ↦ SharePrincipal-matches a b s ],
  )

  pub did_principal_matches_sym :
      (a b : Str)
      → did_principal_matches encode_eip55 a b ≡ true
      → did_principal_matches encode_eip55 b a ≡ true
  did_principal_matches_sym a b h = elim (matches-SharePrincipal a b h) [
    | inl e ↦ rw e (matches_refl b)
    | inr (p, x, y) ↦ SharePrincipal-matches b a (p, y, x)
  ]

  -- What matches a DID URL matches all that this one matches.
  did_principal_matches_trans :
      (a b c : Str)
      → did_principal_matches encode_eip55 a b ≡ true
      → did_principal_matches encode_eip55 b c ≡ true
      → did_principal_matches encode_eip55 a c ≡ true
  did_principal_matches_trans a b c h k = elim (matches-SharePrincipal a b h) [
    | inl e ↦ rw e k
    | inr (p, x, y) ↦ elim (matches-SharePrincipal b c k) [
      | inl e ↦ rw (← e) h
      | inr (q, u, v) ↦ let same : p ≡ q = cc in SharePrincipal-matches a c (p, x, rw same v)
    ]
  ]
