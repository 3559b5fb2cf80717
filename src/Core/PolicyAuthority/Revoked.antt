-- ===== src/Core/PolicyAuthority/Revoked.antt =====
-- A revocation is final.
pub mod Dead
pub mod Final
use tinycloud_node.Common.{
  ℕ, zero, suc, ◌+◌, ◌≤◌, ◌<◌, ◌≡◌, refl, ◌∙◌, sym, ap, ◌⊎◌, List, [], ◌∷◌, ◌++◌, Option, none,
  some, Bool, true, false, not, ◌&&◌, arith, inl, inr, length, length-append, filter, Bool-cases,
  is_ok, is_some, ok, err, ok_or, >>=-eq-ok, ok_or-eq-ok, Result, Result-cases, require,
  if◌then◌else◌, and-eq-true,
}
use tinycloud_node.Common.Classes.{◌==◌, Str, List_eq, Nat_eq, Option_eq, eq→≡, eq_refl}
use tinycloud_node.Common.Maps.{get, put, get-put_same, get-put_other}
use tinycloud_node.Core.PolicyAuthority.Errors.{AuthorityError}
use tinycloud_node.Core.PolicyAuthority.Platform.{Platform}
use tinycloud_node.Core.PolicyAuthority.Artifacts
use tinycloud_node.Core.PolicyAuthority.Artifacts.{PolicyDelegation, DelegationRole}
use tinycloud_node.Core.PolicyAuthority.Shape.{proof_count}
use tinycloud_node.Core.PolicyAuthority.Records.{VerifiedEdge, AuthorityStatus}
use tinycloud_node.Core.PolicyAuthority.Store.{
  MemoryState, edges_of, validate_status_transition, check_set_status,
}
use tinycloud_node.Core.PolicyAuthority.Store.Outcomes.{
  insert_verified_authority_outcome, insert_challenge_outcome, set_status_outcome,
}
use tinycloud_node.Core.PolicyAuthority.Live.{edges_fit, root_edges, descendant_edge}

-- The edges that a role admits are as many as its proofs.
pub edges_fit-length :
    (role : DelegationRole) (proofs : List Str) (edges : List VerifiedEdge)
    → edges_fit role proofs edges ≡ true
    → length edges ≡ proof_count role
unfolding edges_fit root_edges descendant_edge proof_count
edges_fit-length Artifacts.policy_authority proofs [] h = refl
edges_fit-length Artifacts.policy_authority proofs (e ∷ es) h = cc
edges_fit-length Artifacts.policy_enforcement proofs [] h = refl
edges_fit-length Artifacts.policy_enforcement proofs (e ∷ es) h = cc
edges_fit-length Artifacts.policy_session_root proofs [] h = cc
edges_fit-length Artifacts.policy_session_root proofs (a ∷ []) h = cc
edges_fit-length Artifacts.policy_session_root proofs (a ∷ b ∷ []) h = refl
edges_fit-length Artifacts.policy_session_root proofs (a ∷ b ∷ c ∷ es) h = cc
edges_fit-length Artifacts.policy_session_descendant proofs [] h = cc
edges_fit-length Artifacts.policy_session_descendant proofs (a ∷ []) h = refl
edges_fit-length Artifacts.policy_session_descendant proofs (a ∷ b ∷ es) h = cc

pub filter-append_length :
    (p : VerifiedEdge → Bool) (xs ys : List VerifiedEdge)
    → length (filter p (xs ++ ys)) ≡ length (filter p xs) + length (filter p ys)
filter-append_length p [] ys = omega arith
filter-append_length p (x ∷ xs) ys = elim (Bool-cases (p x)) [
  | inl e ↦ let k = filter-append_length p xs ys in ground (arith, e)
  | inr e ↦ let k = filter-append_length p xs ys in ground (arith, e)
]

-- A revoked status can only be replaced by one that is revoked at the same time.
pub revoked_transition :
    (previous next : AuthorityStatus) (at : ℕ)
    → validate_status_transition previous next ≡ ok tt
    → previous.revoked_at ≡ some at
    → next.revoked_at ≡ some at
unfolding validate_status_transition
revoked_transition previous next at h k =
    elim (Bool-cases (next.revoked_at == previous.revoked_at)) [
      | inl e ↦ eq→≡ next.revoked_at previous.revoked_at e ∙ k
      | inr e ↦ absurd (ground (arith, e, k))
    ]

abbrev pub IsRevoked : Str → List (Str × AuthorityStatus) → Type 0
IsRevoked cid statuses =
    (status : AuthorityStatus) × (at : ℕ) × (get cid statuses ≡ some status)
    × (status.revoked_at ≡ some at)

-- A status that is put under another CID.
pub put_other-IsRevoked :
    (cid other : Str) (status : AuthorityStatus) (statuses : List (Str × AuthorityStatus))
    → (other == cid) ≡ false
    → IsRevoked cid statuses
    → IsRevoked cid (put other status statuses)
put_other-IsRevoked cid other status statuses e (st, at, g, k) =
    (st, at, get-put_other other cid status statuses e ∙ g, k)

-- A status that is put under a CID without one.
pub put_new-IsRevoked :
    (cid other : Str) (status : AuthorityStatus) (statuses : List (Str × AuthorityStatus))
    → get other statuses ≡ none
    → IsRevoked cid statuses
    → IsRevoked cid (put other status statuses)
put_new-IsRevoked cid other status statuses h (st, at, g, k) = elim (Bool-cases (other == cid)) [
  | inl e ↦
      let same : get other statuses ≡ get cid statuses =
        ap (λ x. get x statuses) (eq→≡ other cid e) in
      absurd (ground (arith, same, h, g))
  | inr e ↦ put_other-IsRevoked cid other status statuses e (st, at, g, k)
]

module _ {V : Type 0} where
  pub set_status-IsRevoked :
      (cid other : Str) (status : AuthorityStatus) (s : MemoryState V)
      → check_set_status other status s ≡ ok tt
      → IsRevoked cid s.statuses
      → IsRevoked cid (put other status s.statuses)
  unfolding check_set_status
  set_status-IsRevoked cid other status s h (st, at, g, k) = elim (Bool-cases (other == cid)) [
    | inl e ↦
        let (previous, p, t) = >>=-eq-ok (ok_or (get other s.statuses) _) _ h in
        let same : get other s.statuses ≡ get cid s.statuses =
          ap (λ x. get x s.statuses) (eq→≡ other cid e) in
        let q : some previous ≡ some st =
          sym (ok_or-eq-ok (get other s.statuses) _ p) ∙ (same ∙ g) in
        let q' : previous ≡ st = ground (arith, q) in
        let r : previous.revoked_at ≡ some at = ap (λ x. x.revoked_at) q' ∙ k in
        (
          status,
          at,
          rw (← eq→≡ other cid e) (get-put_same other status s.statuses),
          revoked_transition previous status at t r,
        )
    | inr e ↦ put_other-IsRevoked cid other status s.statuses e (st, at, g, k)
  ]
