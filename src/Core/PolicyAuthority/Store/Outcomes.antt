-- ===== src/Core/PolicyAuthority/Store/Outcomes.antt =====
-- The outcomes of the store's operations: refused without a change, or accepted with one change.
use tinycloud_node.Common.{◌≡◌, ◌⊎◌, inl, inr, none, Option-cases, ok, err, Result, Result-cases}
use tinycloud_node.Common.Classes.{Str}
use tinycloud_node.Common.Maps.{get, put}
use tinycloud_node.Core.PolicyAuthority.Errors
use tinycloud_node.Core.PolicyAuthority.Errors.{AuthorityError}
use tinycloud_node.Core.PolicyAuthority.Artifacts.{PolicyDelegation}
use tinycloud_node.Core.PolicyAuthority.Records.{
  ChallengeState, validate_challenge_lifetime, AuthorityStatus,
}
use tinycloud_node.Core.PolicyAuthority.Store.{
  MemoryState, insert_verified_authority, insert_challenge, check_set_status, set_status,
}

-- The result of an operation with the state that it leaves.
abbrev pub Outcome : Type 0 → Type 0
Outcome V = Result AuthorityError (Unit {0}) × MemoryState V

module _ {V : Type 0} where
  abbrev pub IsRefused : Outcome V → MemoryState V → Type 0
  IsRefused out s = (e : AuthorityError) × (out ≡ (err e, s))

  pub insert_verified_authority_outcome :
      (d : PolicyDelegation V) (status : AuthorityStatus) (s : MemoryState V)
      → IsRefused (insert_verified_authority d status s) s
        ⊎ ((get d.delegation_cid s.artifacts ≡ none)
            × (get d.delegation_cid s.statuses ≡ none)
            × (insert_verified_authority d status s ≡ (
              ok tt,
              record s {
                statuses = put d.delegation_cid status s.statuses;
                artifacts = put d.delegation_cid d s.artifacts;
              },
            )))
  unfolding insert_verified_authority
  insert_verified_authority_outcome d status s =
      elim (Option-cases (get d.delegation_cid s.artifacts)) [
        | inr (a, e) ↦ inl (Errors.authority_state_unavailable, rw (insert_verified_authority, e))
        | inl e ↦ elim (Option-cases (get d.delegation_cid s.statuses)) [
          | inr (a, f) ↦
              inl (Errors.authority_state_unavailable, rw (insert_verified_authority, e, f))
          | inl f ↦ inr (e, f, rw (insert_verified_authority, e, f))
        ]
      ]

  pub insert_challenge_outcome :
      (c : ChallengeState) (s : MemoryState V)
      → IsRefused (insert_challenge c s) s
        ⊎ ((get c.challenge_id s.challenges ≡ none)
            × (insert_challenge c s
                ≡ (ok tt, record s { challenges = put c.challenge_id c s.challenges })))
  unfolding insert_challenge
  insert_challenge_outcome c s = elim (Result-cases (validate_challenge_lifetime c)) [
    | inr (e, f) ↦ inl (e, rw (insert_challenge, f))
    | inl (_, f) ↦ elim (Option-cases (get c.challenge_id s.challenges)) [
      | inr (a, g) ↦ inl (Errors.challenge_consumed, rw (insert_challenge, f, g))
      | inl g ↦ inr (g, rw (insert_challenge, f, g))
    ]
  ]

  pub set_status_outcome :
      (cid : Str) (status : AuthorityStatus) (s : MemoryState V)
      → IsRefused (set_status cid status s) s
        ⊎ ((check_set_status cid status s ≡ ok tt)
            × (set_status cid status s
                ≡ (ok tt, record s { statuses = put cid status s.statuses })))
  unfolding set_status
  set_status_outcome cid status s = elim (Result-cases (check_set_status cid status s)) [
    | inr (e, f) ↦ inl (e, rw (set_status, f))
    | inl (_, f) ↦ inr (f, rw (set_status, f))
  ]
