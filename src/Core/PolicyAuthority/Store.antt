-- ===== src/Core/PolicyAuthority/Store.antt =====
-- tinycloud-core/src/policy_authority/mod.rs: the store in memory and its transitions. An operation
-- returns its result with the new state of the store, which the mutex guards as a whole.
pub mod Outcomes
use tinycloud_node.Common.{
  ℕ, ◌≡◌, List, [], ◌∷◌, Option, none, some, Bool, true, false, ◌&&◌, ◌||◌, not, is_some, ltb, leb,
  filter, if◌then◌else◌, Result, ok, err, ◌>>=◌, ◌>>◌, require, ok_or,
}
use tinycloud_node.Common.Classes.{Eq, ◌==◌, Str, List_eq, Nat_eq, Option_eq}
use tinycloud_node.Common.Maps.{get, put}
use tinycloud_node.Core.PolicyAuthority.Errors
use tinycloud_node.Core.PolicyAuthority.Errors.{AuthorityError}
use tinycloud_node.Core.PolicyAuthority.Artifacts.{PolicyDelegation}
use tinycloud_node.Core.PolicyAuthority.Records.{
  ChallengeState, validate_challenge_lifetime, IssuanceAudit, VerifiedEdge, AuthorityStatus,
}

pub record MemoryState (V : Type 0) : Type 0 where
  pub artifacts : List (Str × PolicyDelegation V)
  pub edges : List VerifiedEdge
  pub challenges : List (Str × ChallengeState)
  pub audits : List (Str × IssuanceAudit)
  pub statuses : List (Str × AuthorityStatus)
  pub fail_next_transaction : Bool

-- The store of `Default`.
abbrev pub default_store : {V : Type 0} → MemoryState V
default_store = record {
  artifacts = [];
  edges = [];
  challenges = [];
  audits = [];
  statuses = [];
  fail_next_transaction = false;
}

-- `revoked_at.is_some_and(|at| at < from || at > to)`.
abbrev outside : Option ℕ → ℕ → ℕ → Bool
outside none from to = false
outside (some at) from to = ltb at from || ltb to at

unfoldable pub validate_status_transition :
    AuthorityStatus → AuthorityStatus → Result AuthorityError (Unit {0})
validate_status_transition previous next =
    require
      (ltb previous.sequence next.sequence
        && (leb previous.checked_at next.checked_at
            && (not (is_some previous.revoked_at && not (next.revoked_at == previous.revoked_at))
                && not (outside next.revoked_at previous.checked_at next.checked_at))))
      Errors.authority_state_unavailable

-- `store.edges(cid)`.
unfoldable pub edges_of : Str → List VerifiedEdge → List VerifiedEdge
edges_of cid edges = filter (λ edge. edge.child_cid == cid) edges

module _ {V : Type 0} where
  unfoldable pub insert_verified_authority :
      PolicyDelegation V
      → AuthorityStatus
      → MemoryState V
      → Result AuthorityError (Unit {0}) × MemoryState V
  unfolding get put
  insert_verified_authority artifact status s =
      if is_some (get artifact.delegation_cid s.artifacts)
        || is_some (get artifact.delegation_cid s.statuses)
      then (err Errors.authority_state_unavailable, s)
      else (
        ok tt,
        record s {
          statuses = put artifact.delegation_cid status s.statuses;
          artifacts = put artifact.delegation_cid artifact s.artifacts;
        },
      )

  unfoldable pub insert_challenge :
      ChallengeState → MemoryState V → Result AuthorityError (Unit {0}) × MemoryState V
  insert_challenge challenge s = elim (validate_challenge_lifetime challenge) [
    | err e ↦ (err e, s)
    | ok _ ↦
        if is_some (get challenge.challenge_id s.challenges)
        then (err Errors.challenge_consumed, s)
        else (ok tt, record s { challenges = put challenge.challenge_id challenge s.challenges })
  ]

  -- The checks of `set_status`.
  unfoldable pub check_set_status :
      Str → AuthorityStatus → MemoryState V → Result AuthorityError (Unit {0})
  unfolding validate_status_transition
  check_set_status cid status s = do
    previous ← ok_or (get cid s.statuses) Errors.authority_state_unavailable
    validate_status_transition previous status

  unfoldable pub set_status :
      Str → AuthorityStatus → MemoryState V → Result AuthorityError (Unit {0}) × MemoryState V
  unfolding check_set_status
  set_status cid status s = elim (check_set_status cid status s) [
    | err e ↦ (err e, s)
    | ok _ ↦ (ok tt, record s { statuses = put cid status s.statuses })
  ]

  unfoldable pub fail_next_transaction : MemoryState V → MemoryState V
  fail_next_transaction s = record s { fail_next_transaction = true }

  unfoldable pub challenge : Str → MemoryState V → Option ChallengeState
  challenge id s = get id s.challenges

  unfoldable pub artifact : Str → MemoryState V → Option (PolicyDelegation V)
  artifact cid s = get cid s.artifacts

  unfoldable pub audit : Str → MemoryState V → Option IssuanceAudit
  audit issuance_id s = get issuance_id s.audits
