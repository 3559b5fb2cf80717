-- ===== src/Core/ShareState.antt =====
-- tinycloud-core/src/share_email/state.rs: the durable protocol state of sharing by email. The tables
-- are lists of rows by their primary keys. An operation returns the state after its transaction;
-- with an error the transaction is dropped, and the state stays. An instant is a number of
-- nanoseconds since the Unix epoch.
pub mod Quota
pub mod Tables
pub mod Invitations
pub mod Sessions
pub mod Counted
pub mod Bound
pub mod Once
pub mod Changes
pub mod Single
pub mod Consumable
use tinycloud_node.Common.{
  ℕ, ◌+◌, ◌*◌, List, [], ◌∷◌, ◌++◌, Option, none, some, Bool, true, false, ◌&&◌, ◌||◌, not,
  is_empty, is_some, is_none, ltb, leb, filter, if◌then◌else◌, Result, ok, err, ◌>>=◌, ◌>>◌,
  require, ok_or,
}
use tinycloud_node.Common.Classes.{Eq, ◌==◌, Str, codes, List_eq, Nat_eq}
use tinycloud_node.Common.Maps.{get, put}
use tinycloud_node.Common.Sort.{str_le}
use tinycloud_node.Core.Json.{Json}
use tinycloud_node.Core.PolicyAuthority.Platform.{seconds}
use tinycloud_node.Core.ShareState.Tables.{
  InvitationRow, ChallengeRow, SessionRow, ReadRow, PresentationRow, AuditRow, ProtocolState,
  insert_new,
}
use tinycloud_node.Core.ShareState.Quota
use tinycloud_node.Core.ShareState.Quota.{
  StateError, Clock, timestamp, parse_timestamp, QuotaRow, QuotaUse, increment_quotas,
}

abbrev pub max_request_body_bytes : ℕ
max_request_body_bytes = 65536

abbrev pub challenge_ttl : ℕ
challenge_ttl = seconds 120

abbrev pub session_ttl : ℕ
session_ttl = seconds 300

abbrev pub read_jti_ttl : ℕ
read_jti_ttl = seconds 60

pub record AnonymousChallengeRequest (V : Type 0) : Type 0 where
  pub challenge_id : Str
  pub request_digest : Str
  pub binding_json : V
  pub origin_digest : Str
  pub ip_digest : Str
  pub share_digest : Str
  pub nonce_hash : Str
  pub issued_at : ℕ
  pub expires_at : ℕ
  pub body_bytes : ℕ
  -- Limits are i64; a negative one is refused as 0 is, and stands here as 0.
  pub origin_limit : ℕ
  pub ip_limit : ℕ
  pub share_limit : ℕ

pub record SessionHandleMapping (V : Type 0) : Type 0 where
  pub handle : Str
  pub authority_session_cid : Str
  pub binding_json : V
  pub holder_digest : Str
  pub issued_at : ℕ
  pub expires_at : ℕ

pub record HolderReadJti (V : Type 0) : Type 0 where
  pub jti : Str
  pub session_handle : Str
  pub invocation_digest : Str
  pub binding_json : V
  pub issued_at : ℕ
  pub expires_at : ℕ

unfoldable pub quotas : {V : Type 0} → AnonymousChallengeRequest V → List QuotaUse
quotas r =
    record { kind = codes "origin"; scope_digest = r.origin_digest; limit = r.origin_limit }
    ∷ record { kind = codes "ip"; scope_digest = r.ip_digest; limit = r.ip_limit }
    ∷ record { kind = codes "share"; scope_digest = r.share_digest; limit = r.share_limit }
    ∷ []

-- `nonce_hash.is_some_and(|expected| row.nonce_hash != expected)`.
abbrev pub nonce_differs : Option Str → Str → Bool
nonce_differs none nonce_hash = false
nonce_differs (some expected) nonce_hash = not (nonce_hash == expected)

module _ (json : Json) (clock : Clock) where
  open json use {Value, value_eq}

  -- The row of a challenge before it is inserted.
  unfoldable pub challenge_row :
      AnonymousChallengeRequest Value → ℕ → Result StateError (ChallengeRow Value)
  unfolding timestamp
  challenge_row r now = do
    require (leb r.body_bytes max_request_body_bytes) Quota.body_too_large
    require (ltb now r.expires_at && leb r.expires_at (now + challenge_ttl)) Quota.invalid
    issued_at ← timestamp clock r.issued_at
    expires_at ← timestamp clock r.expires_at
    ok (record {
      request_digest = r.request_digest;
      binding_json = r.binding_json;
      origin_digest = r.origin_digest;
      ip_digest = r.ip_digest;
      share_digest = r.share_digest;
      nonce_hash = r.nonce_hash;
      issued_at = issued_at;
      expires_at = expires_at;
      consumed_at = none;
    })

  -- What follows the insertion, by the row that was there before it: a challenge that was stored must
  -- be the same, a new one counts against the quotas.
  unfoldable pub challenge_quotas :
      AnonymousChallengeRequest Value → ℕ → ProtocolState Value → Result StateError (List QuotaRow)
  challenge_quotas r now s = elim (get r.challenge_id s.challenges) [
    | some existing ↦ do
      require
          (existing.request_digest == r.request_digest
            && value_eq.beq existing.binding_json r.binding_json)
          Quota.replay
      ok s.quotas
    | none ↦ increment_quotas clock now (quotas r) s.quotas
  ]

  unfoldable pub create_anonymous_challenge :
      AnonymousChallengeRequest Value
      → ℕ
      → ProtocolState Value
      → Result StateError (ProtocolState Value)
  unfolding challenge_row challenge_quotas insert_new
  create_anonymous_challenge r now s = do
    row ← challenge_row r now
    challenges ← insert_new r.challenge_id row s.challenges
    uses ← challenge_quotas r now s
    ok (record s { challenges = challenges; quotas = uses })

  -- The row of a challenge after it is consumed.
  unfoldable pub consumed_row :
      Str
      → Str
      → Value
      → Option Str
      → ℕ
      → ProtocolState Value
      → Result StateError (ChallengeRow Value)
  unfolding timestamp parse_timestamp
  consumed_row challenge_id request_digest binding_json nonce_hash now s = do
    row ← ok_or (get challenge_id s.challenges) Quota.replay
    require (is_none row.consumed_at) Quota.replay
    require
        (row.request_digest == request_digest
          && (value_eq.beq row.binding_json binding_json
              && not (nonce_differs nonce_hash row.nonce_hash)))
        Quota.replay
    expires ← parse_timestamp clock row.expires_at
    require (ltb now expires) Quota.replay
    at ← timestamp clock now
    ok (record row { consumed_at = some at })

  unfoldable pub consume_anonymous_challenge_checked :
      Str
      → Str
      → Value
      → Option Str
      → ℕ
      → ProtocolState Value
      → Result StateError (ProtocolState Value)
  unfolding consumed_row
  consume_anonymous_challenge_checked challenge_id request_digest binding_json nonce_hash now s = do
    row ← consumed_row challenge_id request_digest binding_json nonce_hash now s
    ok (record s { challenges = put challenge_id row s.challenges })

  unfoldable pub consume_anonymous_challenge :
      Str → Str → Value → ℕ → ProtocolState Value → Result StateError (ProtocolState Value)
  unfolding consume_anonymous_challenge_checked
  consume_anonymous_challenge challenge_id request_digest binding_json now s =
      consume_anonymous_challenge_checked challenge_id request_digest binding_json none now s

  -- Its checks are those of the checked operation with a nonce.
  unfoldable pub consume_anonymous_challenge_in_transaction :
      Str → Str → Value → Str → ℕ → ProtocolState Value → Result StateError (ProtocolState Value)
  unfolding consume_anonymous_challenge_checked
  consume_anonymous_challenge_in_transaction challenge_id request_digest binding_json nonce_hash now
        s =
      consume_anonymous_challenge_checked challenge_id request_digest binding_json (some nonce_hash)
        now s
