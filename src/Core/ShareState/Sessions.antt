-- ===== src/Core/ShareState/Sessions.antt =====
-- tinycloud-core/src/share_email/state.rs: sessions, the identifiers of reads and of holder bindings,
-- and the cleanup.
use tinycloud_node.Common.{
  ℕ, ◌+◌, List, ◌++◌, Option, none, some, Bool, ◌&&◌, not, is_empty, is_none, ltb, leb, filter,
  Result, ok, ◌>>=◌, ◌>>◌, require, ok_or,
}
use tinycloud_node.Common.Classes.{◌==◌, Str, codes, List_eq, Nat_eq}
use tinycloud_node.Common.Maps.{get, put}
use tinycloud_node.Common.Sort.{str_le}
use tinycloud_node.Core.Json.{Json}
use tinycloud_node.Core.ShareState.Quota
use tinycloud_node.Core.ShareState.Quota.{StateError, Clock, timestamp, parse_timestamp, QuotaRow}
use tinycloud_node.Core.ShareState.Tables.{
  SessionRow, ReadRow, PresentationRow, AuditRow, ProtocolState, insert_new,
}
use tinycloud_node.Core.ShareState.{SessionHandleMapping, HolderReadJti, session_ttl, read_jti_ttl}

pub record AuditEvent : Type 0 where
  pub audit_id : Str
  pub event_kind : Str
  pub outcome : Str
  pub share_digest : Str
  pub origin_digest : Str
  pub holder_digest : Option Str
  pub request_digest : Str

unfoldable pub audit_row : Clock → AuditEvent → ℕ → Result StateError AuditRow
unfolding timestamp
audit_row clock audit now = do
  created_at ← timestamp clock now
  ok (record {
    event_kind = audit.event_kind;
    outcome = audit.outcome;
    share_digest = audit.share_digest;
    origin_digest = audit.origin_digest;
    holder_digest = audit.holder_digest;
    request_digest = audit.request_digest;
    created_at = created_at;
  })

module _ (json : Json) (clock : Clock) where
  open json use {Value, value_eq}

  -- The row of a session before it is inserted.
  unfoldable pub session_row : SessionHandleMapping Value → ℕ → Result StateError (SessionRow Value)
  unfolding timestamp
  session_row session now = do
    require (ltb now session.expires_at && leb session.expires_at (now + session_ttl)) Quota.invalid
    require (not (is_empty session.authority_session_cid)) Quota.invalid
    issued_at ← timestamp clock session.issued_at
    expires_at ← timestamp clock session.expires_at
    ok (record {
      authority_session_cid = session.authority_session_cid;
      binding_json = session.binding_json;
      holder_digest = session.holder_digest;
      issued_at = issued_at;
      expires_at = expires_at;
      revoked_at = none;
    })

  -- What follows the insertion, by the row that was there before it: a session that was stored must be
  -- the same, a new one is written to the audit.
  unfoldable pub session_audits :
      SessionHandleMapping Value
      → AuditEvent
      → ℕ
      → ProtocolState Value
      → Result StateError (List (Str × AuditRow))
  unfolding audit_row insert_new
  session_audits session audit now s = elim (get session.handle s.sessions) [
    | some existing ↦ do
      require
          (existing.authority_session_cid == session.authority_session_cid
            && value_eq.beq existing.binding_json session.binding_json)
          Quota.replay
      ok s.audits
    | none ↦ do row ← audit_row clock audit now; insert_new audit.audit_id row s.audits
  ]

  unfoldable pub commit_session :
      SessionHandleMapping Value
      → AuditEvent
      → ℕ
      → ProtocolState Value
      → Result StateError (ProtocolState Value)
  unfolding session_row session_audits insert_new
  commit_session session audit now s = do
    row ← session_row session now
    sessions ← insert_new session.handle row s.sessions
    audits ← session_audits session audit now s
    ok (record s { sessions = sessions; audits = audits })

  unfoldable pub presentation_row :
      Str → Str → Str → ℕ → ℕ → ProtocolState Value → Result StateError PresentationRow
  unfolding timestamp
  presentation_row jti policy_cid session_handle issued_at expires_at s = do
    require (not (is_empty jti) && ltb issued_at expires_at) Quota.invalid
    require (is_none (get (codes "holder-binding:" ++ jti) s.presentations)) Quota.replay
    issued ← timestamp clock issued_at
    expires ← timestamp clock expires_at
    ok (record {
      nonce = codes "holder-binding-nonce:" ++ jti;
      policy_cid = policy_cid;
      session_handle = session_handle;
      issued_at = issued;
      expires_at = expires;
    })

  unfoldable pub consume_holder_binding_jti :
      Str → Str → Str → ℕ → ℕ → ProtocolState Value → Result StateError (ProtocolState Value)
  unfolding presentation_row
  consume_holder_binding_jti jti policy_cid session_handle issued_at expires_at s = do
    row ← presentation_row jti policy_cid session_handle issued_at expires_at s
    ok (record s { presentations = put (codes "holder-binding:" ++ jti) row s.presentations })

  -- The row of a read, behind the checks of the session.
  unfoldable pub read_row :
      HolderReadJti Value → ℕ → ProtocolState Value → Result StateError (ReadRow Value)
  unfolding timestamp parse_timestamp
  read_row read now s = do
    require (ltb now read.expires_at && leb read.expires_at (now + read_jti_ttl)) Quota.invalid
    session ← ok_or (get read.session_handle s.sessions) Quota.replay
    require (is_none session.revoked_at) Quota.replay
    end ← parse_timestamp clock session.expires_at
    require (ltb now end && is_none (get read.jti s.reads)) Quota.replay
    issued_at ← timestamp clock read.issued_at
    expires_at ← timestamp clock read.expires_at
    consumed_at ← timestamp clock now
    ok (record {
      session_handle = read.session_handle;
      invocation_digest = read.invocation_digest;
      binding_json = read.binding_json;
      issued_at = issued_at;
      expires_at = expires_at;
      consumed_at = some consumed_at;
    })

  unfoldable pub consume_holder_read_jti :
      HolderReadJti Value → ℕ → ProtocolState Value → Result StateError (ProtocolState Value)
  unfolding read_row
  consume_holder_read_jti read now s = do
    row ← read_row read now s
    ok (record s { reads = put read.jti row s.reads })

  -- `ExpiresAt.lt(now)`, which compares the texts.
  unfoldable pub is_kept : Str → Str → Bool
  is_kept now expires_at = str_le now expires_at

  unfoldable pub cleanup : ℕ → ProtocolState Value → Result StateError (ProtocolState Value)
  unfolding timestamp is_kept
  cleanup time s = do
    now ← timestamp clock time
    ok (record s {
      invitations = filter (λ row. is_kept now row.1.expires_at) s.invitations;
      challenges = filter (λ row. is_kept now row.1.expires_at) s.challenges;
      reads = filter (λ row. is_kept now row.1.expires_at) s.reads;
      sessions = filter (λ row. is_kept now row.1.expires_at) s.sessions;
      quotas = filter (λ row. is_kept now row.expires_at) s.quotas;
    })
