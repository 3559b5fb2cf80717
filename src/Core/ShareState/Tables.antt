-- ===== src/Core/ShareState/Tables.antt =====
-- The errors, rows and tables of tinycloud-core/src/share_email/state.rs.
use tinycloud_node.Common.{List, Option, is_some, if◌then◌else◌, Result, ok, err}
use tinycloud_node.Common.Classes.{Str}
use tinycloud_node.Common.Maps.{get, put}
use tinycloud_node.Core.ShareState.Quota
use tinycloud_node.Core.ShareState.Quota.{StateError, QuotaRow}

pub record InvitationRow (V : Type 0) : Type 0 where
  pub authorization_digest : Str
  pub binding_json : V
  pub issued_at : Str
  pub expires_at : Str
  pub consumed_at : Option Str

pub record ChallengeRow (V : Type 0) : Type 0 where
  pub request_digest : Str
  pub binding_json : V
  pub origin_digest : Str
  pub ip_digest : Str
  pub share_digest : Str
  pub nonce_hash : Str
  pub issued_at : Str
  pub expires_at : Str
  pub consumed_at : Option Str

pub record SessionRow (V : Type 0) : Type 0 where
  pub authority_session_cid : Str
  pub binding_json : V
  pub holder_digest : Str
  pub issued_at : Str
  pub expires_at : Str
  pub revoked_at : Option Str

pub record ReadRow (V : Type 0) : Type 0 where
  pub session_handle : Str
  pub invocation_digest : Str
  pub binding_json : V
  pub issued_at : Str
  pub expires_at : Str
  pub consumed_at : Option Str

pub record PresentationRow : Type 0 where
  pub nonce : Str
  pub policy_cid : Str
  pub session_handle : Str
  pub issued_at : Str
  pub expires_at : Str

pub record AuditRow : Type 0 where
  pub event_kind : Str
  pub outcome : Str
  pub share_digest : Str
  pub origin_digest : Str
  pub holder_digest : Option Str
  pub request_digest : Str
  pub created_at : Str

pub record ProtocolState (V : Type 0) : Type 0 where
  pub invitations : List (Str × InvitationRow V)
  pub challenges : List (Str × ChallengeRow V)
  pub sessions : List (Str × SessionRow V)
  pub reads : List (Str × ReadRow V)
  pub presentations : List (Str × PresentationRow)
  pub audits : List (Str × AuditRow)
  pub quotas : List QuotaRow

-- `insert(row).on_conflict(do_nothing).exec()?`. An insertion that gives way is sea-orm's error
-- `RecordNotInserted`, which `From<DbErr>` makes `StateError::Storage`.
unfoldable pub insert_new :
    {R : Type 0} → Str → R → List (Str × R) → Result StateError (List (Str × R))
insert_new key row rows =
    if is_some (get key rows) then err Quota.storage else ok (put key row rows)
