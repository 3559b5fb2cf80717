-- ===== src/Core/ShareState/Invitations.antt =====
-- tinycloud-core/src/share_email/state.rs: the reservation of an invitation.
use tinycloud_node.Common.{ℕ, none, some, ◌&&◌, is_none, ltb, Result, ok, ◌>>=◌, ◌>>◌, require}
use tinycloud_node.Common.Classes.{◌==◌, Str, List_eq, Nat_eq}
use tinycloud_node.Common.Maps.{get}
use tinycloud_node.Core.Json.{Json}
use tinycloud_node.Core.ShareState.Tables.{InvitationRow, ProtocolState, insert_new}
use tinycloud_node.Core.ShareState.Quota
use tinycloud_node.Core.ShareState.Quota.{
  StateError, Clock, timestamp, parse_timestamp, QuotaRow, QuotaUse, increment_quotas,
}

-- The fields of the authorization in an InvitationAuthorizationReceipt that are used.
pub record Authorization : Type 0 where
  pub jti : Str
  pub issued_at : Str
  pub expires_at : Str

abbrev pub invitation_row : {V : Type 0} → Authorization → V → Str → InvitationRow V
invitation_row authorization binding_json digest = record {
  authorization_digest = digest;
  binding_json = binding_json;
  issued_at = authorization.issued_at;
  expires_at = authorization.expires_at;
  consumed_at = none;
}

module _ (json : Json) (clock : Clock) where
  open json use {Value, value_eq}

  -- The checks behind the insertion, by the row that was there before it.
  unfoldable pub check_invitation :
      Authorization → Value → Str → ℕ → ProtocolState Value → Result StateError (Unit {0})
  unfolding parse_timestamp
  check_invitation authorization binding_json digest now s =
      elim (get authorization.jti s.invitations) [
        | some existing ↦ do
          require
              (existing.authorization_digest == digest
                && (value_eq.beq existing.binding_json binding_json
                    && is_none existing.consumed_at))
              Quota.replay
          expires ← parse_timestamp clock existing.expires_at
          require (ltb now expires) Quota.expired
        | none ↦ do
          expires ← parse_timestamp clock authorization.expires_at
          require (ltb now expires) Quota.expired
      ]

  unfoldable pub reserve_invitation_authorization :
      Authorization
      → Value
      → Str
      → ℕ
      → ProtocolState Value
      → Result StateError (ProtocolState Value)
  unfolding check_invitation insert_new
  reserve_invitation_authorization authorization binding_json digest now s = do
    invitations ←
        insert_new authorization.jti (invitation_row authorization binding_json digest)
          s.invitations
    check_invitation authorization binding_json digest now s
    ok (record s { invitations = invitations })
