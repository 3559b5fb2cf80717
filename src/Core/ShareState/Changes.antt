-- ===== src/Core/ShareState/Changes.antt =====
-- What an operation other than the cleanup does to the challenges.
use tinycloud_node.Common.{◌≡◌, ◌∙◌, ap, inl, inr, ◌⊎◌, List, some, arith, ok, >>=-eq-ok}
use tinycloud_node.Common.Classes.{Str, List_eq, Nat_eq}
use tinycloud_node.Common.Maps.{put}
use tinycloud_node.Core.Json.{Json}
use tinycloud_node.Core.ShareState.Quota.{Clock}
use tinycloud_node.Core.ShareState.Tables.{ChallengeRow, ProtocolState, insert_new}
use tinycloud_node.Core.ShareState.{
  challenge_row, challenge_quotas, create_anonymous_challenge, consumed_row,
  consume_anonymous_challenge_checked,
}
use tinycloud_node.Core.ShareState.Invitations.{
  invitation_row, check_invitation, reserve_invitation_authorization,
}
use tinycloud_node.Core.ShareState.Sessions.{
  session_row, session_audits, commit_session, presentation_row, consume_holder_binding_jti,
  read_row, consume_holder_read_jti,
}
use tinycloud_node.Core.ShareState.Once.{
  Step, Steps, reserved, created, consumed, committed, held, read, none_yet, then_step,
  consumed_row_spent,
}

-- The challenges stay, one is inserted, or one is written as consumed.
abbrev pub Changed :
    {V : Type 0} → List (Str × ChallengeRow V) → List (Str × ChallengeRow V) → Type 0
Changed {V = V} old new =
    (old ≡ new)
    ⊎ (((key : Str) × (row : ChallengeRow V) × (insert_new key row old ≡ ok new))
        ⊎ ((key : Str) × (row : ChallengeRow V) × (at : Str) × (row.consumed_at ≡ some at)
            × (put key row old ≡ new)))

module _ (json : Json) (clock : Clock) where
  open json use {Value}

  pub Step-Changed :
      {s t : ProtocolState Value} → Step json clock s t → Changed s.challenges t.challenges
  unfolding reserve_invitation_authorization create_anonymous_challenge
      consume_anonymous_challenge_checked commit_session consume_holder_binding_jti
      consume_holder_read_jti
  Step-Changed (reserved a b d now s t h) =
      let (new, _, h1) = >>=-eq-ok (insert_new a.jti (invitation_row a b d) s.invitations) _ h in
      let (_, _, k) = >>=-eq-ok (check_invitation json clock a b d now s) _ h1 in
      inl (ground (arith, k))
  Step-Changed (created r now s t h) =
      let (row, e, h1) = >>=-eq-ok (challenge_row json clock r now) _ h in
      let (new, i, h2) = >>=-eq-ok (insert_new r.challenge_id row s.challenges) _ h1 in
      let (uses, f, k) = >>=-eq-ok (challenge_quotas json clock r now s) _ h2 in
      let q : new ≡ t.challenges = ground (arith, k) in inr (inl (r.challenge_id, row, i ∙ ap ok q))
  Step-Changed (consumed id d b n now s t h) =
      let (row, e, k) = >>=-eq-ok (consumed_row json clock id d b n now s) _ h in
      let (at, c) = consumed_row_spent json clock id d b n now s row e in
      inr (inr (id, row, at, c, ground (arith, k)))
  Step-Changed (committed m a now s t h) =
      let (row, e, h1) = >>=-eq-ok (session_row json clock m now) _ h in
      let (_, _, h2) = >>=-eq-ok (insert_new m.handle row s.sessions) _ h1 in
      let (audits, f, k) = >>=-eq-ok (session_audits json clock m a now s) _ h2 in
      inl (ground (arith, k))
  Step-Changed (held j p h' from to s t h) =
      let (row, e, k) = >>=-eq-ok (presentation_row json clock j p h' from to s) _ h in
      inl (ground (arith, k))
  Step-Changed (read r now s t h) =
      let (row, e, k) = >>=-eq-ok (read_row json clock r now s) _ h in inl (ground (arith, k))

pub Steps-kept :
    {json : Json} {clock : Clock} (P : ProtocolState json.Value → Type 0)
    → ((s t : ProtocolState json.Value) → Step json clock s t → P s → P t)
    → {s t : ProtocolState json.Value} → Steps json clock s t
    → P s
    → P t
Steps-kept P step none_yet p = p
Steps-kept P step (then_step r st) p = step _ _ st (Steps-kept P step r p)
