-- ===== src/Core/ShareState/Single.antt =====
-- The operations other than the cleanup keep what is consumed, so it is consumed once.
use tinycloud_node.Common.{
  ℕ, ◌+◌, ◌≡◌, refl, ◌∙◌, sym, ap, inl, inr, List, Option, false, ◌&&◌, arith, is_none, ltb, leb,
  and-eq-true, Result, ok, err, is_ok, ok_or, >>=-eq-ok, require-eq-ok,
}
use tinycloud_node.Common.Classes.{Str, List_eq, Nat_eq}
use tinycloud_node.Common.Maps.{get, put, get-put_same}
use tinycloud_node.Core.Json.{Json}
use tinycloud_node.Core.ShareState.Quota.{StateError, Clock, parse_timestamp}
use tinycloud_node.Core.ShareState.Tables.{ChallengeRow, ProtocolState, insert_new}
use tinycloud_node.Core.ShareState.{
  read_jti_ttl, HolderReadJti, challenge_row, challenge_quotas, create_anonymous_challenge,
  consumed_row, consume_anonymous_challenge_checked,
}
use tinycloud_node.Core.ShareState.Invitations.{
  invitation_row, check_invitation, reserve_invitation_authorization,
}
use tinycloud_node.Core.ShareState.Sessions.{
  session_row, session_audits, commit_session, presentation_row, consume_holder_binding_jti,
  read_row, consume_holder_read_jti,
}
use tinycloud_node.Core.ShareState.Changes.{Changed, Step-Changed, Steps-kept}
use tinycloud_node.Core.ShareState.Once.{
  IsStored, IsSpent, insert_new_kept, put-IsStored, put-IsSpent, Step, Steps, reserved, created,
  consumed, committed, held, read, consumed_row_unspent, consume-IsSpent,
}

is_ok_never : {S : Type 0} (r : Result StateError S) → ((t : S) → r ≡ ok t → ⊥) → is_ok r ≡ false
is_ok_never (ok t) h = absurd (h t refl)
is_ok_never (err e) h = refl

module _ (json : Json) (clock : Clock) where
  open json use {Value}

  -- A read that is stored is refused.
  read_refused :
      (r : HolderReadJti Value) (now : ℕ) (s t : ProtocolState Value)
      → IsStored r.jti s.reads
      → consume_holder_read_jti json clock r now s ≡ ok t
      → ⊥
  unfolding consume_holder_read_jti read_row
  read_refused r now s t (old, g) h =
      let (row, e, _) = >>=-eq-ok (read_row json clock r now s) _ h in
      let (_, h1) =
        require-eq-ok (ltb now r.expires_at && leb r.expires_at (now + read_jti_ttl)) _ _ e in
      let (session, f, h2) = >>=-eq-ok (ok_or (get r.session_handle s.sessions) _) _ h1 in
      let (_, h3) = require-eq-ok (is_none session.revoked_at) _ _ h2 in
      let (end, k, h4) = >>=-eq-ok (parse_timestamp clock session.expires_at) _ h3 in
      let (u, _) = require-eq-ok (ltb now end && is_none (get r.jti s.reads)) _ _ h4 in
      let (_, v) = and-eq-true (ltb now end) _ u in ground (arith, g, v)

  read-IsStored :
      (r : HolderReadJti Value) (now : ℕ) (s t : ProtocolState Value)
      → consume_holder_read_jti json clock r now s ≡ ok t
      → IsStored r.jti t.reads
  unfolding consume_holder_read_jti
  read-IsStored r now s t h =
      let (row, e, k) = >>=-eq-ok (read_row json clock r now s) _ h in
      let q : put r.jti row s.reads ≡ t.reads = ground (arith, k) in
      (row, sym (ap (get r.jti) q) ∙ get-put_same r.jti row s.reads)

  module _ (id : Str) where
    Changed-IsSpent :
        (old new : List (Str × ChallengeRow Value))
        → Changed old new
        → IsSpent id old
        → IsSpent id new
    Changed-IsSpent old new (inl q) used = rw (← q) used
    Changed-IsSpent old new (inr (inl (key, row, i))) (r, at, g, c) =
        (r, at, insert_new_kept id key row r old new i g, c)
    Changed-IsSpent old new (inr (inr (key, row, at, c, q))) used =
        rw (← q) (put-IsSpent id key row at old c used)

  module _ (jti : Str) where
    Step-IsStored :
        {s t : ProtocolState Value}
        → Step json clock s t
        → IsStored jti s.reads
        → IsStored jti t.reads
    unfolding reserve_invitation_authorization create_anonymous_challenge
        consume_anonymous_challenge_checked commit_session consume_holder_binding_jti
        consume_holder_read_jti
    Step-IsStored (reserved a b d now s t h) used =
        let (new, _, h1) = >>=-eq-ok (insert_new a.jti (invitation_row a b d) s.invitations) _ h in
        let (_, _, k) = >>=-eq-ok (check_invitation json clock a b d now s) _ h1 in
        let q : s.reads ≡ t.reads = ground (arith, k) in rw (← q) used
    Step-IsStored (created r now s t h) used =
        let (row, e, h1) = >>=-eq-ok (challenge_row json clock r now) _ h in
        let (_, _, h2) = >>=-eq-ok (insert_new r.challenge_id row s.challenges) _ h1 in
        let (uses, f, k) = >>=-eq-ok (challenge_quotas json clock r now s) _ h2 in
        let q : s.reads ≡ t.reads = ground (arith, k) in rw (← q) used
    Step-IsStored (consumed id' d b n now s t h) used =
        let (row, e, k) = >>=-eq-ok (consumed_row json clock id' d b n now s) _ h in
        let q : s.reads ≡ t.reads = ground (arith, k) in rw (← q) used
    Step-IsStored (committed m a now s t h) used =
        let (row, e, h1) = >>=-eq-ok (session_row json clock m now) _ h in
        let (_, _, h2) = >>=-eq-ok (insert_new m.handle row s.sessions) _ h1 in
        let (audits, f, k) = >>=-eq-ok (session_audits json clock m a now s) _ h2 in
        let q : s.reads ≡ t.reads = ground (arith, k) in rw (← q) used
    Step-IsStored (held j p h' from to s t h) used =
        let (row, e, k) = >>=-eq-ok (presentation_row json clock j p h' from to s) _ h in
        let q : s.reads ≡ t.reads = ground (arith, k) in rw (← q) used
    Step-IsStored (read r now s t h) used =
        let (row, e, k) = >>=-eq-ok (read_row json clock r now s) _ h in
        let q : put r.jti row s.reads ≡ t.reads = ground (arith, k) in
        rw (← q) (put-IsStored jti r.jti row s.reads used)

  -- After a challenge is consumed no further consumption of it succeeds, whatever successful calls of
  -- the operations other than the cleanup come between.
  pub challenge_consumed_once :
      (s t u : ProtocolState Value) (id d d' : Str) (b b' : Value) (n n' : Option Str)
      (now later : ℕ)
      → consume_anonymous_challenge_checked json clock id d b n now s ≡ ok t
      → Steps json clock t u
      → is_ok (consume_anonymous_challenge_checked json clock id d' b' n' later u) ≡ false
  unfolding consume_anonymous_challenge_checked
  challenge_consumed_once s t u id d d' b b' n n' now later h steps =
      let used =
        Steps-kept (λ x. IsSpent id x.challenges)
          (λ s' t' st. Changed-IsSpent id s'.challenges t'.challenges (Step-Changed json clock st))
          steps (consume-IsSpent json clock id d b n now s t h) in
      is_ok_never (consume_anonymous_challenge_checked json clock id d' b' n' later u) (λ v k.
        let (row, e, _) = >>=-eq-ok (consumed_row json clock id d' b' n' later u) _ k in
        consumed_row_unspent json clock id d' b' n' later u row used e)

  -- After the identifier of a read is consumed no further read with it succeeds, whatever successful
  -- calls of the operations other than the cleanup come between.
  pub read_consumed_once :
      (s t u : ProtocolState Value) (r r' : HolderReadJti Value) (now later : ℕ)
      → consume_holder_read_jti json clock r now s ≡ ok t
      → Steps json clock t u
      → r'.jti ≡ r.jti
      → is_ok (consume_holder_read_jti json clock r' later u) ≡ false
  read_consumed_once s t u r r' now later h steps same =
      let used =
        Steps-kept (λ x. IsStored r.jti x.reads) (λ _ _ st. Step-IsStored r.jti st) steps
          (read-IsStored r now s t h) in
      is_ok_never (consume_holder_read_jti json clock r' later u)
        (λ v k. read_refused r' later u v (rw same used) k)
