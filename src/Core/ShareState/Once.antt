-- ===== src/Core/ShareState/Once.antt =====
-- Challenges, reads and holder bindings are used once.
use tinycloud_node.Common.{
  ℕ, ◌≡◌, ◌∙◌, sym, ap, List, Option, some, ◌&&◌, not, arith, inl, inr, Bool-cases, Option-cases,
  is_none, ltb, ok, ok_or, >>=-eq-ok, require-eq-ok, ok_or-eq-ok,
}
use tinycloud_node.Common.Classes.{◌==◌, Str, List_eq, Nat_eq, eq→≡}
use tinycloud_node.Common.Maps.{get, put, get-put_same, get-put_other}
use tinycloud_node.Core.Json.{Json}
use tinycloud_node.Core.ShareState.Quota.{Clock, timestamp, parse_timestamp}
use tinycloud_node.Core.ShareState.Tables.{ProtocolState, ChallengeRow, insert_new}
use tinycloud_node.Core.ShareState.{
  AnonymousChallengeRequest, SessionHandleMapping, HolderReadJti, create_anonymous_challenge,
  nonce_differs, consumed_row, consume_anonymous_challenge_checked,
}
use tinycloud_node.Core.ShareState.Invitations.{Authorization, reserve_invitation_authorization}
use tinycloud_node.Core.ShareState.Sessions.{
  AuditEvent, commit_session, consume_holder_binding_jti, consume_holder_read_jti,
}

-- A row that is stored.
abbrev pub IsStored : {R : Type 0} → Str → List (Str × R) → Type 0
IsStored {R = R} key rows = (row : R) × (get key rows ≡ some row)

-- An insertion leaves what is stored.
pub insert_new_kept :
    {R : Type 0} (key other : Str) (new row : R) (rows rows' : List (Str × R))
    → insert_new other new rows ≡ ok rows'
    → get key rows ≡ some row
    → get key rows' ≡ some row
unfolding insert_new
insert_new_kept key other new row rows rows' i h = elim (Option-cases (get other rows)) [
  | inr (r, e) ↦ absurd (ground (arith, e, i))
  | inl e ↦
      let q : put other new rows ≡ rows' = ground (arith, e, i) in
      elim (Bool-cases (other == key)) [
        | inl f ↦
            let same : get other rows ≡ get key rows = ap (λ x. get x rows) (eq→≡ other key f) in
            absurd (ground (arith, same, e, h))
        | inr f ↦ sym (ap (get key) q) ∙ (get-put_other other key new rows f ∙ h)
      ]
]

pub put-IsStored :
    {R : Type 0} (key other : Str) (new : R) (rows : List (Str × R))
    → IsStored key rows
    → IsStored key (put other new rows)
put-IsStored key other new rows (row, h) = elim (Bool-cases (other == key)) [
  | inl f ↦ (new, rw (← eq→≡ other key f) (get-put_same other new rows))
  | inr f ↦ (row, get-put_other other key new rows f ∙ h)
]

-- A challenge that is stored as consumed.
abbrev pub IsSpent : {V : Type 0} → Str → List (Str × ChallengeRow V) → Type 0
IsSpent {V = V} id challenges =
    (row : ChallengeRow V) × (at : Str) × (get id challenges ≡ some row)
    × (row.consumed_at ≡ some at)

pub put-IsSpent :
    {V : Type 0} (id other : Str) (new : ChallengeRow V) (at : Str)
    (challenges : List (Str × ChallengeRow V))
    → new.consumed_at ≡ some at
    → IsSpent id challenges
    → IsSpent id (put other new challenges)
put-IsSpent id other new at challenges used (row, at', h, k) = elim (Bool-cases (other == id)) [
  | inl f ↦ (new, at, rw (← eq→≡ other id f) (get-put_same other new challenges), used)
  | inr f ↦ (row, at', get-put_other other id new challenges f ∙ h, k)
]

module _ (json : Json) (clock : Clock) where
  open json use {Value, value_eq}

  -- A call that succeeds, of any operation but the cleanup.
  pub data Step : ProtocolState Value → ProtocolState Value → Type 0 where
    reserved :
        (a : Authorization) (b : Value) (d : Str) (now : ℕ) (s t : ProtocolState Value)
        → reserve_invitation_authorization json clock a b d now s ≡ ok t
        → Step s t
    created :
        (r : AnonymousChallengeRequest Value) (now : ℕ) (s t : ProtocolState Value)
        → create_anonymous_challenge json clock r now s ≡ ok t
        → Step s t
    consumed :
        (id d : Str) (b : Value) (n : Option Str) (now : ℕ) (s t : ProtocolState Value)
        → consume_anonymous_challenge_checked json clock id d b n now s ≡ ok t
        → Step s t
    committed :
        (m : SessionHandleMapping Value) (a : AuditEvent) (now : ℕ) (s t : ProtocolState Value)
        → commit_session json clock m a now s ≡ ok t
        → Step s t
    held :
        (jti p h : Str) (from to : ℕ) (s t : ProtocolState Value)
        → consume_holder_binding_jti json clock jti p h from to s ≡ ok t
        → Step s t
    read :
        (r : HolderReadJti Value) (now : ℕ) (s t : ProtocolState Value)
        → consume_holder_read_jti json clock r now s ≡ ok t
        → Step s t

  pub data Steps (s : ProtocolState Value) : ProtocolState Value → Type 0 where
    none_yet : Steps s s
    then_step : {t u : ProtocolState Value} → Steps s t → Step t u → Steps s u

  pub consumed_row_spent :
      (id d : Str) (b : Value) (n : Option Str) (now : ℕ) (s : ProtocolState Value)
      (row : ChallengeRow Value)
      → consumed_row json clock id d b n now s ≡ ok row
      → (at : Str) × (row.consumed_at ≡ some at)
  unfolding consumed_row
  consumed_row_spent id d b n now s row h =
      let (old, e, h1) = >>=-eq-ok (ok_or (get id s.challenges) _) _ h in
      let (_, h2) = require-eq-ok (is_none old.consumed_at) _ _ h1 in
      let (_, h3) =
        require-eq-ok
          (old.request_digest == d
            && (value_eq.beq old.binding_json b && not (nonce_differs n old.nonce_hash)))
          _ _ h2 in
      let (x, f, h4) = >>=-eq-ok (parse_timestamp clock old.expires_at) _ h3 in
      let (_, h5) = require-eq-ok (ltb now x) _ _ h4 in
      let (at, g, h6) = >>=-eq-ok (timestamp clock now) _ h5 in
      let same : record old { consumed_at = some at } ≡ row = ground (arith, h6) in
      (at, ap (λ r. r.consumed_at) (sym same))

  pub consumed_row_unspent :
      (id d : Str) (b : Value) (n : Option Str) (now : ℕ) (s : ProtocolState Value)
      (row : ChallengeRow Value)
      → IsSpent id s.challenges
      → consumed_row json clock id d b n now s ≡ ok row
      → ⊥
  unfolding consumed_row
  consumed_row_unspent id d b n now s row (old', at, g, k) h =
      let (old, e, h1) = >>=-eq-ok (ok_or (get id s.challenges) _) _ h in
      let (t, h2) = require-eq-ok (is_none old.consumed_at) _ _ h1 in
      let q : some old ≡ some old' = sym (ok_or-eq-ok (get id s.challenges) _ e) ∙ g in
      let same : old ≡ old' = ground (arith, q) in
      let c : old.consumed_at ≡ some at = ap (λ r. r.consumed_at) same ∙ k in ground (arith, c, t)

  -- The challenge that a consumption leaves.
  pub consume-IsSpent :
      (id d : Str) (b : Value) (n : Option Str) (now : ℕ) (s t : ProtocolState Value)
      → consume_anonymous_challenge_checked json clock id d b n now s ≡ ok t
      → IsSpent id t.challenges
  unfolding consume_anonymous_challenge_checked
  consume-IsSpent id d b n now s t h =
      let (row, e, k) = >>=-eq-ok (consumed_row json clock id d b n now s) _ h in
      let (at, used) = consumed_row_spent id d b n now s row e in
      let q : put id row s.challenges ≡ t.challenges = ground (arith, k) in
      (row, at, sym (ap (get id) q) ∙ get-put_same id row s.challenges, used)
