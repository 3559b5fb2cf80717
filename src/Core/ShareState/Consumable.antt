-- ===== src/Core/ShareState/Consumable.antt =====
-- A challenge that is created can be consumed.
use tinycloud_node.Common.{
  ℕ, ◌+◌, ◌<◌, ◌≡◌, refl, ◌∙◌, sym, ap, List, none, some, true, ◌&&◌, arith, ◌⊎◌, inl, inr,
  Bool-cases, Option-cases, ltb, leb, ok, is_ok, >>=-eq-ok, require-eq-ok, ok_or-eq-ok,
}
use tinycloud_node.Common.Classes.{◌==◌, Str, List_eq, Nat_eq, eq_refl, eq→≡}
use tinycloud_node.Common.Maps.{get, put, get-put_same, get-put_other}
use tinycloud_node.Core.Json.{Json}
use tinycloud_node.Core.ShareState.Quota.{Clock, timestamp, parse_timestamp}
use tinycloud_node.Core.ShareState.Tables.{ChallengeRow, ProtocolState, insert_new}
use tinycloud_node.Core.ShareState.{
  AnonymousChallengeRequest, challenge_row, challenge_quotas, create_anonymous_challenge,
  max_request_body_bytes, challenge_ttl, consumed_row, consume_anonymous_challenge_checked,
}
use tinycloud_node.Core.ShareState.Changes.{Changed, Step-Changed, Steps-kept}
use tinycloud_node.Core.ShareState.Once.{IsSpent, Steps, insert_new_kept, put-IsSpent}

-- The text of an instant is read as that instant.
abbrev pub IsExact : Clock → Type 0
IsExact clock =
    (n : ℕ) (text : Str) → clock.format_rfc3339 n ≡ some text → clock.parse_rfc3339 text ≡ some n

-- A row that is inserted is stored.
insert_new-get :
    {R : Type 0} (key : Str) (row : R) (rows new : List (Str × R))
    → insert_new key row rows ≡ ok new
    → get key new ≡ some row
unfolding insert_new
insert_new-get key row rows new h = elim (Option-cases (get key rows)) [
  | inr (r, e) ↦ absurd (ground (arith, e, h))
  | inl e ↦
      let q : put key row rows ≡ new = ground (arith, e, h) in
      sym (ap (get key) q) ∙ get-put_same key row rows
]

-- A row that stands unconsumed stays, or is consumed.
Changed-kept :
    {V : Type 0} (id : Str) (row : ChallengeRow V) (old new : List (Str × ChallengeRow V))
    → Changed old new
    → IsSpent id old ⊎ (get id old ≡ some row)
    → IsSpent id new ⊎ (get id new ≡ some row)
Changed-kept id row old new (inl q) h = rw (← q) h
Changed-kept id row old new (inr (inl (key, r, i))) (inl (r', at, g, c)) =
    inl (r', at, insert_new_kept id key r r' old new i g, c)
Changed-kept id row old new (inr (inl (key, r, i))) (inr g) =
    inr (insert_new_kept id key r row old new i g)
Changed-kept id row old new (inr (inr (key, r, at, c, q))) (inl used) =
    inl (rw (← q) (put-IsSpent id key r at old c used))
Changed-kept id row old new (inr (inr (key, r, at, c, q))) (inr g) = elim (Bool-cases (key == id)) [
  | inl e ↦
      let there : get id (put key r old) ≡ some r = rw (← eq→≡ key id e) (get-put_same key r old) in
      inl (r, at, sym (ap (get id) q) ∙ there, c)
  | inr e ↦ inr (sym (ap (get id) q) ∙ (get-put_other key id r old e ∙ g))
]

module _ (json : Json) (clock : Clock) where
  open json use {Value, value_eq}

  -- What a row is made of.
  IsRowOf : AnonymousChallengeRequest Value → ChallengeRow Value → Type 0
  IsRowOf r row =
      (row.request_digest ≡ r.request_digest)
      × (row.binding_json ≡ r.binding_json)
      × (row.nonce_hash ≡ r.nonce_hash)
      × (clock.format_rfc3339 r.expires_at ≡ some row.expires_at)
      × (row.consumed_at ≡ none)

  challenge_row-IsRowOf :
      (r : AnonymousChallengeRequest Value) (now : ℕ) (row : ChallengeRow Value)
      → challenge_row json clock r now ≡ ok row
      → IsRowOf r row
  unfolding challenge_row IsRowOf timestamp
  challenge_row-IsRowOf r now row h =
      let (_, h1) = require-eq-ok (leb r.body_bytes max_request_body_bytes) _ _ h in
      let (_, h2) =
        require-eq-ok (ltb now r.expires_at && leb r.expires_at (now + challenge_ttl)) _ _ h1 in
      let (i, e, h3) = >>=-eq-ok (timestamp clock r.issued_at) _ h2 in
      let (x, f, k) = >>=-eq-ok (timestamp clock r.expires_at) _ h3 in
      let end = ok_or-eq-ok (clock.format_rfc3339 r.expires_at) _ f in
      let same : x ≡ row.expires_at = ground (arith, k) in
      (
        ground (arith, k),
        ground (arith, k),
        ground (arith, k),
        end ∙ ap some same,
        ground (arith, k),
      )

  consumed_row-ok :
      (r : AnonymousChallengeRequest Value) (row : ChallengeRow Value) (later : ℕ) (at : Str)
      (u : ProtocolState Value)
      → IsExact clock
      → IsRowOf r row
      → get r.challenge_id u.challenges ≡ some row
      → clock.format_rfc3339 later ≡ some at
      → later < r.expires_at
      → consumed_row json clock r.challenge_id r.request_digest r.binding_json
          (some r.nonce_hash)
          later
          u
        ≡ ok (record row { consumed_at = some at })
  unfolding consumed_row timestamp parse_timestamp IsRowOf
  consumed_row-ok r row later at u exact (d, b, n, x, c) g f early =
      let in_time : ltb later r.expires_at ≡ true = ground (arith, early) in
      rw (
        g,
        c,
        d,
        b,
        n,
        eq_refl r.request_digest,
        (value_eq.beq_iff r.binding_json r.binding_json).1 refl,
        eq_refl r.nonce_hash,
        exact r.expires_at row.expires_at x,
        in_time,
        f,
      )

  -- With timestamps that are read as they were written: a challenge that was created is consumed by
  -- its digest, binding and nonce at any time before it expires that can be written, unless it was
  -- consumed already, whatever successful calls of the operations other than the cleanup come between.
  pub challenge_consumable :
      (r : AnonymousChallengeRequest Value) (now later : ℕ) (at : Str) (s t u : ProtocolState Value)
      → IsExact clock
      → create_anonymous_challenge json clock r now s ≡ ok t
      → Steps json clock t u
      → clock.format_rfc3339 later ≡ some at
      → later < r.expires_at
      → IsSpent r.challenge_id u.challenges
        ⊎ (is_ok (
              consume_anonymous_challenge_checked json clock r.challenge_id r.request_digest
                r.binding_json
                (some r.nonce_hash)
                later
                u)
            ≡ true)
  unfolding create_anonymous_challenge consume_anonymous_challenge_checked
  challenge_consumable r now later at s t u exact h steps f early =
      let id = r.challenge_id in
      let (row, e, h1) = >>=-eq-ok (challenge_row json clock r now) _ h in
      let (new, i, h2) = >>=-eq-ok (insert_new id row s.challenges) _ h1 in
      let (uses, _, k) = >>=-eq-ok (challenge_quotas json clock r now s) _ h2 in
      let q : new ≡ t.challenges = ground (arith, k) in
      let stored : get id t.challenges ≡ some row =
        sym (ap (get id) q) ∙ insert_new-get id row s.challenges new i in
      elim (Steps-kept (λ x. IsSpent id x.challenges ⊎ (get id x.challenges ≡ some row))
        (λ s' t' st. Changed-kept id row s'.challenges t'.challenges (Step-Changed json clock st))
        steps (inr stored)) [
          | inl used ↦ inl used
          | inr there ↦ inr (
              rw
                (consumed_row-ok r row later at u exact (challenge_row-IsRowOf r now row e) there f
                  early)
                refl)
        ]
