-- ===== src/Core/ShareState/Counted.antt =====
-- What an admitted use counts.
use tinycloud_node.Common.{
  ℕ, ◌+◌, ◌≤◌, ◌≡◌, refl, ◌∙◌, List, [], ◌∷◌, Option, none, some, true, false, ◌&&◌, not, arith,
  inl, inr, Bool-cases, and-eq-true, is_empty, ltb, leb, find, ok, ok_or, >>=-eq-ok, require-eq-ok,
  ok_or-eq-ok,
}
use tinycloud_node.Common.Classes.{◌==◌, Str, List_eq, Nat_eq, eq_refl, eq→≡}
use tinycloud_node.Core.ShareState.Quota.{
  Clock, QuotaUse, QuotaRow, keyed, count_use, bucket_start, bucket_end, increment_quota,
}

-- The uses that are counted under a key.
abbrev pub used : Option QuotaRow → ℕ
used none = 0
used (some row) = row.uses

unfoldable pub uses_of : Str → Str → Str → List QuotaRow → ℕ
uses_of kind start scope rows = used (find (keyed kind start scope) rows)

-- The key of a row does not depend on its uses.
keyed_uses :
    (kind start scope : Str) (row : QuotaRow) (n : ℕ)
    → keyed kind start scope (record row { uses = n }) ≡ keyed kind start scope row
unfolding keyed
keyed_uses kind start scope row n = refl

keyed_self : (row : QuotaRow) → keyed row.bucket_kind row.bucket_start row.scope_digest row ≡ true
unfolding keyed
keyed_self row =
    rw (eq_refl row.bucket_kind, eq_refl row.bucket_start, eq_refl row.scope_digest) refl

-- Rows of one key are alike for every key.
keyed_alike :
    (kind start scope : Str) (new row : QuotaRow)
    → keyed new.bucket_kind new.bucket_start new.scope_digest row ≡ true
    → keyed kind start scope row ≡ keyed kind start scope new
unfolding keyed
keyed_alike kind start scope new row h =
    let (a, t) = and-eq-true (row.bucket_kind == new.bucket_kind) _ h in
    let (b, c) = and-eq-true (row.bucket_start == new.bucket_start) _ t in
    rw
      (
        eq→≡ row.bucket_kind new.bucket_kind a,
        eq→≡ row.bucket_start new.bucket_start b,
        eq→≡ row.scope_digest new.scope_digest c,
      )
      refl

count_use_same :
    (new : QuotaRow) (rows : List QuotaRow)
    → new.uses ≡ 1
    → uses_of new.bucket_kind new.bucket_start new.scope_digest (count_use new rows)
      ≡ uses_of new.bucket_kind new.bucket_start new.scope_digest rows + 1
unfolding count_use uses_of
count_use_same new [] h = rw (keyed_self new) (omega (arith, h))
count_use_same new (row ∷ rows) h =
    elim (Bool-cases (keyed new.bucket_kind new.bucket_start new.scope_digest row)) [
      | inl e ↦
          let e' =
            keyed_uses new.bucket_kind new.bucket_start new.scope_digest row (row.uses + 1) ∙ e in
          rw (e, count_use, e') refl
      | inr e ↦ let rest = count_use_same new rows h in rw (e, count_use, e) rest
    ]

count_use_other :
    (kind start scope : Str) (new : QuotaRow) (rows : List QuotaRow)
    → keyed kind start scope new ≡ false
    → uses_of kind start scope (count_use new rows) ≡ uses_of kind start scope rows
unfolding count_use uses_of
count_use_other kind start scope new [] h = rw h refl
count_use_other kind start scope new (row ∷ rows) h =
    elim (Bool-cases (keyed new.bucket_kind new.bucket_start new.scope_digest row)) [
      | inl e ↦ let f = keyed_alike kind start scope new row e ∙ h in rw (e, count_use, f) refl
      | inr e ↦ elim (Bool-cases (keyed kind start scope row)) [
        | inl f ↦ rw (e, count_use, f) refl
        | inr f ↦ rw (e, count_use, f) (count_use_other kind start scope new rows h)
      ]
    ]

-- The row that a use asks for.
abbrev asked : QuotaUse → Str → Str → QuotaRow
asked quota start end = record {
  bucket_kind = quota.kind;
  bucket_start = start;
  scope_digest = quota.scope_digest;
  uses = 1;
  expires_at = end;
}

-- A use that is admitted is counted in its window, stays within its limit there, and is not counted
-- elsewhere.
pub record IsCounted (clock : Clock) (now : ℕ) (quota : QuotaUse) (rows counted : List QuotaRow)
    : Type 0 where
  pub start : Str
  pub starts : bucket_start clock now ≡ ok start
  pub one_more :
      uses_of quota.kind start quota.scope_digest counted
      ≡ uses_of quota.kind start quota.scope_digest rows + 1
  pub within : uses_of quota.kind start quota.scope_digest counted ≤ quota.limit
  pub others :
      (kind from scope : Str)
      → (quota.kind == kind && (start == from && quota.scope_digest == scope)) ≡ false
      → uses_of kind from scope counted ≡ uses_of kind from scope rows

pub increment_quota-IsCounted :
    (clock : Clock) (now : ℕ) (quota : QuotaUse) (rows counted : List QuotaRow)
    → increment_quota clock now quota rows ≡ ok counted
    → IsCounted clock now quota rows counted
unfolding increment_quota uses_of keyed
increment_quota-IsCounted clock now quota rows counted h =
    let (_, h1) = require-eq-ok (not (is_empty quota.scope_digest) && ltb 0 quota.limit) _ _ h in
    let (start, e, h2) = >>=-eq-ok (bucket_start clock now) _ h1 in
    let (end, f, h3) = >>=-eq-ok (bucket_end clock start) _ h2 in
    let new = asked quota start end in
    let (row, g, h4) =
      >>=-eq-ok (ok_or (find (keyed quota.kind start quota.scope_digest) (count_use new rows)) _) _
        h3 in
    let (t, h5) = require-eq-ok (leb row.uses quota.limit) _ _ h4 in
    let found =
      ok_or-eq-ok (find (keyed quota.kind start quota.scope_digest) (count_use new rows)) _ g in
    let same : count_use new rows ≡ counted = ground (arith, h5) in
    record {
      start = start;
      starts = e;
      one_more = rw (← same) (count_use_same new rows refl);
      within = rw (← same, found) (ground (arith, t));
      others = λ kind from scope d. rw (← same) (count_use_other kind from scope new rows d);
    }
