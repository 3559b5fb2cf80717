-- ===== src/Core/ShareState/Quota.antt =====
-- tinycloud-core/src/share_email/state.rs: its errors, timestamps, and `increment_quota`.
use tinycloud_node.Common.{
  ℕ, ◌+◌, ◌*◌, ◌/◌, List, [], ◌∷◌, Option, Bool, ◌&&◌, not, is_empty, ltb, leb, if◌then◌else◌,
  Result, ok, ◌>>=◌, ◌>>◌, require, ok_or, find,
}
use tinycloud_node.Common.Classes.{◌==◌, Str, List_eq, Nat_eq}
use tinycloud_node.Core.PolicyAuthority.Platform.{seconds}

pub data StateError : Type 0 where
  storage : StateError
  invalid : StateError
  body_too_large : StateError
  quota_exceeded : StateError
  replay : StateError
  expired : StateError

-- Writing and reading RFC 3339 by the time package.
pub record Clock : Type 0 where
  pub format_rfc3339 : ℕ → Option Str
  pub parse_rfc3339 : Str → Option ℕ

unfoldable pub timestamp : Clock → ℕ → Result StateError Str
timestamp clock value = ok_or (clock.format_rfc3339 value) invalid

unfoldable pub parse_timestamp : Clock → Str → Result StateError ℕ
parse_timestamp clock value = ok_or (clock.parse_rfc3339 value) storage

abbrev pub quota_window : ℕ
quota_window = seconds 86400

pub record QuotaUse : Type 0 where
  pub kind : Str
  pub scope_digest : Str
  pub limit : ℕ

pub record QuotaRow : Type 0 where
  pub bucket_kind : Str
  pub bucket_start : Str
  pub scope_digest : Str
  pub uses : ℕ
  pub expires_at : Str

-- The row has that primary key.
unfoldable pub keyed : Str → Str → Str → QuotaRow → Bool
keyed kind start scope row =
    row.bucket_kind == kind && (row.bucket_start == start && row.scope_digest == scope)

-- The insertion that adds one to `uses` on a conflict.
unfoldable pub count_use : QuotaRow → List QuotaRow → List QuotaRow
unfolding keyed
count_use new [] = new ∷ []
count_use new (row ∷ rows) =
    let rest = count_use new rows in
    if keyed new.bucket_kind new.bucket_start new.scope_digest row
    then record row { uses = row.uses + 1 } ∷ rows
    else row ∷ rest

-- The start of the window that an instant lies in.
unfoldable pub bucket_start : Clock → ℕ → Result StateError Str
unfolding timestamp
bucket_start clock now = timestamp clock (now / quota_window * quota_window)

unfoldable pub bucket_end : Clock → Str → Result StateError Str
unfolding timestamp
bucket_end clock start = do
  at ← ok_or (clock.parse_rfc3339 start) invalid
  timestamp clock (at + quota_window)

unfoldable pub increment_quota :
    Clock → ℕ → QuotaUse → List QuotaRow → Result StateError (List QuotaRow)
unfolding count_use bucket_start bucket_end
increment_quota clock now quota rows = do
  require (not (is_empty quota.scope_digest) && ltb 0 quota.limit) invalid
  start ← bucket_start clock now
  expires_at ← bucket_end clock start
  let counted =
      count_use
        (record {
          bucket_kind = quota.kind;
          bucket_start = start;
          scope_digest = quota.scope_digest;
          uses = 1;
          expires_at = expires_at;
        })
        rows
  row ← ok_or (find (keyed quota.kind start quota.scope_digest) counted) storage
  require (leb row.uses quota.limit) quota_exceeded
  ok counted

-- The loop over the quotas of a request.
unfoldable pub increment_quotas :
    Clock → ℕ → List QuotaUse → List QuotaRow → Result StateError (List QuotaRow)
unfolding increment_quota
increment_quotas clock now [] rows = ok rows
increment_quotas clock now (quota ∷ quotas) rows = do
  counted ← increment_quota clock now quota rows
  increment_quotas clock now quotas counted
