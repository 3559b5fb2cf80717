-- ===== src/Core/PolicyAuthority/Platform.antt =====
-- The packages that tinycloud-core/src/policy_authority/mod.rs calls, as the program uses them, with
-- the canonical JSON bytes of policy_capability/jcs.rs. An instant is a number of nanoseconds since
-- the earliest one.
use tinycloud_node.Common.{ℕ, ◌*◌, List, Option}
use tinycloud_node.Common.Classes.{Str}
use tinycloud_node.Core.Json.{Json}

pub record Platform : Type 1 where
  pub json : Json
  -- `Value::String`, `Value::Array` and `Value::Object`.
  pub text : Str → json.Value
  pub array : List json.Value → json.Value
  pub object : List (Str × json.Value) → json.Value
  -- `nfc().collect()` of unicode_normalization.
  pub nfc : Str → Str
  -- `jcs::canonicalize`.
  pub canonicalize : json.Value → List ℕ
  -- `Sha256::digest` of sha2.
  pub sha256 : List ℕ → List ℕ
  -- `OffsetDateTime::parse(value, &Rfc3339).ok()` of time.
  pub parse_rfc3339 : Str → Option ℕ

-- `Duration::seconds`.
abbrev pub seconds : ℕ → ℕ
seconds n = n * 1000000000
