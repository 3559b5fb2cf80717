-- ===== src/Server/InvocationReplay.antt =====
-- tinycloud-node-server/src/invocation_replay.rs: the cache of invocations that were seen. A call
-- holds the lock of the cache throughout, and returns its result with the new map. Instants are
-- numbers of nanoseconds from the Unix epoch.
pub mod Window
use tinycloud_node.Common.{
  ℕ, ◌+◌, ◌^◌, ◌&&◌, List, [], ◌∷◌, Option, none, some, Bool, true, false, is_some, filter, ltb,
  if◌then◌else◌, Result, ok, err,
}
use tinycloud_node.Common.Classes.{Str}
use tinycloud_node.Common.Maps.{get, put}
use tinycloud_node.Core.PolicyAuthority.Platform.{seconds}

abbrev pub clock_skew_seconds : ℕ
clock_skew_seconds = 60

pub data InvocationReplayError : Type 0 where
  duplicate : InvocationReplayError

-- `OffsetDateTime::from_unix_timestamp(…).unwrap_or(…)`, of the expiry in seconds, as i64 holds it,
-- and of the first instant that the time package no longer represents. A sum that does not fit in
-- i64 wraps, where overflow is not checked, to a number before the first instant of that package.
unfoldable pub invocation_expires_at : ℕ → ℕ → ℕ → ℕ
invocation_expires_at end expiration now =
    if ltb (expiration + clock_skew_seconds) (2 ^ 63)
      && ltb (seconds (expiration + clock_skew_seconds)) end
    then seconds (expiration + clock_skew_seconds)
    else now + seconds clock_skew_seconds

-- `seen.retain(|_, expires_at| *expires_at > now)`.
unfoldable pub retain : ℕ → List (Str × ℕ) → List (Str × ℕ)
retain now seen = filter (λ entry. ltb now entry.1) seen

unfoldable pub check_and_insert_key :
    Str → ℕ → ℕ → List (Str × ℕ) → Result InvocationReplayError (Unit {0}) × List (Str × ℕ)
unfolding retain
check_and_insert_key key expires_at now seen =
    let kept = retain now seen in
    if is_some (get key kept) then (err duplicate, kept) else (ok tt, put key expires_at kept)

-- `check_and_insert`, of the content hash of an invocation and its expiry in seconds.
unfoldable pub check_and_insert :
    ℕ → Str → ℕ → ℕ → List (Str × ℕ) → Result InvocationReplayError (Unit {0}) × List (Str × ℕ)
unfolding check_and_insert_key invocation_expires_at
check_and_insert end content_hash expiration now seen =
    check_and_insert_key content_hash (invocation_expires_at end expiration now) now seen
