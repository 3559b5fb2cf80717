-- ===== src/Tests/State.antt =====
-- The theorems of the protocol state of sharing by email and of the replay cache at concrete inputs.
-- The JSON values of the examples are strings, and the text of an instant is the one code of its
-- number.
use tinycloud_node.Common.{
  ℕ, ◌≤◌, ◌<◌, ◌≡◌, refl, inl, inr, ◌⊎◌, List, [], ◌∷◌, Option, none, some, true, false, arith, In,
  ok, err, is_ok,
}
use tinycloud_node.Common.Classes.{Str, codes, List_eq, Nat_eq, list_eq}
use tinycloud_node.Common.Maps.{get, put}
use tinycloud_node.Core.Json.{Json}
use tinycloud_node.Core.ShareState.Quota.{
  Clock, QuotaUse, QuotaRow, increment_quota, increment_quotas,
}
use tinycloud_node.Core.ShareState.Tables.{ProtocolState, ChallengeRow, SessionRow, ReadRow}
use tinycloud_node.Core.ShareState.{
  AnonymousChallengeRequest, HolderReadJti, quotas, create_anonymous_challenge,
  consume_anonymous_challenge_checked,
}
use tinycloud_node.Core.ShareState.Consumable.{IsExact, challenge_consumable}
use tinycloud_node.Core.ShareState.Sessions.{consume_holder_read_jti}
use tinycloud_node.Core.ShareState.Bound.{increment_all, hits, hit_count, increment_quota_bound}
use tinycloud_node.Core.ShareState.Once.{IsSpent, none_yet}
use tinycloud_node.Core.ShareState.Single.{challenge_consumed_once, read_consumed_once}
use tinycloud_node.Server.InvocationReplay.{duplicate, check_and_insert_key}
use tinycloud_node.Server.InvocationReplay.Window.{Call, after, replay_refused, replay_accepted}

abbrev parse_code : Str → Option ℕ
parse_code [] = none
parse_code (n ∷ _) = some n

abbrev coded_clock : Clock
coded_clock = record { format_rfc3339 = λ n. some (n ∷ []); parse_rfc3339 = parse_code }

abbrev texts : Json
texts = record {
  Value = Str;
  as_object = λ v. none;
  as_array = λ v. none;
  as_str = λ v. some v;
  as_bool = λ v. none;
  as_i64 = λ v. none;
  value_eq = List_eq;
}

abbrev ip_use : QuotaUse
ip_use = record { kind = codes "ip"; scope_digest = codes "a1"; limit = 2 }

abbrev two_uses : List (QuotaUse × ℕ)
two_uses = (ip_use, 5) ∷ (ip_use, 9) ∷ []

abbrev counted_row : QuotaRow
counted_row = record {
  bucket_kind = codes "ip";
  bucket_start = 0 ∷ [];
  scope_digest = codes "a1";
  uses = 2;
  expires_at = 86400000000000 ∷ [];
}

two_uses-counted : increment_all coded_clock two_uses [] ≡ ok (counted_row ∷ [])
unfolding increment_all increment_quota list_eq
two_uses-counted = refl

two_uses-limit :
    (c : QuotaUse × ℕ)
    → In c two_uses
    → hits coded_clock (codes "ip") (0 ∷ []) (codes "a1") c ≡ true
    → c.0.limit ≤ 2
two_uses-limit c (inl e) h = rw (← e) (omega arith)
two_uses-limit c (inr (inl e)) h = rw (← e) (omega arith)
two_uses-limit c (inr (inr m)) h = absurd m

increment_quota_bound_example :
    hit_count coded_clock (codes "ip") (0 ∷ []) (codes "a1") two_uses ≤ 2
increment_quota_bound_example =
    increment_quota_bound coded_clock (codes "ip") (0 ∷ []) (codes "a1") 2 two_uses
      (counted_row ∷ []) two_uses-limit two_uses-counted

abbrev challenge : Option Str → ChallengeRow Str
challenge consumed_at = record {
  request_digest = codes "r1";
  binding_json = codes "b";
  origin_digest = codes "o1";
  ip_digest = codes "a1";
  share_digest = codes "s1";
  nonce_hash = codes "n1";
  issued_at = 1 ∷ [];
  expires_at = 50 ∷ [];
  consumed_at = consumed_at;
}

abbrev session : SessionRow Str
session = record {
  authority_session_cid = codes "cid";
  binding_json = codes "b";
  holder_digest = codes "h1";
  issued_at = 1 ∷ [];
  expires_at = 90 ∷ [];
  revoked_at = none;
}

abbrev state : Option Str → List (Str × ReadRow Str) → ProtocolState Str
state consumed_at reads = record {
  invitations = [];
  challenges = (codes "c1", challenge consumed_at) ∷ [];
  sessions = (codes "h", session) ∷ [];
  reads = reads;
  presentations = [];
  audits = [];
  quotas = [];
}

challenge-consumed :
    consume_anonymous_challenge_checked texts coded_clock
      (codes "c1")
      (codes "r1")
      (codes "b")
      (some (codes "n1"))
      7
      (state none [])
    ≡ ok (state (some (7 ∷ [])) [])
unfolding consume_anonymous_challenge_checked get list_eq put
challenge-consumed = refl

challenge_consumed_once_example :
    is_ok (
      consume_anonymous_challenge_checked texts coded_clock
        (codes "c1")
        (codes "r1")
        (codes "b")
        none
        8
        (state (some (7 ∷ [])) []))
    ≡ false
challenge_consumed_once_example =
    challenge_consumed_once texts coded_clock (state none []) (state (some (7 ∷ [])) [])
      (state (some (7 ∷ [])) []) (codes "c1") (codes "r1") (codes "r1") (codes "b") (codes "b")
      (some (codes "n1")) none 7 8 challenge-consumed none_yet

abbrev request : AnonymousChallengeRequest Str
request = record {
  challenge_id = codes "c1";
  request_digest = codes "r1";
  binding_json = codes "b";
  origin_digest = codes "o1";
  ip_digest = codes "a1";
  share_digest = codes "s1";
  nonce_hash = codes "n1";
  issued_at = 1;
  expires_at = 50;
  body_bytes = 900;
  origin_limit = 120;
  ip_limit = 240;
  share_limit = 60;
}

abbrev use_row : Str → Str → QuotaRow
use_row kind scope = record {
  bucket_kind = kind;
  bucket_start = 0 ∷ [];
  scope_digest = scope;
  uses = 1;
  expires_at = 86400000000000 ∷ [];
}

abbrev created : ProtocolState Str
created = record (state none []) {
  quotas =
      use_row (codes "origin") (codes "o1")
      ∷ use_row (codes "ip") (codes "a1")
      ∷ use_row (codes "share") (codes "s1")
      ∷ [];
}

request-created :
    create_anonymous_challenge texts coded_clock request 2
      (record (state none []) { challenges = [] })
    ≡ ok created
unfolding create_anonymous_challenge quotas increment_quota increment_quotas get list_eq put
request-created = refl

coded_clock-IsExact : IsExact coded_clock
coded_clock-IsExact n text h = let same : n ∷ [] ≡ text = ground (arith, h) in rw (← same) refl

challenge_consumable_example :
    IsSpent (codes "c1") created.challenges
    ⊎ (is_ok (
          consume_anonymous_challenge_checked texts coded_clock
            (codes "c1")
            (codes "r1")
            (codes "b")
            (some (codes "n1"))
            7
            created)
        ≡ true)
challenge_consumable_example =
    challenge_consumable texts coded_clock request 2 7 (7 ∷ [])
      (record (state none []) { challenges = [] }) created created coded_clock-IsExact
      request-created none_yet refl (omega arith)

abbrev first_read : HolderReadJti Str
first_read = record {
  jti = codes "j1";
  session_handle = codes "h";
  invocation_digest = codes "i1";
  binding_json = codes "b";
  issued_at = 5;
  expires_at = 30;
}

abbrev read_at_seven : ReadRow Str
read_at_seven = record {
  session_handle = codes "h";
  invocation_digest = codes "i1";
  binding_json = codes "b";
  issued_at = 5 ∷ [];
  expires_at = 30 ∷ [];
  consumed_at = some (7 ∷ []);
}

first_read-consumed :
    consume_holder_read_jti texts coded_clock first_read 7 (state none [])
    ≡ ok (state none ((codes "j1", read_at_seven) ∷ []))
unfolding consume_holder_read_jti get list_eq put
first_read-consumed = refl

read_consumed_once_example :
    is_ok (
      consume_holder_read_jti texts coded_clock first_read 8
        (state none ((codes "j1", read_at_seven) ∷ [])))
    ≡ false
read_consumed_once_example =
    read_consumed_once texts coded_clock (state none [])
      (state none ((codes "j1", read_at_seven) ∷ []))
      (state none ((codes "j1", read_at_seven) ∷ [])) first_read first_read 7 8 first_read-consumed
      none_yet refl

abbrev invocation : Call
invocation = record { key = 1 ∷ 2 ∷ []; expires_at = 100; now = 10 }

abbrev other_invocation : Call
other_invocation = record { key = 1 ∷ 3 ∷ []; expires_at = 90; now = 20 }

invocation-accepted :
    (check_and_insert_key invocation.key invocation.expires_at invocation.now []).0 ≡ ok tt
unfolding check_and_insert_key get
invocation-accepted = refl

other_invocation-early : (c : Call) → In c (other_invocation ∷ []) → c.now < invocation.expires_at
other_invocation-early c (inl e) = rw (← e) (omega arith)
other_invocation-early c (inr m) = absurd m

replay_refused_example :
    (check_and_insert_key invocation.key 120 30 (
      after
        (other_invocation ∷ [])
        (check_and_insert_key invocation.key invocation.expires_at invocation.now []).1)).0
    ≡ err duplicate
replay_refused_example =
    replay_refused invocation (other_invocation ∷ []) 120 30 [] invocation-accepted
      other_invocation-early (omega arith)

expired_entry :
    (e : ℕ) → In {A = Str × ℕ} (invocation.key, e) ((invocation.key, 100) ∷ []) → e ≤ 100
expired_entry e (inl same) = ground (arith, same)
expired_entry e (inr m) = absurd m

replay_accepted_example :
    (check_and_insert_key invocation.key 200 100 ((invocation.key, 100) ∷ [])).0 ≡ ok tt
replay_accepted_example =
    replay_accepted invocation.key 200 100 ((invocation.key, 100) ∷ []) expired_entry
