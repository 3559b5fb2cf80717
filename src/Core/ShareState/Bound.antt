-- ===== src/Core/ShareState/Bound.antt =====
-- The quota bounds the uses.
use tinycloud_node.Common.{
  ℕ, suc, ◌+◌, ◌≤◌, ◌≡◌, refl, List, [], ◌∷◌, Bool, true, false, ◌&&◌, arith, inl, inr, Bool-cases,
  and-eq-true, In, ◌>>=◌, if◌then◌else◌, Result, ok, err, >>=-eq-ok,
}
use tinycloud_node.Common.Classes.{◌==◌, Str, List_eq, Nat_eq, eq→≡}
use tinycloud_node.Core.ShareState.Quota.{
  StateError, Clock, QuotaUse, QuotaRow, bucket_start, increment_quota,
}
use tinycloud_node.Core.ShareState.Counted.{uses_of, increment_quota-IsCounted}

-- A sequence of admitted uses at their times.
unfoldable pub increment_all :
    Clock → List (QuotaUse × ℕ) → List QuotaRow → Result StateError (List QuotaRow)
unfolding increment_quota
increment_all clock [] rows = ok rows
increment_all clock ((quota, now) ∷ calls) rows = do
  counted ← increment_quota clock now quota rows
  increment_all clock calls counted

-- The use counts under the key of that scope and window.
unfoldable pub hits : Clock → Str → Str → Str → QuotaUse × ℕ → Bool
unfolding bucket_start
hits clock kind start scope (quota, now) = elim (bucket_start clock now) [
  | err e ↦ false
  | ok from ↦ quota.kind == kind && (from == start && quota.scope_digest == scope)
]

unfoldable pub hit_count : Clock → Str → Str → Str → List (QuotaUse × ℕ) → ℕ
unfolding hits
hit_count clock kind start scope [] = 0
hit_count clock kind start scope (call ∷ calls) =
    let rest = hit_count clock kind start scope calls in
    if hits clock kind start scope call then suc rest else rest

-- Uses of one key, whose limits are at most the given one, with those that stand already.
increment_all_bound :
    (clock : Clock) (kind start scope : Str) (limit : ℕ) (calls : List (QuotaUse × ℕ))
    (rows counted : List QuotaRow)
    → ((c : QuotaUse × ℕ) → In c calls → hits clock kind start scope c ≡ true → c.0.limit ≤ limit)
    → uses_of kind start scope rows ≤ limit
    → increment_all clock calls rows ≡ ok counted
    → uses_of kind start scope rows + hit_count clock kind start scope calls ≤ limit
unfolding increment_all hits hit_count
increment_all_bound clock kind start scope limit [] rows counted small room h = omega arith
increment_all_bound clock kind start scope limit ((quota, now) ∷ calls) rows counted small room h =
    let (next, e, k) = >>=-eq-ok (increment_quota clock now quota rows) _ h in
    let c = increment_quota-IsCounted clock now quota rows next e in
    let starts = c.starts in
    elim (Bool-cases (quota.kind == kind && (c.start == start && quota.scope_digest == scope))) [
      | inl t ↦
          let (a, u) = and-eq-true (quota.kind == kind) _ t in
          let (b, d) = and-eq-true (c.start == start) _ u in
          let same_kind = eq→≡ quota.kind kind a in
          let same_start = eq→≡ c.start start b in
          let same_scope = eq→≡ quota.scope_digest scope d in
          let one : uses_of kind start scope next ≡ uses_of kind start scope rows + 1 =
            rw (same_kind, same_start, same_scope) at c.one_more in
          let within : uses_of kind start scope next ≤ quota.limit =
            rw (same_kind, same_start, same_scope) at c.within in
          let hit : hits clock kind start scope (quota, now) ≡ true = rw (starts, hits) t in
          let top : quota.limit ≤ limit = small (quota, now) (inl refl) hit in
          let rest =
            increment_all_bound clock kind start scope limit calls next counted
              (λ c' m. small c' (inr m)) (omega arith) k in
          rw (starts, hit_count, hits, t) (omega (arith, rest, one))
      | inr t ↦
          let one : uses_of kind start scope next ≡ uses_of kind start scope rows =
            c.others kind start scope t in
          let rest =
            increment_all_bound clock kind start scope limit calls next counted
              (λ c' m. small c' (inr m)) (omega (arith, one, room)) k in
          rw (starts, hit_count, hits, t) (omega (arith, rest, one))
    ]

-- Among uses that are all admitted one after the other from the empty table, at whatever times, those
-- of one kind and scope in one window of a day are no more than any limit that bounds their own.
pub increment_quota_bound :
    (clock : Clock) (kind start scope : Str) (limit : ℕ) (calls : List (QuotaUse × ℕ))
    (counted : List QuotaRow)
    → ((c : QuotaUse × ℕ) → In c calls → hits clock kind start scope c ≡ true → c.0.limit ≤ limit)
    → increment_all clock calls [] ≡ ok counted
    → hit_count clock kind start scope calls ≤ limit
unfolding uses_of
increment_quota_bound clock kind start scope limit calls counted small h =
    let all =
      increment_all_bound clock kind start scope limit calls [] counted small (omega arith) h in
    omega (arith, all)
