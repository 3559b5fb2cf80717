-- ===== src/Core/Policy/Capability/Fields.antt =====
-- What each part of the parser of tinycloud-core/src/policy_capability/mod.rs has checked.
use tinycloud_node.Common.{
  ◌≡◌, refl, List, Option, [], ◌∷◌, some, true, false, not, ◌||◌, arith, In, inl, inr, all, all-In,
  contains, contains→In, is_empty, any, is_whitespace, is_some, contains_byte, starts_with, map, ok,
  >>=-eq-ok, require-eq-ok, ok_or, ok_or-eq-ok,
}
use tinycloud_node.Common.Classes.{Str, codes, List_eq, Nat_eq, list_eq_iff}
use tinycloud_node.Common.Sort.{sort, dedup, dedup-sort-In}
use tinycloud_node.Core.Json.{Json, get, and_then}
use tinycloud_node.Core.Policy.Actions.{accepted_actions}
use tinycloud_node.Core.Policy.SqlCaveat
use tinycloud_node.Core.Policy.SqlCaveat.{SqlConstrainedStatementCaveat}
use tinycloud_node.Core.Policy.Capability.{
  PolicyCapability, reads_sql, check_service, check_space, parse_actions, check_sql_caveat,
  check_caveats, parse_action_set, parse_space, parse_rest,
}

module _ (json : Json) (nfc : Str → Str) where
  open json use {Value, as_object, as_array, as_str}

  abbrev pub text : List (Str × Value) → Str → Option Str
  text entries key = and_then (get key entries) as_str

  pub check_space-ok :
      (space : Str)
      → check_space space ≡ ok tt
      → (is_empty space ≡ false)
        × (contains_byte b'*' space ≡ false)
        × (contains_byte b'?' space ≡ false)
        × (starts_with space (codes "manifest:") ≡ false)
  unfolding check_space
  check_space-ok space h = ground arith

  pub check_service-ok :
      (s : Str) (accepted : List Str)
      → check_service s ≡ ok accepted
      → (accepted_actions s ≡ some accepted) × (any is_whitespace s ≡ false)
  unfolding check_service
  check_service-ok s accepted h =
      let (t, k) = require-eq-ok (not (is_empty s || any is_whitespace s)) _ _ h in
      (ok_or-eq-ok (accepted_actions s) _ k, ground arith)

  parse_actions-In :
      (accepted : List Str) (vs : List Value) (actions : List Str) (a : Str)
      → parse_actions json nfc accepted vs ≡ ok actions
      → In a actions
      → In a accepted
  unfolding parse_actions
  parse_actions-In accepted [] actions a h m =
      let e : actions ≡ [] = ground arith in absurd (rw e at m)
  parse_actions-In accepted (v ∷ vs) actions a h m =
      let (x, e, h1) = >>=-eq-ok (ok_or (as_str v) _) _ h in
      let (t, h2) = require-eq-ok (contains_byte b'/' x) _ _ h1 in
      let (u, h3) = require-eq-ok (contains accepted x) _ _ h2 in
      let (rest, f, h4) = >>=-eq-ok (parse_actions json nfc accepted vs) _ h3 in
      let g : actions ≡ x ∷ rest = ground arith in
      elim (rw g at m) [
        | inl i ↦ rw (← i) (contains→In accepted x u)
        | inr i ↦ parse_actions-In accepted vs rest a f i
      ]

  pub check_caveats-reads :
      (service : Str) (actions : List Str) (v : Value) (a : Str)
      → check_caveats json nfc service actions (some v) ≡ ok tt
      → service ≡ codes "tinycloud.sql"
      → In a actions
      → reads_sql a ≡ true
  unfolding check_caveats check_sql_caveat
  check_caveats-reads service actions v a h sql m =
      let (t, k) = require-eq-ok (is_some (as_object v)) _ _ h in
      let k' : check_sql_caveat json nfc actions v ≡ ok tt =
        rw ((list_eq_iff service (codes "tinycloud.sql")).1 sql) at k in
      let (c, e, k1) = >>=-eq-ok (SqlCaveat.parse json v) _ k' in
      let (u, k2) = require-eq-ok (all reads_sql actions) _ _ k1 in all-In reads_sql actions a u m

  pub parse_action_set-In :
      (entries : List (Str × Value)) (accepted actions : List Str)
      → parse_action_set json nfc entries accepted ≡ ok actions
      → ((a : Str) → In a actions → In a accepted) × (is_empty actions ≡ false)
  unfolding parse_action_set
  parse_action_set-In entries accepted actions h =
      let (av, e, h1) = >>=-eq-ok (ok_or (get (codes "actions") entries) _) _ h in
      let (vs, f, h2) = >>=-eq-ok (ok_or (as_array av) _) _ h1 in
      let (raw, g, h3) = >>=-eq-ok (parse_actions json nfc accepted vs) _ h2 in
      let (t, h4) = require-eq-ok (not (is_empty (dedup (sort raw)))) _ _ h3 in
      let same : dedup (sort raw) ≡ actions = ground arith in
      (
        λ a m. parse_actions-In accepted vs raw a g (dedup-sort-In a raw (rw (← same) at m)),
        ground (arith, same),
      )

  parse_actions-texts :
      (accepted : List Str) (vs : List Value) (actions : List Str)
      → parse_actions json nfc accepted vs ≡ ok actions
      → map as_str vs ≡ map some actions
  unfolding parse_actions
  parse_actions-texts accepted [] actions h = let e : [] ≡ actions = ground arith in rw (← e) refl
  parse_actions-texts accepted (v ∷ vs) actions h =
      let (x, e, h1) = >>=-eq-ok (ok_or (as_str v) _) _ h in
      let (t, h2) = require-eq-ok (contains_byte b'/' x) _ _ h1 in
      let (u, h3) = require-eq-ok (contains accepted x) _ _ h2 in
      let (rest, f, h4) = >>=-eq-ok (parse_actions json nfc accepted vs) _ h3 in
      let g : x ∷ rest ≡ actions = ground arith in
      rw (← g, ok_or-eq-ok (as_str v) _ e, parse_actions-texts accepted vs rest f) refl

  -- What the last part of the parser has checked, and the fields that it gives.
  pub parse_rest-fields :
      (entries : List (Str × Value)) (service : Str) (accepted : List Str) (space path : Str)
      (c : PolicyCapability Value)
      → parse_rest json nfc entries service accepted space path ≡ ok c
      → (service ≡ c.service)
        × (space ≡ c.space)
        × (path ≡ c.path)
        × (get (codes "caveats") entries ≡ c.caveats)
        × (parse_action_set json nfc entries accepted ≡ ok c.actions)
        × (check_caveats json nfc c.service c.actions c.caveats ≡ ok tt)
  unfolding parse_rest
  parse_rest-fields entries service accepted space path c h =
      let caveats = get (codes "caveats") entries in
      let (actions, e, h1) = >>=-eq-ok (parse_action_set json nfc entries accepted) _ h in
      let (u, f, h2) = >>=-eq-ok (check_caveats json nfc service actions caveats) _ h1 in
      let e1 : service ≡ c.service = ground arith in
      let e4 : actions ≡ c.actions = ground arith in
      let e5 : caveats ≡ c.caveats = ground arith in
      (e1, ground arith, ground arith, e5, rw (← e4) e, rw (← e1, ← e4, ← e5) f)

  pub parse_space-ok :
      (entries : List (Str × Value)) (space : Str)
      → parse_space json nfc entries ≡ ok space
      → (text entries (codes "space") ≡ some space) × (check_space space ≡ ok tt)
  unfolding parse_space
  parse_space-ok entries space h =
      let (s, e, h1) = >>=-eq-ok (ok_or (text entries (codes "space")) _) _ h in
      let (u, f, h2) = >>=-eq-ok (check_space s) _ h1 in
      let same : s ≡ space = ground arith in
      (rw (← same) (ok_or-eq-ok (text entries (codes "space")) _ e), rw (← same) f)

  pub parse_action_set-texts :
      (entries : List (Str × Value)) (accepted actions : List Str)
      → parse_action_set json nfc entries accepted ≡ ok actions
      → (values : List Value) × (raw_actions : List Str) × (and_then
            (get (codes "actions") entries)
            as_array
          ≡ some values)
        × (map as_str values ≡ map some raw_actions)
        × (dedup (sort raw_actions) ≡ actions)
  unfolding parse_action_set
  parse_action_set-texts entries accepted actions h =
      let (av, e, h1) = >>=-eq-ok (ok_or (get (codes "actions") entries) _) _ h in
      let (vs, f, h2) = >>=-eq-ok (ok_or (as_array av) _) _ h1 in
      let (raw, g, h3) = >>=-eq-ok (parse_actions json nfc accepted vs) _ h2 in
      let (t, h4) = require-eq-ok (not (is_empty (dedup (sort raw)))) _ _ h3 in
      let array : and_then (get (codes "actions") entries) as_array ≡ some vs =
        rw (ok_or-eq-ok (get (codes "actions") entries) _ e) (ok_or-eq-ok (as_array av) _ f) in
      (vs, raw, array, parse_actions-texts accepted vs raw g, ground arith)
