-- ===== src/Core/Policy/Capability.antt =====
-- tinycloud-core/src/policy_capability/mod.rs: capabilities, their parsing from JSON with the
-- boundary checks, and when one contains another.
pub mod Contains
pub mod Fields
pub mod Parse
use tinycloud_node.Common.{
  ℕ, List, [], ◌∷◌, Option, none, some, Bool, true, false, not, ◌&&◌, ◌||◌, if◌then◌else◌, any, all,
  contains, is_empty, is_some, is_none, nat_eq, leb, ltb, contains_byte, starts_with, is_whitespace,
  Result, ok, err, ◌>>=◌, ◌>>◌, require, ok_or,
}
use tinycloud_node.Common.Classes.{Eq, ◌==◌, Str, codes, List_eq, Nat_eq}
use tinycloud_node.Common.Sort.{sort, dedup}
use tinycloud_node.Core.Json.{Json, get, and_then}
use tinycloud_node.Core.Policy.Codes
use tinycloud_node.Core.Policy.Codes.{RejectionCode}
use tinycloud_node.Core.Policy.Registry.{resolve_alias}
use tinycloud_node.Core.Policy.Actions.{accepted_actions, expand_granted_actions, path_contains}
use tinycloud_node.Core.Policy.Paths.{normalize_path}
use tinycloud_node.Core.Policy.SqlCaveat
use tinycloud_node.Core.Policy.SqlCaveat.{SqlConstrainedStatementCaveat, ConstrainedStatement}
use tinycloud_node.Core.Policy.SqlText.{contains_write_keyword}

pub record PolicyCapability (V : Type 0) : Type 0 where
  pub service : Str
  pub space : Str
  pub path : Str
  pub actions : List Str
  pub caveats : Option V

abbrev pub allowed_keys : List Str
allowed_keys =
    codes "service" ∷ codes "space" ∷ codes "path" ∷ codes "actions" ∷ codes "caveats" ∷ []

abbrev pub manifest_marker_keys : List Str
manifest_marker_keys =
    codes "id" ∷ codes "scope" ∷ codes "type" ∷ codes "actions_short" ∷ codes "permissions" ∷ []

-- The loop over the keys.
unfoldable pub check_keys {ℓ} : {V : Type ℓ} → List (Str × V) → Result RejectionCode (Unit {0})
check_keys [] = ok tt
check_keys ((k, v) ∷ entries) =
    let rest = check_keys entries in
    if contains manifest_marker_keys k
    then err Codes.policy_capability_malformed
    else if not (contains allowed_keys k)
    then err Codes.policy_capability_unknown_key
    else rest

-- The check of the service.
unfoldable pub check_service : Str → Result RejectionCode (List Str)
check_service service = do
  require (not (is_empty service || any is_whitespace service))
      Codes.policy_capability_malformed_service
  ok_or (accepted_actions service) Codes.policy_capability_malformed_service

unfoldable pub check_space : Str → Result RejectionCode (Unit {0})
check_space space =
    if is_empty space
      || (contains_byte b'*' space
          || (contains_byte b'?' space || starts_with space (codes "manifest:")))
    then err Codes.policy_capability_malformed_space
    else ok tt

abbrev pub reads_sql : Str → Bool
reads_sql a = a == codes "tinycloud.sql/read" || a == codes "tinycloud.sql/select"

module _ (json : Json) (nfc : Str → Str) where
  open json use {Value, as_object, as_array, as_str}

  -- The loop over the actions.
  unfoldable pub parse_actions : List Str → List Value → Result RejectionCode (List Str)
  parse_actions accepted [] = ok []
  parse_actions accepted (v ∷ vs) = do
    action ← ok_or (as_str v) Codes.policy_capability_malformed_action
    require (contains_byte b'/' action) Codes.policy_capability_malformed_action_shortname
    require (contains accepted action) Codes.policy_capability_malformed_action
    rest ← parse_actions accepted vs
    ok (action ∷ rest)

  -- The stricter checks of a SQL caveat.
  unfoldable pub check_sql_caveat : List Str → Value → Result RejectionCode (Unit {0})
  check_sql_caveat actions v = do
    caveat ← SqlCaveat.parse json v
    require (all reads_sql actions) Codes.policy_capability_malformed
    require (all (λ statement. not (contains_write_keyword statement.sql)) caveat.statements)
        Codes.sql_write_blocked
    ok tt

  unfoldable pub check_caveats : Str → List Str → Option Value → Result RejectionCode (Unit {0})
  unfolding check_sql_caveat
  check_caveats service actions none = ok tt
  check_caveats service actions (some v) = do
    require (is_some (as_object v)) Codes.policy_capability_malformed_caveats
    if service == codes "tinycloud.sql" then check_sql_caveat actions v else ok tt

  -- The block on the actions.
  unfoldable pub parse_action_set : List (Str × Value) → List Str → Result RejectionCode (List Str)
  unfolding parse_actions
  parse_action_set entries accepted = do
    actions_value ← ok_or (get (codes "actions") entries) Codes.policy_capability_empty_actions
    actions_array ← ok_or (as_array actions_value) Codes.policy_capability_malformed_action
    raw_actions ← parse_actions accepted actions_array
    let actions = dedup (sort raw_actions)
    require (not (is_empty actions)) Codes.policy_capability_empty_actions
    ok actions

  unfoldable pub parse_space : List (Str × Value) → Result RejectionCode Str
  parse_space entries = do
    space ←
        ok_or (and_then (get (codes "space") entries) as_str)
          Codes.policy_capability_malformed_space
    check_space space
    ok space

  unfoldable pub parse_path : List (Str × Value) → Str → Result RejectionCode Str
  parse_path entries service =
      ok_or (and_then (get (codes "path") entries) as_str) Codes.policy_capability_malformed_path
      >>= normalize_path nfc service

  -- The part behind the checks of service, space and path.
  unfoldable pub parse_rest :
      List (Str × Value)
      → Str
      → List Str
      → Str
      → Str
      → Result RejectionCode (PolicyCapability Value)
  unfolding parse_action_set check_caveats
  parse_rest entries service accepted space path = do
    actions ← parse_action_set entries accepted
    check_caveats service actions (get (codes "caveats") entries)
    ok (record {
      service = service;
      space = space;
      path = path;
      actions = actions;
      caveats = get (codes "caveats") entries;
    })

  -- The part behind the checks of the keys.
  unfoldable pub parse_entries : List (Str × Value) → Result RejectionCode (PolicyCapability Value)
  unfolding parse_rest parse_space parse_path
  parse_entries entries = do
    service ←
        ok_or (and_then (get (codes "service") entries) as_str)
          Codes.policy_capability_malformed_service
    accepted ← check_service service
    space ← parse_space entries
    path ← parse_path entries service
    parse_rest entries service accepted space path

  unfoldable pub parse : Value → Result RejectionCode (PolicyCapability Value)
  unfolding parse_entries
  parse input = do
    entries ← ok_or (as_object input) Codes.policy_capability_malformed
    check_keys entries
    parse_entries entries

module _ (json : Json) where
  open json use {Value}

  -- The actions that are requested, each resolved to its canonical form, are granted.
  unfoldable pub actions_granted : List Str → List Str → Bool
  actions_granted held requested = elim (expand_granted_actions held) [
    | none ↦ false
    | some granted ↦ all (λ a. contains granted (resolve_alias a)) requested
  ]

  unfoldable pub sql_caveats_contained : Value → Value → Result RejectionCode (Unit {0})
  sql_caveats_contained a r = do
    auth ← SqlCaveat.parse json a
    req ← SqlCaveat.parse json r
    SqlCaveat.contains json auth req

  unfoldable pub caveats_contained :
      Str → Option Value → Option Value → Result RejectionCode (Unit {0})
  unfolding sql_caveats_contained
  caveats_contained service none req = ok tt
  caveats_contained service (some a) none = err Codes.containment_caveat_required
  caveats_contained service (some a) (some r) =
      if service == codes "tinycloud.sql" then sql_caveats_contained a r else ok tt

  -- `self.contains(req)`.
  unfoldable pub capability_contains :
      PolicyCapability Value → PolicyCapability Value → Result RejectionCode (Unit {0})
  unfolding actions_granted caveats_contained
  capability_contains self req =
      if not (self.service == req.service)
      then err Codes.containment_service_mismatch
      else if not (self.space == req.space)
      then err Codes.containment_space_mismatch
      else if not (path_contains self.service self.path req.path)
      then err Codes.containment_path_mismatch
      else if not (actions_granted self.actions req.actions)
      then err Codes.containment_action_not_subset
      else caveats_contained self.service self.caveats req.caveats
