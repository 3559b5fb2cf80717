-- ===== src/Core/Authority.antt =====
-- What delegations and invocations share: the rows of the database, the capabilities of an event
-- (tinycloud-core/src/util.rs), who is the root authority of a resource, and the search for a
-- stored ability that supports a capability (tinycloud-core/src/models/delegation.rs and
-- invocation.rs). A time is its distance in nanoseconds from the earliest one; an ability is its
-- text; the database is the lists of its rows.
pub mod Support
use tinycloud_node.Common.{
  ℕ, List, [], ◌∷◌, ◌++◌, Option, none, some, Bool, true, false, ◌&&◌, ◌||◌, if◌then◌else◌, filter,
  is_empty, is_some, Result, ok, err,
}
use tinycloud_node.Common.Classes.{Eq, ◌==◌, Str, codes, List_eq, Nat_eq}
use tinycloud_node.Auth.Identity.{did_principal_matches}
use tinycloud_node.Core.Json.{Json, get, and_then}
use tinycloud_node.Core.NetworkId.{NetworkIdError, NetworkId, parse_network_id}
use tinycloud_node.Core.Policy.Actions.{ability_matches}
use tinycloud_node.Core.Policy.Codes.{RejectionCode}
use tinycloud_node.Core.Policy.Codes as Codes
use tinycloud_node.Core.Policy.SqlCaveat
use tinycloud_node.Core.Policy.SqlCaveat.{SqlConstrainedStatementCaveat}
use tinycloud_node.Core.Resource.{Resource, tiny_cloud, other, space, resource_extends}
use tinycloud_node.Core.Traversal.{Hash, Link, RevocationRow}

-- The caveats of a capability, in the order of their keys.
abbrev pub Caveats : Type 0 → Type 0
Caveats V = List (Str × V)

pub record Capability (V : Type 0) : Type 0 where
  pub resource : Resource
  pub ability : Str
  pub caveats : Caveats V

-- A row of the delegation table.
pub record DelegationRow (V : Type 0) : Type 0 where
  pub id : Hash
  pub delegator : Str
  pub delegatee : Str
  pub expiry : Option ℕ
  pub not_before : Option ℕ
  pub facts : Option (List (Str × V))

-- A row of the abilities table.
pub record AbilityRow (V : Type 0) : Type 0 where
  pub delegation : Hash
  pub resource : Resource
  pub ability : Str
  pub caveats : Caveats V

-- The tables that the validation reads.
pub record Db (V : Type 0) : Type 0 where
  pub delegations : List (DelegationRow V)
  pub abilities : List (AbilityRow V)
  pub links : List Link
  pub revocations : List RevocationRow

-- The abilities that a delegation carries.
unfoldable pub abilities_of : {V : Type 0} → List (AbilityRow V) → Hash → List (AbilityRow V)
abilities_of rows id = filter (λ a. a.delegation == id) rows

-- The abilities of several delegations, one after the other.
unfoldable pub parent_abilities :
    {V : Type 0} → List (AbilityRow V) → List (DelegationRow V) → List (AbilityRow V)
unfolding abilities_of
parent_abilities rows [] = []
parent_abilities rows (p ∷ ps) = abilities_of rows p.id ++ parent_abilities rows ps

-- The outcome of the search for an ability that supports a capability: no candidate, candidates
-- whose caveats all refuse it with the last of their reasons, or a candidate.
pub data Search : Type 0 where
  no_candidate : Search
  refused : Str → Search
  authorized : Search

-- The loop over the candidates behind the first.
unfoldable pub try_candidates :
    {V : Type 0}
    → (Caveats V → Caveats V → Result Str (Unit {0}))
    → Caveats V
    → Str
    → List (AbilityRow V)
    → Search
try_candidates accept child last_reason [] = refused last_reason
try_candidates accept child last_reason (pc ∷ pcs) = elim (accept pc.caveats child) [
  | ok u ↦ authorized
  | err reason ↦ try_candidates accept child reason pcs
]

-- The reason that stands when no candidate gave one. The search never comes to it.
unfoldable pub search_candidates :
    {V : Type 0}
    → (Caveats V → Caveats V → Result Str (Unit {0}))
    → Caveats V
    → Str
    → List (AbilityRow V)
    → Search
unfolding try_candidates
search_candidates accept child default_reason [] = no_candidate
search_candidates accept child default_reason (pc ∷ pcs) =
    try_candidates accept child default_reason (pc ∷ pcs)

module _ (json : Json) where
  open json use {Value, as_object, as_str, value_eq}

  -- The constrained-statements caveat below a value.
  unfoldable pub inner_sql_caveat : Value → Option (SqlConstrainedStatementCaveat Value)
  inner_sql_caveat v =
      elim (and_then (as_object v) (λ entries. get (codes "constrained-statements") entries)) [
        | none ↦ none
        | some inner ↦ elim (SqlCaveat.parse json inner) [ ok c ↦ some c | err e ↦ none ]
      ]

  unfoldable pub extract_sql_caveat : Caveats Value → Option (SqlConstrainedStatementCaveat Value)
  unfolding inner_sql_caveat
  extract_sql_caveat [] = none
  extract_sql_caveat ((k, v) ∷ caveats) =
      let rest = extract_sql_caveat caveats in
      elim (SqlCaveat.parse json v) [
        | ok c ↦ some c
        | err e ↦ elim (inner_sql_caveat v) [ some c ↦ some c | none ↦ rest ]
      ]

  -- The equality of two maps.
  unfoldable pub caveats_eq : Caveats Value → Caveats Value → Bool
  caveats_eq [] [] = true
  caveats_eq [] (b ∷ child) = false
  caveats_eq (a ∷ parent) [] = false
  caveats_eq ((k, v) ∷ parent) ((l, w) ∷ child) =
      k == l && (value_eq.beq v w && caveats_eq parent child)

  -- The `match` on the two SQL caveats; the reason is the text of the fallback.
  unfoldable pub contain_extracted :
      Option (SqlConstrainedStatementCaveat Value)
      → Option (SqlConstrainedStatementCaveat Value)
      → Caveats Value
      → Caveats Value
      → Str
      → Result Str (Unit {0})
  unfolding caveats_eq
  contain_extracted (some p) (some c) parent child reason = elim (SqlCaveat.contains json p c) [
    | ok u ↦ ok tt
    | err e ↦ err (Codes.as_str e)
  ]
  contain_extracted (some p) none parent child reason = err (codes "containment-caveat-required")
  contain_extracted none c parent child reason =
      if caveats_eq parent child then ok tt else if is_empty parent then ok tt else err reason

  module _ (encode_eip55 : List ℕ → Str) where
    -- The `match` on a URI that is read as a network id.
    unfoldable pub owns_network : Result NetworkIdError NetworkId → Str → Bool
    owns_network (ok id) principal = did_principal_matches encode_eip55 id.owner_did principal
    owns_network (err e) principal = false

    unfoldable pub is_root_authority : Capability Value → Str → Bool
    unfolding owns_network
    is_root_authority cap principal = elim cap.resource [
      | tiny_cloud id ↦ did_principal_matches encode_eip55 id.space.base_did principal
      | other uri ↦ owns_network (parse_network_id encode_eip55 uri) principal
    ]

    -- The filter on the stored abilities.
    unfoldable pub is_candidate : Capability Value → AbilityRow Value → Bool
    is_candidate c pc =
        resource_extends encode_eip55 c.resource pc.resource && ability_matches pc.ability c.ability
