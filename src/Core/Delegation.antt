-- ===== src/Core/Delegation.antt =====
-- tinycloud-core/src/models/delegation.rs: the validation of a delegation against the stored ones.
-- An error carries the hash of a delegation where the source prints its CID.
pub mod Sound
pub mod Complete
use tinycloud_node.Common.{
  ℕ, List, [], ◌∷◌, Option, none, some, Bool, true, false, not, ◌&&◌, if◌then◌else◌, filter, any,
  contains, is_empty, leb, Result, ok, err, ◌>>=◌, ◌>>◌, require,
}
use tinycloud_node.Common.Classes.{Eq, ◌==◌, Str, codes, List_eq, Nat_eq}
use tinycloud_node.Core.Json.{Json, get, and_then}
use tinycloud_node.Core.Resource.{Resource}
use tinycloud_node.Core.Traversal.{
  Hash, ChainTraversalError, limit_exceeded, is_revoked, first_revoked_ancestor,
}
use tinycloud_node.Core.Authority.{
  Caveats, Capability, DelegationRow, AbilityRow, Db, parent_abilities, Search, no_candidate,
  refused, authorized, search_candidates, extract_sql_caveat, contain_extracted, is_root_authority,
  is_candidate,
}

pub record DelegationInfo (V : Type 0) : Type 0 where
  pub capabilities : List (Capability V)
  pub delegator : Str
  pub delegate : Str
  pub parents : List Hash
  pub expiry : Option ℕ
  pub not_before : Option ℕ

pub data DelegationError : Type 0 where
  invalid_time invalid_signature : DelegationError
  unauthorized_delegator : Str → DelegationError
  unauthorized_capability : Resource → Str → DelegationError
  missing_parents : DelegationError
  expiry_exceeds_parent : DelegationError
  not_before_precedes_parent : DelegationError
  terminal_parent_cannot_redelegate : DelegationError
  parent_revoked : Hash → DelegationError
  ancestor_revoked : Hash → Hash → DelegationError
  chain_traversal_limit_exceeded : DelegationError
  caveats_not_contained : Str → DelegationError

-- The expiry of a child lies within that of its parent.
unfoldable pub expiry_valid : Option ℕ → Option ℕ → Bool
expiry_valid none child = true
expiry_valid (some pe) none = false
expiry_valid (some pe) (some de) = leb de pe

-- A child becomes valid no earlier than its parent.
unfoldable pub not_before_valid : Option ℕ → Option ℕ → Bool
not_before_valid none child = true
not_before_valid (some pnbf) none = false
not_before_valid (some pnbf) (some dnbf) = leb pnbf dnbf

-- The result of the search for revoked ancestors of a parent.
unfoldable pub active_result :
    Hash → Result ChainTraversalError (Option Hash) → Result DelegationError (Unit {0})
active_result id (err limit_exceeded) = err chain_traversal_limit_exceeded
active_result id (ok (some ancestor)) = err (ancestor_revoked ancestor id)
active_result id (ok none) = ok tt

unfoldable pub ensure_parent_active : {V : Type 0} → Db V → Hash → Result DelegationError (Unit {0})
unfolding active_result
ensure_parent_active db id =
    if is_revoked db.revocations id
    then err (parent_revoked id)
    else active_result id (first_revoked_ancestor db.links db.revocations id)

-- The loop over the parents.
unfoldable pub ensure_all_active :
    {V : Type 0} → Db V → List (DelegationRow V) → Result DelegationError (Unit {0})
ensure_all_active db [] = ok tt
ensure_all_active db (p ∷ ps) = ensure_parent_active db p.id >>= λ _. ensure_all_active db ps

-- The error when a capability finds no support.
unfoldable pub search_result :
    {V : Type 0} → Capability V → Search → Result DelegationError (Unit {0})
search_result c no_candidate = err (unauthorized_capability c.resource c.ability)
search_result c (refused reason) = err (caveats_not_contained reason)
search_result c authorized = ok tt

-- The errors when the time constraints leave no parent.
unfoldable pub check_time :
    {V : Type 0}
    → DelegationInfo V
    → List (DelegationRow V)
    → List (DelegationRow V)
    → Result DelegationError (Unit {0})
check_time d all_parents [] =
    if any (λ p. not (expiry_valid p.expiry d.expiry)) all_parents
    then err expiry_exceeds_parent
    else if any (λ p. not (not_before_valid p.not_before d.not_before)) all_parents
    then err not_before_precedes_parent
    else ok tt
check_time d all_parents (p ∷ ps) = ok tt

module _ (json : Json) where
  open json use {Value, as_str}

  -- The persisted marker `xyz.tinycloud.policy/delegationMode`.
  unfoldable pub parent_is_terminal : DelegationRow Value → Bool
  parent_is_terminal p = elim p.facts [
    | none ↦ false
    | some map ↦ elim (and_then (get (codes "xyz.tinycloud.policy/delegationMode") map) as_str) [
      | none ↦ false
      | some s ↦ s == codes "terminal"
    ]
  ]

  unfoldable pub caveats_contain_child : Caveats Value → Caveats Value → Result Str (Unit {0})
  unfolding extract_sql_caveat contain_extracted
  caveats_contain_child parent child =
      contain_extracted json (extract_sql_caveat json parent) (extract_sql_caveat json child) parent
        child (codes "child-caveats-not-subset-of-parent")

  module _ (encode_eip55 : List ℕ → Str) where
    -- One round of the loop over the dependent capabilities.
    unfoldable pub check_capability :
        List (AbilityRow Value) → Capability Value → Result DelegationError (Unit {0})
    unfolding search_result
    check_capability rows c = search_result c (
        search_candidates caveats_contain_child c.caveats
          (codes "child-caveats-not-subset-of-parent")
          (filter (is_candidate json encode_eip55 c) rows))

    unfoldable pub check_capabilities :
        List (AbilityRow Value) → List (Capability Value) → Result DelegationError (Unit {0})
    check_capabilities rows [] = ok tt
    check_capabilities rows (c ∷ cs) = check_capability rows c >>= λ _. check_capabilities rows cs

    -- The stored parents with the cited ids and the delegator as delegatee.
    unfoldable pub cited_parents : Db Value → DelegationInfo Value → List (DelegationRow Value)
    cited_parents db d =
        filter (λ p. contains d.parents p.id && p.delegatee == d.delegator) db.delegations

    -- The branch with dependent capabilities and parents.
    unfoldable pub validate_against :
        Db Value
        → DelegationInfo Value
        → List (Capability Value)
        → List (DelegationRow Value)
        → Result DelegationError (Unit {0})
    unfolding parent_abilities
    validate_against db d dependant_caps all_parents = do
      require (not (is_empty all_parents)) missing_parents
      ensure_all_active db all_parents
      require (not (any parent_is_terminal all_parents)) terminal_parent_cannot_redelegate
      let parents =
          filter (λ p. expiry_valid p.expiry d.expiry && not_before_valid p.not_before d.not_before)
            all_parents
      check_time d all_parents parents
      check_capabilities (parent_abilities db.abilities parents) dependant_caps

    unfoldable pub validate : Db Value → DelegationInfo Value → Result DelegationError (Unit {0})
    unfolding validate_against
    validate db d =
        let dependant_caps =
          filter (λ c. not (is_root_authority json encode_eip55 c d.delegator)) d.capabilities in
        if is_empty dependant_caps
        then ok tt
        else if is_empty d.parents
        then err missing_parents
        else validate_against db d dependant_caps (cited_parents db d)
