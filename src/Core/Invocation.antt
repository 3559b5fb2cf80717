-- ===== src/Core/Invocation.antt =====
-- tinycloud-core/src/models/invocation.rs: the validation of an invocation against the stored
-- delegations. The time is the one that `process` and `verify_and_authorize` pass. An error carries
-- the hash of a delegation where the source prints its CID.
pub mod Chain
pub mod Sound
use tinycloud_node.Common.{
  ℕ, List, [], ◌∷◌, Option, none, some, Bool, true, false, not, ◌&&◌, ◌||◌, if◌then◌else◌, filter,
  any, contains, is_empty, length, map, nat_eq, leb, ltb, Result, ok, err, ◌>>=◌, ◌>>◌, require,
}
use tinycloud_node.Common.Classes.{Eq, ◌==◌, Str, codes, List_eq, Nat_eq}
use tinycloud_node.Auth.Identity.{did_principal_matches}
use tinycloud_node.Core.Json.{Json}
use tinycloud_node.Core.Resource.{Resource}
use tinycloud_node.Core.Traversal.{
  Hash, ChainTraversalError, limit_exceeded, is_revoked, first_revoked_ancestor, ancestor_chain_ids,
}
use tinycloud_node.Core.Authority.{
  Caveats, Capability, DelegationRow, AbilityRow, Db, parent_abilities, Search, no_candidate,
  refused, authorized, search_candidates, extract_sql_caveat, contain_extracted, is_root_authority,
  is_candidate,
}

pub record InvocationInfo (V : Type 0) : Type 0 where
  pub capabilities : List (Capability V)
  pub invoker : Str
  pub parents : List Hash

pub data InvocationError : Type 0 where
  invalid_time invalid_signature : InvocationError
  unauthorized_invoker : Str → InvocationError
  unauthorized_action : Resource → Str → InvocationError
  missing_parents : InvocationError
  missing_kv_write : Str → InvocationError
  delegation_revoked : Hash → InvocationError
  delegation_ancestor_revoked : Hash → Hash → InvocationError
  chain_traversal_limit_exceeded : InvocationError
  caveats_not_contained : Str → InvocationError

-- `expiry.map(|expiry| now >= expiry).unwrap_or(false)`.
unfoldable pub expired : ℕ → Option ℕ → Bool
expired now none = false
expired now (some expiry) = leb expiry now

-- `not_before.map(|not_before| now < not_before).unwrap_or(false)`.
unfoldable pub too_early : ℕ → Option ℕ → Bool
too_early now none = false
too_early now (some not_before) = ltb now not_before

-- The test on the parents that may be used.
unfoldable pub valid_at : {V : Type 0} → ℕ → DelegationRow V → Bool
unfolding expired too_early
valid_at now p = not (expired now p.expiry) && not (too_early now p.not_before)

-- The error for a chain outside its time window.
unfoldable pub window_error : {V : Type 0} → List (Capability V) → InvocationError
window_error [] = missing_parents
window_error (c ∷ cs) = unauthorized_action c.resource c.ability

-- `map_err` on the errors of the walk.
abbrev lift_traversal : {A : Type 0} → Result ChainTraversalError A → Result InvocationError A
lift_traversal (ok a) = ok a
lift_traversal (err limit_exceeded) = err chain_traversal_limit_exceeded

unfoldable pub check_ancestor : Hash → Option Hash → Result InvocationError (Unit {0})
check_ancestor id none = ok tt
check_ancestor id (some ancestor) = err (delegation_ancestor_revoked ancestor id)

-- The rows of a chain, and their time windows.
unfoldable pub check_window :
    {V : Type 0} → Db V → ℕ → List (Capability V) → List Hash → Result InvocationError (Unit {0})
unfolding window_error
check_window db now dependant_caps chain_ids = do
  let chain = filter (λ row. contains chain_ids row.id) db.delegations
  require (nat_eq (length chain) (length chain_ids)) missing_parents
  require (not (any (λ row. expired now row.expiry || too_early now row.not_before) chain))
      (window_error dependant_caps)

-- One round of the loop over the parents.
unfoldable pub check_parent :
    {V : Type 0}
    → Db V
    → ℕ
    → List (Capability V)
    → DelegationRow V
    → Result InvocationError (Unit {0})
unfolding check_ancestor check_window
check_parent db now dependant_caps p = do
  require (not (is_revoked db.revocations p.id)) (delegation_revoked p.id)
  revoked_ancestor ← lift_traversal (first_revoked_ancestor db.links db.revocations p.id)
  check_ancestor p.id revoked_ancestor
  chain_ids ← lift_traversal (ancestor_chain_ids db.links p.id)
  check_window db now dependant_caps chain_ids

unfoldable pub check_parents :
    {V : Type 0}
    → Db V
    → ℕ
    → List (Capability V)
    → List (DelegationRow V)
    → Result InvocationError (Unit {0})
check_parents db now dependant_caps [] = ok tt
check_parents db now dependant_caps (p ∷ ps) =
    check_parent db now dependant_caps p >>= λ _. check_parents db now dependant_caps ps

-- The error when a capability finds no support.
unfoldable pub search_result :
    {V : Type 0} → Capability V → Search → Result InvocationError (Unit {0})
search_result c no_candidate = err (unauthorized_action c.resource c.ability)
search_result c (refused reason) = err (caveats_not_contained reason)
search_result c authorized = ok tt

-- The stored delegations with the cited ids.
unfoldable pub cited_rows : {V : Type 0} → Db V → InvocationInfo V → List (DelegationRow V)
cited_rows db i = filter (λ p. contains i.parents p.id) db.delegations

module _ (json : Json) where
  open json use {Value}

  unfoldable pub caveats_contain_child : Caveats Value → Caveats Value → Result Str (Unit {0})
  unfolding extract_sql_caveat contain_extracted
  caveats_contain_child parent child =
      contain_extracted json (extract_sql_caveat json parent) (extract_sql_caveat json child) parent
        child (codes "invocation-caveats-not-subset-of-chain")

  module _ (encode_eip55 : List ℕ → Str) where
    -- One round of the loop over the dependent capabilities.
    unfoldable pub check_capability :
        List (AbilityRow Value) → Capability Value → Result InvocationError (Unit {0})
    unfolding search_result
    check_capability rows c = search_result c (
        search_candidates caveats_contain_child c.caveats
          (codes "invocation-caveats-not-subset-of-chain")
          (filter (is_candidate json encode_eip55 c) rows))

    unfoldable pub check_capabilities :
        List (AbilityRow Value) → List (Capability Value) → Result InvocationError (Unit {0})
    check_capabilities rows [] = ok tt
    check_capabilities rows (c ∷ cs) = check_capability rows c >>= λ _. check_capabilities rows cs

    -- The branch with dependent capabilities and parents.
    unfoldable pub validate_against :
        Db Value
        → InvocationInfo Value
        → ℕ
        → List (Capability Value)
        → List (DelegationRow Value)
        → Result InvocationError (Unit {0})
    unfolding parent_abilities
    validate_against db i now dependant_caps parents = do
      require (nat_eq (length parents) (length i.parents)) missing_parents
      require
          (not (any (λ p. not (did_principal_matches encode_eip55 p.delegatee i.invoker)) parents))
          (unauthorized_invoker i.invoker)
      check_parents db now dependant_caps parents
      check_capabilities (parent_abilities db.abilities (filter (valid_at now) parents))
          dependant_caps

    unfoldable pub validate :
        Db Value → InvocationInfo Value → ℕ → Result InvocationError (Unit {0})
    unfolding validate_against cited_rows
    validate db i now =
        let dependant_caps =
          filter (λ c. not (is_root_authority json encode_eip55 c i.invoker)) i.capabilities in
        if is_empty dependant_caps
        then ok tt
        else if is_empty i.parents
        then err missing_parents
        else validate_against db i now dependant_caps (cited_rows db i)
