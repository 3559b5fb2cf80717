-- ===== src/Core/Revocation.antt =====
-- tinycloud-core/src/models/revocation.rs: who may revoke a delegation, and the processing of a
-- revocation whose signature and time are verified. The text of the CID of a hash (of the cid
-- package) is a parameter.
pub mod Laws
use tinycloud_node.Common.{
  ℕ, List, [], ◌∷◌, ◌++◌, Option, none, some, Bool, true, false, not, ◌&&◌, ◌||◌, if◌then◌else◌,
  any, find, filter, is_empty, is_none, map, Result, ok, err, ◌>>=◌, ◌>>◌, require, ok_or,
}
use tinycloud_node.Common.Classes.{Eq, ◌==◌, Str, codes, List_eq, Nat_eq}
use tinycloud_node.Auth.Identity.{did_principal_matches}
use tinycloud_node.Auth.Resource.{ResourceId}
use tinycloud_node.Core.Resource.{Resource, tiny_cloud, other, space}
use tinycloud_node.Core.Traversal.{
  Hash, Link, RevocationRow, ChainTraversalError, limit_exceeded, is_revoked, ancestor_chain_ids,
}
use tinycloud_node.Core.Authority.{DelegationRow, AbilityRow, Db, abilities_of}
use tinycloud_node.Core.Invocation.{expired, too_early}

pub data ControlProofDecision : Type 0 where
  direct_signer : Str → ControlProofDecision
  persistent_principal : Str → ControlProofDecision
  denied : ControlProofDecision

pub data RevocationError : Type 0 where
  invalid_time invalid_signature : RevocationError
  unauthorized_revoker : Str → RevocationError
  missing_parents : RevocationError

pub record RevocationInfo : Type 0 where
  pub parents : List Hash
  pub revoked : Hash
  pub revoker : Str

-- The path of a control resource is empty or absent.
unfoldable pub no_path : Option Str → Bool
no_path none = true
no_path (some path) = is_empty path

-- The `match` on the resource of a control ability.
unfoldable pub controls : Str → Str → Resource → Bool
unfolding no_path
controls target_resource delegator (other resource) = resource == target_resource
controls target_resource delegator (tiny_cloud r) =
    r.service == codes "delegation"
    && (no_path r.path
        && (is_none r.query && (is_none r.fragment && r.space.base_did == delegator)))

-- The chain of the proof is within the limit and holds no revoked delegation.
unfoldable pub chain_unrevoked : List RevocationRow → Result ChainTraversalError (List Hash) → Bool
chain_unrevoked rows (err limit_exceeded) = false
chain_unrevoked rows (ok nodes) = not (any (is_revoked rows) nodes)

-- The insertion of the row, with the links to its proofs unless the row was there.
unfoldable pub insert_revocation : {V : Type 0} → Db V → Hash → Str → Hash → List Hash → Db V
insert_revocation db hash revoker revoked parents =
    if any (λ row. row.id == hash) db.revocations then db else record {
      delegations = db.delegations;
      abilities = db.abilities;
      links = db.links ++ map (λ p. record { child = hash; parent = p }) parents;
      revocations =
          db.revocations ++ record { id = hash; revoker = revoker; revoked = revoked } ∷ [];
    }

module _ (encode_eip55 : List ℕ → Str) (cid_text : Hash → Str) where
  -- The tests on the one delegation that is cited.
  unfoldable pub proof_accepted :
      {V : Type 0} → Db V → ℕ → Str → Hash → Str → Hash → DelegationRow V → Bool
  unfolding controls chain_unrevoked
  proof_accepted db now signer proof_id requested_action target parent =
      not (
        not (did_principal_matches encode_eip55 parent.delegatee signer)
        || (expired now parent.expiry || too_early now parent.not_before))
      && (chain_unrevoked db.revocations (ancestor_chain_ids db.links proof_id)
          && any (λ a. controls (codes "urn:cid:" ++ cid_text target) parent.delegator a.resource)
              (filter (λ a. a.ability == requested_action) (abilities_of db.abilities proof_id)))

  unfoldable pub control_proof_decision :
      {V : Type 0} → Db V → ℕ → Str → List Hash → Str → Hash → ControlProofDecision
  unfolding proof_accepted
  control_proof_decision db now signer [] requested_action target = direct_signer signer
  control_proof_decision db now signer (proof_id ∷ []) requested_action target =
      elim (find (λ row. row.id == proof_id) db.delegations) [
        | none ↦ denied
        | some parent ↦
            if proof_accepted db now signer proof_id requested_action target parent
            then persistent_principal parent.delegator
            else denied
      ]
  control_proof_decision db now signer (p ∷ q ∷ proofs) requested_action target = denied

  -- The principal of a space that an ability names.
  unfoldable pub owns_space : {V : Type 0} → Str → AbilityRow V → Bool
  owns_space principal row = elim (space row.resource) [
    | none ↦ false
    | some s ↦ did_principal_matches encode_eip55 s.base_did principal
  ]

  -- The paths open to the principal that a control decision names.
  unfoldable pub principal_may_revoke :
      {V : Type 0} → Db V → DelegationRow V → ControlProofDecision → Bool
  unfolding owns_space
  principal_may_revoke db d denied = false
  principal_may_revoke db d (direct_signer principal) =
      did_principal_matches encode_eip55 d.delegator principal
      || (did_principal_matches encode_eip55 d.delegatee principal
          || any (owns_space principal) (abilities_of db.abilities d.id))
  principal_may_revoke db d (persistent_principal principal) =
      did_principal_matches encode_eip55 d.delegator principal
      || (did_principal_matches encode_eip55 d.delegatee principal
          || any (owns_space principal) (abilities_of db.abilities d.id))

  unfoldable pub revoker_is_authorized :
      {V : Type 0} → Db V → ℕ → DelegationRow V → Str → List Hash → Bool
  unfolding principal_may_revoke
  revoker_is_authorized db now d revoker proofs =
      principal_may_revoke db d
        (control_proof_decision db now revoker proofs (codes "tinycloud.delegation/revoke") d.id)

  -- `process` behind the verification; `hash` is that of the serialised revocation.
  unfoldable pub process_revocation :
      {V : Type 0} → Db V → ℕ → RevocationInfo → Hash → Result RevocationError (Hash × Db V)
  unfolding insert_revocation revoker_is_authorized
  process_revocation db now r hash = do
    delegation ←
        ok_or (find (λ row. row.id == r.revoked) db.delegations) RevocationError.missing_parents
    require (revoker_is_authorized db now delegation r.revoker r.parents)
        (unauthorized_revoker r.revoker)
    ok (hash, insert_revocation db hash r.revoker delegation.id r.parents)
