-- ===== src/Core/Invocation/Chain.antt =====
-- What the checks of a cited delegation tell of its chain.
use tinycloud_node.Common.{
  ℕ, ◌≡◌, refl, sym, ◌∙◌, ap, inl, inr, List, [], ◌∷◌, Option, none, some, Bool, true, false, not,
  ◌||◌, arith, In, any, any-eq-false_In, filter, In-filter, contains, In→contains, length, nat_eq,
  Result, ok, err, >>=-eq-ok, require, require-eq-ok, ok_unique,
}
use tinycloud_node.Common.Classes.{List_eq, Nat_eq}
use tinycloud_node.Core.Traversal.{
  Hash, ChainTraversalError, limit_exceeded, is_revoked, first_revoked_ancestor, ancestor_chain_ids,
}
use tinycloud_node.Core.Traversal.{ancestor_chain_ids_for_roots}
use tinycloud_node.Core.Traversal.Sound.{Ancestor}
use tinycloud_node.Core.Traversal.Complete.{FewParents, ancestor_chain_ids_for_roots_complete}
use tinycloud_node.Core.Traversal.Revoked.{first_revoked_ancestor_complete}
use tinycloud_node.Core.Authority.{Capability, DelegationRow, Db}
use tinycloud_node.Core.Invocation.{
  expired, too_early, lift_traversal, check_ancestor, check_window, check_parent, check_parents,
}

lift_traversal-ok :
    {A : Type 0} (r : Result ChainTraversalError A) (a : A) → lift_traversal r ≡ ok a → r ≡ ok a
lift_traversal-ok (ok b) a h = ground arith
lift_traversal-ok (err limit_exceeded) a h = cc

check_ancestor-ok : (id : Hash) (o : Option Hash) → check_ancestor id o ≡ ok tt → o ≡ none
unfolding check_ancestor
check_ancestor-ok id none h = refl
check_ancestor-ok id (some a) h = cc

require-ok : {E : Type 0} (t : Bool) (e : E) → require t e ≡ ok tt → t ≡ true
require-ok true e h = refl
require-ok false e h = cc

module _ {V : Type 0} where
  -- A delegation may be invoked: neither it nor a found ancestor is revoked, and each stored
  -- delegation of its chain is inside its time window.
  pub record ChainLive (db : Db V) (now : ℕ) (p : DelegationRow V) (ids : List Hash) : Type 0 where
    pub active : is_revoked db.revocations p.id ≡ false
    pub ancestors : first_revoked_ancestor db.links db.revocations p.id ≡ ok none
    pub walk : ancestor_chain_ids db.links p.id ≡ ok ids
    pub complete : length (filter (λ row. contains ids row.id) db.delegations) ≡ length ids
    pub unexpired :
        (row : DelegationRow V)
        → In row db.delegations
        → In row.id ids
        → expired now row.expiry ≡ false
    pub started :
        (row : DelegationRow V)
        → In row db.delegations
        → In row.id ids
        → too_early now row.not_before ≡ false

  module _ (db : Db V) (now : ℕ) (cs : List (Capability V)) where
    abbrev outside : DelegationRow V → Bool
    outside row = expired now row.expiry || too_early now row.not_before

    pub check_parent-ChainLive :
        (p : DelegationRow V)
        → check_parent db now cs p ≡ ok tt
        → (ids : List Hash) × ChainLive db now p ids
    unfolding check_parent check_window
    check_parent-ChainLive p h =
        let (t, h1) = require-eq-ok (not (is_revoked db.revocations p.id)) _ _ h in
        let (o, e, h2) =
          >>=-eq-ok (lift_traversal (first_revoked_ancestor db.links db.revocations p.id)) _ h1 in
        let (u, f, h3) = >>=-eq-ok (check_ancestor p.id o) _ h2 in
        let (ids, g, h4) = >>=-eq-ok (lift_traversal (ancestor_chain_ids db.links p.id)) _ h3 in
        let chain = filter (λ row. contains ids row.id) db.delegations in
        let (l, h5) = require-eq-ok (nat_eq (length chain) (length ids)) _ _ h4 in
        let w = require-ok (not (any outside chain)) _ h5 in
        let inside : (row : DelegationRow V)
            → In row db.delegations
            → In row.id ids
            → outside row ≡ false =
          λ row m i. any-eq-false_In outside chain row (ground arith) (
            In-filter (λ row. contains ids row.id) db.delegations row m
              (In→contains ids row.id i)) in
        (
          ids,
          record {
            active = ground arith;
            ancestors = lift_traversal-ok _ o e ∙ ap ok (check_ancestor-ok p.id o f);
            walk = lift_traversal-ok _ ids g;
            complete = ground arith;
            unexpired = λ row m i. ground (arith, inside row m i);
            started = λ row m i. ground (arith, inside row m i);
          },
        )

    -- A cited delegation that passes the checks: no stored delegation up its chain, itself
    -- included, is revoked, has expired or is not yet valid, if each delegation of the chain has,
    -- together with the number of the chain's delegations, at most sixty-five parents.
    pub check_parent-chain :
        (p row : DelegationRow V) (ids : List Hash)
        → check_parent db now cs p ≡ ok tt
        → ancestor_chain_ids db.links p.id ≡ ok ids
        → FewParents db.links ids
        → In row db.delegations
        → Ancestor db.links p.id row.id
        → (is_revoked db.revocations row.id ≡ false)
          × (expired now row.expiry ≡ false)
          × (too_early now row.not_before ≡ false)
    check_parent-chain p row ids h walk few m g =
        let (ids', live) = check_parent-ChainLive p h in
        let same : ids' ≡ ids = ok_unique (ancestor_chain_ids db.links p.id) live.walk walk in
        let k : ancestor_chain_ids_for_roots db.links (p.id ∷ []) ≡ ok ids =
          unfold ancestor_chain_ids in walk in
        let i : In row.id ids' = rw same (
          ancestor_chain_ids_for_roots_complete db.links (p.id ∷ []) ids p.id row.id k few
            (inl refl) g) in
        (
          first_revoked_ancestor_complete db.links db.revocations p.id row.id ids live.active
              live.ancestors walk few g,
          live.unexpired row m i,
          live.started row m i,
        )

    pub check_parents-In :
        (ps : List (DelegationRow V)) (p : DelegationRow V)
        → check_parents db now cs ps ≡ ok tt
        → In p ps
        → check_parent db now cs p ≡ ok tt
    unfolding check_parents
    check_parents-In [] p h m = absurd m
    check_parents-In (q ∷ ps) p h m =
        let (u, e, k) = >>=-eq-ok (check_parent db now cs q) _ h in
        elim m [
          | inl f ↦ sym (ap (λ x. check_parent db now cs x) f) ∙ e
          | inr i ↦ check_parents-In ps p k i
        ]
