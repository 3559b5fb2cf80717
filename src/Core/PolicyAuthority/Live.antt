-- ===== src/Core/PolicyAuthority/Live.antt =====
-- tinycloud-core/src/policy_authority/mod.rs: whether an artifact is live, and the walk over its
-- ancestors. The walk recurses on the levels that are left, 65 less the depth, and carries the
-- path to the root in place of the set that the code adds to and removes from.
pub mod Sound
use tinycloud_node.Common.{
  ℕ, suc, zero, ◌+◌, ◌-◌, ◌≡◌, List, [], ◌∷◌, Option, none, some, Bool, true, false, ◌&&◌, ◌||◌,
  not, contains, is_empty, nat_eq, ltb, leb, if◌then◌else◌, Result, ok, err, ◌>>=◌, ◌>>◌, require,
  ok_or,
}
use tinycloud_node.Common.Classes.{Eq, ◌==◌, Str, List_eq, Nat_eq, Option_eq}
use tinycloud_node.Common.Maps.{get}
use tinycloud_node.Core.PolicyAuthority.Errors
use tinycloud_node.Core.PolicyAuthority.Errors.{AuthorityError}
use tinycloud_node.Core.PolicyAuthority.Platform.{Platform, seconds}
use tinycloud_node.Core.PolicyAuthority.Artifacts
use tinycloud_node.Core.PolicyAuthority.Artifacts.{
  PolicyDelegation, DelegationRole, max_status_age_seconds, max_ancestry_depth,
}
use tinycloud_node.Core.PolicyAuthority.Shape.{not_before, expires_at}
use tinycloud_node.Core.PolicyAuthority.Records
use tinycloud_node.Core.PolicyAuthority.Records.{EdgeKind, VerifiedEdge, AuthorityStatus}
use tinycloud_node.Core.PolicyAuthority.Store.{MemoryState, edges_of}

-- `for x in xs { f(x)?; }`.
unfoldable pub for_each {ℓ} :
    {A : Type ℓ} {E : Type 0} → (A → Result E (Unit {0})) → List A → Result E (Unit {0})
for_each f [] = ok tt
for_each f (x ∷ xs) = do f x; for_each f xs

-- `revoked_at.is_some_and(|at| at > limit)` and `is_some_and(|at| at <= limit)`.
abbrev revoked_after : Option ℕ → ℕ → Bool
revoked_after none limit = false
revoked_after (some at) limit = ltb limit at

abbrev revoked_by : Option ℕ → ℕ → Bool
revoked_by none limit = false
revoked_by (some at) limit = leb at limit

-- The checks of a status.
unfoldable pub status_live : AuthorityStatus → ℕ → Bool → Result AuthorityError (Unit {0})
status_live status now ancestor = do
  require
      (leb (now - status.checked_at) (seconds max_status_age_seconds)
        && (leb status.checked_at now
            && (ltb now status.fresh_until
                && (leb (status.fresh_until - status.checked_at) (seconds max_status_age_seconds)
                    && not (revoked_after status.revoked_at status.checked_at)))))
      Errors.authority_state_unavailable
  require (not (revoked_by status.revoked_at now))
      (if ancestor then Errors.delegation_ancestor_revoked else Errors.delegation_revoked)

-- `edges[i].parent_cid == artifact.proof_cids[i]`, for a proof that is there.
abbrev is_proof : Str → List Str → ℕ → Bool
is_proof cid [] i = false
is_proof cid (p ∷ ps) zero = cid == p
is_proof cid (p ∷ ps) (suc i) = is_proof cid ps i

abbrev pub is_authority : EdgeKind → Bool
is_authority Records.authority = true
is_authority Records.immediate = false

-- The two authority edges of a session root.
unfoldable pub root_edges : List Str → List VerifiedEdge → Bool
root_edges proofs (a ∷ b ∷ []) =
    is_authority a.kind
    && (nat_eq a.position 0
        && (is_authority b.kind
            && (nat_eq b.position 1
                && (is_proof a.parent_cid proofs 0 && is_proof b.parent_cid proofs 1))))
root_edges proofs _ = false

-- The one immediate edge of a descendant.
unfoldable pub descendant_edge : List Str → List VerifiedEdge → Bool
descendant_edge proofs (a ∷ []) = not (is_authority a.kind) && is_proof a.parent_cid proofs 0
descendant_edge proofs _ = false

abbrev at_start : List VerifiedEdge → Bool
at_start [] = true
at_start (a ∷ edges) = nat_eq a.position 0

-- The edges that `walk_verified_edges` accepts for a role.
unfoldable pub edges_fit : DelegationRole → List Str → List VerifiedEdge → Bool
unfolding root_edges descendant_edge
edges_fit Artifacts.policy_session_root proofs edges = root_edges proofs edges
edges_fit Artifacts.policy_session_descendant proofs edges = descendant_edge proofs edges
edges_fit Artifacts.policy_authority proofs edges = is_empty edges
edges_fit Artifacts.policy_enforcement proofs edges = is_empty edges

-- `edges.sort_by_key(|edge| edge.position)`, which keeps the order of equal positions.
unfoldable insert_edge : VerifiedEdge → List VerifiedEdge → List VerifiedEdge
insert_edge e [] = e ∷ []
insert_edge e (f ∷ edges) =
    let rest = insert_edge e edges in if leb e.position f.position then e ∷ f ∷ edges else f ∷ rest

unfoldable pub sort_edges : List VerifiedEdge → List VerifiedEdge
unfolding insert_edge
sort_edges [] = []
sort_edges (e ∷ edges) = insert_edge e (sort_edges edges)

module _ {V : Type 0} where
  unfoldable pub validate_persisted_edge_shape :
      PolicyDelegation V → List VerifiedEdge → Result AuthorityError (Unit {0})
  unfolding edges_fit
  validate_persisted_edge_shape artifact edges =
      require (edges_fit artifact.role artifact.proof_cids edges && descendant_starts artifact.role)
        Errors.authority_state_unavailable
    where
      descendant_starts : DelegationRole → Bool
      descendant_starts Artifacts.policy_session_descendant = at_start edges
      descendant_starts _ = true

-- The levels of a walk that starts at depth 0.
abbrev pub levels : ℕ
levels = max_ancestry_depth + 1

module _ (platform : Platform) where
  open platform use {json}
  open json use {Value}

  -- `ensure_live`, and `ensure_live_in_memory`, which is the same code.
  unfoldable pub ensure_live : MemoryState Value → Str → ℕ → Bool → Result AuthorityError (Unit {0})
  unfolding status_live
  ensure_live state cid now ancestor = do
    artifact ← ok_or (get cid state.artifacts) Errors.authority_state_unavailable
    start ← not_before platform artifact
    require (leb start now) Errors.session_time_invalid
    end ← expires_at platform artifact
    require (ltb now end) Errors.session_time_invalid
    status ← ok_or (get cid state.statuses) Errors.authority_state_unavailable
    status_live status now ancestor

  unfoldable pub walk_verified_edges :
      MemoryState Value → ℕ → ℕ → Str → Bool → List Str → Result AuthorityError (Unit {0})
  unfolding ensure_live edges_of for_each
  walk_verified_edges state now zero cid ancestor visiting = err Errors.ancestry_too_deep
  walk_verified_edges state now (suc left) cid ancestor visiting = do
    ensure_live state cid now ancestor
    require (not (contains visiting cid)) Errors.ancestry_too_deep
    artifact ← ok_or (get cid state.artifacts) Errors.authority_state_unavailable
    require (edges_fit artifact.role artifact.proof_cids (edges_of cid state.edges))
        Errors.authority_state_unavailable
    for_each (λ edge. walk_verified_edges state now left edge.parent_cid true (cid ∷ visiting))
        (edges_of cid state.edges)

  unfoldable pub walk_memory_edges :
      MemoryState Value → ℕ → ℕ → Str → Bool → List Str → Result AuthorityError (Unit {0})
  unfolding ensure_live edges_of for_each sort_edges validate_persisted_edge_shape
  walk_memory_edges state now zero cid ancestor visiting = err Errors.ancestry_too_deep
  walk_memory_edges state now (suc left) cid ancestor visiting = do
    require (not (contains visiting cid)) Errors.ancestry_too_deep
    ensure_live state cid now ancestor
    artifact ← ok_or (get cid state.artifacts) Errors.authority_state_unavailable
    validate_persisted_edge_shape artifact (sort_edges (edges_of cid state.edges))
    for_each (λ edge. walk_memory_edges state now left edge.parent_cid true (cid ∷ visiting))
        (sort_edges (edges_of cid state.edges))

  unfoldable pub validate_for_invocation :
      MemoryState Value → Str → ℕ → Result AuthorityError (Unit {0})
  unfolding walk_verified_edges
  validate_for_invocation state cid now = walk_verified_edges state now levels cid false []
