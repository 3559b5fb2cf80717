-- ===== src/Core/PolicyAuthority/Kernel/Sound.antt =====
-- What an accepted invocation may do: the capabilities of a session lead back to a live policy.
use tinycloud_node.Common.{
  ℕ, zero, suc, ◌≡◌, refl, List, [], ◌∷◌, Option, some, Bool, true, false, not, nat_eq, arith, inl,
  inr, In, filter-In, and-eq-true, nat_eq_iff, ok,
}
use tinycloud_node.Common.Classes.{◌==◌, Str, List_eq, Nat_eq, eq→≡}
use tinycloud_node.Common.Maps.{get}
use tinycloud_node.Core.PolicyAuthority.Platform.{Platform}
use tinycloud_node.Core.PolicyAuthority.Artifacts
use tinycloud_node.Core.PolicyAuthority.Artifacts.{PolicyDelegation, DelegationRole}
use tinycloud_node.Core.PolicyAuthority.Capabilities.Within.{Within, Within-trans}
use tinycloud_node.Core.PolicyAuthority.Records
use tinycloud_node.Core.PolicyAuthority.Records.{VerifiedEdge, EdgeKind}
use tinycloud_node.Core.PolicyAuthority.Descendant.Accepted.{IsSession}
use tinycloud_node.Core.PolicyAuthority.Store.{MemoryState, edges_of}
use tinycloud_node.Core.PolicyAuthority.Live.{
  edges_fit, is_authority, root_edges, descendant_edge, walk_verified_edges,
  validate_for_invocation, levels,
}
use tinycloud_node.Core.PolicyAuthority.Live.Sound.{itself, IsLive, walk-IsLive, Level, walk-Level}
use tinycloud_node.Core.PolicyAuthority.Kernel.Edges.{EdgeFits, EdgeSound}
use tinycloud_node.Core.PolicyAuthority.Kernel.Reach.{Reachable}
use tinycloud_node.Core.PolicyAuthority.Kernel.Invariant.{Reachable-Invariant}

kind-eq_authority : (k : EdgeKind) → is_authority k ≡ true → k ≡ Records.authority
kind-eq_authority Records.authority h = refl
kind-eq_authority Records.immediate h = cc

kind-eq_immediate : (k : EdgeKind) → not (is_authority k) ≡ true → k ≡ Records.immediate
kind-eq_immediate Records.authority h = cc
kind-eq_immediate Records.immediate h = refl

root_edges_first :
    (proofs : List Str) (edges : List VerifiedEdge)
    → root_edges proofs edges ≡ true
    → (e : VerifiedEdge) × In e edges × (e.kind ≡ Records.authority) × (e.position ≡ 0)
unfolding root_edges
root_edges_first proofs [] h = cc
root_edges_first proofs (a ∷ []) h = cc
root_edges_first proofs (a ∷ b ∷ []) h =
    let (k, t) = and-eq-true (is_authority a.kind) _ h in
    let (p, _) = and-eq-true (nat_eq a.position 0) _ t in
    (a, inl refl, kind-eq_authority a.kind k, (nat_eq_iff a.position 0).0 p)
root_edges_first proofs (a ∷ b ∷ c ∷ edges) h = cc

descendant_edge_only :
    (proofs : List Str) (edges : List VerifiedEdge)
    → descendant_edge proofs edges ≡ true
    → (e : VerifiedEdge) × In e edges × (e.kind ≡ Records.immediate)
unfolding descendant_edge
descendant_edge_only proofs [] h = cc
descendant_edge_only proofs (a ∷ []) h =
    let (k, t) = and-eq-true (not (is_authority a.kind)) _ h in
    (a, inl refl, kind-eq_immediate a.kind k)
descendant_edge_only proofs (a ∷ b ∷ edges) h = cc

module _ (platform : Platform) where
  open platform use {json}
  open json use {Value}

  -- A stored and live policy authority that contains the capabilities.
  pub record IsGranted (s : MemoryState Value) (now : ℕ) (capabilities : List Value) : Type 0 where
    pub cid : Str
    pub policy : PolicyDelegation Value
    pub stored : get cid s.artifacts ≡ some policy
    pub role : policy.role ≡ Artifacts.policy_authority
    pub live : IsLive platform s now cid
    pub within : Within platform capabilities policy.capabilities

  widen :
      (s : MemoryState Value) (now : ℕ) (child parent : List Value)
      → Within platform child parent
      → IsGranted s now parent
      → IsGranted s now child
  widen s now child parent w g = record {
    cid = g.cid;
    policy = g.policy;
    stored = g.stored;
    role = g.role;
    live = g.live;
    within = Within-trans platform child parent g.policy.capabilities w g.within;
  }

  pub stored_same : {A : Type 0} (o : Option A) (a b : A) → o ≡ some a → o ≡ some b → a ≡ b
  stored_same o a b h k = ground (arith, h, k)

  module _ (s : MemoryState Value) (now : ℕ)
      (sound : (edge : VerifiedEdge) → In edge s.edges → EdgeSound platform s edge) where
    -- An accepted session root is granted by the policy at its first edge.
    root-IsGranted :
        (left : ℕ) (cid : Str) (a : PolicyDelegation Value) (visiting : List Str)
        → Level platform s now left cid visiting
        → get cid s.artifacts ≡ some a
        → a.role ≡ Artifacts.policy_session_root
        → IsGranted s now a.capabilities
    unfolding edges_fit edges_of
    root-IsGranted left cid a visiting level stored role =
        let same : level.artifact ≡ a = stored_same (get cid s.artifacts) _ _ level.stored stored in
        let fits : root_edges a.proof_cids (edges_of cid s.edges) ≡ true =
          rw (same, role) at level.fits in
        let (edge, m, kind, position) = root_edges_first a.proof_cids (edges_of cid s.edges) fits in
        let (m', t) = filter-In (λ e. e.child_cid == cid) s.edges edge m in
        let at_cid : edge.child_cid ≡ cid = eq→≡ edge.child_cid cid t in
        let e = sound edge m' in
        let f : EdgeFits platform Records.authority edge.position e.child e.parent =
          rw kind at e.fits in
        let child : e.child ≡ a =
          stored_same (get cid s.artifacts) _ _ (rw at_cid at e.child_stored) stored in
        record {
          cid = edge.parent_cid;
          policy = e.parent;
          stored = e.parent_stored;
          role = f.1 position;
          live =
              walk-IsLive platform s now (itself edge.parent_cid) left true (cid ∷ visiting)
                (level.parents edge m' at_cid);
          within = rw (← child) e.within;
        }

    -- Along the one edge of a descendant, its parent is a session that grants its capabilities.
    walk-IsGranted :
        (left : ℕ) (cid : Str) (a : PolicyDelegation Value) (ancestor : Bool) (visiting : List Str)
        → walk_verified_edges platform s now left cid ancestor visiting ≡ ok tt
        → get cid s.artifacts ≡ some a
        → IsSession a.role
        → IsGranted s now a.capabilities
    unfolding walk_verified_edges edges_fit edges_of
    walk-IsGranted zero cid a ancestor visiting h stored session = absurd (ground (arith, h))
    walk-IsGranted (suc left) cid a ancestor visiting h stored (inl role) =
        root-IsGranted left cid a visiting (walk-Level platform s now left cid ancestor visiting h)
          stored role
    walk-IsGranted (suc left) cid a ancestor visiting h stored (inr role) =
        let level = walk-Level platform s now left cid ancestor visiting h in
        let same : level.artifact ≡ a = stored_same (get cid s.artifacts) _ _ level.stored stored in
        let fits : descendant_edge a.proof_cids (edges_of cid s.edges) ≡ true =
          rw (same, role) at level.fits in
        let (edge, m, kind) = descendant_edge_only a.proof_cids (edges_of cid s.edges) fits in
        let (m', t) = filter-In (λ e. e.child_cid == cid) s.edges edge m in
        let at_cid : edge.child_cid ≡ cid = eq→≡ edge.child_cid cid t in
        let e = sound edge m' in
        let f : EdgeFits platform Records.immediate edge.position e.child e.parent =
          rw kind at e.fits in
        let child : e.child ≡ a =
          stored_same (get cid s.artifacts) _ _ (rw at_cid at e.child_stored) stored in
        widen s now a.capabilities e.parent.capabilities (rw (← child) e.within) (
          walk-IsGranted left edge.parent_cid e.parent true (cid ∷ visiting)
            (level.parents edge m' at_cid) e.parent_stored f.1)

  module _ (node : Str) (artifact_of : Str → PolicyDelegation Value) where
    -- In a state that calls with verified artifacts lead to: when an invocation by a stored session
    -- root or descendant is accepted, a policy authority is stored and live at that time, and every
    -- capability of the session is contained in one of the policy authority's.
    pub validate_for_invocation-IsGranted :
        (s : MemoryState Value) (cid : Str) (a : PolicyDelegation Value) (now : ℕ)
        → Reachable platform node artifact_of s
        → get cid s.artifacts ≡ some a
        → IsSession a.role
        → validate_for_invocation platform s cid now ≡ ok tt
        → IsGranted s now a.capabilities
    unfolding validate_for_invocation
    validate_for_invocation-IsGranted s cid a now r stored session h =
        walk-IsGranted s now (Reachable-Invariant platform node artifact_of r).sound levels cid a
          false [] h stored session
