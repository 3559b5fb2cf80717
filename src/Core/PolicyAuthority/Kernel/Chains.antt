-- ===== src/Core/PolicyAuthority/Kernel/Chains.antt =====
-- How often a session can be passed on.
use tinycloud_node.Common.{ℕ, suc, ◌+◌, ◌≤◌, ◌≡◌, List, some, arith, In, ok, ok_unique}
use tinycloud_node.Common.Classes.{Str}
use tinycloud_node.Common.Maps.{get}
use tinycloud_node.Core.PolicyAuthority.Platform.{Platform}
use tinycloud_node.Core.PolicyAuthority.Artifacts.{PolicyDelegation}
use tinycloud_node.Core.PolicyAuthority.Shape.{depth}
use tinycloud_node.Core.PolicyAuthority.Records
use tinycloud_node.Core.PolicyAuthority.Records.{VerifiedEdge}
use tinycloud_node.Core.PolicyAuthority.Descendant.Accepted.{depth-le}
use tinycloud_node.Core.PolicyAuthority.Store.{MemoryState}
use tinycloud_node.Core.PolicyAuthority.Kernel.Edges.{EdgeFits, EdgeSound}
use tinycloud_node.Core.PolicyAuthority.Kernel.Reach.{Reachable}
use tinycloud_node.Core.PolicyAuthority.Kernel.Invariant.{Reachable-Invariant}
use tinycloud_node.Core.PolicyAuthority.Kernel.Sound.{stored_same}

-- A chain of that many redelegations.
pub data Chain (edges : List VerifiedEdge) : ℕ → Str → Str → Type 0 where
  ends : (cid : Str) → Chain edges 0 cid cid
  link :
      (edge : VerifiedEdge) (n : ℕ) (top : Str)
      → In edge edges
      → edge.kind ≡ Records.immediate
      → Chain edges n edge.parent_cid top
      → Chain edges (suc n) edge.child_cid top

module _ (platform : Platform) where
  open platform use {json}
  open json use {Value}

  module _ (s : MemoryState Value)
      (sound : (edge : VerifiedEdge) → In edge s.edges → EdgeSound platform s edge) where
    Chain-depth :
        {n : ℕ} {cid top : Str} (a : PolicyDelegation Value) (d : ℕ)
        → Chain s.edges n cid top
        → get cid s.artifacts ≡ some a
        → depth a ≡ ok d
        → d + n ≤ 8
    Chain-depth a d (ends cid) stored h = let k = depth-le a d h in omega arith
    Chain-depth a d (link edge n top m kind rest) stored h =
        let e = sound edge m in
        let f : EdgeFits platform Records.immediate edge.position e.child e.parent =
          rw kind at e.fits in
        let (_, _, left, child_depth, parent_depth) = f in
        let child : e.child ≡ a =
          stored_same platform (get edge.child_cid s.artifacts) _ _ e.child_stored stored in
        let same : d ≡ left = ok_unique (depth a) h (rw (← child) child_depth) in
        let k : left + 1 + n ≤ 8 =
          Chain-depth e.parent (left + 1) rest e.parent_stored parent_depth in
        omega arith

    Chain-le : {n : ℕ} {cid top : Str} → Chain s.edges n cid top → n ≤ 8
    Chain-le (ends cid) = omega arith
    Chain-le (link edge n top m kind rest) =
        let e = sound edge m in
        let f : EdgeFits platform Records.immediate edge.position e.child e.parent =
          rw kind at e.fits in
        let (_, _, left, child_depth, parent_depth) = f in
        let k : left + suc n ≤ 8 =
          Chain-depth e.child left (link edge n top m kind rest) e.child_stored child_depth in
        omega arith

  -- In a state that calls with verified artifacts lead to, no chain of redelegations has more than
  -- eight of them.
  pub redelegations_bound :
      (node : Str) (artifact_of : Str → PolicyDelegation Value) (s : MemoryState Value) (n : ℕ)
      (cid top : Str)
      → Reachable platform node artifact_of s
      → Chain s.edges n cid top
      → n ≤ 8
  redelegations_bound node artifact_of s n cid top r chain =
      Chain-le s (Reachable-Invariant platform node artifact_of r).sound chain
