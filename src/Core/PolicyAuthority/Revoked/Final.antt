-- ===== src/Core/PolicyAuthority/Revoked/Final.antt =====
-- A revocation is final, for the artifact and for all that descends from it.
use tinycloud_node.Common.{ℕ, ◌≤◌, ◌≡◌, refl, sym, ap, [], false, inl, is_ok, ok, err, Result}
use tinycloud_node.Common.Classes.{Str}
use tinycloud_node.Core.PolicyAuthority.Platform.{Platform}
use tinycloud_node.Core.PolicyAuthority.Artifacts.{PolicyDelegation}
use tinycloud_node.Core.PolicyAuthority.Shape.{proof_count}
use tinycloud_node.Core.PolicyAuthority.Store.{MemoryState}
use tinycloud_node.Core.PolicyAuthority.Live.{validate_for_invocation, levels}
use tinycloud_node.Core.PolicyAuthority.Live.Sound.{Ancestor, Ancestor-Level}
use tinycloud_node.Core.PolicyAuthority.Kernel.Reach.{Steps, Reachable, none_yet, then_step}
use tinycloud_node.Core.PolicyAuthority.Kernel.Invariant.{Reachable-Invariant}
use tinycloud_node.Core.PolicyAuthority.Revoked.{IsRevoked}
use tinycloud_node.Core.PolicyAuthority.Revoked.Dead.{edge_count, Steps-IsDead, dead_Level}

is_ok_unless : {E : Type 0} (r : Result E (Unit {0})) → (r ≡ ok tt → ⊥) → is_ok r ≡ false
is_ok_unless (ok tt) h = absurd (h refl)
is_ok_unless (err e) h = refl

module _ (platform : Platform) (node : Str) where
  open platform use {json}
  open json use {Value}

  module _ (artifact_of : Str → PolicyDelegation Value) where
    Steps-trans :
        {s t u : MemoryState Value}
        → Steps platform node artifact_of s t
        → Steps platform node artifact_of t u
        → Steps platform node artifact_of s u
    Steps-trans r none_yet = r
    Steps-trans r (then_step q st) = then_step (Steps-trans r q) st

    -- In a state that calls with verified artifacts lead to: once an artifact that has the edges of
    -- its role is revoked, no invocation by it or by any session that descends from it is accepted,
    -- at any time, after any further calls of the operations.
    pub revocation_final :
        (s t : MemoryState Value) (cid below : Str) (now : ℕ)
        → Reachable platform node artifact_of s
        → IsRevoked cid s.statuses
        → proof_count (artifact_of cid).role ≤ edge_count cid s.edges
        → Steps platform node artifact_of s t
        → Ancestor t.edges below cid
        → is_ok (validate_for_invocation platform t below now) ≡ false
    unfolding validate_for_invocation
    revocation_final s t cid below now reach revoked edged r g =
        is_ok_unless (validate_for_invocation platform t below now) (λ h.
          let (left, visiting, level) = Ancestor-Level platform t now g levels false [] h in
          let inv = Reachable-Invariant platform node artifact_of (Steps-trans reach r) in
          dead_Level platform node artifact_of cid (artifact_of cid).role t now left visiting level
            (λ a stored. ap (λ x. x.role) (sym (inv.addressed cid a stored)))
            (Steps-IsDead platform node artifact_of cid (artifact_of cid).role r
              (record { edged = edged; dead = inl revoked })))
