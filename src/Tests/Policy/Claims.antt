-- ===== src/Tests/Policy/Claims.antt =====
-- The theorems of the policy kernel at this run.
use tinycloud_node.Common.{◌≡◌, ◌≤◌, refl, false, inr, is_ok, arith}
use tinycloud_node.Common.Classes.{codes, List_eq, Nat_eq, list_eq}
use tinycloud_node.Core.PolicyAuthority.Platform.{seconds}
use tinycloud_node.Core.PolicyAuthority.Shape.{proof_count}
use tinycloud_node.Core.PolicyAuthority.Store.{default_store}
use tinycloud_node.Core.PolicyAuthority.Live.{validate_for_invocation}
use tinycloud_node.Core.PolicyAuthority.Live.Sound.{
  itself, beyond, IsLive, validate_for_invocation-IsLive,
}
use tinycloud_node.Core.PolicyAuthority.Kernel.{issue_root}
use tinycloud_node.Core.PolicyAuthority.Kernel.Reach.{
  Steps, insert, challenged, updated, issued, persisted, none_yet, then_step, Reachable, Invariant,
}
use tinycloud_node.Core.PolicyAuthority.Kernel.Invariant.{Reachable-Invariant}
use tinycloud_node.Core.PolicyAuthority.Kernel.Sound.{IsGranted, validate_for_invocation-IsGranted}
use tinycloud_node.Core.PolicyAuthority.Kernel.Chains.{ends, link, redelegations_bound}
use tinycloud_node.Core.PolicyAuthority.Kernel.Challenges.{challenge_single_use}
use tinycloud_node.Core.PolicyAuthority.Revoked.Final.{revocation_final}
use tinycloud_node.Tests.Policy.{trees, policy, enforcement, descendant}
use tinycloud_node.Tests.Policy.Runs.{
  enforcer, active, question, issuance, by_cid, with_policy, with_enforcement, with_challenge,
  with_root, with_descendant, to_root, to_policy, revoked, with_revocation, run,
}

reached_challenge : Reachable trees enforcer by_cid with_challenge
unfolding list_eq
reached_challenge =
    then_step
      (then_step (then_step none_yet (insert default_store policy active refl))
        (insert with_policy enforcement active refl))
      (challenged with_enforcement question)

after_root : Steps trees enforcer by_cid with_root with_descendant
unfolding list_eq
after_root = then_step none_yet (persisted with_root descendant (seconds 102) refl)

reached : Reachable trees enforcer by_cid with_descendant
unfolding list_eq
reached =
    then_step (then_step reached_challenge (issued with_challenge issuance (refl, refl, refl)))
      (persisted with_root descendant (seconds 102) refl)

reached_revocation : Reachable trees enforcer by_cid with_revocation
reached_revocation = then_step reached (updated with_descendant (codes "policy") revoked)

validate_for_invocation-IsLive_example : IsLive trees with_descendant (seconds 110) (codes "policy")
validate_for_invocation-IsLive_example =
    validate_for_invocation-IsLive trees with_descendant (codes "descendant") (seconds 110)
      (codes "policy") run.2
      (beyond to_root (codes "policy") run.4
        (beyond to_policy (codes "policy") run.5 (itself (codes "policy"))))

validate_for_invocation-IsGranted_example :
    IsGranted trees with_descendant (seconds 110) descendant.capabilities
validate_for_invocation-IsGranted_example =
    validate_for_invocation-IsGranted trees enforcer by_cid with_descendant (codes "descendant")
      descendant (seconds 110) reached run.3 (inr refl) run.2

Reachable-Invariant_example : Invariant trees enforcer by_cid with_descendant
Reachable-Invariant_example = Reachable-Invariant trees enforcer by_cid reached

redelegations_bound_example : 1 ≤ 8
redelegations_bound_example =
    redelegations_bound trees enforcer by_cid with_descendant 1 (codes "descendant") (codes "root")
      reached (link to_root 0 (codes "root") run.4 refl (ends (codes "root")))

challenge_single_use_example : is_ok (issue_root trees enforcer issuance with_descendant).0 ≡ false
challenge_single_use_example =
    challenge_single_use trees enforcer by_cid issuance issuance with_challenge with_descendant
      run.0 after_root refl

revocation_final_example :
    is_ok (validate_for_invocation trees with_revocation (codes "descendant") (seconds 110)) ≡ false
unfolding proof_count list_eq
revocation_final_example =
    revocation_final trees enforcer by_cid with_revocation with_revocation (codes "policy")
      (codes "descendant") (seconds 110) reached_revocation (revoked, seconds 104, run.6, refl)
      (omega arith) none_yet
      (beyond to_root (codes "policy") run.7
        (beyond to_policy (codes "policy") run.8 (itself (codes "policy"))))
