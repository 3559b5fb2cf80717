-- ===== src/Core/PolicyAuthority/Kernel/Invariant.antt =====
-- Every operation keeps the invariant of the store.
use tinycloud_node.Common.{ℕ, ◌≡◌, refl, ◌∙◌, sym, ap, some, arith, inl, inr}
use tinycloud_node.Common.Classes.{Str}
use tinycloud_node.Common.Maps.{get, put, get-put_same}
use tinycloud_node.Core.PolicyAuthority.Platform.{Platform}
use tinycloud_node.Core.PolicyAuthority.Artifacts.{PolicyDelegation}
use tinycloud_node.Core.PolicyAuthority.Records.{ChallengeState, AuthorityStatus, IssuanceAudit}
use tinycloud_node.Core.PolicyAuthority.Store.{
  MemoryState, insert_verified_authority, insert_challenge, set_status, fail_next_transaction,
}
use tinycloud_node.Core.PolicyAuthority.Kernel.{
  Issuance, proof_at, commit_root, commit_descendant, issue_root, persist_descendant,
}
use tinycloud_node.Core.PolicyAuthority.Kernel.Edges.{
  Extends-EdgeSound, IsVerified, put-kept, put-Addressed,
}
use tinycloud_node.Core.PolicyAuthority.Kernel.Checked.{
  IsIssuable, check_issue_root-IsIssuable, IsPersistable, check_descendant-IsPersistable,
}
use tinycloud_node.Core.PolicyAuthority.Store.Outcomes.{
  insert_verified_authority_outcome, insert_challenge_outcome, set_status_outcome,
}
use tinycloud_node.Core.PolicyAuthority.Kernel.Outcomes.{
  issue_root_outcome, persist_descendant_outcome,
}
use tinycloud_node.Core.PolicyAuthority.Kernel.Reach.{
  Step, insert, challenged, updated, failing, issued, persisted, none_yet, then_step, Reachable,
  Invariant, IsVerifiedIssuance, kept-Invariant, stored-Invariant,
}

module _ (platform : Platform) (node : Str) where
  open platform use {json}
  open json use {Value}

  module _ (artifact_of : Str → PolicyDelegation Value) where
    insert-Invariant :
        (s : MemoryState Value) (d : PolicyDelegation Value) (status : AuthorityStatus)
        → IsVerified platform artifact_of d
        → Invariant platform node artifact_of s
        → Invariant platform node artifact_of (insert_verified_authority d status s).1
    insert-Invariant s d status verified inv = elim (insert_verified_authority_outcome d status s) [
      | inl (e, f) ↦ rw f inv
      | inr (new, unknown, f) ↦ rw f (record {
        addressed = put-Addressed platform artifact_of d s.artifacts inv.addressed verified;
        sound = λ edge m.
            Extends-EdgeSound platform s _ edge
              (put-kept platform artifact_of d s.artifacts inv.addressed verified)
              (inv.sound edge m);
      })
    ]

    insert_challenge-Invariant :
        (s : MemoryState Value) (c : ChallengeState)
        → Invariant platform node artifact_of s
        → Invariant platform node artifact_of (insert_challenge c s).1
    insert_challenge-Invariant s c inv = elim (insert_challenge_outcome c s) [
      | inl (e, f) ↦ rw f inv
      | inr (new, f) ↦ rw f (kept-Invariant platform node artifact_of s _ refl refl inv)
    ]

    set_status-Invariant :
        (s : MemoryState Value) (cid : Str) (status : AuthorityStatus)
        → Invariant platform node artifact_of s
        → Invariant platform node artifact_of (set_status cid status s).1
    set_status-Invariant s cid status inv = elim (set_status_outcome cid status s) [
      | inl (e, f) ↦ rw f inv
      | inr (checked, f) ↦ rw f (kept-Invariant platform node artifact_of s _ refl refl inv)
    ]

    commit_root-Invariant :
        (s : MemoryState Value) (i : Issuance Value) (audit : IssuanceAudit)
        → IsVerifiedIssuance platform node artifact_of i
        → IsIssuable platform node i s
        → Invariant platform node artifact_of s
        → Invariant platform node artifact_of (commit_root i audit s)
    unfolding commit_root
    commit_root-Invariant s i audit (v, w, x) issuable inv =
        let proved = issuable.proved in
        let p = issuable.policy_live in
        let q = issuable.enforcement_live in
        let p_same : some p.artifact ≡ some i.policy_authority =
          ap some (sym (inv.addressed i.policy_authority.delegation_cid p.artifact p.stored) ∙ v) in
        let q_same : some q.artifact ≡ some i.policy_enforcement =
          ap some
            (sym (inv.addressed i.policy_enforcement.delegation_cid q.artifact q.stored) ∙ w) in
        stored-Invariant platform node artifact_of s (commit_root i audit s) i.root _ refl refl x
          (λ kept edge m. elim m [
            | inl e ↦ rw (← e) (record {
              child = i.root;
              child_stored = get-put_same i.root.delegation_cid i.root s.artifacts;
              parent = i.policy_authority;
              parent_stored =
                  ap (λ ps. get (proof_at ps 0) (put i.root.delegation_cid i.root s.artifacts))
                    proved.proofs
                  ∙ kept i.policy_authority.delegation_cid i.policy_authority (p.stored ∙ p_same);
              within = proved.in_policy;
              fits = (proved.role, λ _. issuable.policy_role);
            })
            | inr (inl e) ↦ rw (← e) (record {
              child = i.root;
              child_stored = get-put_same i.root.delegation_cid i.root s.artifacts;
              parent = i.policy_enforcement;
              parent_stored =
                  ap (λ ps. get (proof_at ps 1) (put i.root.delegation_cid i.root s.artifacts))
                    proved.proofs
                  ∙ kept i.policy_enforcement.delegation_cid i.policy_enforcement
                      (q.stored ∙ q_same);
              within = proved.in_enforcement;
              fits = (proved.role, λ bad. ground (arith, bad));
            })
            | inr (inr n) ↦ absurd n
          ])
          inv

    commit_descendant-Invariant :
        (s : MemoryState Value) (d : PolicyDelegation Value) (now : ℕ)
        → IsVerified platform artifact_of d
        → IsPersistable platform node d s
        → Invariant platform node artifact_of s
        → Invariant platform node artifact_of (commit_descendant d now s)
    unfolding commit_descendant
    commit_descendant-Invariant s d now v persistable inv =
        let child = persistable.child in
        let parent = persistable.parent in
        stored-Invariant platform node artifact_of s (commit_descendant d now s) d _ refl refl v
          (λ kept edge m. elim m [
            | inl e ↦ rw (← e) (record {
              child = d;
              child_stored = get-put_same d.delegation_cid d s.artifacts;
              parent = parent;
              parent_stored =
                  ap (λ ps. get (proof_at ps 0) (put d.delegation_cid d s.artifacts)) child.proofs
                  ∙ kept parent.delegation_cid parent persistable.stored;
              within = child.within;
              fits = (child.role, child.session, child.left, child.child_depth, child.parent_depth);
            })
            | inr n ↦ absurd n
          ])
          inv

    issue_root-Invariant :
        (s : MemoryState Value) (i : Issuance Value)
        → IsVerifiedIssuance platform node artifact_of i
        → Invariant platform node artifact_of s
        → Invariant platform node artifact_of (issue_root platform node i s).1
    issue_root-Invariant s i verified inv = elim (issue_root_outcome platform node i s) [
      | inl (e, f) ↦ rw f inv
      | inr (inl (t, f)) ↦ rw f (kept-Invariant platform node artifact_of s _ refl refl inv)
      | inr (inr (audit, c, f)) ↦ rw f (
          commit_root-Invariant s i audit verified
            (check_issue_root-IsIssuable platform node i s audit c) inv)
    ]

    persist_descendant-Invariant :
        (s : MemoryState Value) (d : PolicyDelegation Value) (now : ℕ)
        → IsVerified platform artifact_of d
        → Invariant platform node artifact_of s
        → Invariant platform node artifact_of (persist_descendant platform node d now s).1
    persist_descendant-Invariant s d now verified inv =
        elim (persist_descendant_outcome platform node d now s) [
          | inl (e, f) ↦ rw f inv
          | inr (inl (t, f)) ↦ rw f (kept-Invariant platform node artifact_of s _ refl refl inv)
          | inr (inr (c, f)) ↦ rw f (
              commit_descendant-Invariant s d now verified
                (check_descendant-IsPersistable platform node d now s c) inv)
        ]

    pub Step-Invariant :
        {s t : MemoryState Value}
        → Step platform node artifact_of s t
        → Invariant platform node artifact_of s
        → Invariant platform node artifact_of t
    unfolding fail_next_transaction
    Step-Invariant (insert s d status v) inv = insert-Invariant s d status v inv
    Step-Invariant (challenged s c) inv = insert_challenge-Invariant s c inv
    Step-Invariant (updated s cid status) inv = set_status-Invariant s cid status inv
    Step-Invariant (failing s) inv =
        kept-Invariant platform node artifact_of s (fail_next_transaction s) refl refl inv
    Step-Invariant (issued s i v) inv = issue_root-Invariant s i v inv
    Step-Invariant (persisted s d now v) inv = persist_descendant-Invariant s d now v inv

    -- In every state that calls of the operations with verified artifacts lead to from the empty
    -- store, successful or not, an artifact stands under the CID of its content; and both ends of
    -- every edge are stored, the capabilities of the lower are contained in those of the upper, a
    -- session root has its policy authority at position 0, and a descendant has a session above it
    -- with one redelegation more.
    pub Reachable-Invariant :
        {s : MemoryState Value}
        → Reachable platform node artifact_of s
        → Invariant platform node artifact_of s
    unfolding get
    Reachable-Invariant none_yet = record {
      addressed = λ cid a h. absurd (ground (arith, h));
      sound = λ edge m. absurd m;
    }
    Reachable-Invariant (then_step r st) = Step-Invariant st (Reachable-Invariant r)
