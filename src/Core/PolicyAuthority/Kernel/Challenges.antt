-- ===== src/Core/PolicyAuthority/Kernel/Challenges.antt =====
-- A challenge is used once.
use tinycloud_node.Common.{
  ℕ, ◌≡◌, refl, ◌∙◌, sym, ap, List, none, some, false, arith, inl, inr, Bool-cases, is_ok, ok,
}
use tinycloud_node.Common.Classes.{◌==◌, Str, List_eq, Nat_eq, eq→≡}
use tinycloud_node.Common.Maps.{get, put, get-put_same, get-put_other}
use tinycloud_node.Core.PolicyAuthority.Platform.{Platform}
use tinycloud_node.Core.PolicyAuthority.Artifacts.{PolicyDelegation}
use tinycloud_node.Core.PolicyAuthority.Records.{ChallengeState}
use tinycloud_node.Core.PolicyAuthority.Store.{MemoryState, fail_next_transaction}
use tinycloud_node.Core.PolicyAuthority.Store.Outcomes.{
  insert_verified_authority_outcome, insert_challenge_outcome, set_status_outcome,
}
use tinycloud_node.Core.PolicyAuthority.Kernel.{
  Issuance, consume, commit_root, commit_descendant, issue_root,
}
use tinycloud_node.Core.PolicyAuthority.Kernel.Checked.{check_issue_root-IsIssuable}
use tinycloud_node.Core.PolicyAuthority.Kernel.Outcomes.{
  issue_root_outcome, persist_descendant_outcome,
}
use tinycloud_node.Core.PolicyAuthority.Kernel.Reach.{
  Step, Steps, insert, challenged, updated, failing, issued, persisted, none_yet, then_step,
}

-- A challenge that is stored as consumed.
abbrev pub IsConsumed : Str → List (Str × ChallengeState) → Type 0
IsConsumed id challenges =
    (c : ChallengeState) × (at : ℕ) × (get id challenges ≡ some c) × (c.consumed_at ≡ some at)

consume-IsConsumed :
    (id : Str) (now : ℕ) (challenges : List (Str × ChallengeState)) (c : ChallengeState)
    → get id challenges ≡ some c
    → IsConsumed id (consume id now challenges)
unfolding consume
consume-IsConsumed id now challenges c h =
    let after : ChallengeState = record c { consumed_at = some now } in
    (after, now, rw (consume, h) (get-put_same id after challenges), refl)

-- Consuming a challenge leaves a consumed one consumed.
consume_kept :
    (id other : Str) (now : ℕ) (challenges : List (Str × ChallengeState)) (c : ChallengeState)
    → get other challenges ≡ some c
    → IsConsumed id challenges
    → IsConsumed id (consume other now challenges)
unfolding consume
consume_kept id other now challenges c h (d, at, g, k) = elim (Bool-cases (other == id)) [
  | inl e ↦ rw (← eq→≡ other id e) (consume-IsConsumed other now challenges c h)
  | inr e ↦ (d, at, rw (consume, h) (get-put_other other id _ challenges e ∙ g), k)
]

insert_kept :
    (id : Str) (new : ChallengeState) (challenges : List (Str × ChallengeState))
    → get new.challenge_id challenges ≡ none
    → IsConsumed id challenges
    → IsConsumed id (put new.challenge_id new challenges)
insert_kept id new challenges h (d, at, g, k) = elim (Bool-cases (new.challenge_id == id)) [
  | inl e ↦
      let same : get new.challenge_id challenges ≡ get id challenges =
        ap (λ x. get x challenges) (eq→≡ new.challenge_id id e) in
      absurd (ground (arith, same, h, g))
  | inr e ↦ (d, at, get-put_other new.challenge_id id new challenges e ∙ g, k)
]

module _ (platform : Platform) (node : Str) where
  open platform use {json}
  open json use {Value}

  issue_root-IsConsumed :
      (i : Issuance Value) (s : MemoryState Value)
      → (issue_root platform node i s).0 ≡ ok tt
      → IsConsumed i.bindings.challenge_id (issue_root platform node i s).1.challenges
  unfolding commit_root consume
  issue_root-IsConsumed i s h = elim (issue_root_outcome platform node i s) [
    | inl (e, f) ↦ absurd (let k = sym (ap (λ out. out.0) f) ∙ h in ground (arith, k))
    | inr (inl (t, f)) ↦ absurd (let k = sym (ap (λ out. out.0) f) ∙ h in ground (arith, k))
    | inr (inr (audit, c, f)) ↦
        let issuable = check_issue_root-IsIssuable platform node i s audit c in
        rw (f, commit_root)
          (consume-IsConsumed i.bindings.challenge_id i.bindings.now s.challenges issuable.challenge
            issuable.known)
  ]

  issue_root_refused :
      (i : Issuance Value) (s : MemoryState Value)
      → IsConsumed i.bindings.challenge_id s.challenges
      → is_ok (issue_root platform node i s).0 ≡ false
  issue_root_refused i s (d, at, g, k) = elim (issue_root_outcome platform node i s) [
    | inl (e, f) ↦ rw f refl
    | inr (inl (t, f)) ↦ rw f refl
    | inr (inr (audit, c, f)) ↦
        let issuable = check_issue_root-IsIssuable platform node i s audit c in
        let same : some issuable.challenge ≡ some d = sym issuable.known ∙ g in
        let q : issuable.challenge ≡ d = ground (arith, same) in
        let bad : none ≡ some at = sym issuable.unused ∙ (ap (λ x. x.consumed_at) q ∙ k) in
        absurd (ground (arith, bad))
  ]

  module _ (artifact_of : Str → PolicyDelegation Value) (id : Str) where
    Step-IsConsumed :
        {s t : MemoryState Value}
        → Step platform node artifact_of s t
        → IsConsumed id s.challenges
        → IsConsumed id t.challenges
    unfolding fail_next_transaction commit_root consume commit_descendant
    Step-IsConsumed (insert s d status v) used =
        elim (insert_verified_authority_outcome d status s) [
          | inl (e, f) ↦ rw f used
          | inr (_, _, f) ↦ rw f used
        ]
    Step-IsConsumed (challenged s c) used = elim (insert_challenge_outcome c s) [
      | inl (e, f) ↦ rw f used
      | inr (new, f) ↦ rw f (insert_kept id c s.challenges new used)
    ]
    Step-IsConsumed (updated s cid status) used = elim (set_status_outcome cid status s) [
      | inl (e, f) ↦ rw f used
      | inr (_, f) ↦ rw f used
    ]
    Step-IsConsumed (failing s) used = used
    Step-IsConsumed (issued s i v) used = elim (issue_root_outcome platform node i s) [
      | inl (e, f) ↦ rw f used
      | inr (inl (t, f)) ↦ rw f used
      | inr (inr (audit, c, f)) ↦
          let issuable = check_issue_root-IsIssuable platform node i s audit c in
          rw (f, commit_root)
            (consume_kept id i.bindings.challenge_id i.bindings.now s.challenges issuable.challenge
              issuable.known used)
    ]
    Step-IsConsumed (persisted s d now v) used =
        elim (persist_descendant_outcome platform node d now s) [
          | inl (e, f) ↦ rw f used
          | inr (inl (t, f)) ↦ rw f used
          | inr (inr (c, f)) ↦ rw (f, commit_descendant) used
        ]

    Steps-IsConsumed :
        {s t : MemoryState Value}
        → Steps platform node artifact_of s t
        → IsConsumed id s.challenges
        → IsConsumed id t.challenges
    Steps-IsConsumed none_yet used = used
    Steps-IsConsumed (then_step r st) used = Step-IsConsumed st (Steps-IsConsumed r used)

  -- When a session root has been issued for a challenge, no issuance for that challenge succeeds
  -- again, whatever it carries and whatever calls of the operations come between.
  pub challenge_single_use :
      (artifact_of : Str → PolicyDelegation Value) (i j : Issuance Value) (s t : MemoryState Value)
      → (issue_root platform node i s).0 ≡ ok tt
      → Steps platform node artifact_of (issue_root platform node i s).1 t
      → j.bindings.challenge_id ≡ i.bindings.challenge_id
      → is_ok (issue_root platform node j t).0 ≡ false
  challenge_single_use artifact_of i j s t h r same = issue_root_refused j t (
      rw same
        (Steps-IsConsumed artifact_of i.bindings.challenge_id r (issue_root-IsConsumed i s h)))
