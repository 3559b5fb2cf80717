-- ===== src/Core/PolicyAuthority/Revoked/Dead.antt =====
-- The steps after a revocation.
use tinycloud_node.Common.{
  ℕ, ◌+◌, ◌≤◌, ◌<◌, ◌≡◌, refl, ◌∙◌, sym, ap, ◌⊎◌, List, ◌++◌, none, some, arith, inl, inr, length,
  Bool-cases,
}
use tinycloud_node.Common.Classes.{◌==◌, Str, List_eq, Nat_eq, eq→≡, eq_refl}
use tinycloud_node.Common.Maps.{get, put}
use tinycloud_node.Core.PolicyAuthority.Platform.{Platform}
use tinycloud_node.Core.PolicyAuthority.Artifacts.{PolicyDelegation, DelegationRole}
use tinycloud_node.Core.PolicyAuthority.Shape.{proof_count}
use tinycloud_node.Core.PolicyAuthority.Records.{VerifiedEdge, IssuanceAudit}
use tinycloud_node.Core.PolicyAuthority.Store.{MemoryState, edges_of, fail_next_transaction}
use tinycloud_node.Core.PolicyAuthority.Store.Outcomes.{
  insert_verified_authority_outcome, insert_challenge_outcome, set_status_outcome,
}
use tinycloud_node.Core.PolicyAuthority.Live.Sound.{Level}
use tinycloud_node.Core.PolicyAuthority.Kernel.{
  Issuance, fresh_status, commit_root, commit_descendant,
}
use tinycloud_node.Core.PolicyAuthority.Kernel.Outcomes.{
  issue_root_outcome, persist_descendant_outcome,
}
use tinycloud_node.Core.PolicyAuthority.Kernel.Reach.{
  Step, Steps, insert, challenged, updated, failing, issued, persisted, none_yet, then_step,
}
use tinycloud_node.Core.PolicyAuthority.Revoked.{
  IsRevoked, put_new-IsRevoked, put_other-IsRevoked, set_status-IsRevoked, edges_fit-length,
  filter-append_length,
}

-- The number of stored edges below an artifact.
abbrev pub edge_count : Str → List VerifiedEdge → ℕ
edge_count cid edges = length (edges_of cid edges)

edge_count-append :
    (cid : Str) (edges added : List VerifiedEdge)
    → edge_count cid (edges ++ added) ≡ edge_count cid edges + edge_count cid added
unfolding edges_of
edge_count-append cid edges added = filter-append_length (λ e. e.child_cid == cid) edges added

module _ {V : Type 0} where
  -- An artifact with its edges that is revoked, or that has more edges than its role admits.
  pub record IsDead (cid : Str) (role : DelegationRole) (s : MemoryState V) : Type 0 where
    pub edged : proof_count role ≤ edge_count cid s.edges
    pub dead : IsRevoked cid s.statuses ⊎ (proof_count role < edge_count cid s.edges)

  kept-IsDead :
      (cid : Str) (role : DelegationRole) (s t : MemoryState V)
      → s.edges ≡ t.edges
      → (IsRevoked cid s.statuses → IsRevoked cid t.statuses)
      → IsDead cid role s
      → IsDead cid role t
  kept-IsDead cid role s t e f dead = record {
    edged = rw (← e) dead.edged;
    dead = elim dead.dead [ inl r ↦ inl (f r) | inr m ↦ inr (rw (← e) m) ];
  }

  -- A step that adds edges below a CID, and puts a fresh status there.
  added-IsDead :
      (cid other : Str) (role : DelegationRole) (now : ℕ) (s t : MemoryState V)
      (added : List VerifiedEdge)
      → t.edges ≡ s.edges ++ added
      → t.statuses ≡ put other (fresh_status now) s.statuses
      → ((other ≡ cid) → 0 < edge_count cid added)
      → IsDead cid role s
      → IsDead cid role t
  added-IsDead cid other role now s t added e f new dead =
      let count : edge_count cid t.edges ≡ edge_count cid s.edges + edge_count cid added =
        ap (edge_count cid) e ∙ edge_count-append cid s.edges added in
      let edged = dead.edged in
      record {
        edged = rw count (omega arith);
        dead = elim (Bool-cases (other == cid)) [
          | inl same ↦ let more = new (eq→≡ other cid same) in inr (rw count (omega arith))
          | inr diff ↦ elim dead.dead [
            | inl r ↦
                inl (rw f (put_other-IsRevoked cid other (fresh_status now) s.statuses diff r))
            | inr m ↦ inr (rw count (omega arith))
          ]
        ];
      }

module _ (platform : Platform) (node : Str) where
  open platform use {json}
  open json use {Value}

  module _ (artifact_of : Str → PolicyDelegation Value) (cid : Str) (role : DelegationRole) where
    commit_root-IsDead :
        (i : Issuance Value) (audit : IssuanceAudit) (s : MemoryState Value)
        → IsDead cid role s
        → IsDead cid role (commit_root i audit s)
    unfolding commit_root edges_of
    commit_root-IsDead i audit s dead =
        added-IsDead cid i.root.delegation_cid role i.bindings.now s (commit_root i audit s) _ refl
          refl (λ same. rw (← same, eq_refl i.root.delegation_cid) (omega arith)) dead

    commit_descendant-IsDead :
        (d : PolicyDelegation Value) (now : ℕ) (s : MemoryState Value)
        → IsDead cid role s
        → IsDead cid role (commit_descendant d now s)
    unfolding commit_descendant edges_of
    commit_descendant-IsDead d now s dead =
        added-IsDead cid d.delegation_cid role now s (commit_descendant d now s) _ refl refl
          (λ same. rw (← same, eq_refl d.delegation_cid) (omega arith)) dead

    Step-IsDead :
        {s t : MemoryState Value}
        → Step platform node artifact_of s t
        → IsDead cid role s
        → IsDead cid role t
    unfolding fail_next_transaction
    Step-IsDead (insert s d status v) dead = elim (insert_verified_authority_outcome d status s) [
      | inl (e, f) ↦ rw f dead
      | inr (_, new, f) ↦ rw f (
          kept-IsDead cid role s _ refl
            (put_new-IsRevoked cid d.delegation_cid status s.statuses new) dead)
    ]
    Step-IsDead (challenged s c) dead = elim (insert_challenge_outcome c s) [
      | inl (e, f) ↦ rw f dead
      | inr (_, f) ↦ rw f (kept-IsDead cid role s _ refl (λ r. r) dead)
    ]
    Step-IsDead (updated s other status) dead = elim (set_status_outcome other status s) [
      | inl (e, f) ↦ rw f dead
      | inr (checked, f) ↦
          rw f
            (kept-IsDead cid role s _ refl (set_status-IsRevoked cid other status s checked) dead)
    ]
    Step-IsDead (failing s) dead =
        kept-IsDead cid role s (fail_next_transaction s) refl (λ r. r) dead
    Step-IsDead (issued s i v) dead = elim (issue_root_outcome platform node i s) [
      | inl (e, f) ↦ rw f dead
      | inr (inl (t, f)) ↦ rw f (kept-IsDead cid role s _ refl (λ r. r) dead)
      | inr (inr (audit, c, f)) ↦ rw f (commit_root-IsDead i audit s dead)
    ]
    Step-IsDead (persisted s d now v) dead =
        elim (persist_descendant_outcome platform node d now s) [
          | inl (e, f) ↦ rw f dead
          | inr (inl (t, f)) ↦ rw f (kept-IsDead cid role s _ refl (λ r. r) dead)
          | inr (inr (c, f)) ↦ rw f (commit_descendant-IsDead d now s dead)
        ]

    pub Steps-IsDead :
        {s t : MemoryState Value}
        → Steps platform node artifact_of s t
        → IsDead cid role s
        → IsDead cid role t
    Steps-IsDead none_yet dead = dead
    Steps-IsDead (then_step r st) dead = Step-IsDead st (Steps-IsDead r dead)

    -- A walk does not pass a dead artifact.
    pub dead_Level :
        (t : MemoryState Value) (now left : ℕ) (visiting : List Str)
        → Level platform t now left cid visiting
        → (level : (a : PolicyDelegation Value) → get cid t.artifacts ≡ some a → a.role ≡ role)
        → IsDead cid role t
        → ⊥
    dead_Level t now left visiting level role_of dead =
        let count : edge_count cid t.edges ≡ proof_count role =
          edges_fit-length level.artifact.role level.artifact.proof_cids (edges_of cid t.edges)
            level.fits
          ∙ ap proof_count (role_of level.artifact level.stored) in
        elim dead.dead [
          | inl (st, at, g, k) ↦
              let live = level.live in
              let same : some live.status ≡ some st = sym live.known ∙ g in
              let q : live.status ≡ st = ground (arith, same) in
              let bad : none ≡ some at = sym live.fresh.active ∙ (ap (λ x. x.revoked_at) q ∙ k) in
              ground (arith, bad)
          | inr more ↦ omega (arith, count, more)
        ]
