-- ===== src/Core/PolicyAuthority/Kernel/Outcomes.antt =====
-- The outcomes of the kernel's transactions: refused, failed in the transaction, or committed.
use tinycloud_node.Common.{ℕ, ◌≡◌, ◌⊎◌, inl, inr, true, false, Bool-cases, ok, err, Result-cases}
use tinycloud_node.Common.Classes.{Str}
use tinycloud_node.Core.PolicyAuthority.Errors
use tinycloud_node.Core.PolicyAuthority.Platform.{Platform}
use tinycloud_node.Core.PolicyAuthority.Artifacts.{PolicyDelegation}
use tinycloud_node.Core.PolicyAuthority.Records.{IssuanceAudit}
use tinycloud_node.Core.PolicyAuthority.Store.{MemoryState}
use tinycloud_node.Core.PolicyAuthority.Store.Outcomes.{Outcome, IsRefused}
use tinycloud_node.Core.PolicyAuthority.Kernel.{
  Issuance, commit_root, commit_descendant, check_issue_root, issue_root, check_descendant,
  persist_descendant,
}

module _ {V : Type 0} where
  -- The injected failure of a transaction, which is taken back.
  abbrev pub IsAborted : Outcome V → MemoryState V → Type 0
  IsAborted out s =
      (s.fail_next_transaction ≡ true)
      × (out ≡ (err Errors.transaction_failed, record s { fail_next_transaction = false }))

module _ (platform : Platform) (node : Str) where
  open platform use {json}
  open json use {Value}

  pub issue_root_outcome :
      (i : Issuance Value) (s : MemoryState Value)
      → IsRefused (issue_root platform node i s) s
        ⊎ (IsAborted (issue_root platform node i s) s
            ⊎ ((audit : IssuanceAudit) × (check_issue_root platform node i s ≡ ok audit)
                × (issue_root platform node i s ≡ (ok tt, commit_root i audit s))))
  unfolding issue_root
  issue_root_outcome i s = elim (Result-cases (check_issue_root platform node i s)) [
    | inr (e, f) ↦ inl (e, rw (issue_root, f))
    | inl (audit, f) ↦ elim (Bool-cases s.fail_next_transaction) [
      | inl t ↦ inr (inl (t, rw (issue_root, f, t)))
      | inr t ↦ inr (inr (audit, f, rw (issue_root, f, t)))
    ]
  ]

  pub persist_descendant_outcome :
      (d : PolicyDelegation Value) (now : ℕ) (s : MemoryState Value)
      → IsRefused (persist_descendant platform node d now s) s
        ⊎ (IsAborted (persist_descendant platform node d now s) s
            ⊎ ((check_descendant platform node d now s ≡ ok tt)
                × (persist_descendant platform node d now s ≡ (ok tt, commit_descendant d now s))))
  unfolding persist_descendant
  persist_descendant_outcome d now s =
      elim (Result-cases (check_descendant platform node d now s)) [
        | inr (e, f) ↦ inl (e, rw (persist_descendant, f))
        | inl (_, f) ↦ elim (Bool-cases s.fail_next_transaction) [
          | inl t ↦ inr (inl (t, rw (persist_descendant, f, t)))
          | inr t ↦ inr (inr (f, rw (persist_descendant, f, t)))
        ]
      ]
