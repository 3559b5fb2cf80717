-- ===== src/Core/Revocation/Laws.antt =====
-- What a revocation rests on, and what it brings about.
use tinycloud_node.Common.{
  ℕ, ◌≡◌, refl, sym, ◌∙◌, ap, inl, inr, List, [], ◌∷◌, ◌++◌, Bool, true, false, if◌then◌else◌,
  arith, any, any-eq-false_In, find, find-eq-some, filter, filter-In, In, Bool-cases, Option-cases,
  Result, ok, err, >>=-eq-ok, require-eq-ok, ok_or, ok_or-eq-ok,
}
use tinycloud_node.Common.Classes.{◌==◌, Str, codes, List_eq, Nat_eq, eq→≡, eq_refl}
use tinycloud_node.Auth.Identity.{did_principal_matches}
use tinycloud_node.Core.Traversal.{
  Hash, RevocationRow, ChainTraversalError, limit_exceeded, is_revoked, ancestor_chain_ids,
}
use tinycloud_node.Core.Authority.{DelegationRow, AbilityRow, Db, abilities_of}
use tinycloud_node.Core.Delegation.{parent_revoked, ensure_parent_active}
use tinycloud_node.Core.Invocation.{expired, too_early}
use tinycloud_node.Core.Revocation.{
  persistent_principal, denied, RevocationInfo, controls, chain_unrevoked, proof_accepted,
  control_proof_decision, revoker_is_authorized, insert_revocation, process_revocation,
}

pub any_of_In :
    {A : Type 0} (p : A → Bool) (xs : List A) (a : A) → In a xs → p a ≡ true → any p xs ≡ true
any_of_In p [] a m h = absurd m
any_of_In p (x ∷ xs) a m h = ground (arith, any_of_In p xs a)

any-In :
    {A : Type 0} (p : A → Bool) (xs : List A) → any p xs ≡ true → (a : A) × In a xs × (p a ≡ true)
any-In p [] h = cc
any-In p (x ∷ xs) h = elim (Bool-cases (p x)) [
  | inl e ↦ (x, inl refl, e)
  | inr e ↦ let (a, m, k) = any-In p xs (rw e at h) in (a, inr m, k)
]

any_append_last :
    {A : Type 0} (p : A → Bool) (xs : List A) (a : A) → p a ≡ true → any p (xs ++ a ∷ []) ≡ true
any_append_last p [] a h = rw h
any_append_last p (x ∷ xs) a h = ground (arith, any_append_last p xs a)

module _ {V : Type 0} (db : Db V) (hash : Hash) (revoker : Str) (revoked : Hash)
    (parents : List Hash) where
  insert_revocation-is_revoked :
      ((row : RevocationRow) → In row db.revocations → row.id ≡ hash → row.revoked ≡ revoked)
      → is_revoked (insert_revocation db hash revoker revoked parents).revocations revoked ≡ true
  unfolding insert_revocation is_revoked
  insert_revocation-is_revoked same =
      elim (Bool-cases (any (λ row. row.id == hash) db.revocations)) [
        | inl e ↦
            let (row, m, k) = any-In (λ row. row.id == hash) db.revocations e in
            rw e (
              any_of_In (λ row. row.revoked == revoked) db.revocations row m
                (rw (same row m (eq→≡ row.id hash k)) (eq_refl revoked)))
        | inr e ↦ rw e (
            any_append_last (λ row. row.revoked == revoked) db.revocations
              (record { id = hash; revoker = revoker; revoked = revoked }) (eq_refl revoked))
      ]

module _ (encode_eip55 : List ℕ → Str) (cid_text : Hash → Str) where
  module _ {V : Type 0} (db db' : Db V) (now : ℕ) (r : RevocationInfo) (hash h : Hash) where
    -- A revocation that is processed takes effect at once: the delegation that it names can no
    -- longer be the parent of a new one, if a stored revocation with the same hash, being the same
    -- revocation, names the same delegation.
    pub process_revocation-ensure_parent_active :
        process_revocation encode_eip55 cid_text db now r hash ≡ ok (h, db')
        → ((row : RevocationRow) → In row db.revocations → row.id ≡ hash → row.revoked ≡ r.revoked)
        → ensure_parent_active db' r.revoked ≡ err (parent_revoked r.revoked)
    unfolding process_revocation ensure_parent_active
    process_revocation-ensure_parent_active k same =
        let (d, e, k1) =
          >>=-eq-ok (ok_or (find (λ row. row.id == r.revoked) db.delegations) _) _ k in
        let (m, i) =
          find-eq-some (λ row. row.id == r.revoked) db.delegations d
            (ok_or-eq-ok (find (λ row. row.id == r.revoked) db.delegations) _ e) in
        let target : d.id ≡ r.revoked = eq→≡ d.id r.revoked i in
        let (t, k2) =
          require-eq-ok (revoker_is_authorized encode_eip55 cid_text db now d r.revoker r.parents) _
            _ k1 in
        let after : insert_revocation db hash r.revoker r.revoked r.parents ≡ db' =
          ap (λ x. insert_revocation db hash r.revoker x r.parents) (sym target) ∙ ground arith in
        let gone : is_revoked db'.revocations r.revoked ≡ true =
          ap (λ x. is_revoked x.revocations r.revoked) (sym after)
          ∙ insert_revocation-is_revoked db hash r.revoker r.revoked r.parents same in
        rw gone

  -- A delegation that proves control: stored, made to the signer, inside its time window, with no
  -- revoked delegation on its walked chain, and with an ability for the action on the target.
  pub record ProvesControl {V : Type 0} (db : Db V) (now : ℕ) (signer : Str) (proof : Hash)
      (action : Str) (target : Hash) (parent : DelegationRow V) (a : AbilityRow V) (ids : List Hash)
      : Type 0 where
    pub stored : In parent db.delegations
    pub id : parent.id ≡ proof
    pub delegatee : did_principal_matches encode_eip55 parent.delegatee signer ≡ true
    pub unexpired : expired now parent.expiry ≡ false
    pub started : too_early now parent.not_before ≡ false
    pub walk : ancestor_chain_ids db.links proof ≡ ok ids
    pub unrevoked : (x : Hash) → In x ids → is_revoked db.revocations x ≡ false
    pub row : In a db.abilities
    pub of_proof : a.delegation ≡ proof
    pub ability : a.ability ≡ action
    pub controlled :
        controls (codes "urn:cid:" ++ cid_text target) parent.delegator a.resource ≡ true

  chain_unrevoked-ids :
      (rows : List RevocationRow) (r : Result ChainTraversalError (List Hash))
      → chain_unrevoked rows r ≡ true
      → (ids : List Hash) × (r ≡ ok ids) × ((x : Hash) → In x ids → is_revoked rows x ≡ false)
  unfolding chain_unrevoked
  chain_unrevoked-ids rows (err limit_exceeded) h = cc
  chain_unrevoked-ids rows (ok ids) h =
      (ids, refl, λ x m. any-eq-false_In (is_revoked rows) ids x (ground arith) m)

  module _ {V : Type 0} (db : Db V) (now : ℕ) (signer action : Str) (target : Hash) where
    proof_accepted-ProvesControl :
        (proof : Hash) (parent : DelegationRow V)
        → In parent db.delegations
        → parent.id ≡ proof
        → proof_accepted encode_eip55 cid_text db now signer proof action target parent ≡ true
        → (a : AbilityRow V) × (ids : List Hash) × ProvesControl db now signer proof action target
            parent a ids
    unfolding proof_accepted abilities_of
    proof_accepted-ProvesControl proof parent m e h =
        let (ids, w, u) =
          chain_unrevoked-ids db.revocations (ancestor_chain_ids db.links proof) (ground arith) in
        let rows = abilities_of db.abilities proof in
        let (a, i, c) =
          any-In (λ a. controls (codes "urn:cid:" ++ cid_text target) parent.delegator a.resource)
            (filter (λ a. a.ability == action) rows) (ground arith) in
        let (j, b) = filter-In (λ a. a.ability == action) rows a i in
        let (k, f) = filter-In (λ a. a.delegation == proof) db.abilities a j in
        (
          a,
          ids,
          record {
            stored = m;
            id = e;
            delegatee = ground arith;
            unexpired = ground arith;
            started = ground arith;
            walk = w;
            unrevoked = u;
            row = k;
            of_proof = eq→≡ a.delegation proof f;
            ability = eq→≡ a.ability action b;
            controlled = c;
          },
        )

    -- A control action is granted to a persistent principal only through exactly one proof: a stored
    -- delegation from that principal that proves control of the target to the signer.
    pub control_proof_decision-persistent :
        (proofs : List Hash) (principal : Str)
        → control_proof_decision encode_eip55 cid_text db now signer proofs action target
          ≡ persistent_principal principal
        → (proof : Hash) × (parent : DelegationRow V) × (a : AbilityRow V) × (ids : List Hash)
          × (proofs ≡ proof ∷ [])
          × (parent.delegator ≡ principal)
          × ProvesControl db now signer proof action target parent a ids
    unfolding control_proof_decision
    control_proof_decision-persistent [] principal h = cc
    control_proof_decision-persistent (p ∷ q ∷ proofs) principal h = cc
    control_proof_decision-persistent (p ∷ []) principal h =
        elim (Option-cases (find (λ row. row.id == p) db.delegations)) [
          | inl e ↦ absurd (ground (arith, e))
          | inr (parent, e) ↦
              let (m, i) = find-eq-some (λ row. row.id == p) db.delegations parent e in
              let k : (if proof_accepted encode_eip55 cid_text db now signer p action target parent
                    then persistent_principal parent.delegator
                    else denied)
                  ≡ persistent_principal principal =
                rw (e, control_proof_decision) at h in
              let t : proof_accepted encode_eip55 cid_text db now signer p action target parent
                  ≡ true =
                ground arith in
              let (a, ids, c) = proof_accepted-ProvesControl p parent m (eq→≡ parent.id p i) t in
              (p, parent, a, ids, refl, ground (arith, t), c)
        ]
