-- ===== src/Core/PolicyAuthority/Live/Sound.antt =====
-- What an accepted invocation says of the artifact and its ancestors.
use tinycloud_node.Common.{
  ℕ, zero, suc, ◌-◌, ◌≤◌, ◌<◌, ◌≡◌, refl, List, [], ◌∷◌, none, some, Bool, true, false, not, leb,
  ltb, arith, inl, inr, In, In-filter, Option-cases, contains, ok, >>=-eq-ok, require-eq-ok, ok_or,
  ok_or-eq-ok, Result,
}
use tinycloud_node.Common.Classes.{◌==◌, Str, List_eq, Nat_eq, list_eq_iff}
use tinycloud_node.Common.Maps.{get}
use tinycloud_node.Core.PolicyAuthority.Platform.{Platform, seconds}
use tinycloud_node.Core.PolicyAuthority.Artifacts.{PolicyDelegation, max_status_age_seconds}
use tinycloud_node.Core.PolicyAuthority.Shape.{not_before, expires_at}
use tinycloud_node.Core.PolicyAuthority.Records.{VerifiedEdge, AuthorityStatus}
use tinycloud_node.Core.PolicyAuthority.Store.{MemoryState, edges_of}
use tinycloud_node.Core.PolicyAuthority.Live.{
  for_each, status_live, ensure_live, edges_fit, walk_verified_edges, validate_for_invocation,
  levels,
}

-- An artifact, or one that stored edges lead to from it.
pub data Ancestor (edges : List VerifiedEdge) : Str → Str → Type 0 where
  itself : (cid : Str) → Ancestor edges cid cid
  beyond :
      (edge : VerifiedEdge) (a : Str)
      → In edge edges
      → Ancestor edges edge.parent_cid a
      → Ancestor edges edge.child_cid a

-- A status that was checked in the last five minutes, and no revocation.
pub record IsFresh (status : AuthorityStatus) (now : ℕ) : Type 0 where
  pub checked : status.checked_at ≤ now
  pub recent : now - status.checked_at ≤ seconds max_status_age_seconds
  pub fresh : now < status.fresh_until
  pub active : status.revoked_at ≡ none

status_live-IsFresh :
    (status : AuthorityStatus) (now : ℕ) (ancestor : Bool)
    → status_live status now ancestor ≡ ok tt
    → IsFresh status now
unfolding status_live
status_live-IsFresh status now ancestor h = record {
  checked = ground arith;
  recent = ground arith;
  fresh = ground arith;
  active = elim (Option-cases status.revoked_at) [
    | inl e ↦ e
    | inr (at, e) ↦ absurd (ground (arith, e))
  ];
}

pub for_each-In :
    {A E : Type 0} (f : A → Result E (Unit {0})) (xs : List A) (x : A)
    → for_each f xs ≡ ok tt
    → In x xs
    → f x ≡ ok tt
unfolding for_each
for_each-In f [] x h m = absurd m
for_each-In f (y ∷ xs) x h m =
    let (_, e, k) = >>=-eq-ok (f y) _ h in
    elim m [ inl q ↦ rw (← q) e | inr m' ↦ for_each-In f xs x k m' ]

module _ (platform : Platform) where
  open platform use {json}
  open json use {Value}

  -- An artifact that is stored, inside its time window, with a fresh status.
  pub record IsLive (state : MemoryState Value) (now : ℕ) (cid : Str) : Type 0 where
    pub artifact : PolicyDelegation Value
    pub stored : get cid state.artifacts ≡ some artifact
    pub start : ℕ
    pub starts : not_before platform artifact ≡ ok start
    pub started : start ≤ now
    pub end : ℕ
    pub ends : expires_at platform artifact ≡ ok end
    pub unexpired : now < end
    pub status : AuthorityStatus
    pub known : get cid state.statuses ≡ some status
    pub fresh : IsFresh status now

  pub ensure_live-IsLive :
      (state : MemoryState Value) (cid : Str) (now : ℕ) (ancestor : Bool)
      → ensure_live platform state cid now ancestor ≡ ok tt
      → IsLive state now cid
  unfolding ensure_live
  ensure_live-IsLive state cid now ancestor h =
      let (artifact, e, h1) = >>=-eq-ok (ok_or (get cid state.artifacts) _) _ h in
      let (start, f, h2) = >>=-eq-ok (not_before platform artifact) _ h1 in
      let (t, h3) = require-eq-ok (leb start now) _ _ h2 in
      let (end, g, h4) = >>=-eq-ok (expires_at platform artifact) _ h3 in
      let (u, h5) = require-eq-ok (ltb now end) _ _ h4 in
      let (status, k, h6) = >>=-eq-ok (ok_or (get cid state.statuses) _) _ h5 in
      record {
        artifact = artifact;
        stored = ok_or-eq-ok (get cid state.artifacts) _ e;
        start = start;
        starts = f;
        started = ground (arith, t);
        end = end;
        ends = g;
        unexpired = ground (arith, u);
        status = status;
        known = ok_or-eq-ok (get cid state.statuses) _ k;
        fresh = status_live-IsFresh status now ancestor h6;
      }

  -- One level of a walk that succeeded.
  pub record Level (state : MemoryState Value) (now left : ℕ) (cid : Str) (visiting : List Str)
      : Type 0 where
    pub live : IsLive state now cid
    pub artifact : PolicyDelegation Value
    pub stored : get cid state.artifacts ≡ some artifact
    pub fits : edges_fit artifact.role artifact.proof_cids (edges_of cid state.edges) ≡ true
    pub parents :
        (edge : VerifiedEdge)
        → In edge state.edges
        → edge.child_cid ≡ cid
        → walk_verified_edges platform state now left edge.parent_cid true (cid ∷ visiting) ≡ ok tt

  pub walk-Level :
      (state : MemoryState Value) (now left : ℕ) (cid : Str) (ancestor : Bool) (visiting : List Str)
      → walk_verified_edges platform state now (suc left) cid ancestor visiting ≡ ok tt
      → Level state now left cid visiting
  unfolding walk_verified_edges edges_of
  walk-Level state now left cid ancestor visiting h =
      let (_, e, h1) = >>=-eq-ok (ensure_live platform state cid now ancestor) _ h in
      let (t, h2) = require-eq-ok (not (contains visiting cid)) _ _ h1 in
      let (artifact, f, h3) = >>=-eq-ok (ok_or (get cid state.artifacts) _) _ h2 in
      let (u, h4) =
        require-eq-ok (edges_fit artifact.role artifact.proof_cids (edges_of cid state.edges)) _ _
          h3 in
      record {
        live = ensure_live-IsLive state cid now ancestor e;
        artifact = artifact;
        stored = ok_or-eq-ok (get cid state.artifacts) _ f;
        fits = u;
        parents = λ edge m same. for_each-In _ (edges_of cid state.edges) edge h4 (
            In-filter (λ edge. edge.child_cid == cid) state.edges edge m
              ((list_eq_iff edge.child_cid cid).1 same));
      }

  -- The level of a walk at an ancestor.
  pub Ancestor-Level :
      (state : MemoryState Value) (now : ℕ) {cid a : Str}
      → Ancestor state.edges cid a
      → (left : ℕ) (ancestor : Bool) (visiting : List Str)
      → walk_verified_edges platform state now left cid ancestor visiting ≡ ok tt
      → (left' : ℕ) × (visiting' : List Str) × Level state now left' a visiting'
  unfolding walk_verified_edges
  Ancestor-Level state now g zero ancestor visiting h = absurd (ground (arith, h))
  Ancestor-Level state now (itself cid) (suc left) ancestor visiting h =
      (left, visiting, walk-Level state now left cid ancestor visiting h)
  Ancestor-Level state now (beyond edge a m g) (suc left) ancestor visiting h =
      Ancestor-Level state now g left true (edge.child_cid ∷ visiting)
        ((walk-Level state now left edge.child_cid ancestor visiting h).parents edge m refl)

  pub walk-IsLive :
      (state : MemoryState Value) (now : ℕ) {cid a : Str}
      → Ancestor state.edges cid a
      → (left : ℕ) (ancestor : Bool) (visiting : List Str)
      → walk_verified_edges platform state now left cid ancestor visiting ≡ ok tt
      → IsLive state now a
  walk-IsLive state now g left ancestor visiting h =
      (Ancestor-Level state now g left ancestor visiting h).2.live

  -- When the kernel accepts an invocation, the artifact and each of its ancestors along stored edges
  -- is stored, inside its time window, and has a status that was checked within the last five
  -- minutes and shows no revocation.
  pub validate_for_invocation-IsLive :
      (state : MemoryState Value) (cid : Str) (now : ℕ) (a : Str)
      → validate_for_invocation platform state cid now ≡ ok tt
      → Ancestor state.edges cid a
      → IsLive state now a
  unfolding validate_for_invocation
  validate_for_invocation-IsLive state cid now a h g = walk-IsLive state now g levels false [] h
