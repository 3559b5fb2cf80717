-- ===== src/Core/Traversal.antt =====
-- tinycloud-core/src/models/revocation.rs: the walk up the proof graph of delegations, and the test
-- whether a delegation or one of its ancestors is revoked. A table is the list of its rows, in the
-- order in which the database returns them; a hash is its bytes.
pub mod Step
pub mod Fuel
pub mod Sound
pub mod Complete
pub mod Revoked
use tinycloud_node.Common.{
  ℕ, zero, suc, ◌+◌, ◌-◌, List, [], ◌∷◌, ◌++◌, Option, none, some, Bool, true, false, ◌||◌,
  if◌then◌else◌, length, take, drop, any, contains, leb, ltb, reverse, Result, ok, err, ◌>>=◌, find,
}
use tinycloud_node.Common.Sort.{sort, dedup}
use tinycloud_node.Common.Classes.{Str, ◌==◌, List_eq, Nat_eq}

abbrev pub Hash : Type 0
Hash = List ℕ

-- A row of parent_delegations.
pub record Link : Type 0 where
  pub child : Hash
  pub parent : Hash

-- A row of the revocation table.
pub record RevocationRow : Type 0 where
  pub id : Hash
  pub revoker : Str
  pub revoked : Hash

abbrev pub max_chain_traversal_nodes : ℕ
max_chain_traversal_nodes = 64

pub data ChainTraversalError : Type 0 where
  limit_exceeded : ChainTraversalError

-- The parents of a delegation.
unfoldable pub parents_of : List Link → Hash → List Hash
parents_of [] child = []
parents_of (l ∷ links) child =
    if l.child == child then l.parent ∷ parents_of links child else parents_of links child

-- The loop over the links: the frontier is a stack with its top at the head.
unfoldable pub push_parents :
    List Hash → List Hash → List Hash → Result ChainTraversalError (List Hash)
push_parents visited frontier [] = ok frontier
push_parents visited frontier (p ∷ ps) =
    let skipped = push_parents visited frontier ps in
    let pushed = push_parents visited (p ∷ frontier) ps in
    if contains visited p || contains frontier p
    then skipped
    else if leb max_chain_traversal_nodes (length visited + length frontier)
    then err limit_exceeded
    else pushed

-- The loop of the walk. The set `visited` holds the ids of `ordered`, so one list serves both.
-- `none` when the fuel runs out.
unfoldable pub traverse :
    List Link → ℕ → List Hash → List Hash → Option (Result ChainTraversalError (List Hash))
unfolding push_parents
traverse links zero ordered frontier = none
traverse links (suc fuel) ordered [] = some (ok ordered)
traverse links (suc fuel) ordered (current ∷ frontier) =
    let seen = traverse links fuel ordered frontier in
    let visited = ordered ++ current ∷ [] in
    let remaining = max_chain_traversal_nodes - length visited in
    let visit : Option (Result ChainTraversalError (List Hash)) =
      elim (push_parents visited frontier (take (remaining + 1) (parents_of links current))) [
        | err e ↦ some (err e)
        | ok next ↦ traverse links fuel visited next
      ] in
    if contains ordered current
    then seen
    else if ltb max_chain_traversal_nodes (length visited)
    then some (err limit_exceeded)
    else visit

-- Sixty-four visits of a frontier of at most sixty-four.
abbrev pub traversal_fuel : ℕ
traversal_fuel = 4226

unfoldable pub ancestor_chain_ids_for_roots :
    List Link → List Hash → Result ChainTraversalError (List Hash)
ancestor_chain_ids_for_roots links roots =
    let frontier = dedup (sort roots) in
    if ltb max_chain_traversal_nodes (length frontier)
    then err limit_exceeded
    else elim (traverse links traversal_fuel [] (reverse frontier)) [
      | none ↦ err limit_exceeded
      | some result ↦ result
    ]

unfoldable pub ancestor_chain_ids : List Link → Hash → Result ChainTraversalError (List Hash)
unfolding ancestor_chain_ids_for_roots
ancestor_chain_ids links start = ancestor_chain_ids_for_roots links (start ∷ [])

unfoldable pub is_revoked : List RevocationRow → Hash → Bool
is_revoked rows id = any (λ row. row.revoked == id) rows

-- The first ancestor behind the start that is revoked.
unfoldable pub first_revoked_ancestor :
    List Link → List RevocationRow → Hash → Result ChainTraversalError (Option Hash)
unfolding ancestor_chain_ids is_revoked
first_revoked_ancestor links rows start = do
  ids ← ancestor_chain_ids links start
  ok (find (is_revoked rows) (drop 1 ids))
