-- ===== src/Core/Invocation/Sound.antt =====
-- What an accepted invocation rests on.
use tinycloud_node.Common.{ℕ, ◌≡◌, List, true, In}
use tinycloud_node.Common.Classes.{Str, List_eq, Nat_eq}
use tinycloud_node.Auth.Identity.{did_principal_matches}
use tinycloud_node.Core.Json.{Json}
use tinycloud_node.Core.Traversal.{Hash}
use tinycloud_node.Core.Authority.{Capability, DelegationRow, AbilityRow, Db}
use tinycloud_node.Core.Authority.Support.{Supports}
use tinycloud_node.Core.Invocation.Chain.{ChainLive}
use tinycloud_node.Core.Invocation.{InvocationInfo, valid_at, caveats_contain_child}

module _ (json : Json) (encode_eip55 : List ℕ → Str) where
  open json use {Value}

  -- A stored delegation and one of its abilities support a capability of an invocation.
  pub record SupportedBy (db : Db Value) (i : InvocationInfo Value) (now : ℕ) (c : Capability Value)
      (p : DelegationRow Value) (a : AbilityRow Value) : Type 0 where
    pub stored : In p db.delegations
    pub cited : In p.id i.parents
    pub invoker : did_principal_matches encode_eip55 p.delegatee i.invoker ≡ true
    pub chain : (ids : List Hash) × ChainLive db now p ids
    pub window : valid_at now p ≡ true
    pub row : In a db.abilities
    pub of_parent : a.delegation ≡ p.id
    pub supports : Supports json encode_eip55 (caveats_contain_child json) c a

  abbrev pub Supported : Db Value → InvocationInfo Value → ℕ → Capability Value → Type 0
  Supported db i now c =
      (p : DelegationRow Value) × (a : AbilityRow Value) × SupportedBy db i now c p a
