-- ===== src/Core/NetworkId.antt =====
-- tinycloud-core/src/encryption_network/network_id.rs: the identifiers of encryption networks.
use tinycloud_node.Common.{
  ℕ, List, ◌++◌, Bool, ◌&&◌, ◌||◌, if◌then◌else◌, is_empty, contains_byte, strip_prefix,
  rsplit_once, Result, ok, err, ◌>>=◌, ok_or,
}
use tinycloud_node.Common.Classes.{◌==◌, Str, codes, List_eq, Nat_eq}
use tinycloud_node.Auth.Identity.{IdentityError, canonicalize_principal}

pub data NetworkIdError : Type 0 where
  missing_prefix empty_owner_did empty_name missing_separator invalid_name : NetworkIdError
  invalid_principal : IdentityError → NetworkIdError

pub record NetworkId : Type 0 where
  pub owner_did : Str
  pub name : Str

abbrev pub network_id_prefix : Str
network_id_prefix = codes "urn:tinycloud:encryption:"

-- `map_err(InvalidPrincipal)`.
abbrev lift_principal : {A : Type 0} → Result IdentityError A → Result NetworkIdError A
lift_principal (ok a) = ok a
lift_principal (err e) = err (invalid_principal e)

-- The derived equality.
unfoldable pub network_eq : NetworkId → NetworkId → Bool
network_eq a b = a.owner_did == b.owner_did && a.name == b.name

-- `Display`.
unfoldable pub network_text : NetworkId → Str
network_text id = network_id_prefix ++ (id.owner_did ++ (codes ":" ++ id.name))

module _ (encode_eip55 : List ℕ → Str) where
  -- `NetworkId::new`.
  unfoldable pub new_network_id : Str → Str → Result NetworkIdError NetworkId
  new_network_id owner_did name =
      if is_empty owner_did
      then err empty_owner_did
      else if is_empty name
      then err empty_name
      else if contains_byte b':' name || contains_byte b'/' name
      then err invalid_name
      else lift_principal (canonicalize_principal encode_eip55 owner_did) >>= λ owner.
          ok (record { owner_did = owner; name = name })

  unfoldable pub parse_network_id : Str → Result NetworkIdError NetworkId
  unfolding new_network_id
  parse_network_id s = do
    rest ← ok_or (strip_prefix network_id_prefix s) missing_prefix
    parts ← ok_or (rsplit_once b':' rest) missing_separator
    new_network_id parts.0 parts.1
