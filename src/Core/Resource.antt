-- ===== src/Core/Resource.antt =====
-- tinycloud-core/src/types/resource.rs: the resources that capabilities name.
pub mod Extends
use tinycloud_node.Common.{
  ℕ, List, Option, none, some, Bool, true, false, ◌||◌, if◌then◌else◌, starts_with, Result, ok, err,
  is_ok,
}
use tinycloud_node.Common.Classes.{Str, codes}
use tinycloud_node.Auth.Resource.{SpaceId, ResourceId, ResourceCheckError, extends}
use tinycloud_node.Core.NetworkId.{
  NetworkId, NetworkIdError, network_eq, parse_network_id, network_id_prefix,
}

pub data Resource : Type 0 where
  tiny_cloud : ResourceId → Resource
  other : Str → Resource

unfoldable pub space : Resource → Option SpaceId
space (tiny_cloud id) = some id.space
space (other uri) = none

unfoldable pub tinycloud_resource : Resource → Option ResourceId
tinycloud_resource (tiny_cloud id) = some id
tinycloud_resource (other uri) = none

-- The `match` on two other URIs, each read as a network id.
unfoldable pub other_extends :
    Result NetworkIdError NetworkId → Result NetworkIdError NetworkId → Str → Str → Bool
other_extends (ok a) (ok b) s t = network_eq a b
other_extends (ok a) (err e) s t = false
other_extends (err e) (ok b) s t = false
other_extends (err e) (err f) s t =
    if starts_with s network_id_prefix || starts_with t network_id_prefix
    then false
    else starts_with s t

module _ (encode_eip55 : List ℕ → Str) where
  unfoldable pub resource_extends : Resource → Resource → Bool
  unfolding other_extends
  resource_extends (tiny_cloud a) (tiny_cloud b) = is_ok (extends a b)
  resource_extends (other a) (other b) =
      other_extends (parse_network_id encode_eip55 a) (parse_network_id encode_eip55 b) a b
  resource_extends (tiny_cloud a) (other b) = false
  resource_extends (other a) (tiny_cloud b) = false
