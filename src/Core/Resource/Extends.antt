-- ===== src/Core/Resource/Extends.antt =====
-- Extension of resources is transitive.
use tinycloud_node.Common.{
  ℕ, ◌≡◌, refl, ◌∙◌, ap, List, ◌++◌, true, arith, starts_with, Result, ok, err, is_ok,
}
use mathlib.Core.List.{append_assoc}
use tinycloud_node.Common.Classes.{Str, list_eq_iff, List_eq, Nat_eq}
use tinycloud_node.Auth.Resource.{ResourceCheckError, extends}
use tinycloud_node.Auth.Resource.Extends.{extends_trans, starts_with-eq-true, starts_with-append}
use tinycloud_node.Core.NetworkId.{NetworkId, NetworkIdError, network_eq, parse_network_id}
use tinycloud_node.Core.Resource.{Resource, tiny_cloud, other, other_extends, resource_extends}

is_ok-eq : (r : Result ResourceCheckError (Unit {0})) → is_ok r ≡ true → r ≡ ok tt
is_ok-eq (ok u) h = refl
is_ok-eq (err e) h = cc

starts_with_trans :
    (a b c : Str) → starts_with a b ≡ true → starts_with b c ≡ true → starts_with a c ≡ true
starts_with_trans a b c h k =
    let (r, e) = starts_with-eq-true a b h in
    let (q, f) = starts_with-eq-true b c k in
    let whole : a ≡ c ++ (q ++ r) = e ∙ ap (λ x. x ++ r) f ∙ append_assoc c q r in
    rw whole (starts_with-append c (q ++ r))

network_eq_trans :
    (a b c : NetworkId) → network_eq a b ≡ true → network_eq b c ≡ true → network_eq a c ≡ true
unfolding network_eq
network_eq_trans a b c h k = ground (
  arith,
  list_eq_iff a.owner_did b.owner_did,
  list_eq_iff a.name b.name,
  list_eq_iff b.owner_did c.owner_did,
  list_eq_iff b.name c.name,
  list_eq_iff a.owner_did c.owner_did,
  list_eq_iff a.name c.name,
)

other_extends_trans :
    (x y z : Result NetworkIdError NetworkId) (a b c : Str)
    → other_extends x y a b ≡ true
    → other_extends y z b c ≡ true
    → other_extends x z a c ≡ true
unfolding other_extends
other_extends_trans (ok x) (ok y) (ok z) a b c h k = network_eq_trans x y z h k
other_extends_trans (ok x) (ok y) (err z) a b c h k = cc
other_extends_trans (ok x) (err y) z a b c h k = cc
other_extends_trans (err x) (ok y) z a b c h k = cc
other_extends_trans (err x) (err y) (ok z) a b c h k = cc
other_extends_trans (err x) (err y) (err z) a b c h k = ground (arith, starts_with_trans a b c)

module _ (encode_eip55 : List ℕ → Str) where
  -- What extends a resource extends all that this one extends, for spaces, encryption networks
  -- and other URIs alike.
  pub resource_extends_trans :
      (a b c : Resource)
      → resource_extends encode_eip55 a b ≡ true
      → resource_extends encode_eip55 b c ≡ true
      → resource_extends encode_eip55 a c ≡ true
  unfolding resource_extends
  resource_extends_trans (tiny_cloud a) (tiny_cloud b) (tiny_cloud c) h k =
      rw (extends_trans a b c (is_ok-eq (extends a b) h) (is_ok-eq (extends b c) k))
  resource_extends_trans (other a) (other b) (other c) h k =
      other_extends_trans (parse_network_id encode_eip55 a) (parse_network_id encode_eip55 b)
        (parse_network_id encode_eip55 c) a b c h k
  resource_extends_trans (tiny_cloud a) (tiny_cloud b) (other c) h k = cc
  resource_extends_trans (tiny_cloud a) (other b) c h k = cc
  resource_extends_trans (other a) (tiny_cloud b) c h k = cc
  resource_extends_trans (other a) (other b) (tiny_cloud c) h k = cc
