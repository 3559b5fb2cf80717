-- ===== src/Auth/Resource/Extends.antt =====
-- When a resource lies under another: the meaning of `extends`, and its laws.
use tinycloud_node.Common.{
  ℕ, ◌+◌, ◌≤◌, ◌≡◌, refl, sym, ap, ◌∙◌, ◌↔◌, inl, inr, [], ◌∷◌, ◌++◌, Option, none, some, Bool,
  true, false, not, ◌||◌, arith, length, length-append, ok, Bool-cases, Option-cases, starts_with,
  strip_prefix, strip_prefix-eq-some, strip_prefix-append, is_some, ends_with_byte, str_len,
  as_bytes, get_byte, get_byte-append, as_bytes-append, slash_byte_iff, is_empty, utf8,
}
use mathlib.Core.List.{append-nil, append_assoc}
use tinycloud_node.Common.Classes.{
  ◌==◌, Str, List_eq, Option_eq, Nat_eq, eq→≡, option_eq, list_eq_iff, option_eq_iff,
}
use tinycloud_node.Auth.Resource.{SpaceId, ResourceId, space_eq, leaves_path, extends}

-- `s` is `b`, or goes on behind it at the boundary of a path component.
pub data Under (s b : Str) : Type 0 where
  same : s ≡ b → Under s b
  folder : (r : Str) → s ≡ b ++ r → ends_with_byte b'/' b ≡ true → Under s b
  below : (r : Str) → s ≡ b ++ b'/' ∷ r → Under s b

-- No path covers every path.
abbrev pub PathUnder : Option Str → Option Str → Type 0
PathUnder (some s) (some b) = Under s b
PathUnder (some s) none = Unit
PathUnder none none = Unit
PathUnder none (some b) = ⊥

utf8-pos : (c : ℕ) → 1 ≤ length (utf8 c)
unfolding utf8
utf8-pos c = ground arith

pub starts_with-append : (b r : Str) → starts_with (b ++ r) b ≡ true
unfolding starts_with
starts_with-append b r = rw (strip_prefix-append b r)

str_len-append : (b r : Str) → str_len (b ++ r) ≡ str_len b + str_len r
unfolding str_len
str_len-append b r = rw (as_bytes-append b r) (length-append (as_bytes b) (as_bytes r))

-- Nothing is added exactly when the lengths are the same.
str_len-append_eq : (b r : Str) → (str_len (b ++ r) == str_len b) ≡ is_empty r
unfolding str_len
str_len-append_eq b [] = ground (arith, str_len-append b [])
str_len-append_eq b (c ∷ r) =
    ground (arith, str_len-append b (c ∷ r), length-append (utf8 c) (as_bytes r), utf8-pos c)

get_byte-next : (b r : Str) → get_byte (as_bytes (b ++ r)) (str_len b) ≡ get_byte (as_bytes r) 0
unfolding str_len
get_byte-next b r = rw (as_bytes-append b r) (get_byte-append (as_bytes b) (as_bytes r))

-- The text goes on with a slash.
abbrev goes_below : Str → Bool
goes_below r = get_byte (as_bytes r) 0 == some b'/'

leaves_path-append :
    (b r : Str)
    → leaves_path (some (b ++ r)) (some b)
      ≡ not (ends_with_byte b'/' b || (is_empty r || goes_below r))
unfolding leaves_path
leaves_path-append b r = rw (starts_with-append b r, str_len-append_eq b r, get_byte-next b r)

Under-append :
    (b r : Str) → (ends_with_byte b'/' b || (is_empty r || goes_below r)) ≡ true → Under (b ++ r) b
Under-append b [] h = same (append-nil b)
Under-append b (c ∷ r) h = elim (Bool-cases (ends_with_byte b'/' b)) [
  | inl e ↦ folder (c ∷ r) refl e
  | inr e ↦
      let slash : c ≡ b'/' =
        (slash_byte_iff c r).0 (eq→≡ (get_byte (as_bytes (c ∷ r)) 0) (some b'/') (ground arith)) in
      below r (ap (λ x. b ++ x ∷ r) slash)
]

pub starts_with-eq-true : (s b : Str) → starts_with s b ≡ true → (r : Str) × (s ≡ b ++ r)
unfolding starts_with
starts_with-eq-true s b h = elim (Option-cases (strip_prefix b s)) [
  | inl e ↦ let no_ : is_some {A = Str} none ≡ true = rw e at h in cc
  | inr (r, e) ↦ (r, strip_prefix-eq-some b s r e)
]

leaves_path-Under : (s b : Str) → leaves_path (some s) (some b) ≡ false → Under s b
leaves_path-Under s b h =
    let (r, e) = starts_with-eq-true s b (unfold leaves_path in ground arith) in
    let k : leaves_path (some (b ++ r)) (some b) ≡ false = rw e at h in
    rw e (Under-append b r (ground (arith, leaves_path-append b r)))

Under-leaves_path : (s b : Str) → Under s b → leaves_path (some s) (some b) ≡ false
Under-leaves_path s b (same e) =
    rw (e ∙ sym (append-nil b)) (rw (leaves_path-append b []) (ground arith))
Under-leaves_path s b (folder r e h) = rw e (rw (leaves_path-append b r, h) refl)
Under-leaves_path s b (below r e) = rw e (
    rw (leaves_path-append b (b'/' ∷ r), (slash_byte_iff b'/' r).1 refl)
      (unfold option_eq in ground arith))

leaves_path_iff : (s b : Option Str) → (leaves_path s b ≡ false) ↔ PathUnder s b
leaves_path_iff (some s) (some b) = (leaves_path-Under s b, Under-leaves_path s b)
leaves_path_iff (some s) none = (λ h. tt, λ h. unfold leaves_path in refl)
leaves_path_iff none none = (λ h. tt, λ h. unfold leaves_path in refl)
leaves_path_iff none (some b) = (λ h. unfold leaves_path in cc, λ h. absurd h)

-- The meaning of `extends`: one space, one service, one fragment, and a path under the base's.
pub record Extends (self base : ResourceId) : Type 0 where
  pub did : base.space.base_did ≡ self.space.base_did
  pub name : base.space.name ≡ self.space.name
  pub service : base.service ≡ self.service
  pub fragment : base.fragment ≡ self.fragment
  pub path : PathUnder self.path base.path

space_eq_iff :
    (a b : SpaceId) → (space_eq a b ≡ true) ↔ ((a.base_did ≡ b.base_did) × (a.name ≡ b.name))
unfolding space_eq
space_eq_iff a b = ground (arith, list_eq_iff a.base_did b.base_did, list_eq_iff a.name b.name)

extends-Extends : (self base : ResourceId) → extends self base ≡ ok tt → Extends self base
unfolding extends
extends-Extends self base h =
    let space : space_eq base.space self.space ≡ true = ground arith in
    let service_test : (base.service == self.service) ≡ true = ground arith in
    let fragment_test : (base.fragment == self.fragment) ≡ true = ground arith in
    let path_test : leaves_path self.path base.path ≡ false = ground arith in
    let spaces = (space_eq_iff base.space self.space).0 space in
    record {
      did = spaces.0;
      name = spaces.1;
      service = eq→≡ base.service self.service service_test;
      fragment = eq→≡ base.fragment self.fragment fragment_test;
      path = (leaves_path_iff self.path base.path).0 path_test;
    }

Extends-extends : (self base : ResourceId) → Extends self base → extends self base ≡ ok tt
unfolding extends
Extends-extends self base e = rw (
  (space_eq_iff base.space self.space).1 (e.did, e.name),
  (list_eq_iff base.service self.service).1 e.service,
  (option_eq_iff base.fragment self.fragment).1 e.fragment,
  (leaves_path_iff self.path base.path).1 e.path,
)

-- A resource extends a base exactly when space, service and fragment are the base's and the path
-- is the base's, lies in the folder that it names, or goes on behind it with a slash.
pub extends_iff : (self base : ResourceId) → (extends self base ≡ ok tt) ↔ Extends self base
extends_iff self base = (extends-Extends self base, Extends-extends self base)

PathUnder-refl : (s : Option Str) → PathUnder s s
PathUnder-refl none = tt
PathUnder-refl (some s) = same refl

-- Every resource extends itself.
pub extends_refl : (r : ResourceId) → extends r r ≡ ok tt
extends_refl r = Extends-extends r r (record {
  did = refl;
  name = refl;
  service = refl;
  fragment = refl;
  path = PathUnder-refl r.path;
})

Under-trans : (s m b : Str) → Under s m → Under m b → Under s b
Under-trans s m b (same e) u = rw e u
Under-trans s m b (folder r e h) (same f) = folder r (rw (← f) e) (rw (← f) h)
Under-trans s m b (folder r e h) (folder q f k) =
    folder (q ++ r) (e ∙ ap (λ x. x ++ r) f ∙ append_assoc b q r) k
Under-trans s m b (folder r e h) (below q f) =
    below (q ++ r) (e ∙ ap (λ x. x ++ r) f ∙ append_assoc b (b'/' ∷ q) r)
Under-trans s m b (below r e) (same f) = below r (rw (← f) e)
Under-trans s m b (below r e) (folder q f k) =
    folder (q ++ b'/' ∷ r) (e ∙ ap (λ x. x ++ b'/' ∷ r) f ∙ append_assoc b q (b'/' ∷ r)) k
Under-trans s m b (below r e) (below q f) =
    below (q ++ b'/' ∷ r) (e ∙ ap (λ x. x ++ b'/' ∷ r) f ∙ append_assoc b (b'/' ∷ q) (b'/' ∷ r))

PathUnder-trans : (s m b : Option Str) → PathUnder s m → PathUnder m b → PathUnder s b
PathUnder-trans (some s) (some m) (some b) h k = Under-trans s m b h k
PathUnder-trans none none none h k = tt
PathUnder-trans (some s) m none h k = tt
PathUnder-trans none (some m) b h k = absurd h
PathUnder-trans s none (some b) h k = absurd k

-- What extends a resource extends all that this one extends.
pub extends_trans :
    (a b c : ResourceId) → extends a b ≡ ok tt → extends b c ≡ ok tt → extends a c ≡ ok tt
extends_trans a b c h k =
    let e = extends-Extends a b h in
    let f = extends-Extends b c k in
    Extends-extends a c (record {
      did = f.did ∙ e.did;
      name = f.name ∙ e.name;
      service = f.service ∙ e.service;
      fragment = f.fragment ∙ e.fragment;
      path = PathUnder-trans a.path b.path c.path e.path f.path;
    })
