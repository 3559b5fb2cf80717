-- ===== src/Core/Json.antt =====
-- JSON values, of the serde_json package, as the program uses them: its accessors and its equality.
-- An `i64` is its bit pattern.
unfoldable pub use tinycloud_node.Common.Maps.{get}
use tinycloud_node.Common.{ℕ, List, Option, none, some, Bool}
use tinycloud_node.Common.Classes.{Eq, Str, List_eq, Nat_eq}

pub record Json : Type 1 where
  pub Value : Type 0
  -- The entries of an object, in the order of its iteration.
  pub as_object : Value → Option (List (Str × Value))
  pub as_array : Value → Option (List Value)
  pub as_str : Value → Option Str
  pub as_bool : Value → Option Bool
  pub as_i64 : Value → Option ℕ
  pub value_eq : Eq Value

-- `option.and_then(f)`.
abbrev pub and_then {ℓ κ} : {A : Type ℓ} {B : Type κ} → Option A → (A → Option B) → Option B
and_then none f = none
and_then (some a) f = f a
