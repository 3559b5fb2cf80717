-- ===== src/Core/Policy/SqlCaveat.antt =====
-- tinycloud-core/src/policy_capability/sql_caveat.rs: the constrained-statements caveat, its parsing
-- from JSON, and when one caveat contains another.
pub mod Contains
use tinycloud_node.Common.{
  ℕ, List, [], ◌∷◌, Option, none, some, Bool, true, false, not, ◌&&◌, ◌||◌, if◌then◌else◌, find,
  Result, ok, err, ◌>>=◌, ◌>>◌, require, ok_or, nat_eq,
}
use tinycloud_node.Common.Classes.{Eq, ◌==◌, Str, codes, List_eq, Nat_eq}
use tinycloud_node.Core.Json.{Json, get, and_then}
use tinycloud_node.Core.Policy.Codes.{
  RejectionCode, policy_capability_malformed_caveats, sql_non_readonly_not_permitted,
  containment_sql_statement_added, containment_sql_fixed_param_dropped,
  containment_sql_fixed_param_mismatch,
}

pub record FixedParam (V : Type 0) : Type 0 where
  pub index : ℕ
  pub value : V

pub record ConstrainedStatement (V : Type 0) : Type 0 where
  pub name : Str
  pub sql : Str
  pub fixed_params : List (FixedParam V)

pub record SqlConstrainedStatementCaveat (V : Type 0) : Type 0 where
  pub read_only : Bool
  pub statements : List (ConstrainedStatement V)

-- `ok_or(MalformedCaveats)`.
abbrev or_malformed : {A : Type 0} → Option A → Result RejectionCode A
or_malformed o = ok_or o policy_capability_malformed_caveats

module _ (json : Json) where
  open json use {Value, as_object, as_array, as_str, as_bool, as_i64, value_eq}

  unfoldable pub parse_param : Value → Result RejectionCode (FixedParam Value)
  parse_param v = do
    entries ← or_malformed (as_object v)
    index ← or_malformed (and_then (get (codes "index") entries) as_i64)
    value ← or_malformed (get (codes "value") entries)
    ok (record { index = index; value = value })

  unfoldable pub parse_params : List Value → Result RejectionCode (List (FixedParam Value))
  unfolding parse_param
  parse_params [] = ok []
  parse_params (v ∷ vs) = do param ← parse_param v; rest ← parse_params vs; ok (param ∷ rest)

  -- A statement without fixed parameters has the empty list of them.
  unfoldable pub parse_fixed : Option Value → Result RejectionCode (List (FixedParam Value))
  unfolding parse_params
  parse_fixed none = ok []
  parse_fixed (some v) = or_malformed (as_array v) >>= parse_params

  unfoldable pub parse_statement : Value → Result RejectionCode (ConstrainedStatement Value)
  unfolding parse_fixed
  parse_statement s = do
    entries ← or_malformed (as_object s)
    name ← or_malformed (and_then (get (codes "name") entries) as_str)
    sql ← or_malformed (and_then (get (codes "sql") entries) as_str)
    fixed ← parse_fixed (get (codes "fixedParams") entries)
    ok (record { name = name; sql = sql; fixed_params = fixed })

  unfoldable pub parse_statements :
      List Value → Result RejectionCode (List (ConstrainedStatement Value))
  unfolding parse_statement
  parse_statements [] = ok []
  parse_statements (s ∷ ss) = do
    statement ← parse_statement s
    rest ← parse_statements ss
    ok (statement ∷ rest)

  unfoldable pub parse : Value → Result RejectionCode (SqlConstrainedStatementCaveat Value)
  unfolding parse_statements
  parse input = do
    entries ← or_malformed (as_object input)
    mode ← or_malformed (and_then (get (codes "mode") entries) as_str)
    require (mode == codes "constrained-statements") policy_capability_malformed_caveats
    read_only_value ← or_malformed (get (codes "readOnly") entries)
    read_only ← or_malformed (as_bool read_only_value)
    array ← or_malformed (and_then (get (codes "statements") entries) as_array)
    statements ← parse_statements array
    ok (record { read_only = read_only; statements = statements })

  -- The inner loop of `contains`: every fixed parameter of the authority is requested alike.
  unfoldable pub contains_params :
      List (FixedParam Value) → List (FixedParam Value) → Result RejectionCode (Unit {0})
  contains_params [] req = ok tt
  contains_params (ap ∷ aps) req =
      let rest = contains_params aps req in
      elim (find (λ rp. nat_eq rp.index ap.index) req) [
        | none ↦ err containment_sql_fixed_param_dropped
        | some rp ↦
            if not (value_eq.beq rp.value ap.value)
            then err containment_sql_fixed_param_mismatch
            else rest
      ]

  -- One round of the outer loop.
  unfoldable pub contains_statement :
      List (ConstrainedStatement Value)
      → ConstrainedStatement Value
      → Result RejectionCode (Unit {0})
  unfolding contains_params
  contains_statement auth req = elim (find (λ s. s.name == req.name) auth) [
    | none ↦ err containment_sql_statement_added
    | some s ↦
        if not (s.sql == req.sql)
        then err containment_sql_statement_added
        else contains_params s.fixed_params req.fixed_params
  ]

  unfoldable pub contains_statements :
      List (ConstrainedStatement Value)
      → List (ConstrainedStatement Value)
      → Result RejectionCode (Unit {0})
  unfolding contains_statement
  contains_statements auth [] = ok tt
  contains_statements auth (r ∷ rs) = contains_statement auth r >>= λ _. contains_statements auth rs

  unfoldable pub contains :
      SqlConstrainedStatementCaveat Value
      → SqlConstrainedStatementCaveat Value
      → Result RejectionCode (Unit {0})
  unfolding contains_statements
  contains auth req =
      if not auth.read_only || not req.read_only
      then err sql_non_readonly_not_permitted
      else contains_statements auth.statements req.statements
