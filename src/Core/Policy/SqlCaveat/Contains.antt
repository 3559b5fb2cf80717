-- ===== src/Core/Policy/SqlCaveat/Contains.antt =====
-- When one constrained-statements caveat contains another.
use tinycloud_node.Common.{
  ◌≡◌, refl, ◌∙◌, ◌↔◌, inl, inr, List, [], ◌∷◌, some, true, arith, Option-cases, find, find-eq-some,
  In, nat_eq, nat_eq_iff, ok, >>=-eq-ok,
}
use tinycloud_node.Common.Classes.{◌==◌, List_eq, Nat_eq, eq→≡, eq_refl}
use tinycloud_node.Core.Json.{Json}
use tinycloud_node.Core.Policy.SqlCaveat.{
  FixedParam, ConstrainedStatement, SqlConstrainedStatementCaveat, contains_params,
  contains_statement, contains_statements, contains,
}

module _ (json : Json) where
  open json use {Value, value_eq}

  -- The parameter of a list with an index is the first one with it.
  abbrev Bound : List (FixedParam Value) → FixedParam Value → Type 0
  Bound req p =
      (r : FixedParam Value) × (find (λ rp. nat_eq rp.index p.index) req ≡ some r)
      × (r.value ≡ p.value)

  -- Every fixed parameter of the authority is bound to its value in the request.
  abbrev ParamsContained : List (FixedParam Value) → List (FixedParam Value) → Type 0
  ParamsContained auth req = (p : FixedParam Value) → In p auth → Bound req p

  contains_params_sound :
      (auth req : List (FixedParam Value))
      → contains_params json auth req ≡ ok tt
      → ParamsContained auth req
  unfolding contains_params
  contains_params_sound [] req h p m = absurd m
  contains_params_sound (a ∷ auth) req h p m =
      elim (Option-cases (find (λ rp. nat_eq rp.index a.index) req)) [
        | inl e ↦ absurd (ground (arith, e))
        | inr (r, e) ↦
            let k : (value_eq.beq r.value a.value ≡ true)
                × (contains_params json auth req ≡ ok tt) =
              ground (arith, e) in
            elim m [
              | inl q ↦ rw (← q) (r, e, (value_eq.beq_iff r.value a.value).0 k.0)
              | inr m' ↦ contains_params_sound auth req k.1 p m'
            ]
      ]

  contains_params_complete :
      (auth req : List (FixedParam Value))
      → ParamsContained auth req
      → contains_params json auth req ≡ ok tt
  unfolding contains_params
  contains_params_complete [] req c = refl
  contains_params_complete (a ∷ auth) req c =
      let (r, e, v) = c a (inl refl) in
      let rest = contains_params_complete auth req (λ p m. c p (inr m)) in
      rw (e, contains_params, (value_eq.beq_iff r.value a.value).1 v) rest

  -- A requested statement is the authority's statement of that name, with its parameters bound.
  pub record StatementContained (auth : List (ConstrainedStatement Value))
      (req : ConstrainedStatement Value) : Type 0 where
    pub statement : ConstrainedStatement Value
    pub named : find (λ s. s.name == req.name) auth ≡ some statement
    pub same_sql : statement.sql ≡ req.sql
    pub params : ParamsContained statement.fixed_params req.fixed_params

  contains_statement_sound :
      (auth : List (ConstrainedStatement Value)) (req : ConstrainedStatement Value)
      → contains_statement json auth req ≡ ok tt
      → StatementContained auth req
  unfolding contains_statement
  contains_statement_sound auth req h = elim (Option-cases (find (λ s. s.name == req.name) auth)) [
    | inl e ↦ absurd (ground (arith, e))
    | inr (s, e) ↦
        let k : ((s.sql == req.sql) ≡ true)
            × (contains_params json s.fixed_params req.fixed_params ≡ ok tt) =
          ground (arith, e) in
        record {
          statement = s;
          named = e;
          same_sql = eq→≡ s.sql req.sql k.0;
          params = contains_params_sound s.fixed_params req.fixed_params k.1;
        }
  ]

  contains_statement_complete :
      (auth : List (ConstrainedStatement Value)) (req : ConstrainedStatement Value)
      → StatementContained auth req
      → contains_statement json auth req ≡ ok tt
  unfolding contains_statement
  contains_statement_complete auth req c =
      rw (c.named, contains_statement)
        (ground (
          arith,
          eq_sql,
          contains_params_complete c.statement.fixed_params req.fixed_params c.params,
        ))
    where
      eq_sql : (c.statement.sql == req.sql) ≡ true
      eq_sql = rw c.same_sql (eq_refl req.sql)

  abbrev StatementsContained :
      List (ConstrainedStatement Value) → List (ConstrainedStatement Value) → Type 0
  StatementsContained auth req =
      (r : ConstrainedStatement Value) → In r req → StatementContained auth r

  contains_statements_sound :
      (auth req : List (ConstrainedStatement Value))
      → contains_statements json auth req ≡ ok tt
      → StatementsContained auth req
  unfolding contains_statements
  contains_statements_sound auth [] h r m = absurd m
  contains_statements_sound auth (x ∷ req) h r m =
      let (_, p, q) = >>=-eq-ok (contains_statement json auth x) _ h in
      elim m [
        | inl e ↦ rw (← e) (contains_statement_sound auth x p)
        | inr m' ↦ contains_statements_sound auth req q r m'
      ]

  contains_statements_complete :
      (auth req : List (ConstrainedStatement Value))
      → StatementsContained auth req
      → contains_statements json auth req ≡ ok tt
  unfolding contains_statements
  contains_statements_complete auth [] c = refl
  contains_statements_complete auth (x ∷ req) c =
      rw (contains_statement_complete auth x (c x (inl refl)))
        (contains_statements_complete auth req (λ r m. c r (inr m)))

  pub record Contains (auth req : SqlConstrainedStatementCaveat Value) : Type 0 where
    pub auth_read_only : auth.read_only ≡ true
    pub req_read_only : req.read_only ≡ true
    pub statements : StatementsContained auth.statements req.statements

  contains-Contains :
      (auth req : SqlConstrainedStatementCaveat Value)
      → contains json auth req ≡ ok tt
      → Contains auth req
  unfolding contains
  contains-Contains auth req h = record {
    auth_read_only = ground arith;
    req_read_only = ground arith;
    statements = contains_statements_sound auth.statements req.statements (ground arith);
  }

  Contains-contains :
      (auth req : SqlConstrainedStatementCaveat Value)
      → Contains auth req
      → contains json auth req ≡ ok tt
  unfolding contains
  Contains-contains auth req c = ground (
    arith,
    c.auth_read_only,
    c.req_read_only,
    contains_statements_complete auth.statements req.statements c.statements,
  )

  -- `contains` accepts exactly when both caveats are read-only and every requested statement has,
  -- under its name, the authority's SQL with each of the authority's fixed parameters bound alike.
  pub contains_iff :
      (auth req : SqlConstrainedStatementCaveat Value)
      → (contains json auth req ≡ ok tt) ↔ Contains auth req
  contains_iff auth req = (contains-Contains auth req, Contains-contains auth req)

  Bound-trans :
      (mid req : List (FixedParam Value)) (p : FixedParam Value)
      → Bound mid p
      → ParamsContained mid req
      → Bound req p
  Bound-trans mid req p (m, e, v) c =
      let (inside, same_index) = find-eq-some (λ rp. nat_eq rp.index p.index) mid m e in
      let (r, f, w) = c m inside in
      let i : m.index ≡ p.index = (nat_eq_iff m.index p.index).0 same_index in (r, rw i at f, w ∙ v)

  StatementContained-trans :
      (a m : List (ConstrainedStatement Value)) (r : ConstrainedStatement Value)
      → StatementsContained a m
      → StatementContained m r
      → StatementContained a r
  StatementContained-trans a m r c d =
      let (inside, same_name) = find-eq-some (λ s. s.name == r.name) m d.statement d.named in
      let first = c d.statement inside in
      let n : d.statement.name ≡ r.name = eq→≡ d.statement.name r.name same_name in
      record {
        statement = first.statement;
        named = rw n at first.named;
        same_sql = first.same_sql ∙ d.same_sql;
        params = λ p k.
            Bound-trans d.statement.fixed_params r.fixed_params p (first.params p k) d.params;
      }

  -- Containment of caveats is transitive: a chain of narrowing steps is one narrowing step.
  pub contains_trans :
      (a m r : SqlConstrainedStatementCaveat Value)
      → contains json a m ≡ ok tt
      → contains json m r ≡ ok tt
      → contains json a r ≡ ok tt
  contains_trans a m r h k =
      let c = contains-Contains a m h in
      let d = contains-Contains m r k in
      Contains-contains a r (record {
        auth_read_only = c.auth_read_only;
        req_read_only = d.req_read_only;
        statements = λ s i.
            StatementContained-trans a.statements m.statements s c.statements (d.statements s i);
      })
