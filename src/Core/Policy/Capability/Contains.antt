-- ===== src/Core/Policy/Capability/Contains.antt =====
-- When a capability contains another.
use tinycloud_node.Common.{
  ◌≡◌, refl, sym, ◌∙◌, inl, inr, List, Option, none, some, true, arith, Bool-cases, In, all-In,
  all_of_In, contains, contains→In, In→contains, ok, >>=-eq-ok, ok_unique,
}
use tinycloud_node.Common.Classes.{◌==◌, Str, codes, List_eq, Nat_eq, eq→≡, list_eq_iff}
use tinycloud_node.Core.Json.{Json}
use tinycloud_node.Auth.Registry as AuthRegistry
use tinycloud_node.Auth.Ability.Closure.{Grants, expand_actions_iff}
use tinycloud_node.Auth.Ability.Fuel.{expand_actions_total}
use tinycloud_node.Auth.Ability.Laws.{Grants-trans}
use tinycloud_node.Auth.Ability.Paths.{Covers, path_contains_iff, Covers-trans}
use tinycloud_node.Core.Policy.Registry.{resolve_alias}
use tinycloud_node.Core.Policy.Actions.{path_contains}
use tinycloud_node.Core.Policy.Actions.Agree.{
  resolve_alias_agree, expand_actions_agree, path_contains_agree,
}
use tinycloud_node.Core.Policy.SqlCaveat
use tinycloud_node.Core.Policy.SqlCaveat.{SqlConstrainedStatementCaveat}
use tinycloud_node.Core.Policy.SqlCaveat.Contains
use tinycloud_node.Core.Policy.Capability.{
  PolicyCapability, actions_granted, sql_caveats_contained, caveats_contained, capability_contains,
}

-- Each requested action is granted, in its canonical form, by a held one.
abbrev ActionsGranted : List Str → List Str → Type 0
ActionsGranted held requested =
    (a : Str) → In a requested → (h : Str) × In h held × Grants h (AuthRegistry.resolve_alias a)

module _ (json : Json) where
  open json use {Value}

  actions_granted_sound :
      (held requested : List Str)
      → actions_granted json held requested ≡ true
      → ActionsGranted held requested
  unfolding actions_granted
  actions_granted_sound held requested h a m =
      let (set, e) = expand_actions_total held in
      let e' = expand_actions_agree held ∙ e in
      let t : contains set (resolve_alias a) ≡ true =
        all-In (λ a. contains set (resolve_alias a)) requested a (rw (e', actions_granted) at h)
          m in
      (expand_actions_iff held set (AuthRegistry.resolve_alias a) e).0
        (rw (resolve_alias_agree a) at (contains→In set (resolve_alias a) t))

  actions_granted_complete :
      (held requested : List Str)
      → ActionsGranted held requested
      → actions_granted json held requested ≡ true
  unfolding actions_granted
  actions_granted_complete held requested g =
      let (set, e) = expand_actions_total held in
      rw (expand_actions_agree held ∙ e, actions_granted)
        (all_of_In (λ a. contains set (resolve_alias a)) requested
          λ a m. In→contains set (resolve_alias a) (
            rw (resolve_alias_agree a)
              ((expand_actions_iff held set (AuthRegistry.resolve_alias a) e).1 (g a m))))

  -- The request keeps the caveat of a capability that has one; for SQL it narrows it.
  abbrev CaveatsContained : Str → Option Value → Option Value → Type 0
  CaveatsContained service none req = Unit
  CaveatsContained service (some a) none = ⊥
  CaveatsContained service (some a) (some r) =
      (service ≡ codes "tinycloud.sql"
        → (p : SqlConstrainedStatementCaveat Value) × (q : SqlConstrainedStatementCaveat Value)
          × (SqlCaveat.parse json a ≡ ok p)
          × (SqlCaveat.parse json r ≡ ok q)
          × (SqlCaveat.contains json p q ≡ ok tt))

  caveats_contained_sound :
      (service : Str) (a r : Option Value)
      → caveats_contained json service a r ≡ ok tt
      → CaveatsContained service a r
  unfolding caveats_contained
  caveats_contained_sound service none r h = tt
  caveats_contained_sound service (some a) none h = cc
  caveats_contained_sound service (some a) (some r) h = λ sql.
      let k : sql_caveats_contained json a r ≡ ok tt =
        rw ((list_eq_iff service (codes "tinycloud.sql")).1 sql, caveats_contained) at h in
      let (p, e, k1) = >>=-eq-ok (SqlCaveat.parse json a) _ k in
      let (q, f, k2) = >>=-eq-ok (SqlCaveat.parse json r) _ k1 in (p, q, e, f, k2)

  caveats_contained_complete :
      (service : Str) (a r : Option Value)
      → CaveatsContained service a r
      → caveats_contained json service a r ≡ ok tt
  unfolding caveats_contained
  caveats_contained_complete service none r c = refl
  caveats_contained_complete service (some a) none c = absurd c
  caveats_contained_complete service (some a) (some r) c =
      elim (Bool-cases (service == codes "tinycloud.sql")) [
        | inl e ↦
            let (p, q, f, g, h) = c (eq→≡ service (codes "tinycloud.sql") e) in
            rw (e, caveats_contained, sql_caveats_contained, f, g) h
        | inr e ↦ rw (e, caveats_contained)
      ]

  pub record Contained (self req : PolicyCapability Value) : Type 0 where
    pub service : self.service ≡ req.service
    pub space : self.space ≡ req.space
    pub path : Covers self.service self.path req.path
    pub actions : ActionsGranted self.actions req.actions
    pub caveats : CaveatsContained self.service self.caveats req.caveats

  contains-Contained :
      (self req : PolicyCapability Value)
      → capability_contains json self req ≡ ok tt
      → Contained self req
  unfolding capability_contains
  contains-Contained self req h =
      let s : (self.service == req.service) ≡ true = ground arith in
      let t : (self.space == req.space) ≡ true = ground arith in
      let p : path_contains self.service self.path req.path ≡ true = ground arith in
      let a : actions_granted json self.actions req.actions ≡ true = ground arith in
      let c : caveats_contained json self.service self.caveats req.caveats ≡ ok tt = ground arith in
      record {
        service = eq→≡ self.service req.service s;
        space = eq→≡ self.space req.space t;
        path =
            (path_contains_iff self.service self.path req.path).0
              (sym (path_contains_agree self.service self.path req.path) ∙ p);
        actions = actions_granted_sound self.actions req.actions a;
        caveats = caveats_contained_sound self.service self.caveats req.caveats c;
      }

  Contained-contains :
      (self req : PolicyCapability Value)
      → Contained self req
      → capability_contains json self req ≡ ok tt
  unfolding capability_contains
  Contained-contains self req c =
      rw
        (
          (list_eq_iff self.service req.service).1 c.service,
          (list_eq_iff self.space req.space).1 c.space,
          path_contains_agree self.service self.path req.path
              ∙ (path_contains_iff self.service self.path req.path).1 c.path,
          actions_granted_complete self.actions req.actions c.actions,
        )
        (caveats_contained_complete self.service self.caveats req.caveats c.caveats)

  CaveatsContained-trans :
      (service : Str) (a m r : Option Value)
      → CaveatsContained service a m
      → CaveatsContained service m r
      → CaveatsContained service a r
  CaveatsContained-trans service none m r c d = tt
  CaveatsContained-trans service (some a) none r c d = absurd c
  CaveatsContained-trans service (some a) (some m) none c d = absurd d
  CaveatsContained-trans service (some a) (some m) (some r) c d = λ sql.
      let (p, q, e, f, h) = c sql in
      let (q', s, f', g, k) = d sql in
      let same = ok_unique (SqlCaveat.parse json m) f f' in
      (p, s, e, g, Contains.contains_trans json p q s h (rw same k))

  -- Containment is transitive, so a chain of narrowing steps is one.
  pub capability_contains_trans :
      (a m r : PolicyCapability Value)
      → capability_contains json a m ≡ ok tt
      → capability_contains json m r ≡ ok tt
      → capability_contains json a r ≡ ok tt
  capability_contains_trans a m r h k =
      let c = contains-Contained a m h in
      let d = contains-Contained m r k in
      Contained-contains a r (record {
        service = c.service ∙ d.service;
        space = c.space ∙ d.space;
        path = Covers-trans a.service a.path m.path r.path c.path (rw (← c.service) at d.path);
        actions = λ a i.
            let (h_m, j, g) = d.actions a i in
            let (h, k', f) = c.actions h_m j in (h, k', Grants-trans f refl g);
        caveats =
            CaveatsContained-trans a.service a.caveats m.caveats r.caveats c.caveats
              (rw (← c.service) at d.caveats);
      })
