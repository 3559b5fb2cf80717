-- ===== src/Core/Policy/Capability/Parse.antt =====
-- What a parsed capability is known to be.
use tinycloud_node.Common.{
  ◌≡◌, List, some, true, false, In, is_empty, any, is_whitespace, contains_byte, starts_with, map,
  ok, >>=-eq-ok, ok_or, ok_or-eq-ok,
}
use tinycloud_node.Common.Classes.{Str, codes, List_eq, Nat_eq}
use tinycloud_node.Common.Sort.{sort, dedup}
use tinycloud_node.Core.Json.{Json, get, and_then}
use tinycloud_node.Core.Policy.Actions.{accepted_actions}
use tinycloud_node.Core.Policy.Paths.{normalize_path}
use tinycloud_node.Core.Policy.Capability.{
  PolicyCapability, reads_sql, check_keys, check_service, check_space, parse_space, parse_path,
  parse_rest, parse_entries, parse,
}
use tinycloud_node.Core.Policy.Capability.Fields.{
  text, check_space-ok, check_service-ok, check_caveats-reads, parse_action_set-In,
  parse_rest-fields, parse_space-ok, parse_action_set-texts,
}

module _ (json : Json) (nfc : Str → Str) where
  open json use {Value, as_object, as_array, as_str}

  -- A capability inside the boundaries: its service is known, its space is concrete, its path is in
  -- normal form, it has actions, all of its service, and a SQL caveat only allows reading.
  pub record IsValid (c : PolicyCapability Value) (raw_path : Str) (accepted : List Str)
      : Type 0 where
    pub service : accepted_actions c.service ≡ some accepted
    pub spaceless : any is_whitespace c.service ≡ false
    pub named_space : is_empty c.space ≡ false
    pub no_star : contains_byte b'*' c.space ≡ false
    pub no_question_mark : contains_byte b'?' c.space ≡ false
    pub no_manifest : starts_with c.space (codes "manifest:") ≡ false
    pub path : normalize_path nfc c.service raw_path ≡ ok c.path
    pub actions : (a : Str) → In a c.actions → In a accepted
    pub some_action : is_empty c.actions ≡ false
    pub sql_reads :
        (v : Value)
        → c.caveats ≡ some v
        → c.service ≡ codes "tinycloud.sql"
        → (a : Str) → In a c.actions
        → reads_sql a ≡ true

  -- The capability has the entries of the object: the texts of the service and the space, the text
  -- from which its path comes, the caveats, and the texts of the actions, sorted and each once.
  pub record IsGiven (input : Value) (c : PolicyCapability Value) (raw_path : Str) : Type 0 where
    pub entries : List (Str × Value)
    pub object : as_object input ≡ some entries
    pub keys : check_keys entries ≡ ok tt
    pub service : text json nfc entries (codes "service") ≡ some c.service
    pub space : text json nfc entries (codes "space") ≡ some c.space
    pub path : text json nfc entries (codes "path") ≡ some raw_path
    pub caveats : get (codes "caveats") entries ≡ c.caveats
    pub values : List Value
    pub raw_actions : List Str
    pub array : and_then (get (codes "actions") entries) as_array ≡ some values
    pub texts : map as_str values ≡ map some raw_actions
    pub actions : dedup (sort raw_actions) ≡ c.actions

  parse_rest-IsValid :
      (entries : List (Str × Value)) (service : Str) (accepted : List Str) (space path raw : Str)
      (c : PolicyCapability Value)
      → parse_rest json nfc entries service accepted space path ≡ ok c
      → (accepted_actions service ≡ some accepted) × (any is_whitespace service ≡ false)
      → check_space space ≡ ok tt
      → normalize_path nfc service raw ≡ ok path
      → IsValid c raw accepted
  parse_rest-IsValid entries service accepted space path raw c h known concrete normal =
      let (e1, e2, e3, _, e, f) =
        parse_rest-fields json nfc entries service accepted space path c h in
      let (inside, filled) = parse_action_set-In json nfc entries accepted c.actions e in
      let (a1, a2, a3, a4) = check_space-ok json nfc c.space (rw (← e2) concrete) in
      record {
        service = rw (← e1) known.0;
        spaceless = rw (← e1) known.1;
        named_space = a1;
        no_star = a2;
        no_question_mark = a3;
        no_manifest = a4;
        path = rw (← e1, ← e3) normal;
        actions = inside;
        some_action = filled;
        sql_reads =
            λ v k sql a m. check_caveats-reads json nfc c.service c.actions v a (rw k at f) sql m;
      }

  -- A capability that parses has the service, the space, the caveats and the actions that the object
  -- gives, whose keys pass their check, and a path that comes from normalising the text of the object's path. Its service is of
  -- the registry and without white space, its space is not empty, has no wildcard and is not of a
  -- manifest, it has at least one action; all its actions are accepted for the service, and with a
  -- SQL caveat they all read.
  pub parse-IsValid :
      (input : Value) (c : PolicyCapability Value)
      → parse json nfc input ≡ ok c
      → (raw_path : Str) × (accepted : List Str) × IsGiven input c raw_path
        × IsValid c raw_path accepted
  unfolding parse parse_entries parse_path
  parse-IsValid input c h =
      let (entries, e, h1) = >>=-eq-ok (ok_or (as_object input) _) _ h in
      let (u, f, h2) = >>=-eq-ok (check_keys entries) _ h1 in
      let (service, g, h3) = >>=-eq-ok (ok_or (text json nfc entries (codes "service")) _) _ h2 in
      let (accepted, k, h4) = >>=-eq-ok (check_service service) _ h3 in
      let (space, l, h5) = >>=-eq-ok (parse_space json nfc entries) _ h4 in
      let (path, m, h6) = >>=-eq-ok (parse_path json nfc entries service) _ h5 in
      let (raw, n, normal) = >>=-eq-ok (ok_or (text json nfc entries (codes "path")) _) _ m in
      let (given, concrete) = parse_space-ok json nfc entries space l in
      let (e1, e2, _, e4, set, _) =
        parse_rest-fields json nfc entries service accepted space path c h6 in
      let (vs, actions, array, texts, sorted) =
        parse_action_set-texts json nfc entries accepted c.actions set in
      (
        raw,
        accepted,
        record {
          entries = entries;
          object = ok_or-eq-ok (as_object input) _ e;
          keys = f;
          service = rw (← e1) (ok_or-eq-ok (text json nfc entries (codes "service")) _ g);
          space = rw (← e2) given;
          path = ok_or-eq-ok (text json nfc entries (codes "path")) _ n;
          caveats = e4;
          values = vs;
          raw_actions = actions;
          array = array;
          texts = texts;
          actions = sorted;
        },
        parse_rest-IsValid entries service accepted space path raw c h6
            (check_service-ok json nfc service accepted k) concrete normal,
      )
