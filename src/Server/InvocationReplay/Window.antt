-- ===== src/Server/InvocationReplay/Window.antt =====
-- A key is refused until its entry expires, and accepted again afterwards.
use tinycloud_node.Common.{
  ℕ, ◌≤◌, ◌<◌, ◌≡◌, refl, ◌∙◌, ap, List, [], ◌∷◌, some, true, arith, inl, inr, In, filter-In,
  Bool-cases, Option-cases, ltb, ok, err,
}
use tinycloud_node.Common.Classes.{◌==◌, Str, List_eq, Nat_eq, eq→≡}
use tinycloud_node.Common.Maps.{get, get-put_same, get-put_other}
use tinycloud_node.Server.InvocationReplay.{duplicate, retain, check_and_insert_key}

-- A call with its key, the expiry of its entry, and its time.
pub record Call : Type 0 where
  pub key : Str
  pub expires_at : ℕ
  pub now : ℕ

-- The cache after a sequence of calls.
unfoldable pub after : List Call → List (Str × ℕ) → List (Str × ℕ)
unfolding check_and_insert_key
after [] seen = seen
after (c ∷ calls) seen = after calls (check_and_insert_key c.key c.expires_at c.now seen).1

-- An entry that is not expired stays.
retain-get :
    (key : Str) (e now : ℕ) (seen : List (Str × ℕ))
    → get key seen ≡ some e
    → now < e
    → get key (retain now seen) ≡ some e
unfolding retain get
retain-get key e now [] h later = absurd (ground (arith, h))
retain-get key e now ((k, f) ∷ seen) h later = elim (Bool-cases (k == key)) [
  | inl s ↦
      let q : f ≡ e = ground (arith, h, s) in
      let t : ltb now f ≡ true = ground (arith, q) in rw (t, s) (ap some q)
  | inr s ↦
      let h' : get key seen ≡ some e = ground (arith, h, s) in
      let rest = retain-get key e now seen h' later in
      elim (Bool-cases (ltb now f)) [ inl t ↦ rw (t, get, s) rest | inr t ↦ rw t rest ]
]

-- A call before an entry expires leaves it.
check_and_insert_key_kept :
    (c : Call) (key : Str) (e : ℕ) (seen : List (Str × ℕ))
    → get key seen ≡ some e
    → c.now < e
    → get key (check_and_insert_key c.key c.expires_at c.now seen).1 ≡ some e
unfolding check_and_insert_key
check_and_insert_key_kept c key e seen h later =
    let kept = retain-get key e c.now seen h later in
    elim (Option-cases (get c.key (retain c.now seen))) [
      | inr (f, g) ↦ rw (g, check_and_insert_key) kept
      | inl g ↦ elim (Bool-cases (c.key == key)) [
        | inl s ↦
            let same : get c.key (retain c.now seen) ≡ get key (retain c.now seen) =
              ap (λ x. get x (retain c.now seen)) (eq→≡ c.key key s) in
            absurd (ground (arith, same, g, kept))
        | inr s ↦
            rw (g, check_and_insert_key)
              (get-put_other c.key key c.expires_at (retain c.now seen) s ∙ kept)
      ]
    ]

after_kept :
    (calls : List Call) (key : Str) (e : ℕ) (seen : List (Str × ℕ))
    → get key seen ≡ some e
    → ((c : Call) → In c calls → c.now < e)
    → get key (after calls seen) ≡ some e
unfolding after
after_kept [] key e seen h early = h
after_kept (c ∷ calls) key e seen h early =
    after_kept calls key e _ (check_and_insert_key_kept c key e seen h (early c (inl refl)))
      (λ d m. early d (inr m))

-- Once a key is accepted it is refused until its entry expires, whatever calls come between before
-- that time.
pub replay_refused :
    (first : Call) (calls : List Call) (expires_at now : ℕ) (seen : List (Str × ℕ))
    → (check_and_insert_key first.key first.expires_at first.now seen).0 ≡ ok tt
    → ((c : Call) → In c calls → c.now < first.expires_at)
    → now < first.expires_at
    → (check_and_insert_key first.key expires_at now
        (after calls (check_and_insert_key first.key first.expires_at first.now seen).1)).0
      ≡ err duplicate
unfolding check_and_insert_key
replay_refused first calls expires_at now seen h early soon =
    elim (Option-cases (get first.key (retain first.now seen))) [
      | inr (f, g) ↦ absurd (ground (arith, g, h))
      | inl g ↦
          let stored = get-put_same first.key first.expires_at (retain first.now seen) in
          let kept = after_kept calls first.key first.expires_at _ stored early in
          let there = retain-get first.key first.expires_at now _ kept soon in
          rw (g, check_and_insert_key, there) refl
    ]

get-In : (key : Str) (e : ℕ) (seen : List (Str × ℕ)) → get key seen ≡ some e → In (key, e) seen
unfolding get
get-In key e [] h = absurd (ground (arith, h))
get-In key e ((k, f) ∷ seen) h = elim (Bool-cases (k == key)) [
  | inl s ↦
      let q : f ≡ e = ground (arith, h, s) in
      let same : k ≡ key = eq→≡ k key s in inl (rw (q, same) refl)
  | inr s ↦ inr (get-In key e seen (ground (arith, h, s)))
]

-- A key whose entries are all expired is accepted.
pub replay_accepted :
    (key : Str) (expires_at now : ℕ) (seen : List (Str × ℕ))
    → ((e : ℕ) → In (key, e) seen → e ≤ now)
    → (check_and_insert_key key expires_at now seen).0 ≡ ok tt
unfolding check_and_insert_key retain
replay_accepted key expires_at now seen old = elim (Option-cases (get key (retain now seen))) [
  | inl g ↦ rw (g, check_and_insert_key) refl
  | inr (e, g) ↦
      let (m, late) = filter-In (λ entry. ltb now entry.1) seen (key, e) (get-In key e _ g) in
      let early = old e m in absurd (ground (arith, late, early))
]
