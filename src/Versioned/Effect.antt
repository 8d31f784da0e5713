-- ===== src/Versioned/Effect.antt =====
-- What the scripts of cas_versioned.go reply, and what they leave in the revision field.
use xredis.Prelude.{
  ℕ, ◌==◌, ◌+◌, ◌<◌, ◌≡◌, refl, inl, inr, String, true, false, Option, none, some, [], ◌∷◌, ℤ, pos,
  negsuc, pos_part, arith, Option-cases, Bool-cases, eqb_ℤ, ◌-◌, str_eq, str_eq_iff, ◌&&◌, ltb_ℤ,
  if◌then◌else◌, ◌∙◌, ap,
}
use xredis.Exec.{Result, ok}
use xredis.Exec.Invert.{Result-cases}
use xredis.Redis.{
  Redis, Entry, Value, str, hash, zset, hget_reply, hmget_reply, string, with_deadline, count_reply,
  deadline_of, ttl_deadline,
}
use xredis.Redis.Fields.{hget-fields_put, deadline-fields_put, fields_put-some}
use xredis.Cas.{ttl_of}
use xredis.Cas.Effect.{agrees, verdict}
use xredis.Versioned.{
  versioned_create_script, versioned_swap_script, versioned_delete_script, renew, expire,
}

hget-with_deadline :
    (g : String) (t : Option ℕ) (e : Option Entry)
    → hget_reply g (with_deadline t e) ≡ hget_reply g e
hget-with_deadline g t none = refl
hget-with_deadline g t (some e) = refl

hmget-reply :
    (e : Option Entry) (a b : String)
    → hget_reply "value" e ≡ ok (some a)
    → hget_reply "revision" e ≡ ok (some b)
    → hmget_reply ("value" ∷ "revision" ∷ []) e ≡ ok (string a ∷ string b ∷ [])
hmget-reply none a b p q = absurd (ground arith)
hmget-reply (some e) a b p q = go e.value refl
  where
    go :
        (v : Value)
        → e.value ≡ v
        → hmget_reply ("value" ∷ "revision" ∷ []) (some e) ≡ ok (string a ∷ string b ∷ [])
    go (str v) h = absurd (ground arith)
    go (zset v) h = absurd (ground arith)
    go (hash fs) h = ground arith

above_zero : (n : ℤ) → ltb_ℤ (pos 0) n ≡ true → 0 < pos_part n
above_zero (pos n) h = ground arith
above_zero (negsuc n) h = absurd (ground arith)

module _ (r : Redis) where
  open r use {
    State, lookup, clock, hget_lem, exists_lem, hset_lem, lookup-hset, del_lem, lookup-del, pexpire,
    pexpire_lem, lookup-pexpire, persist, lookup-persist, persist-IsOk, clock-hset, hmget_lem,
  }

  -- A field of the hash at a key.
  abbrev pub field_at : String → State → String → Result (Option String)
  field_at g s k = hget_reply g (lookup s k)

  -- PEXPIRE and PERSIST leave the fields.
  field_at-pexpire :
      (k : String) (n : ℕ) (s : State) (g j : String)
      → 0 < n
      → field_at g (pexpire k n s).1 j ≡ field_at g s j
  field_at-pexpire k n s g j p =
      ap (hget_reply g) (lookup-pexpire k n s j p)
      ∙ ground (arith, hget-with_deadline g (some (clock s + n)) (lookup s k), str_eq_iff k j)

  field_at-persist :
      (k : String) (s : State) (g j : String) → field_at g (persist k s).1 j ≡ field_at g s j
  field_at-persist k s g j =
      ap (hget_reply g) (lookup-persist k s j)
      ∙ ground (arith, hget-with_deadline g none (lookup s k), str_eq_iff k j)

  field_at-expire :
      (k : String) (n : ℤ) (s : State) (g j : String)
      → field_at g (expire r k n s).1 j ≡ field_at g s j
  field_at-expire k n s g j = elim (Bool-cases (ltb_ℤ (pos 0) n)) [
    | inl up ↦ rw up (field_at-pexpire k (pos_part n) s g j (above_zero n up))
    | inr low ↦ rw low refl
  ]

  expire-IsOk : (k : String) (n : ℤ) (s : State) → (m : ℕ) × ((expire r k n s).0 ≡ ok m)
  expire-IsOk k n s = elim (Bool-cases (ltb_ℤ (pos 0) n)) [
    | inl up ↦ (count_reply (lookup s k), rw up (pexpire_lem k (pos_part n) s (above_zero n up)))
    | inr low ↦ (0, rw low refl)
  ]

  field_at-renew :
      (k : String) (n : ℤ) (s : State) (g j : String)
      → field_at g (renew r k n s).1 j ≡ field_at g s j
  field_at-renew k n s g j = elim (Bool-cases (ltb_ℤ (pos 0) n)) [
    | inl up ↦ rw up (field_at-pexpire k (pos_part n) s g j (above_zero n up))
    | inr low ↦ elim (Bool-cases (eqb_ℤ n (pos 0))) [
      | inl e ↦ rw (low, e) (field_at-persist k s g j)
      | inr e ↦ rw (low, e) refl
    ]
  ]

  renew-IsOk : (k : String) (n : ℤ) (s : State) → (m : ℕ) × ((renew r k n s).0 ≡ ok m)
  renew-IsOk k n s = elim (Bool-cases (ltb_ℤ (pos 0) n)) [
    | inl up ↦ (count_reply (lookup s k), rw up (pexpire_lem k (pos_part n) s (above_zero n up)))
    | inr low ↦ elim (Bool-cases (eqb_ℤ n (pos 0))) [
      | inl e ↦ let (m, p) = persist-IsOk k s in (m, rw (low, e) p)
      | inr e ↦ (0, rw (low, e) refl)
    ]
  ]

  -- A field after both are written.
  abbrev pub rewritten : String → String → String → Result (Option String) → Result (Option String)
  rewritten d u g old =
      if str_eq "revision" g then ok (some u) else if str_eq "value" g then ok (some d) else old

  field_at-hset :
      (k d u : String) (s : State) (g j : String) (c : Option String)
      → field_at "revision" s k ≡ ok c
      → field_at g (r.hset k (("value", d) ∷ ("revision", u) ∷ []) s).1 j
        ≡ (if str_eq k j then rewritten d u g (field_at g s k) else field_at g s j)
  field_at-hset k d u s g j c h =
      ap (hget_reply g) (lookup-hset k (("value", d) ∷ ("revision", u) ∷ []) s j)
      ∙ ground (arith, hget-fields_put "value" d "revision" u g "revision" (lookup s k) c h)

  deadline-hset :
      (k d u : String) (s : State) (c : Option String)
      → field_at "revision" s k ≡ ok c
      → deadline_of (lookup (r.hset k (("value", d) ∷ ("revision", u) ∷ []) s).1 k)
        ≡ deadline_of (lookup s k)
  deadline-hset k d u s c h =
      ap deadline_of (lookup-hset k (("value", d) ∷ ("revision", u) ∷ []) s k)
      ∙ ground (arith, deadline-fields_put "value" d "revision" u (lookup s k), str_eq_iff k k)

  lookup-hset_some :
      (k d u : String) (s : State) (c : Option String)
      → field_at "revision" s k ≡ ok c
      → (e : Entry) × (lookup (r.hset k (("value", d) ∷ ("revision", u) ∷ []) s).1 k ≡ some e)
  lookup-hset_some k d u s c h =
      let (e, p) = fields_put-some "value" d "revision" u "revision" (lookup s k) c h in
      (e, lookup-hset k (("value", d) ∷ ("revision", u) ∷ []) s k ∙ ground (arith, str_eq_iff k k))

  deadline-renew :
      (k : String) (n : ℤ) (s : State) (e : Entry)
      → lookup s k ≡ some e
      → deadline_of (lookup (renew r k n s).1 k) ≡ ttl_deadline (ttl_of n) (clock s) (lookup s k)
  deadline-renew k n s e h = elim (Bool-cases (ltb_ℤ (pos 0) n)) [
    | inl up ↦ rw up (
        ap deadline_of (lookup-pexpire k (pos_part n) s k (above_zero n up))
        ∙ ground (arith, str_eq_iff k k))
    | inr low ↦ elim (Bool-cases (eqb_ℤ n (pos 0))) [
      | inl z ↦ rw (low, z) (ap deadline_of (lookup-persist k s k) ∙ ground (arith, str_eq_iff k k))
      | inr z ↦ rw (low, z) refl
    ]
  ]

  -- What the swap replies, from the revision at the key.
  pub versioned_swap_script_lem :
      (k x d u : String) (n : ℤ) (s : State)
      → (versioned_swap_script r k x d u n s).0 ≡ verdict (field_at "revision" s k) x
  unfolding versioned_swap_script
  versioned_swap_script_lem k x d u n s =
      let (m, e) = renew-IsOk k n (r.hset k (("value", d) ∷ ("revision", u) ∷ []) s).1 in
      ground (arith, hget_lem s k "revision", hset_lem k (("value", d) ∷ ("revision", u) ∷ []) s)

  pub field_at-versioned_swap_script :
      (k x d u : String) (n : ℤ) (s : State) (g j : String)
      → field_at g (versioned_swap_script r k x d u n s).1 j ≡ (
          if agrees (field_at "revision" s k) x && str_eq k j
          then rewritten d u g (field_at g s k)
          else field_at g s j)
  unfolding versioned_swap_script
  field_at-versioned_swap_script k x d u n s g j =
      let next = (r.hset k (("value", d) ∷ ("revision", u) ∷ []) s).1 in
      elim (Result-cases (field_at "revision" s k)) [
        | inl (c, e) ↦ ground (
          arith,
          hget_lem s k "revision",
          hset_lem k (("value", d) ∷ ("revision", u) ∷ []) s,
          field_at-renew k n next g j,
          field_at-hset k d u s g j c e,
        )
        | inr (x, e) ↦ ground (arith, hget_lem s k "revision")
      ]

  -- A swap that does not agree leaves the data set, and one that does the other keys.
  pub versioned_swap_script-kept :
      (k x d u : String) (n : ℤ) (s : State)
      → agrees (field_at "revision" s k) x ≡ false
      → (versioned_swap_script r k x d u n s).1 ≡ s
  unfolding versioned_swap_script
  versioned_swap_script-kept k x d u n s h = elim (Result-cases (field_at "revision" s k)) [
    | inl (c, e) ↦ ground (arith, hget_lem s k "revision")
    | inr (y, e) ↦ ground (arith, hget_lem s k "revision")
  ]

  pub versioned_delete_script_lem :
      (k x : String) (s : State)
      → (versioned_delete_script r k x s).0 ≡ verdict (field_at "revision" s k) x
  unfolding versioned_delete_script
  versioned_delete_script_lem k x s = ground (arith, hget_lem s k "revision", del_lem k s)

  pub lookup-versioned_delete_script :
      (k x : String) (s : State) (j : String)
      → lookup (versioned_delete_script r k x s).1 j
        ≡ (if agrees (field_at "revision" s k) x && str_eq k j then none else lookup s j)
  unfolding versioned_delete_script
  lookup-versioned_delete_script k x s j = ground (arith, hget_lem s k "revision", lookup-del k s j)

  -- What the creation replies and leaves: it writes if the key is not there.
  pub versioned_create_script_lem :
      (k d u : String) (n : ℤ) (s : State)
      → (versioned_create_script r k d u n s).0 ≡ ok (1 - count_reply (lookup s k))
  unfolding versioned_create_script
  versioned_create_script_lem k d u n s = elim (Option-cases (lookup s k)) [
    | inl e ↦
        let (m, p) = expire-IsOk k n (r.hset k (("value", d) ∷ ("revision", u) ∷ []) s).1 in
        rw (exists_lem s k, e, hset_lem k (("value", d) ∷ ("revision", u) ∷ []) s, e, p) refl
    | inr (old, e) ↦ ground (arith, exists_lem s k)
  ]

  pub field_at-versioned_create_script :
      (k d u : String) (n : ℤ) (s : State) (g j : String)
      → field_at g (versioned_create_script r k d u n s).1 j ≡ (
          if (count_reply (lookup s k) == 0) && str_eq k j
          then rewritten d u g (ok none)
          else field_at g s j)
  unfolding versioned_create_script
  field_at-versioned_create_script k d u n s g j =
      let next = (r.hset k (("value", d) ∷ ("revision", u) ∷ []) s).1 in
      elim (Option-cases (lookup s k)) [
        | inl e ↦
            let (m, p) = expire-IsOk k n next in
            let there : field_at "revision" s k ≡ ok none = rw e refl in
            rw (exists_lem s k, e, hset_lem k (("value", d) ∷ ("revision", u) ∷ []) s, e, p)
              (ground (arith, field_at-expire k n next g j, field_at-hset k d u s g j none there))
        | inr (old, e) ↦ ground (arith, exists_lem s k)
      ]

  -- The expiration after a swap that agrees: as SET with these arguments leaves it.
  pub deadline-versioned_swap_script :
      (k x d u : String) (n : ℤ) (s : State)
      → agrees (field_at "revision" s k) x ≡ true
      → deadline_of (lookup (versioned_swap_script r k x d u n s).1 k)
        ≡ ttl_deadline (ttl_of n) (clock s) (lookup s k)
  unfolding versioned_swap_script
  deadline-versioned_swap_script k x d u n s h =
      let next = (r.hset k (("value", d) ∷ ("revision", u) ∷ []) s).1 in
      elim (Result-cases (field_at "revision" s k)) [
        | inl (c, e) ↦
            let (new, there) = lookup-hset_some k d u s c e in
            ground (
              arith,
              hget_lem s k "revision",
              hset_lem k (("value", d) ∷ ("revision", u) ∷ []) s,
              deadline-renew k n next new there,
              deadline-hset k d u s c e,
              clock-hset k (("value", d) ∷ ("revision", u) ∷ []) s,
            )
        | inr (y, e) ↦ absurd (ground arith)
      ]

  -- HMGET of the two fields, from the fields.
  pub hmget-field_at :
      (s : State) (k a b : String)
      → field_at "value" s k ≡ ok (some a)
      → field_at "revision" s k ≡ ok (some b)
      → r.hmget s k ("value" ∷ "revision" ∷ []) ≡ ok (string a ∷ string b ∷ [])
  hmget-field_at s k a b p q =
      hmget_lem s k ("value" ∷ "revision" ∷ []) ∙ hmget-reply (lookup s k) a b p q
