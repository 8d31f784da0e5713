-- ===== src/Redis/Fields.antt =====
-- Reading a hash field after the field updates of the interface.
use xredis.Prelude.{
  ℕ, refl, Option, ◌≡◌, String, none, some, List, [], ◌∷◌, arith, str_eq, str_eq_iff, if◌then◌else◌,
}
use xredis.Exec.{ok}
use xredis.Redis.Data.{
  get_field, put_field, remove_field, Entry, Value, str, hash, zset, hget_reply, or_keep,
  entry_of_fields, fields_of, deadline_of,
}

pub get_field-put_field :
    (f v g : String) (fs : List (String × String))
    → get_field g (put_field f v fs) ≡ (if str_eq f g then some v else get_field g fs)
get_field-put_field f v g [] = ground arith
get_field-put_field f v g ((h, w) ∷ fs) =
    ground (arith, str_eq_iff f g, str_eq_iff h f, str_eq_iff h g, get_field-put_field f v g fs)

pub get_field-remove_field :
    (f g : String) (fs : List (String × String))
    → get_field g (remove_field f fs) ≡ (if str_eq f g then none else get_field g fs)
get_field-remove_field f g [] = ground arith
get_field-remove_field f g ((h, w) ∷ fs) =
    ground (arith, str_eq_iff f g, str_eq_iff h f, str_eq_iff h g, get_field-remove_field f g fs)

-- The entry that HSET leaves for one field, and HDEL.
abbrev pub field_put : String → String → Option Entry → Option Entry
field_put f v e = or_keep (λ fs. entry_of_fields (put_field f v fs) (deadline_of e)) (fields_of e) e

abbrev pub field_removed : String → Option Entry → Option Entry
field_removed f e =
    or_keep (λ fs. entry_of_fields (remove_field f fs) (deadline_of e)) (fields_of e) e

entry-put_field :
    (f v : String) (fs : List (String × String)) (t : Option ℕ)
    → entry_of_fields (put_field f v fs) t
      ≡ some (record { value = hash (put_field f v fs); deadline = t })
entry-put_field f v [] t = refl
entry-put_field f v ((h, w) ∷ fs) t = ground arith

hget-entry_of_fields :
    (g : String) (fs : List (String × String)) (t : Option ℕ)
    → hget_reply g (entry_of_fields fs t) ≡ ok (get_field g fs)
hget-entry_of_fields g [] t = refl
hget-entry_of_fields g (p ∷ fs) t = refl

pub hget-field_put :
    (f v g : String) (e : Option Entry) (c : Option String)
    → hget_reply f e ≡ ok c
    → hget_reply g (field_put f v e) ≡ (if str_eq f g then ok (some v) else hget_reply g e)
hget-field_put f v g none c h = ground arith
hget-field_put f v g (some e) c h = go e.value refl
  where
    go :
        (u : Value)
        → e.value ≡ u
        → hget_reply g (field_put f v (some e))
          ≡ (if str_eq f g then ok (some v) else hget_reply g (some e))
    go (str s) p = ground arith
    go (zset ms) p = ground arith
    go (hash fs) p = ground (arith, entry-put_field f v fs e.deadline, get_field-put_field f v g fs)

pub deadline-field_put :
    (f v : String) (e : Option Entry) → deadline_of (field_put f v e) ≡ deadline_of e
deadline-field_put f v none = refl
deadline-field_put f v (some e) = go e.value refl
  where
    go : (u : Value) → e.value ≡ u → deadline_of (field_put f v (some e)) ≡ e.deadline
    go (str s) p = ground arith
    go (zset ms) p = ground arith
    go (hash fs) p = ground (arith, entry-put_field f v fs e.deadline)

pub hget-field_removed :
    (f g : String) (e : Option Entry) (c : Option String)
    → hget_reply f e ≡ ok c
    → hget_reply g (field_removed f e) ≡ (if str_eq f g then ok none else hget_reply g e)
hget-field_removed f g none c h = ground arith
hget-field_removed f g (some e) c h = go e.value refl
  where
    go :
        (u : Value)
        → e.value ≡ u
        → hget_reply g (field_removed f (some e))
          ≡ (if str_eq f g then ok none else hget_reply g (some e))
    go (str s) p = ground arith
    go (zset ms) p = ground arith
    go (hash fs) p = ground (
      arith,
      hget-entry_of_fields g (remove_field f fs) e.deadline,
      get_field-remove_field f g fs,
    )

-- The entry that HSET leaves for two fields.
abbrev pub fields_put : String → String → String → String → Option Entry → Option Entry
fields_put f v h u e =
    or_keep (λ fs. entry_of_fields (put_field h u (put_field f v fs)) (deadline_of e)) (fields_of e)
      e

pub hget-fields_put :
    (f v h u g x : String) (e : Option Entry) (c : Option String)
    → hget_reply x e ≡ ok c
    → hget_reply g (fields_put f v h u e)
      ≡ (if str_eq h g then ok (some u) else if str_eq f g then ok (some v) else hget_reply g e)
hget-fields_put f v h u g i none c p = ground (
  arith,
  entry-put_field h u (put_field f v []) none,
  get_field-put_field h u g (put_field f v []),
)
hget-fields_put f v h u g i (some e) c p = go e.value refl
  where
    go :
        (x : Value)
        → e.value ≡ x
        → hget_reply g (fields_put f v h u (some e)) ≡ (
            if str_eq h g
            then ok (some u)
            else if str_eq f g
            then ok (some v)
            else hget_reply g (some e))
    go (str s) q = ground arith
    go (zset ms) q = ground arith
    go (hash fs) q = ground (
      arith,
      entry-put_field h u (put_field f v fs) e.deadline,
      get_field-put_field h u g (put_field f v fs),
      get_field-put_field f v g fs,
    )

pub deadline-fields_put :
    (f v h u : String) (e : Option Entry) → deadline_of (fields_put f v h u e) ≡ deadline_of e
deadline-fields_put f v h u none = ground (arith, entry-put_field h u (put_field f v []) none)
deadline-fields_put f v h u (some e) = go e.value refl
  where
    go : (x : Value) → e.value ≡ x → deadline_of (fields_put f v h u (some e)) ≡ e.deadline
    go (str s) q = ground arith
    go (zset ms) q = ground arith
    go (hash fs) q = ground (arith, entry-put_field h u (put_field f v fs) e.deadline)

-- Two fields that are written are there.
pub fields_put-some :
    (f v h u x : String) (e : Option Entry) (c : Option String)
    → hget_reply x e ≡ ok c
    → (new : Entry) × (fields_put f v h u e ≡ some new)
fields_put-some f v h u x none c p = (_, entry-put_field h u (put_field f v []) none)
fields_put-some f v h u x (some e) c p = go e.value refl
  where
    go : (y : Value) → e.value ≡ y → (new : Entry) × (fields_put f v h u (some e) ≡ some new)
    go (str s) q = absurd (ground arith)
    go (zset ms) q = absurd (ground arith)
    go (hash fs) q = (
      record { value = hash (put_field h u (put_field f v fs)); deadline = e.deadline },
      ground (arith, entry-put_field h u (put_field f v fs) e.deadline),
    )
