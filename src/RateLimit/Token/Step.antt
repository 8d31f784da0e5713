-- ===== src/RateLimit/Token/Step.antt =====
-- What the end of the token-bucket script leaves at its key.
use xredis.Prelude.{
  ℕ, ◌+◌, ◌*◌, ◌<◌, ◌≤◌, ◌≡◌, ◌⊎◌, inl, inr, negsuc, refl, sym, ap, ◌∙◌, String, Bool, true, false,
  Option, none, some, List, [], ◌∷◌, ℤ, pos, pos_part, ltb_ℤ, arith, str_eq_iff, if◌then◌else◌,
}
use xredis.Errors.{Error}
use xredis.Exec.{Result, ok, err}
use xredis.Exec.Invert.{Result-cases}
use xredis.Redis.{
  Redis, Entry, Value, str, hash, zset, Any, int64, hget_reply, hmget_reply, bulk, deadline_of,
  with_deadline, fields_of, ok_map, count_new, entry_of_fields, put_fields, or_keep,
}
use xredis.Redis.Fields.{fields_put, hget-fields_put}
use xredis.RateLimit.{Decision, parse_rate_limit_decision}
use xredis.RateLimit.Token.{store_tokens}
use xredis.Redis.Number.{LuaNumber, largest}

pub hmget_pair :
    (f g : String) (e : Option Entry) (a b : Option String)
    → hget_reply f e ≡ ok a
    → hget_reply g e ≡ ok b
    → hmget_reply (f ∷ g ∷ []) e ≡ ok (bulk a ∷ bulk b ∷ [])
hmget_pair f g none a b p q = ground arith
hmget_pair f g (some e) a b p q = go e.value refl
  where
    go : (u : Value) → e.value ≡ u → hmget_reply (f ∷ g ∷ []) (some e) ≡ ok (bulk a ∷ bulk b ∷ [])
    go (str v) h = absurd (ground arith)
    go (zset ms) h = absurd (ground arith)
    go (hash fs) h = ground arith

fields_of-hget :
    (f : String) (e : Option Entry) (a : Option String)
    → hget_reply f e ≡ ok a
    → (fs : List (String × String)) × (fields_of e ≡ ok fs)
fields_of-hget f none a p = ([], refl)
fields_of-hget f (some e) a p = go e.value refl
  where
    go : (u : Value) → e.value ≡ u → (fs : List (String × String)) × (fields_of (some e) ≡ ok fs)
    go (str v) h = absurd (ground arith)
    go (zset ms) h = absurd (ground arith)
    go (hash fs) h = (fs, ground arith)

hget-with_deadline :
    (f : String) (t : Option ℕ) (e : Option Entry)
    → hget_reply f (with_deadline t e) ≡ hget_reply f e
hget-with_deadline f t none = refl
hget-with_deadline f t (some e) = refl

deadline-entry_of_fields :
    (l : List (String × String)) (d : Option ℕ) (t : ℕ)
    → deadline_of (entry_of_fields l d) ≡ some t
    → d ≡ some t
deadline-entry_of_fields [] d t h = absurd (ground arith)
deadline-entry_of_fields (f ∷ fs) d t h = h

put_deadline :
    (new : List (String × String)) (e : Option Entry) (t : ℕ)
    → deadline_of
        (or_keep (λ fs. entry_of_fields (put_fields new fs) (deadline_of e)) (fields_of e) e)
      ≡ some t
    → deadline_of e ≡ some t
put_deadline new e t h = elim (Result-cases (fields_of e)) [
  | inl (fs, p) ↦ deadline-entry_of_fields (put_fields new fs) (deadline_of e) t (rw p at h)
  | inr (x, p) ↦ rw p at h
]

module _ (r : Redis) (lua : LuaNumber) (k : String) where
  open r use {
    State, clock, lookup, show_int, hset, hset_lem, lookup-hset, clock-hset, pexpire, pexpire_lem,
    lookup-pexpire, clock-pexpire, pexpire_number, pexpire_number-cases, pexpire_number_lem,
  }
  open lua use {Number, tostring}

  -- The hash at the key: its tokens, when it was filled up, and the clock.
  pub record Holds (tokens updated_at : Option String) (now : ℕ) (s : State) : Type 0 where
    pub tokens_at : hget_reply "tokens" (lookup s k) ≡ ok tokens
    pub updated : hget_reply "updated_at" (lookup s k) ≡ ok updated_at
    pub at : clock s ≡ now

  -- A deadline that comes after this time.
  abbrev pub Later : State → ℕ → Type 0
  Later s now = (t : ℕ) → deadline_of (lookup s k) ≡ some t → now < t

  -- A deadline that was there before.
  abbrev pub Kept : State → State → Type 0
  Kept s u = (t : ℕ) → deadline_of (lookup u k) ≡ some t → deadline_of (lookup s k) ≡ some t

  filled :
      (v : String) (u : String) (a b : Option String) (now : ℕ) (s : State)
      → Holds a b now s
      → Holds (some v) (some u) now (hset k (("tokens", v) ∷ ("updated_at", u) ∷ []) s).1
  filled v u a b now s h =
      let after : lookup (hset k (("tokens", v) ∷ ("updated_at", u) ∷ []) s).1 k
          ≡ fields_put "tokens" v "updated_at" u (lookup s k) =
        lookup-hset k (("tokens", v) ∷ ("updated_at", u) ∷ []) s k
        ∙ ground (arith, str_eq_iff k k) in
      record {
        tokens_at =
            ap (hget_reply "tokens") after
            ∙ hget-fields_put "tokens" v "updated_at" u "tokens" "tokens" (lookup s k) a
                h.tokens_at;
        updated =
            ap (hget_reply "updated_at") after
            ∙ hget-fields_put "tokens" v "updated_at" u "updated_at" "tokens" (lookup s k) a
                h.tokens_at;
        at = clock-hset k (("tokens", v) ∷ ("updated_at", u) ∷ []) s ∙ h.at;
      }

  lasting :
      (ms : ℕ) (a b : Option String) (now : ℕ) (s : State)
      → 0 < ms
      → Holds a b now s
      → Holds a b now (pexpire k ms s).1 × Later (pexpire k ms s).1 now
  lasting ms a b now s p h =
      let after : lookup (pexpire k ms s).1 k ≡ with_deadline (some (now + ms)) (lookup s k) =
        lookup-pexpire k ms s k p ∙ ground (arith, str_eq_iff k k, h.at) in
      (
        record {
          tokens_at =
              ap (hget_reply "tokens") after
              ∙ hget-with_deadline "tokens" (some (now + ms)) (lookup s k)
              ∙ h.tokens_at;
          updated =
              ap (hget_reply "updated_at") after
              ∙ hget-with_deadline "updated_at" (some (now + ms)) (lookup s k)
              ∙ h.updated;
          at = clock-pexpire k ms s ∙ h.at;
        },
        λ t e. renewed t (lookup s k) (sym (ap deadline_of after) ∙ e),
      )
    where
      renewed :
          (t : ℕ) (e : Option Entry)
          → deadline_of (with_deadline (some (now + ms)) e) ≡ some t
          → now < t
      renewed t none e = absurd (ground arith)
      renewed t (some x) e = ground arith

  hset_lem-IsOk :
      (new : List (String × String)) (s : State) (a : Option String)
      → hget_reply "tokens" (lookup s k) ≡ ok a
      → (n : ℕ) × ((hset k new s).0 ≡ ok n)
  hset_lem-IsOk new s a h =
      let (fs, e) = fields_of-hget "tokens" (lookup s k) a h in
      (_, hset_lem k new s ∙ ap (ok_map (count_new new)) e)

  -- A reply that the client reads as this decision.
  abbrev pub Decides : Bool → Result (List Any) → Type 0
  Decides b q =
      (l : List Any) × (q ≡ ok l)
      × ((d : Decision) × (parse_rate_limit_decision l ≡ ok d) × (d.is_allowed ≡ b))

  decided :
      (b : Bool) (limit remaining retry_after reset_after : ℤ)
      → (d : Decision) × (parse_rate_limit_decision (
            int64 (if b then pos 1 else pos 0)
            ∷ int64 (lua.reply (lua.int limit))
            ∷ int64 remaining
            ∷ int64 retry_after
            ∷ int64 reset_after
            ∷ [])
          ≡ ok d)
        × (d.is_allowed ≡ b)
  unfolding parse_rate_limit_decision
  decided true limit remaining retry_after reset_after = (_, refl, refl)
  decided false limit remaining retry_after reset_after = (_, refl, refl)

  -- HSET leaves the deadline.
  hset-Kept : (new : List (String × String)) (s : State) → Kept s (hset k new s).1
  hset-Kept new s t h =
      let after : lookup (hset k new s).1 k
          ≡ or_keep (λ fs. entry_of_fields (put_fields new fs) (deadline_of (lookup s k)))
              (fields_of (lookup s k)) (lookup s k) =
        lookup-hset k new s k ∙ ground (arith, str_eq_iff k k) in
      put_deadline new (lookup s k) t (sym (ap deadline_of after) ∙ h)

  whole : (z : ℤ) → 0 < pos_part z → z ≡ pos (pos_part z)
  whole (pos n) h = refl
  whole (negsuc n) h = absurd (omega arith)

  -- The time that PEXPIRE is given.
  abbrev ttl_of : ℤ → ℤ → ℤ → Number → ℤ
  ttl_of capacity refill window x =
      let reset =
        if lua.ltb x (lua.int capacity)
        then lua.ceil
            (lua.div (lua.mul (lua.sub (lua.int capacity) x) (lua.int window)) (lua.int refill))
        else pos 0 in
      if ltb_ℤ reset window then window else reset

  ttl_pos :
      (capacity refill window : ℤ) (x : Number)
      → 0 < pos_part window
      → 0 < pos_part (ttl_of capacity refill window x)
  ttl_pos capacity refill window x p = ground arith

  -- What was decided is replied, and the deadline comes later than now; or PEXPIRE was refused, and
  -- with it the script.
  abbrev pub Told : Bool → ℕ → State → Result (List Any) × State → Type 0
  Told b now s q = (Decides b q.0 × Later q.1 now) ⊎ ((e : Error) × (q.0 ≡ err e) × Kept s q.1)

  pub store_tokens-Holds :
      (capacity refill window : ℤ) (b : Bool) (x : Number) (u v : Option String) (now : ℕ)
      (s : State)
      → 0 < pos_part window
      → Holds u v now s
      → Holds
          (some (tostring x))
          (some (show_int (pos now)))
          now
          (store_tokens r lua k capacity refill window (pos now) b x s).1
        × Told b now s (store_tokens r lua k capacity refill window (pos now) b x s)
  unfolding store_tokens
  store_tokens-Holds capacity refill window b x u v now s p h =
      let ttl : ℤ = ttl_of capacity refill window x in
      let up : 0 < pos_part ttl = ttl_pos capacity refill window x p in
      let new : List (String × String) =
        ("tokens", tostring x) ∷ ("updated_at", show_int (pos now)) ∷ [] in
      let s1 : State = (hset k new s).1 in
      let (n, wrote) = hset_lem-IsOk new s u h.tokens_at in
      let held = filled (tostring x) (show_int (pos now)) u v now s h in
      elim (pexpire_number-cases k (pos_part ttl) s1 up) [
        | inl same ↦
            let ran : pexpire_number k ttl s1 ≡ pexpire k (pos_part ttl) s1 =
              ap (λ z. pexpire_number k z s1) (whole ttl up) ∙ same in
            let (still, later) = lasting (pos_part ttl) _ _ now s1 up held in
            rw (wrote, ran, pexpire_lem k (pos_part ttl) s1 up)
              (still, inl ((_, refl, decided b capacity _ _ _), later))
        | inr (e, refused) ↦
            let ran : pexpire_number k ttl s1 ≡ (err e, s1) =
              ap (λ z. pexpire_number k z s1) (whole ttl up) ∙ refused in
            rw (wrote, ran) (held, inr (e, refl, hset-Kept new s))
      ]

  -- PEXPIRE takes a time of at most 14 digits.
  pub store_tokens-Decides :
      (capacity refill window : ℤ) (b : Bool) (x : Number) (u v : Option String) (now : ℕ)
      (s : State)
      → 0 < pos_part window
      → pos_part (ttl_of capacity refill window x) ≤ largest
      → Holds u v now s
      → Decides b (store_tokens r lua k capacity refill window (pos now) b x s).0
  unfolding store_tokens
  store_tokens-Decides capacity refill window b x u v now s p small h =
      let ttl : ℤ = ttl_of capacity refill window x in
      let up : 0 < pos_part ttl = ttl_pos capacity refill window x p in
      let new : List (String × String) =
        ("tokens", tostring x) ∷ ("updated_at", show_int (pos now)) ∷ [] in
      let s1 : State = (hset k new s).1 in
      let (n, wrote) = hset_lem-IsOk new s u h.tokens_at in
      let ran : pexpire_number k ttl s1 ≡ pexpire k (pos_part ttl) s1 =
        ap (λ z. pexpire_number k z s1) (whole ttl up)
        ∙ pexpire_number_lem k (pos_part ttl) s1 up small in
      rw (wrote, ran, pexpire_lem k (pos_part ttl) s1 up) (_, refl, decided b capacity _ _ _)

  -- A bucket that takes at most this long to be filled up from none.
  pub ttl_small :
      (c refill n : ℕ) (x : Number)
      → 1 ≤ c
      → 1 ≤ n
      → 1 ≤ refill
      → n ≤ largest
      → c * n ≤ largest
      → lua.leb (lua.int (pos 0)) x ≡ true
      → lua.leb x (lua.int (pos c)) ≡ true
      → pos_part (ttl_of (pos c) (pos refill) (pos n) x) ≤ largest
  ttl_small c refill n x p o q w small low high =
      let bound = lua.ceil-refill c n refill x p o q small low high in ground (arith, bound)
