-- ===== src/Cache/Entries.antt =====
-- Get and Set of cache.go, and the expiration that an entry is given.
use xredis.Prelude.{
  ℕ, zero, suc, ◌+◌, ◌^◌, ◌<◌, ◌≤◌, ◌≡◌, ◌⊎◌, ap, ◌∙◌, inl, inr, refl, false, String, Option, none,
  some, [], ◌+ℤ◌, ℤ, pos, arith, str_eq, str_eq_iff,
}
use xredis.Time.{wrap64}
use xredis.Exec.{ok, ask}
use xredis.Exec.Invert.{Result-cases}
use xredis.Redis.{Redis, get_reply}
use xredis.Client.{World, arrival, round_trip}
use xredis.Client.Strings.{written, got}
use xredis.Client.Trip.{round_trip_ok}
use xredis.Codec.{Native}
use xredis.Cache.{
  Cache, expiration, cache_key, encode, decode, entry_of, get_entry, get_cached, set_cached,
  value_of,
}

zero_or_suc : (n : ℕ) → (n ≡ 0) ⊎ ((k : ℕ) × (n ≡ suc k))
zero_or_suc zero = inl refl
zero_or_suc (suc n) = inr (n, refl)

small_sum : (n d : ℕ) → n + d < 2 ^ 63 → wrap64 (pos n +ℤ pos d) ≡ pos (n + d)
unfolding ◌+ℤ◌
small_sum n d h = ground arith

module _ {T : Type 0} (c : Cache T) (n j drawn : ℕ) where
  -- A cache with a jitter draws a number below it; without one the number is not looked at. If ttl
  -- and jitter stay within an int64, an entry's expiration is at least its ttl and below ttl plus
  -- jitter, or the ttl itself; no ttl stays none, whatever the jitter.
  pub expiration_bounds :
      c.jitter ≡ pos j
      → (j ≡ 0) ⊎ (drawn < j)
      → n + j < 2 ^ 63
      → (m : ℕ) × (expiration c (pos drawn) (pos n) ≡ pos m)
        × (n ≤ m)
        × ((m ≡ n) ⊎ (m < n + j))
        × (n ≡ 0 → m ≡ 0)
        × (0 < n → 0 < m)
  unfolding expiration
  expiration_bounds p (inl z) h = (n, ground arith, omega arith, inl refl, λ e. e, λ e. e)
  expiration_bounds p (inr l) h = elim (zero_or_suc n) [
    | inl z ↦ (n, ground arith, omega arith, inl refl, λ e. e, λ e. e)
    | inr (k, z) ↦ (
      n + drawn,
      ground (arith, small_sum n drawn (omega arith)),
      omega arith,
      inr (omega arith),
      λ e. absurd (omega arith),
      λ e. omega arith,
    )
  ]

-- The same for a ttl that equals a number.
pub drawn_ttl :
    {T : Type 0} (c : Cache T) (n j drawn : ℕ) (t : ℤ)
    → t ≡ pos n
    → c.jitter ≡ pos j
    → (j ≡ 0) ⊎ (drawn < j)
    → n + j < 2 ^ 63
    → (m : ℕ) × (expiration c (pos drawn) t ≡ pos m)
drawn_ttl c n j drawn t e p l h =
    let (m, at, a, b, d, f) = expiration_bounds c n j drawn p l h in
    (m, ap (λ u. expiration c (pos drawn) u) e ∙ at)

-- What an answer of Get says of the string at the key: a value is the decoded string, which is not
-- the marker; no value is no string, or the marker.
abbrev pub Shows : {T : Type 0} → Native T → Cache T → Option String → Option T → Type 0
Shows native c stored none = (stored ≡ none) ⊎ (stored ≡ some c.negative_marker)
Shows native c stored (some v) =
    (e : String) × (stored ≡ some e)
    × (str_eq e c.negative_marker ≡ false)
    × (decode native c e ≡ ok v)

shown :
    {T : Type 0} (native : Native T) (c : Cache T) (x : Option String) (v : Option T)
    → value_of (entry_of native c x) ≡ ok v
    → Shows native c x v
shown native c none none h = inl refl
shown native c none (some v) h = absurd (ground arith)
shown native c (some e) none h = elim (Result-cases (decode native c e)) [
  | inl (v, p) ↦ inr (ground (arith, str_eq_iff e c.negative_marker))
  | inr (x, p) ↦ inr (ground (arith, str_eq_iff e c.negative_marker))
]
shown native c (some e) (some v) h = elim (Result-cases (decode native c e)) [
  | inl (v, p) ↦ (e, refl, ground arith, ground arith)
  | inr (x, p) ↦ absurd (ground arith)
]

module _ (r : Redis) {T : Type 0} (native : Native T) (c : Cache T) (key : String) where
  open r use {State, lookup, clock, ttl_arg, set}

  -- What get makes of the entry, undisturbed.
  pub get_entry_quiet :
      (w : World State) (x : Option String)
      → w.schedule ≡ []
      → get_reply (lookup w.server (cache_key c key)) ≡ ok x
      → get_entry r native c key w ≡ (entry_of native c x, w)
  unfolding get_entry
  get_entry_quiet w x q h = rw (got r (cache_key c key) w x q h) refl

  pub get_cached_quiet :
      (w : World State) (x : Option String)
      → w.schedule ≡ []
      → get_reply (lookup w.server (cache_key c key)) ≡ ok x
      → (get_cached r native c key w).0 ≡ value_of (entry_of native c x)
  unfolding get_cached
  get_cached_quiet w x q h = λ i. value_of (get_entry_quiet w x q h i).0

  marker_free :
      (e : String) (v : T)
      → decode native c e ≡ ok v
      → str_eq e c.negative_marker ≡ false
      → value_of (entry_of native c (some e)) ≡ ok (some v)
  marker_free e v dec m = rw (m, dec) refl

  pub set_cached_lem :
      (drawn : ℤ) (v : T) (e : String) (m : ℕ) (w : World State)
      → encode native c v ≡ ok e
      → expiration c drawn c.ttl ≡ pos m
      → set_cached r native drawn c key v w
        ≡ round_trip (set (cache_key c key) e (ttl_arg (pos m))) w
  unfolding set_cached
  set_cached_lem drawn v e m w enc at = rw (enc, at) refl

  -- What Set stores, Get gives back: undisturbed, with a ttl and a jitter that stay within an int64,
  -- if decoding inverts encoding at this value and the encoded value is not the marker.
  pub get_cached-set_cached :
      (n j drawn : ℕ) (v : T) (e : String) (w : World State)
      → c.ttl ≡ pos n
      → c.jitter ≡ pos j
      → (j ≡ 0) ⊎ (drawn < j)
      → n + j < 2 ^ 63
      → encode native c v ≡ ok e
      → decode native c e ≡ ok v
      → str_eq e c.negative_marker ≡ false
      → w.schedule ≡ []
      → ((set_cached r native (pos drawn) c key v w).0 ≡ ok tt)
        × ((get_cached r native c key (set_cached r native (pos drawn) c key v w).1).0
            ≡ ok (some v))
  get_cached-set_cached n j drawn v e w t p l h enc dec m q =
      let (x, at) = drawn_ttl c n j drawn c.ttl t p l h in
      let (done, quiet, there) = written r (cache_key c key) e x w q in
      rw (set_cached_lem (pos drawn) v e x w enc at) (
        done,
        get_cached_quiet (round_trip (set (cache_key c key) e (ttl_arg (pos x))) w).1 (some e) quiet
              there
            ∙ marker_free e v dec m,
      )

  -- When Get answers, whatever the schedule, its answer is what the string means that the request
  -- found at the prefixed key: a value is the decoded string, which is not the marker; no value is
  -- a free key, or the marker. The data set stays as the request found it.
  pub get_cached-Shows :
      (w : World State) (v : Option T)
      → (get_cached r native c key w).0 ≡ ok v
      → (x : Option String) × (get_reply (lookup (arrival w) (cache_key c key)) ≡ ok x)
        × Shows native c x v
        × ((j : String) → lookup (get_cached r native c key w).1.server j ≡ lookup (arrival w) j)
  unfolding get_cached get_entry
  get_cached-Shows w v h =
      elim (Result-cases (round_trip (ask (λ s. r.get s (cache_key c key))) w).0) [
        | inr (e, p) ↦ absurd (ground arith)
        | inl (x, p) ↦
            let (a, b) = round_trip_ok (ask (λ s. r.get s (cache_key c key))) w x p in
            (
              x,
              ground (arith, r.get_lem (arrival w) (cache_key c key)),
              shown native c x v (ground arith),
              λ k. ground arith,
            )
      ]
