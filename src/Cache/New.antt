-- ===== src/Cache/New.antt =====
-- NewCache of cache.go, with its options and their checks.
use xredis.Prelude.{
  String, Bool, ◌||◌, ◌≡◌, sym, ap, subst, ◌∙◌, Option, none, some, List, [], ◌∷◌, ℤ, pos, ltb_ℤ,
  ◌≤ℤ◌, is_empty, arith, Option-cases, inl, inr, false, if◌then◌else◌,
}
use xredis.Errors.{Error, invalid_cache, invalid_ttl, invalid_cache_marker}
use xredis.Exec.{Result, ok, err, fail}
use xredis.Exec.Invert.{Result-cases}
use xredis.Codec.{Codec}
use xredis.Client.{Client, Topology}
use xredis.Cache.{Cache, default_cache_is_not_found}

pub record CacheOptions (T : Type 0) : Type 0 where
  pub prefix : String
  pub ttl : ℤ
  pub jitter : ℤ
  pub negative_ttl : ℤ
  pub negative_marker : String
  pub codec : Codec T
  pub is_not_found : Error → Bool

module _ {T : Type 0} where
  -- WithCacheCodec and WithCacheNotFound skip nil; the others set their field
  unfoldable pub with_cache_prefix : String → CacheOptions T → CacheOptions T
  with_cache_prefix prefix opts = record opts { prefix = prefix }

  unfoldable pub with_cache_ttl : ℤ → CacheOptions T → CacheOptions T
  with_cache_ttl ttl opts = record opts { ttl = ttl }

  unfoldable pub with_cache_jitter : ℤ → CacheOptions T → CacheOptions T
  with_cache_jitter jitter opts = record opts { jitter = jitter }

  unfoldable pub with_cache_negative_ttl : ℤ → CacheOptions T → CacheOptions T
  with_cache_negative_ttl ttl opts = record opts { negative_ttl = ttl }

  unfoldable pub with_cache_codec : Option (Codec T) → CacheOptions T → CacheOptions T
  with_cache_codec none opts = opts
  with_cache_codec (some codec) opts = record opts { codec = codec }

  unfoldable pub with_cache_not_found : Option (Error → Bool) → CacheOptions T → CacheOptions T
  with_cache_not_found none opts = opts
  with_cache_not_found (some fn) opts = record opts { is_not_found = fn }

  unfoldable pub with_cache_negative_marker : String → CacheOptions T → CacheOptions T
  with_cache_negative_marker marker opts = record opts { negative_marker = marker }

  abbrev apply_options :
      CacheOptions T → List (Option (CacheOptions T → CacheOptions T)) → CacheOptions T
  apply_options o [] = o
  apply_options o (none ∷ opts) = apply_options o opts
  apply_options o (some opt ∷ opts) = apply_options (opt o) opts

  unfoldable pub validate_cache_options : Option Client → CacheOptions T → Result Client
  validate_cache_options none opts = fail invalid_cache
  validate_cache_options (some c) opts = elim c.conn [
    | none ↦ fail invalid_cache
    | some t ↦
        if ltb_ℤ opts.ttl (pos 0) || ltb_ℤ opts.jitter (pos 0) || ltb_ℤ opts.negative_ttl (pos 0)
        then fail invalid_ttl
        else if is_empty opts.negative_marker
        then fail invalid_cache_marker
        else ok c
  ]

  abbrev built : Bool → CacheOptions T → Result Client → Result (Cache T)
  built raw options (err e) = err e
  built raw options (ok c) = ok (record {
    client = c;
    prefix = options.prefix;
    ttl = options.ttl;
    jitter = options.jitter;
    negative_ttl = options.negative_ttl;
    negative_marker = options.negative_marker;
    codec = options.codec;
    redis_encoded = raw;
    is_not_found = options.is_not_found;
  })

  abbrev or_json : Codec T → Option (Codec T) → Codec T
  or_json json none = json
  or_json json (some codec) = codec

  -- The options that the constructor ends up with.
  abbrev defaults :
      String
      → Codec T
      → Option (Codec T)
      → List (Option (CacheOptions T → CacheOptions T))
      → CacheOptions T
  defaults zero_byte json client_codec opts =
      apply_options
        (record {
          prefix = "";
          ttl = pos 0;
          jitter = pos 0;
          negative_ttl = pos 0;
          negative_marker = zero_byte;
          codec = or_json json client_codec;
          is_not_found = λ e. default_cache_is_not_found e;
        })
        opts

  -- NewCache; `concrete` is what validateConcreteType says of the type, `raw` what isRawValueType
  -- says, and `zero_byte` the default marker
  unfoldable pub new_cache :
      Result (Unit {0})
      → Bool
      → String
      → Codec T
      → Option (Codec T)
      → Option Client
      → List (Option (CacheOptions T → CacheOptions T))
      → Result (Cache T)
  unfolding validate_cache_options
  new_cache (err e) raw zero_byte json client_codec client opts = err e
  new_cache (ok u) raw zero_byte json client_codec client opts =
      let options = defaults zero_byte json client_codec opts in
      built raw options (validate_cache_options client options)

-- What a cache relies on: a connected client, no negative duration, and a marker.
pub record IsValid {T : Type 0} (c : Cache T) : Type 0 where
  pub connection : (t : Topology) × (c.client.conn ≡ some t)
  pub ttl : pos 0 ≤ℤ c.ttl
  pub jitter : pos 0 ≤ℤ c.jitter
  pub negative_ttl : pos 0 ≤ℤ c.negative_ttl
  pub marker : is_empty c.negative_marker ≡ false

checked_options :
    {T : Type 0} (client : Option Client) (opts : CacheOptions T) (c : Client)
    → validate_cache_options client opts ≡ ok c
    → ((t : Topology) × (c.conn ≡ some t))
      × (pos 0 ≤ℤ opts.ttl)
      × (pos 0 ≤ℤ opts.jitter)
      × (pos 0 ≤ℤ opts.negative_ttl)
      × (is_empty opts.negative_marker ≡ false)
unfolding validate_cache_options
checked_options none opts c h = absurd (ground arith)
checked_options (some d) opts c h = elim (Option-cases d.conn) [
  | inl p ↦ absurd (ground arith)
  | inr (t, p) ↦ ((t, ground arith), ground arith, ground arith, ground arith, ground arith)
]

unwrap : {A : Type 0} → A → Result A → A
unwrap a (ok b) = b
unwrap a (err e) = a

-- A cache that NewCache returns is valid, whatever options it was given, in whatever order: its
-- client is connected, its ttl, jitter and negative ttl are not negative, and its negative marker is
-- not empty.
pub new_cache-IsValid :
    {T : Type 0} (concrete : Result (Unit {0})) (raw : Bool) (zero_byte : String) (json : Codec T)
    (client_codec : Option (Codec T)) (client : Option Client)
    (opts : List (Option (CacheOptions T → CacheOptions T))) (c : Cache T)
    → new_cache concrete raw zero_byte json client_codec client opts ≡ ok c
    → IsValid c
unfolding new_cache unwrap
new_cache-IsValid (err e) raw zero_byte json client_codec client opts c h = absurd (ground arith)
new_cache-IsValid {T} (ok u) raw zero_byte json client_codec client opts c h =
    let options = defaults zero_byte json client_codec opts in
    elim (Result-cases (validate_cache_options client options)) [
      | inl (d, p) ↦
          let (conn, t, j, n, m) = checked_options client options d p in
          let made : built raw options (ok d) ≡ ok c = sym (ap (λ q. built raw options q) p) ∙ h in
          subst (λ (x : Cache T). IsValid x) (λ i. unwrap c (made i))
            (record { connection = conn; ttl = t; jitter = j; negative_ttl = n; marker = m })
      | inr (e, p) ↦ absurd (ground arith)
    ]
