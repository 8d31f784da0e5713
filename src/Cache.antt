-- ===== src/Cache.antt =====
-- cache.go: a typed cache with negative entries and a loader that concurrent calls share. A method
-- is an action on the `World`. Values of the types that go-redis encodes itself go through `Native`,
-- all others through a codec; both are parameters, and so are the number that rand.N draws and what
-- singleflight makes of a call, `Flight`. A cache comes from NewCache, so its client is connected.
pub mod New
pub mod Entries
pub mod Stores
pub mod Loads
use xredis.Prelude.{
  String, append, Bool, true, false, ◌||◌, Option, none, some, List, [], ◌∷◌, ℤ, pos, ◌+ℤ◌, ltb_ℤ,
  leb_ℤ, eqb_ℤ, str_eq, is_empty, if◌then◌else◌,
}
use xredis.Errors.{
  Error, known, wrap, wrap2, errors_is, redis_nil, key_not_found, cache_load, invalid_cache,
  invalid_ttl, invalid_cache_marker, invalid_cache_loader,
}
use xredis.Exec.{Exec, Result, ok, err, fail, pure, lift, ask, ◌>>=◌, ◌>>◌}
use xredis.Redis.{Redis}
use xredis.Time.{wrap64}
use xredis.Codec.{Codec, Native}
use xredis.Client.{
  Client, World, round_trip, measure, record_cache_request, record_cache_loader_duration,
  record_cache_singleflight_shared, CacheOperation, get, get_or_load, CacheResult, hit, miss,
  negative_hit, cache_error, LoaderOutcome, loaded, not_found, loader_error, cache_request,
  cache_loader, singleflight_shared,
}

pub record Cache (T : Type 0) : Type 0 where
  pub client : Client
  pub prefix : String
  pub ttl : ℤ
  pub jitter : ℤ
  pub negative_ttl : ℤ
  pub negative_marker : String
  pub codec : Codec T
  pub redis_encoded : Bool
  pub is_not_found : Error → Bool

-- cacheState, with the value of a hit
pub data CacheState (T : Type 0) : Type 0 where
  cache_miss cache_negative : CacheState T
  cache_hit : T → CacheState T

-- How singleflight and the caller's context settle a call of GetOrLoad: it runs the load itself and
-- others may share it; it gets the result of another call's load; or its context ends first, while
-- its own load goes on, or another's.
pub data Flight (T : Type 0) : Type 0 where
  led : Bool → Flight T
  joined : Result T → Flight T
  left_own : Error → Flight T
  left_other : Error → Flight T

unfoldable pub default_cache_is_not_found : Error → Bool
unfolding errors_is
default_cache_is_not_found e = errors_is e key_not_found || errors_is e redis_nil

unfoldable pub normalize_cache_not_found : Error → Error
unfolding errors_is
normalize_cache_not_found e = if errors_is e key_not_found then e else wrap2 (known key_not_found) e

module _ {T : Type 0} where
  abbrev pub metric_result : CacheState T → CacheResult
  metric_result (cache_hit v) = hit
  metric_result cache_miss = miss
  metric_result cache_negative = negative_hit

  abbrev pub cache_key : Cache T → String → String
  cache_key c key = append c.prefix key

  -- ttl + rand.N(jitter), where `drawn` is the random number
  unfoldable pub expiration : Cache T → ℤ → ℤ → ℤ
  expiration c drawn ttl =
      if eqb_ℤ ttl (pos 0) || eqb_ℤ c.jitter (pos 0) then ttl else wrap64 (ttl +ℤ drawn)

  abbrev pub encode : Native T → Cache T → T → Result String
  encode native c value = if c.redis_encoded then ok (native.write value) else c.codec.marshal value

  abbrev pub decode : Native T → Cache T → String → Result T
  decode native c stored = if c.redis_encoded then native.scan stored else c.codec.unmarshal stored

  abbrev pub entry_of : Native T → Cache T → Option String → Result (CacheState T)
  entry_of native c none = ok cache_miss
  entry_of native c (some stored) =
      if str_eq stored c.negative_marker
      then ok cache_negative
      else elim (decode native c stored) [ err e ↦ err e | ok v ↦ ok (cache_hit v) ]

  abbrev pub result_of : Result (CacheState T) → CacheResult
  result_of (ok s) = metric_result s
  result_of (err e) = cache_error

  abbrev pub value_of : Result (CacheState T) → Result (Option T)
  value_of (ok (cache_hit v)) = ok (some v)
  value_of (ok cache_miss) = ok none
  value_of (ok cache_negative) = ok none
  value_of (err e) = err e

  abbrev pub outcome_of : Cache T → Result T → LoaderOutcome
  outcome_of c (ok v) = loaded
  outcome_of c (err e) = if c.is_not_found e then not_found else loader_error

module _ (r : Redis) {T : Type 0} (native : Native T) where
  open r use {State, set, del, ttl_arg}

  -- (*Cache).get
  unfoldable pub get_entry : Cache T → String → Exec (World State) (CacheState T)
  get_entry c key = do
    stored ← round_trip (ask (λ s. r.get s (cache_key c key)))
    lift (entry_of native c stored)

  -- Get, with the recording that it defers
  unfoldable pub get_cached : Cache T → String → Exec (World State) (Option T)
  unfolding get_entry
  get_cached c key w =
      let q = get_entry c key w in
      (value_of q.0, record_cache_request c.client get (result_of q.0) q.1)

  -- Set
  unfoldable pub set_cached : ℤ → Cache T → String → T → Exec (World State) (Unit {0})
  unfolding expiration
  set_cached drawn c key value = do
    encoded ← lift (encode native c value)
    round_trip (set (cache_key c key) encoded (ttl_arg (expiration c drawn c.ttl)))

  -- Delete
  unfoldable pub delete_cached : Cache T → String → Exec (World State) (Unit {0})
  delete_cached c key = do n ← round_trip (del (cache_key c key)); pure tt

  unfoldable pub set_negative : ℤ → Cache T → String → Exec (World State) (Unit {0})
  unfolding expiration
  set_negative drawn c key =
      if leb_ℤ c.negative_ttl (pos 0)
      then pure tt
      else round_trip
          (set (cache_key c key) c.negative_marker (ttl_arg (expiration c drawn c.negative_ttl)))

  unfoldable pub run_loader : Cache T → Exec (World State) T → Exec (World State) T
  run_loader c loader w =
      let q = loader w in (q.0, record_cache_loader_duration c.client (outcome_of c q.0) q.1)

  -- `fmt.Errorf("text: %w", err)` around the error of a request
  abbrev pub wrapping :
      {A : Type 0} → String → A → Exec (World State) (Unit {0}) → Exec (World State) A
  wrapping text a m w = elim (m w).0 [
    | ok u ↦ (ok a, (m w).1)
    | err e ↦ (err (wrap text e), (m w).1)
  ]

  -- `return zero, err`
  abbrev pub then_fail : Error → Exec (World State) (Unit {0}) → Exec (World State) T
  then_fail e m w = elim (m w).0 [ ok u ↦ (err e, (m w).1) | err x ↦ (err x, (m w).1) ]

  -- What load does with the loader's result.
  unfoldable pub store_loaded : ℤ → Cache T → String → Result T → Exec (World State) T
  unfolding set_cached set_negative normalize_cache_not_found
  store_loaded drawn c key (ok value) =
      wrapping "store cache value" value (set_cached drawn c key value)
  store_loaded drawn c key (err e) =
      if c.is_not_found e
      then (if leb_ℤ c.negative_ttl (pos 0)
          then lift (err (normalize_cache_not_found e))
          else then_fail (normalize_cache_not_found e)
              (wrapping "store negative cache entry" tt (set_negative drawn c key)))
      else lift (err (wrap2 (known cache_load) e))

  -- (*Cache).load
  unfoldable pub load : ℤ → Cache T → String → Exec (World State) T → Exec (World State) T
  unfolding run_loader store_loaded
  load drawn c key loader w = let q = run_loader c loader w in store_loaded drawn c key q.0 q.1

  abbrev pub note_shared : Cache T → Bool → World State → World State
  note_shared c shared w = if shared then record_cache_singleflight_shared c.client w else w

  -- From `c.group.DoChan`.
  unfoldable pub fly : Flight T → ℤ → Cache T → String → Exec (World State) T → Exec (World State) T
  unfolding load
  fly (led shared) drawn c key loader w =
      let q = load drawn c key loader w in (q.0, note_shared c shared q.1)
  fly (joined result) drawn c key loader w = (result, note_shared c true w)
  fly (left_own e) drawn c key loader w = (err e, (load drawn c key loader w).1)
  fly (left_other e) drawn c key loader w = (err e, w)

  unfoldable pub on_state :
      Flight T
      → ℤ
      → Cache T
      → String
      → Exec (World State) T
      → Result (CacheState T)
      → Exec (World State) T
  unfolding fly
  on_state flight drawn c key loader (err e) = lift (err e)
  on_state flight drawn c key loader (ok (cache_hit v)) = pure v
  on_state flight drawn c key loader (ok cache_negative) = lift (fail key_not_found)
  on_state flight drawn c key loader (ok cache_miss) = fly flight drawn c key loader

  -- GetOrLoad; a nil loader is `none`. The recording is deferred, and reads what the lookup found.
  unfoldable pub get_or_load_cached :
      Flight T → ℤ → Cache T → String → Option (Exec (World State) T) → Exec (World State) T
  unfolding get_entry on_state
  get_or_load_cached flight drawn c key none w =
      (fail invalid_cache_loader, record_cache_request c.client get_or_load cache_error w)
  get_or_load_cached flight drawn c key (some loader) w =
      let q = get_entry c key w in
      let a = on_state flight drawn c key loader q.0 q.1 in
      (a.0, record_cache_request c.client get_or_load (result_of q.0) a.1)

-- Forget; `forget` is Forget of the singleflight group, whose state is `G`
unfoldable pub forget_cached : {T G : Type 0} → (String → G → G) → Cache T → String → G → G
unfolding cache_key
forget_cached forget c key = forget (cache_key c key)
