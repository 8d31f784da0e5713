-- ===== src/Cache/Loads.antt =====
-- GetOrLoad of cache.go: when the loader is run, what becomes of its result, and what the next
-- call sees of it.
use xredis.Prelude.{
  ℕ, suc, ◌+◌, ◌^◌, ◌<◌, ◌≡◌, ◌⊎◌, refl, ap, ◌∙◌, Bool, true, false, String, none, some, [], ℤ, pos,
  arith, str_eq, str_eq_iff,
}
use xredis.Errors.{Error, known, wrap2, errors_is, key_not_found, cache_load}
use xredis.Exec.{ok, err, fail, Exec}
use xredis.Redis.{Redis, get_reply}
use xredis.Client.{
  World, get_or_load, measure, cache_request, cache_loader, loader_error, loaded, not_found,
  CacheResult, hit, miss, negative_hit,
}
use xredis.Codec.{Native}
use xredis.Cache.{
  Cache, Flight, led, expiration, cache_key, encode, decode, normalize_cache_not_found, load,
  get_or_load_cached, note_shared, fly, outcome_of, store_loaded, run_loader,
}
use xredis.Cache.Stores.{normalize_cache_not_found_lem, store_loaded_ok, store_loaded_not_found}
use xredis.Cache.Entries.{get_entry_quiet, drawn_ttl}

str_eq_refl : (s : String) → str_eq s s ≡ true
str_eq_refl s = ground (arith, str_eq_iff s s)

module _ (r : Redis) {T : Type 0} (native : Native T) (c : Cache T) (key : String) where
  open r use {State, lookup, clock, ttl_arg, set}

  -- If the key holds a value when an undisturbed GetOrLoad reads it, the value is returned, without
  -- running the loader and whatever other calls are loading, and nothing changes but the metrics.
  pub get_or_load_hit :
      (flight : Flight T) (drawn : ℤ) (loader : Exec (World State) T) (w : World State) (e : String)
      (v : T)
      → w.schedule ≡ []
      → get_reply (lookup w.server (cache_key c key)) ≡ ok (some e)
      → str_eq e c.negative_marker ≡ false
      → decode native c e ≡ ok v
      → get_or_load_cached r native flight drawn c key (some loader) w
        ≡ (ok v, measure c.client (cache_request get_or_load hit) w)
  unfolding get_or_load_cached
  get_or_load_hit flight drawn loader w e v q there m dec =
      rw (get_entry_quiet r native c key w (some e) q there, m, dec) refl

  get_or_load_negative :
      (flight : Flight T) (drawn : ℤ) (loader : Exec (World State) T) (w : World State)
      → w.schedule ≡ []
      → get_reply (lookup w.server (cache_key c key)) ≡ ok (some c.negative_marker)
      → get_or_load_cached r native flight drawn c key (some loader) w
        ≡ (fail key_not_found, measure c.client (cache_request get_or_load negative_hit) w)
  unfolding get_or_load_cached
  get_or_load_negative flight drawn loader w q there =
      rw
        (
          get_entry_quiet r native c key w (some c.negative_marker) q there,
          str_eq_refl c.negative_marker,
        )
        refl

  load_of :
      (drawn : ℤ) (loader : Exec (World State) T) (w : World State)
      → load r native drawn c key loader w
        ≡ store_loaded r native drawn c key
            (loader w).0
            (measure c.client (cache_loader (outcome_of c (loader w).0)) (loader w).1)
  unfolding load run_loader
  load_of drawn loader w = refl

  load_failed :
      (drawn : ℤ) (loader : Exec (World State) T) (w : World State) (e : Error)
      → (loader w).0 ≡ err e
      → c.is_not_found e ≡ false
      → load r native drawn c key loader w ≡ (
        err (wrap2 (known cache_load) e),
        measure c.client (cache_loader loader_error) (loader w).1,
      )
  unfolding load run_loader store_loaded
  load_failed drawn loader w e h n = rw (h, n) refl

  miss_led :
      (shared : Bool) (drawn : ℤ) (loader : Exec (World State) T) (w : World State)
      → w.schedule ≡ []
      → get_reply (lookup w.server (cache_key c key)) ≡ ok none
      → get_or_load_cached r native (led shared) drawn c key (some loader) w ≡ (
        (load r native drawn c key loader w).0,
        measure c.client
            (cache_request get_or_load miss)
            (note_shared r native c shared (load r native drawn c key loader w).1),
      )
  unfolding get_or_load_cached fly
  miss_led shared drawn loader w q there = rw (get_entry_quiet r native c key w none q there) refl

  note_shared_lem :
      (shared : Bool) (w : World State) (m : CacheResult)
      → ((measure c.client (cache_request get_or_load m) (note_shared r native c shared w)).server
          ≡ w.server)
        × ((measure c.client
              (cache_request get_or_load m)
              (note_shared r native c shared w)).schedule
            ≡ w.schedule)
  note_shared_lem shared w m = (ground arith, ground arith)

  load_ok :
      (drawn : ℤ) (loader : Exec (World State) T) (w : World State) (v : T) (e : String) (m : ℕ)
      → (loader w).0 ≡ ok v
      → (loader w).1.schedule ≡ []
      → encode native c v ≡ ok e
      → expiration c drawn c.ttl ≡ pos m
      → ((load r native drawn c key loader w).0 ≡ ok v)
        × ((load r native drawn c key loader w).1.schedule ≡ [])
        × (get_reply (lookup (load r native drawn c key loader w).1.server (cache_key c key))
            ≡ ok (some e))
  load_ok drawn loader w v e m h q enc at =
      let w1 = measure c.client (cache_loader loaded) (loader w).1 in
      rw (load_of drawn loader w, h)
        (store_loaded_ok r native c key drawn w1 v e m (ground arith) enc at)

  load_not_found :
      (drawn : ℤ) (loader : Exec (World State) T) (w : World State) (e : Error) (n m : ℕ)
      → (loader w).0 ≡ err e
      → (loader w).1.schedule ≡ []
      → c.is_not_found e ≡ true
      → c.negative_ttl ≡ pos (suc n)
      → expiration c drawn c.negative_ttl ≡ pos m
      → ((load r native drawn c key loader w).0 ≡ err (normalize_cache_not_found e))
        × ((load r native drawn c key loader w).1.schedule ≡ [])
        × (get_reply (lookup (load r native drawn c key loader w).1.server (cache_key c key))
            ≡ ok (some c.negative_marker))
  load_not_found drawn loader w e n m h q nf neg at =
      let w1 = measure c.client (cache_loader not_found) (loader w).1 in
      rw (load_of drawn loader w, h, nf)
        (store_loaded_not_found r native c key drawn w1 e n m (ground arith) nf neg at)

  -- An undisturbed GetOrLoad that finds the key free and runs the loader returns the loader's value.
  -- Then the value is cached: whatever other calls are loading, the next GetOrLoad returns the same
  -- value without running its loader. As for Get after Set, ttl and jitter stay within an int64,
  -- decoding inverts encoding at the value, and the encoded value is not the marker.
  pub get_or_load_once :
      (shared : Bool) (n j drawn : ℕ) (loader : Exec (World State) T) (w : World State) (v : T)
      (e : String)
      → w.schedule ≡ []
      → get_reply (lookup w.server (cache_key c key)) ≡ ok none
      → (loader w).0 ≡ ok v
      → (loader w).1.schedule ≡ []
      → c.ttl ≡ pos n
      → c.jitter ≡ pos j
      → (j ≡ 0) ⊎ (drawn < j)
      → n + j < 2 ^ 63
      → encode native c v ≡ ok e
      → decode native c e ≡ ok v
      → str_eq e c.negative_marker ≡ false
      → ((get_or_load_cached r native (led shared) (pos drawn) c key (some loader) w).0 ≡ ok v)
        × ((flight : Flight T) (d : ℤ) (again : Exec (World State) T)
            → get_or_load_cached r native flight d c key
                (some again)
                (get_or_load_cached r native (led shared) (pos drawn) c key (some loader) w).1
              ≡ (
                ok v,
                measure c.client
                    (cache_request get_or_load hit)
                    (get_or_load_cached r native (led shared) (pos drawn) c key (some loader) w).1,
              ))
  get_or_load_once shared n j drawn loader w v e q free h q1 t p l b enc dec m =
      let (x, at) = drawn_ttl c n j drawn c.ttl t p l b in
      let (done, quiet, there) = load_ok (pos drawn) loader w v e x h q1 enc at in
      let w1 = (load r native (pos drawn) c key loader w).1 in
      let (s, s1) = note_shared_lem shared w1 miss in
      rw (miss_led shared (pos drawn) loader w q free) (
        done,
        λ flight d again.
            get_or_load_hit flight d again
              (measure c.client (cache_request get_or_load miss) (note_shared r native c shared w1))
              e v (s1 ∙ quiet) (ap (λ u. get_reply (lookup u (cache_key c key))) s ∙ there) m dec,
      )

  -- If the loader's error is a not-found error and the cache keeps those (its negative ttl is
  -- positive, and stays within an int64 with the jitter), an undisturbed GetOrLoad that finds the
  -- key free and runs the loader returns an error that matches ErrKeyNotFound. The next GetOrLoad
  -- fails with ErrKeyNotFound without running its loader, whatever other calls are loading.
  pub get_or_load_remembers_not_found :
      (shared : Bool) (n j drawn : ℕ) (loader : Exec (World State) T) (w : World State) (x : Error)
      → w.schedule ≡ []
      → get_reply (lookup w.server (cache_key c key)) ≡ ok none
      → (loader w).0 ≡ err x
      → (loader w).1.schedule ≡ []
      → c.is_not_found x ≡ true
      → c.negative_ttl ≡ pos (suc n)
      → c.jitter ≡ pos j
      → (j ≡ 0) ⊎ (drawn < j)
      → suc n + j < 2 ^ 63
      → ((y : Error) × ((get_or_load_cached r native
              (led shared)
              (pos drawn)
              c
              key
              (some loader)
              w).0
            ≡ err y)
          × (errors_is y key_not_found ≡ true))
        × ((flight : Flight T) (d : ℤ) (again : Exec (World State) T)
            → get_or_load_cached r native flight d c key
                (some again)
                (get_or_load_cached r native (led shared) (pos drawn) c key (some loader) w).1
              ≡ (
                fail key_not_found,
                measure c.client
                    (cache_request get_or_load negative_hit)
                    (get_or_load_cached r native (led shared) (pos drawn) c key (some loader) w).1,
              ))
  get_or_load_remembers_not_found shared n j drawn loader w x q free h q1 nf neg p l b =
      let (m, at) = drawn_ttl c (suc n) j drawn c.negative_ttl neg p l b in
      let (done, quiet, there) = load_not_found (pos drawn) loader w x n m h q1 nf neg at in
      let w1 = (load r native (pos drawn) c key loader w).1 in
      let (s, s1) = note_shared_lem shared w1 miss in
      rw (miss_led shared (pos drawn) loader w q free) (
        (normalize_cache_not_found x, done, normalize_cache_not_found_lem x),
        λ flight d again.
            get_or_load_negative flight d again
              (measure c.client (cache_request get_or_load miss) (note_shared r native c shared w1))
              (s1 ∙ quiet) (ap (λ u. get_reply (lookup u (cache_key c key))) s ∙ there),
      )

  -- When an undisturbed GetOrLoad finds the key free and runs the loader, an error of the loader that
  -- is no not-found error is returned inside ErrCacheLoad and not cached: the server is as the loader
  -- left it, and no further request is made.
  pub get_or_load_error_not_cached :
      (shared : Bool) (drawn : ℤ) (loader : Exec (World State) T) (w : World State) (x : Error)
      → w.schedule ≡ []
      → get_reply (lookup w.server (cache_key c key)) ≡ ok none
      → (loader w).0 ≡ err x
      → c.is_not_found x ≡ false
      → ((get_or_load_cached r native (led shared) drawn c key (some loader) w).0
          ≡ err (wrap2 (known cache_load) x))
        × ((get_or_load_cached r native (led shared) drawn c key (some loader) w).1.server
            ≡ (loader w).1.server)
        × ((get_or_load_cached r native (led shared) drawn c key (some loader) w).1.schedule
            ≡ (loader w).1.schedule)
  get_or_load_error_not_cached shared drawn loader w x q free h n =
      rw (miss_led shared drawn loader w q free, load_failed drawn loader w x h n)
        (refl, ground arith, ground arith)
