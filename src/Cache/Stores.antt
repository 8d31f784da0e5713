-- ===== src/Cache/Stores.antt =====
-- What load of cache.go does with the loader's result, undisturbed.
use xredis.Prelude.{
  ℕ, suc, ◌≡◌, inl, inr, refl, ap, ◌∙◌, true, false, String, some, [], ℤ, pos, leb_ℤ, Bool-cases,
  arith,
}
use xredis.Errors.{Error, Sentinel-discrete, known, errors_is, key_not_found}
use xredis.Exec.{ok, err, Exec}
use xredis.Redis.{Redis, get_reply}
use xredis.Client.{World, round_trip}
use xredis.Codec.{Native}
use xredis.Cache.{
  Cache, expiration, cache_key, encode, normalize_cache_not_found, wrapping, then_fail,
  store_loaded,
}
use xredis.Client.Strings.{written}

positive : {x : ℤ} {n : ℕ} → x ≡ pos (suc n) → leb_ℤ x (pos 0) ≡ false
positive h = ground arith

key_not_found_is : errors_is (known key_not_found) key_not_found ≡ true
unfolding errors_is Sentinel-discrete mathlib.Core.Bool.decide
key_not_found_is = refl

pub normalize_cache_not_found_lem :
    (e : Error) → errors_is (normalize_cache_not_found e) key_not_found ≡ true
unfolding normalize_cache_not_found errors_is
normalize_cache_not_found_lem e = elim (Bool-cases (errors_is e key_not_found)) [
  | inl p ↦ rw p p
  | inr p ↦ rw p ground (arith, key_not_found_is)
]

module _ (r : Redis) {T : Type 0} (native : Native T) (c : Cache T) (key : String) where
  open r use {State, lookup, clock, ttl_arg, set}

  wrapping_ok :
      {A : Type 0} (text : String) (a : A) (m : Exec (World State) (Unit {0})) (w : World State)
      → (m w).0 ≡ ok tt
      → wrapping r native text a m w ≡ (ok a, (m w).1)
  wrapping_ok text a m w h = rw (wrapping, h) refl

  then_fail_ok :
      (e : Error) (m : Exec (World State) (Unit {0})) (w : World State)
      → (m w).0 ≡ ok tt
      → then_fail r native e m w ≡ (err e, (m w).1)
  then_fail_ok e m w h = rw (then_fail, h) refl

  sent :
      (drawn : ℤ) (w : World State) (v : T) (e : String) (m : ℕ)
      → encode native c v ≡ ok e
      → expiration c drawn c.ttl ≡ pos m
      → store_loaded r native drawn c key (ok v) w
        ≡ wrapping r native "store cache value" v
            (round_trip (set (cache_key c key) e (ttl_arg (pos m))))
            w
  unfolding store_loaded
  sent drawn w v e m enc at = rw (enc, at) refl

  negative_sent :
      (drawn : ℤ) (w : World State) (e : Error) (n m : ℕ)
      → c.is_not_found e ≡ true
      → c.negative_ttl ≡ pos (suc n)
      → expiration c drawn c.negative_ttl ≡ pos m
      → store_loaded r native drawn c key (err e) w
        ≡ then_fail r native
            (normalize_cache_not_found e)
            (wrapping r native "store negative cache entry" tt
              (round_trip (set (cache_key c key) c.negative_marker (ttl_arg (pos m)))))
            w
  unfolding store_loaded
  negative_sent drawn w e n m nf neg at = rw (nf, positive neg, at) refl

  pub store_loaded_ok :
      (drawn : ℤ) (w : World State) (v : T) (e : String) (m : ℕ)
      → w.schedule ≡ []
      → encode native c v ≡ ok e
      → expiration c drawn c.ttl ≡ pos m
      → ((store_loaded r native drawn c key (ok v) w).0 ≡ ok v)
        × ((store_loaded r native drawn c key (ok v) w).1.schedule ≡ [])
        × (get_reply
              (lookup (store_loaded r native drawn c key (ok v) w).1.server (cache_key c key))
            ≡ ok (some e))
  unfolding store_loaded
  store_loaded_ok drawn w v e m q enc at =
      let (done, quiet, there) = written r (cache_key c key) e m w q in
      let stored =
        sent drawn w v e m enc at
        ∙ wrapping_ok "store cache value" v (round_trip (set (cache_key c key) e (ttl_arg (pos m))))
            w done in
      rw stored (refl, quiet, there)

  pub store_loaded_not_found :
      (drawn : ℤ) (w : World State) (e : Error) (n m : ℕ)
      → w.schedule ≡ []
      → c.is_not_found e ≡ true
      → c.negative_ttl ≡ pos (suc n)
      → expiration c drawn c.negative_ttl ≡ pos m
      → ((store_loaded r native drawn c key (err e) w).0 ≡ err (normalize_cache_not_found e))
        × ((store_loaded r native drawn c key (err e) w).1.schedule ≡ [])
        × (get_reply
              (lookup (store_loaded r native drawn c key (err e) w).1.server (cache_key c key))
            ≡ ok (some c.negative_marker))
  unfolding store_loaded
  store_loaded_not_found drawn w e n m q nf neg at =
      let (done, quiet, there) = written r (cache_key c key) c.negative_marker m w q in
      let failed =
        negative_sent drawn w e n m nf neg at
        ∙ then_fail_ok (normalize_cache_not_found e)
            (wrapping r native "store negative cache entry" tt
              (round_trip (set (cache_key c key) c.negative_marker (ttl_arg (pos m)))))
            w
            (ap (λ p. p.0)
              (wrapping_ok "store negative cache entry" tt
                (round_trip (set (cache_key c key) c.negative_marker (ttl_arg (pos m)))) w done)) in
      rw
        (
          failed,
          ap (λ p. p.1)
              (wrapping_ok "store negative cache entry" tt
                (round_trip (set (cache_key c key) c.negative_marker (ttl_arg (pos m)))) w done),
        )
        (refl, quiet, there)
