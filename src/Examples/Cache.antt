-- ===== src/Examples/Cache.antt =====
-- cache.go on the in-memory server, with a cache of strings that keeps entries for a second and
-- not-found results for half of it.
use xredis.Prelude.{◌∷◌, [], none, ◌≡◌, inr, refl, String, true, false, some, pos, arith}
use xredis.Errors.{known, wrap2, foreign, key_not_found, cache_load}
use xredis.Exec.{ok, err, fail, Exec}
use xredis.Client.{World, round_trip}
use xredis.Codec.{Codec, Native}
use xredis.Cache.{
  Cache, led, default_cache_is_not_found, get_cached, set_cached, get_or_load_cached,
}
use xredis.Cache.New.{new_cache, with_cache_ttl, IsValid, new_cache-IsValid}
use xredis.Cache.Entries.{get_cached-set_cached, get_cached-Shows}
use xredis.Cache.Loads.{
  get_or_load_once, get_or_load_remembers_not_found, get_or_load_error_not_cached,
}
use xredis.Examples.Memory.{Memory, memory}
use xredis.Examples.Cas.{held}
use xredis.Examples.Lock.{client, second}

abbrev strings : Native String
strings = record { write = λ s. s; scan = λ s. ok s }

abbrev raw : Codec String
raw = record { marshal = λ s. ok s; unmarshal = λ s. ok s }

abbrev users : Cache String
users = record {
  client = client;
  prefix = "u:";
  ttl = pos 1000000000;
  jitter = pos 50;
  negative_ttl = pos 500000000;
  negative_marker = "-";
  codec = raw;
  redis_encoded = true;
  is_not_found = default_cache_is_not_found;
}

-- The key "a" with no prefix holds "x".
abbrev bare : Cache String
bare = record users { prefix = "" }

abbrev found : Exec (World Memory) String
found w = (ok "bob", w)

abbrev missing : Exec (World Memory) String
missing w = (fail key_not_found, w)

abbrev failing : Exec (World Memory) String
failing w = (err (foreign "timeout"), w)

get_cached-set_cached_example :
    (get_cached memory strings users "1"
      (set_cached memory strings (pos 7) users "1" "bob" held).1).0
    ≡ ok (some "bob")
get_cached-set_cached_example =
    (get_cached-set_cached memory strings users "1" 1000000000 50 7 "bob" "bob" held refl refl
      (inr (omega arith)) (omega arith) refl refl refl refl).1

get_cached-Shows_example :
    memory.lookup (get_cached memory strings bare "a" held).1.server "h"
    ≡ memory.lookup held.server "h"
unfolding get_cached round_trip
get_cached-Shows_example =
    let (x, e, s, same) = get_cached-Shows memory strings bare "a" held (some "x") refl in same "h"

get_or_load_once_example :
    (get_or_load_cached memory strings (led false) (pos 7) users "1" (some found) held).0 ≡ ok "bob"
get_or_load_once_example =
    (get_or_load_once memory strings users "1" false 1000000000 50 7 found held "bob" "bob" refl
      refl refl refl refl refl (inr (omega arith)) (omega arith) refl refl refl).0

get_or_load_remembers_not_found_example :
    (get_or_load_cached memory strings
      (led false)
      (pos 7)
      users
      "1"
      (some failing)
      (get_or_load_cached memory strings (led false) (pos 7) users "1" (some missing) held).1).0
    ≡ fail key_not_found
unfolding default_cache_is_not_found mathlib.Core.Bool.decide
get_or_load_remembers_not_found_example =
    let (first, next) =
      get_or_load_remembers_not_found memory strings users "1" false 499999999 50 7 missing held
        (known key_not_found) refl refl refl refl refl refl refl (inr (omega arith))
        (omega arith) in
    λ i. (next (led false) (pos 7) failing i).0

get_or_load_error_not_cached_example :
    (get_or_load_cached memory strings (led true) (pos 7) users "1" (some failing) held).0
    ≡ err (wrap2 (known cache_load) (foreign "timeout"))
unfolding default_cache_is_not_found mathlib.Core.Bool.decide
get_or_load_error_not_cached_example =
    (get_or_load_error_not_cached memory strings users "1" true (pos 7) failing held
      (foreign "timeout") refl refl refl refl).0

-- What NewCache makes of a ttl of a second and a nil option, with "0" as the default marker.
abbrev plain_cache : Cache String
plain_cache = record {
  client = client;
  prefix = "";
  ttl = second;
  jitter = pos 0;
  negative_ttl = pos 0;
  negative_marker = "0";
  codec = raw;
  redis_encoded = true;
  is_not_found = λ e. default_cache_is_not_found e;
}

new_cache-IsValid_example : IsValid plain_cache
unfolding new_cache with_cache_ttl
new_cache-IsValid_example =
    new_cache-IsValid (ok tt) true "0" raw none (some client)
      (some (with_cache_ttl second) ∷ none ∷ []) plain_cache refl
