-- ===== src/Errors.antt =====
-- errors.go, and the errors that reach the library from elsewhere. The sentinels are the values of
-- errors.go and `rdb.Nil`; `fmt.Errorf` with `%w` builds a tree, which `errors.Is` searches.
use mathlib.Core.Bool.{decide}
use xredis.Prelude.{String, Bool, false, ◌||◌}

pub data Sentinel : Type 0 where
  redis_nil : Sentinel
  key_not_found : Sentinel
  invalid_hash_object : Sentinel
  invalid_ttl : Sentinel
  invalid_config : Sentinel
  invalid_cache : Sentinel
  invalid_cache_loader : Sentinel
  invalid_cache_marker : Sentinel
  cache_load : Sentinel
  lock_not_owned : Sentinel
  invalid_lock : Sentinel
  invalid_rate_limiter : Sentinel
  invalid_rate_limit : Sentinel
  invalid_scan : Sentinel
  invalid_pipeline : Sentinel
  invalid_versioned_store : Sentinel
  invalid_entry : Sentinel
  unsupported_type : Sentinel

pub data Error : Type 0 where
  known : Sentinel → Error
  -- an error reply of the server, by its text
  reply : String → Error
  -- an error of the network, a context, a codec or a caller's function
  foreign : String → Error
  -- a run-time panic, here of a nil pointer: no error is returned
  panic : Error
  -- no error of the program: a loop of the model that ran out of fuel
  stuck : Error
  -- fmt.Errorf("text: %w", err)
  wrap : String → Error → Error
  -- fmt.Errorf("%w: %w", a, b)
  wrap2 : Error → Error → Error

unfoldable pub Sentinel-discrete : Discrete Sentinel
Sentinel-discrete = hlevel

-- errors.Is(err, target)
unfoldable pub errors_is : Error → Sentinel → Bool
unfolding Sentinel-discrete
errors_is (known s) target = decide (Sentinel-discrete s target)
errors_is (reply s) target = false
errors_is (foreign s) target = false
errors_is panic target = false
errors_is stuck target = false
errors_is (wrap s e) target = errors_is e target
errors_is (wrap2 a b) target = errors_is a target || errors_is b target
