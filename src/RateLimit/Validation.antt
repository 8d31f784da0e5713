-- ===== src/RateLimit/Validation.antt =====
-- The checks of rate_limiter.go before a request.
use xredis.Prelude.{
  Option, List, is_empty, if◌then◌else◌, ◌≡◌, ◌↔◌, ◌⊎◌, String, ℤ, pos, ◌<ℤ◌, arith,
}
use xredis.Errors.{invalid_rate_limit}
use xredis.Exec.{ok, fail}
use xredis.Client.{Client}
use xredis.RateLimit.{
  RateLimiter, RateLimiterOptions, new_rate_limiter, TokenBucketLimit, validate_key,
  validate_token_bucket_rate_limit,
}

-- The capacity of a token bucket: a limit and a window above zero and a burst that is not negative
-- are accepted, with the burst as the capacity, or the limit when the burst is zero. Nothing else
-- is accepted, and a capacity is above zero.
pub validate_token_bucket_rate_limit_iff :
    (l : TokenBucketLimit) (capacity : ℤ)
    → (validate_token_bucket_rate_limit l ≡ ok capacity) ↔ (
        (pos 0 <ℤ l.limit)
        × (pos 0 <ℤ l.window)
        × (pos 0 <ℤ capacity)
        × (((l.burst ≡ pos 0) × (capacity ≡ l.limit)) ⊎ (capacity ≡ l.burst)))
unfolding validate_token_bucket_rate_limit
validate_token_bucket_rate_limit_iff l capacity = ground arith

-- Every limiter that the constructor returns is usable: its key check refuses the empty key alone.
pub validate_key-new_rate_limiter :
    (uuid : String) (client : Option Client)
    (opts : List (Option (RateLimiterOptions → RateLimiterOptions))) (l : RateLimiter)
    (key : String)
    → new_rate_limiter uuid client opts ≡ ok l
    → validate_key l key ≡ (if is_empty key then fail invalid_rate_limit else ok tt)
unfolding new_rate_limiter validate_key
validate_key-new_rate_limiter uuid client opts l key h = ground arith
