-- ===== src/RateLimit/Token.antt =====
-- rate_limiter.go: the token bucket. Its script keeps in a hash how many tokens the bucket holds, a
-- number of Lua's that need not be whole, and when it was last filled up, by the server's clock.
-- The numbers are an argument, `lua`, for which the server's own, `r.lua`, is one choice.
pub mod Times
pub mod Step
pub mod Bucket
pub mod Run
pub mod Kept
pub mod Call
pub mod Burst
pub mod Steady
use xredis.Prelude.{
  String, Bool, Option, none, some, List, [], ◌∷◌, ℕ, zero, suc, ℤ, pos, ◌-ℤ◌, ltb_ℤ, if◌then◌else◌,
}
use xredis.Errors.{panic}
use xredis.Exec.{Exec, Result, ok, err, pure, lift, ask, ◌>>=◌, ◌>>◌}
use xredis.Redis.{Redis, Any, nil, string, int64}
use xredis.Time.{duration_to_ms}
use xredis.Client.{World, round_trip, token_bucket}
use xredis.RateLimit.{
  RateLimiter, TokenBucketLimit, Decision, validate_key, validate_token_bucket_rate_limit,
  parse_rate_limit_decision, run_decision, key_of,
}
use xredis.Redis.Number.{LuaNumber}

-- `data[n + 1]`
abbrev pub nth : List Any → ℕ → Any
nth [] n = nil
nth (v ∷ vs) zero = v
nth (v ∷ vs) (suc n) = nth vs n

-- tonumber of an element of a reply, where a missing one is `false`
abbrev pub number_of {ℓ} : {A : Type ℓ} → (String → Option A) → Any → Option A
number_of read (string v) = read v
number_of read _ = none

-- `if not x then x = y`
abbrev pub or_else {ℓ} : {A : Type ℓ} → Option A → A → A
or_else none y = y
or_else (some x) y = x

module _ (r : Redis) (lua : LuaNumber) where
  open r use {State, clock, show_int, read_time, hmget, hset, pexpire_number}
  open lua use {Number, int, leb, ltb, add, sub, mul, div, min, floor, ceil, reply, tostring}

  -- The tokens after `if now > updated_at`, from those that were stored then.
  unfoldable pub refilled : ℤ → ℤ → ℤ → ℤ → ℤ → Number → Number
  refilled capacity refill window now updated_at tokens =
      if ltb_ℤ updated_at now
      then min (int capacity)
          (add tokens (div (mul (int (now -ℤ updated_at)) (int refill)) (int window)))
      else tokens

  -- The tokens that a request finds, from the stored fields.
  unfoldable pub available : ℤ → ℤ → ℤ → ℤ → List Any → Number
  unfolding refilled
  available capacity refill window now fields =
      let updated_at = or_else (number_of read_time (nth fields 1)) now in
      refilled capacity refill window now (if ltb_ℤ now updated_at then now else updated_at)
        (or_else (number_of lua.tonumber (nth fields 0)) (int capacity))

  -- From HSET on, where `updated_at` is `now` on every path.
  unfoldable pub store_tokens : String → ℤ → ℤ → ℤ → ℤ → Bool → Number → Exec State (List Any)
  store_tokens key capacity refill window now allowed tokens = do
    let retry_after =
        if allowed
        then pos 0
        else ceil (div (mul (sub (int (pos 1)) tokens) (int window)) (int refill))
    let reset_after =
        if ltb tokens (int capacity)
        then ceil (div (mul (sub (int capacity) tokens) (int window)) (int refill))
        else pos 0
    hset key (("tokens", tostring tokens) ∷ ("updated_at", show_int now) ∷ [])
    pexpire_number key (if ltb_ℤ reset_after window then window else reset_after)
    pure (
        int64 (if allowed then pos 1 else pos 0)
        ∷ int64 (reply (int capacity))
        ∷ int64 (floor tokens)
        ∷ int64 retry_after
        ∷ int64 reset_after
        ∷ [])

  -- From `local allowed = 0`, with the tokens that the request finds.
  unfoldable pub take_token : String → ℤ → ℤ → ℤ → ℤ → Number → Exec State (List Any)
  unfolding store_tokens
  take_token key capacity refill window now tokens =
      let allowed = leb (int (pos 1)) tokens in
      store_tokens key capacity refill window now allowed
        (if allowed then sub tokens (int (pos 1)) else tokens)

  -- rateLimitTokenBucketScript
  unfoldable pub token_bucket_script : String → ℤ → ℤ → ℤ → Exec State (List Any)
  unfolding available take_token
  token_bucket_script key capacity refill window = do
    now ← ask (λ s. ok (pos (clock s)))
    fields ← ask (λ s. hmget s key ("tokens" ∷ "updated_at" ∷ []))
    take_token key capacity refill window now (available capacity refill window now fields)

  token_bucket_body : RateLimiter → String → TokenBucketLimit → Exec (World State) Decision
  unfolding validate_key validate_token_bucket_rate_limit
  token_bucket_body l key limit = do
    u ← lift (validate_key l key)
    burst ← lift (validate_token_bucket_rate_limit limit)
    result ←
        round_trip
          (token_bucket_script (key_of r l key) burst limit.limit (duration_to_ms limit.window))
    lift (parse_rate_limit_decision result)

  -- (*RateLimiter).AllowTokenBucket
  unfoldable pub allow_token_bucket :
      Option RateLimiter → String → TokenBucketLimit → Exec (World State) Decision
  unfolding run_decision token_bucket_body
  allow_token_bucket none key limit w = (err panic, w)
  allow_token_bucket (some l) key limit w =
      run_decision r l.client token_bucket (token_bucket_body l key limit) w
