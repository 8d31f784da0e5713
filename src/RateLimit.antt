-- ===== src/RateLimit.antt =====
-- rate_limiter.go: the three scripts and the methods that run them. The limit and the counter of
-- the fixed window are Lua's numbers. Times and windows are integers here: an int64 of nanoseconds
-- has less than 2 ^ 53 milliseconds, and a double holds them exactly.
pub mod Script
pub mod Bound
pub mod Room
pub mod Sliding
pub mod Token
pub mod Validation
use xredis.Prelude.{
  ℕ, suc, ◌+◌, String, append, Bool, true, false, ◌&&◌, ◌||◌, Option, none, some, List, [], ◌∷◌, ℤ,
  pos, pos_part, ◌-ℤ◌, ltb_ℤ, leb_ℤ, eqb_ℤ, is_empty, if◌then◌else◌,
}
use xredis.Errors.{invalid_rate_limiter, invalid_rate_limit, panic, reply}
use xredis.Exec.{Exec, Result, ok, err, fail, pure, lift, ask, ◌>>=◌, ◌>>◌, ◌>>>◌}
use xredis.Redis.{Redis, Any, int64}
use xredis.Time.{duration_to_ms, ms_to_duration}
use xredis.Client.{
  Client, World, round_trip, measure, record_rate_limit_decision, Algorithm, fixed_window,
  sliding_window, RateLimitOutcome, allowed, rejected, rate_limit_error, rate_limit_decision,
}

-- RateLimit, and the id of a limiter with the number of members that it has made
pub record Limit : Type 0 where
  pub limit : ℤ
  pub window : ℤ

pub record RateLimiter : Type 0 where
  pub client : Option Client
  pub prefix : String
  pub id : String
  pub seq : ℕ

pub record Decision : Type 0 where
  pub is_allowed : Bool
  pub limit : ℤ
  pub remaining : ℤ
  pub retry_after : ℤ
  pub reset_after : ℤ

abbrev has_conn : Option Client → Bool
has_conn none = false
has_conn (some c) = elim c.conn [ none ↦ false | some t ↦ true ]

pub record RateLimiterOptions : Type 0 where
  pub prefix : String

-- WithRateLimiterPrefix
unfoldable pub with_rate_limiter_prefix : String → RateLimiterOptions → RateLimiterOptions
with_rate_limiter_prefix prefix opts = record opts { prefix = prefix }

abbrev pub apply_options :
    RateLimiterOptions
    → List (Option (RateLimiterOptions → RateLimiterOptions))
    → RateLimiterOptions
apply_options o [] = o
apply_options o (none ∷ opts) = apply_options o opts
apply_options o (some opt ∷ opts) = apply_options (opt o) opts

-- newRateLimiter, with the fresh identifier that it draws
unfoldable pub new_rate_limiter :
    String
    → Option Client
    → List (Option (RateLimiterOptions → RateLimiterOptions))
    → Result RateLimiter
new_rate_limiter uuid client opts =
    if has_conn client
    then ok (record {
      client = client;
      prefix = (apply_options (record { prefix = "" }) opts).prefix;
      id = uuid;
      seq = 0;
    })
    else fail invalid_rate_limiter

-- (*RateLimiter).validateKey, for a limiter that is not nil
unfoldable pub validate_key : RateLimiter → String → Result (Unit {0})
validate_key l key =
    if has_conn l.client
    then (if is_empty key then fail invalid_rate_limit else ok tt)
    else fail invalid_rate_limiter

unfoldable pub validate_rate_limit : Limit → Result (Unit {0})
validate_rate_limit l =
    if leb_ℤ l.limit (pos 0) || leb_ℤ l.window (pos 0) then fail invalid_rate_limit else ok tt

pub record TokenBucketLimit : Type 0 where
  pub limit : ℤ
  pub window : ℤ
  pub burst : ℤ

-- validateTokenBucketRateLimit: the capacity of the bucket
unfoldable pub validate_token_bucket_rate_limit : TokenBucketLimit → Result ℤ
validate_token_bucket_rate_limit l =
    if leb_ℤ l.limit (pos 0) || leb_ℤ l.window (pos 0) || ltb_ℤ l.burst (pos 0)
    then fail invalid_rate_limit
    else ok (if eqb_ℤ l.burst (pos 0) then l.limit else l.burst)

-- rateLimitResultInt
abbrev pub result_int : Any → Result ℤ
result_int (int64 n) = ok n
result_int _ = fail invalid_rate_limit

-- parseRateLimitDecision
unfoldable pub parse_rate_limit_decision : List Any → Result Decision
parse_rate_limit_decision (a ∷ b ∷ c ∷ d ∷ e ∷ []) = result_int a >>> λ allowed.
    result_int b >>> λ limit. result_int c >>> λ remaining. result_int d >>> λ retry_after_ms.
    result_int e >>> λ reset_after_ms. ok (record {
      is_allowed = eqb_ℤ allowed (pos 1);
      limit = limit;
      remaining = remaining;
      retry_after = ms_to_duration retry_after_ms;
      reset_after = ms_to_duration reset_after_ms;
    })
parse_rate_limit_decision _ = fail invalid_rate_limit

abbrev pub non_integer : {A : Type 0} → Result A
non_integer = err (reply "ERR rate limit key contains non-integer value")

-- `if remaining < 0 then remaining = 0`
abbrev pub at_least_zero : ℤ → ℤ
at_least_zero n = if ltb_ℤ n (pos 0) then pos 0 else n

module _ (r : Redis) where
  open r use {State, get, pttl, pexpire, incr}
  open r.lua use {Number, int, leb, ltb, sub, reply, tonumber}

  -- The number that the script reads; a missing key is 0.
  unfoldable pub current_of : Option String → Result Number
  current_of none = ok (int (pos 0))
  current_of (some raw) = elim (tonumber raw) [ none ↦ non_integer | some x ↦ ok x ]

  -- The time left, given anew to a counter that has lost its own.
  unfoldable pub heal : String → ℤ → Number → ℤ → Exec State ℤ
  heal key window current ttl =
      if ltb_ℤ ttl (pos 0) && ltb (int (pos 0)) current
      then (do n ← pexpire key (pos_part window); pure window)
      else if ltb_ℤ ttl (pos 0)
      then pure window
      else pure ttl

  -- The time left after the increment.
  unfoldable pub heal_after : String → ℤ → ℤ → Exec State ℤ
  heal_after key window current =
      if eqb_ℤ current (pos 1) then (do n ← pexpire key (pos_part window); pure window) else do
        ttl ← ask (λ s. ok (pttl s key))
        if ltb_ℤ ttl (pos 0) then (do n ← pexpire key (pos_part window); pure window) else pure ttl

  -- `limit - current`, and 0 if that is negative.
  abbrev remaining_of : ℤ → ℤ → ℤ
  remaining_of limit now =
      let remaining = sub (int limit) (int now) in
      if ltb remaining (int (pos 0)) then pos 0 else reply remaining

  -- The reply of an admitted request, from the incremented counter.
  unfoldable pub admitted : String → ℤ → ℤ → ℤ → Exec State (List Any)
  unfolding heal_after
  admitted key limit window now = do
    left ← heal_after key window now
    pure (
        int64 (pos 1)
        ∷ int64 (reply (int limit))
        ∷ int64 (remaining_of limit now)
        ∷ int64 (pos 0)
        ∷ int64 left
        ∷ [])

  -- The end of the script, from the counter that it read and the time left.
  unfoldable pub admit : String → ℤ → ℤ → Number → ℤ → Exec State (List Any)
  admit key limit window current ttl =
      if leb (int limit) current
      then pure
          (int64 (pos 0) ∷ int64 (reply (int limit)) ∷ int64 (pos 0) ∷ int64 ttl ∷ int64 ttl ∷ [])
      else do now ← incr key; admitted key limit window now

  -- rateLimitFixedWindowScript
  unfoldable pub fixed_window_script : String → ℤ → ℤ → Exec State (List Any)
  fixed_window_script key limit window = do
    raw ← ask (λ s. get s key)
    current ← lift (current_of raw)
    ttl0 ← ask (λ s. ok (pttl s key))
    ttl ← heal key window current ttl0
    admit key limit window current ttl

  -- What the deferred recording reads off the result.
  abbrev pub outcome_of : Result Decision → RateLimitOutcome
  outcome_of (ok d) = if d.is_allowed then allowed else rejected
  outcome_of (err e) = rate_limit_error

  abbrev recorded :
      Client → Algorithm → Result Decision × World State → Result Decision × World State
  recorded c algorithm (result, w) =
      (result, record_rate_limit_decision c algorithm (outcome_of result) w)

  -- runDecision: the deferred recording reads the metrics through the client's pointer
  run_decision :
      Option Client → Algorithm → Exec (World State) Decision → Exec (World State) Decision
  run_decision none algorithm fn w = (err panic, (fn w).1)
  run_decision (some c) algorithm fn w = recorded c algorithm (fn w)

  -- l.key(key)
  unfoldable pub key_of : RateLimiter → String → String
  key_of l key = append l.prefix key

  fixed_window_body : RateLimiter → String → Limit → Exec (World State) Decision
  unfolding validate_key validate_rate_limit
  fixed_window_body l key limit = do
    u ← lift (validate_key l key)
    v ← lift (validate_rate_limit limit)
    result ←
        round_trip (fixed_window_script (key_of l key) limit.limit (duration_to_ms limit.window))
    lift (parse_rate_limit_decision result)

  -- (*RateLimiter).AllowFixedWindow; a nil limiter is refused by validateKey, and then the
  -- recording reads through it
  unfoldable pub allow_fixed_window :
      Option RateLimiter → String → Limit → Exec (World State) Decision
  unfolding run_decision fixed_window_body
  allow_fixed_window none key limit w = (err panic, w)
  allow_fixed_window (some l) key limit w =
      run_decision l.client fixed_window (fixed_window_body l key limit) w

  -- Allow
  unfoldable pub allow : Option RateLimiter → String → Limit → Exec (World State) Decision
  unfolding allow_fixed_window
  allow l key limit = allow_fixed_window l key limit
