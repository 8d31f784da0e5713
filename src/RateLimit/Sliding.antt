-- ===== src/RateLimit/Sliding.antt =====
-- rate_limiter.go: the sliding window. The script keeps the requests of the last window in a sorted
-- set, scored by the server's time in milliseconds (its clock). A call takes the limiter with its
-- counter as it stands; `next_member` gives the limiter for the next call beside the member.
pub mod Members
pub mod Step
pub mod Room
pub mod Kept
pub mod Bound
use xredis.Prelude.{
  ℕ, suc, ◌+◌, String, append, Option, none, some, List, [], ◌∷◌, ℤ, pos, pos_part, ◌+ℤ◌, ◌-ℤ◌,
  ltb_ℤ, length, ltb, if◌then◌else◌,
}
use xredis.Errors.{panic}
use xredis.Exec.{Exec, Result, ok, err, pure, lift, ask, ◌>>=◌, ◌>>◌}
use xredis.Redis.{Redis, Any, int64, ok_map}
use xredis.Time.{duration_to_ms}
use xredis.Client.{World, round_trip, sliding_window}
use xredis.RateLimit.{
  RateLimiter, Limit, Decision, validate_key, validate_rate_limit, parse_rate_limit_decision,
  run_decision, key_of, at_least_zero,
}

-- `reset_after`, from the reply of ZRANGE key 0 0 WITHSCORES
abbrev pub reset_of : ℤ → ℤ → List (ℤ × String) → ℤ
reset_of now window [] = pos 0
reset_of now window ((oldest, m) ∷ ms) = at_least_zero (oldest +ℤ window -ℤ now)

-- (*RateLimiter).nextMember, with strconv.FormatUint in base 10
unfoldable pub next_member : (ℕ → String) → RateLimiter → String × RateLimiter
next_member format_uint l =
    (append l.id (append ":" (format_uint (suc l.seq))), record l { seq = suc l.seq })

module _ (r : Redis) where
  open r use {State, clock, pttl, pexpire, zrange, zremrangebyscore, zadd}

  -- ZCARD
  abbrev pub zcard : String → State → Result ℕ
  zcard key s = ok_map length (zrange s key)

  -- A set that has lost its expiration gets one.
  unfoldable pub refresh_window : String → ℤ → ℕ → Exec State ℕ
  refresh_window key window current =
      if ltb 0 current
      then (do
        ttl ← ask (λ s. ok (pttl s key))
        if ltb_ℤ ttl (pos 0) then pexpire key (pos_part window) else pure 0)
      else pure 0

  -- The reply: how many requests the window holds, and whether this one was allowed.
  unfoldable pub report : String → ℤ → ℤ → ℤ → ℤ → ℤ → Exec State (List Any)
  report key limit window now allowed current = do
    oldest ← ask (λ s. zrange s key)
    let reset_after = reset_of now window oldest
    pure (
        int64 allowed
        ∷ int64 limit
        ∷ int64 (at_least_zero (limit -ℤ current))
        ∷ int64 (if ltb_ℤ (pos 0) allowed then pos 0 else reset_after)
        ∷ int64 reset_after
        ∷ [])

  -- From `if current < limit then`.
  unfoldable pub record_request : String → ℤ → ℤ → String → ℤ → ℕ → Exec State (List Any)
  unfolding report
  record_request key limit window member now current =
      if ltb_ℤ (pos current) limit
      then (do
        zadd key now member
        n ← pexpire key (pos_part window)
        report key limit window now (pos 1) (pos (suc current)))
      else report key limit window now (pos 0) (pos current)

  -- rateLimitSlidingWindowScript
  unfoldable pub sliding_window_script : String → ℤ → ℤ → String → Exec State (List Any)
  sliding_window_script key limit window member = do
    now ← ask (λ s. ok (pos (clock s)))
    zremrangebyscore key (now -ℤ window)
    current ← ask (zcard key)
    n ← refresh_window key window current
    record_request key limit window member now current

  sliding_window_body : (ℕ → String) → RateLimiter → String → Limit → Exec (World State) Decision
  unfolding validate_key validate_rate_limit next_member
  sliding_window_body format_uint l key limit = do
    u ← lift (validate_key l key)
    v ← lift (validate_rate_limit limit)
    result ← round_trip (
        sliding_window_script (key_of r l key) limit.limit (duration_to_ms limit.window)
          (next_member format_uint l).0)
    lift (parse_rate_limit_decision result)

  -- (*RateLimiter).AllowSlidingWindow
  unfoldable pub allow_sliding_window :
      (ℕ → String) → Option RateLimiter → String → Limit → Exec (World State) Decision
  unfolding run_decision sliding_window_body
  allow_sliding_window format_uint none key limit w = (err panic, w)
  allow_sliding_window format_uint (some l) key limit w =
      run_decision r l.client sliding_window (sliding_window_body format_uint l key limit) w
