-- ===== src/Examples/RateLimit.antt =====
-- rate_limiter.go and time.go on concrete inputs.
use xredis.Prelude.{
  true, false, ◌≡◌, ◌<◌, ◌≤ℤ◌, ◌-ℤ◌, ◌+◌, refl, String, none, some, List, [], ◌∷◌, pos, pos_part,
  arith, inl, ℕ, ◌==◌, if◌then◌else◌,
}
use xredis.Time.{duration_to_ms, ms_to_duration, millisecond}
use xredis.Time.Rounding.{ms_to_duration-duration_to_ms}
use xredis.Exec.{ok}
use xredis.RateLimit.{
  RateLimiter, Limit, Decision, key_of, validate_key, validate_rate_limit, allow_fixed_window,
}
use xredis.RateLimit.Room.{fixed_window_decides}
use xredis.RateLimit.Sliding.Room.{sliding_window_decides}
use xredis.Redis.{zset}
use xredis.RateLimit.Bound.{admissions, fixed_window_bound}
use xredis.RateLimit.Sliding.{next_member, allow_sliding_window}
use xredis.RateLimit.Sliding.Bound.{allowed_times, sliding_window_bound}
use xredis.RateLimit.Sliding.Kept.{Spaced}
use xredis.Client.{World, delivered}
use xredis.Examples.Memory.{Memory, memory, put}
use xredis.Examples.Cas.{held}
use xredis.Examples.Lock.{client, second}

abbrev pub limiter : RateLimiter
limiter = record { client = some client; prefix = "rl:"; id = "i"; seq = 0 }

abbrev two_per_second : Limit
two_per_second = record { limit = pos 2; window = second }

abbrev pub requests : List (RateLimiter × String)
requests = (limiter, "u") ∷ (limiter, "u") ∷ (limiter, "u") ∷ []

fixed_window_bound_example :
    pos (0 + admissions memory "rl:u" two_per_second requests held) ≤ℤ pos 2
unfolding key_of
fixed_window_bound_example =
    fixed_window_bound memory "rl:u" two_per_second requests 0 held (refl, (refl, (refl, tt)))
      (record { reached = (pos 0, refl, omega arith); kept = tt }) (omega arith)

fixed_window_decides_example :
    (d : Decision) × ((allow_fixed_window memory (some limiter) "u" two_per_second held).0 ≡ ok d)
    × (d.is_allowed ≡ true)
unfolding validate_key validate_rate_limit key_of
fixed_window_decides_example =
    fixed_window_decides memory limiter "u" two_per_second held (pos 0) refl refl (omega arith) refl
      refl

ms_to_duration-duration_to_ms_example :
    pos_part (ms_to_duration (duration_to_ms (pos 1500000))) < 1500000 + millisecond
ms_to_duration-duration_to_ms_example =
    (ms_to_duration-duration_to_ms 1500000 (omega arith) (omega arith)).1

abbrev digit : ℕ → String
digit n = if n == 1 then "1" else "2"

abbrev sliding_requests : List (RateLimiter × String)
sliding_requests = (limiter, "u") ∷ (record limiter { seq = 1 }, "u") ∷ []

-- 400 ms pass before the second request arrives.
abbrev later_on : World Memory
later_on = record held {
  schedule =
      record { others = λ s. s; fault = delivered }
      ∷ record { others = λ s. record s { now = s.now + 400 }; fault = delivered }
      ∷ [];
}

sliding_window_bound_example :
    Spaced
      (pos 2)
      (duration_to_ms second)
      (allowed_times memory digit "rl:u" two_per_second sliding_requests later_on [])
unfolding key_of next_member
sliding_window_bound_example =
    sliding_window_bound memory digit "rl:u" two_per_second sliding_requests later_on
      (refl, (refl, tt)) ((refl, tt), (tt, tt))
      ((λ s. (omega arith, inl refl)), ((λ s. (omega arith, inl refl)), tt)) refl

-- Two requests in the last second, and one before it.
abbrev busy : World Memory
busy = record held {
  server =
      put "rl:u"
        (some (record {
          value = zset ((pos 100, "i:1") ∷ (pos 900, "i:2") ∷ (pos 1500, "i:3") ∷ []);
          deadline = none;
        }))
        (record held.server { now = 1600 });
}

sliding_window_decides_example :
    (d : Decision) × ((allow_sliding_window memory digit (some limiter) "u" two_per_second busy).0
      ≡ ok d)
    × (d.is_allowed ≡ false)
unfolding validate_key validate_rate_limit duration_to_ms key_of ◌-ℤ◌
sliding_window_decides_example =
    sliding_window_decides memory digit limiter "u" two_per_second busy
      ((pos 100, "i:1") ∷ (pos 900, "i:2") ∷ (pos 1500, "i:3") ∷ []) refl refl refl refl
