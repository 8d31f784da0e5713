-- ===== src/Examples/Token.antt =====
-- The token bucket of rate_limiter.go on concrete inputs.
use xredis.Prelude.{◌+◌, ◌≤◌, ◌≡◌, refl, inl, true, [], ◌∷◌, pos, arith}
use xredis.Time.{duration_to_ms}
use xredis.RateLimit.{TokenBucketLimit, key_of, validate_key, validate_token_bucket_rate_limit}
use xredis.RateLimit.Token.Times.{count}
use xredis.RateLimit.Token.Call.{InRange}
use xredis.RateLimit.Token.Burst.{token_times, token_bucket_burst}
use xredis.RateLimit.Token.Steady.{Pause, every_allowed, token_bucket_steady}
use xredis.Client.{Event, delivered}
use xredis.Examples.Memory.{Memory, memory}
use xredis.Examples.Numbers.{whole_numbers}
use xredis.Examples.Cas.{held}
use xredis.Examples.Lock.{second}
use xredis.Examples.RateLimit.{requests}

-- One token a second, and room for two.
abbrev two_at_once : TokenBucketLimit
two_at_once = record { limit = pos 1; window = second; burst = pos 2 }

two_at_once-InRange : InRange two_at_once 2
unfolding validate_token_bucket_rate_limit duration_to_ms
two_at_once-InRange = record {
  valid = refl;
  capacity_le = omega arith;
  limit_le = omega arith;
  window_le = omega arith;
}

token_bucket_burst_example :
    count (pos 0) (token_times memory whole_numbers "rl:u" two_at_once requests held []) ≤ 2
unfolding key_of
token_bucket_burst_example =
    token_bucket_burst memory whole_numbers "rl:u" two_at_once 2 requests held (pos 0)
      two_at_once-InRange (refl, (refl, (refl, tt))) tt refl

abbrev second_later : Event Memory
second_later = record { others = λ s. record s { now = s.now + 1000 }; fault = delivered }

second_later-Pause : Pause memory whole_numbers "rl:u" two_at_once second_later
unfolding duration_to_ms
second_later-Pause = record {
  arrives = refl;
  only_time = λ s. (omega arith, inl refl);
  long = λ s. omega arith;
}

token_bucket_steady_example :
    every_allowed memory whole_numbers "rl:u" two_at_once requests
      (record held { schedule = second_later ∷ second_later ∷ second_later ∷ [] })
    ≡ true
unfolding key_of validate_key duration_to_ms
token_bucket_steady_example =
    token_bucket_steady memory whole_numbers "rl:u" two_at_once 2 requests
      (record held { schedule = second_later ∷ second_later ∷ second_later ∷ [] })
      two_at_once-InRange (omega arith) ((refl, refl), ((refl, refl), ((refl, refl), tt)))
      (second_later-Pause, (second_later-Pause, (second_later-Pause, tt))) refl
