-- ===== src/RateLimit/Token/Burst.antt =====
-- A token bucket allows no more requests at once than its capacity.
use xredis.Prelude.{
  ℕ, ◌≤◌, ◌≡◌, inl, inr, String, none, some, List, [], ◌∷◌, All, ℤ, pos, arith, eqb_ℤ, Bool-cases,
  eq_of_parts, subst,
}
use xredis.Redis.{Redis}
use xredis.Time.{duration_to_ms}
use xredis.Client.{World, Event, arrival}
use xredis.RateLimit.{RateLimiter, TokenBucketLimit, key_of}
use xredis.RateLimit.Sliding.Kept.{OnlyTime}
use xredis.RateLimit.Sliding.Bound.{logged, logged-cases}
use xredis.RateLimit.Token.{allow_token_bucket}
use xredis.Redis.Number.{LuaNumber}
use xredis.RateLimit.Token.Times.{count}
use xredis.RateLimit.Token.Call.{InRange, Quiet, CallBucket, call-Bucket, call-Quiet, call-allowed}

-- No time has more requests than the capacity.
abbrev Bounded : ℕ → List ℤ → Type 0
Bounded c log = (t : ℤ) → count t log ≤ c

Bounded-more :
    (c : ℕ) (t : ℤ) (log : List ℤ) → Bounded c log → count t (t ∷ log) ≤ c → Bounded c (t ∷ log)
Bounded-more c t log h p u = elim (Bool-cases (eqb_ℤ u t)) [
  | inl same ↦ subst (λ (v : ℤ). count v (t ∷ log) ≤ c) (eq_of_parts t u (ground arith)) p
  | inr other ↦ rw other (omega (arith, h u))
]

module _ (r : Redis) (lua : LuaNumber) (k : String) (limit : TokenBucketLimit) where
  open r use {State, clock}

  -- Requests one after the other; the times of those that were allowed, the last one first.
  unfoldable pub token_times : List (RateLimiter × String) → World State → List ℤ → List ℤ
  token_times [] w log = log
  token_times ((l, key) ∷ calls) w log =
      let q = allow_token_bucket r lua (some l) key limit w in
      token_times calls q.1 (logged q.0 (pos (clock (arrival w))) log)

  -- The limiters and keys that make this Redis key.
  abbrev pub Shares : RateLimiter × String → Type 0
  Shares (l, key) = key_of r l key ≡ k

  bounded :
      (c : ℕ) (calls : List (RateLimiter × String)) (w : World State) (log : List ℤ)
      → InRange limit c
      → All Shares calls
      → Quiet r lua k limit c w.schedule
      → CallBucket r lua k limit c log w.server
      → Bounded c log
      → Bounded c (token_times calls w log)
  unfolding token_times
  bounded c [] w log i a q h b = b
  bounded c ((l, key) ∷ calls) w log i a q h b =
      let run = allow_token_bucket r lua (some l) key limit w in
      let quiet = call-Quiet r lua k limit c l key w i a.0 q in
      elim (logged-cases run.0 (pos (clock (arrival w))) log) [
        | inl same ↦ rw same (
            bounded c calls run.1 log i a.1 quiet
              (call-Bucket r lua k limit c log l key w i a.0 q h) b)
        | inr (d, given, yes_, more) ↦
            let (kept, at_most) = call-allowed r lua k limit c log l key w d i a.0 q h given yes_ in
            rw more (
              bounded c calls run.1 (pos (clock (arrival w)) ∷ log) i a.1 quiet kept
                (Bounded-more c (pos (clock (arrival w))) log b at_most))
      ]

-- A token bucket never allows a larger burst than its capacity. Take any sequence of calls of
-- AllowTokenBucket with one limit of capacity `c`, by any limiters whose keys make the same Redis
-- key, which is free at the start; the limit is one that the method takes, and the capacity, the
-- refill and the window in milliseconds have at most 14 digits. Requests may fail before or after
-- they are run; between them others leave the key alone, but time passes, and the key is gone once
-- its deadline is reached. Then at most `c` requests are allowed in any one millisecond `t` of the
-- server, whatever the bucket was filled up with before.
pub token_bucket_burst :
    (r : Redis) (lua : LuaNumber) (k : String) (limit : TokenBucketLimit) (c : ℕ)
    (calls : List (RateLimiter × String)) (w : World r.State) (t : ℤ)
    → InRange limit c
    → All (Shares r lua k limit) calls
    → All (λ (e : Event r.State). OnlyTime r k (duration_to_ms limit.window) e.others) w.schedule
    → r.lookup w.server k ≡ none
    → count t (token_times r lua k limit calls w []) ≤ c
token_bucket_burst r lua k limit c calls w t i a q free =
    bounded r lua k limit c calls w [] i a q (inl (free, tt)) (λ u. omega arith) t
