-- ===== src/RateLimit/Token/Call.antt =====
-- A call of AllowTokenBucket and the bucket at its key.
use xredis.Prelude.{
  ℕ, zero, suc, some, ◌≤◌, ◌≡◌, refl, ◌⊎◌, inl, inr, String, true, false, List, [], ◌∷◌, All, ℤ,
  pos, negsuc, pos_part, leb_ℤ, arith,
}
use xredis.Exec.{ok, Exec}
use xredis.Exec.Invert.{Result-cases}
use xredis.Redis.{Redis, Any}
use xredis.Time.{duration_to_ms}
use xredis.Lock.Contract.{duration_to_ms_pos}
use xredis.Client.{World, Event, round_trip, arrival}
use xredis.Client.Trip.{round_trip_ok, round_trip_once}
use xredis.Client.Safe.{SamePlace, arrival-IsSafe, All-round_trip}
use xredis.RateLimit.{
  RateLimiter, TokenBucketLimit, Decision, key_of, parse_rate_limit_decision,
  validate_token_bucket_rate_limit,
}
use xredis.RateLimit.Sliding.Kept.{OnlyTime}
use xredis.RateLimit.Token.{allow_token_bucket, token_bucket_script}
use xredis.Redis.Number.{LuaNumber, largest}
use xredis.RateLimit.Token.Bucket.{Sizes, Bucket}
use xredis.RateLimit.Token.Times.{count}
use xredis.RateLimit.Token.Run.{script-Ran}
use xredis.RateLimit.Token.Kept.{Bucket-others, Filled-forget}

-- A limit that the method takes, with its capacity, in the range of the laws of Lua's numbers.
pub record InRange (limit : TokenBucketLimit) (c : ℕ) : Type 0 where
  pub valid : validate_token_bucket_rate_limit limit ≡ ok (pos c)
  pub capacity_le : c ≤ largest
  pub limit_le : pos_part limit.limit ≤ largest
  pub window_le : pos_part (duration_to_ms limit.window) ≤ largest

whole : (z : ℤ) → leb_ℤ z (pos 0) ≡ false → (z ≡ pos (pos_part z)) × (1 ≤ pos_part z)
whole (pos zero) h = absurd (ground arith)
whole (pos (suc m)) h = (refl, omega arith)
whole (negsuc m) h = absurd (ground arith)

ms-whole :
    (d : ℤ)
    → leb_ℤ d (pos 0) ≡ false
    → (duration_to_ms d ≡ pos (pos_part (duration_to_ms d))) × (1 ≤ pos_part (duration_to_ms d))
ms-whole (pos zero) h = absurd (ground arith)
ms-whole (negsuc m) h = absurd (ground arith)
ms-whole (pos (suc m)) h = let (n, e, up) = duration_to_ms_pos m in (rw e refl, rw e (omega arith))

module _ (r : Redis) (lua : LuaNumber) (k : String) (limit : TokenBucketLimit) (c : ℕ) where
  open r use {State, clock}

  abbrev refill : ℕ
  refill = pos_part limit.limit

  abbrev n : ℕ
  n = pos_part (duration_to_ms limit.window)

  abbrev pub CallBucket : List ℤ → State → Type 0
  CallBucket log s = Bucket r lua k c refill n log s

  abbrev script : Exec State (List Any)
  script = token_bucket_script r lua k (pos c) (pos refill) (pos n)

  pub InRange-Sizes :
      InRange limit c
      → Sizes c refill n × (limit.limit ≡ pos refill) × (duration_to_ms limit.window ≡ pos n)
  unfolding validate_token_bucket_rate_limit
  InRange-Sizes i =
      let (some_limit, up) = whole limit.limit (ground (arith, i.valid)) in
      let (some_window, up_window) = ms-whole limit.window (ground (arith, i.valid)) in
      (
        record {
          capacity_pos = ground (arith, i.valid);
          capacity_le = i.capacity_le;
          refill_pos = up;
          refill_le = i.limit_le;
          window_pos = up_window;
          window_le = i.window_le;
        },
        some_limit,
        some_window,
      )

  allow-place :
      (l : RateLimiter) (key : String) (w : World State)
      → InRange limit c
      → key_of r l key ≡ k
      → SamePlace (allow_token_bucket r lua (some l) key limit w).1 w
        ⊎ SamePlace (allow_token_bucket r lua (some l) key limit w).1 (round_trip script w).1
  unfolding allow_token_bucket
  allow-place l key w i e = let (z, p, q) = InRange-Sizes i in ground (arith, i.valid)

  allow-decision :
      (l : RateLimiter) (key : String) (w : World State) (d : Decision)
      → InRange limit c
      → key_of r l key ≡ k
      → (allow_token_bucket r lua (some l) key limit w).0 ≡ ok d
      → (reply : List Any) × ((round_trip script w).0 ≡ ok reply)
        × (parse_rate_limit_decision reply ≡ ok d)
        × ((allow_token_bucket r lua (some l) key limit w).1.server
            ≡ (round_trip script w).1.server)
  unfolding allow_token_bucket
  allow-decision l key w d i e h =
      let (z, p, q) = InRange-Sizes i in
      elim (Result-cases (round_trip script w).0) [
        | inl (reply, a) ↦ (reply, a, ground (arith, i.valid), ground (arith, i.valid))
        | inr (x, a) ↦ absurd (ground (arith, i.valid))
      ]

  abbrev pub Quiet : List (Event State) → Type 0
  Quiet schedule =
      All (λ (e : Event State). OnlyTime r k (duration_to_ms limit.window) e.others) schedule

  keeps :
      (log : List ℤ) (schedule : List (Event State))
      → Quiet schedule
      → All
          (λ (e : Event State). (s : State) → CallBucket log s → CallBucket log (e.others s))
          schedule
  keeps log [] q = tt
  keeps log (e ∷ schedule) q = (
    λ s h. Bucket-others r lua k c refill n (duration_to_ms limit.window) log e.others s q.0 h,
    keeps log schedule q.1,
  )

  pub at_arrival :
      (log : List ℤ) (w : World State)
      → Quiet w.schedule
      → CallBucket log w.server
      → CallBucket log (arrival w)
  at_arrival log w q h =
      arrival-IsSafe (CallBucket log) w (record { now = h; later = keeps log w.schedule q })

  pub call-Quiet :
      (l : RateLimiter) (key : String) (w : World State)
      → InRange limit c
      → key_of r l key ≡ k
      → Quiet w.schedule
      → Quiet (allow_token_bucket r lua (some l) key limit w).1.schedule
  call-Quiet l key w i e q = elim (allow-place l key w i e) [
    | inl (_, p) ↦ rw p q
    | inr (_, p) ↦ rw p (All-round_trip _ script w q)
  ]

  -- The script keeps the invariant, also when its reply is lost.
  after_script :
      (log : List ℤ) (s : State) → InRange limit c → CallBucket log s → CallBucket log (script s).1
  after_script log s i h = elim (script-Ran r lua k c refill n log s (InRange-Sizes i).0 h) [
    | inl (_, kept, _) ↦
        inr (Filled-forget r lua k c refill n (pos (clock s)) log (script s).1 kept)
    | inr (_, kept) ↦ inr kept
  ]

  pub call-Bucket :
      (log : List ℤ) (l : RateLimiter) (key : String) (w : World State)
      → InRange limit c
      → key_of r l key ≡ k
      → Quiet w.schedule
      → CallBucket log w.server
      → CallBucket log (allow_token_bucket r lua (some l) key limit w).1.server
  call-Bucket log l key w i e q h = elim (allow-place l key w i e) [
    | inl (p, _) ↦ rw p h
    | inr (p, _) ↦
        let start = at_arrival log w q h in
        elim (round_trip_once script w) [
          | inl idle ↦ rw (p, idle) start
          | inr ran ↦ rw (p, ran) (after_script log (arrival w) i start)
        ]
  ]

  -- A request that was allowed is counted, and at its time the capacity is kept.
  pub call-allowed :
      (log : List ℤ) (l : RateLimiter) (key : String) (w : World State) (d : Decision)
      → InRange limit c
      → key_of r l key ≡ k
      → Quiet w.schedule
      → CallBucket log w.server
      → (allow_token_bucket r lua (some l) key limit w).0 ≡ ok d
      → d.is_allowed ≡ true
      → CallBucket
          (pos (clock (arrival w)) ∷ log)
          (allow_token_bucket r lua (some l) key limit w).1.server
        × (count (pos (clock (arrival w))) (pos (clock (arrival w)) ∷ log) ≤ c)
  call-allowed log l key w d i e q h given yes_ =
      let (reply, answered, read, place) = allow-decision l key w d i e given in
      let (ran, left) = round_trip_ok script w reply answered in
      let start = at_arrival log w q h in
      elim (script-Ran r lua k c refill n log (arrival w) (InRange-Sizes i).0 start) [
        | inr (inl (reply', ran', (d', read', no_)), kept) ↦ absurd (ground arith)
        | inr (inr (e, failed), kept) ↦ absurd (ground arith)
        | inl (decides, kept, bound) ↦ (rw (place, left) (inr kept), bound)
      ]
