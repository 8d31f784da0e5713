-- ===== src/RateLimit/Token/Steady.antt =====
-- A token bucket serves every client that keeps the pace of its refill.
use xredis.Prelude.{
  ℕ, zero, suc, ◌*◌, ◌-◌, ◌≤◌, ◌≡◌, refl, inl, inr, String, Bool, true, false, none, some, List, [],
  ◌∷◌, All, pos, pos_part, arith, ◌&&◌,
}
use xredis.Exec.{Result, ok, err, Exec}
use xredis.Redis.{Redis, Any}
use xredis.Time.{duration_to_ms}
use xredis.Client.{World, Event, delivered, round_trip}
use xredis.RateLimit.{RateLimiter, TokenBucketLimit, Decision, key_of, validate_key}
use xredis.RateLimit.Sliding.Kept.{OnlyTime}
use xredis.RateLimit.Token.{allow_token_bucket, token_bucket_script}
use xredis.Redis.Number.{LuaNumber, largest}
use xredis.RateLimit.Token.Step.{Decides}
use xredis.RateLimit.Token.Bucket.{Sizes, Bucket, Found, found_tokens, Fresh-Found, Filled-Found}
use xredis.RateLimit.Token.Run.{Grants, script-allows, script-Decides}
use xredis.RateLimit.Token.Kept.{Filled-forget, Fresh-others, Filled-others}
use xredis.RateLimit.Token.Call.{InRange, InRange-Sizes}

abbrev is_allowed : Result Decision → Bool
is_allowed (ok d) = d.is_allowed
is_allowed (err e) = false

mul_mono : (a b k : ℕ) → a ≤ b → a * k ≤ b * k
mul_mono a b zero h = omega arith
mul_mono a b (suc k) h = grind (arith, mul_mono a b k h)

module _ (r : Redis) (lua : LuaNumber) (k : String) (limit : TokenBucketLimit) where
  open r use {State, clock, lookup}

  abbrev n : ℕ
  n = pos_part (duration_to_ms limit.window)

  abbrev refill : ℕ
  refill = pos_part limit.limit

  -- Requests one after the other: whether every one of them is allowed.
  unfoldable pub every_allowed : List (RateLimiter × String) → World State → Bool
  every_allowed [] w = true
  every_allowed ((l, key) ∷ calls) w =
      let rest = every_allowed calls (allow_token_bucket r lua (some l) key limit w).1 in
      is_allowed (allow_token_bucket r lua (some l) key limit w).0 && rest

  -- Before the request comes the time in which one token is filled up, and nothing else at the key.
  pub record Pause (e : Event State) : Type 0 where
    pub arrives : e.fault ≡ delivered
    pub only_time : OnlyTime r k (duration_to_ms limit.window) e.others
    pub long : (s : State) → n ≤ (clock (e.others s) - clock s) * refill

  -- One pause for each request.
  abbrev pub Paced : List (RateLimiter × String) → List (Event State) → Type 0
  Paced [] schedule = Unit
  Paced (call ∷ calls) [] = 1 ≤ 0
  Paced (call ∷ calls) (e ∷ schedule) = Pause e × Paced calls schedule

  -- A limiter that works, a key of it that is not empty, and the bucket that they share.
  abbrev pub Asks : RateLimiter × String → Type 0
  Asks (l, key) = (validate_key l key ≡ ok tt) × (key_of r l key ≡ k)

  -- After a pause there is a token.
  Pause-Found :
      (c : ℕ) (s : State) (e : Event State)
      → Sizes c refill n
      → Pause e
      → Bucket r lua k c refill n [] s
      → (f : Found r lua k c refill n [] (e.others s)) × (lua.leb
            (lua.int (pos 1))
            (found_tokens r lua k c refill n [] (e.others s) f)
          ≡ true)
  Pause-Found c s e z p (inl f) =
      Fresh-Found r lua k c refill n [] (e.others s) z
        (Fresh-others r lua k c refill n (duration_to_ms limit.window) [] e.others s p.only_time f)
  Pause-Found c s e z p (inr f) =
      elim (Filled-others r lua k c refill n (duration_to_ms limit.window) [] e.others s p.only_time
        f) [
          | inl gone ↦ Fresh-Found r lua k c refill n [] (e.others s) z gone
          | inr (g, same) ↦
              let (found, one) = Filled-Found r lua k c refill n [] (e.others s) z g in
              let longer : (clock (e.others s) - clock s) ≤ (g.now - g.filled_at) =
                omega (arith, same, f.past, f.holds.at, g.holds.at) in
              (
                found,
                one (
                    omega (
                      arith,
                      p.long s,
                      mul_mono (clock (e.others s) - clock s) (g.now - g.filled_at) refill longer,
                    )),
              )
        ]

  abbrev script : ℕ → Exec State (List Any)
  script c = token_bucket_script r lua k (pos c) (pos refill) (pos n)

  -- A request that arrives, and is decided by the script.
  call-delivered :
      (c : ℕ) (l : RateLimiter) (key : String) (w : World State) (e : Event State)
      (rest : List (Event State))
      → InRange limit c
      → Asks (l, key)
      → w.schedule ≡ e ∷ rest
      → e.fault ≡ delivered
      → Decides r lua k true (script c (e.others w.server)).0
      → (is_allowed (allow_token_bucket r lua (some l) key limit w).0 ≡ true)
        × ((allow_token_bucket r lua (some l) key limit w).1.server
            ≡ (script c (e.others w.server)).1)
        × ((allow_token_bucket r lua (some l) key limit w).1.schedule ≡ rest)
  unfolding allow_token_bucket round_trip validate_key
  call-delivered c l key w e rest i a p f (reply, q, (d, read, yes_)) =
      let (z, g, h) = InRange-Sizes r lua k limit c i in
      let trip : round_trip (script c) w
          ≡ (ok reply, record w { server = (script c (e.others w.server)).1; schedule = rest }) =
        ground arith in
      (ground (arith, i.valid), ground (arith, i.valid), ground (arith, i.valid))

  next-Pause :
      (call : RateLimiter × String) (calls : List (RateLimiter × String))
      (schedule : List (Event State))
      → Paced (call ∷ calls) schedule
      → (e : Event State) × (rest : List (Event State)) × (schedule ≡ e ∷ rest)
        × Pause e
        × Paced calls rest
  next-Pause call calls [] p = absurd (omega arith)
  next-Pause call calls (e ∷ rest) (q, later) = (e, rest, refl, q, later)

  -- A run that decides is not one that fails.
  granted :
      (c : ℕ) (s : State) (f : Found r lua k c refill n [] s)
      → Sizes c refill n
      → lua.leb (lua.int (pos 1)) (found_tokens r lua k c refill n [] s f) ≡ true
      → Decides r lua k true (script c s).0
      → Grants r lua k c refill n [] f.now (script c s)
  granted c s f z one (reply, q, d) = elim (script-allows r lua k c refill n [] s f z one) [
    | inl run ↦ run
    | inr ((e, failed), kept) ↦ absurd (ground arith)
  ]

  -- After an allowed request the bucket is as its run left it.
  served :
      (c : ℕ) (calls : List (RateLimiter × String)) (w : World State)
      → InRange limit c
      → c * n ≤ largest
      → All Asks calls
      → Paced calls w.schedule
      → Bucket r lua k c refill n [] w.server
      → every_allowed calls w ≡ true
  unfolding every_allowed
  served c [] w i small a p h = refl
  served c ((l, key) ∷ calls) w i small a p h =
      let (e, rest, at_, q, later) = next-Pause (l, key) calls w.schedule p in
      let z = (InRange-Sizes r lua k limit c i).0 in
      let (f, one) = Pause-Found c w.server e z q h in
      let decides = script-Decides r lua k c refill n [] (e.others w.server) f z small one in
      let (_, kept, _) = granted c (e.others w.server) f z one decides in
      let (yes_, place, left) = call-delivered c l key w e rest i a.0 at_ q.arrives decides in
      rw yes_ (
        served c calls _ i small a.1 (rw left later)
          (rw place (inr (Filled-forget r lua k c refill n (pos f.now) [] _ kept))))

-- Nobody who keeps the pace of the refill is rejected. Take any sequence of calls of
-- AllowTokenBucket with one limit, each by a limiter with a client and on a key that is not empty,
-- that all make the same Redis key, which is free at the start; the limit is one that the method
-- takes, its capacity, its refill and its window in milliseconds have at most 14 digits, and so has
-- the product of capacity and window, which bounds the time that PEXPIRE is given. Before
-- each request others leave the key alone while so many milliseconds pass that their number times
-- the refill reaches the window (the key is gone once its deadline is reached), and the request and
-- its reply arrive. Then every one of the requests is allowed.
pub token_bucket_steady :
    (r : Redis) (lua : LuaNumber) (k : String) (limit : TokenBucketLimit) (c : ℕ)
    (calls : List (RateLimiter × String)) (w : World r.State)
    → InRange limit c
    → c * pos_part (duration_to_ms limit.window) ≤ largest
    → All (Asks r lua k limit) calls
    → Paced r lua k limit calls w.schedule
    → r.lookup w.server k ≡ none
    → every_allowed r lua k limit calls w ≡ true
token_bucket_steady r lua k limit c calls w i small a p free =
    served r lua k limit c calls w i small a p (inl (free, tt))
