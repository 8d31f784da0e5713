-- ===== src/RateLimit/Sliding/Bound.antt =====
-- A sliding window admits no more requests than its limit in any window of time.
use xredis.Prelude.{
  ℕ, ◌<◌, ◌≡◌, refl, sym, ap, subst, ◌⊎◌, inl, inr, String, true, false, none, some, List, [], ◌∷◌,
  All, ℤ, pos, pos_part, leb_ℤ, arith, Bool-cases, if◌then◌else◌,
}
use xredis.Exec.{Result, ok, err, Exec}
use xredis.Exec.Invert.{Result-cases}
use xredis.Redis.{Redis, Any, members_of}
use xredis.Time.{duration_to_ms}
use xredis.Client.{World, Event, round_trip, arrival}
use xredis.Client.Trip.{round_trip_ok, round_trip_once}
use xredis.Client.Safe.{SamePlace, arrival-IsSafe, All-round_trip}
use xredis.RateLimit.{RateLimiter, Limit, Decision, key_of, parse_rate_limit_decision}
use xredis.RateLimit.Bound.{Shares, positive_ms}
use xredis.RateLimit.Sliding.{allow_sliding_window, sliding_window_script, next_member}
use xredis.RateLimit.Sliding.Step.{sliding_window_script-Stepped}
use xredis.RateLimit.Sliding.Kept.{
  Kept, OnlyTime, Distinct, Lacks-none, Spaced, Kept-others, Kept-skip, Kept-forget, Kept-reject,
  Kept-admit,
}

-- The time of a request, if it was allowed.
abbrev pub logged : Result Decision → ℤ → List ℤ → List ℤ
logged (ok d) t log = if d.is_allowed then t ∷ log else log
logged (err e) t log = log

pub logged-cases :
    (q : Result Decision) (t : ℤ) (log : List ℤ)
    → (logged q t log ≡ log)
      ⊎ ((d : Decision) × (q ≡ ok d) × (d.is_allowed ≡ true) × (logged q t log ≡ t ∷ log))
logged-cases (err e) t log = inl refl
logged-cases (ok d) t log = elim (Bool-cases d.is_allowed) [
  | inl yes_ ↦ inr (d, refl, yes_, rw yes_ refl)
  | inr no_ ↦ inl (rw no_ refl)
]

module _ (r : Redis) (format_uint : ℕ → String) (k : String) (limit : Limit) where
  open r use {State, clock, lookup}

  -- The members that the calls draw.
  abbrev pub members : List (RateLimiter × String) → List String
  members [] = []
  members ((l, key) ∷ calls) = (next_member format_uint l).0 ∷ members calls

  -- Requests one after the other; the times of those that were allowed, the last one first.
  unfoldable pub allowed_times : List (RateLimiter × String) → World State → List ℤ → List ℤ
  allowed_times [] w log = log
  allowed_times ((l, key) ∷ calls) w log =
      let q = allow_sliding_window r format_uint (some l) key limit w in
      allowed_times calls q.1 (logged q.0 (pos (clock (arrival w))) log)

  abbrev window : ℤ
  window = duration_to_ms limit.window

  abbrev script : RateLimiter → Exec State (List Any)
  script l = sliding_window_script r k limit.limit window (next_member format_uint l).0

  abbrev Quiet : List (Event State) → Type 0
  Quiet schedule = All (λ (e : Event State). OnlyTime r k window e.others) schedule

  allow-place :
      (l : RateLimiter) (key : String) (w : World State)
      → key_of r l key ≡ k
      → SamePlace (allow_sliding_window r format_uint (some l) key limit w).1 w
        ⊎ ((leb_ℤ limit.window (pos 0) ≡ false)
            × SamePlace
                (allow_sliding_window r format_uint (some l) key limit w).1
                (round_trip (script l) w).1)
  unfolding allow_sliding_window
  allow-place l key w e = ground arith

  allow-decision :
      (l : RateLimiter) (key : String) (w : World State) (d : Decision)
      → key_of r l key ≡ k
      → (allow_sliding_window r format_uint (some l) key limit w).0 ≡ ok d
      → (reply : List Any) × ((round_trip (script l) w).0 ≡ ok reply)
        × (parse_rate_limit_decision reply ≡ ok d)
        × (leb_ℤ limit.window (pos 0) ≡ false)
        × ((allow_sliding_window r format_uint (some l) key limit w).1.server
            ≡ (round_trip (script l) w).1.server)
  unfolding allow_sliding_window
  allow-decision l key w d e h = elim (Result-cases (round_trip (script l) w).0) [
    | inl (reply, p) ↦ (reply, p, ground arith, ground arith, ground arith)
    | inr (x, p) ↦ absurd (ground arith)
  ]

  abbrev Now : List ℤ → List String → State → Type 0
  Now log coming s = Kept r k window log coming s

  keeps :
      (log : List ℤ) (coming : List String) (schedule : List (Event State))
      → Quiet schedule
      → All
          (λ (e : Event State). (s : State) → Now log coming s → Now log coming (e.others s))
          schedule
  keeps log coming [] q = tt
  keeps log coming (e ∷ schedule) q =
      (λ s h. Kept-others r k window log coming e.others s q.0 h, keeps log coming schedule q.1)

  at_arrival :
      (log : List ℤ) (coming : List String) (w : World State)
      → Quiet w.schedule
      → Now log coming w.server
      → Now log coming (arrival w)
  at_arrival log coming w q h =
      arrival-IsSafe (Now log coming) w (record { now = h; later = keeps log coming w.schedule q })

  -- The script keeps the invariant, also when its reply is lost.
  after_script :
      (log : List ℤ) (l : RateLimiter) (coming : List String) (s : State)
      → 0 < pos_part window
      → Distinct ((next_member format_uint l).0 ∷ coming)
      → Now log ((next_member format_uint l).0 ∷ coming) s
      → Now log coming (script l s).1
  after_script log l coming s p apart h =
      let m : String = (next_member format_uint l).0 in
      elim (sliding_window_script-Stepped r k limit.limit window m s h.members h.now p h.holds) [
        | inl (held, until, rejects) ↦
            Kept-skip r k window log m coming _
              (Kept-reject r k window log (m ∷ coming) s (script l s).1 h p held until)
        | inr (room, held, until) ↦
            Kept-forget r k window (pos h.now) log coming _
              (Kept-admit r k window limit.limit log m coming s (script l s).1 h p apart room held
                until).0
      ]

  call-Kept :
      (log : List ℤ) (l : RateLimiter) (key : String) (coming : List String) (w : World State)
      → key_of r l key ≡ k
      → Distinct ((next_member format_uint l).0 ∷ coming)
      → Quiet w.schedule
      → Now log ((next_member format_uint l).0 ∷ coming) w.server
      → Now log coming (allow_sliding_window r format_uint (some l) key limit w).1.server
  call-Kept log l key coming w e apart q h = elim (allow-place l key w e) [
    | inl (p, _) ↦ rw p (Kept-skip r k window log _ coming w.server h)
    | inr (up, (p, _)) ↦
        let start = at_arrival log ((next_member format_uint l).0 ∷ coming) w q h in
        elim (round_trip_once (script l) w) [
          | inl idle ↦ rw (p, idle) (Kept-skip r k window log _ coming (arrival w) start)
          | inr ran ↦
              rw (p, ran)
                (after_script log l coming (arrival w) (positive_ms r k limit limit.window up) apart
                  start)
        ]
  ]

  call-Quiet :
      (l : RateLimiter) (key : String) (w : World State)
      → key_of r l key ≡ k
      → Quiet w.schedule
      → Quiet (allow_sliding_window r format_uint (some l) key limit w).1.schedule
  call-Quiet l key w e q = elim (allow-place l key w e) [
    | inl (_, p) ↦ rw p q
    | inr (up, (_, p)) ↦ rw p (All-round_trip _ (script l) w q)
  ]

  -- A request that was allowed: the invariant knows of it, and its window had room.
  call-allowed :
      (log : List ℤ) (l : RateLimiter) (key : String) (coming : List String) (w : World State)
      (d : Decision)
      → key_of r l key ≡ k
      → Distinct ((next_member format_uint l).0 ∷ coming)
      → Quiet w.schedule
      → Now log ((next_member format_uint l).0 ∷ coming) w.server
      → (allow_sliding_window r format_uint (some l) key limit w).0 ≡ ok d
      → d.is_allowed ≡ true
      → Spaced limit.limit window log
      → Now
          (pos (clock (arrival w)) ∷ log)
          coming
          (allow_sliding_window r format_uint (some l) key limit w).1.server
        × Spaced limit.limit window (pos (clock (arrival w)) ∷ log)
  call-allowed log l key coming w d e apart q h given yes_ spaced =
      let m : String = (next_member format_uint l).0 in
      let (reply, answered, read, up, place) = allow-decision l key w d e given in
      let (ran, left) = round_trip_ok (script l) w reply answered in
      let start = at_arrival log (m ∷ coming) w q h in
      let p = positive_ms r k limit limit.window up in
      elim (sliding_window_script-Stepped r k limit.limit window m (arrival w) start.members
        start.now p start.holds) [
          | inl (held, until, rejects) ↦ absurd (ground (arith, rejects reply d ran read))
          | inr (room, held, until) ↦
              let (kept, bound) =
                Kept-admit r k window limit.limit log m coming (arrival w) (script l (arrival w)).1
                  start p apart room held until in
              subst
                (λ (z : ℕ).
                  Now (pos z ∷ log) coming
                    (allow_sliding_window r format_uint (some l) key limit w).1.server
                  × Spaced limit.limit window (pos z ∷ log))
                (sym start.holds.at) (rw (place, left) kept, (bound, spaced))
        ]

  spaced :
      (calls : List (RateLimiter × String)) (w : World State) (log : List ℤ)
      → All (Shares r k limit) calls
      → Distinct (members calls)
      → Quiet w.schedule
      → Now log (members calls) w.server
      → Spaced limit.limit window log
      → Spaced limit.limit window (allowed_times calls w log)
  unfolding allowed_times
  spaced [] w log a apart q h s = s
  spaced ((l, key) ∷ calls) w log a apart q h s =
      let run = allow_sliding_window r format_uint (some l) key limit w in
      let quiet = call-Quiet l key w a.0 q in
      elim (logged-cases run.0 (pos (clock (arrival w))) log) [
        | inl same ↦ rw same (
            spaced calls run.1 log a.1 apart.1 quiet
              (call-Kept log l key (members calls) w a.0 apart q h) s)
        | inr (d, given, yes_, more) ↦
            let (kept, bound) =
              call-allowed log l key (members calls) w d a.0 apart q h given yes_ s in
            rw more
              (spaced calls run.1 (pos (clock (arrival w)) ∷ log) a.1 apart.1 quiet kept bound)
      ]

-- In any window of time a sliding window admits at most `limit` requests. Take any sequence of
-- calls of AllowSlidingWindow with one limit, by any limiters whose keys make the same Redis key,
-- which is free at the start, where no two calls draw the same member. Requests may fail before or
-- after they are run; between them others leave the key alone, but time passes, and the key is gone
-- once its deadline is reached. Then the window that ends with a request that was allowed holds at
-- most `limit` allowed requests, this one counted.
pub sliding_window_bound :
    (r : Redis) (format_uint : ℕ → String) (k : String) (limit : Limit)
    (calls : List (RateLimiter × String)) (w : World r.State)
    → All (Shares r k limit) calls
    → Distinct (members r format_uint k limit calls)
    → All (λ (e : Event r.State). OnlyTime r k (duration_to_ms limit.window) e.others) w.schedule
    → r.lookup w.server k ≡ none
    → Spaced limit.limit
        (duration_to_ms limit.window)
        (allowed_times r format_uint k limit calls w [])
sliding_window_bound r format_uint k limit calls w a apart q free =
    spaced r format_uint k limit calls w [] a apart q
      (record {
        members = [];
        now = r.clock w.server;
        holds = record { stored = ap members_of free; at = refl };
        past = tt;
        fresh = Lacks-none (members r format_uint k limit calls);
        covers = λ c p. omega arith;
        lasting = λ t p. tt;
      })
      tt
