-- ===== src/RateLimit/Sliding/Room.antt =====
-- What an undisturbed request to a sliding window is told.
use xredis.Prelude.{
  ℕ, suc, ◌<◌, ◌≡◌, refl, String, Bool, true, false, some, List, [], ℤ, pos, pos_part, ◌-ℤ◌, ltb_ℤ,
  leb_ℤ, if◌then◌else◌, Bool-cases, inl, inr, length, arith,
}
use xredis.Exec.{ok}
use xredis.Redis.{Redis, drop_upto, put_member, members_of}
use xredis.Time.{duration_to_ms}
use xredis.Client.{World}
use xredis.Client.Trip.{round_trip_quiet}
use xredis.RateLimit.{
  RateLimiter, Limit, Decision, key_of, validate_key, validate_rate_limit,
  parse_rate_limit_decision,
}
use xredis.RateLimit.Script.{Answers}
use xredis.RateLimit.Bound.{positive_ms}
use xredis.RateLimit.Sliding.{
  refresh_window, report, record_request, sliding_window_script, allow_sliding_window, next_member,
}
use xredis.RateLimit.Sliding.Step.{Holds, pruned, refreshed, expiring, added}

module _ (r : Redis) (k : String) where
  open r use {
    State, clock, lookup, zrange_lem, zremrangebyscore, zremrangebyscore_lem, zadd, zadd_lem,
    pexpire, pexpire_lem,
  }

  report-Answers :
      (b : Bool) (limit window current : ℤ) (s : State) (ms : List (ℤ × String)) (now : ℕ)
      → Holds r k s ms now
      → Answers b (report r k limit window (pos now) (if b then pos 1 else pos 0) current s).0
  unfolding report parse_rate_limit_decision
  report-Answers true limit window current s ms now h =
      rw (zrange_lem s k, h.stored) (_, refl, _, refl, refl)
  report-Answers false limit window current s ms now h =
      rw (zrange_lem s k, h.stored) (_, refl, _, refl, refl)

  recorded-Answers :
      (limit window : ℤ) (m : String) (s : State) (ms : List (ℤ × String)) (now : ℕ)
      → 0 < pos_part window
      → Holds r k s ms now
      → Answers
          (ltb_ℤ (pos (length ms)) limit)
          (record_request r k limit window m (pos now) (length ms) s).0
  unfolding record_request
  recorded-Answers limit window m s ms now p h = elim (Bool-cases (ltb_ℤ (pos (length ms)) limit)) [
    | inr full ↦ rw full (report-Answers false limit window (pos (length ms)) s ms now h)
    | inl fits ↦
        let (a, adds) = zadd_lem k (pos now) m s ms h.stored in
        let t : State = (zadd k (pos now) m s).1 in
        let (held, until) =
          expiring r k (pos_part window) t (put_member (pos now) m ms) now p
            (added r k (pos now) m s ms now h) in
        rw (fits, adds, pexpire_lem k (pos_part window) t p)
          (report-Answers true limit window (pos (suc (length ms)))
            (pexpire k (pos_part window) t).1 _ now held)
  ]

  pub script-Answers :
      (limit window : ℤ) (m : String) (s : State) (ms : List (ℤ × String)) (now : ℕ)
      → 0 < pos_part window
      → Holds r k s ms now
      → Answers
          (ltb_ℤ (pos (length (drop_upto (pos now -ℤ window) ms))) limit)
          (sliding_window_script r k limit window m s).0
  unfolding sliding_window_script
  script-Answers limit window m s ms now p h =
      let max : ℤ = pos now -ℤ window in
      let left : List (ℤ × String) = drop_upto max ms in
      let (n, dropped) = zremrangebyscore_lem k max s ms h.stored in
      let (held, old) = pruned r k max s ms now h in
      let s1 : State = (zremrangebyscore k max s).1 in
      let (again, kept, (c, ran)) = refreshed r k window (length left) s1 left now p held in
      rw (h.at, dropped, zrange_lem s1 k, held.stored, ran)
        (recorded-Answers limit window m (refresh_window r k window (length left) s1).1 left now p
          again)

-- A request to a sliding window is allowed exactly when the window has room. Take a limiter and a
-- key that its check accepts, a limit that the method takes, and a request that nothing disturbs,
-- with requests recorded at the Redis key. Then AllowSlidingWindow answers without an error, and it
-- allows the request if and only if fewer than `limit` of them are in the window that ends now.
pub sliding_window_decides :
    (r : Redis) (format_uint : ℕ → String) (l : RateLimiter) (key : String) (limit : Limit)
    (w : World r.State) (ms : List (ℤ × String))
    → validate_key l key ≡ ok tt
    → validate_rate_limit limit ≡ ok tt
    → w.schedule ≡ []
    → members_of (r.lookup w.server (key_of r l key)) ≡ ok ms
    → (d : Decision) × ((allow_sliding_window r format_uint (some l) key limit w).0 ≡ ok d)
      × (d.is_allowed
          ≡ ltb_ℤ
              (pos (length (drop_upto (pos (r.clock w.server) -ℤ duration_to_ms limit.window) ms)))
              limit.limit)
unfolding allow_sliding_window validate_key validate_rate_limit
sliding_window_decides r format_uint l key limit w ms v g quiet stored =
    let up : leb_ℤ limit.window (pos 0) ≡ false = ground arith in
    let member : String = (next_member format_uint l).0 in
    let script =
      sliding_window_script r (key_of r l key) limit.limit (duration_to_ms limit.window) member in
    let (reply, ran, d, read, decides) =
      script-Answers r (key_of r l key) limit.limit (duration_to_ms limit.window) member w.server ms
        (r.clock w.server) (positive_ms r key limit limit.window up)
        (record { stored = stored; at = refl }) in
    let (answered, left) = round_trip_quiet script w quiet in (d, ground arith, decides)
