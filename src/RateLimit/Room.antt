-- ===== src/RateLimit/Room.antt =====
-- What an undisturbed request to a fixed window is told.
use xredis.Prelude.{
  ◌<◌, ◌≡◌, refl, ◌∙◌, [], String, true, false, Option, some, none, ℤ, pos, pos_part, ◌≤ℤ◌, ◌+ℤ◌,
  ◌<ℤ◌, negsuc, ltb_ℤ, leb_ℤ, eqb_ℤ, arith, Bool-cases, inl, inr,
}
use xredis.Exec.{ok}
use xredis.Redis.{Redis, Entry, Value, str, hash, zset, get_reply, int_of, max_int64}
use xredis.Redis.Number.{exact}
use xredis.Time.{duration_to_ms}
use xredis.Client.{World}
use xredis.Client.Trip.{round_trip_quiet}
use xredis.Client.Counter.{counter}
use xredis.RateLimit.{
  RateLimiter, Limit, Decision, key_of, heal, heal_after, admit, admitted, fixed_window_script,
  allow_fixed_window, validate_key, validate_rate_limit, parse_rate_limit_decision,
}
use xredis.RateLimit.Script.{Answers, heal-counter, current-int_of}
use xredis.RateLimit.Bound.{positive_ms}

int_of-get_reply :
    (read : String → Option ℤ) (e : Option Entry) (n : ℤ)
    → int_of read e ≡ ok n
    → (raw : Option String) × (get_reply e ≡ ok raw)
int_of-get_reply read none n h = (none, refl)
int_of-get_reply read (some e) n h = go e.value refl
  where
    go : (v : Value) → e.value ≡ v → (raw : Option String) × (get_reply (some e) ≡ ok raw)
    go (str v) p = (some v, ground arith)
    go (hash fs) p = absurd (ground arith)
    go (zset ms) p = absurd (ground arith)

module _ (r : Redis) (k : String) where
  open r use {State, get, get_lem, pttl, pexpire_lem, incr, incr_lem, lookup}

  heal_after-IsOk :
      (window now : ℤ) (s : State)
      → 0 < pos_part window
      → (left : ℤ) × ((heal_after r k window now s).0 ≡ ok left)
  unfolding heal_after
  heal_after-IsOk window now s p = elim (Bool-cases (eqb_ℤ now (pos 1))) [
    | inl first ↦ (window, rw (first, pexpire_lem k (pos_part window) s p) refl)
    | inr later ↦ elim (Bool-cases (ltb_ℤ (pttl s k) (pos 0))) [
      | inl lost ↦ (window, rw (later, lost, pexpire_lem k (pos_part window) s p) refl)
      | inr kept ↦ (pttl s k, rw (later, kept) refl)
    ]
  ]

  admitted-Answers :
      (limit window now : ℤ) (s : State)
      → 0 < pos_part window
      → Answers true (admitted r k limit window now s).0
  unfolding admitted parse_rate_limit_decision
  admitted-Answers limit window now s p =
      let (left, ran) = heal_after-IsOk window now s p in rw ran (_, refl, _, refl, refl)

  -- No whole number below a limit of at most 2 ^ 53 is rounded up to it.
  free :
      (limit n : ℤ)
      → pos 0 <ℤ limit
      → limit ≤ℤ pos exact
      → leb_ℤ limit n ≡ false
      → r.lua.leb (r.lua.int limit) (r.lua.int n) ≡ false
  free (negsuc m) n up small under = absurd (omega arith)
  free (pos m) n up small under = elim (Bool-cases (r.lua.leb (r.lua.int (pos m)) (r.lua.int n))) [
    | inl full ↦
        let least = r.lua.leb-int_below m n (omega arith) (omega arith) full in
        absurd (ground arith)
    | inr room ↦ room
  ]

  admit-Answers :
      (limit window n ttl : ℤ) (s : State)
      → 0 < pos_part window
      → pos 0 <ℤ limit
      → limit ≤ℤ pos exact
      → counter r s k ≡ ok n
      → Answers (ltb_ℤ n limit) (admit r k limit window (r.lua.int n) ttl s).0
  unfolding admit parse_rate_limit_decision
  admit-Answers limit window n ttl s p up small h = elim (Bool-cases (leb_ℤ limit n)) [
    | inl reached ↦
        let full : r.lua.leb (r.lua.int limit) (r.lua.int n) ≡ true =
          r.lua.leb-int limit n (ground arith) in
        let no_ : ltb_ℤ n limit ≡ false = ground arith in rw (full, no_) (_, refl, _, refl, refl)
    | inr under ↦
        let room : r.lua.leb (r.lua.int limit) (r.lua.int n) ≡ false =
          free limit n up small under in
        let yes_ : ltb_ℤ n limit ≡ true = ground arith in
        let fits : ltb_ℤ n max_int64 ≡ true = ground (arith, small) in
        let counted : (incr k s).0 ≡ ok (n +ℤ pos 1) = incr_lem k s ∙ rw h (rw fits refl) in
        rw (room, yes_, counted) (admitted-Answers limit window (n +ℤ pos 1) (incr k s).1 p)
  ]

  pub script-Answers :
      (limit window n : ℤ) (s : State)
      → 0 < pos_part window
      → pos 0 <ℤ limit
      → limit ≤ℤ pos exact
      → counter r s k ≡ ok n
      → Answers (ltb_ℤ n limit) (fixed_window_script r k limit window s).0
  unfolding fixed_window_script
  script-Answers limit window n s p up small h =
      let (raw, g) = int_of-get_reply r.read_int (lookup s k) n h in
      let (same, (ttl, healed)) = heal-counter r k window (r.lua.int n) (pttl s k) s p in
      rw (get_lem s k, g, current-int_of r k (lookup s k) n raw g h, healed)
        (admit-Answers limit window n ttl (heal r k window (r.lua.int n) (pttl s k) s).1 p up small
          (same ∙ h))

-- A request to a fixed window is allowed exactly while its counter is below the limit. Take a
-- limiter and a key that its check accepts, a limit of at most 2 ^ 53 that the method takes, and a
-- request that nothing disturbs, where the Redis key is missing, for 0, or holds an integer `n`.
-- Then AllowFixedWindow answers without an error, and it allows the request if and only if `n` is
-- below `limit`.
pub fixed_window_decides :
    (r : Redis) (l : RateLimiter) (key : String) (limit : Limit) (w : World r.State) (n : ℤ)
    → validate_key l key ≡ ok tt
    → validate_rate_limit limit ≡ ok tt
    → limit.limit ≤ℤ pos exact
    → w.schedule ≡ []
    → counter r w.server (key_of r l key) ≡ ok n
    → (d : Decision) × ((allow_fixed_window r (some l) key limit w).0 ≡ ok d)
      × (d.is_allowed ≡ ltb_ℤ n limit.limit)
unfolding allow_fixed_window validate_key validate_rate_limit
fixed_window_decides r l key limit w n v g small quiet h =
    let up : leb_ℤ limit.window (pos 0) ≡ false = ground arith in
    let some_limit : pos 0 <ℤ limit.limit = ground arith in
    let window : ℤ = duration_to_ms limit.window in
    let (reply, ran, d, read, decides) =
      script-Answers r (key_of r l key) limit.limit window n w.server
        (positive_ms r key limit limit.window up) some_limit small h in
    let (answered, left) =
      round_trip_quiet (fixed_window_script r (key_of r l key) limit.limit window) w quiet in
    (d, ground arith, decides)
