-- ===== src/RateLimit/Bound.antt =====
-- A fixed window admits no more requests than its limit, over any calls of any limiters.
use xredis.Prelude.{
  ℕ, zero, suc, ◌+◌, ◌<◌, ◌≡◌, refl, sym, subst, ◌∙◌, ◌⊎◌, inl, inr, String, true, false, some,
  List, [], ◌∷◌, All, ℤ, pos, negsuc, pos_part, ◌+ℤ◌, ◌≤ℤ◌, leb_ℤ, arith, +ℤ_parts, Bool-cases,
  if◌then◌else◌,
}
use xredis.Exec.{Result, ok, err, Exec}
use xredis.Exec.Invert.{Result-cases}
use xredis.Redis.{Redis, Any}
use xredis.Time.{duration_to_ms}
use xredis.Client.{World, round_trip, arrival}
use xredis.Client.Trip.{round_trip_ok}
use xredis.Client.Safe.{SamePlace, arrival-IsSafe}
use xredis.Client.Counter.{AtLeast, Stands, Stands-IsSafe, Stands-same, Stands-round_trip}
use xredis.Lock.Contract.{duration_to_ms_pos}
use xredis.RateLimit.{
  RateLimiter, Limit, Decision, allow_fixed_window, key_of, fixed_window_script,
  parse_rate_limit_decision,
}
use xredis.RateLimit.Script.{Limited, fixed_window_script-Limited}

-- One more if the decision is to allow.
abbrev pub admits : Result Decision → ℕ → ℕ
admits (ok d) n = if d.is_allowed then suc n else n
admits (err e) n = n

module _ (r : Redis) (k : String) (limit : Limit) where
  open r use {State}

  -- Requests one after the other, each on a limiter and with a key; how many are allowed.
  unfoldable pub admissions : List (RateLimiter × String) → World State → ℕ
  admissions [] w = 0
  admissions ((l, key) ∷ calls) w =
      let rest = admissions calls (allow_fixed_window r (some l) key limit w).1 in
      admits (allow_fixed_window r (some l) key limit w).0 rest

  -- The limiters and keys that make this Redis key.
  abbrev pub Shares : RateLimiter × String → Type 0
  Shares (l, key) = key_of r l key ≡ k

  abbrev script : Exec State (List Any)
  script = fixed_window_script r k limit.limit (duration_to_ms limit.window)

  allow-place :
      (l : RateLimiter) (key : String) (w : World State)
      → key_of r l key ≡ k
      → SamePlace (allow_fixed_window r (some l) key limit w).1 w
        ⊎ ((leb_ℤ limit.window (pos 0) ≡ false)
            × SamePlace (allow_fixed_window r (some l) key limit w).1 (round_trip script w).1)
  unfolding allow_fixed_window
  allow-place l key w e = ground arith

  allow-decision :
      (l : RateLimiter) (key : String) (w : World State) (d : Decision)
      → key_of r l key ≡ k
      → (allow_fixed_window r (some l) key limit w).0 ≡ ok d
      → (reply : List Any) × ((round_trip script w).0 ≡ ok reply)
        × (parse_rate_limit_decision reply ≡ ok d)
        × (leb_ℤ limit.window (pos 0) ≡ false)
        × ((allow_fixed_window r (some l) key limit w).1.server ≡ (round_trip script w).1.server)
  unfolding allow_fixed_window
  allow-decision l key w d e h = elim (Result-cases (round_trip script w).0) [
    | inl (reply, p) ↦ (reply, p, ground arith, ground arith, ground arith)
    | inr (x, p) ↦ absurd (ground arith)
  ]

  pub positive_ms : (n : ℤ) → leb_ℤ n (pos 0) ≡ false → 0 < pos_part (duration_to_ms n)
  positive_ms (pos zero) h = absurd (ground arith)
  positive_ms (negsuc n) h = absurd (ground arith)
  positive_ms (pos (suc n)) h = let (m, e, up) = duration_to_ms_pos n in rw e (omega arith)

  AtLeast-Limited :
      (n : ℤ) (s : State) (q : Result (List Any) × State)
      → Limited r k limit.limit s q
      → AtLeast r k n s
      → AtLeast r k n q.1
  AtLeast-Limited n s q (inl (same, reject)) (m, e, up) = (m, same ∙ e, up)
  AtLeast-Limited n s q (inr (m, old, room, new)) (i, e, up) =
      let same : i ≡ m = ground arith in
      let below : n ≤ℤ m = subst (λ x. n ≤ℤ x) same up in
      (m +ℤ pos 1, new, omega (arith, +ℤ_parts m (pos 1)))

  AtLeast-allowed :
      (n : ℕ) (s : State) (q : Result (List Any) × State) (reply : List Any) (d : Decision)
      → Limited r k limit.limit s q
      → AtLeast r k (pos n) s
      → q.0 ≡ ok reply
      → parse_rate_limit_decision reply ≡ ok d
      → d.is_allowed ≡ true
      → (pos (suc n) ≤ℤ limit.limit) × AtLeast r k (pos (suc n)) q.1
  AtLeast-allowed n s q reply d (inl (same, reject)) h e p yes_ =
      absurd (ground (arith, reject reply d e p))
  AtLeast-allowed n s q reply d (inr (m, old, room, new)) (i, f, up) e p yes_ =
      let same : i ≡ m = ground arith in
      let below : pos n ≤ℤ m = subst (λ x. pos n ≤ℤ x) same up in
      (omega arith, (m +ℤ pos 1, new, omega (arith, +ℤ_parts m (pos 1))))

  allow-Stands :
      (n : ℤ) (l : RateLimiter) (key : String) (w : World State)
      → key_of r l key ≡ k
      → Stands r k n w
      → Stands r k n (allow_fixed_window r (some l) key limit w).1
  allow-Stands n l key w e h = elim (allow-place l key w e) [
    | inl p ↦ Stands-same r k p h
    | inr (up, p) ↦ Stands-same r k p (
        Stands-round_trip r k n script w
          (λ s.
            AtLeast-Limited n s (script s)
              (fixed_window_script-Limited r k limit.limit _ s (positive_ms limit.window up)))
          h)
  ]

  admits-cases :
      (q : Result Decision) (n : ℕ)
      → (admits q n ≡ n)
        ⊎ ((d : Decision) × (q ≡ ok d) × (d.is_allowed ≡ true) × (admits q n ≡ suc n))
  admits-cases (err e) n = inl refl
  admits-cases (ok d) n = elim (Bool-cases d.is_allowed) [
    | inl yes_ ↦ inr (d, refl, yes_, rw yes_)
    | inr no_ ↦ inl (rw no_)
  ]

  admissions_bound :
      (calls : List (RateLimiter × String)) (n : ℕ) (w : World State)
      → All Shares calls
      → Stands r k (pos n) w
      → pos n ≤ℤ limit.limit
      → pos (n + admissions calls w) ≤ℤ limit.limit
  unfolding admissions
  admissions_bound [] n w a h up = omega arith
  admissions_bound ((l, key) ∷ calls) n w a h up =
      let next = (allow_fixed_window r (some l) key limit w).1 in
      let after = allow-Stands (pos n) l key w a.0 h in
      elim (admits-cases (allow_fixed_window r (some l) key limit w).0 (admissions calls next)) [
        | inl e ↦ rw e (admissions_bound calls n next a.1 after up)
        | inr (d, q, yes_, e) ↦
            let (reply, answered, read, window, place) = allow-decision l key w d a.0 q in
            let (ran, left) = round_trip_ok script w reply answered in
            let limited =
              fixed_window_script-Limited r k limit.limit _ (arrival w)
                (positive_ms limit.window window) in
            let start = arrival-IsSafe (AtLeast r k (pos n)) w (Stands-IsSafe r k h) in
            let (room, at) =
              AtLeast-allowed n (arrival w) (script (arrival w)) reply d limited start ran read
                yes_ in
            let reached : AtLeast r k (pos (suc n)) next.server =
              subst (AtLeast r k (pos (suc n))) (sym (place ∙ left)) at in
            let more =
              admissions_bound calls (suc n) next a.1
                (record { reached = reached; kept = after.kept }) room in
            rw e (omega arith)
      ]

-- A fixed window admits at most `limit` requests. Take any sequence of calls of AllowFixedWindow
-- with one limit, by any limiters whose keys make the same Redis key. Requests may fail before or
-- after they are run, and others may do anything between them but take the counter back (they
-- count too, and the window has not ended). If the counter stood at n, within the limit, then n
-- and the number of requests that were allowed are within the limit together.
pub fixed_window_bound :
    (r : Redis) (k : String) (limit : Limit) (calls : List (RateLimiter × String)) (n : ℕ)
    (w : World r.State)
    → All (Shares r k limit) calls
    → Stands r k (pos n) w
    → pos n ≤ℤ limit.limit
    → pos (n + admissions r k limit calls w) ≤ℤ limit.limit
fixed_window_bound r k limit calls n w a h up = admissions_bound r k limit calls n w a h up
