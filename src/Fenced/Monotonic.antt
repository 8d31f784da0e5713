-- ===== src/Fenced/Monotonic.antt =====
-- Fencing tokens grow along any sequence of calls, as long as nobody takes the counter back.
use xredis.Prelude.{
  zero, suc, ◌<◌, ◌≡◌, refl, sym, ◌⊎◌, inl, inr, String, true, false, Option, none, some, List, [],
  ◌∷◌, All, ℤ, pos, negsuc, pos_part, ◌+ℤ◌, ◌≤ℤ◌, ◌<ℤ◌, leb_ℤ, arith, +ℤ_parts, str_eq, ◌∙◌, subst,
  ap, ltb_ℤ, Bool-cases, if◌then◌else◌,
}
use xredis.Exec.{Result, ok, err}
use xredis.Redis.{Redis, Any, int64}
use xredis.Redis.Number.{LuaNumber, exact}
use xredis.Time.{duration_to_ms}
use xredis.Client.{Client, World, arrival}
use xredis.Client.Counter.{counter, AtLeast, Stands, Stands-IsSafe, Stands-same, Stands-round_trip}
use xredis.Client.Trip.{round_trip_ok}
use xredis.Client.Safe.{arrival-IsSafe}
use xredis.Cas.{compare_and_delete_script}
use xredis.Lock.{Lock}
use xredis.Lock.Contract.{duration_to_ms_pos}
use xredis.Fenced.{
  FencedLock, FencedLockOptions, try_fenced_lock_with_token, parse_fenced_lock_result,
}
use xredis.Fenced.Script.{
  Counted, acquire-Counted, counter-extend, counter-compare_and_delete_script,
}
use xredis.Fenced.Calls.{
  Call, acquires, releases, extends, issued, Increasing, Apart, attempt, attempts, script_of,
  extension, acquire-cases, acquire-issued, unlock-cases, extend-cases,
}

token_read :
    (m t : ℤ) (reply : List Any)
    → ok reply ≡ ok (int64 (pos 1) ∷ int64 m ∷ [])
    → parse_fenced_lock_result reply ≡ ok (true, t)
    → (t ≡ m) × (pos 0 <ℤ t)
unfolding parse_fenced_lock_result
token_read m t reply h p = (ground arith, ground arith)

-- What is known of a counter by a token: it has reached the token, or 2 ^ 53.
abbrev capped : ℤ → ℤ
capped n = if ltb_ℤ n (pos exact) then n else pos exact

capped_below : (n : ℤ) → capped n ≤ℤ n
capped_below n = ground arith

-- A token is the counter up to 2 ^ 53, and not below that otherwise.
token_cases :
    (lua : LuaNumber) (m t : ℤ)
    → t ≡ lua.reply (lua.int m)
    → pos 0 <ℤ t
    → (t ≡ m) ⊎ ((pos exact ≤ℤ m) × (pos exact ≤ℤ t))
token_cases lua m t e up = elim (Bool-cases (ltb_ℤ m (pos exact))) [
  | inr large ↦ elim (lua.reply-int_above m (ground arith)) [
    | inl above ↦ inr (ground arith, subst (λ x. pos exact ≤ℤ x) (sym e) above)
    | inr below ↦ absurd (refused t (subst (λ x. x ≤ℤ pos 0) (sym e) below) up)
  ]
  | inl small ↦ go m small e
]
  where
    refused : (t : ℤ) → t ≤ℤ pos 0 → pos 0 <ℤ t → ⊥
    refused t p q = omega arith

    go :
        (m : ℤ)
        → ltb_ℤ m (pos exact) ≡ true
        → t ≡ lua.reply (lua.int m)
        → (t ≡ m) ⊎ ((pos exact ≤ℤ m) × (pos exact ≤ℤ t))
    go (pos n) h e = inl (e ∙ lua.reply-int n (ground arith))
    go (negsuc n) h e = absurd (
        refused t (subst (λ x. x ≤ℤ pos 0) (sym e) (lua.reply-int_below (negsuc n) (omega arith)))
          up)

-- The next token after `n`, of a counter that had reached `n` or 2 ^ 53, and what it says of it.
next_token :
    (lua : LuaNumber) (n m t : ℤ)
    → capped n ≤ℤ m
    → t ≡ lua.reply (lua.int (m +ℤ pos 1))
    → pos 0 <ℤ t
    → ((n <ℤ t) ⊎ ((pos exact ≤ℤ n) × (pos exact ≤ℤ t))) × (capped t ≤ℤ (m +ℤ pos 1))
next_token lua n m t low e up = elim (token_cases lua (m +ℤ pos 1) t e up) [
  | inl same ↦ elim (Bool-cases (ltb_ℤ n (pos exact))) [
    | inl small ↦ (inl (ground (arith, +ℤ_parts m (pos 1))), ground (arith, same))
    | inr large ↦
        (inr (ground arith, ground (arith, +ℤ_parts m (pos 1), same)), ground (arith, same))
  ]
  | inr (reached, above) ↦ elim (Bool-cases (ltb_ℤ n (pos exact))) [
    | inl small ↦ (inl (ground arith), ground arith)
    | inr large ↦ (inr (ground arith, above), ground arith)
  ]
]

issued-cases :
    (q : Result (Option FencedLock))
    → (issued q ≡ []) ⊎ ((l : FencedLock) × (q ≡ ok (some l)) × (issued q ≡ l.fencing_token ∷ []))
issued-cases (ok none) = inl refl
issued-cases (ok (some l)) = inr (l, refl, refl)
issued-cases (err e) = inl refl

module _ (r : Redis) (f : String) where
  open r use {State}

  AtLeast-counter :
      (n : ℤ) (s t : State) → counter r t f ≡ counter r s f → AtLeast r f n s → AtLeast r f n t
  AtLeast-counter n s t e (m, p, q) = (m, e ∙ p, q)

  AtLeast-Counted :
      (n : ℤ) (s : State) (q : Result (List Any) × State)
      → Counted r f s q
      → AtLeast r f n s
      → AtLeast r f n q.1
  AtLeast-Counted n s q (inl (same, p)) h = AtLeast-counter n s q.1 same h
  AtLeast-Counted n s q (inr (m, old, new, reply)) (i, e, up) =
      let same : i ≡ m = ground arith in
      let below : n ≤ℤ m = subst (λ x. n ≤ℤ x) same up in
      (m +ℤ pos 1, new, omega (arith, +ℤ_parts m (pos 1)))

  positive_ms : (n : ℤ) → leb_ℤ n (pos 0) ≡ false → 0 < pos_part (duration_to_ms n)
  positive_ms (pos zero) h = absurd (ground arith)
  positive_ms (negsuc n) h = absurd (ground arith)
  positive_ms (pos (suc n)) h = let (m, e, up) = duration_to_ms_pos n in rw e (omega arith)

  script-Counted :
      (k t : String) (n : ℤ) (opts : List (Option (FencedLockOptions → FencedLockOptions)))
      (s : State)
      → str_eq k f ≡ false
      → leb_ℤ n (pos 0) ≡ false
      → Counted r f s (script_of r f k t n opts s)
  unfolding script_of
  script-Counted k t n opts s d p = acquire-Counted r k f t _ _ s d (positive_ms n p)

  Apart-key :
      (l : FencedLock) (lock : Lock)
      → l.lock ≡ some lock
      → Apart r f (releases l)
      → str_eq lock.key f ≡ false
  Apart-key l lock e a = ground arith

  above :
      (reply : List Any) (t : ℤ) (q : Result (List Any) × State) (n : ℤ) (s u : State)
      → Counted r f s q
      → AtLeast r f (capped n) s
      → q.0 ≡ ok reply
      → parse_fenced_lock_result reply ≡ ok (true, t)
      → u ≡ q.1
      → ((n <ℤ t) ⊎ ((pos exact ≤ℤ n) × (pos exact ≤ℤ t))) × AtLeast r f (capped t) u
  above reply t q n s u (inl (same, never)) b ran read place = absurd (never reply t ran read)
  above reply t q n s u (inr (m, old, new, replied)) (i, e, up) ran read place =
      let same : i ≡ m = ground arith in
      let below : capped n ≤ℤ m = subst (λ x. capped n ≤ℤ x) same up in
      let (value, some_token) = token_read _ t reply (sym ran ∙ replied) read in
      let (more, reached) = next_token r.lua n m t below value some_token in
      (more, (m +ℤ pos 1, ap (λ v. counter r v f) place ∙ new, reached))

  attempt-Stands :
      (c : Call) (n : ℤ) (w : World State)
      → Apart r f c
      → Stands r f n w
      → Stands r f n (attempt r f c w).1
  unfolding attempt
  attempt-Stands (acquires none k t ms opts) n w a h = unfold try_fenced_lock_with_token in h
  attempt-Stands (acquires (some c) k t ms opts) n w a h =
      elim (acquire-cases r f c k t ms opts w) [
        | inl (p, q, i) ↦ Stands-same r f (p, q) h
        | inr (d, up, p) ↦ Stands-same r f p (
            Stands-round_trip r f n (script_of r f k t ms opts) w
              (λ s.
                AtLeast-Counted n s (script_of r f k t ms opts s)
                  (script-Counted k t ms opts s d up))
              h)
      ]
  attempt-Stands (releases l) n w a h = elim (unlock-cases r f l w) [
    | inl p ↦ Stands-same r f p h
    | inr (lock, e, p) ↦ Stands-same r f p (
        Stands-round_trip r f n (compare_and_delete_script r lock.key lock.token) w
          (λ s.
            AtLeast-counter n s _
              (counter-compare_and_delete_script r lock.key lock.token f s (Apart-key l lock e a)))
          h)
  ]
  attempt-Stands (extends l ms) n w a h = elim (extend-cases r f l ms w) [
    | inl p ↦ Stands-same r f p h
    | inr (lock, up, p) ↦ Stands-same r f p (
        Stands-round_trip r f n (extension r f l lock ms) w
          (λ s.
            AtLeast-counter n s _
              (counter-extend r lock.key l.fencing_key lock.token _ _ s f (positive_ms ms up)))
          h)
  ]

  -- The token of a lock that is returned is above the token before, and the counter is left there.
  issued_above :
      (c : Client) (k t : String) (ms : ℤ)
      (opts : List (Option (FencedLockOptions → FencedLockOptions))) (n : ℤ) (w : World State)
      (l : FencedLock)
      → Stands r f (capped n) w
      → (try_fenced_lock_with_token r (some c) k f t ms opts w).0 ≡ ok (some l)
      → ((n <ℤ l.fencing_token) ⊎ ((pos exact ≤ℤ n) × (pos exact ≤ℤ l.fencing_token)))
        × AtLeast r f
            (capped l.fencing_token)
            (try_fenced_lock_with_token r (some c) k f t ms opts w).1.server
  issued_above c k t ms opts n w l h e =
      let (reply, answered, read, d, up, place) = acquire-issued r f c k t ms opts w l e in
      let (ran, left) = round_trip_ok (script_of r f k t ms opts) w reply answered in
      let counted = script-Counted k t ms opts (arrival w) d up in
      let start = arrival-IsSafe (AtLeast r f (capped n)) w (Stands-IsSafe r f h) in
      above reply l.fencing_token (script_of r f k t ms opts (arrival w)) n (arrival w) _ counted
        start ran read (place ∙ left)

  tokens_increase :
      (cs : List Call) (n : ℤ) (w : World State)
      → All (Apart r f) cs
      → Stands r f (capped n) w
      → Increasing n (attempts r f cs w).0
  unfolding attempts try_fenced_lock_with_token
  tokens_increase [] n w a h = tt
  tokens_increase (releases l ∷ cs) n w a h =
      tokens_increase cs n _ a.1 (attempt-Stands (releases l) (capped n) w a.0 h)
  tokens_increase (extends l ms ∷ cs) n w a h =
      tokens_increase cs n _ a.1 (attempt-Stands (extends l ms) (capped n) w a.0 h)
  tokens_increase (acquires none k t ms opts ∷ cs) n w a h =
      tokens_increase cs n _ a.1 (unfold try_fenced_lock_with_token in h)
  tokens_increase (acquires (some c) k t ms opts ∷ cs) n w a h =
      let next = attempt r f (acquires (some c) k t ms opts) w in
      let kept = (attempt-Stands (acquires (some c) k t ms opts) (capped n) w a.0 h).kept in
      let quiet =
        tokens_increase cs n next.1 a.1
          (attempt-Stands (acquires (some c) k t ms opts) (capped n) w a.0 h) in
      elim (issued-cases (try_fenced_lock_with_token r (some c) k f t ms opts w).0) [
        | inl e ↦ rw e quiet
        | inr (l, e, i) ↦
            let (up, at) = issued_above c k t ms opts n w l h e in
            rw i (
              up,
              tokens_increase cs l.fencing_token next.1 a.1 (record { reached = at; kept = kept }),
            )
      ]

-- Fencing tokens strictly increase up to 2 ^ 53. Take any sequence of TryFencedLock calls that share
-- a counter key, mixed with Unlock and Extend calls on any fenced locks whose lock key is not the
-- counter. Requests may fail before or after they are run, locks may expire, and others may do
-- anything between requests but take the counter back. Then each token that is returned is above
-- the value `n` that the counter had reached at the start, or the token before it; only where that
-- is 2 ^ 53 or more, which Lua's numbers round, the next one is 2 ^ 53 or more too. So a token below
-- 2 ^ 53 is below every later one.
pub fencing_tokens_increase :
    (r : Redis) (f : String) (cs : List Call) (n : ℤ) (w : World r.State)
    → All (Apart r f) cs
    → Stands r f n w
    → Increasing n (attempts r f cs w).0
fencing_tokens_increase r f cs n w a h =
    let (m, e, up) = h.reached in
    tokens_increase r f cs n w a
      (record { reached = (m, e, omega (arith, capped_below n, up)); kept = h.kept })
