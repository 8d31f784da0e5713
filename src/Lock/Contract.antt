-- ===== src/Lock/Contract.antt =====
-- What TryLock, Unlock and Extend promise, for every schedule of requests.
use xredis.Prelude.{
  ℕ, zero, suc, ◌+◌, ◌/◌, ◌≡◌, inl, inr, String, Bool, true, false, Option, none, some, ℤ, pos,
  negsuc, arith, str_eq, ◌&&◌, ◌==◌, ◌∙◌, [], Option-cases, if◌then◌else◌,
}
use xredis.Errors.{lock_not_owned}
use xredis.Exec.{ok, fail, pure, ◌>>=◌}
use xredis.Redis.{Redis, Entry, px, str, get_reply, with_deadline}
use xredis.Time.{duration_to_ms}
use xredis.Client.{Client, World, arrival, round_trip}
use xredis.Client.Trip.{round_trip_ok, asked_ok}
use xredis.Cas.{compare_and_delete}
use xredis.Cas.Atomicity.{holds, compare_and_delete_atomic, compare_and_delete_quiet}
use xredis.Lock.{
  Lock, is_token, validate, lock_extend_script, try_lock_with_token, unlock_lock, extend_lock,
}

-- A positive duration in whole milliseconds, rounded up.
abbrev pub ceil_ms : ℤ → ℕ
ceil_ms (pos d) = (d + 999999) / 1000000
ceil_ms (negsuc d) = 0

pub duration_to_ms_pos :
    (n : ℕ)
    → (m : ℕ) × (duration_to_ms (pos (suc n)) ≡ pos (suc m)) × (suc m ≡ ceil_ms (pos (suc n)))
unfolding duration_to_ms
duration_to_ms_pos n = (n / 1000000, ground arith, ground arith)

module _ (r : Redis) where
  open r use {
    State, lookup, clock, get_lem, pexpire_lem, lookup-pexpire, set_nx, set_nx_lem, lookup-set_nx,
    ttl_arg, ttl_arg_pos,
  }

  pub lock_extend_script_lem :
      (k t : String) (n : ℕ) (s : State) (m : ℕ)
      → (lock_extend_script r k t (pos (suc n)) s).0 ≡ ok m
      → (m == 1) ≡ holds (lookup s k) t
  unfolding lock_extend_script
  lock_extend_script_lem k t n s m h = ground (arith, get_lem s k, pexpire_lem k (suc n) s)

  pub lookup-lock_extend_script :
      (k t : String) (n : ℕ) (s : State) (j : String)
      → lookup (lock_extend_script r k t (pos (suc n)) s).1 j ≡ (
          if holds (lookup s k) t && str_eq k j
          then with_deadline (some (clock s + suc n)) (lookup s k)
          else lookup s j)
  unfolding lock_extend_script
  lookup-lock_extend_script k t n s j = ground (arith, get_lem s k, lookup-pexpire k (suc n) s j)

  -- A lock that was returned.
  pub try_lock_acquires :
      (c : Option Client) (k t : String) (n : ℤ) (w : World State) (l : Lock)
      → (try_lock_with_token r c k t n w).0 ≡ ok (some l)
      → (l ≡ record { client = c; key = k; token = t })
        × (lookup (arrival w) k ≡ none)
        × (m : ℕ) × ((j : String)
            → lookup (try_lock_with_token r c k t n w).1.server j ≡ (
                if str_eq k j
                then some (record { value = str t; deadline = some (clock (arrival w) + suc m) })
                else lookup (arrival w) j))
  unfolding try_lock_with_token
  try_lock_acquires none k t n w l h = absurd (ground arith)
  try_lock_acquires (some c) k t (pos zero) w l h = absurd (ground arith)
  try_lock_acquires (some c) k t (negsuc n) w l h = absurd (ground arith)
  try_lock_acquires (some c) k t (pos (suc n)) w l h =
      let (m, e) = ttl_arg_pos n in
      let q = round_trip_ok (set_nx k t (ttl_arg (pos (suc n)))) w true in
      let reply = set_nx_lem k t (px (suc m)) (arrival w) (omega arith) in
      (
        ground arith,
        ground arith,
        m,
        λ j. ground (arith, lookup-set_nx k t (px (suc m)) (arrival w) j (omega arith)),
      )

  try_lock_contended :
      (c : Option Client) (k t : String) (n : ℤ) (w : World State)
      → (try_lock_with_token r c k t n w).0 ≡ ok none
      → ((e : Entry) × (lookup (arrival w) k ≡ some e))
        × ((j : String)
            → lookup (try_lock_with_token r c k t n w).1.server j ≡ lookup (arrival w) j)
  unfolding try_lock_with_token
  try_lock_contended none k t n w h = absurd (ground arith)
  try_lock_contended (some c) k t (pos zero) w h = absurd (ground arith)
  try_lock_contended (some c) k t (negsuc n) w h = absurd (ground arith)
  try_lock_contended (some c) k t (pos (suc n)) w h =
      let (m, e) = ttl_arg_pos n in
      let q = round_trip_ok (set_nx k t (ttl_arg (pos (suc n)))) w false in
      let reply = set_nx_lem k t (px (suc m)) (arrival w) (omega arith) in
      (
        elim (Option-cases (lookup (arrival w) k)) [
          | inl free ↦ absurd (ground arith)
          | inr taken ↦ taken
        ],
        λ j. ground (arith, lookup-set_nx k t (px (suc m)) (arrival w) j (omega arith)),
      )

  -- What an answer of TryLock says of the data set that the request found, and of what is at each
  -- key `after` it.
  abbrev pub Decided :
      Option Client → String → String → World State → Option Lock → (String → Option Entry) → Type 0
  Decided c k t w none after =
      ((e : Entry) × (lookup (arrival w) k ≡ some e))
      × ((j : String) → after j ≡ lookup (arrival w) j)
  Decided c k t w (some l) after =
      (l ≡ record { client = c; key = k; token = t })
      × (lookup (arrival w) k ≡ none)
      × (m : ℕ) × ((j : String)
          → after j ≡ (
              if str_eq k j
              then some (record { value = str t; deadline = some (clock (arrival w) + suc m) })
              else lookup (arrival w) j))

  -- When TryLock answers without an error, whatever the schedule: a lock bears the client, the key
  -- and the token that were asked for, the key was free when the request arrived, and is now held
  -- by the token, with an expiration, and other keys are as they were; no lock means that the key
  -- was taken when the request arrived, and nothing has changed.
  pub try_lock_decides :
      (c : Option Client) (k t : String) (n : ℤ) (w : World State) (q : Option Lock)
      → (try_lock_with_token r c k t n w).0 ≡ ok q
      → Decided c k t w q (λ j. lookup (try_lock_with_token r c k t n w).1.server j)
  try_lock_decides c k t n w none h = try_lock_contended c k t n w h
  try_lock_decides c k t n w (some l) h = try_lock_acquires c k t n w l h

  -- Unlock without an error: the key was held by the lock's token, and is gone.
  pub unlock_releases :
      (l : Lock) (w : World State)
      → (unlock_lock r (some l) w).0 ≡ ok tt
      → (holds (lookup (arrival w) l.key) l.token ≡ true)
        × ((j : String)
            → lookup (unlock_lock r (some l) w).1.server j
              ≡ (if str_eq l.key j then none else lookup (arrival w) j))
  unfolding unlock_lock
  unlock_releases l w h =
      let q = compare_and_delete_atomic r l.key l.token w true in
      let p : (compare_and_delete r l.key l.token w).0 ≡ ok true = ground arith in
      (ground (arith, q p), λ j. ground (arith, (q p).1 j))

  -- Undisturbed, a valid lock whose key is free or holds another string gets ErrLockNotOwned, and
  -- nothing changes.
  pub unlock_not_owned :
      (l : Lock) (w : World State) (c : Option String)
      → validate (some l) ≡ ok tt
      → w.schedule ≡ []
      → get_reply (lookup w.server l.key) ≡ ok c
      → is_token c l.token ≡ false
      → ((unlock_lock r (some l) w).0 ≡ fail lock_not_owned)
        × ((j : String) → lookup (unlock_lock r (some l) w).1.server j ≡ lookup w.server j)
  unfolding unlock_lock
  unlock_not_owned l w c v q g h =
      let p : (compare_and_delete r l.key l.token w).0 ≡ ok false =
        compare_and_delete_quiet r l.key l.token w c q g ∙ ground arith in
      let after = compare_and_delete_atomic r l.key l.token w false p in
      (ground arith, λ j. ground (arith, after.1 j))

  -- Extend answers true exactly if the key held the token when the request arrived; then the key's
  -- expiration is the new ttl from the server's present, and nothing else changes; on false
  -- nothing does.
  pub extend_renews :
      (l : Lock) (n : ℤ) (w : World State) (b : Bool)
      → (extend_lock r (some l) n w).0 ≡ ok b
      → (b ≡ holds (lookup (arrival w) l.key) l.token)
        × ((j : String)
            → lookup (extend_lock r (some l) n w).1.server j ≡ (
                if b && str_eq l.key j
                then with_deadline (some (clock (arrival w) + ceil_ms n)) (lookup (arrival w) l.key)
                else lookup (arrival w) j))
  unfolding extend_lock
  extend_renews l (pos zero) w b h = absurd (ground arith)
  extend_renews l (negsuc n) w b h = absurd (ground arith)
  extend_renews l (pos (suc n)) w b h =
      let (m, e, up) = duration_to_ms_pos n in
      let script = lock_extend_script r l.key l.token (duration_to_ms (pos (suc n))) in
      let answered : ((round_trip script >>= λ i. pure (i == 1)) w).0 ≡ ok b = ground arith in
      let (i, p, q, g) = asked_ok script w b answered in
      (
        ground (arith, lock_extend_script_lem l.key l.token m (arrival w) i),
        λ j. ground (
          arith,
          lock_extend_script_lem l.key l.token m (arrival w) i,
          lookup-lock_extend_script l.key l.token m (arrival w) j,
        ),
      )
