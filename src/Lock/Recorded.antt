-- ===== src/Lock/Recorded.antt =====
-- What the lock methods record: one measurement for each call, which agrees with the result.
use mathlib.Core.Bool.{decide}
use xredis.Prelude.{
  ◌≡◌, ◌++◌, [], ◌∷◌, List, All, ◌==◌, ◌∙◌, Option-cases, if◌then◌else◌, inl, inr, refl, sym,
  Bool-cases, String, Bool, true, false, Option, none, some, ℤ, arith,
}
use xredis.Errors.{Error, lock_not_owned, errors_is}
use xredis.Exec.{Exec, Result, ok, err}
use xredis.Exec.Invert.{Result-cases}
use xredis.Cas.{compare_and_delete, compare_and_delete_script}
use xredis.Cas.Effect.{verdict, compare_and_delete_script_lem}
use xredis.Redis.{Redis, Entry, Value, str, hash, zset, get_reply}
use xredis.Client.{
  Client, World, Event, Fault, delivered, refused, lost_reply, LockOutcome, unlock, round_trip,
  lock_success, contended, not_owned, lock_error, lease, acquire, extend, lock_operation,
}
use xredis.Client.Trip.{measured-round_trip}
use xredis.Lock.{
  Lock, try_lock_with_token, unlock_lock, unlock_body, validate, validate_lock, extend_lock,
  lock_extend_script,
}
use xredis.Time.{duration_to_ms}

-- The outcome that fits a result.
abbrev pub acquire_outcome : Result (Option Lock) → LockOutcome
acquire_outcome (ok none) = contended
acquire_outcome (ok (some l)) = lock_success
acquire_outcome (err e) = lock_error

abbrev pub extend_outcome : Result Bool → LockOutcome
extend_outcome (ok true) = lock_success
extend_outcome (ok false) = not_owned
extend_outcome (err e) = lock_error

abbrev pub unlock_outcome : Result (Unit {0}) → LockOutcome
unlock_outcome (ok u) = lock_success
unlock_outcome (err e) = if errors_is e lock_not_owned then not_owned else lock_error

-- What makes a request fail is not that a lock is not owned.
abbrev pub Foreign : Fault → Type 0
Foreign delivered = Unit
Foreign (refused e) = errors_is e lock_not_owned ≡ false
Foreign (lost_reply e) = errors_is e lock_not_owned ≡ false

abbrev pub AllForeign : {S : Type 0} → World S → Type 0
AllForeign {S} w = All (λ (e : Event S). Foreign e.fault) w.schedule

round_trip-Foreign :
    {S A : Type 0} (command : Exec S A) (w : World S) (e : Error)
    → AllForeign w
    → ((s : S) (x : Error) → (command s).0 ≡ err x → errors_is x lock_not_owned ≡ false)
    → (round_trip command w).0 ≡ err e
    → errors_is e lock_not_owned ≡ false
unfolding round_trip
round_trip-Foreign {S} {A} command w e a p h = go w.schedule refl a
  where
    go :
        (l : List (Event S))
        → w.schedule ≡ l
        → All (λ (e : Event S). Foreign e.fault) l
        → errors_is e lock_not_owned ≡ false
    go [] q b = p w.server e (ground arith)
    go (event ∷ rest) q b = faulty event.fault refl
      where
        faulty : (f : Fault) → event.fault ≡ f → errors_is e lock_not_owned ≡ false
        faulty delivered i = p (event.others w.server) e (ground arith)
        faulty (refused x) i = ground (arith, b.0)
        faulty (lost_reply x) i = ground (arith, b.0)

module _ (r : Redis) where
  open r use {State, set_nx, ttl_arg, lookup}

  measured-try_lock :
      (c : Client) (k t : String) (n : ℤ) (w : World State)
      → c.metrics ≡ true
      → (try_lock_with_token r (some c) k t n w).1.measured
        ≡ w.measured
          ++ lock_operation lease acquire
              (acquire_outcome (try_lock_with_token r (some c) k t n w).0)
            ∷ []
  unfolding try_lock_with_token
  measured-try_lock c k t n w h = ground (arith, measured-round_trip (set_nx k t (ttl_arg n)) w)

  measured-extend_lock :
      (l : Lock) (c : Client) (n : ℤ) (w : World State)
      → l.client ≡ some c
      → c.metrics ≡ true
      → (extend_lock r (some l) n w).1.measured
        ≡ w.measured
          ++ lock_operation lease extend (extend_outcome (extend_lock r (some l) n w).0) ∷ []
  unfolding extend_lock
  measured-extend_lock l c n w e h =
      ground (arith, measured-round_trip (lock_extend_script r l.key l.token (duration_to_ms n)) w)

  -- An error of the script is a reply of the server.
  script-Foreign :
      (k t : String) (s : State) (x : Error)
      → (compare_and_delete_script r k t s).0 ≡ err x
      → errors_is x lock_not_owned ≡ false
  unfolding errors_is
  script-Foreign k t s x h =
      let reply : verdict (get_reply (lookup s k)) t ≡ err x =
        sym (compare_and_delete_script_lem r k t s) ∙ h in
      elim (Option-cases (lookup s k)) [
        | inl gone ↦ absurd (ground (arith, reply))
        | inr (e, held) ↦ go e held reply e.value refl
      ]
    where
      go :
          (e : Entry)
          → lookup s k ≡ some e
          → verdict (get_reply (lookup s k)) t ≡ err x
          → (v : Value) → e.value ≡ v
          → errors_is x lock_not_owned ≡ false
      go e held reply (str v) p = absurd (ground arith)
      go e held reply (hash fs) p = ground arith
      go e held reply (zset ms) p = ground arith

  unlock_body-outcome :
      (l : Lock) (w : World State)
      → AllForeign w
      → ((unlock_body r l w).0.0 ≡ unlock_outcome (unlock_body r l w).0.1)
        × ((unlock_body r l w).1.measured ≡ w.measured)
  unfolding unlock_body compare_and_delete validate validate_lock errors_is decide
  unlock_body-outcome l w a =
      let sent = compare_and_delete_script r l.key l.token in
      let same = measured-round_trip sent w in
      elim (Result-cases (validate (some l))) [
        | inr (e, p) ↦
            let invalid : errors_is e lock_not_owned ≡ false = ground arith in
            rw (unlock_body, p) (rw invalid refl, refl)
        | inl (u, p) ↦ elim (Result-cases (round_trip sent w).0) [
          | inr (e, q) ↦
              let other = round_trip-Foreign sent w e a (script-Foreign l.key l.token) q in
              rw (unlock_body, p, q) (rw other refl, same)
          | inl (n, q) ↦ elim (Bool-cases (n == 1)) [
            | inl one ↦ rw (unlock_body, p, q, one) (refl, same)
            | inr other ↦ rw (unlock_body, p, q, other) (refl, same)
          ]
        ]
      ]

  measured-unlock_lock :
      (l : Lock) (c : Client) (w : World State)
      → l.client ≡ some c
      → c.metrics ≡ true
      → AllForeign w
      → (unlock_lock r (some l) w).1.measured
        ≡ w.measured
          ++ lock_operation lease unlock (unlock_outcome (unlock_lock r (some l) w).0) ∷ []
  unfolding unlock_lock
  measured-unlock_lock l c w e h a =
      let (agrees, same) = unlock_body-outcome l w a in ground (arith, e, agrees, same)

-- Each call on a lock records what came of it. With metrics on, a lock with a client, and no request
-- that fails with ErrLockNotOwned, each of TryLock, Unlock and Extend adds exactly one measurement,
-- which its result determines. Of TryLock it is success for a lock, contended for none, and error
-- for an error; of Unlock success, not_owned for an error that is ErrLockNotOwned, and error for
-- any other; of Extend success for true, not_owned for false, and error for an error.
pub lock_calls_measured :
    (r : Redis) (l : Lock) (c : Client) (k t : String) (n : ℤ) (w : World r.State)
    → l.client ≡ some c
    → c.metrics ≡ true
    → AllForeign w
    → ((try_lock_with_token r (some c) k t n w).1.measured
        ≡ w.measured
          ++ lock_operation lease acquire
              (acquire_outcome (try_lock_with_token r (some c) k t n w).0)
            ∷ [])
      × ((unlock_lock r (some l) w).1.measured
          ≡ w.measured
            ++ lock_operation lease unlock (unlock_outcome (unlock_lock r (some l) w).0) ∷ [])
      × ((extend_lock r (some l) n w).1.measured
          ≡ w.measured
            ++ lock_operation lease extend (extend_outcome (extend_lock r (some l) n w).0) ∷ [])
lock_calls_measured r l c k t n w e h a = (
  measured-try_lock r c k t n w h,
  measured-unlock_lock r l c w e h a,
  measured-extend_lock r l c n w e h,
)
