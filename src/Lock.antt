-- ===== src/Lock.antt =====
-- lock.go: lease locks. A `*Lock` or `*Client` that may be nil is an `Option`; the triple
-- `(lock, acquired, err)` is a result of an optional lock, since `acquired` tells whether the lock
-- is nil. The deferred recording of the outcome wraps each body; `uuid.NewString()` is an argument.
pub mod Contract
pub mod Exclusion
pub mod Recorded
use xredis.Prelude.{
  ℕ, String, Bool, true, false, ◌||◌, Option, none, some, ℤ, pos, pos_part, leb_ℤ, str_eq, ◌==◌,
  is_empty, if◌then◌else◌,
}
use xredis.Errors.{invalid_lock, invalid_ttl, lock_not_owned}
use xredis.Exec.{Exec, Result, ok, err, fail, pure, ask, ◌>>=◌}
use xredis.Redis.{Redis}
use xredis.Time.{duration_to_ms}
use xredis.Client.{
  Client, World, round_trip, measure, record_lock_operation, LockType, lease, LockOperation,
  acquire, extend, unlock, LockOutcome, lock_success, contended, not_owned, lock_error,
  lock_operation,
}
use xredis.Cas.{compare_and_delete}

pub record Lock : Type 0 where
  pub client : Option Client
  pub key : String
  pub token : String

-- Key and Token
unfoldable pub key_of : Option Lock → String
key_of none = ""
key_of (some l) = l.key

unfoldable pub token_of : Option Lock → String
token_of none = ""
token_of (some l) = l.token

abbrev pub has_conn : Option Client → Bool
has_conn none = false
has_conn (some c) = elim c.conn [ none ↦ false | some t ↦ true ]

unfoldable pub validate_lock : Option Client → String → String → Result (Unit {0})
validate_lock client key token =
    if has_conn client
    then (if is_empty key || is_empty token then fail invalid_lock else ok tt)
    else fail invalid_lock

-- l.validate()
unfoldable pub validate : Option Lock → Result (Unit {0})
unfolding validate_lock
validate none = fail invalid_lock
validate (some l) = validate_lock l.client l.key l.token

-- What a body leaves: the outcome to record and the result.
abbrev pub Outcome : Type 0 → Type 0
Outcome A = LockOutcome × Result A

-- A body that ends early leaves `lockOutcomeError`.
abbrev pub failed : {A S : Type 0} → Result A → World S → Outcome A × World S
failed r w = ((lock_error, r), w)

-- The end of each body: the server's answer, an outcome and a result for each.
abbrev pub settle : {A : Type 0} → LockOutcome → Result A → Result A → Result Bool → Outcome A
settle missed on_false on_true (ok true) = (lock_success, on_true)
settle missed on_false on_true (ok false) = (missed, on_false)
settle missed on_false on_true (err e) = (lock_error, err e)

-- defer c.metrics.recordLockOperation(...)
abbrev pub deferred :
    {A S : Type 0} → Client → LockType → LockOperation → Outcome A × World S → Result A × World S
deferred c type operation ((outcome, result), w) =
    (result, record_lock_operation c type operation outcome w)

-- `redis.call("GET", KEYS[1]) == ARGV[1]`
abbrev pub is_token : Option String → String → Bool
is_token none token = false
is_token (some current) token = str_eq current token

module _ (r : Redis) where
  open r use {State, get, set_nx, pexpire, ttl_arg}

  -- lockExtendScript
  unfoldable pub lock_extend_script : String → String → ℤ → Exec State ℕ
  lock_extend_script key token ms = do
    current ← ask (λ s. get s key)
    if is_token current token then pexpire key (pos_part ms) else pure 0

  acquired :
      Client → String → String → Result Bool × World State → Outcome (Option Lock) × World State
  acquired c key token (answer, w) = (
    settle contended (ok none) (ok (some (record { client = some c; key = key; token = token })))
        answer,
    w,
  )

  acquire_body : Client → String → String → ℤ → World State → Outcome (Option Lock) × World State
  unfolding validate_lock acquired
  acquire_body c key token ttl w = elim (validate_lock (some c) key token) [
    | err e ↦ failed (err e) w
    | ok _ ↦
        if leb_ℤ ttl (pos 0)
        then failed (fail invalid_ttl) w
        else acquired c key token (round_trip (set_nx key token (ttl_arg ttl)) w)
  ]

  unfoldable pub try_lock_with_token :
      Option Client → String → String → ℤ → Exec (World State) (Option Lock)
  unfolding acquire_body
  try_lock_with_token none key token ttl w = (fail invalid_lock, w)
  try_lock_with_token (some c) key token ttl w =
      deferred c lease acquire (acquire_body c key token ttl w)

  -- TryLock, with the fresh identifier that it draws
  unfoldable pub try_lock : String → Option Client → String → ℤ → Exec (World State) (Option Lock)
  unfolding try_lock_with_token
  try_lock uuid client key ttl = try_lock_with_token client key uuid ttl

  released : Result Bool × World State → Outcome (Unit {0}) × World State
  released (answer, w) = (settle not_owned (fail lock_not_owned) (ok tt) answer, w)

  unlock_body : Lock → World State → Outcome (Unit {0}) × World State
  unfolding validate released
  unlock_body l w = elim (validate (some l)) [
    | err e ↦ failed (err e) w
    | ok _ ↦ released (compare_and_delete r l.key l.token w)
  ]

  unlock_for : Option Client → Lock → Exec (World State) (Unit {0})
  unfolding unlock_body
  unlock_for none l w = (fail invalid_lock, w)
  unlock_for (some c) l w = deferred c lease unlock (unlock_body l w)

  -- (*Lock).Unlock
  unfoldable pub unlock_lock : Option Lock → Exec (World State) (Unit {0})
  unfolding unlock_for
  unlock_lock none w = (fail invalid_lock, w)
  unlock_lock (some l) w = unlock_for l.client l w

  extended : Result Bool × World State → Outcome Bool × World State
  extended (answer, w) = (settle not_owned (ok false) (ok true) answer, w)

  extend_body : Lock → ℤ → World State → Outcome Bool × World State
  unfolding validate extended
  extend_body l ttl w = elim (validate (some l)) [
    | err e ↦ failed (err e) w
    | ok _ ↦
        if leb_ℤ ttl (pos 0)
        then failed (fail invalid_ttl) w
        else extended (
            (do
              n ← round_trip (lock_extend_script l.key l.token (duration_to_ms ttl))
              pure (n == 1))
              w)
  ]

  extend_for : Option Client → Lock → ℤ → Exec (World State) Bool
  unfolding extend_body
  extend_for none l ttl w = (fail invalid_lock, w)
  extend_for (some c) l ttl w = deferred c lease extend (extend_body l ttl w)

  -- (*Lock).Extend
  unfoldable pub extend_lock : Option Lock → ℤ → Exec (World State) Bool
  unfolding extend_for
  extend_lock none ttl w = (fail invalid_lock, w)
  extend_lock (some l) ttl w = extend_for l.client l ttl w
