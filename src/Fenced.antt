-- ===== src/Fenced.antt =====
-- lock_fencing.go: lease locks with a fencing token, the value of a counter that each acquisition
-- increments. A pointer is an `Option`; a method that reads through a nil `lock` field panics.
pub mod Script
pub mod Calls
pub mod Monotonic
pub mod Validation
use xredis.Prelude.{
  ℕ, String, Bool, true, false, not, ◌||◌, Option, none, some, List, [], ◌∷◌, ℤ, pos, pos_part,
  ltb_ℤ, leb_ℤ, eqb_ℤ, str_eq, ◌==◌, is_empty, if◌then◌else◌,
}
use xredis.Errors.{invalid_lock, invalid_ttl, lock_not_owned, panic}
use xredis.Exec.{Exec, Result, ok, err, fail, pure, ask, ◌>>=◌, ◌>>◌}
use xredis.Redis.{Redis, px, Any, int64}
use xredis.Time.{duration_to_ms}
use xredis.Client.{
  Client, World, round_trip, fenced, acquire, extend, unlock, lock_success, contended, not_owned,
  lock_error,
}
use xredis.Cas.{compare_and_delete}
use xredis.Lock
use xredis.Lock.{Lock, is_token, validate, Outcome, failed, settle, deferred}

pub record FencedLock : Type 0 where
  pub lock : Option Lock
  pub fencing_key : String
  pub fencing_token : ℤ
  pub counter_ttl : ℤ

pub record FencedLockOptions : Type 0 where
  pub ttl : ℤ

-- A `FencedLockOption` is a function on the options; a nil one is skipped.
abbrev pub apply_options :
    FencedLockOptions → List (Option (FencedLockOptions → FencedLockOptions)) → FencedLockOptions
apply_options o [] = o
apply_options o (none ∷ opts) = apply_options o opts
apply_options o (some opt ∷ opts) = apply_options (opt o) opts

-- newFencedLockOptions
pub new_fenced_lock_options :
    List (Option (FencedLockOptions → FencedLockOptions)) → FencedLockOptions
new_fenced_lock_options opts = apply_options (record { ttl = pos 0 }) opts

-- WithFencingCounterTTL
pub with_fencing_counter_ttl : ℤ → FencedLockOptions → FencedLockOptions
with_fencing_counter_ttl d o = record o { ttl = d }

unfoldable pub validate_fenced_lock_ttl : ℤ → ℤ → Result (Unit {0})
unfolding duration_to_ms
validate_fenced_lock_ttl lock_ttl counter_ttl =
    if leb_ℤ lock_ttl (pos 0) || ltb_ℤ counter_ttl (pos 0)
    then fail invalid_ttl
    else if eqb_ℤ counter_ttl (pos 0)
    then ok tt
    else if leb_ℤ (duration_to_ms counter_ttl) (duration_to_ms lock_ttl)
    then fail invalid_ttl
    else ok tt

unfoldable pub validate_fenced_lock_keys : String → String → Result (Unit {0})
validate_fenced_lock_keys key fencing_key =
    if is_empty key || is_empty fencing_key || str_eq key fencing_key
    then fail invalid_lock
    else ok tt

abbrev and_keys : Result (Unit {0}) → String → String → Result (Unit {0})
and_keys (ok _) key fencing_key = validate_fenced_lock_keys key fencing_key
and_keys (err e) key fencing_key = err e

validate_inner : Option Lock → String → Result (Unit {0})
unfolding validate_fenced_lock_keys validate
validate_inner none fencing_key = fail invalid_lock
validate_inner (some lock) fencing_key = and_keys (validate (some lock)) lock.key fencing_key

-- (*FencedLock).validate
unfoldable pub validate_fenced : Option FencedLock → Result (Unit {0})
unfolding validate_inner
validate_fenced none = fail invalid_lock
validate_fenced (some l) = validate_inner l.lock l.fencing_key

-- What the acquired flag and the fencing token of a reply say.
abbrev pub parse_token : Any → Result (Bool × ℤ)
parse_token (int64 token) = if leb_ℤ token (pos 0) then fail invalid_lock else ok (true, token)
parse_token _ = fail invalid_lock

unfoldable pub parse_fenced_lock_result : List Any → Result (Bool × ℤ)
parse_fenced_lock_result (int64 acquired ∷ token ∷ []) =
    if eqb_ℤ acquired (pos 0) then ok (false, pos 0) else parse_token token
parse_fenced_lock_result _ = fail invalid_lock

module _ (r : Redis) where
  open r use {State, exists, get, incr, set, pexpire}
  open r.lua use {int, reply}

  -- `if counter_ttl > 0 then PEXPIRE` on the counter
  abbrev pub refresh : String → ℤ → Exec State ℕ
  refresh fencing_key ms = if ltb_ℤ (pos 0) ms then pexpire fencing_key (pos_part ms) else pure 0

  -- What INCR replies is a number of Lua's before it is one of the script's reply. The times in
  -- milliseconds are less than 2 ^ 53, and Lua has them exactly.
  unfoldable pub lock_acquire_fenced_script :
      String → String → String → ℤ → ℤ → Exec State (List Any)
  lock_acquire_fenced_script key fencing_key token lock_ms counter_ms = do
    taken ← ask (λ s. ok (exists s key))
    if taken == 1 then pure (int64 (pos 0) ∷ int64 (pos 0) ∷ []) else do
      fencing_token ← incr fencing_key
      set key token (px (pos_part lock_ms))
      n ← refresh fencing_key counter_ms
      pure (int64 (pos 1) ∷ int64 (reply (int fencing_token)) ∷ [])

  unfoldable pub lock_extend_fenced_script : String → String → String → ℤ → ℤ → Exec State ℕ
  lock_extend_fenced_script key fencing_key token lock_ms counter_ms = do
    current ← ask (λ s. get s key)
    if not (is_token current token) then pure 0 else do
      extended ← pexpire key (pos_part lock_ms)
      n ← (if extended == 1 then refresh fencing_key counter_ms else pure 0)
      pure extended

  granted : FencedLock → Result (Bool × ℤ) → Outcome (Option FencedLock)
  granted lock (err e) = (lock_error, err e)
  granted lock (ok (false, token)) = (contended, ok none)
  granted lock (ok (true, token)) =
      (lock_success, ok (some (record lock { fencing_token = token })))

  parsed : Result (List Any) → Result (Bool × ℤ)
  unfolding parse_fenced_lock_result
  parsed (ok reply) = parse_fenced_lock_result reply
  parsed (err e) = err e

  acquired :
      FencedLock → Result (List Any) × World State → Outcome (Option FencedLock) × World State
  unfolding granted parsed
  acquired lock (answer, w) = (granted lock (parsed answer), w)

  acquire_body :
      FencedLock → String → String → ℤ → World State → Outcome (Option FencedLock) × World State
  unfolding validate_fenced validate_fenced_lock_ttl acquired
  acquire_body lock key token ttl w = elim (validate_fenced (some lock)) [
    | err e ↦ failed (err e) w
    | ok _ ↦ elim (validate_fenced_lock_ttl ttl lock.counter_ttl) [
      | err e ↦ failed (err e) w
      | ok _ ↦ acquired lock (
          round_trip
            (lock_acquire_fenced_script key lock.fencing_key token (duration_to_ms ttl)
              (duration_to_ms lock.counter_ttl))
            w)
    ]
  ]

  unfoldable pub try_fenced_lock_with_token :
      Option Client
      → String
      → String
      → String
      → ℤ
      → List (Option (FencedLockOptions → FencedLockOptions))
      → Exec (World State) (Option FencedLock)
  unfolding acquire_body new_fenced_lock_options
  try_fenced_lock_with_token none key fencing_key token ttl opts w = (fail invalid_lock, w)
  try_fenced_lock_with_token (some c) key fencing_key token ttl opts w =
      let lock : FencedLock = record {
        lock = some (record { client = some c; key = key; token = token });
        fencing_key = fencing_key;
        fencing_token = pos 0;
        counter_ttl = (new_fenced_lock_options opts).ttl;
      } in
      deferred c fenced acquire (acquire_body lock key token ttl w)

  -- TryFencedLock, with the fresh identifier that it draws
  unfoldable pub try_fenced_lock :
      String
      → Option Client
      → String
      → String
      → ℤ
      → List (Option (FencedLockOptions → FencedLockOptions))
      → Exec (World State) (Option FencedLock)
  unfolding try_fenced_lock_with_token
  try_fenced_lock uuid client key fencing_key ttl opts =
      try_fenced_lock_with_token client key fencing_key uuid ttl opts

  released : Result Bool × World State → Outcome (Unit {0}) × World State
  released (answer, w) = (settle not_owned (fail lock_not_owned) (ok tt) answer, w)

  unlock_body : FencedLock → Lock → World State → Outcome (Unit {0}) × World State
  unfolding validate_fenced released
  unlock_body l lock w = elim (validate_fenced (some l)) [
    | err e ↦ failed (err e) w
    | ok _ ↦ released (compare_and_delete r lock.key lock.token w)
  ]

  unlock_client : FencedLock → Lock → Option Client → Exec (World State) (Unit {0})
  unfolding unlock_body
  unlock_client l lock none w = (fail invalid_lock, w)
  unlock_client l lock (some c) w = deferred c fenced unlock (unlock_body l lock w)

  unlock_inner : FencedLock → Option Lock → Exec (World State) (Unit {0})
  unfolding unlock_client
  unlock_inner l none w = (err panic, w)
  unlock_inner l (some lock) w = unlock_client l lock lock.client w

  -- (*FencedLock).Unlock
  unfoldable pub unlock_fenced : Option FencedLock → Exec (World State) (Unit {0})
  unfolding unlock_inner
  unlock_fenced none w = (fail invalid_lock, w)
  unlock_fenced (some l) w = unlock_inner l l.lock w

  extended : Result Bool × World State → Outcome Bool × World State
  extended (answer, w) = (settle not_owned (ok false) (ok true) answer, w)

  extend_body : FencedLock → Lock → ℤ → World State → Outcome Bool × World State
  unfolding validate_fenced validate_fenced_lock_ttl extended
  extend_body l lock ttl w = elim (validate_fenced (some l)) [
    | err e ↦ failed (err e) w
    | ok _ ↦ elim (validate_fenced_lock_ttl ttl l.counter_ttl) [
      | err e ↦ failed (err e) w
      | ok _ ↦ extended (
          (do
            n ← round_trip (
                lock_extend_fenced_script lock.key l.fencing_key lock.token (duration_to_ms ttl)
                  (duration_to_ms l.counter_ttl))
            pure (n == 1))
            w)
    ]
  ]

  extend_client : FencedLock → Lock → ℤ → Option Client → Exec (World State) Bool
  unfolding extend_body
  extend_client l lock ttl none w = (fail invalid_lock, w)
  extend_client l lock ttl (some c) w = deferred c fenced extend (extend_body l lock ttl w)

  extend_inner : FencedLock → ℤ → Option Lock → Exec (World State) Bool
  unfolding extend_client
  extend_inner l ttl none w = (err panic, w)
  extend_inner l ttl (some lock) w = extend_client l lock ttl lock.client w

  -- (*FencedLock).Extend
  unfoldable pub extend_fenced : Option FencedLock → ℤ → Exec (World State) Bool
  unfolding extend_inner
  extend_fenced none ttl w = (fail invalid_lock, w)
  extend_fenced (some l) ttl w = extend_inner l ttl l.lock w

-- Key, Token, FencingKey and FencingToken
pub key_of : Option FencedLock → String
key_of none = ""
key_of (some l) = Lock.key_of l.lock

pub token_of : Option FencedLock → String
token_of none = ""
token_of (some l) = Lock.token_of l.lock

pub fencing_key_of : Option FencedLock → String
fencing_key_of none = ""
fencing_key_of (some l) = l.fencing_key

pub fencing_token_of : Option FencedLock → ℤ
fencing_token_of none = pos 0
fencing_token_of (some l) = l.fencing_token
