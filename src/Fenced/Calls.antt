-- ===== src/Fenced/Calls.antt =====
-- Sequences of calls on fenced locks that share a counter, and what a single call can be.
use xredis.Prelude.{
  ℕ, ◌≡◌, ◌⊎◌, inl, inr, String, true, false, Option, none, some, List, [], ◌∷◌, ◌++◌, ℤ, pos, ◌<ℤ◌,
  ◌≤ℤ◌, leb_ℤ, arith, str_eq, Option-cases, Option-cases,
}
use xredis.Exec.{Result, ok, err, Exec}
use xredis.Exec.Invert.{Result-cases}
use xredis.Redis.{Redis, Any}
use xredis.Redis.Number.{exact}
use xredis.Time.{duration_to_ms}
use xredis.Client.{Client, World, round_trip}
use xredis.Client.Safe.{SamePlace}
use xredis.Cas.{compare_and_delete_script}
use xredis.Cas.Atomicity.{compare_and_delete_trip}
use xredis.Lock.{Lock}
use xredis.Fenced.{
  FencedLock, FencedLockOptions, try_fenced_lock_with_token, unlock_fenced, extend_fenced,
  lock_acquire_fenced_script, lock_extend_fenced_script, parse_fenced_lock_result,
  new_fenced_lock_options,
}

pub data Call : Type 0 where
  acquires :
      Option Client
      → String
      → String
      → ℤ
      → List (Option (FencedLockOptions → FencedLockOptions))
      → Call
  releases : FencedLock → Call
  extends : FencedLock → ℤ → Call

-- The fencing token of a lock that the call has returned.
abbrev pub issued : Result (Option FencedLock) → List ℤ
issued (ok (some l)) = l.fencing_token ∷ []
issued (ok none) = []
issued (err e) = []

-- Above the first number, and each above the one before, except among those from 2 ^ 53 on.
abbrev pub Increasing : ℤ → List ℤ → Type 0
Increasing n [] = Unit
Increasing n (t ∷ ts) = ((n <ℤ t) ⊎ ((pos exact ≤ℤ n) × (pos exact ≤ℤ t))) × Increasing t ts

module _ (r : Redis) (f : String) where
  open r use {State}

  -- The lock that is released is not the counter itself.
  abbrev pub Apart : Call → Type 0
  Apart (acquires c k t n opts) = Unit
  Apart (releases l) = elim l.lock [ none ↦ Unit {0} | some lock ↦ str_eq lock.key f ≡ false ]
  Apart (extends l n) = Unit

  unfoldable pub attempt : Call → World State → List ℤ × World State
  attempt (acquires c k t n opts) w =
      let q = try_fenced_lock_with_token r c k f t n opts w in (issued q.0, q.1)
  attempt (releases l) w = ([], (unlock_fenced r (some l) w).1)
  attempt (extends l n) w = ([], (extend_fenced r (some l) n w).1)

  -- The tokens that a sequence of calls returns, in order.
  unfoldable pub attempts : List Call → World State → List ℤ × World State
  unfolding attempt
  attempts [] w = ([], w)
  attempts (c ∷ cs) w =
      let later = attempts cs (attempt c w).1 in ((attempt c w).0 ++ later.0, later.1)

  unfoldable pub script_of :
      String
      → String
      → ℤ
      → List (Option (FencedLockOptions → FencedLockOptions))
      → Exec State (List Any)
  script_of k t n opts =
      lock_acquire_fenced_script r k f t (duration_to_ms n)
        (duration_to_ms (new_fenced_lock_options opts).ttl)

  -- A call that gets as far as its request, and what it makes of the reply.
  pub acquire-cases :
      (c : Client) (k t : String) (n : ℤ)
      (opts : List (Option (FencedLockOptions → FencedLockOptions))) (w : World State)
      → ((try_fenced_lock_with_token r (some c) k f t n opts w).1.server ≡ w.server)
          × ((try_fenced_lock_with_token r (some c) k f t n opts w).1.schedule ≡ w.schedule)
          × (issued (try_fenced_lock_with_token r (some c) k f t n opts w).0 ≡ [])
        ⊎ (str_eq k f ≡ false)
          × (leb_ℤ n (pos 0) ≡ false)
          × SamePlace
              (try_fenced_lock_with_token r (some c) k f t n opts w).1
              (round_trip (script_of k t n opts) w).1
  unfolding try_fenced_lock_with_token script_of
  acquire-cases c k t n opts w = ground arith

  -- A lock that is returned bears the token of the script's reply.
  pub acquire-issued :
      (c : Client) (k t : String) (n : ℤ)
      (opts : List (Option (FencedLockOptions → FencedLockOptions))) (w : World State)
      (l : FencedLock)
      → (try_fenced_lock_with_token r (some c) k f t n opts w).0 ≡ ok (some l)
      → (reply : List Any) × ((round_trip (script_of k t n opts) w).0 ≡ ok reply)
        × (parse_fenced_lock_result reply ≡ ok (true, l.fencing_token))
        × (str_eq k f ≡ false)
        × (leb_ℤ n (pos 0) ≡ false)
        × ((try_fenced_lock_with_token r (some c) k f t n opts w).1.server
            ≡ (round_trip (script_of k t n opts) w).1.server)
  unfolding try_fenced_lock_with_token script_of
  acquire-issued c k t n opts w l h = elim (Result-cases (round_trip (script_of k t n opts) w).0) [
    | inl (reply, e) ↦ (reply, e, ground arith, ground arith, ground arith, ground arith)
    | inr (x, e) ↦ absurd (ground arith)
  ]

  unlock_client-cases :
      (l : FencedLock) (lock : Lock) (w : World State)
      → l.lock ≡ some lock
      → SamePlace (unlock_fenced r (some l) w).1 w
        ⊎ SamePlace
            (unlock_fenced r (some l) w).1
            (round_trip (compare_and_delete_script r lock.key lock.token) w).1
  unfolding unlock_fenced
  unlock_client-cases l lock w e = ground (arith, compare_and_delete_trip r lock.key lock.token w)

  pub unlock-cases :
      (l : FencedLock) (w : World State)
      → SamePlace (unlock_fenced r (some l) w).1 w
        ⊎ ((lock : Lock) × (l.lock ≡ some lock)
            × SamePlace
                (unlock_fenced r (some l) w).1
                (round_trip (compare_and_delete_script r lock.key lock.token) w).1)
  unfolding unlock_fenced
  unlock-cases l w = elim (Option-cases l.lock) [
    | inl e ↦ inl (ground arith)
    | inr (lock, e) ↦ elim (unlock_client-cases l lock w e) [
      | inl p ↦ inl p
      | inr p ↦ inr (lock, e, p)
    ]
  ]

  abbrev pub extension : FencedLock → Lock → ℤ → Exec State ℕ
  extension l lock n =
      lock_extend_fenced_script r lock.key l.fencing_key lock.token (duration_to_ms n)
        (duration_to_ms l.counter_ttl)

  extend_client-cases :
      (l : FencedLock) (lock : Lock) (n : ℤ) (w : World State)
      → l.lock ≡ some lock
      → SamePlace (extend_fenced r (some l) n w).1 w
        ⊎ ((leb_ℤ n (pos 0) ≡ false)
            × SamePlace (extend_fenced r (some l) n w).1 (round_trip (extension l lock n) w).1)
  unfolding extend_fenced
  extend_client-cases l lock n w e = ground arith

  pub extend-cases :
      (l : FencedLock) (n : ℤ) (w : World State)
      → SamePlace (extend_fenced r (some l) n w).1 w
        ⊎ ((lock : Lock) × (leb_ℤ n (pos 0) ≡ false)
            × SamePlace (extend_fenced r (some l) n w).1 (round_trip (extension l lock n) w).1)
  unfolding extend_fenced
  extend-cases l n w = elim (Option-cases l.lock) [
    | inl e ↦ inl (ground arith)
    | inr (lock, e) ↦ elim (extend_client-cases l lock n w e) [
      | inl p ↦ inl p
      | inr (p, q) ↦ inr (lock, p, q)
    ]
  ]
