-- ===== src/Lock/Exclusion.antt =====
-- Mutual exclusion: while a token holds a key, no call with another token gets it or moves it.
use xredis.Prelude.{
  ℕ, refl, leb_ℤ, ◌∙◌, ◌≡◌, ◌≢◌, ◌⊎◌, inl, inr, List, [], ◌∷◌, All, String, Bool, true, false,
  Option, none, some, ℤ, pos, suc, zero, negsuc, arith,
}
use xredis.Exec.{Result, ok, err, Exec, pure, continue, ◌>>=◌}
use xredis.Redis.{Redis, Entry, px}
use xredis.Time.{duration_to_ms}
use xredis.Client.{Client, World, round_trip}
use xredis.Client.Safe.{IsSafe, SamePlace, IsSafe-same, round_trip-IsSafe, arrival-IsSafe}
use xredis.Cas.{compare_and_delete_script}
use xredis.Cas.Atomicity.{holds, compare_and_delete_trip}
use xredis.Cas.Effect.{lookup-compare_and_delete_script}
use xredis.Lock.{Lock, try_lock_with_token, unlock_lock, extend_lock, lock_extend_script}
use xredis.Lock.Contract.{
  try_lock_acquires, unlock_releases, extend_renews, lookup-lock_extend_script, duration_to_ms_pos,
}

-- The calls that clients make on one key.
pub data Call : Type 0 where
  acquires : Option Client → String → ℤ → Call
  releases : Option Client → String → Call
  extends : Option Client → String → ℤ → Call

abbrev pub token_of_call : Call → String
token_of_call (acquires c t n) = t
token_of_call (releases c t) = t
token_of_call (extends c t n) = t

abbrev pub is_some : Option Lock → Bool
is_some none = false
is_some (some l) = true

granted :
    {S : Type 0} (q : Result (Option Lock) × World S)
    → (continue q.0 (λ l. pure (is_some l)) q.1).0 ≡ ok true
    → (l : Lock) × (q.0 ≡ ok (some l))
granted (ok none, w) p = absurd (ground arith)
granted (ok (some l), w) p = (l, refl)
granted (err e, w) p = absurd (ground arith)

module _ (r : Redis) (k : String) where
  open r use {State, lookup, set_nx, ttl_arg, ttl_arg_pos, lookup-set_nx}

  abbrev lock_with : Option Client → String → Option Lock
  lock_with c t = some (record { client = c; key = k; token = t })

  -- The call, and whether it got its way.
  unfoldable pub attempt : Call → Exec (World State) Bool
  attempt (acquires c t n) = do l ← try_lock_with_token r c k t n; pure (is_some l)
  attempt (releases c t) = do i ← unlock_lock r (lock_with c t); pure true
  attempt (extends c t n) = extend_lock r (lock_with c t) n

  unfoldable pub attempts : List Call → World State → List (Result Bool) × World State
  unfolding attempt
  attempts [] w = ([], w)
  attempts (c ∷ cs) w =
      let later = attempts cs (attempt c w).1 in ((attempt c w).0 ∷ later.0, later.1)

  module _ (e : Entry) where
    abbrev Held : State → Type 0
    Held s = lookup s k ≡ some e

    try_lock-place :
        (c : Client) (t : String) (n : ℕ) (w : World State)
        → SamePlace (try_lock_with_token r (some c) k t (pos (suc n)) w).1 w
          ⊎ SamePlace
              (try_lock_with_token r (some c) k t (pos (suc n)) w).1
              (round_trip (set_nx k t (ttl_arg (pos (suc n)))) w).1
    unfolding try_lock_with_token
    try_lock-place c t n w = ground arith

    try_lock-still :
        (c : Client) (t : String) (n : ℤ) (w : World State)
        → leb_ℤ n (pos 0) ≡ true
        → SamePlace (try_lock_with_token r (some c) k t n w).1 w
    unfolding try_lock_with_token
    try_lock-still c t n w h = ground arith

    set_nx-Held :
        (t : String) (n : ℕ) (s : State) → Held s → Held (set_nx k t (ttl_arg (pos (suc n))) s).1
    set_nx-Held t n s h =
        let (m, p) = ttl_arg_pos n in
        rw p (ground (arith, lookup-set_nx k t (px (suc m)) s k (omega arith)))

    try_lock-IsSafe :
        (c : Option Client) (t : String) (n : ℤ) (w : World State)
        → IsSafe Held w
        → IsSafe Held (try_lock_with_token r c k t n w).1
    try_lock-IsSafe none t n w h = unfold try_lock_with_token in h
    try_lock-IsSafe (some c) t (pos zero) w h =
        IsSafe-same Held (try_lock-still c t (pos 0) w refl) h
    try_lock-IsSafe (some c) t (negsuc n) w h =
        IsSafe-same Held (try_lock-still c t (negsuc n) w (ground arith)) h
    try_lock-IsSafe (some c) t (pos (suc n)) w h = elim (try_lock-place c t n w) [
      | inl p ↦ IsSafe-same Held p h
      | inr p ↦
          IsSafe-same Held p
            (round_trip-IsSafe Held (set_nx k t (ttl_arg (pos (suc n)))) (set_nx-Held t n) w h)
    ]

    unlock-place :
        (c : Option Client) (t : String) (w : World State)
        → SamePlace (unlock_lock r (lock_with c t) w).1 w
          ⊎ SamePlace
              (unlock_lock r (lock_with c t) w).1
              (round_trip (compare_and_delete_script r k t) w).1
    unfolding unlock_lock
    unlock-place none t w = ground arith
    unlock-place (some c) t w = ground (arith, compare_and_delete_trip r k t w)

    extend-place :
        (c : Option Client) (t : String) (n : ℤ) (w : World State)
        → SamePlace (extend_lock r (lock_with c t) n w).1 w
          ⊎ ((leb_ℤ n (pos 0) ≡ false)
              × SamePlace
                  (extend_lock r (lock_with c t) n w).1
                  (round_trip (lock_extend_script r k t (duration_to_ms n)) w).1)
    unfolding extend_lock
    extend-place none t n w = ground arith
    extend-place (some c) t n w = ground arith

    script-Held :
        (t : String) (n : ℤ) (s : State)
        → leb_ℤ n (pos 0) ≡ false
        → holds (some e) t ≡ false
        → Held s
        → Held (lock_extend_script r k t (duration_to_ms n) s).1
    script-Held t (pos zero) s g f h = absurd (ground arith)
    script-Held t (negsuc n) s g f h = absurd (ground arith)
    script-Held t (pos (suc n)) s g f h =
        let (m, p, q) = duration_to_ms_pos n in
        rw p (lookup-lock_extend_script r k t m s k ∙ ground arith)

    cad-Held :
        (t : String) (s : State)
        → holds (some e) t ≡ false
        → Held s
        → Held (compare_and_delete_script r k t s).1
    cad-Held t s f h = lookup-compare_and_delete_script r k t s k ∙ ground arith

    -- A call with a token that is not the holder's leaves the entry, and does not get its way.
    attempt-IsSafe :
        (c : Call) (w : World State)
        → holds (some e) (token_of_call c) ≡ false
        → IsSafe Held w
        → IsSafe Held (attempt c w).1
    unfolding attempt
    attempt-IsSafe (acquires c t n) w f h =
        IsSafe-same Held {v = (try_lock_with_token r c k t n w).1} (ground arith)
          (try_lock-IsSafe c t n w h)
    attempt-IsSafe (releases c t) w f h =
        IsSafe-same Held {v = (unlock_lock r (lock_with c t) w).1} (ground arith)
          (elim (unlock-place c t w) [
            | inl p ↦ IsSafe-same Held p h
            | inr p ↦
                IsSafe-same Held p (
                  round_trip-IsSafe Held (compare_and_delete_script r k t) (λ s. cad-Held t s f) w
                    h)
          ])
    attempt-IsSafe (extends c t n) w f h = elim (extend-place c t n w) [
      | inl p ↦ IsSafe-same Held p h
      | inr (g, p) ↦ IsSafe-same Held p (
          round_trip-IsSafe Held (lock_extend_script r k t (duration_to_ms n))
            (λ s. script-Held t n s g f) w h)
    ]

    attempt_refused :
        (c : Call) (w : World State)
        → holds (some e) (token_of_call c) ≡ false
        → IsSafe Held w
        → (attempt c w).0 ≢ ok true
    unfolding attempt
    attempt_refused (acquires c t n) w f h p =
        let held = arrival-IsSafe Held w h in
        let (l, got) : (l : Lock) × ((try_lock_with_token r c k t n w).0 ≡ ok (some l)) =
          granted (try_lock_with_token r c k t n w) p in
        let (same, free, m, rest) = try_lock_acquires r c k t n w l got in absurd (ground arith)
    attempt_refused (releases c t) w f h p =
        let held = arrival-IsSafe Held w h in
        let gone = unlock_releases r (record { client = c; key = k; token = t }) w in
        absurd (ground arith)
    attempt_refused (extends c t n) w f h p =
        let held = arrival-IsSafe Held w h in
        let renewed = extend_renews r (record { client = c; key = k; token = t }) n w true p in
        absurd (ground arith)

    -- Every call is refused and the entry is left, over any sequence of calls.
    attempts_excluded :
        (cs : List Call) (w : World State)
        → All (λ c. holds (some e) (token_of_call c) ≡ false) cs
        → IsSafe Held w
        → All (λ (q : Result Bool). q ≢ ok true) (attempts cs w).0 × Held (attempts cs w).1.server
    unfolding attempts
    attempts_excluded [] w f h = (tt, h.now)
    attempts_excluded (c ∷ cs) w f h =
        let (refused, held) = attempts_excluded cs (attempt c w).1 f.1 (attempt-IsSafe c w f.0 h) in
        ((attempt_refused c w f.0 h, refused), held)

-- Mutual exclusion. A key holds an entry, and none of the calls bears the token that the entry
-- holds; what happens around the calls' requests leaves the entry, so it does not run out either.
-- Then no TryLock, Unlock or Extend among the calls gets its way, whatever requests fail and
-- whichever clients make them, and the entry is there at the end, its expiration included.
pub lock_exclusion :
    (r : Redis) (k : String) (e : Entry) (cs : List Call) (w : World r.State)
    → All (λ c. holds (some e) (token_of_call c) ≡ false) cs
    → IsSafe (λ s. r.lookup s k ≡ some e) w
    → All (λ (q : Result Bool). q ≢ ok true) (attempts r k cs w).0
      × (r.lookup (attempts r k cs w).1.server k ≡ some e)
lock_exclusion r k e cs w f h = attempts_excluded r k e cs w f h
