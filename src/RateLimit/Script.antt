-- ===== src/RateLimit/Script.antt =====
-- What the fixed-window script does to the counter at its key.
use xredis.Prelude.{
  ◌<◌, ◌≡◌, refl, sym, ◌∙◌, ◌⊎◌, inl, inr, String, Bool, false, Option, none, some, List, ℤ, pos,
  pos_part, ◌+ℤ◌, ◌<ℤ◌, ltb_ℤ, leb_ℤ, arith, Bool-cases,
}
use xredis.Exec.{Result, ok}
use xredis.Exec.Invert.{Result-cases}
use xredis.Redis.{Redis, Entry, Any, get_reply, int_of}
use xredis.Client.Counter.{counter, counter-pexpire, incr-cases}
use xredis.RateLimit.{
  Decision, current_of, heal, heal_after, admit, admitted, fixed_window_script,
  parse_rate_limit_decision,
}

-- A reply that the client reads as a rejection, or not at all.
abbrev pub Rejects : Result (List Any) → Type 0
Rejects q =
    (l : List Any) (d : Decision)
    → q ≡ ok l
    → parse_rate_limit_decision l ≡ ok d
    → d.is_allowed ≡ false

-- A reply that the client reads as this decision.
abbrev pub Answers : Bool → Result (List Any) → Type 0
Answers b q =
    (l : List Any) × (q ≡ ok l)
    × (d : Decision) × (parse_rate_limit_decision l ≡ ok d)
    × (d.is_allowed ≡ b)

module _ (r : Redis) (k : String) where
  open r use {
    State, lookup, lua, read_int, tonumber-read_int, get, get_lem, pexpire, pexpire_lem, pttl, incr,
  }

  pub heal-counter :
      (window : ℤ) (current : lua.Number) (ttl : ℤ) (s : State)
      → 0 < pos_part window
      → (counter r (heal r k window current ttl s).1 k ≡ counter r s k)
        × ((n : ℤ) × ((heal r k window current ttl s).0 ≡ ok n))
  unfolding heal
  heal-counter window current ttl s p = (
    ground
        (arith, counter-pexpire r k (pos_part window) s k p, pexpire_lem k (pos_part window) s p),
    elim (Bool-cases (ltb_ℤ ttl (pos 0))) [
      | inr e ↦ (ttl, ground arith)
      | inl e ↦ (window, ground (arith, pexpire_lem k (pos_part window) s p))
    ],
  )

  heal_after-counter :
      (window current : ℤ) (s : State)
      → 0 < pos_part window
      → (counter r (heal_after r k window current s).1 k ≡ counter r s k)
  unfolding heal_after
  heal_after-counter window current s p =
      ground
        (arith, counter-pexpire r k (pos_part window) s k p, pexpire_lem k (pos_part window) s p)

  counter-admitted :
      (limit window now : ℤ) (s : State)
      → 0 < pos_part window
      → counter r (admitted r k limit window now s).1 k ≡ counter r s k
  unfolding admitted
  counter-admitted limit window now s p = ground (arith, heal_after-counter window now s p)

  -- The script reads the counter, where there is one.
  pub current-int_of :
      (e : Option Entry) (m : ℤ) (raw : Option String)
      → get_reply e ≡ ok raw
      → int_of read_int e ≡ ok m
      → current_of r raw ≡ ok (lua.int m)
  unfolding current_of
  current-int_of e m none g h = ground arith
  current-int_of e m (some v) g h = ground (arith, tonumber-read_int v m)

  -- Either the script rejects, or it found the counter below the limit and added one to it. A
  -- rejection leaves the counter.
  abbrev pub Limited : ℤ → State → Result (List Any) × State → Type 0
  Limited limit s q =
      ((counter r q.1 k ≡ counter r s k) × Rejects q.0)
      ⊎ ((m : ℤ) × (counter r s k ≡ ok m) × (m <ℤ limit) × (counter r q.1 k ≡ ok (m +ℤ pos 1)))

  -- Rounding keeps the order, so a counter that the script finds below the limit is.
  below :
      (limit m : ℤ) (c : lua.Number)
      → c ≡ lua.int m
      → lua.leb (lua.int limit) c ≡ false
      → m <ℤ limit
  below limit m c same room = elim (Bool-cases (leb_ℤ limit m)) [
    | inl up ↦ absurd (ground (arith, same, room, lua.leb-int limit m (ground arith)))
    | inr down ↦ ground arith
  ]

  after_heal :
      (limit window : ℤ) (c : lua.Number) (s s1 : State) (ttl : ℤ)
      → 0 < pos_part window
      → counter r s1 k ≡ counter r s k
      → ((m : ℤ) → counter r s k ≡ ok m → c ≡ lua.int m)
      → Limited limit s (admit r k limit window c ttl s1)
  unfolding admit parse_rate_limit_decision
  after_heal limit window c s s1 ttl p hc agree = elim (Bool-cases (lua.leb (lua.int limit) c)) [
    | inl full ↦ rw full (inl (hc, λ l d e g. ground arith))
    | inr room ↦ rw room (elim (incr-cases r k s1) [
      | inl (x, q, same) ↦ rw q (inl (same ∙ hc, λ l d e g. ground arith))
      | inr (m, q, old, new) ↦
          let found : counter r s k ≡ ok m = sym hc ∙ old in
          rw q (
            inr (
              m,
              found,
              below limit m c (agree m found) room,
              counter-admitted limit window (m +ℤ pos 1) (incr k s1).1 p ∙ new,
            ))
    ])
  ]

  pub fixed_window_script-Limited :
      (limit window : ℤ) (s : State)
      → 0 < pos_part window
      → Limited limit s (fixed_window_script r k limit window s)
  unfolding fixed_window_script
  fixed_window_script-Limited limit window s p = elim (Result-cases (get s k)) [
    | inr (x, g) ↦ rw g (inl (refl, λ l d e h. ground arith))
    | inl (raw, g) ↦ rw g (elim (Result-cases (current_of r raw)) [
      | inr (x, e) ↦ rw e (inl (refl, λ l d e h. ground arith))
      | inl (c, e) ↦
          let (hc, found) = heal-counter window c (pttl s k) s p in
          let (ttl, healed) = found in
          rw (e, healed)
            (after_heal limit window c s (heal r k window c (pttl s k) s).1 ttl p hc
              (λ m h. ground (arith, current-int_of (lookup s k) m raw (sym (get_lem s k) ∙ g) h)))
    ])
  ]
