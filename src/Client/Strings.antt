-- ===== src/Client/Strings.antt =====
-- A string key, written and read by requests that nothing disturbs.
use xredis.Prelude.{ℕ, zero, suc, ◌≡◌, String, Option, some, [], pos, arith, str_eq_iff}
use xredis.Exec.{ok, ask}
use xredis.Redis.{Redis, IsPositive, get_reply}
use xredis.Client.{World, round_trip}
use xredis.Client.Trip.{round_trip_quiet}

module _ (r : Redis) where
  open r use {State, lookup, ttl_arg, set}

  pub IsPositive-ttl_arg : (m : ℕ) → IsPositive (ttl_arg (pos m))
  IsPositive-ttl_arg zero = rw r.ttl_arg_zero tt
  IsPositive-ttl_arg (suc m) = let (k, p) = r.ttl_arg_pos m in rw p (omega arith)

  pub written :
      (k e : String) (m : ℕ) (w : World State)
      → w.schedule ≡ []
      → ((round_trip (set k e (ttl_arg (pos m))) w).0 ≡ ok tt)
        × ((round_trip (set k e (ttl_arg (pos m))) w).1.schedule ≡ [])
        × (get_reply (lookup (round_trip (set k e (ttl_arg (pos m))) w).1.server k) ≡ ok (some e))
  written k e m w q =
      let t = ttl_arg (pos m) in
      let (p, s) = round_trip_quiet (set k e t) w q in
      (
        ground (arith, r.set_lem k e t w.server (IsPositive-ttl_arg m)),
        ground arith,
        rw (s, r.lookup-set k e t w.server k (IsPositive-ttl_arg m))
            (ground (arith, str_eq_iff k k)),
      )

  pub got :
      (k : String) (w : World State) (x : Option String)
      → w.schedule ≡ []
      → get_reply (lookup w.server k) ≡ ok x
      → round_trip (ask (λ s. r.get s k)) w ≡ (ok x, w)
  got k w x q h =
      let (p, s) = round_trip_quiet (ask (λ s. r.get s k)) w q in
      ground (arith, r.get_lem w.server k)
