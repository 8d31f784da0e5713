-- ===== src/Client/Trip.antt =====
-- What a round trip can do, whatever the schedule.
use xredis.Prelude.{ℕ, Bool, ◌==◌, ◌≡◌, ◌⊎◌, [], arith}
use xredis.Exec.{Exec, ok, pure, ◌>>=◌}
use xredis.Exec.Invert.{bind_ok}
use xredis.Client.{World, round_trip, arrival}

module _ {S A : Type 0} (command : Exec S A) (w : World S) where
  -- A reply that came back is the command's, on the data set that it found.
  pub round_trip_ok :
      (a : A)
      → (round_trip command w).0 ≡ ok a
      → ((command (arrival w)).0 ≡ ok a)
        × ((round_trip command w).1.server ≡ (command (arrival w)).1)
  unfolding round_trip
  round_trip_ok a h = ground arith

  -- The command is run once or not at all.
  pub round_trip_once :
      ((round_trip command w).1.server ≡ arrival w)
      ⊎ ((round_trip command w).1.server ≡ (command (arrival w)).1)
  unfolding round_trip
  round_trip_once = ground arith

  pub measured-round_trip : (round_trip command w).1.measured ≡ w.measured
  unfolding round_trip
  measured-round_trip = ground arith

  -- With the schedule used up the request arrives, and so does its reply.
  pub round_trip_quiet :
      w.schedule ≡ []
      → ((round_trip command w).0 ≡ (command w.server).0)
        × ((round_trip command w).1 ≡ record w { server = (command w.server).1 })
  unfolding round_trip
  round_trip_quiet h = (ground arith, ground arith)

-- The methods that ask a script for 1: their answer is the script's.
module _ {S : Type 0} (command : Exec S ℕ) (w : World S) where
  pub asked_ok :
      (b : Bool)
      → ((round_trip command >>= λ result. pure (result == 1)) w).0 ≡ ok b
      → (n : ℕ) × ((command (arrival w)).0 ≡ ok n)
        × (b ≡ (n == 1))
        × (((round_trip command >>= λ result. pure (result == 1)) w).1.server
            ≡ (command (arrival w)).1)
  asked_ok b h =
      let (n, e, f, g) = bind_ok (round_trip command) (λ result. pure (result == 1)) w h in
      let (p, q) = round_trip_ok command w n e in (n, p, ground arith, rw g q)
