-- ===== src/Client.antt =====
-- client.go and the recording side of metrics.go: what a method of the library works on. A method
-- is an action on the `World`: the data set of the server, what happens around each request, and
-- the measurements taken.
--
-- A request is one round trip (go-redis sends a script's whole text again if the server does not
-- know it; it is still run once). Before it reaches the server, others may have changed the data
-- set and time may have passed, `others`; it may fail before it is run or after. go-redis sending
-- a request again by itself after a lost reply is not modelled.
mod Metrics
pub mod Trip
pub mod Safe
pub mod Counter
pub mod Strings
pub use Metrics.*
use xredis.Prelude.{Bool, true, false, String, Option, none, some, List, [], ◌∷◌, ◌++◌}
use xredis.Errors.{Error}
use xredis.Exec.{Result, ok, err, Exec}

-- The types of `rdb.UniversalClient` that the code tells apart; a failover client is a standalone
-- or a cluster client.
pub data Topology : Type 0 where
  standalone : Topology
  cluster : Topology
  ring : Topology

-- A `*Client` that is not nil. Its codec is a parameter of the methods that use it. `metrics`
-- tells whether the pointer of that name is set.
pub record Client : Type 0 where
  pub conn : Option Topology
  pub metrics : Bool

pub data Fault : Type 0 where
  delivered : Fault
  refused : Error → Fault
  lost_reply : Error → Fault

pub record Event (S : Type 0) : Type 0 where
  pub others : S → S
  pub fault : Fault

pub record World (S : Type 0) : Type 0 where
  pub server : S
  pub schedule : List (Event S)
  pub measured : List Measurement

module _ {S A : Type 0} where
  abbrev answer : World S → Result A × S → Result A × World S
  answer w (r, s) = (r, record w { server = s })

  abbrev arrive : Exec S A → Fault → Exec (World S) A
  arrive command delivered w = answer w (command w.server)
  arrive command (refused e) w = (err e, w)
  arrive command (lost_reply e) w = answer w (err e, (command w.server).1)

  abbrev depart : Exec S A → World S → List (Event S) → Result A × World S
  depart command w [] = arrive command delivered w
  depart command w (event ∷ rest) =
      arrive command event.fault (record w { server = event.others w.server; schedule = rest })

  -- The request and its reply. When the schedule is used up, requests arrive undisturbed.
  unfoldable pub round_trip : Exec S A → Exec (World S) A
  round_trip command w = depart command w w.schedule

-- The data set as the next request finds it.
abbrev pub arrival : {S : Type 0} → World S → S
arrival w = elim w.schedule [ [] ↦ w.server | event ∷ rest ↦ event.others w.server ]

-- `m.lockOperations.Add` and the like, behind `if m == nil`.
abbrev pub measure : {S : Type 0} → Client → Measurement → World S → World S
measure c m w = elim c.metrics [ true ↦ record w { measured = w.measured ++ m ∷ [] } | false ↦ w ]

-- The recording methods of metrics.go.
module _ {S : Type 0} (c : Client) where
  abbrev pub record_cache_request : CacheOperation → CacheResult → World S → World S
  record_cache_request operation result = measure c (cache_request operation result)

  abbrev pub record_cache_loader_duration : LoaderOutcome → World S → World S
  record_cache_loader_duration outcome = measure c (cache_loader outcome)

  abbrev pub record_cache_singleflight_shared : World S → World S
  record_cache_singleflight_shared = measure c singleflight_shared

  abbrev pub record_lock_operation : LockType → LockOperation → LockOutcome → World S → World S
  record_lock_operation type operation outcome = measure c (lock_operation type operation outcome)

  abbrev pub record_rate_limit_decision : Algorithm → RateLimitOutcome → World S → World S
  record_rate_limit_decision algorithm outcome = measure c (rate_limit_decision algorithm outcome)
