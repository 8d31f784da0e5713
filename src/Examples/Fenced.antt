-- ===== src/Examples/Fenced.antt =====
-- lock_fencing.go on the in-memory server.
use xredis.Prelude.{refl, some, List, [], ◌∷◌, pos, arith}
use xredis.Fenced.{FencedLock, with_fencing_counter_ttl}
use xredis.Fenced.Calls.{Call, acquires, releases, attempts, Increasing}
use xredis.Fenced.Monotonic.{fencing_tokens_increase}
use xredis.Examples.Memory.{memory}
use xredis.Examples.Cas.{held}
use xredis.Examples.Lock.{client, second}

abbrev lease : FencedLock
lease = record {
  lock = some (record { client = some client; key = "b"; token = "t" });
  fencing_key = "f";
  fencing_token = pos 1;
  counter_ttl = pos 0;
}

-- two acquisitions with a release between them, the second with a counter that expires
abbrev turns : List Call
turns =
    acquires (some client) "b" "t" second []
    ∷ releases lease
    ∷ acquires (some client) "b" "u" second (some (with_fencing_counter_ttl (pos 9000000000)) ∷ [])
    ∷ []

fencing_tokens_increase_example : Increasing (pos 0) (attempts memory "f" turns held).0
fencing_tokens_increase_example =
    fencing_tokens_increase memory "f" turns (pos 0) held (tt, (refl, (tt, tt)))
      (record { reached = (pos 0, refl, omega arith); kept = tt })
