-- ===== src/Examples/Lock.antt =====
-- lock.go on the in-memory server.
use mathlib.Core.Bool.{decide}
use xredis.Prelude.{◌≡◌, ◌≢◌, All, refl, Bool, true, none, some, List, [], ◌∷◌, ℤ, pos}
use xredis.Exec.{Result, ok}
use xredis.Errors.{foreign, errors_is}
use xredis.Redis.{str}
use xredis.Client.{
  Client, standalone, World, delivered, lost_reply, arrival, round_trip, lock_operation, lease,
  unlock, not_owned,
}
use xredis.Time.{duration_to_ms}
use xredis.Cas.{compare_and_delete, compare_and_delete_script}
use xredis.Lock.{
  Lock, validate, validate_lock, try_lock_with_token, unlock_lock, extend_lock, lock_extend_script,
}
use xredis.Lock.Contract.{try_lock_decides, unlock_releases, extend_renews}
use xredis.Lock.Recorded.{lock_calls_measured}
use xredis.Lock.Exclusion.{Call, acquires, releases, extends, attempts, lock_exclusion}
use xredis.Examples.Memory.{Memory, memory}
use xredis.Examples.Cas.{held}

abbrev pub client : Client
client = record { conn = some standalone; metrics = true }

abbrev holder : Lock
holder = record { client = some client; key = "a"; token = "x" }

abbrev stranger : Lock
stranger = record { client = some client; key = "a"; token = "z" }

abbrev pub second : ℤ
second = pos 1000000000

try_lock_decides_example :
    memory.lookup (try_lock_with_token memory (some client) "a" "t" second held).1.server "a"
    ≡ memory.lookup (arrival held) "a"
unfolding try_lock_with_token round_trip
try_lock_decides_example =
    (try_lock_decides memory (some client) "a" "t" second held none refl).1 "a"

unlock_releases_example : memory.lookup (unlock_lock memory (some holder) held).1.server "a" ≡ none
unfolding unlock_lock compare_and_delete compare_and_delete_script round_trip
unlock_releases_example = (unlock_releases memory holder held refl).1 "a"

extend_renews_example :
    memory.lookup (extend_lock memory (some holder) second held).1.server "a"
    ≡ some (record { value = str "x"; deadline = some 2000 })
unfolding extend_lock lock_extend_script round_trip duration_to_ms
extend_renews_example = (extend_renews memory holder second held true refl).1 "a"

lock_calls_measured_example :
    (unlock_lock memory (some stranger) held).1.measured
    ≡ lock_operation lease unlock not_owned ∷ []
unfolding unlock_lock compare_and_delete compare_and_delete_script validate validate_lock round_trip
    errors_is decide
lock_calls_measured_example =
    (lock_calls_measured memory stranger client "b" "t" second held refl refl tt).1

-- the calls of others, one of which loses its reply
abbrev others : List Call
others =
    acquires (some client) "t" second
    ∷ releases (some client) "z"
    ∷ extends (some client) "z" second
    ∷ []

abbrev busy : World Memory
busy = record held {
  schedule =
      record { others = λ s. s; fault = lost_reply (foreign "timeout") }
      ∷ record { others = λ s. s; fault = delivered }
      ∷ [];
}

lock_exclusion_example :
    All (λ (q : Result Bool). q ≢ ok true) (attempts memory "a" others busy).0
    × (memory.lookup (attempts memory "a" others busy).1.server "a"
        ≡ some (record { value = str "x"; deadline = some 5000 }))
lock_exclusion_example =
    lock_exclusion memory "a" (record { value = str "x"; deadline = some 5000 }) others busy
      (refl, (refl, (refl, tt))) (record { now = refl; later = ((λ s h. h), ((λ s h. h), tt)) })
