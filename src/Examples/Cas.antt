-- ===== src/Examples/Cas.antt =====
-- cas.go on the in-memory server.
use xredis.Prelude.{◌≡◌, refl, true, none, some, [], ◌∷◌, pos, str_eq, if◌then◌else◌}
use xredis.Exec.{ok}
use xredis.Redis.{str, hash, hget_reply}
use xredis.Client.{World, round_trip}
use xredis.Time.{update_expiration_to_ms}
use xredis.Cas.{
  compare_and_swap, compare_and_delete, h_compare_and_swap, compare_and_swap_script,
  compare_and_delete_script, hash_compare_and_swap_script,
}
use xredis.Cas.Atomicity.{
  compare_and_swap_atomic, compare_and_delete_atomic, h_compare_and_swap_atomic,
}
use xredis.Examples.Memory.{Memory, memory}

-- the clock at 1000 ms; "a" holds "x" until 5000 ms, and "h" a hash with the field "f"
abbrev pub held : World Memory
held = record {
  server = record {
    now = 1000;
    table = λ k.
        if str_eq k "a"
        then some (record { value = str "x"; deadline = some 5000 })
        else if str_eq k "h"
        then some (record { value = hash (("f", "x") ∷ ("g", "z") ∷ []); deadline = none })
        else none;
  };
  schedule = [];
  measured = [];
}

compare_and_swap_atomic_example :
    memory.lookup (compare_and_swap memory "a" "x" "y" (pos 1500000) held).1.server "a"
    ≡ some (record { value = str "y"; deadline = some 1002 })
unfolding compare_and_swap update_expiration_to_ms round_trip compare_and_swap_script
compare_and_swap_atomic_example =
    (compare_and_swap_atomic memory "a" "x" "y" (pos 1500000) held true refl).1 "a"

compare_and_delete_atomic_example :
    memory.lookup (compare_and_delete memory "a" "x" held).1.server "a" ≡ none
unfolding compare_and_delete round_trip compare_and_delete_script
compare_and_delete_atomic_example = (compare_and_delete_atomic memory "a" "x" held true refl).1 "a"

h_compare_and_swap_atomic_example :
    hget_reply "f" (memory.lookup (h_compare_and_swap memory "h" "f" "x" "y" held).1.server "h")
    ≡ ok (some "y")
unfolding h_compare_and_swap round_trip hash_compare_and_swap_script
h_compare_and_swap_atomic_example =
    (h_compare_and_swap_atomic memory "h" "f" "x" "y" held true refl).1 "f"
