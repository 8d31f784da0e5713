-- ===== src/Examples/Versioned.antt =====
-- cas_versioned.go on the in-memory server.
use xredis.Prelude.{
  ◌≡◌, ◌≤◌, refl, sym, true, String, Option, none, some, List, [], ◌∷◌, pos, str_eq, if◌then◌else◌,
}
use xredis.Exec.{ok}
use xredis.Errors.{foreign}
use xredis.Redis.{hash}
use xredis.Client.{World, delivered, lost_reply, round_trip}
use xredis.Time.{duration_to_ms, update_expiration_to_ms}
use xredis.Codec.{Codec}
use xredis.Versioned.{
  VersionedStore, set_if_absent, swap_versioned, delete_versioned, get_versioned,
  versioned_create_script, versioned_swap_script, versioned_delete_script, validate_store_key,
  validate_revision, set_encoded_if_absent,
}
use xredis.Versioned.Effect.{field_at}
use xredis.Versioned.Contract.{
  swap_versioned_atomic, set_if_absent_atomic, delete_versioned_atomic, get-swap_versioned,
}
use xredis.Versioned.NoLostUpdate.{one_update_wins}
use xredis.Versioned.Rivals.{Call, swaps, deletes, wins}
use xredis.Examples.Memory.{Memory, memory}
use xredis.Examples.Lock.{client}

abbrev plain : Codec String
plain = record { marshal = λ v. ok v; unmarshal = λ v. ok v }

abbrev store : Option (VersionedStore String)
store = some (record { client = some client; prefix = "v:"; codec = some plain })

-- "v:k" holds "one" with the revision "r1"
abbrev stored : World Memory
stored = record {
  server = record {
    now = 1000;
    table = λ k.
        if str_eq k "v:k"
        then some
            (record { value = hash (("value", "one") ∷ ("revision", "r1") ∷ []); deadline = none })
        else none;
  };
  schedule = [];
  measured = [];
}

-- three clients that have read "r1", one of which loses the reply of its request
abbrev rivals : List (Call String)
rivals = swaps "r2" "r1" "two" (pos 0) ∷ swaps "r3" "r1" "three" (pos 0) ∷ deletes "r1" ∷ []

abbrev contested : World Memory
contested = record stored {
  schedule =
      record { others = λ s. s; fault = delivered }
      ∷ record { others = λ s. s; fault = lost_reply (foreign "timeout") }
      ∷ [];
}

one_update_wins_example : wins memory store "k" "r1" rivals contested ≤ 1
one_update_wins_example =
    one_update_wins memory store "k" "r1" rivals contested (refl, (refl, (tt, tt)))
      ((λ d h. h), ((λ d h. h), tt))

swap_versioned_atomic_example :
    field_at memory "revision"
      (swap_versioned memory "r2" store "k" "r1" "two" (pos 0) stored).1.server
      "v:k"
    ≡ ok (some "r2")
unfolding swap_versioned round_trip versioned_swap_script validate_revision update_expiration_to_ms
swap_versioned_atomic_example =
    (swap_versioned_atomic memory store "r2" "k" "r1" "two" (pos 0) stored (some "r2") refl).1.2
      "revision" "v:k"

set_if_absent_atomic_example :
    field_at memory "revision"
      (set_if_absent memory "r2" store "new" "two" (pos 0) stored).1.server
      "v:new"
    ≡ ok (some "r2")
unfolding set_if_absent set_encoded_if_absent round_trip versioned_create_script validate_store_key
    duration_to_ms
set_if_absent_atomic_example =
    (set_if_absent_atomic memory store "r2" "new" "two" (pos 0) stored (some "r2") refl).1.2
      "revision" "v:new"

delete_versioned_atomic_example :
    memory.lookup (delete_versioned memory store "k" "r1" stored).1.server "v:k" ≡ none
unfolding delete_versioned round_trip versioned_delete_script validate_revision
delete_versioned_atomic_example =
    (delete_versioned_atomic memory store "k" "r1" stored true refl).1 "v:k"

get-swap_versioned_example :
    (get_versioned memory store "k"
      (swap_versioned memory "r2" store "k" "r1" "two" (pos 0) stored).1).0
    ≡ ok (some (record { value = "two"; revision = "r2" }))
unfolding swap_versioned round_trip versioned_swap_script validate_revision update_expiration_to_ms
get-swap_versioned_example =
    get-swap_versioned memory store "r2" "k" "r1" "two" (pos 0) stored refl refl refl (λ e h. sym h)
