-- ===== src/Examples/Pipeline.antt =====
-- pipeline.go: a log of the batches that are sent.
use xredis.Prelude.{◌≡◌, refl, String, some, List, [], ◌∷◌, ◌++◌, pos, negsuc}
use xredis.Exec.{Exec, ok, fail}
use xredis.Errors.{invalid_ttl}
use xredis.Pipeline.{
  HSetItem, hset_command, expire_command, h_set_many, SetItem, Command, set_many, set_struct_many,
  validate_pipeline_client,
}
use xredis.Pipeline.Queue.{
  h_set_many_all_or_nothing, set_many_all_or_nothing, set_struct_many-set_many,
}
use xredis.Examples.Lock.{client}

abbrev batch : List (Command String) → Exec (List (List (Command String))) (Unit {0})
batch cs log = (ok tt, log ++ cs ∷ [])

abbrev single : Command String → Exec (List (List (Command String))) (Unit {0})
single c log = (ok tt, log ++ (c ∷ []) ∷ [])

abbrev good : SetItem String
good = record { key = "a"; value = "1"; expiration = pos 5 }

abbrev bad : SetItem String
bad = record { key = "b"; value = "2"; expiration = negsuc 0 }

set_many_all_or_nothing_example :
    set_many batch single (some client) (good ∷ bad ∷ []) [] ≡ (fail invalid_ttl, [])
unfolding validate_pipeline_client
set_many_all_or_nothing_example =
    set_many_all_or_nothing batch single (some client) (good ∷ bad ∷ []) []

set_struct_many-set_many_example :
    set_struct_many batch (λ v. ok v) (some client) (good ∷ []) []
    ≡ set_many batch single (some client) (good ∷ []) []
set_struct_many-set_many_example =
    set_struct_many-set_many batch single (λ v. ok v) (λ v. v) (some client) (good ∷ []) []
      (λ v. refl)

abbrev lasting : HSetItem String
lasting = record { key = "h"; values = "f" ∷ "1" ∷ []; expiration = pos 5 }

h_set_many_all_or_nothing_example :
    h_set_many batch single (some client) (lasting ∷ []) []
    ≡ (ok tt, (hset_command "h" ("f" ∷ "1" ∷ []) ∷ expire_command "h" (pos 5) ∷ []) ∷ [])
unfolding validate_pipeline_client
h_set_many_all_or_nothing_example =
    h_set_many_all_or_nothing batch single (some client) (lasting ∷ []) []
