-- ===== src/Examples/Connect.antt =====
-- client.go and observability.go on concrete inputs: connections are a list of the open ones, and
-- the native metrics of go-redis count how often they were started.
use xredis.Prelude.{
  ℕ, suc, ◌≡◌, refl, String, Bool, true, false, not, ◌&&◌, ◌||◌, ◌==◌, Option, none, some, List, [],
  ◌∷◌, ltb, arith, if◌then◌else◌,
}
use xredis.Errors.{known, invalid_config}
use xredis.Exec.{Result, ok, err}
use xredis.Redis.{get_field}
use xredis.Options.{Runtime, new_options}
use xredis.Options.Telemetry.{with_tracing_dial_filter}
use xredis.Options.Labels.{new_options-label_options, label_options}
use xredis.Observability.{
  Telemetry, Process, Metrics, stops, init_observability, run_shutdown, new_client_metrics,
}
use xredis.Observability.Lifecycle.{step, done, shuts_down, shutdown_keeps_later}
use xredis.Connect.{Dialing, options, new_standalone_client}
use xredis.Connect.Outcome.{AllOrNothing, constructors_open_one_or_none}

abbrev counted : Telemetry
counted = record {
  Provider = String;
  Instrument = String;
  Attributes = List (String × String);
  Groups = ℕ;
  Aggregation = Bool;
  Bound = ℕ;
  Native = ℕ;
  global_provider = "otel";
  counter = λ p name. ok name;
  histogram = λ p name. ok name;
  attribute_set = λ labels. labels;
  default_groups = 15;
  no_aggregation = false;
  init = λ settings n. (ok tt, suc n);
  shutdown = λ n. (ok tt, n);
}

is_in : List ℕ → ℕ → Bool
is_in [] d = false
is_in (c ∷ cs) d = (d == c) || is_in cs d

above : List ℕ → ℕ
above [] = 0
above (c ∷ cs) = if ltb c (above cs) then above cs else suc c

without : ℕ → List ℕ → List ℕ
without c [] = []
without c (e ∷ cs) = let rest = without c cs in if e == c then rest else e ∷ rest

is_in-above : (cs : List ℕ) (d : ℕ) → ltb d (above cs) ≡ false → is_in cs d ≡ false
unfolding is_in above
is_in-above [] d h = refl
is_in-above (c ∷ cs) d h = ground (arith, is_in-above cs d)

is_in-without : (c d : ℕ) (cs : List ℕ) → is_in (without c cs) d ≡ not (d == c) && is_in cs d
unfolding is_in without
is_in-without c d [] = ground arith
is_in-without c d (e ∷ cs) = ground (arith, is_in-without c d cs)

is_in-cons : (c d : ℕ) (cs : List ℕ) → is_in (c ∷ cs) d ≡ (d == c) || is_in cs d
unfolding is_in
is_in-cons c d cs = refl

abbrev listed : Dialing String
listed = record {
  Connections = List ℕ;
  is_open = is_in;
  connect = λ o s. (above s, above s ∷ s);
  close = λ c s. (ok tt, without c s);
  ping = λ c s. (ok tt, s);
  instrument_tracing = λ c ts s. (err (known invalid_config), s);
  connect_new = λ o s. is_in-above s (above s) (ground arith);
  is_open-connect = λ o s d. is_in-cons (above s) d s;
  is_open-close = λ c s d. is_in-without c d s;
  is_open-instrument_tracing = λ c ts s d. refl;
}

abbrev trim : String → String
trim v = v

abbrev start : Process counted (List ℕ)
start = record { native = 0; connections = []; global_metrics = none; allocated = 0 }

-- Tracing is asked for, and fails.
abbrev traced : List (Option (Runtime String → Runtime String))
traced = some (with_tracing_dial_filter true) ∷ none ∷ []

abbrev no_url : {A : Type 0} → String → Result A
no_url url = err (known invalid_config)

constructors_open_one_or_none_example :
    AllOrNothing counted listed
      (options counted listed trim "json" "7f" [] traced)
      start
      0
      (new_standalone_client counted listed trim "json" "7f" [] traced no_url start)
constructors_open_one_or_none_example =
    (constructors_open_one_or_none counted listed trim "json" "7f" [] traced no_url no_url no_url
      start 0).0

-- The first metrics were shut down before the second were started, and are shut down once more.
abbrev restarted : Process counted (List ℕ)
restarted =
    (run_shutdown counted (stops 0)
      (init_observability counted {Connections = List ℕ} [] start).1).1

shutdown_keeps_later_example :
    (m : Metrics String (List (String × String))) × (m.attributes ≡ some (("app", "shop") ∷ []))
    × (new_client_metrics counted (("app", "shop") ∷ []) (init_observability counted [] restarted).1
        ≡ some m)
    × (new_client_metrics counted
          (("app", "shop") ∷ [])
          (run_shutdown counted (stops 0) (init_observability counted [] restarted).1).1
        ≡ some m)
    × (new_client_metrics counted
          (("app", "shop") ∷ [])
          (run_shutdown counted (stops 1) (init_observability counted [] restarted).1).1
        ≡ none)
unfolding init_observability run_shutdown
shutdown_keeps_later_example =
    shutdown_keeps_later counted (List ℕ) [] [] start restarted (stops 0) 1 (("app", "shop") ∷ [])
      refl (step (shuts_down (stops 0) _) done) refl

new_options-label_options_example :
    get_field "app"
      (new_options {H = String} "json" "7f" (
        label_options
          (("app", "a") ∷ ("redis.client.lock.type", "x") ∷ ("app", "shop") ∷ []))).metric_labels
    ≡ some "shop"
new_options-label_options_example =
    new_options-label_options {H = String} "json" "7f" "app"
      (("app", "a") ∷ ("redis.client.lock.type", "x") ∷ ("app", "shop") ∷ [])
