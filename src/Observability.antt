-- ===== src/Observability.antt =====
-- observability.go and the life of the metrics in metrics.go. OpenTelemetry and the native metrics
-- of go-redis are not code of the repository: they are the record `Telemetry`, and what the native
-- instance keeps is a state of its own. `Process` is the state of the whole program: that state,
-- the open connections, and the pointer that metrics.go shares, where pointers are numbers that are
-- given out once. The descriptions, units and buckets of the instruments are left out.

pub mod Settings
pub mod Lifecycle
use xredis.Prelude.{
  ℕ, suc, ◌==◌, String, Bool, true, false, Option, none, some, List, [], ◌∷◌, ◌++◌, if◌then◌else◌,
}
use xredis.Exec.{Exec, Result, ok, err, pure, lift, ◌>>=◌, ◌>>◌, ◌>>>◌}
use xredis.Options.{apply_each}
use xredis.Pipeline.{is_none}

-- What the setters of redisotelnative.Config are called with.
pub data Setting (Provider Groups Aggregation Bound : Type 0) : Type 0 where
  enabled : Bool → Setting Provider Groups Aggregation Bound
  meter_provider : Provider → Setting Provider Groups Aggregation Bound
  metric_groups : Groups → Setting Provider Groups Aggregation Bound
  hide_pub_sub_channel_names : Bool → Setting Provider Groups Aggregation Bound
  hide_stream_names : Bool → Setting Provider Groups Aggregation Bound
  include_commands : List String → Setting Provider Groups Aggregation Bound
  exclude_commands : List String → Setting Provider Groups Aggregation Bound
  histogram_aggregation : Aggregation → Setting Provider Groups Aggregation Bound
  histogram_buckets : List Bound → Setting Provider Groups Aggregation Bound

pub record Telemetry : Type 1 where
  pub Provider : Type 0
  pub Instrument : Type 0
  pub Attributes : Type 0
  pub Groups : Type 0
  pub Aggregation : Type 0
  pub Bound : Type 0
  pub Native : Type 0
  -- otel.GetMeterProvider
  pub global_provider : Provider
  -- Int64Counter and Float64Histogram of the meter of a provider, by the name of the instrument
  pub counter : Provider → String → Result Instrument
  pub histogram : Provider → String → Result Instrument
  -- attribute.NewSet
  pub attribute_set : List (String × String) → Attributes
  -- RedisMetricGroupDefault
  pub default_groups : Groups
  pub no_aggregation : Aggregation
  -- Init of the native instance, with the setters called on a new Config, and Shutdown
  pub init : List (Setting Provider Groups Aggregation Bound) → Exec Native (Unit {0})
  pub shutdown : Exec Native (Unit {0})

-- `metrics`, with the pointer to it
pub record Metrics (Instrument Attributes : Type 0) : Type 0 where
  pub pointer : ℕ
  pub attributes : Option Attributes
  pub cache_requests : Instrument
  pub cache_loader_duration : Instrument
  pub cache_singleflight_shared : Instrument
  pub lock_operations : Instrument
  pub rate_limit_decisions : Instrument
  pub rate_limit_duration : Instrument

-- What InitObservability returns: noopObservabilityShutdown, or the function that stops the metrics
-- at a pointer.
pub data Shutdown : Type 0 where
  noop : Shutdown
  stops : ℕ → Shutdown

module _ (t : Telemetry) where
  open t use {
    Provider, Instrument, Attributes, Groups, Aggregation, Bound, Native, global_provider, counter,
    histogram, attribute_set,
  }

  -- The connections are those of client.go.
  pub record Process (Connections : Type 0) : Type 0 where
    pub native : Native
    pub connections : Connections
    pub global_metrics : Option (Metrics Instrument Attributes)
    pub allocated : ℕ

  pub record ObservabilityConfig : Type 0 where
    pub enabled : Bool
    pub meter_provider : Option Provider
    pub metric_groups : Groups
    pub include_commands : List String
    pub exclude_commands : List String
    pub hide_pub_sub_channel_names : Bool
    pub hide_stream_names : Bool
    pub histogram_aggregation : Aggregation
    pub histogram_aggregation_set : Bool
    pub histogram_buckets : List Bound

  unfoldable pub default_observability_config : ObservabilityConfig
  default_observability_config = record {
    enabled = true;
    meter_provider = none;
    metric_groups = t.default_groups;
    include_commands = [];
    exclude_commands = [];
    hide_pub_sub_channel_names = true;
    hide_stream_names = true;
    histogram_aggregation = t.no_aggregation;
    histogram_aggregation_set = false;
    histogram_buckets = [];
  }

  -- newMetrics, whose result is put at a new pointer
  unfoldable pub new_metrics : Provider → ℕ → Result (Metrics Instrument Attributes)
  new_metrics provider pointer =
      counter provider "redis.client.cache.requests" >>> λ cache_requests.
      histogram provider "redis.client.cache.loader.duration" >>> λ cache_loader_duration.
      counter provider "redis.client.cache.singleflight.shared" >>> λ cache_singleflight_shared.
      counter provider "redis.client.lock.operations" >>> λ lock_operations.
      counter provider "redis.client.rate_limiter.decisions" >>> λ rate_limit_decisions.
      histogram provider "redis.client.rate_limiter.duration" >>> λ rate_limit_duration.
      ok (record {
        pointer = pointer;
        attributes = none;
        cache_requests = cache_requests;
        cache_loader_duration = cache_loader_duration;
        cache_singleflight_shared = cache_singleflight_shared;
        lock_operations = lock_operations;
        rate_limit_decisions = rate_limit_decisions;
        rate_limit_duration = rate_limit_duration;
      })

  -- The setters that initRedisMetrics calls, in their order.
  unfoldable pub native_settings :
      Provider → ObservabilityConfig → List (Setting Provider Groups Aggregation Bound)
  native_settings provider cfg =
      enabled true
      ∷ meter_provider provider
      ∷ metric_groups cfg.metric_groups
      ∷ hide_pub_sub_channel_names cfg.hide_pub_sub_channel_names
      ∷ hide_stream_names cfg.hide_stream_names
      ∷ ((if is_none cfg.include_commands then [] else include_commands cfg.include_commands ∷ [])
          ++ (if is_none cfg.exclude_commands
              then []
              else exclude_commands cfg.exclude_commands ∷ [])
          ++ (if cfg.histogram_aggregation_set
              then histogram_aggregation cfg.histogram_aggregation ∷ []
              else [])
          ++ (if is_none cfg.histogram_buckets
              then []
              else histogram_buckets cfg.histogram_buckets ∷ []))

  abbrev pub provider_of : ObservabilityConfig → Provider
  provider_of cfg = elim cfg.meter_provider [ none ↦ global_provider | some p ↦ p ]

  unfoldable pub new_metric_attributes : List (String × String) → Attributes
  new_metric_attributes labels = attribute_set labels

  module _ {Connections : Type 0} where
    -- An action of the native instance.
    abbrev pub natively : {A : Type 0} → Exec Native A → Exec (Process Connections) A
    natively command s = ((command s.native).0, record s { native = (command s.native).1 })

    -- initRedisMetrics; what it returns is the Shutdown of the native instance
    unfoldable pub init_redis_metrics :
        Provider → ObservabilityConfig → Exec (Process Connections) (Unit {0})
    unfolding native_settings
    init_redis_metrics provider cfg = natively (t.init (native_settings provider cfg))

    -- `newMetrics(provider)` as an action: a pointer is given out
    abbrev pub allocate_metrics :
        Provider → Exec (Process Connections) (Metrics Instrument Attributes)
    allocate_metrics provider s =
        (new_metrics provider s.allocated, record s { allocated = suc s.allocated })

    unfoldable pub set_metrics :
        Metrics Instrument Attributes → Exec (Process Connections) (Unit {0})
    set_metrics value s = (ok tt, record s { global_metrics = some value })

    -- clearMetrics: CompareAndSwap(value, nil) on the pointer
    unfoldable pub clear_metrics : ℕ → Exec (Process Connections) (Unit {0})
    clear_metrics pointer s = (
      ok tt,
      record s {
        global_metrics = elim s.global_metrics [
          | none ↦ none
          | some m ↦ if m.pointer == pointer then none else some m
        ];
      },
    )

    -- InitObservability
    unfoldable pub init_observability :
        List (Option (ObservabilityConfig → ObservabilityConfig))
        → Exec (Process Connections) Shutdown
    unfolding default_observability_config new_metrics init_redis_metrics set_metrics
    init_observability opts =
        let cfg = apply_each opts default_observability_config in
        if cfg.enabled
        then (do
          wrapper_metrics ← allocate_metrics (provider_of cfg)
          init_redis_metrics (provider_of cfg) cfg
          set_metrics wrapper_metrics
          pure (stops wrapper_metrics.pointer))
        else pure noop

    -- The function that it returned.
    unfoldable pub run_shutdown : Shutdown → Exec (Process Connections) (Unit {0})
    unfolding clear_metrics
    run_shutdown noop = pure tt
    run_shutdown (stops pointer) = do clear_metrics pointer; natively t.shutdown

    -- newClientMetrics: a copy with attributes of its own
    unfoldable pub new_client_metrics :
        List (String × String) → Process Connections → Option (Metrics Instrument Attributes)
    unfolding new_metric_attributes
    new_client_metrics labels s = elim s.global_metrics [
      | none ↦ none
      | some base ↦ some (record base { attributes = some (new_metric_attributes labels) })
    ]

-- SetLogger (logger.go); `set` is SetLogger of go-redis
unfoldable pub set_logger :
    {Logger State : Type 0} → (Logger → State → State) → Option Logger → State → State
set_logger set none s = s
set_logger set (some logger) s = set logger s
