-- ===== src/Observability/Settings.antt =====
-- observability.go: the options of InitObservability.
use xredis.Prelude.{String, Bool, true, Option, none, some, List}
use xredis.Observability.{Telemetry, ObservabilityConfig}

module _ (t : Telemetry) where
  open t use {Provider, Groups, Aggregation, Bound}

  abbrev Config : Type 0
  Config = ObservabilityConfig t

  unfoldable pub with_metrics_enabled : Bool → Config → Config
  with_metrics_enabled enabled cfg = record cfg { enabled = enabled }

  unfoldable pub with_meter_provider : Option Provider → Config → Config
  with_meter_provider none cfg = cfg
  with_meter_provider (some provider) cfg = record cfg { meter_provider = some provider }

  unfoldable pub with_redis_metric_groups : Groups → Config → Config
  with_redis_metric_groups groups cfg = record cfg { metric_groups = groups }

  unfoldable pub with_redis_metric_include_commands : List String → Config → Config
  with_redis_metric_include_commands commands cfg = record cfg { include_commands = commands }

  unfoldable pub with_redis_metric_exclude_commands : List String → Config → Config
  with_redis_metric_exclude_commands commands cfg = record cfg { exclude_commands = commands }

  unfoldable pub with_redis_metric_hide_pub_sub_channel_names : Bool → Config → Config
  with_redis_metric_hide_pub_sub_channel_names hide cfg = record cfg {
    hide_pub_sub_channel_names = hide;
  }

  unfoldable pub with_redis_metric_hide_stream_names : Bool → Config → Config
  with_redis_metric_hide_stream_names hide cfg = record cfg { hide_stream_names = hide }

  unfoldable pub with_redis_metric_histogram_aggregation : Aggregation → Config → Config
  with_redis_metric_histogram_aggregation aggregation cfg = record cfg {
    histogram_aggregation = aggregation;
    histogram_aggregation_set = true;
  }

  unfoldable pub with_redis_metric_histogram_buckets : List Bound → Config → Config
  with_redis_metric_histogram_buckets buckets cfg = record cfg { histogram_buckets = buckets }
