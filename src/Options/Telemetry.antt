-- ===== src/Options/Telemetry.antt =====
-- options.go: the options of metrics and of tracing.
use text.Mathlib.Text.{starts_with}
use xredis.Prelude.{
  String, Bool, ◌||◌, Option, none, some, List, [], ◌∷◌, ◌++◌, is_empty, if◌then◌else◌,
}
use xredis.Pipeline.{is_none}
use xredis.Redis.{put_field}
use xredis.Options.{
  Runtime, TracingOption, tracer_provider, db_statement, db_system, attributes, command_filter,
  commands_filter, dial_filter, caller_enabled,
}

-- The keys of the attributes that the library sets itself.
abbrev pub is_reserved : String → Bool
is_reserved key = starts_with key "redis.client."

module _ {H : Type 0} where
  -- `opts.metricLabels[key] = value`
  unfoldable pub with_metric_label : String → String → Runtime H → Runtime H
  with_metric_label key value opts =
      if is_empty key || is_reserved key
      then opts
      else record opts { metric_labels = put_field key value opts.metric_labels }

  unfoldable pub add_trace_option : TracingOption H → Runtime H → Runtime H
  add_trace_option opt opts = record opts { trace_options = opts.trace_options ++ opt ∷ [] }

  unfoldable pub with_tracer_provider : Option H → Runtime H → Runtime H
  unfolding add_trace_option
  with_tracer_provider none opts = opts
  with_tracer_provider (some provider) opts = add_trace_option (tracer_provider provider) opts

  unfoldable pub with_tracing_db_statement : Bool → Runtime H → Runtime H
  unfolding add_trace_option
  with_tracing_db_statement on opts = add_trace_option (db_statement on) opts

  unfoldable pub with_tracing_db_system : String → Runtime H → Runtime H
  unfolding add_trace_option
  with_tracing_db_system system opts =
      if is_empty system then opts else add_trace_option (db_system system) opts

  unfoldable pub with_tracing_attributes : List H → Runtime H → Runtime H
  unfolding add_trace_option
  with_tracing_attributes attrs opts =
      if is_none attrs then opts else add_trace_option (attributes attrs) opts

  unfoldable pub with_tracing_command_filter : Option H → Runtime H → Runtime H
  unfolding add_trace_option
  with_tracing_command_filter none opts = opts
  with_tracing_command_filter (some filter) opts = add_trace_option (command_filter filter) opts

  unfoldable pub with_tracing_commands_filter : Option H → Runtime H → Runtime H
  unfolding add_trace_option
  with_tracing_commands_filter none opts = opts
  with_tracing_commands_filter (some filter) opts = add_trace_option (commands_filter filter) opts

  unfoldable pub with_tracing_dial_filter : Bool → Runtime H → Runtime H
  unfolding add_trace_option
  with_tracing_dial_filter on opts = add_trace_option (dial_filter on) opts

  unfoldable pub with_tracing_caller_enabled : Bool → Runtime H → Runtime H
  unfolding add_trace_option
  with_tracing_caller_enabled on opts = add_trace_option (caller_enabled on) opts
