-- ===== src/Options.antt =====
-- options.go: the runtime options. One type `H` stands for all hooks (codecs, functions, interfaces
-- and pointers), which the code copies and never looks at; nil is `none`. Options/Telemetry.antt
-- has the options of metrics and tracing.
pub mod Apply
pub mod Telemetry
pub mod Labels
use xredis.Prelude.{String, Bool, Option, none, some, List, [], ◌∷◌, is_empty, if◌then◌else◌}

-- redisotel.TracingOption, as the options of tracing make them
pub data TracingOption (H : Type 0) : Type 0 where
  tracer_provider : H → TracingOption H
  db_statement : Bool → TracingOption H
  db_system : String → TracingOption H
  attributes : List H → TracingOption H
  command_filter : H → TracingOption H
  commands_filter : H → TracingOption H
  dial_filter : Bool → TracingOption H
  caller_enabled : Bool → TracingOption H

-- options, with credentialsOptions
pub record Runtime (H : Type 0) : Type 0 where
  pub client_id : String
  pub identity_suffix : String
  pub tls : Option H
  pub limiter : Option H
  pub dialer : Option H
  pub on_connect : Option H
  pub dialer_retry_backoff : Option H
  pub provider : Option H
  pub provider_context : Option H
  pub streaming_provider : Option H
  pub cluster_new_client : Option H
  pub cluster_slots : Option H
  pub ring_new_client : Option H
  pub ring_heartbeat_fn : Option H
  pub ring_consistent_hash : Option H
  pub push_notification_processor : Option H
  pub maint_notifications_config : Option H
  pub codec : Option H
  pub metric_labels : List (String × String)
  pub trace_options : List (TracingOption H)

-- `if v != nil { field = v }`
abbrev pub override : {H : Type 0} → Option H → Option H → Option H
override none old = old
override (some v) old = some v

abbrev pub override_text : String → String → String
override_text v old = if is_empty v then old else v

-- `for _, opt := range opts { if opt != nil { opt.apply(o) } }`
abbrev pub apply_each : {A : Type 0} → List (Option (A → A)) → A → A
apply_each [] opts = opts
apply_each (none ∷ rest) opts = apply_each rest opts
apply_each (some opt ∷ rest) opts = apply_each rest (opt opts)

module _ {H : Type 0} where
  -- what newOptions starts from; `json` is JSONCodec{}
  abbrev pub unset : H → Runtime H
  unset json = record {
    client_id = "";
    identity_suffix = "";
    tls = none;
    limiter = none;
    dialer = none;
    on_connect = none;
    dialer_retry_backoff = none;
    provider = none;
    provider_context = none;
    streaming_provider = none;
    cluster_new_client = none;
    cluster_slots = none;
    ring_new_client = none;
    ring_heartbeat_fn = none;
    ring_consistent_hash = none;
    push_notification_processor = none;
    maint_notifications_config = none;
    codec = some json;
    metric_labels = [];
    trace_options = [];
  }

  unfoldable pub with_client_id : String → Runtime H → Runtime H
  with_client_id id opts = record opts { client_id = override_text id opts.client_id }

  unfoldable pub with_identity_suffix : String → Runtime H → Runtime H
  with_identity_suffix suffix opts = record opts {
    identity_suffix = override_text suffix opts.identity_suffix;
  }

  unfoldable pub with_codec : Option H → Runtime H → Runtime H
  with_codec hook opts = record opts { codec = override hook opts.codec }

  unfoldable pub with_tls_config : Option H → Runtime H → Runtime H
  with_tls_config hook opts = record opts { tls = override hook opts.tls }

  unfoldable pub with_limiter : Option H → Runtime H → Runtime H
  with_limiter hook opts = record opts { limiter = override hook opts.limiter }

  unfoldable pub with_dialer : Option H → Runtime H → Runtime H
  with_dialer hook opts = record opts { dialer = override hook opts.dialer }

  unfoldable pub with_on_connect : Option H → Runtime H → Runtime H
  with_on_connect hook opts = record opts { on_connect = override hook opts.on_connect }

  unfoldable pub with_dialer_retry_backoff : Option H → Runtime H → Runtime H
  with_dialer_retry_backoff hook opts = record opts {
    dialer_retry_backoff = override hook opts.dialer_retry_backoff;
  }

  unfoldable pub with_credentials_provider : Option H → Runtime H → Runtime H
  with_credentials_provider hook opts = record opts { provider = override hook opts.provider }

  unfoldable pub with_credentials_provider_context : Option H → Runtime H → Runtime H
  with_credentials_provider_context hook opts = record opts {
    provider_context = override hook opts.provider_context;
  }

  unfoldable pub with_streaming_credentials_provider : Option H → Runtime H → Runtime H
  with_streaming_credentials_provider hook opts = record opts {
    streaming_provider = override hook opts.streaming_provider;
  }

  unfoldable pub with_cluster_new_client : Option H → Runtime H → Runtime H
  with_cluster_new_client hook opts = record opts {
    cluster_new_client = override hook opts.cluster_new_client;
  }

  unfoldable pub with_cluster_slots : Option H → Runtime H → Runtime H
  with_cluster_slots hook opts = record opts { cluster_slots = override hook opts.cluster_slots }

  unfoldable pub with_push_notification_processor : Option H → Runtime H → Runtime H
  with_push_notification_processor hook opts = record opts {
    push_notification_processor = override hook opts.push_notification_processor;
  }

  unfoldable pub with_maint_notifications_config : Option H → Runtime H → Runtime H
  with_maint_notifications_config hook opts = record opts {
    maint_notifications_config = override hook opts.maint_notifications_config;
  }

  unfoldable pub with_ring_new_client : Option H → Runtime H → Runtime H
  with_ring_new_client hook opts = record opts {
    ring_new_client = override hook opts.ring_new_client;
  }

  unfoldable pub with_ring_heartbeat_fn : Option H → Runtime H → Runtime H
  with_ring_heartbeat_fn hook opts = record opts {
    ring_heartbeat_fn = override hook opts.ring_heartbeat_fn;
  }

  unfoldable pub with_ring_consistent_hash : Option H → Runtime H → Runtime H
  with_ring_consistent_hash hook opts = record opts {
    ring_consistent_hash = override hook opts.ring_consistent_hash;
  }

  -- newOptions; `uuid` is the identifier that it draws
  unfoldable pub new_options : H → String → List (Option (Runtime H → Runtime H)) → Runtime H
  new_options json uuid opts =
      let set = apply_each opts (unset json) in
      record set {
        client_id = override_text set.client_id uuid;
        codec = override set.codec (some json);
      }
