-- ===== src/Options/Apply.antt =====
-- The apply functions of config.go, which copy runtime options over the options of go-redis where
-- they are set.
use xredis.Prelude.{String, Option, none}
use xredis.Options.{Runtime, override, override_text}

-- The fields of the options of go-redis that the apply functions write.
pub record Connection (H : Type 0) : Type 0 where
  pub client_name : String
  pub identity_suffix : String
  pub tls_config : Option H
  pub dialer : Option H
  pub on_connect : Option H
  pub dialer_retry_backoff : Option H
  pub credentials_provider : Option H
  pub credentials_provider_context : Option H
  pub streaming_credentials_provider : Option H
  pub limiter : Option H
  pub new_client : Option H
  pub cluster_slots : Option H
  pub heartbeat_fn : Option H
  pub new_consistent_hash : Option H
  pub push_notification_processor : Option H
  pub maint_notifications_config : Option H

module _ {H : Type 0} where
  -- The fields of a literal that names only the identity suffix.
  abbrev pub fresh : String → Connection H
  fresh suffix = record {
    client_name = "";
    identity_suffix = suffix;
    tls_config = none;
    dialer = none;
    on_connect = none;
    dialer_retry_backoff = none;
    credentials_provider = none;
    credentials_provider_context = none;
    streaming_credentials_provider = none;
    limiter = none;
    new_client = none;
    cluster_slots = none;
    heartbeat_fn = none;
    new_consistent_hash = none;
    push_notification_processor = none;
    maint_notifications_config = none;
  }

  unfoldable pub apply_common_options : Runtime H → Connection H → Connection H
  apply_common_options opts c = record c {
    client_name = opts.client_id;
    identity_suffix = override_text opts.identity_suffix c.identity_suffix;
    tls_config = override opts.tls c.tls_config;
  }

  unfoldable pub apply_credentials : Runtime H → Connection H → Connection H
  apply_credentials opts c = record c {
    credentials_provider = override opts.provider c.credentials_provider;
    credentials_provider_context = override opts.provider_context c.credentials_provider_context;
    streaming_credentials_provider =
        override opts.streaming_provider c.streaming_credentials_provider;
  }

  unfoldable pub apply_connection_options : Runtime H → Connection H → Connection H
  apply_connection_options opts c = record c {
    dialer = override opts.dialer c.dialer;
    on_connect = override opts.on_connect c.on_connect;
    dialer_retry_backoff = override opts.dialer_retry_backoff c.dialer_retry_backoff;
  }

  abbrev shared : Runtime H → Connection H → Connection H
  shared opts c =
      apply_credentials opts (apply_connection_options opts (apply_common_options opts c))

  unfoldable pub apply_client_options : Runtime H → Connection H → Connection H
  unfolding apply_common_options apply_connection_options apply_credentials
  apply_client_options opts c =
      let d = shared opts c in
      record d {
        limiter = override opts.limiter d.limiter;
        push_notification_processor =
            override opts.push_notification_processor d.push_notification_processor;
        maint_notifications_config =
            override opts.maint_notifications_config d.maint_notifications_config;
      }

  unfoldable pub apply_cluster_options : Runtime H → Connection H → Connection H
  unfolding apply_common_options apply_connection_options apply_credentials
  apply_cluster_options opts c =
      let d = shared opts c in
      record d {
        new_client = override opts.cluster_new_client d.new_client;
        cluster_slots = override opts.cluster_slots d.cluster_slots;
        push_notification_processor =
            override opts.push_notification_processor d.push_notification_processor;
        maint_notifications_config =
            override opts.maint_notifications_config d.maint_notifications_config;
      }

  unfoldable pub apply_failover_options : Runtime H → Connection H → Connection H
  unfolding apply_common_options apply_connection_options apply_credentials
  apply_failover_options opts c =
      let d = shared opts c in
      record d {
        push_notification_processor =
            override opts.push_notification_processor d.push_notification_processor;
      }

  unfoldable pub apply_ring_options : Runtime H → Connection H → Connection H
  unfolding apply_common_options apply_connection_options apply_credentials
  apply_ring_options opts c =
      let d = shared opts c in
      record d {
        limiter = override opts.limiter d.limiter;
        new_client = override opts.ring_new_client d.new_client;
        heartbeat_fn = override opts.ring_heartbeat_fn d.heartbeat_fn;
        new_consistent_hash = override opts.ring_consistent_hash d.new_consistent_hash;
      }
