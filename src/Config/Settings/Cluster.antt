-- ===== src/Config/Settings/Cluster.antt =====
-- config.go: the fields of ClusterConfig, and of rdb.ClusterOptions,
-- that are copied and never looked at.
use xredis.Prelude.{String, Bool, ℤ}

pub record ClusterSettings : Type 0 where
  pub protocol : ℤ
  pub username : String
  pub password : String
  pub max_redirects : ℤ
  pub read_only : Bool
  pub route_by_latency : Bool
  pub route_randomly : Bool
  pub max_retries : ℤ
  pub min_retry_backoff : ℤ
  pub max_retry_backoff : ℤ
  pub dial_timeout : ℤ
  pub dialer_retries : ℤ
  pub dialer_retry_timeout : ℤ
  pub read_timeout : ℤ
  pub write_timeout : ℤ
  pub context_timeout_enabled : Bool
  pub read_buffer_size : ℤ
  pub write_buffer_size : ℤ
  pub pool_fifo : Bool
  pub pool_size : ℤ
  pub max_concurrent_dials : ℤ
  pub pool_timeout : ℤ
  pub min_idle_conns : ℤ
  pub max_idle_conns : ℤ
  pub max_active_conns : ℤ
  pub conn_max_idle_time : ℤ
  pub conn_max_lifetime : ℤ
  pub conn_max_lifetime_jitter : ℤ
  pub disable_identity : Bool
  pub failing_timeout_seconds : ℤ
  pub disable_routing_policies : Bool
  pub cluster_state_reload_interval : ℤ

-- the fields of the literal in parseClusterConfig
unfoldable pub copy_cluster_settings : ClusterSettings → ClusterSettings
copy_cluster_settings cfg = record {
  protocol = cfg.protocol;
  username = cfg.username;
  password = cfg.password;
  max_redirects = cfg.max_redirects;
  read_only = cfg.read_only;
  route_by_latency = cfg.route_by_latency;
  route_randomly = cfg.route_randomly;
  max_retries = cfg.max_retries;
  min_retry_backoff = cfg.min_retry_backoff;
  max_retry_backoff = cfg.max_retry_backoff;
  dial_timeout = cfg.dial_timeout;
  dialer_retries = cfg.dialer_retries;
  dialer_retry_timeout = cfg.dialer_retry_timeout;
  read_timeout = cfg.read_timeout;
  write_timeout = cfg.write_timeout;
  context_timeout_enabled = cfg.context_timeout_enabled;
  read_buffer_size = cfg.read_buffer_size;
  write_buffer_size = cfg.write_buffer_size;
  pool_fifo = cfg.pool_fifo;
  pool_size = cfg.pool_size;
  max_concurrent_dials = cfg.max_concurrent_dials;
  pool_timeout = cfg.pool_timeout;
  min_idle_conns = cfg.min_idle_conns;
  max_idle_conns = cfg.max_idle_conns;
  max_active_conns = cfg.max_active_conns;
  conn_max_idle_time = cfg.conn_max_idle_time;
  conn_max_lifetime = cfg.conn_max_lifetime;
  conn_max_lifetime_jitter = cfg.conn_max_lifetime_jitter;
  disable_identity = cfg.disable_identity;
  failing_timeout_seconds = cfg.failing_timeout_seconds;
  disable_routing_policies = cfg.disable_routing_policies;
  cluster_state_reload_interval = cfg.cluster_state_reload_interval;
}
