-- ===== src/Config/Settings/Standalone.antt =====
-- config.go: the fields of ClientConfig, and of rdb.Options,
-- that are copied and never looked at.
use xredis.Prelude.{String, Bool, ℤ, false, pos}

pub record ClientSettings : Type 0 where
  pub network : String
  pub addr : String
  pub node_address : String
  pub protocol : ℤ
  pub username : String
  pub password : String
  pub db : ℤ
  pub max_retries : ℤ
  pub min_retry_backoff : ℤ
  pub max_retry_backoff : ℤ
  pub dial_timeout : ℤ
  pub dialer_retries : ℤ
  pub dialer_retry_timeout : ℤ
  pub read_timeout : ℤ
  pub write_timeout : ℤ
  pub context_timeout_enabled : Bool
  pub read_buffer_size : ℤ
  pub write_buffer_size : ℤ
  pub pool_fifo : Bool
  pub pool_size : ℤ
  pub max_concurrent_dials : ℤ
  pub pool_timeout : ℤ
  pub min_idle_conns : ℤ
  pub max_idle_conns : ℤ
  pub max_active_conns : ℤ
  pub conn_max_idle_time : ℤ
  pub conn_max_lifetime : ℤ
  pub conn_max_lifetime_jitter : ℤ
  pub disable_identity : Bool
  pub failing_timeout_seconds : ℤ

-- the fields of the literal in parseClientConfig
unfoldable pub copy_client_settings : ClientSettings → ClientSettings
copy_client_settings cfg = record {
  network = cfg.network;
  addr = cfg.addr;
  node_address = cfg.node_address;
  protocol = cfg.protocol;
  username = cfg.username;
  password = cfg.password;
  db = cfg.db;
  max_retries = cfg.max_retries;
  min_retry_backoff = cfg.min_retry_backoff;
  max_retry_backoff = cfg.max_retry_backoff;
  dial_timeout = cfg.dial_timeout;
  dialer_retries = cfg.dialer_retries;
  dialer_retry_timeout = cfg.dialer_retry_timeout;
  read_timeout = cfg.read_timeout;
  write_timeout = cfg.write_timeout;
  context_timeout_enabled = cfg.context_timeout_enabled;
  read_buffer_size = cfg.read_buffer_size;
  write_buffer_size = cfg.write_buffer_size;
  pool_fifo = cfg.pool_fifo;
  pool_size = cfg.pool_size;
  max_concurrent_dials = cfg.max_concurrent_dials;
  pool_timeout = cfg.pool_timeout;
  min_idle_conns = cfg.min_idle_conns;
  max_idle_conns = cfg.max_idle_conns;
  max_active_conns = cfg.max_active_conns;
  conn_max_idle_time = cfg.conn_max_idle_time;
  conn_max_lifetime = cfg.conn_max_lifetime;
  conn_max_lifetime_jitter = cfg.conn_max_lifetime_jitter;
  disable_identity = cfg.disable_identity;
  failing_timeout_seconds = cfg.failing_timeout_seconds;
}

-- of `&ClientConfig{}`
abbrev pub no_client_settings : ClientSettings
no_client_settings = record {
  network = "";
  addr = "";
  node_address = "";
  protocol = pos 0;
  username = "";
  password = "";
  db = pos 0;
  max_retries = pos 0;
  min_retry_backoff = pos 0;
  max_retry_backoff = pos 0;
  dial_timeout = pos 0;
  dialer_retries = pos 0;
  dialer_retry_timeout = pos 0;
  read_timeout = pos 0;
  write_timeout = pos 0;
  context_timeout_enabled = false;
  read_buffer_size = pos 0;
  write_buffer_size = pos 0;
  pool_fifo = false;
  pool_size = pos 0;
  max_concurrent_dials = pos 0;
  pool_timeout = pos 0;
  min_idle_conns = pos 0;
  max_idle_conns = pos 0;
  max_active_conns = pos 0;
  conn_max_idle_time = pos 0;
  conn_max_lifetime = pos 0;
  conn_max_lifetime_jitter = pos 0;
  disable_identity = false;
  failing_timeout_seconds = pos 0;
}
