-- ===== src/Examples/Config.antt =====
-- config.go on a ring with two entries, one of them without an address.
use xredis.Prelude.{pos, true, ◌≡◌, refl, String, some, none, [], ◌∷◌, str_eq, if◌then◌else◌}
use xredis.Exec.{ok}
use xredis.Redis.{get_field}
use xredis.Options.{Runtime, new_options, with_identity_suffix}
use xredis.Config.{RingConfig, RingOptions, ring_config, ring_options}
use xredis.Config.Ring.{ring_options_keeps}

-- strings.TrimSpace on these strings
abbrev trim : String → String
trim s = if str_eq s " a" then "a" else s

abbrev shards : RingConfig
shards = record {
  addrs = ("b", "") ∷ (" a", "x:1") ∷ [];
  identity_suffix = "s";
  settings = record {
    heartbeat_frequency = pos 7;
    protocol = pos 7;
    username = "default";
    password = "default";
    db = pos 7;
    max_retries = pos 7;
    min_retry_backoff = pos 7;
    max_retry_backoff = pos 7;
    dial_timeout = pos 7;
    dialer_retries = pos 7;
    dialer_retry_timeout = pos 7;
    read_timeout = pos 7;
    write_timeout = pos 7;
    context_timeout_enabled = true;
    read_buffer_size = pos 7;
    write_buffer_size = pos 7;
    pool_fifo = true;
    pool_size = pos 7;
    pool_timeout = pos 7;
    min_idle_conns = pos 7;
    max_idle_conns = pos 7;
    max_active_conns = pos 7;
    conn_max_idle_time = pos 7;
    conn_max_lifetime = pos 7;
    conn_max_lifetime_jitter = pos 7;
    disable_identity = true;
  };
}

abbrev runtime : Runtime String
runtime = new_options "json" "7f" (some (with_identity_suffix "t") ∷ none ∷ [])

ring_options_keeps_example :
    (o : RingOptions String) × (ring_options trim runtime (ring_config shards) ≡ ok o)
    × (get_field "a" o.addrs ≡ some "x:1")
    × (o.connection.identity_suffix ≡ "t")
unfolding new_options with_identity_suffix
ring_options_keeps_example =
    let (o, e, f, g, n, s) =
      ring_options_keeps trim runtime shards " a" "x:1" (("b", "") ∷ []) [] refl (refl, (refl, tt))
        refl refl in
    (o, e, f, s)
