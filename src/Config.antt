-- ===== src/Config.antt =====
-- config.go and options.go: how a configuration becomes options of go-redis. strings.TrimSpace and the
-- parsing of URLs are parameters. A Go map is a list of its entries in the order of an iteration.
pub mod Settings
pub mod Ring
use xredis.Prelude.{
  String, Bool, not, ◌&&◌, Option, none, some, List, [], ◌∷◌, is_empty, if◌then◌else◌,
}
use xredis.Errors.{Error, known, wrap, invalid_config}
use xredis.Exec.{Result, ok, err}
use xredis.Redis.{put_field}
use xredis.Pipeline.{is_none}
use xredis.Config.Settings.{
  ClientSettings, ClusterSettings, FailoverSettings, RingSettings, copy_client_settings,
  copy_cluster_settings, copy_failover_settings, copy_ring_settings, no_client_settings,
}
use xredis.Options.{Runtime}
use xredis.Options.Apply.{
  Connection, fresh, apply_client_options, apply_cluster_options, apply_failover_options,
  apply_ring_options,
}

pub record ClientConfig : Type 0 where
  pub url : String
  pub identity_suffix : String
  pub settings : ClientSettings

pub record ClusterConfig : Type 0 where
  pub url : String
  pub addrs : List String
  pub identity_suffix : String
  pub settings : ClusterSettings

pub record FailoverConfig : Type 0 where
  pub url : String
  pub master_name : String
  pub sentinel_addrs : List String
  pub identity_suffix : String
  pub settings : FailoverSettings

pub record RingConfig : Type 0 where
  pub addrs : List (String × String)
  pub identity_suffix : String
  pub settings : RingSettings

-- The options of go-redis, as far as the parse and apply functions write them.
pub record ClientOptions (H : Type 0) : Type 0 where
  pub settings : ClientSettings
  pub connection : Connection H

pub record ClusterOptions (H : Type 0) : Type 0 where
  pub addrs : List String
  pub settings : ClusterSettings
  pub connection : Connection H

pub record FailoverOptions (H : Type 0) : Type 0 where
  pub master_name : String
  pub sentinel_addrs : List String
  pub settings : FailoverSettings
  pub connection : Connection H

pub record RingOptions (H : Type 0) : Type 0 where
  pub addrs : List (String × String)
  pub settings : RingSettings
  pub connection : Connection H

-- `fmt.Errorf("%w: text", ErrInvalidConfig)`
abbrev pub invalid : {A : Type 0} → String → Result A
invalid text = err (wrap text (known invalid_config))

module _ (trim : String → String) where
  abbrev pub is_blank : String → Bool
  is_blank s = is_empty (trim s)

  unfoldable pub normalize_addrs : List String → List String
  normalize_addrs [] = []
  normalize_addrs (addr ∷ addrs) =
      let rest = normalize_addrs addrs in if is_blank addr then rest else trim addr ∷ rest

  -- the loop of normalizeRingAddrs
  abbrev pub put_addrs : List (String × String) → List (String × String) → List (String × String)
  put_addrs [] out = out
  put_addrs ((name, addr) ∷ addrs) out = put_addrs addrs (
      if not (is_blank name) && not (is_blank addr)
      then put_field (trim name) (trim addr) out
      else out)

  unfoldable pub normalize_ring_addrs : List (String × String) → List (String × String)
  normalize_ring_addrs addrs = put_addrs addrs []

  module _ {H : Type 0} where
    unfoldable pub parse_client_config :
        (String → Result (ClientOptions H)) → ClientConfig → Result (ClientOptions H)
    unfolding copy_client_settings
    parse_client_config parse_url cfg =
        if not (is_blank cfg.url)
        then parse_url cfg.url
        else ok (record {
          settings = copy_client_settings cfg.settings;
          connection = fresh cfg.identity_suffix;
        })

    unfoldable pub parse_cluster_config :
        (String → Result (ClusterOptions H)) → ClusterConfig → Result (ClusterOptions H)
    unfolding normalize_addrs copy_cluster_settings
    parse_cluster_config parse_url cfg =
        let addrs = normalize_addrs cfg.addrs in
        if not (is_blank cfg.url)
        then parse_url cfg.url
        else if is_none addrs
        then invalid "redis cluster addresses are required"
        else ok (record {
          addrs = addrs;
          settings = copy_cluster_settings cfg.settings;
          connection = fresh cfg.identity_suffix;
        })

    unfoldable pub parse_failover_config :
        (String → Result (FailoverOptions H)) → FailoverConfig → Result (FailoverOptions H)
    unfolding normalize_addrs copy_failover_settings
    parse_failover_config parse_url cfg =
        let addrs = normalize_addrs cfg.sentinel_addrs in
        if not (is_blank cfg.url)
        then parse_url cfg.url
        else if is_none addrs
        then invalid "redis sentinel addresses are required"
        else if is_blank cfg.master_name
        then invalid "redis sentinel master name is required"
        else ok (record {
          master_name = cfg.master_name;
          sentinel_addrs = addrs;
          settings = copy_failover_settings cfg.settings;
          connection = fresh cfg.identity_suffix;
        })

    unfoldable pub parse_ring_config : RingConfig → Result (RingOptions H)
    unfolding normalize_ring_addrs copy_ring_settings
    parse_ring_config cfg =
        let addrs = normalize_ring_addrs cfg.addrs in
        if is_none addrs
        then invalid "redis ring addresses are required"
        else ok (record {
          addrs = addrs;
          settings = copy_ring_settings cfg.settings;
          connection = fresh cfg.identity_suffix;
        })

-- The `cfg` field of options, an `any`; the options that set it skip nil.
pub data AnyConfig : Type 0 where
  no_config : AnyConfig
  client_config : ClientConfig → AnyConfig
  cluster_config : ClusterConfig → AnyConfig
  failover_config : FailoverConfig → AnyConfig
  ring_config : RingConfig → AnyConfig

unfoldable pub with_client_config : Option (ClientConfig) → AnyConfig → AnyConfig
with_client_config none cfg = cfg
with_client_config (some c) cfg = client_config c

unfoldable pub with_cluster_config : Option (ClusterConfig) → AnyConfig → AnyConfig
with_cluster_config none cfg = cfg
with_cluster_config (some c) cfg = cluster_config c

unfoldable pub with_failover_config : Option (FailoverConfig) → AnyConfig → AnyConfig
with_failover_config none cfg = cfg
with_failover_config (some c) cfg = failover_config c

unfoldable pub with_ring_config : Option (RingConfig) → AnyConfig → AnyConfig
with_ring_config none cfg = cfg
with_ring_config (some c) cfg = ring_config c

-- `if err != nil { return nil, err }`
abbrev pub then_apply : {A B : Type 0} → (A → B) → Result A → Result B
then_apply f (ok a) = ok (f a)
then_apply f (err e) = err e

module _ (trim : String → String) {H : Type 0} (opts : Runtime H) where
  -- The four methods of options.
  unfoldable pub client_options :
      (String → Result (ClientOptions H)) → AnyConfig → Result (ClientOptions H)
  unfolding parse_client_config apply_client_options
  client_options parse_url cfg =
      then_apply
        (λ (o : ClientOptions H). record o { connection = apply_client_options opts o.connection })
        (elim cfg [
          | no_config ↦
              parse_client_config trim parse_url
                (record { url = ""; identity_suffix = ""; settings = no_client_settings })
          | client_config c ↦ parse_client_config trim parse_url c
          | _ ↦ invalid "standalone config is required"
        ])

  unfoldable pub cluster_options :
      (String → Result (ClusterOptions H)) → AnyConfig → Result (ClusterOptions H)
  unfolding parse_cluster_config apply_cluster_options
  cluster_options parse_url cfg =
      then_apply
        (λ (o : ClusterOptions H). record o {
          connection = apply_cluster_options opts o.connection;
        })
        (elim cfg [
          | cluster_config c ↦ parse_cluster_config trim parse_url c
          | _ ↦ invalid "cluster config is required"
        ])

  unfoldable pub failover_options :
      (String → Result (FailoverOptions H)) → AnyConfig → Result (FailoverOptions H)
  unfolding parse_failover_config apply_failover_options
  failover_options parse_url cfg =
      then_apply
        (λ (o : FailoverOptions H). record o {
          connection = apply_failover_options opts o.connection;
        })
        (elim cfg [
          | failover_config c ↦ parse_failover_config trim parse_url c
          | _ ↦ invalid "failover config is required"
        ])

  unfoldable pub ring_options : AnyConfig → Result (RingOptions H)
  unfolding parse_ring_config apply_ring_options
  ring_options cfg =
      then_apply
        (λ (o : RingOptions H). record o { connection = apply_ring_options opts o.connection })
        (elim cfg [
          | ring_config c ↦ parse_ring_config trim c
          | _ ↦ invalid "ring config is required"
        ])
