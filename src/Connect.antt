-- ===== src/Connect.antt =====
-- client.go: the five constructors and the methods of Client that only pass on. go-redis is not code
-- of the repository: what it keeps of its clients, which stand as pointers, is the record `Dialing`.
-- The configuration options and the runtime options of a constructor are two lists here, since no
-- option writes to both.
pub mod Outcome
use xredis.Prelude.{
  ℕ, ◌==◌, String, Bool, true, false, not, ◌&&◌, ◌||◌, Option, some, none, List, ◌≡◌, if◌then◌else◌,
}
use xredis.Exec.{Exec, Result, ok, err, pure}
use xredis.Pipeline.{is_none}
use xredis.Options.{Runtime, TracingOption, apply_each, new_options}
use xredis.Config.{
  ClientOptions, ClusterOptions, FailoverOptions, RingOptions, AnyConfig, no_config, client_options,
  cluster_options, failover_options, ring_options, then_apply,
}
use xredis.Observability.{Telemetry, Process, Metrics, new_client_metrics}

-- The constructors of go-redis, with their options.
pub data Target (H : Type 0) : Type 0 where
  standalone_client : ClientOptions H → Target H
  cluster_client : ClusterOptions H → Target H
  failover_client : FailoverOptions H → Target H
  failover_cluster_client : FailoverOptions H → Target H
  ring_client : RingOptions H → Target H

pub record Dialing (H : Type 0) : Type 1 where
  pub Connections : Type 0
  pub is_open : Connections → ℕ → Bool
  -- rdb.NewClient and its kin, Close, Ping, and redisotel.InstrumentTracing
  pub connect : Target H → Connections → ℕ × Connections
  pub close : ℕ → Exec Connections (Unit {0})
  pub ping : ℕ → Exec Connections (Unit {0})
  pub instrument_tracing : ℕ → List (TracingOption H) → Exec Connections (Unit {0})
  -- A new client is one that was not open, and only Close closes one.
  pub connect_new : (o : Target H) (s : Connections) → is_open s (connect o s).0 ≡ false
  pub is_open-connect :
      (o : Target H) (s : Connections) (d : ℕ)
      → is_open (connect o s).1 d ≡ (d == (connect o s).0) || is_open s d
  pub is_open-close :
      (c : ℕ) (s : Connections) (d : ℕ) → is_open (close c s).1 d ≡ not (d == c) && is_open s d
  pub is_open-instrument_tracing :
      (c : ℕ) (ts : List (TracingOption H)) (s : Connections) (d : ℕ)
      → is_open (instrument_tracing c ts s).1 d ≡ is_open s d

-- A Client, with all that it holds.
pub record OpenClient (H Instrument Attributes : Type 0) : Type 0 where
  pub conn : ℕ
  pub codec : Option H
  pub metrics : Option (Metrics Instrument Attributes)

module _ {H : Type 0} (t : Telemetry) (x : Dialing H) where
  abbrev Built : Type 0
  Built = OpenClient H t.Instrument t.Attributes

  abbrev State : Type 0
  State = Process t x.Connections

  -- An action on the connections.
  abbrev pub on_connections : {A : Type 0} → Exec x.Connections A → Exec State A
  on_connections command s =
      ((command s.connections).0, record s { connections = (command s.connections).1 })

  unfoldable pub apply_tracing : ℕ → List (TracingOption H) → Exec State (Unit {0})
  apply_tracing conn trace_options =
      if is_none trace_options
      then pure tt
      else on_connections (x.instrument_tracing conn trace_options)

  -- The rest of newClient, after applyTracing; the result of Close is dropped.
  abbrev traced : ℕ → Runtime H → Result (Unit {0}) × State → Result Built × State
  traced conn opts (err e, s) = (err e, (on_connections (x.close conn) s).1)
  traced conn opts (ok u, s) = (
    ok (record {
      conn = conn;
      codec = opts.codec;
      metrics = new_client_metrics t opts.metric_labels s;
    }),
    s,
  )

  unfoldable pub new_client : ℕ → Runtime H → Exec State Built
  unfolding apply_tracing
  new_client conn opts s = traced conn opts (apply_tracing conn opts.trace_options s)

  -- `if err != nil { return nil, err }`, and newClient on the client that go-redis makes
  unfoldable pub connected : Runtime H → Result (Target H) → Exec State Built
  unfolding new_client
  connected opts (err e) s = (err e, s)
  connected opts (ok target) s =
      new_client (x.connect target s.connections).0 opts
        (record s { connections = (x.connect target s.connections).1 })

  -- (*Client).Raw, Ping and Close
  unfoldable pub raw : Built → ℕ
  raw c = c.conn

  unfoldable pub ping : Built → Exec State (Unit {0})
  ping c = on_connections (x.ping c.conn)

  unfoldable pub close : Built → Exec State (Unit {0})
  close c = on_connections (x.close c.conn)

  -- `json` is JSONCodec{}, `uuid` the identifier that newOptions draws, `cfgs` the configuration
  -- options and `opts` the others.
  module _ (trim : String → String) (json : H) (uuid : String)
      (cfgs : List (Option (AnyConfig → AnyConfig)))
      (opts : List (Option (Runtime H → Runtime H))) where
    abbrev cfg : AnyConfig
    cfg = apply_each cfgs no_config

    abbrev pub options : Runtime H
    options = new_options json uuid opts

    -- NewClient
    unfoldable pub new_standalone_client : (String → Result (ClientOptions H)) → Exec State Built
    unfolding connected
    new_standalone_client parse_url =
        connected options
          (then_apply (λ o. standalone_client o) (client_options trim options parse_url cfg))

    unfoldable pub new_cluster_client : (String → Result (ClusterOptions H)) → Exec State Built
    unfolding connected
    new_cluster_client parse_url =
        connected options
          (then_apply (λ o. cluster_client o) (cluster_options trim options parse_url cfg))

    unfoldable pub new_failover_client : (String → Result (FailoverOptions H)) → Exec State Built
    unfolding connected
    new_failover_client parse_url =
        connected options
          (then_apply (λ o. failover_client o) (failover_options trim options parse_url cfg))

    unfoldable pub new_failover_cluster_client :
        (String → Result (FailoverOptions H)) → Exec State Built
    unfolding connected
    new_failover_cluster_client parse_url =
        connected options (
          then_apply (λ o. failover_cluster_client o) (failover_options trim options parse_url cfg))

    unfoldable pub new_ring : Exec State Built
    unfolding connected
    new_ring = connected options (then_apply (λ o. ring_client o) (ring_options trim options cfg))
