-- ===== src/Connect/Outcome.antt =====
-- What a constructor of client.go leaves, whether it succeeds or fails.
use xredis.Prelude.{
  ℕ, ◌==◌, ◌≡◌, refl, ◌⊎◌, inl, inr, String, true, false, Option, List, arith, Bool-cases,
  if◌then◌else◌,
}
use xredis.Errors.{Error}
use xredis.Exec.{Result, ok, err}
use xredis.Exec.Invert.{Result-cases}
use xredis.Pipeline.{is_none}
use xredis.Options.{Runtime}
use xredis.Config.{AnyConfig, ClientOptions, ClusterOptions, FailoverOptions}
use xredis.Observability.{Telemetry, Process, new_client_metrics}
use xredis.Connect.{
  Target, Dialing, OpenClient, connected, options, new_standalone_client, new_cluster_client,
  new_failover_client, new_failover_cluster_client, new_ring,
}

module _ {H : Type 0} (t : Telemetry) (x : Dialing H) where
  -- A new client of the new connection, with the metrics that are shared now; or an error, and no
  -- connection is left that was not there.
  abbrev pub AllOrNothing :
      Runtime H
      → Process t x.Connections
      → ℕ
      → Result (OpenClient H t.Instrument t.Attributes) × Process t x.Connections
      → Type 0
  AllOrNothing opts s d q =
      ((c : OpenClient H t.Instrument t.Attributes) × (q.0 ≡ ok c)
        × (x.is_open s.connections c.conn ≡ false)
        × (x.is_open q.1.connections d ≡ (if d == c.conn then true else x.is_open s.connections d))
        × (c.metrics ≡ new_client_metrics t opts.metric_labels s)
        × (c.codec ≡ opts.codec))
      ⊎ ((e : Error) × (q.0 ≡ err e) × (x.is_open q.1.connections d ≡ x.is_open s.connections d))

  connected-AllOrNothing :
      (opts : Runtime H) (r : Result (Target H)) (s : Process t x.Connections) (d : ℕ)
      → AllOrNothing opts s d (connected t x opts r s)
  unfolding connected new_client_metrics
  connected-AllOrNothing opts (err e) s d = inr (e, refl, refl)
  connected-AllOrNothing opts (ok target) s d =
      let before : x.Connections = s.connections in
      let after : x.Connections = (x.connect target before).1 in
      let conn : ℕ = (x.connect target before).0 in
      let new = x.connect_new target before in
      let opened = x.is_open-connect target before in
      elim (Bool-cases (is_none opts.trace_options)) [
        | inl untraced ↦ inl (rw untraced (_, refl, new, ground (arith, opened d), refl, refl))
        | inr trace ↦ elim (Result-cases (x.instrument_tracing conn opts.trace_options after).0) [
          | inl (u, p) ↦ inl (
              rw (trace, p)
                (
                  _,
                  refl,
                  new,
                  ground (
                    arith,
                    opened d,
                    x.is_open-instrument_tracing conn opts.trace_options after d,
                  ),
                  refl,
                  refl,
                ))
          | inr (e, p) ↦ inr (
              rw (trace, p)
                (
                  e,
                  refl,
                  ground (
                    arith,
                    opened d,
                    new,
                    x.is_open-close conn (x.instrument_tracing conn opts.trace_options after).1 d,
                    x.is_open-instrument_tracing conn opts.trace_options after d,
                  ),
                ))
        ]
      ]

-- A constructor that fails leaves no connection behind, and one that succeeds opens exactly one.
-- Take any options and any URL parsers. Each of NewClient, NewClusterClient, NewFailoverClient,
-- NewFailoverClusterClient and NewRing either returns a client on a connection that was not open
-- before, is open now, and is the only one that changed, with the codec of its options and with
-- metrics if and only if metrics are shared at that time; or it returns an error, and every
-- connection `d` is as open or closed as it was, also if tracing failed after the connection was
-- made.
pub constructors_open_one_or_none :
    {H : Type 0} (t : Telemetry) (x : Dialing H) (trim : String → String) (json : H) (uuid : String)
    (cfgs : List (Option (AnyConfig → AnyConfig))) (opts : List (Option (Runtime H → Runtime H)))
    (parse_url : String → Result (ClientOptions H))
    (parse_cluster_url : String → Result (ClusterOptions H))
    (parse_failover_url : String → Result (FailoverOptions H)) (s : Process t x.Connections) (d : ℕ)
    → AllOrNothing t x
        (options t x trim json uuid cfgs opts)
        s
        d
        (new_standalone_client t x trim json uuid cfgs opts parse_url s)
      × AllOrNothing t x
          (options t x trim json uuid cfgs opts)
          s
          d
          (new_cluster_client t x trim json uuid cfgs opts parse_cluster_url s)
      × AllOrNothing t x
          (options t x trim json uuid cfgs opts)
          s
          d
          (new_failover_client t x trim json uuid cfgs opts parse_failover_url s)
      × AllOrNothing t x
          (options t x trim json uuid cfgs opts)
          s
          d
          (new_failover_cluster_client t x trim json uuid cfgs opts parse_failover_url s)
      × AllOrNothing t x
          (options t x trim json uuid cfgs opts)
          s
          d
          (new_ring t x trim json uuid cfgs opts s)
unfolding new_standalone_client new_cluster_client new_failover_client new_failover_cluster_client
    new_ring
constructors_open_one_or_none t x trim json uuid cfgs opts parse_url parse_cluster_url
      parse_failover_url s d =
    (
      connected-AllOrNothing t x (options t x trim json uuid cfgs opts) _ s d,
      connected-AllOrNothing t x (options t x trim json uuid cfgs opts) _ s d,
      connected-AllOrNothing t x (options t x trim json uuid cfgs opts) _ s d,
      connected-AllOrNothing t x (options t x trim json uuid cfgs opts) _ s d,
      connected-AllOrNothing t x (options t x trim json uuid cfgs opts) _ s d,
    )
