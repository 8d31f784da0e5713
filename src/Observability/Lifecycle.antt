-- ===== src/Observability/Lifecycle.antt =====
-- The metrics that a process shares, over any calls of InitObservability and of the functions that
-- it returned.
use xredis.Prelude.{
  ℕ, suc, ◌<◌, ◌≤◌, ◌≡◌, refl, ap, ◌⊎◌, inl, inr, String, Option, none, some, List, arith,
  Bool-cases,
}
use xredis.Errors.{Error}
use xredis.Exec.{Result, ok, err}
use xredis.Exec.Invert.{Result-cases}
use xredis.Options.{apply_each}
use xredis.Observability.{
  Telemetry, Process, Metrics, ObservabilityConfig, Shutdown, provider_of, noop, stops,
  default_observability_config, new_metrics, native_settings, init_observability, run_shutdown,
  new_client_metrics,
}

abbrev pub Opts : Telemetry → Type 0
Opts t = List (Option (ObservabilityConfig t → ObservabilityConfig t))

module _ (t : Telemetry) (Connections : Type 0) where
  open t use {Instrument, Attributes, Native}

  abbrev State : Type 0
  State = Process t Connections

  -- What a call of InitObservability does: nothing, when metrics are disabled; or it fails and
  -- leaves the shared metrics as they were; or it shares new ones, at a pointer of their own.
  abbrev Started : State → Result Shutdown × State → Type 0
  Started s q =
      (m : Metrics Instrument Attributes) × (q.0 ≡ ok (stops s.allocated))
      × (m.pointer ≡ s.allocated)
      × (q.1.global_metrics ≡ some m)
      × (q.1.allocated ≡ suc s.allocated)

  abbrev Failed : State → Result Shutdown × State → Type 0
  Failed s q =
      (e : Error) × (q.0 ≡ err e)
      × (q.1.global_metrics ≡ s.global_metrics)
      × (s.allocated ≤ q.1.allocated)

  new_metrics-pointer :
      (p : t.Provider) (n : ℕ) (m : Metrics Instrument Attributes)
      → new_metrics t p n ≡ ok m
      → m.pointer ≡ n
  unfolding new_metrics
  new_metrics-pointer p n m h = ground arith

  init_observability-cases :
      (opts : Opts t) (s : State)
      → (init_observability t opts s ≡ (ok noop, s))
        ⊎ Failed s (init_observability t opts s)
        ⊎ Started s (init_observability t opts s)
  unfolding init_observability
  init_observability-cases opts s =
      let cfg : ObservabilityConfig t = apply_each opts (default_observability_config t) in
      elim (Bool-cases cfg.enabled) [
        | inr off ↦ inl (rw off refl)
        | inl on ↦ elim (Result-cases (new_metrics t (provider_of t cfg) s.allocated)) [
          | inr (e, p) ↦ inr (inl (rw (on, p) (e, refl, refl, omega arith)))
          | inl (m, p) ↦
              elim (Result-cases (t.init (native_settings t (provider_of t cfg) cfg) s.native).0) [
                | inr (e, q) ↦ inr (inl (rw (on, p, q) (e, refl, refl, omega arith)))
                | inl (u, q) ↦ inr (
                    inr (
                      rw (on, p, q)
                        (
                          m,
                          ap (λ (n : ℕ). ok (stops n))
                              (new_metrics-pointer (provider_of t cfg) s.allocated m p),
                          new_metrics-pointer (provider_of t cfg) s.allocated m p,
                          refl,
                          refl,
                        )))
              ]
        ]
      ]

  -- What the process does meanwhile: more calls of InitObservability, shutdowns, and connections.
  pub data Step : State → State → Type 0 where
    initialises : (opts : Opts t) (s : State) → Step s (init_observability t opts s).1
    shuts_down : (sd : Shutdown) (s : State) → Step s (run_shutdown t sd s).1
    connects : (c : Connections) (s : State) → Step s (record s { connections = c })

  pub data Steps : State → State → Type 0 where
    done : {s : State} → Steps s s
    step : {s u v : State} → Step s u → Steps u v → Steps s v

  allocated_init :
      (opts : Opts t) (s : State) → s.allocated ≤ (init_observability t opts s).1.allocated
  allocated_init opts s = elim (init_observability-cases opts s) [
    | inl off ↦ rw off (omega arith)
    | inr (inl (e, p, same, up)) ↦ up
    | inr (inr (m, p, at, shared, new)) ↦ omega (arith, new)
  ]

  allocated_shutdown : (sd : Shutdown) (s : State) → (run_shutdown t sd s).1.allocated ≡ s.allocated
  unfolding run_shutdown
  allocated_shutdown noop s = refl
  allocated_shutdown (stops p) s = refl

  -- Pointers are given out once.
  allocated-Step : {s u : State} → Step s u → s.allocated ≤ u.allocated
  allocated-Step (initialises opts s) = allocated_init opts s
  allocated-Step (shuts_down sd s) = omega (arith, allocated_shutdown sd s)
  allocated-Step (connects c s) = omega arith

  allocated-Steps : {s u : State} → Steps s u → s.allocated ≤ u.allocated
  allocated-Steps done = omega arith
  allocated-Steps (step p rest) = omega (arith, allocated-Step p, allocated-Steps rest)

  -- The function that a call returned stops nothing above its own pointer.
  abbrev Older : Shutdown → ℕ → Type 0
  Older noop n = Unit
  Older (stops p) n = p < n

  Older-init :
      (opts : Opts t) (s : State) (sd : Shutdown)
      → (init_observability t opts s).0 ≡ ok sd
      → Older sd (init_observability t opts s).1.allocated
  Older-init opts s noop h = tt
  Older-init opts s (stops p) h = elim (init_observability-cases opts s) [
    | inl off ↦ absurd (ground arith)
    | inr (inl (e, q, same, up)) ↦ absurd (ground arith)
    | inr (inr (m, q, at, shared, new)) ↦ ground arith
  ]

  Older-mono : (sd : Shutdown) (a b : ℕ) → a ≤ b → Older sd a → Older sd b
  Older-mono noop a b h o = tt
  Older-mono (stops p) a b h o = omega arith

  keeps_newer :
      (sd : Shutdown) (s : State) (m : Metrics Instrument Attributes)
      → s.global_metrics ≡ some m
      → Older sd m.pointer
      → (run_shutdown t sd s).1.global_metrics ≡ some m
  unfolding run_shutdown
  keeps_newer noop s m h o = h
  keeps_newer (stops p) s m h o = ground (arith, h, o)

  stops_own :
      (p : ℕ) (s : State) (m : Metrics Instrument Attributes)
      → s.global_metrics ≡ some m
      → m.pointer ≡ p
      → (run_shutdown t (stops p) s).1.global_metrics ≡ none
  unfolding run_shutdown
  stops_own p s m h e = ground (arith, h, e)

  started :
      (opts : Opts t) (s : State) (p : ℕ)
      → (init_observability t opts s).0 ≡ ok (stops p)
      → (m : Metrics Instrument Attributes) × (m.pointer ≡ p)
        × (p ≡ s.allocated)
        × ((init_observability t opts s).1.global_metrics ≡ some m)
  started opts s p h = elim (init_observability-cases opts s) [
    | inl off ↦ absurd (ground arith)
    | inr (inl (e, q, same, up)) ↦ absurd (ground arith)
    | inr (inr (m, q, at, shared, new)) ↦ (m, ground arith, ground arith, shared)
  ]

  client_metrics :
      (labels : List (String × String)) (s : State) (m : Metrics Instrument Attributes)
      → s.global_metrics ≡ some m
      → new_client_metrics t labels s
        ≡ some (record m { attributes = some (t.attribute_set labels) })
  unfolding new_client_metrics
  client_metrics labels s m h = rw h refl

  client_without :
      (labels : List (String × String)) (s : State)
      → s.global_metrics ≡ none
      → new_client_metrics t labels s ≡ none
  unfolding new_client_metrics
  client_without labels s h = rw h refl

-- Shutting down an earlier initialisation never takes the metrics of a later one. Let a call of
-- InitObservability return a shutdown function, and after any further calls, shutdowns and
-- connections let a second call share metrics of its own. Then every client made next has metrics,
-- with the attributes of its own labels; it has the same ones if the first shutdown function runs
-- before; and a client made after the second shutdown function has none.
pub shutdown_keeps_later :
    (t : Telemetry) (Connections : Type 0) (first second : Opts t) (s u : Process t Connections)
    (sd : Shutdown) (p : ℕ) (labels : List (String × String))
    → (init_observability t first s).0 ≡ ok sd
    → Steps t Connections (init_observability t first s).1 u
    → (init_observability t second u).0 ≡ ok (stops p)
    → (m : Metrics t.Instrument t.Attributes) × (m.attributes ≡ some (t.attribute_set labels))
      × (new_client_metrics t labels (init_observability t second u).1 ≡ some m)
      × (new_client_metrics t labels (run_shutdown t sd (init_observability t second u).1).1
          ≡ some m)
      × (new_client_metrics t labels (run_shutdown t (stops p) (init_observability t second u).1).1
          ≡ none)
shutdown_keeps_later t Connections first second s u sd p labels h between k =
    let (m, at, new, shared) = started t Connections second u p k in
    let v : Process t Connections = (init_observability t second u).1 in
    let old : Older t Connections sd m.pointer =
      Older-mono t Connections sd (init_observability t first s).1.allocated m.pointer
        (omega (arith, at, new, allocated-Steps t Connections between))
        (Older-init t Connections first s sd h) in
    (
      record m { attributes = some (t.attribute_set labels) },
      refl,
      client_metrics t Connections labels v m shared,
      client_metrics t Connections labels (run_shutdown t sd v).1 m
          (keeps_newer t Connections sd v m shared old),
      client_without t Connections labels (run_shutdown t (stops p) v).1
          (stops_own t Connections p v m shared at),
    )
