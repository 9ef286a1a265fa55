-- ===== src/Telemetry/Setup.antt =====
-- telemetry/telemetry.go: Setup and the functions that build its providers. What a step does is a
-- list of acts beside its result; a step that is not reached counts for neither.
pub mod Trace
pub mod Steps
pub mod Atomic
pub mod Idle
pub mod Stopped
pub mod Leftover
use goga.Prelude.{String, ℕ, not, Option, none, some, List, [], ◌∷◌, ◌++◌, map, ◌==◌, if◌then◌else◌}
use goga.Errors
use goga.Errors.{ok, err, wrap, within, join_with}
use goga.Semconv.{KeyValue, service_name, service_version}
use goga.Context.{Context, with_timeout, without_cancel}
use goga.Options.{apply}
use goga.Telemetry.Settings
use goga.Telemetry.Settings.{
  Signal, traces, metrics, logs, Error, Result, Settings, TelemetryOption, defaults,
  default_shutdown_timeout,
}
use goga.Telemetry.Exporters.{Sdk, resolve_exporter, resolve_metric_reader, new_prometheus_reader}
use goga.Telemetry.Shutdown.{new_cleanup}
use goga.Telemetry.Providers.{
  Provider, Telemetry, Act, Answers, started, built, stopped, installed, installed_propagator,
  installed_logger,
}

module _ (Any Resource Propagator : Type 0) where
  abbrev pub Acts : Type 0
  Acts = List (Act Any Resource Propagator)

  -- What a step did, and its result
  abbrev pub Traced : Type 0 → Type 0
  Traced A = Acts × Result A

  abbrev pub Built : Type 0
  Built = Traced (Provider Any Resource Propagator)

  -- What Setup returns beside the error: the second is what a call of the cleanup does.
  abbrev pub Ready : Type 0
  Ready = Telemetry Any Resource Propagator × Acts

  module _ (sdk : Sdk Any) (answers : Answers Any Resource Propagator) where
    -- `shutdownQuietly`: the context that it derives, and its error
    unfoldable pub quiet : Context → Context
    unfolding with_timeout without_cancel
    quiet ctx = with_timeout (default_shutdown_timeout Any) (without_cancel ctx)

    unfoldable pub shutdown_quietly : Context → Provider Any Resource Propagator → Option Error
    unfolding quiet
    shutdown_quietly ctx p = elim (answers.shut_down p (quiet ctx)) [
      | none ↦ none
      | some e ↦ some (wrap "goga/telemetry: unwinding partial setup" e)
    ]

    -- `errors.Join(err, shutdownQuietly(ctx, p.Shutdown), …)` after what was done before
    unfoldable pub unwind :
        {A : Type 0} → Context → Acts → Error → List (Provider Any Resource Propagator) → Traced A
    unfolding shutdown_quietly join_with
    unwind ctx before e ps = (
      before ++ map (λ p. stopped p (quiet ctx)) ps,
      err (join_with e (map (shutdown_quietly ctx) ps)),
    )

    -- The attributes that newResource merges over the default resource
    unfoldable pub resource_attributes : Settings Any → List KeyValue
    resource_attributes s =
        (if s.service_name == "" then [] else service_name s.service_name ∷ [])
        ++ (if s.service_version == "" then [] else service_version s.service_version ∷ [])
        ++ s.resource_attrs

    -- `newResource`
    unfoldable pub new_resource : Settings Any → Result Resource
    unfolding resource_attributes
    new_resource s =
        within "goga/telemetry: build resource" (answers.merge_resource (resource_attributes s))

    abbrev pub provider : Signal → Resource → List Any → Provider Any Resource Propagator
    provider signal res pipelines = record {
      signal = signal;
      resource = res;
      pipelines = pipelines;
    }

    -- A provider over what is running, where a nil exporter adds nothing
    unfoldable pub over : Signal → Resource → Option Any → Built
    over signal res none = let p = provider signal res [] in (built p ∷ [], ok p)
    over signal res (some exp) =
        let p = provider signal res (exp ∷ []) in (started signal exp ∷ built p ∷ [], ok p)

    -- `newTracerProvider` and `newLoggerProvider`, which differ in the signal only
    unfoldable pub new_provider : Signal → String → Context → Settings Any → Resource → Built
    unfolding over resolve_exporter
    new_provider signal name ctx s res =
        elim (resolve_exporter Any sdk signal name ctx s.exporters) [
          | err e ↦ ([], err e)
          | ok exp ↦ over signal res exp
        ]

    abbrev pub new_tracer_provider : Context → Settings Any → Resource → Built
    new_tracer_provider ctx s res = new_provider traces s.trace_exporter ctx s res

    abbrev pub new_logger_provider : Context → Settings Any → Resource → Built
    new_logger_provider ctx s res = new_provider logs s.log_exporter ctx s res

    -- The meter provider with the Prometheus reader beside the push reader, or its error
    unfoldable pub with_prometheus_reader : Resource → Option Any → Result Any → Built
    with_prometheus_reader res none (err e) = ([], err e)
    with_prometheus_reader res none (ok prom) =
        let p = provider metrics res (prom ∷ []) in (started metrics prom ∷ built p ∷ [], ok p)
    with_prometheus_reader res (some reader) (err e) = (started metrics reader ∷ [], err e)
    with_prometheus_reader res (some reader) (ok prom) =
        let p = provider metrics res (reader ∷ prom ∷ []) in
        (started metrics reader ∷ started metrics prom ∷ built p ∷ [], ok p)

    -- `newMeterProvider`
    unfoldable pub new_meter_provider : Context → Settings Any → Resource → Built
    unfolding over with_prometheus_reader resolve_metric_reader new_prometheus_reader
    new_meter_provider ctx s res =
        elim (resolve_metric_reader Any sdk s.metric_exporter ctx s.exporters) [
          | err e ↦ ([], err e)
          | ok reader ↦
              if s.prometheus
              then with_prometheus_reader res reader (new_prometheus_reader Any sdk)
              else over metrics res reader
        ]

    -- `newPropagator`
    unfoldable pub new_propagator : Settings Any → Result Propagator
    new_propagator s = elim s.propagators [
      | [] ↦ ok answers.env_propagator
      | name ∷ names ↦
          within "goga/telemetry: propagators" (answers.named_propagator (name ∷ names))
    ]

    -- The end of Setup, after which nothing can fail
    unfoldable pub install :
        ℕ
        → Acts
        → Provider Any Resource Propagator
        → Provider Any Resource Propagator
        → Provider Any Resource Propagator
        → Propagator
        → Traced Ready
    unfolding new_cleanup
    install timeout before tp mp lp prop =
        let t : Telemetry Any Resource Propagator = record {
          tracer_provider = some tp;
          meter_provider = some mp;
          logger_provider = some lp;
        } in
        (
          before
              ++ installed tp
                ∷ installed mp
                ∷ installed lp
                ∷ installed_propagator prop
                ∷ installed_logger lp
                ∷ [],
          ok (t, new_cleanup Any Resource Propagator answers t timeout),
        )

    -- Setup from the first provider on: each step, given what it does when it is reached
    unfoldable pub assemble : Context → ℕ → Built → Built → Built → Result Propagator → Traced Ready
    unfolding unwind install
    assemble ctx timeout (done_t, err e) meter logger prop = (done_t, err e)
    assemble ctx timeout (done_t, ok tp) (done_m, err e) logger prop =
        unwind ctx (done_t ++ done_m) e (tp ∷ [])
    assemble ctx timeout (done_t, ok tp) (done_m, ok mp) (done_l, err e) prop =
        unwind ctx (done_t ++ done_m ++ done_l) e (mp ∷ tp ∷ [])
    assemble ctx timeout (done_t, ok tp) (done_m, ok mp) (done_l, ok lp) (err e) =
        unwind ctx (done_t ++ done_m ++ done_l) e (lp ∷ mp ∷ tp ∷ [])
    assemble ctx timeout (done_t, ok tp) (done_m, ok mp) (done_l, ok lp) (ok prop) =
        install timeout (done_t ++ done_m ++ done_l) tp mp lp prop

    -- `Setup`
    unfoldable pub setup : Context → List (TelemetryOption Any) → Traced Ready
    unfolding apply new_resource new_provider new_meter_provider new_propagator assemble
    setup ctx opts =
        let (s, failure) = apply (defaults Any) opts in
        elim failure [
          | some e ↦ ([], err (wrap "goga/telemetry: setup" e))
          | none ↦ elim (new_resource s) [
            | err e ↦ ([], err e)
            | ok res ↦
                assemble ctx s.shutdown_timeout (new_tracer_provider ctx s res)
                  (new_meter_provider ctx s res) (new_logger_provider ctx s res) (new_propagator s)
          ]
        ]
