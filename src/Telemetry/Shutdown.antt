-- ===== src/Telemetry/Shutdown.antt =====
-- telemetry/telemetry.go: Shutdown, joinShutdown and newCleanup.
use goga.Prelude.{
  ◌≡◌, refl, inl, inr, ℕ, Bool, false, ◌||◌, Option, none, some, List, [], ◌∷◌, ◌++◌, map, arith,
  Option-cases,
}
use goga.Errors.{wrap, is, join_with}
use goga.Context.{Context, with_timeout, background}
use goga.Telemetry.Settings.{Failure, Error}
use goga.Telemetry.Providers.{
  Provider, Telemetry, Act, Answers, flushed, stopped, opened, ended, handled,
}

-- `joinShutdown`
unfoldable pub join_shutdown : List Error → Option Error
unfolding join_with
join_shutdown [] = none
join_shutdown (e ∷ es) = some (wrap "goga/telemetry: shutdown" (join_with e (map some es)))

-- `if e := step(ctx); e != nil { errs = append(errs, e) }`
unfoldable pub reported : Option Error → List Error
reported none = []
reported (some e) = e ∷ []

module _ (Any Resource Propagator : Type 0) (answers : Answers Any Resource Propagator) where
  -- The closure `collect` on the two steps of a provider that is not nil
  unfoldable pub collect :
      Context
      → Option (Provider Any Resource Propagator)
      → List (Act Any Resource Propagator) × List Error
  unfolding reported
  collect ctx none = ([], [])
  collect ctx (some p) = (
    flushed p ctx ∷ stopped p ctx ∷ [],
    reported (answers.force_flush p ctx) ++ reported (answers.shut_down p ctx),
  )

  -- `Telemetry.Shutdown`
  unfoldable pub shutdown :
      Context
      → Telemetry Any Resource Propagator
      → List (Act Any Resource Propagator) × Option Error
  unfolding collect join_shutdown
  shutdown ctx t =
      let (of_logs, log_errs) = collect ctx t.logger_provider in
      let (of_metrics, metric_errs) = collect ctx t.meter_provider in
      let errs = log_errs ++ metric_errs in
      let (of_traces, trace_errs) = collect ctx t.tracer_provider in
      (
        opened ctx ∷ of_logs ++ of_metrics ++ ended (join_shutdown errs) ∷ of_traces,
        join_shutdown (errs ++ trace_errs),
      )

  -- `newCleanup`
  unfoldable pub new_cleanup :
      Telemetry Any Resource Propagator → ℕ → List (Act Any Resource Propagator)
  unfolding shutdown with_timeout
  new_cleanup t timeout =
      let (acts, failure) = shutdown (with_timeout timeout background) t in
      elim failure [ none ↦ acts | some e ↦ acts ++ handled e ∷ [] ]

  -- An error that `errors.Is` finds in what a step or Shutdown returns
  abbrev pub found : (Failure → Bool) → Option Error → Bool
  found test none = false
  found test (some e) = is test e

  -- What one of the two steps of a provider answers, where the provider is not nil
  abbrev pub step_found :
      (Failure → Bool) → Context → Option (Provider Any Resource Propagator) → Bool
  step_found test ctx none = false
  step_found test ctx (some p) =
      found test (answers.force_flush p ctx) || found test (answers.shut_down p ctx)

  any_is : (Failure → Bool) → List Error → Bool
  any_is test [] = false
  any_is test (e ∷ es) = is test e || any_is test es

  shown : Unit {0}
  unfolding any_is is join_with join_shutdown collect reported
  shown = tt

  is-join_with :
      (test : Failure → Bool) (e : Error) (es : List Error)
      → is test (join_with e (map some es)) ≡ (is test e || any_is test es)
  unfolding shown
  is-join_with test e [] = ground arith
  is-join_with test e (f ∷ es) = ground (arith, is-join_with test f es)

  found-join_shutdown :
      (test : Failure → Bool) (es : List Error) → found test (join_shutdown es) ≡ any_is test es
  unfolding shown
  found-join_shutdown test [] = refl
  found-join_shutdown test (e ∷ es) = is-join_with test e es

  any_is-append :
      (test : Failure → Bool) (es fs : List Error)
      → any_is test (es ++ fs) ≡ (any_is test es || any_is test fs)
  unfolding shown
  any_is-append test [] fs = refl
  any_is-append test (e ∷ es) fs = ground (arith, any_is-append test es fs)

  any_is-collect :
      (test : Failure → Bool) (ctx : Context) (p : Option (Provider Any Resource Propagator))
      → any_is test (collect ctx p).1 ≡ step_found test ctx p
  unfolding shown
  any_is-collect test ctx none = refl
  any_is-collect test ctx (some p) = elim (Option-cases (answers.force_flush p ctx)) [
    | inl a ↦ elim (Option-cases (answers.shut_down p ctx)) [
      | inl b ↦ ground arith
      | inr (f, b) ↦ ground arith
    ]
    | inr (e, a) ↦ elim (Option-cases (answers.shut_down p ctx)) [
      | inl b ↦ ground arith
      | inr (f, b) ↦ ground arith
    ]
  ]

  -- The steps of the present providers, in order
  abbrev pub steps :
      Context → Option (Provider Any Resource Propagator) → List (Act Any Resource Propagator)
  steps ctx none = []
  steps ctx (some p) = flushed p ctx ∷ stopped p ctx ∷ []

  collect-steps :
      (ctx : Context) (p : Option (Provider Any Resource Propagator))
      → (collect ctx p).0 ≡ steps ctx p
  unfolding shown
  collect-steps ctx none = refl
  collect-steps ctx (some p) = refl

  found_two :
      (test : Failure → Bool) (ctx : Context) (p q : Option (Provider Any Resource Propagator))
      → found test (join_shutdown ((collect ctx p).1 ++ (collect ctx q).1))
        ≡ (step_found test ctx p || step_found test ctx q)
  found_two test ctx p q = ground (
    arith,
    found-join_shutdown test ((collect ctx p).1 ++ (collect ctx q).1),
    any_is-append test (collect ctx p).1 (collect ctx q).1,
    any_is-collect test ctx p,
    any_is-collect test ctx q,
  )

  -- Shutdown flushes and then stops each provider that is present, logs before metrics before traces,
  -- whatever the earlier steps answer; its span ends before the tracer provider is flushed, with an
  -- error that has exactly the errors of the log and metric steps, and Shutdown returns one that has
  -- exactly the errors of all the steps: errors.Is finds in it what it finds in one of them.
  pub shutdown_complete :
      (ctx : Context) (t : Telemetry Any Resource Propagator)
      → (so_far : Option Error) × ((shutdown ctx t).0
          ≡ opened ctx ∷ steps ctx t.logger_provider
            ++ steps ctx t.meter_provider
            ++ ended so_far ∷ steps ctx t.tracer_provider)
        × ((test : Failure → Bool)
            → found test so_far
              ≡ (step_found test ctx t.logger_provider || step_found test ctx t.meter_provider))
        × ((test : Failure → Bool)
            → found test (shutdown ctx t).1 ≡ (
                step_found test ctx t.logger_provider
                || step_found test ctx t.meter_provider
                || step_found test ctx t.tracer_provider))
  unfolding shutdown
  shutdown_complete ctx t =
      let errors = (collect ctx t.logger_provider).1 ++ (collect ctx t.meter_provider).1 in
      let logs_done = collect-steps ctx t.logger_provider in
      let metrics_done = collect-steps ctx t.meter_provider in
      let traces_done = collect-steps ctx t.tracer_provider in
      (
        join_shutdown errors,
        rw (logs_done, metrics_done, traces_done) refl,
        λ test. found_two test ctx t.logger_provider t.meter_provider,
        λ test. ground (
          arith,
          found-join_shutdown test (errors ++ (collect ctx t.tracer_provider).1),
          any_is-append test errors (collect ctx t.tracer_provider).1,
          found-join_shutdown test errors,
          found_two test ctx t.logger_provider t.meter_provider,
          any_is-collect test ctx t.tracer_provider,
        ),
      )
