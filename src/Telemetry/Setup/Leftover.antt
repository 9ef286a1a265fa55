-- ===== src/Telemetry/Setup/Leftover.antt =====
-- What a failed Setup leaves running.
use goga.Prelude.{◌≡◌, refl, subst, ◌⊎◌, inl, inr, ℕ, none, List, [], ◌∷◌, ◌++◌}
use goga.Errors.{ok, err, Result}
use goga.Context.{Context}
use goga.Options.{apply}
use goga.Telemetry.Settings.{traces, metrics, logs, Error, Settings, TelemetryOption, defaults}
use goga.Telemetry.Exporters.{Sdk}
use goga.Telemetry.Providers.{Answers}
use goga.Telemetry.Setup.{
  Acts, Built, new_meter_provider, assemble, setup, new_tracer_provider, new_logger_provider,
  new_propagator,
}
use goga.Telemetry.Setup.Trace.{picked, starts, append-Shows, BuildsOnly}
use goga.Telemetry.Setup.Idle.{new_provider-idle, Orphaned, new_meter_provider-idle}
use goga.Telemetry.Setup.Steps.{new_provider-BuildsOnly, new_meter_provider-BuildsOnly}
use goga.Telemetry.Setup.Atomic.{setup-cases}
use goga.Telemetry.Setup.Stopped.{
  All-Held, Held-none, Held-append, NoneLeft, OneLeft, unwind-NoneLeft, unwind-OneLeft,
}

module _ (Any Resource Propagator : Type 0) (sdk : Sdk Any)
    (answers : Answers Any Resource Propagator) where
  -- What an error of a step leaves, where the step itself left `idle` things running
  abbrev Idle : Built Any Resource Propagator → Type 0
  Idle (acts, err e) = starts Any Resource Propagator acts ≡ []
  Idle (acts, ok p) = Unit

  abbrev MeterIdle : Settings Any → Context → Built Any Resource Propagator → Type 0
  MeterIdle s ctx (acts, err e) =
      (starts Any Resource Propagator acts ≡ [])
      ⊎ ((reader : Any) × Orphaned Any Resource Propagator sdk answers s ctx reader
          × (starts Any Resource Propagator acts ≡ (metrics, reader) ∷ []))
  MeterIdle s ctx (acts, ok p) = Unit

  as_Idle :
      (b : Built Any Resource Propagator)
      → ((acts : Acts Any Resource Propagator) (e : Error)
          → b ≡ (acts, err e)
          → starts Any Resource Propagator acts ≡ [])
      → Idle b
  as_Idle (acts, err e) h = h acts e refl
  as_Idle (acts, ok p) h = tt

  as_MeterIdle :
      (s : Settings Any) (ctx : Context) (b : Built Any Resource Propagator)
      → ((acts : Acts Any Resource Propagator) (e : Error)
          → b ≡ (acts, err e)
          → MeterIdle s ctx (acts, err e))
      → MeterIdle s ctx b
  as_MeterIdle s ctx (acts, err e) h = h acts e refl
  as_MeterIdle s ctx (acts, ok p) h = tt

  abbrev pub Leaves : Settings Any → Context → Acts Any Resource Propagator → Type 0
  Leaves s ctx acts =
      NoneLeft Any Resource Propagator sdk answers acts
      ⊎ ((reader : Any) × Orphaned Any Resource Propagator sdk answers s ctx reader
          × OneLeft Any Resource Propagator sdk answers acts reader)

  assemble-Leaves :
      (s : Settings Any) (ctx : Context) (timeout : ℕ)
      (tracer meter logger : Built Any Resource Propagator) (prop : Result _ Propagator) (e : Error)
      → BuildsOnly Any Resource Propagator traces tracer
      → BuildsOnly Any Resource Propagator metrics meter
      → BuildsOnly Any Resource Propagator logs logger
      → Idle tracer
      → MeterIdle s ctx meter
      → Idle logger
      → (assemble Any Resource Propagator sdk answers ctx timeout tracer meter logger prop).1
        ≡ err e
      → Leaves s ctx
          (assemble Any Resource Propagator sdk answers ctx timeout tracer meter logger prop).0
  unfolding assemble
  assemble-Leaves s ctx timeout (at, err f) meter logger prop e ht hm hl it im il failed =
      inl (rw it tt)
  assemble-Leaves s ctx timeout (at, ok tp) (am, err f) logger prop e (st, nt, ot) sm hl it im il
        failed =
      let ps = tp ∷ [] in
      let both = append-Shows Any Resource Propagator at am st sm in
      let by_tp =
        All-Held Any Resource Propagator sdk answers ps tp (starts Any Resource Propagator at)
          (inl refl) ot in
      elim im [
        | inl idle ↦ inl (
            unwind-NoneLeft Any Resource Propagator sdk answers ctx (at ++ am) f ps ps both (
              Held-append Any Resource Propagator sdk answers ps at am by_tp (
                Held-none Any Resource Propagator sdk answers ps (starts Any Resource Propagator am)
                  idle)))
        | inr (reader, orphan, begun) ↦ inr (
          reader,
          orphan,
          unwind-OneLeft Any Resource Propagator sdk answers ctx at am f tp reader both nt by_tp
              begun,
        )
      ]
  assemble-Leaves s ctx timeout (at, ok tp) (am, ok mp) (al, err f) prop e (st, nt, ot) (sm, nm, om)
        sl it im il failed =
      let ps = mp ∷ tp ∷ [] in
      let both = append-Shows Any Resource Propagator at am st sm in
      inl (
        unwind-NoneLeft Any Resource Propagator sdk answers ctx (at ++ am ++ al) f ps (tp ∷ mp ∷ [])
          (append-Shows Any Resource Propagator (at ++ am) al both sl)
          (Held-append Any Resource Propagator sdk answers ps (at ++ am) al
            (Held-append Any Resource Propagator sdk answers ps at am
              (All-Held Any Resource Propagator sdk answers ps tp
                (starts Any Resource Propagator at) (inr (inl refl)) ot)
              (All-Held Any Resource Propagator sdk answers ps mp
                (starts Any Resource Propagator am) (inl refl) om))
            (Held-none Any Resource Propagator sdk answers ps (starts Any Resource Propagator al)
              il)))
  assemble-Leaves s ctx timeout (at, ok tp) (am, ok mp) (al, ok lp) (err f) e (st, nt, ot)
        (sm, nm, om) (sl, nl, ol) it im il failed =
      let ps = lp ∷ mp ∷ tp ∷ [] in
      let both = append-Shows Any Resource Propagator at am st sm in
      inl (
        unwind-NoneLeft Any Resource Propagator sdk answers ctx (at ++ am ++ al) f ps
          (tp ∷ mp ∷ lp ∷ []) (append-Shows Any Resource Propagator (at ++ am) al both sl)
          (Held-append Any Resource Propagator sdk answers ps (at ++ am) al
            (Held-append Any Resource Propagator sdk answers ps at am
              (All-Held Any Resource Propagator sdk answers ps tp
                (starts Any Resource Propagator at) (inr (inr (inl refl))) ot)
              (All-Held Any Resource Propagator sdk answers ps mp
                (starts Any Resource Propagator am) (inr (inl refl)) om))
            (All-Held Any Resource Propagator sdk answers ps lp (starts Any Resource Propagator al)
              (inl refl) ol)))
  assemble-Leaves s ctx timeout (at, ok tp) (am, ok mp) (al, ok lp) (ok p) e ht hm hl it im il
        failed =
      cc

  -- When Setup fails, every exporter and reader that it started stands in the pipelines of a provider
  -- of its signal that was stopped, but for one case: where the Prometheus reader is on and fails after
  -- a push reader was resolved, that push reader is started, and no meter provider is stopped.
  pub setup_leaves :
      (ctx : Context) (opts : List (TelemetryOption Any)) (e : Error)
      → (setup Any Resource Propagator sdk answers ctx opts).1 ≡ err e
      → NoneLeft Any Resource Propagator sdk answers
          (setup Any Resource Propagator sdk answers ctx opts).0
        ⊎ ((s : Settings Any) × (apply (defaults Any) opts ≡ (s, none))
            × ((reader : Any) × Orphaned Any Resource Propagator sdk answers s ctx reader
                × OneLeft Any Resource Propagator sdk answers
                    (setup Any Resource Propagator sdk answers ctx opts).0
                    reader))
  setup_leaves ctx opts e failed = elim (setup-cases Any Resource Propagator sdk answers ctx opts) [
    | inl (f, early) ↦ inl (rw early (unfold picked in tt))
    | inr (s, res, accepted, merged, rest) ↦
        elim (assemble-Leaves s ctx s.shutdown_timeout
          (new_tracer_provider Any Resource Propagator sdk answers ctx s res)
          (new_meter_provider Any Resource Propagator sdk answers ctx s res)
          (new_logger_provider Any Resource Propagator sdk answers ctx s res)
          (new_propagator Any Resource Propagator sdk answers s) e
          (new_provider-BuildsOnly Any Resource Propagator sdk answers traces s.trace_exporter ctx s
            res)
          (new_meter_provider-BuildsOnly Any Resource Propagator sdk answers ctx s res)
          (new_provider-BuildsOnly Any Resource Propagator sdk answers logs s.log_exporter ctx s
            res)
          (as_Idle _ (
            new_provider-idle Any Resource Propagator sdk answers traces s.trace_exporter ctx s
              res))
          (as_MeterIdle s ctx _
            (new_meter_provider-idle Any Resource Propagator sdk answers ctx s res))
          (as_Idle _
            (new_provider-idle Any Resource Propagator sdk answers logs s.log_exporter ctx s res))
          (subst (λ r. r.1 ≡ err e) rest failed)) [
            | inl clean ↦ inl (rw rest clean)
            | inr orphan ↦ inr (s, accepted, rw rest orphan)
          ]
  ]
