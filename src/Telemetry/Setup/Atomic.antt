-- ===== src/Telemetry/Setup/Atomic.antt =====
-- Setup, all or nothing: what it leaves built, installed and running.
use goga.Prelude.{
  ◌≡◌, refl, sym, ap, ◌∙◌, subst, ◌⊎◌, inl, inr, ℕ, false, none, some, List, [], ◌∷◌, ◌++◌, map,
  arith, append-nil, Option-cases,
}
use goga.Errors.{wrap, ok, err, Result-cases, Result}
use goga.Context.{Context}
use goga.Options.{apply}
use goga.Telemetry.Settings.{traces, metrics, logs, Error, Settings, TelemetryOption, defaults}
use goga.Telemetry.Exporters.{Sdk}
use goga.Telemetry.Providers.{
  Provider, Telemetry, Answers, stopped, installed, installed_propagator, installed_logger,
}
use goga.Telemetry.Setup.{
  Acts, Traced, Built, Ready, quiet, new_meter_provider, new_tracer_provider, new_logger_provider,
  unwind, install, assemble, setup, new_propagator, new_resource,
}
use goga.Telemetry.Setup.Steps.{new_provider-BuildsOnly, new_meter_provider-BuildsOnly}
use goga.Telemetry.Setup.Trace.{
  picked, builds, stops, globals, Shows, append-Shows, reversed, BuildsOnly,
}

module _ (Any Resource Propagator : Type 0) (sdk : Sdk Any)
    (answers : Answers Any Resource Propagator) where
  abbrev pub installs :
      Provider Any Resource Propagator
      → Provider Any Resource Propagator
      → Provider Any Resource Propagator
      → Propagator
      → Acts Any Resource Propagator
  installs tp mp lp prop =
      installed tp
      ∷ installed mp
      ∷ installed lp
      ∷ installed_propagator prop
      ∷ installed_logger lp
      ∷ []

  abbrev pub complete :
      Provider Any Resource Propagator
      → Provider Any Resource Propagator
      → Provider Any Resource Propagator
      → Telemetry Any Resource Propagator
  complete tp mp lp = record {
    tracer_provider = some tp;
    meter_provider = some mp;
    logger_provider = some lp;
  }

  -- A context that is not cancelled, with 5 s left
  abbrev pub uncancelled : Context
  uncancelled = record { cancelled = false; left = some 5000000000 }

  -- On an error nothing is installed and what was built is stopped, the latest first, on a context
  -- without the caller's cancellation; else everything is built, then everything installed.
  abbrev pub AllOrNone : Traced Any Resource Propagator (Ready Any Resource Propagator) → Type 0
  AllOrNone (acts, err e) =
      (globals Any Resource Propagator acts ≡ [])
      × (stops Any Resource Propagator acts
          ≡ map (λ p. (p, uncancelled))
              (reversed Any Resource Propagator (builds Any Resource Propagator acts)))
  AllOrNone (acts, ok (t, cleanup)) =
      (tp mp lp : Provider Any Resource Propagator) × (prop : Propagator) × (before : Acts Any
        Resource Propagator)
      × (t ≡ complete tp mp lp)
      × (tp.signal ≡ traces)
      × (mp.signal ≡ metrics)
      × (lp.signal ≡ logs)
      × (acts ≡ before ++ installs tp mp lp prop)
      × (globals Any Resource Propagator before ≡ [])
      × (builds Any Resource Propagator acts ≡ tp ∷ mp ∷ lp ∷ [])
      × (stops Any Resource Propagator acts ≡ [])

  -- The traces that Setup has before it fails or installs
  two_done :
      (at am : Acts Any Resource Propagator) {bs cs : List (Provider Any Resource Propagator)}
      → Shows Any Resource Propagator at [] [] bs
      → Shows Any Resource Propagator am [] [] cs
      → Shows Any Resource Propagator (at ++ am) [] [] (bs ++ cs)
  two_done at am ht hm = append-Shows Any Resource Propagator at am ht hm

  pub stopping-Shows :
      (ctx : Context) (ps : List (Provider Any Resource Propagator))
      → Shows Any Resource Propagator
          (map (λ p. stopped p (quiet Any Resource Propagator sdk answers ctx)) ps)
          []
          (map (λ p. (p, uncancelled)) ps)
          []
  unfolding picked quiet
  stopping-Shows ctx [] = (refl, refl, refl)
  stopping-Shows ctx (p ∷ ps) =
      let (g, s, b) = stopping-Shows ctx ps in (g, ap (λ l. (p, uncancelled) ∷ l) s, b)

  unwind-AllOrNone :
      (ctx : Context) (before : Acts Any Resource Propagator) (e : Error)
      (ps : List (Provider Any Resource Propagator)) (bs : List (Provider Any Resource Propagator))
      → ps ≡ reversed Any Resource Propagator bs
      → Shows Any Resource Propagator before [] [] bs
      → AllOrNone (unwind Any Resource Propagator sdk answers ctx before e ps)
  unfolding unwind
  unwind-AllOrNone ctx before e ps bs order shown =
      let (g, s, b) =
        append-Shows Any Resource Propagator before
          (map (λ p. stopped p (quiet Any Resource Propagator sdk answers ctx)) ps) shown
          (stopping-Shows ctx ps) in
      (
        g,
        s
            ∙ ap (map (λ p. (p, uncancelled)))
                (order ∙ sym (ap (reversed Any Resource Propagator) (b ∙ append-nil bs))),
      )

  assemble-AllOrNone :
      (ctx : Context) (timeout : ℕ) (tracer meter logger : Built Any Resource Propagator)
      (prop : Result _ Propagator)
      → BuildsOnly Any Resource Propagator traces tracer
      → BuildsOnly Any Resource Propagator metrics meter
      → BuildsOnly Any Resource Propagator logs logger
      → AllOrNone
          (assemble Any Resource Propagator sdk answers ctx timeout tracer meter logger prop)
  unfolding assemble install
  assemble-AllOrNone ctx timeout (at, err e) meter logger prop (g, s, b) hm hl = (g, rw b s)
  assemble-AllOrNone ctx timeout (at, ok tp) (am, err e) logger prop (st, nt, ot) sm hl =
      unwind-AllOrNone ctx (at ++ am) e (tp ∷ []) (tp ∷ []) refl (two_done at am st sm)
  assemble-AllOrNone ctx timeout (at, ok tp) (am, ok mp) (al, err e) prop (st, nt, ot) (sm, nm, om)
        sl =
      unwind-AllOrNone ctx (at ++ am ++ al) e (mp ∷ tp ∷ []) (tp ∷ mp ∷ []) refl
        (two_done (at ++ am) al (two_done at am st sm) sl)
  assemble-AllOrNone ctx timeout (at, ok tp) (am, ok mp) (al, ok lp) (err e) (st, nt, ot)
        (sm, nm, om) (sl, nl, ol) =
      unwind-AllOrNone ctx (at ++ am ++ al) e (lp ∷ mp ∷ tp ∷ []) (tp ∷ mp ∷ lp ∷ []) refl
        (two_done (at ++ am) al (two_done at am st sm) sl)
  assemble-AllOrNone ctx timeout (at, ok tp) (am, ok mp) (al, ok lp) (ok prop) (st, nt, ot)
        (sm, nm, om) (sl, nl, ol) =
      let before = two_done (at ++ am) al (two_done at am st sm) sl in
      let last : Shows Any Resource Propagator (installs tp mp lp prop) (installs tp mp lp prop) []
          [] =
        unfold picked in (refl, refl, refl) in
      let (g, s, b) =
        append-Shows Any Resource Propagator (at ++ am ++ al) (installs tp mp lp prop) before
          last in
      (tp, mp, lp, prop, at ++ am ++ al, refl, nt, nm, nl, refl, before.0, b, s)

  -- Setup before it builds a provider, and from there on
  pub setup-cases :
      (ctx : Context) (opts : List (TelemetryOption Any))
      → ((e : Error) × (setup Any Resource Propagator sdk answers ctx opts ≡ ([], err e)))
        ⊎ ((s : Settings Any) × (res : Resource) × (apply (defaults Any) opts ≡ (s, none))
            × (new_resource Any Resource Propagator sdk answers s ≡ ok res)
            × (setup Any Resource Propagator sdk answers ctx opts
                ≡ assemble Any Resource Propagator sdk answers ctx s.shutdown_timeout
                    (new_tracer_provider Any Resource Propagator sdk answers ctx s res)
                    (new_meter_provider Any Resource Propagator sdk answers ctx s res)
                    (new_logger_provider Any Resource Propagator sdk answers ctx s res)
                    (new_propagator Any Resource Propagator sdk answers s)))
  unfolding setup
  setup-cases ctx opts = elim (Option-cases (apply (defaults Any) opts).1) [
    | inr (e, bad) ↦ inl (wrap "goga/telemetry: setup" e, ground arith)
    | inl good ↦
        let s = (apply (defaults Any) opts).0 in
        elim (Result-cases (new_resource Any Resource Propagator sdk answers s)) [
          | inr (e, failed) ↦ inl (e, ground arith)
          | inl (res, merged) ↦ inr (s, res, λ i. (s, good i), merged, ground arith)
        ]
  ]

  -- Setup is all or nothing. When it fails, it has installed nothing, and every provider that it had
  -- built is stopped, the latest first, on a context that is not cancelled and has 5 s left. When it
  -- succeeds, it first built the tracer, meter and logger providers that it returns, then made each of
  -- them, the propagator and the logger the process's, and it stopped none.
  pub setup-AllOrNone :
      (ctx : Context) (opts : List (TelemetryOption Any))
      → AllOrNone (setup Any Resource Propagator sdk answers ctx opts)
  setup-AllOrNone ctx opts = elim (setup-cases ctx opts) [
    | inl (e, early) ↦ subst AllOrNone (sym early) (unfold picked in (refl, refl))
    | inr (s, res, accepted, merged, rest) ↦ subst AllOrNone (sym rest) (
        assemble-AllOrNone ctx s.shutdown_timeout
          (new_tracer_provider Any Resource Propagator sdk answers ctx s res)
          (new_meter_provider Any Resource Propagator sdk answers ctx s res)
          (new_logger_provider Any Resource Propagator sdk answers ctx s res)
          (new_propagator Any Resource Propagator sdk answers s)
          (new_provider-BuildsOnly Any Resource Propagator sdk answers traces s.trace_exporter ctx s
            res)
          (new_meter_provider-BuildsOnly Any Resource Propagator sdk answers ctx s res)
          (new_provider-BuildsOnly Any Resource Propagator sdk answers logs s.log_exporter ctx s
            res))
  ]
