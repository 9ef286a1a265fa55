-- ===== src/Telemetry/Setup/Idle.antt =====
-- What a step of Setup has started when it fails.
use goga.Prelude.{
  ◌≡◌, refl, ap, ◌∙◌, ◌⊎◌, inl, inr, String, true, none, some, [], ◌∷◌, arith, Option-cases,
  Bool-cases,
}
use goga.Errors.{ok, err, Result-cases}
use goga.Context.{Context}
use goga.Telemetry.Settings.{Signal, metrics, Error, Settings}
use goga.Telemetry.Exporters.{Sdk, resolve_exporter, resolve_metric_reader, new_prometheus_reader}
use goga.Telemetry.Providers.{Answers, started}
use goga.Telemetry.Setup.{Acts, over, new_provider, with_prometheus_reader, new_meter_provider}
use goga.Telemetry.Setup.Trace.{picked, starts}

module _ (Any Resource Propagator : Type 0) (sdk : Sdk Any)
    (answers : Answers Any Resource Propagator) where
  pub new_provider-idle :
      (signal : Signal) (name : String) (ctx : Context) (s : Settings Any) (res : Resource)
      (acts : Acts Any Resource Propagator) (e : Error)
      → new_provider Any Resource Propagator sdk answers signal name ctx s res ≡ (acts, err e)
      → starts Any Resource Propagator acts ≡ []
  unfolding new_provider over picked
  new_provider-idle signal name ctx s res acts e h =
      elim (Result-cases (resolve_exporter Any sdk signal name ctx s.exporters)) [
        | inr (f, bad) ↦ let none_done : acts ≡ [] = ground arith in rw none_done refl
        | inl (none, good) ↦ ground arith
        | inl (some exp, good) ↦ ground arith
      ]

  -- The push reader that is running when the Prometheus reader fails
  abbrev pub Orphaned : Settings Any → Context → Any → Type 0
  Orphaned s ctx reader =
      (s.prometheus ≡ true)
      × ((f : Error) × (new_prometheus_reader Any sdk ≡ err f))
      × (resolve_metric_reader Any sdk s.metric_exporter ctx s.exporters ≡ ok (some reader))

  pub new_meter_provider-idle :
      (ctx : Context) (s : Settings Any) (res : Resource) (acts : Acts Any Resource Propagator)
      (e : Error)
      → new_meter_provider Any Resource Propagator sdk answers ctx s res ≡ (acts, err e)
      → (starts Any Resource Propagator acts ≡ [])
        ⊎ ((reader : Any) × Orphaned s ctx reader
            × (starts Any Resource Propagator acts ≡ (metrics, reader) ∷ []))
  unfolding new_meter_provider with_prometheus_reader over picked
  new_meter_provider-idle ctx s res acts e h =
      elim (Result-cases (resolve_metric_reader Any sdk s.metric_exporter ctx s.exporters)) [
        | inr (f, bad) ↦ let none_done : acts ≡ [] = ground arith in inl (rw none_done refl)
        | inl (reader, good) ↦ elim (Bool-cases s.prometheus) [
          | inr off ↦ elim (Option-cases reader) [
            | inl nil ↦ ground arith
            | inr (r, given) ↦ ground arith
          ]
          | inl on ↦ elim (Result-cases (new_prometheus_reader Any sdk)) [
            | inl (p, made) ↦ elim (Option-cases reader) [
              | inl nil ↦ ground arith
              | inr (r, given) ↦ ground arith
            ]
            | inr (f, failed) ↦ elim (Option-cases reader) [
              | inl nil ↦ let none_done : acts ≡ [] = ground arith in inl (rw none_done refl)
              | inr (r, given) ↦
                  let one : acts ≡ started metrics r ∷ [] = ground arith in
                  inr (r, (on, (f, failed), good ∙ ap ok given), rw one refl)
            ]
          ]
        ]
      ]
