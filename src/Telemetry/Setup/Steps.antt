-- ===== src/Telemetry/Setup/Steps.antt =====
-- What each step of Setup builds.
use goga.Prelude.{
  ◌≡◌, refl, sym, subst, inl, inr, String, Option, none, some, [], arith, Bool-cases,
}
use goga.Errors.{ok, err, Result-cases, Result}
use goga.Context.{Context}
use goga.Telemetry.Settings.{Signal, metrics, Error, Settings}
use goga.Telemetry.Exporters.{Sdk, resolve_exporter, resolve_metric_reader, new_prometheus_reader}
use goga.Telemetry.Providers.{Answers}
use goga.Telemetry.Setup.{over, new_provider, with_prometheus_reader, new_meter_provider}
use goga.Telemetry.Setup.Trace.{picked, BuildsOnly}

module _ (Any Resource Propagator : Type 0) (sdk : Sdk Any)
    (answers : Answers Any Resource Propagator) where
  over-BuildsOnly :
      (signal : Signal) (res : Resource) (exp : Option Any)
      → BuildsOnly Any Resource Propagator signal
          (over Any Resource Propagator sdk answers signal res exp)
  unfolding over picked
  over-BuildsOnly signal res none = ((refl, refl, refl), refl, tt)
  over-BuildsOnly signal res (some exp) = ((refl, refl, refl), refl, ((refl, inl refl), tt))

  nothing-BuildsOnly :
      (signal : Signal) (e : Error) → BuildsOnly Any Resource Propagator signal ([], err e)
  unfolding picked
  nothing-BuildsOnly signal e = (refl, refl, refl)

  pub new_provider-BuildsOnly :
      (signal : Signal) (name : String) (ctx : Context) (s : Settings Any) (res : Resource)
      → BuildsOnly Any Resource Propagator signal
          (new_provider Any Resource Propagator sdk answers signal name ctx s res)
  unfolding new_provider
  new_provider-BuildsOnly signal name ctx s res =
      elim (Result-cases (resolve_exporter Any sdk signal name ctx s.exporters)) [
        | inr (e, bad) ↦
            let failed : new_provider Any Resource Propagator sdk answers signal name ctx s res
                ≡ ([], err e) =
              ground arith in
            subst (BuildsOnly Any Resource Propagator signal) (sym failed)
              (nothing-BuildsOnly signal e)
        | inl (exp, good) ↦
            let made : new_provider Any Resource Propagator sdk answers signal name ctx s res
                ≡ over Any Resource Propagator sdk answers signal res exp =
              ground arith in
            subst (BuildsOnly Any Resource Propagator signal) (sym made)
              (over-BuildsOnly signal res exp)
      ]

  with_prometheus_reader-BuildsOnly :
      (res : Resource) (reader : Option Any) (prom : Result _ Any)
      → BuildsOnly Any Resource Propagator metrics
          (with_prometheus_reader Any Resource Propagator sdk answers res reader prom)
  unfolding with_prometheus_reader picked
  with_prometheus_reader-BuildsOnly res none (err e) = (refl, refl, refl)
  with_prometheus_reader-BuildsOnly res none (ok prom) =
      ((refl, refl, refl), refl, ((refl, inl refl), tt))
  with_prometheus_reader-BuildsOnly res (some reader) (err e) = (refl, refl, refl)
  with_prometheus_reader-BuildsOnly res (some reader) (ok prom) =
      ((refl, refl, refl), refl, ((refl, inl refl), ((refl, inr (inl refl)), tt)))

  pub new_meter_provider-BuildsOnly :
      (ctx : Context) (s : Settings Any) (res : Resource)
      → BuildsOnly Any Resource Propagator metrics
          (new_meter_provider Any Resource Propagator sdk answers ctx s res)
  unfolding new_meter_provider
  new_meter_provider-BuildsOnly ctx s res =
      elim (Result-cases (resolve_metric_reader Any sdk s.metric_exporter ctx s.exporters)) [
        | inr (e, bad) ↦
            let failed : new_meter_provider Any Resource Propagator sdk answers ctx s res
                ≡ ([], err e) =
              ground arith in
            subst (BuildsOnly Any Resource Propagator metrics) (sym failed)
              (nothing-BuildsOnly metrics e)
        | inl (exp, good) ↦ elim (Bool-cases s.prometheus) [
          | inl on ↦
              let made : new_meter_provider Any Resource Propagator sdk answers ctx s res
                  ≡ with_prometheus_reader Any Resource Propagator sdk answers res exp
                      (new_prometheus_reader Any sdk) =
                ground arith in
              subst (BuildsOnly Any Resource Propagator metrics) (sym made)
                (with_prometheus_reader-BuildsOnly res exp (new_prometheus_reader Any sdk))
          | inr off ↦
              let made : new_meter_provider Any Resource Propagator sdk answers ctx s res
                  ≡ over Any Resource Propagator sdk answers metrics res exp =
                ground arith in
              subst (BuildsOnly Any Resource Propagator metrics) (sym made)
                (over-BuildsOnly metrics res exp)
        ]
      ]
