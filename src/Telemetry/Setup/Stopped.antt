-- ===== src/Telemetry/Setup/Stopped.antt =====
-- What is stopped with the providers that Setup unwinds.
use goga.Prelude.{
  ◌≡◌, ◌≢◌, refl, ap, ◌∙◌, subst, inl, inr, List, [], ◌∷◌, ◌++◌, map, append-nil, All, All-append,
  Listed, Listed-map,
}
use goga.Context.{Context}
use goga.Telemetry.Settings.{Signal, traces, metrics, Error}
use goga.Telemetry.Exporters.{Sdk}
use goga.Telemetry.Providers.{Provider, Answers, stopped}
use goga.Telemetry.Setup.{Acts, quiet, unwind, Ready}
use goga.Telemetry.Setup.Trace.{
  picked, picked-append, start_made, starts, stops, HeldBy, StoppedWith, append-Shows, Shows,
}
use goga.Telemetry.Setup.Atomic.{stopping-Shows, uncancelled}

module _ (Any Resource Propagator : Type 0) (sdk : Sdk Any)
    (answers : Answers Any Resource Propagator) where
  abbrev quietly : Context → List (Provider Any Resource Propagator) → Acts Any Resource Propagator
  quietly ctx ps = map (λ p. stopped p (quiet Any Resource Propagator sdk answers ctx)) ps

  starts-quietly :
      (ctx : Context) (ps : List (Provider Any Resource Propagator))
      → starts Any Resource Propagator (quietly ctx ps) ≡ []
  unfolding picked
  starts-quietly ctx [] = refl
  starts-quietly ctx (p ∷ ps) = starts-quietly ctx ps

  abbrev stopped_by :
      List (Provider Any Resource Propagator) → List (Provider Any Resource Propagator × Context)
  stopped_by ps = map (λ p. (p, uncancelled Any Resource Propagator sdk answers)) ps

  -- What the unwinding adds to a trace of providers that were built: the stops, and no start
  unwind-stops :
      (ctx : Context) (before : Acts Any Resource Propagator) (e : Error)
      (ps bs : List (Provider Any Resource Propagator))
      → Shows Any Resource Propagator before [] [] bs
      → (stops Any Resource Propagator
            (unwind Any Resource Propagator sdk answers {A = Ready Any Resource Propagator} ctx
              before e ps).0
          ≡ stopped_by ps)
        × (starts Any Resource Propagator
              (unwind Any Resource Propagator sdk answers {A = Ready Any Resource Propagator} ctx
                before e ps).0
            ≡ starts Any Resource Propagator before)
  unfolding unwind
  unwind-stops ctx before e ps bs shown =
      let (g, s, b) =
        append-Shows Any Resource Propagator before (quietly ctx ps) shown
          (stopping-Shows Any Resource Propagator sdk answers ctx ps) in
      (
        s,
        picked-append (start_made Any Resource Propagator) before (quietly ctx ps)
            ∙ (ap (λ l. starts Any Resource Propagator before ++ l) (starts-quietly ctx ps)
                ∙ append-nil (starts Any Resource Propagator before)),
      )

  -- Some provider of the list holds it.
  abbrev pub Held : List (Provider Any Resource Propagator) → Signal × Any → Type 0
  Held ps x =
      (p : Provider Any Resource Propagator) × Listed p ps × HeldBy Any Resource Propagator p x

  pub All-Held :
      (ps : List (Provider Any Resource Propagator)) (p : Provider Any Resource Propagator)
      (xs : List (Signal × Any))
      → Listed p ps
      → All (HeldBy Any Resource Propagator p) xs
      → All (Held ps) xs
  All-Held ps p [] m all = tt
  All-Held ps p (x ∷ xs) m (one, all) = ((p, m, one), All-Held ps p xs m all)

  pub Held-none :
      (ps : List (Provider Any Resource Propagator)) (xs : List (Signal × Any))
      → xs ≡ []
      → All (Held ps) xs
  Held-none ps xs h = rw h tt

  -- The starts of one trace and then another
  pub Held-append :
      (ps : List (Provider Any Resource Propagator)) (xs ys : Acts Any Resource Propagator)
      → All (Held ps) (starts Any Resource Propagator xs)
      → All (Held ps) (starts Any Resource Propagator ys)
      → All (Held ps) (starts Any Resource Propagator (xs ++ ys))
  Held-append ps xs ys h k = rw (picked-append (start_made Any Resource Propagator) xs ys) (
      All-append (Held ps) (starts Any Resource Propagator xs) (starts Any Resource Propagator ys) h
        k)

  -- What the unwound providers hold is stopped with them.
  Held-StoppedWith :
      (acts : Acts Any Resource Propagator) (ps : List (Provider Any Resource Propagator))
      (xs : List (Signal × Any))
      → stops Any Resource Propagator acts ≡ stopped_by ps
      → All (Held ps) xs
      → All (StoppedWith Any Resource Propagator acts) xs
  Held-StoppedWith acts ps [] s all = tt
  Held-StoppedWith acts ps (x ∷ xs) s ((p, m, one), all) = (
    (
      p,
      uncancelled Any Resource Propagator sdk answers,
      rw s (Listed-map (λ q. (q, uncancelled Any Resource Propagator sdk answers)) p ps m),
      one,
    ),
    Held-StoppedWith acts ps xs s all,
  )

  -- All that was started was stopped with its provider.
  abbrev pub NoneLeft : Acts Any Resource Propagator → Type 0
  NoneLeft acts =
      All (StoppedWith Any Resource Propagator acts) (starts Any Resource Propagator acts)

  -- All but one reader, which was started last, and no provider of its signal was stopped
  abbrev pub OneLeft : Acts Any Resource Propagator → Any → Type 0
  OneLeft acts reader =
      (before : List (Signal × Any)) × (starts Any Resource Propagator acts
        ≡ before ++ (metrics, reader) ∷ [])
      × All (StoppedWith Any Resource Propagator acts) before
      × ((p : Provider Any Resource Propagator) (ctx : Context)
          → Listed (p, ctx) (stops Any Resource Propagator acts)
          → p.signal ≢ metrics)

  pub unwind-NoneLeft :
      (ctx : Context) (before : Acts Any Resource Propagator) (e : Error)
      (ps bs : List (Provider Any Resource Propagator))
      → Shows Any Resource Propagator before [] [] bs
      → All (Held ps) (starts Any Resource Propagator before)
      → NoneLeft
          (unwind Any Resource Propagator sdk answers {A = Ready Any Resource Propagator} ctx before
            e ps).0
  unwind-NoneLeft ctx before e ps bs shown all =
      let (stopping, starting) = unwind-stops ctx before e ps bs shown in
      rw starting (
        Held-StoppedWith
          (unwind Any Resource Propagator sdk answers {A = Ready Any Resource Propagator} ctx before
            e ps).0
          ps (starts Any Resource Propagator before) stopping all)

  -- Where only the tracer provider is there to be stopped
  pub unwind-OneLeft :
      (ctx : Context) (at am : Acts Any Resource Propagator) (e : Error)
      (tp : Provider Any Resource Propagator) (reader : Any)
      → Shows Any Resource Propagator (at ++ am) [] [] (tp ∷ [])
      → tp.signal ≡ traces
      → All (Held (tp ∷ [])) (starts Any Resource Propagator at)
      → starts Any Resource Propagator am ≡ (metrics, reader) ∷ []
      → OneLeft
          (unwind Any Resource Propagator sdk answers {A = Ready Any Resource Propagator} ctx
            (at ++ am)
            e
            (tp ∷ [])).0
          reader
  unwind-OneLeft ctx at am e tp reader shown nt all begun =
      let (stopping, starting) = unwind-stops ctx (at ++ am) e (tp ∷ []) (tp ∷ []) shown in
      let acts =
        (unwind Any Resource Propagator sdk answers {A = Ready Any Resource Propagator} ctx
          (at ++ am) e (tp ∷ [])).0 in
      (
        starts Any Resource Propagator at,
        starting
            ∙ (picked-append (start_made Any Resource Propagator) at am
                ∙ ap (λ l. starts Any Resource Propagator at ++ l) begun),
        Held-StoppedWith acts (tp ∷ []) (starts Any Resource Propagator at) stopping all,
        λ p c m same.
            let one : Listed (p, c) (stopped_by (tp ∷ [])) = subst (Listed (p, c)) stopping m in
            elim one [
              | inl q ↦ let is_tp : p ≡ tp = ap (λ x. x.0) q in cc (ap (λ x. x.signal) is_tp)
              | inr n ↦ elim n [ ]
            ],
      )
