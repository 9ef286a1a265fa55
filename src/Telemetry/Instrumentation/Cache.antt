-- ===== src/Telemetry/Instrumentation/Cache.antt =====
-- The cache of a handle: what its users see of it.
use goga.Prelude.{
  ◌≡◌, refl, sym, ap, ◌∙◌, subst, ℕ, String, Bool, true, Option, none, some, List, [], ◌∷◌, arith,
  inl, inr, Option-cases, Bool-cases, if◌then◌else◌, ◌==◌, eq_iff,
}
use goga.Prelude.Dict.{lookup, insert, lookup-insert}
use goga.Telemetry.Settings.{Error}
use goga.Telemetry.Instrumentation.{
  Installed, Globals, Factory, Resolved, Process, same_provider, for_module, build, fresh, loaded,
  rebuilt, current,
}

same_provider-eq :
    (comparable : ℕ → Bool) (a b : Installed) → same_provider comparable a b ≡ true → a ≡ b
unfolding same_provider
same_provider-eq comparable none none h = refl
same_provider-eq comparable none (some b) h = cc
same_provider-eq comparable (some a) none h = cc
same_provider-eq comparable (some a) (some b) h = ground arith

module _ (Part : Type 0) (factory : Factory Part) where
  -- What happens to a process: a provider becomes global, a module takes its handle, or uses it
  pub data Step : Type 0 where
    tracer_set meter_set logger_set : Installed → Step
    taken used : String → Step

  unfoldable pub step : Step → Process Part → Process Part
  unfolding for_module current
  step (tracer_set tp) p = record p { globals = record p.globals { tracer_provider = tp } }
  step (meter_set mp) p = record p { globals = record p.globals { meter_provider = mp } }
  step (logger_set lp) p = record p { globals = record p.globals { logger_provider = lp } }
  step (taken name) p = for_module Part name p
  step (used name) p = (current Part factory name p).0

  -- The handles that the uses get, in order
  unfoldable pub uses : Process Part → List Step → List (Resolved Part)
  unfolding step
  uses p [] = []
  uses p (used name ∷ steps) = (current Part factory name p).2 ∷ uses (step (used name) p) steps
  uses p (s ∷ steps) = uses (step s p) steps

  unfoldable pub set_globals : Step → Globals → Globals
  set_globals (tracer_set tp) g = record g { tracer_provider = tp }
  set_globals (meter_set mp) g = record g { meter_provider = mp }
  set_globals (logger_set lp) g = record g { logger_provider = lp }
  set_globals _ g = g

  -- The specification, without a cache: each use builds from the providers of its moment.
  unfoldable pub built_afresh : Globals → List Step → List (Resolved Part)
  unfolding set_globals
  built_afresh g [] = []
  built_afresh g (used name ∷ steps) = (build Part factory name g).1 ∷ built_afresh g steps
  built_afresh g (s ∷ steps) = built_afresh (set_globals s g) steps

  -- What a handle has cached is what it would build from the cached providers.
  abbrev pub Coherent : Process Part → Type 0
  Coherent p =
      (name : String) (r : Resolved Part)
      → loaded Part factory name p ≡ some r
      → r ≡ (build Part factory name r.providers).1

  loaded-insert :
      (key name : String) (v : Option (Resolved Part)) (p : Process Part)
      → loaded Part factory name (record p { handles = insert key v p.handles })
        ≡ (if key == name then v else loaded Part factory name p)
  unfolding loaded
  loaded-insert key name v p = elim (Bool-cases (key == name)) [
    | inl same ↦ ground (arith, lookup-insert key name v p.handles)
    | inr other ↦ ground (arith, lookup-insert key name v p.handles)
  ]

  stored-Coherent :
      (p : Process Part) (key : String) (v : Option (Resolved Part))
      → ((r : Resolved Part) → v ≡ some r → r ≡ (build Part factory key r.providers).1)
      → Coherent p
      → Coherent (record p { handles = insert key v p.handles })
  stored-Coherent p key v new old name r h = elim (Bool-cases (key == name)) [
    | inl same ↦
        let names : key ≡ name = (eq_iff key name).0 same in
        let stored : v ≡ some r = ground (arith, loaded-insert key name v p) in
        subst (λ n. r ≡ (build Part factory n r.providers).1) names (new r stored)
    | inr other ↦ old name r (ground (arith, loaded-insert key name v p))
  ]

  -- A cached handle that current keeps is for the providers that are installed.
  fresh-eq : (r : Resolved Part) (g : Globals) → fresh Part factory r g ≡ true → r.providers ≡ g
  unfolding fresh
  fresh-eq r g h =
      let t =
        same_provider-eq factory.comparable r.providers.tracer_provider g.tracer_provider
          (ground arith) in
      let m =
        same_provider-eq factory.comparable r.providers.meter_provider g.meter_provider
          (ground arith) in
      let l =
        same_provider-eq factory.comparable r.providers.logger_provider g.logger_provider
          (ground arith) in
      λ i. record { tracer_provider = t i; meter_provider = m i; logger_provider = l i }

  -- What a use does right: it gets a fresh build, leaves the globals and keeps the caches coherent.
  abbrev Right : String → Process Part → Process Part × List Error × Resolved Part → Type 0
  Right name p (q, handled, r) =
      (r ≡ (build Part factory name p.globals).1) × Coherent q × (q.globals ≡ p.globals)

  rebuilt-Right :
      (name : String) (p : Process Part) → Coherent p → Right name p (rebuilt Part factory name p)
  unfolding rebuilt
  rebuilt-Right name p good = (
    refl,
    stored-Coherent p name (some (build Part factory name p.globals).1)
        (λ r e.
          let same : (build Part factory name p.globals).1 ≡ r = cc in
          subst (λ (q : Resolved Part). q ≡ (build Part factory name q.providers).1) same
            (unfold build in refl))
        good,
    refl,
  )

  current-Right :
      (name : String) (p : Process Part) → Coherent p → Right name p (current Part factory name p)
  unfolding current
  current-Right name p good = elim (Option-cases (loaded Part factory name p)) [
    | inl nothing ↦
        let path : current Part factory name p ≡ rebuilt Part factory name p = ground arith in
        subst (Right name p) (sym path) (rebuilt-Right name p good)
    | inr (r, cached) ↦ elim (Bool-cases (fresh Part factory r p.globals)) [
      | inl now ↦
          let path : current Part factory name p ≡ (p, [], r) = ground arith in
          let same = fresh-eq r p.globals now in
          subst (Right name p) (sym path)
            (good name r cached ∙ ap (λ g. (build Part factory name g).1) same, good, refl)
      | inr stale ↦
          let path : current Part factory name p ≡ rebuilt Part factory name p = ground arith in
          subst (Right name p) (sym path) (rebuilt-Right name p good)
    ]
  ]

  for_module-Coherent :
      (name : String) (p : Process Part) → Coherent p → Coherent (for_module Part name p)
  unfolding for_module
  for_module-Coherent name p good = elim (Option-cases (lookup name p.handles)) [
    | inr (handle, there) ↦
        let path : for_module Part name p ≡ p = ground arith in subst Coherent (sym path) good
    | inl absent ↦
        let path : for_module Part name p ≡ record p { handles = insert name none p.handles } =
          ground arith in
        subst Coherent (sym path) (stored-Coherent p name none (λ r e. cc) good)
  ]

  for_module-globals :
      (name : String) (p : Process Part) → (for_module Part name p).globals ≡ p.globals
  unfolding for_module
  for_module-globals name p = elim (Option-cases (lookup name p.handles)) [
    | inr (handle, there) ↦ ground arith
    | inl absent ↦ ground arith
  ]

  uses-Coherent :
      (p : Process Part) (steps : List Step)
      → Coherent p
      → uses p steps ≡ built_afresh p.globals steps
  unfolding uses built_afresh step set_globals
  uses-Coherent p [] good = refl
  uses-Coherent p (tracer_set tp ∷ steps) good =
      uses-Coherent (record p { globals = record p.globals { tracer_provider = tp } }) steps good
  uses-Coherent p (meter_set mp ∷ steps) good =
      uses-Coherent (record p { globals = record p.globals { meter_provider = mp } }) steps good
  uses-Coherent p (logger_set lp ∷ steps) good =
      uses-Coherent (record p { globals = record p.globals { logger_provider = lp } }) steps good
  uses-Coherent p (taken name ∷ steps) good =
      uses-Coherent (for_module Part name p) steps (for_module-Coherent name p good)
      ∙ ap (λ g. built_afresh g steps) (for_module-globals name p)
  uses-Coherent p (used name ∷ steps) good =
      let (right, still, same) = current-Right name p good in
      let rest =
        uses-Coherent (current Part factory name p).0 steps still
        ∙ ap (λ g. built_afresh g steps) same in
      λ i. right i ∷ rest i

  -- A process before any handle is taken
  abbrev pub initial : Globals → Process Part
  initial g = record { globals = g; handles = [] }

  initial-Coherent : (g : Globals) → Coherent (initial g)
  unfolding loaded lookup
  initial-Coherent g name r h = cc

  -- However providers become global, modules take handles and handles are used, in any order from the
  -- start of the process: each use gets what a build from the providers that are installed at that
  -- moment gives. So a handle that was taken, or used, before a provider became global works with
  -- that provider afterwards.
  pub handles_follow :
      (g : Globals) (steps : List Step) → uses (initial g) steps ≡ built_afresh g steps
  handles_follow g steps = uses-Coherent (initial g) steps (initial-Coherent g)
