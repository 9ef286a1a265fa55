-- ===== src/Telemetry/Setup/Trace.antt =====
-- What a trace of Setup shows: what was built, stopped and installed, and what is left running.
use goga.Prelude.{
  ◌≡◌, ◌∙◌, inl, inr, Option, none, some, List, [], ◌∷◌, ◌++◌, All, Listed, refl, arith,
  Option-cases,
}
use goga.Errors.{ok, err}
use goga.Context.{Context}
use goga.Telemetry.Settings.{Signal}
use goga.Telemetry.Providers.{
  Provider, Act, started, built, stopped, installed, installed_propagator, installed_logger,
}
use goga.Telemetry.Setup.{Acts, Built}

-- What a partial function picks of the elements, in their order
unfoldable pub picked : {A B : Type 0} → (A → Option B) → List A → List B
picked f [] = []
picked f (x ∷ xs) = let rest = picked f xs in elim (f x) [ none ↦ rest | some y ↦ y ∷ rest ]

pub picked-append :
    {A B : Type 0} (f : A → Option B) (xs ys : List A)
    → picked f (xs ++ ys) ≡ picked f xs ++ picked f ys
unfolding picked
picked-append f [] ys = refl
picked-append f (x ∷ xs) ys = elim (Option-cases (f x)) [
  | inl e ↦ ground (arith, picked-append f xs ys)
  | inr (y, e) ↦ ground (arith, picked-append f xs ys)
]

module _ (Any Resource Propagator : Type 0) where
  abbrev pub built_provider :
      Act Any Resource Propagator → Option (Provider Any Resource Propagator)
  built_provider (built p) = some p
  built_provider _ = none

  abbrev pub stop_made :
      Act Any Resource Propagator → Option (Provider Any Resource Propagator × Context)
  stop_made (stopped p ctx) = some (p, ctx)
  stop_made _ = none

  -- A change of the process's state
  abbrev pub global : Act Any Resource Propagator → Option (Act Any Resource Propagator)
  global (installed p) = some (installed p)
  global (installed_propagator p) = some (installed_propagator p)
  global (installed_logger p) = some (installed_logger p)
  global _ = none

  abbrev pub start_made : Act Any Resource Propagator → Option (Signal × Any)
  start_made (started signal x) = some (signal, x)
  start_made _ = none

  abbrev pub builds : Acts Any Resource Propagator → List (Provider Any Resource Propagator)
  builds = picked built_provider

  abbrev pub stops :
      Acts Any Resource Propagator → List (Provider Any Resource Propagator × Context)
  stops = picked stop_made

  abbrev pub globals : Acts Any Resource Propagator → Acts Any Resource Propagator
  globals = picked global

  abbrev pub starts : Acts Any Resource Propagator → List (Signal × Any)
  starts = picked start_made

  -- The exporter or reader is of the provider's signal, and in its pipelines.
  abbrev pub HeldBy : Provider Any Resource Propagator → Signal × Any → Type 0
  HeldBy p x = (p.signal ≡ x.0) × Listed x.1 p.pipelines

  -- A provider that holds it was stopped.
  abbrev pub StoppedWith : Acts Any Resource Propagator → Signal × Any → Type 0
  StoppedWith acts x =
      (p : Provider Any Resource Propagator) × (ctx : Context) × Listed (p, ctx) (stops acts)
      × HeldBy p x

  -- The providers in the order in which they are unwound
  abbrev pub reversed : {A : Type 0} → List A → List A
  reversed [] = []
  reversed (x ∷ xs) = reversed xs ++ x ∷ []

  -- What a trace installs, stops and builds
  abbrev pub Shows :
      Acts Any Resource Propagator
      → Acts Any Resource Propagator
      → List (Provider Any Resource Propagator × Context)
      → List (Provider Any Resource Propagator)
      → Type 0
  Shows acts gs ss bs = (globals acts ≡ gs) × (stops acts ≡ ss) × (builds acts ≡ bs)

  pub append-Shows :
      (xs ys : Acts Any Resource Propagator) {gs hs : Acts Any Resource Propagator}
      {ss ts : List (Provider Any Resource Propagator × Context)}
      {bs cs : List (Provider Any Resource Propagator)}
      → Shows xs gs ss bs
      → Shows ys hs ts cs
      → Shows (xs ++ ys) (gs ++ hs) (ss ++ ts) (bs ++ cs)
  append-Shows xs ys (g, s, b) (h, t, c) = (
    picked-append global xs ys ∙ (λ i. g i ++ h i),
    picked-append stop_made xs ys ∙ (λ i. s i ++ t i),
    picked-append built_provider xs ys ∙ (λ i. b i ++ c i),
  )

  -- A step that builds the provider of a signal over what it starts, or nothing, and touches nothing
  -- global
  abbrev pub BuildsOnly : Signal → Built Any Resource Propagator → Type 0
  BuildsOnly signal (acts, err e) = Shows acts [] [] []
  BuildsOnly signal (acts, ok p) =
      Shows acts [] [] (p ∷ []) × (p.signal ≡ signal) × All (HeldBy p) (starts acts)
