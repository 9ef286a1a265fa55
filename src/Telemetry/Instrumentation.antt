-- ===== src/Telemetry/Instrumentation.antt =====
-- telemetry/instrumentation.go: the handle of a module, which resolves through the providers that are
-- installed when it is used, and the closer of a span. A provider is an interface value: a type and
-- what identifies the value in it. Handles are shared by name, so that the name stands for the
-- pointer; a step of a handle is one step of the process.
pub mod Cache
pub mod Ending
use Prim.Native.String
use goga.Prelude.{
  ℕ, ◌-◌, String, Bool, true, false, ◌&&◌, not, Option, none, some, List, [], ◌∷◌, ◌++◌, eqb,
  if◌then◌else◌,
}
use goga.Prelude.Dict.{Dict, lookup, insert}
use goga.Errors.{ok, err}
use goga.Semconv.{KeyValue, module_of, operation, error_type}
use goga.Telemetry.Settings.{Error, Result}

-- An interface value that is not nil
pub record Dynamic : Type 0 where
  pub dynamic_type : ℕ
  pub value : ℕ

-- A nil interface is `none`.
abbrev pub Installed : Type 0
Installed = Option Dynamic

-- `sameProvider`, given reflect.Type.Comparable
unfoldable pub same_provider : (ℕ → Bool) → Installed → Installed → Bool
same_provider comparable none none = true
same_provider comparable none (some b) = false
same_provider comparable (some a) none = false
same_provider comparable (some a) (some b) =
    if eqb a.dynamic_type b.dynamic_type && comparable a.dynamic_type
    then eqb a.value b.value
    else false

-- The three globals
pub record Globals : Type 0 where
  pub tracer_provider : Installed
  pub meter_provider : Installed
  pub logger_provider : Installed

module _ (Part : Type 0) where
  -- What providers make: tracers, loggers (for a module) and instruments
  pub record Factory : Type 0 where
    pub comparable : ℕ → Bool
    pub tracer : Installed → Part
    pub logger : Installed → String → Part
    pub histogram : Installed → Result Part
    pub counter : Installed → Result Part

  -- `resolved`
  pub record Resolved : Type 0 where
    pub providers : Globals
    pub tracer : Part
    pub logger : Part
    pub duration : Option Part
    pub errors : Option Part

  -- The part of a result, and what otel.Handle is given of it
  abbrev pub usable : Result Part → Option Part
  usable (ok part) = some part
  usable (err e) = none

  abbrev pub rejected : Result Part → List Error
  rejected (ok part) = []
  rejected (err e) = e ∷ []

  -- The package's map `instrumentations`, with what each handle has cached, and the globals
  pub record Process : Type 0 where
    pub globals : Globals
    pub handles : Dict (Option Resolved)

  -- `For`
  unfoldable pub for_module : String → Process → Process
  for_module name p = elim (lookup name p.handles) [
    | some handle ↦ p
    | none ↦ record p { handles = insert name none p.handles }
  ]

  module _ (factory : Factory) where
    -- `build`, with the errors it hands to otel.Handle
    unfoldable pub build : String → Globals → List Error × Resolved
    build name g =
        let duration = factory.histogram g.meter_provider in
        let errors = factory.counter g.meter_provider in
        (
          rejected duration ++ rejected errors,
          record {
            providers = g;
            tracer = factory.tracer g.tracer_provider;
            logger = factory.logger g.logger_provider name;
            duration = usable duration;
            errors = usable errors;
          },
        )

    -- The three comparisons of `current`
    unfoldable pub fresh : Resolved → Globals → Bool
    unfolding same_provider
    fresh r g =
        same_provider factory.comparable r.providers.tracer_provider g.tracer_provider
        && same_provider factory.comparable r.providers.meter_provider g.meter_provider
        && same_provider factory.comparable r.providers.logger_provider g.logger_provider

    -- `i.resolved.Load()` of a handle that For returned
    unfoldable pub loaded : String → Process → Option Resolved
    loaded name p = elim (lookup name p.handles) [ none ↦ none | some cached ↦ cached ]

    -- current from the rebuilding on
    unfoldable pub rebuilt : String → Process → Process × List Error × Resolved
    unfolding build
    rebuilt name p =
        let (handled, r) = build name p.globals in
        (record p { handles = insert name (some r) p.handles }, handled, r)

    -- `current`
    unfoldable pub current : String → Process → Process × List Error × Resolved
    unfolding loaded rebuilt fresh
    current name p = elim (loaded name p) [
      | none ↦ rebuilt name p
      | some r ↦ if fresh r p.globals then (p, [], r) else rebuilt name p
    ]

  -- What a span and the two instruments of a handle record
  pub data Effect : Type 0 where
    span_started : Part → String → List KeyValue → Effect
    error_recorded : Error → Effect
    status_error : Error → Effect
    status_ok : Effect
    error_counted : Part → List KeyValue → Effect
    duration_recorded : Part → ℕ → List KeyValue → Effect
    span_ended : Effect

  -- What the closure that Start returns holds, with the sync.Once
  pub record Closer : Type 0 where
    pub resolved : Resolved
    pub base : List KeyValue
    pub start : ℕ
    pub done : Bool

  -- `Start` at a time, on the handles that current returned
  unfoldable pub start : String → Resolved → String → List KeyValue → ℕ → Closer × List Effect
  unfolding module_of operation
  start name r op attrs now =
      let base = module_of name ∷ operation op ∷ attrs in
      (
        record { resolved = r; base = base; start = now; done = false },
        span_started r.tracer (String.◌++◌ "goga." (String.◌++◌ name (String.◌++◌ "." op))) base
            ∷ [],
      )

  -- The effects on an instrument that may be nil
  abbrev pub counted : Option Part → List KeyValue → List Effect
  counted none set = []
  counted (some part) set = error_counted part set ∷ []

  abbrev pub measured : Option Part → ℕ → List KeyValue → List Effect
  measured none elapsed set = []
  measured (some part) elapsed set = duration_recorded part elapsed set ∷ []

  -- The function that the closer runs once, given the text that %T prints of an error. The times are
  -- monotonic.
  unfoldable pub finish : (Error → String) → Closer → Option Error → ℕ → List Effect
  unfolding error_type
  finish type_of c none now =
      status_ok ∷ measured c.resolved.duration (now - c.start) c.base ++ span_ended ∷ []
  finish type_of c (some e) now =
      let set = c.base ++ error_type (some (type_of e)) ∷ [] in
      error_recorded e ∷ status_error e ∷ counted c.resolved.errors set
      ++ measured c.resolved.duration (now - c.start) set
      ++ span_ended ∷ []

  -- A call of the closer
  unfoldable pub end_span : (Error → String) → Closer → Option Error → ℕ → Closer × List Effect
  unfolding finish
  end_span type_of c e now =
      if c.done then (c, []) else (record c { done = true }, finish type_of c e now)
