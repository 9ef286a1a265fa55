-- ===== src/Tests/TelemetryRuns.antt =====
-- telemetry/: a process with a registered exporter, and a Setup that fails at its Prometheus reader.
use goga.Prelude.{
  ℕ, ◌≡◌, ◌≢◌, ◌↔◌, ◌⊎◌, inl, inr, refl, String, Bool, true, false, ◌||◌, Option, none, some, List,
  [], ◌∷◌, ◌++◌, Listed, filter, length, eqb,
}
use goga.Prelude.Dict.{lookup, insert}
use goga.Errors.{ok, err, raw, wrap}
use goga.Context.{background}
use goga.Options.{apply}
use goga.Registry
use goga.Registry.{Registry, Constructor}
use goga.Telemetry.Settings.{
  traces, metrics, logs, Failure, Error, foreign, unknown_exporter, Settings, TelemetryOption,
  with_metric_exporter, with_service_name, defaults,
}
use goga.Telemetry.Exporters.{
  Sdk, resolve_exporter, open_from_registry, contains, register_exporter, registered_names,
  registry_key, resolve, exporter_none,
}
use goga.Telemetry.Names.{register_exporter_adds}
use goga.Telemetry.Supported.{Supported}
use goga.Telemetry.Resolution.{unknown_resolution, MadeNil, off_iff}
use goga.Telemetry.Providers.{Telemetry, Answers, opened, ended}
use goga.Telemetry.Shutdown.{shutdown, found, step_found, steps, shutdown_complete}
use goga.Telemetry.Setup.{setup}
use goga.Telemetry.Setup.Trace.{starts, picked}
use goga.Telemetry.Setup.Atomic.{AllOrNone, setup-AllOrNone}
use goga.Telemetry.Setup.Idle.{Orphaned}
use goga.Telemetry.Setup.Stopped.{NoneLeft, OneLeft}
use goga.Telemetry.Setup.Leftover.{setup_leaves}
use goga.Telemetry.Instrumentation.{Globals, Factory, Resolved, start}
use goga.Telemetry.Instrumentation.Cache.{
  Step, tracer_set, taken, used, uses, built_afresh, initial, handles_follow,
}
use goga.Telemetry.Instrumentation.Ending.{
  end_all, is_end, is_count, is_measure, present, failures, closer_once,
}

abbrev empty : Registry ℕ
empty = record { decode = λ raw_settings t. ok 0; entries = [] }

abbrev house : Constructor ℕ
house n = ok 41

abbrev with_house : Registry ℕ
with_house = record empty {
  entries = ("telemetry.metric.house", record { port = 2; settings = 9; ctor = house }) ∷ [];
}

abbrev house_name : String
house_name = "house"

-- Every exporter of the SDK can be made; the Prometheus reader cannot.
abbrev sdk : Sdk ℕ
sdk = record {
  getenv = λ name. "";
  autoexport = λ signal ctx. ok 5;
  is_none = λ signal x. false;
  is_nil = λ x. false;
  otlp_grpc = λ signal ctx. ok 6;
  otlp_http = λ signal ctx. ok 7;
  stdout = λ signal. ok 8;
  periodic_reader = λ x. x;
  prometheus = err (raw (foreign 1));
  zero_value = λ t. 0;
  exporter_type = λ signal. 2;
}

abbrev answers : Answers ℕ ℕ ℕ
answers = record {
  merge_resource = λ attrs. ok (length attrs);
  env_propagator = 1;
  named_propagator = λ names. ok 2;
  force_flush = λ p ctx. some (raw (foreign 3));
  shut_down = λ p ctx. none;
}

abbrev three : Telemetry ℕ ℕ ℕ
three = record {
  tracer_provider = some (record { signal = traces; resource = 0; pipelines = [] });
  meter_provider = none;
  logger_provider = some (record { signal = logs; resource = 0; pipelines = [] });
}

abbrev options : List (TelemetryOption ℕ)
options = with_service_name ℕ "shop" ∷ with_metric_exporter ℕ "otlp" ∷ []

register_exporter_adds_example : Listed "house" (registered_names ℕ (some with_house) metrics) ↔ (
    Listed "house" (registered_names ℕ (some empty) metrics)
    ⊎ ((metrics ≡ metrics) × (house_name ≡ house_name)))
unfolding register_exporter Registry.register registry_key lookup insert
register_exporter_adds_example =
    register_exporter_adds ℕ empty with_house 2 9 metrics "house" (some house) refl metrics "house"

unknown_resolution_example :
    (supported : List String) × Supported ℕ (some with_house) traces supported
    × (resolve ℕ sdk traces "house" background (some with_house)
        ≡ err (raw (unknown_exporter traces "house" supported)))
unfolding registered_names Registry.names goga.Sorting.sort_strings goga.Prelude.Dict.keys
unknown_resolution_example =
    unknown_resolution ℕ sdk (some with_house) traces "house" background (λ e. cc) (λ m. elim m [ ])
      (λ m. elim m [
        | inl e ↦ cc
        | inr (inl e) ↦ cc
        | inr (inr (inl e)) ↦ cc
        | inr (inr (inr n)) ↦ elim n [ ]
      ])

-- The constructor of the house exporter makes a nil one.
abbrev nil_sdk : Sdk ℕ
nil_sdk = record sdk { is_nil = λ x. eqb x 41 }

abbrev with_traces : Registry ℕ
with_traces = record empty {
  entries = ("telemetry.trace.house", record { port = 2; settings = 9; ctor = house }) ∷ [];
}

off_iff_example : (resolve ℕ nil_sdk traces house_name background (some with_traces) ≡ ok none) ↔ (
    ((house_name ≡ exporter_none)
      × ¬ Listed house_name (registered_names ℕ (some with_traces) traces))
    ⊎ ((traces ≢ metrics) × MadeNil ℕ nil_sdk (some with_traces) traces house_name))
off_iff_example = off_iff ℕ nil_sdk (some with_traces) traces house_name background (λ e. cc)

house_off : resolve ℕ nil_sdk traces house_name background (some with_traces) ≡ ok none
unfolding resolve_exporter open_from_registry registry_key contains Registry.names
    goga.Sorting.sort_strings goga.Prelude.Dict.keys Registry.open_port lookup Registry.entry_open
    Registry.decode_settings
house_off = refl

shutdown_complete_example :
    (so_far : Option Error) × ((shutdown ℕ ℕ ℕ answers background three).0
      ≡ opened background ∷ steps ℕ ℕ ℕ answers background three.logger_provider
        ++ steps ℕ ℕ ℕ answers background three.meter_provider
        ++ ended so_far ∷ steps ℕ ℕ ℕ answers background three.tracer_provider)
    × ((test : Failure → Bool)
        → found ℕ ℕ ℕ answers test so_far ≡ (
            step_found ℕ ℕ ℕ answers test background three.logger_provider
            || step_found ℕ ℕ ℕ answers test background three.meter_provider))
    × ((test : Failure → Bool)
        → found ℕ ℕ ℕ answers test (shutdown ℕ ℕ ℕ answers background three).1 ≡ (
            step_found ℕ ℕ ℕ answers test background three.logger_provider
            || step_found ℕ ℕ ℕ answers test background three.meter_provider
            || step_found ℕ ℕ ℕ answers test background three.tracer_provider))
shutdown_complete_example = shutdown_complete ℕ ℕ ℕ answers background three

setup-AllOrNone_example : AllOrNone ℕ ℕ ℕ sdk answers (setup ℕ ℕ ℕ sdk answers background options)
setup-AllOrNone_example = setup-AllOrNone ℕ ℕ ℕ sdk answers background options

-- The push reader stays behind the failed Prometheus reader.
setup_leaves_example :
    NoneLeft ℕ ℕ ℕ sdk answers (setup ℕ ℕ ℕ sdk answers background options).0
    ⊎ ((s : Settings ℕ) × (apply (defaults ℕ) options ≡ (s, none))
        × ((reader : ℕ) × Orphaned ℕ ℕ ℕ sdk answers s background reader
            × OneLeft ℕ ℕ ℕ sdk answers (setup ℕ ℕ ℕ sdk answers background options).0 reader))
unfolding setup with_service_name with_metric_exporter
setup_leaves_example =
    setup_leaves ℕ ℕ ℕ sdk answers background options
      (wrap "goga/telemetry: prometheus reader" (raw (foreign 1))) refl

left_behind :
    starts ℕ ℕ ℕ (setup ℕ ℕ ℕ sdk answers background options).0 ≡ (traces, 5) ∷ (metrics, 7) ∷ []
unfolding setup picked with_service_name with_metric_exporter
left_behind = refl

abbrev globals : Globals
globals = record { tracer_provider = none; meter_provider = none; logger_provider = none }

abbrev factory : Factory ℕ
factory = record {
  comparable = λ t. true;
  tracer = λ p. 1;
  logger = λ p name. 2;
  histogram = λ p. ok 3;
  counter = λ p. err (raw (foreign 2));
}

abbrev later : List (Step ℕ factory)
later =
    taken "serve"
    ∷ used "serve"
    ∷ tracer_set (some (record { dynamic_type = 1; value = 2 }))
    ∷ used "serve"
    ∷ []

handles_follow_example :
    uses ℕ factory (initial ℕ factory globals) later ≡ built_afresh ℕ factory globals later
handles_follow_example = handles_follow ℕ factory globals later

abbrev made : Resolved ℕ
made = record { providers = globals; tracer = 1; logger = 2; duration = some 3; errors = some 4 }

abbrev twice : List (Option Error × ℕ)
twice = (some (raw (foreign 5)), 30) ∷ (none, 40) ∷ []

abbrev type_of : Error → String
type_of e = "*errors.errorString"

closer_once_example :
    (end_all ℕ type_of (start ℕ "serve" made "Run" [] 10).0 twice
      ≡ end_all ℕ type_of (start ℕ "serve" made "Run" [] 10).0 ((some (raw (foreign 5)), 30) ∷ []))
    × (length
          (filter (is_end ℕ type_of) (end_all ℕ type_of (start ℕ "serve" made "Run" [] 10).0 twice))
        ≡ 1)
    × (length (
          filter
            (is_measure ℕ type_of)
            (end_all ℕ type_of (start ℕ "serve" made "Run" [] 10).0 twice))
        ≡ present ℕ type_of (some 3))
    × (length (
          filter
            (is_count ℕ type_of)
            (end_all ℕ type_of (start ℕ "serve" made "Run" [] 10).0 twice))
        ≡ failures ℕ type_of (some (raw (foreign 5))) (some 4))
closer_once_example =
    closer_once ℕ type_of "serve" made "Run" [] 10 (some (raw (foreign 5))) 30 ((none, 40) ∷ [])
