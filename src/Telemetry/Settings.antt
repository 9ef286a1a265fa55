-- ===== src/Telemetry/Settings.antt =====
-- The settings and options of telemetry/telemetry.go, and the errors of the package. Durations are
-- nanoseconds; one that is not positive is read as 0.
use goga.Prelude.{
  ℕ, String, Bool, true, false, Option, none, some, List, [], ◌∷◌, ◌++◌, ltb, ◌==◌, if◌then◌else◌,
}
use goga.Errors
use goga.Errors.{raw}
use goga.Options.{Setter}
use goga.Registry
use goga.Registry.{Registry}
use goga.Semconv.{KeyValue}

pub data Signal : Type 0 where
  traces metrics logs : Signal

-- signalTrace, signalMetric, signalLog
abbrev pub signal_name : Signal → String
signal_name traces = "trace"
signal_name metrics = "metric"
signal_name logs = "log"

pub data Failure : Type 0 where
  empty_service_name empty_service_version bad_shutdown_timeout : Failure
  no_propagators empty_propagator nil_registry : Failure
  invalid_attribute : String → Failure
  -- An option without an exporter's name; a registration in no registry, and one without a name
  empty_exporter : Signal → Failure
  register_in_nil : Signal → String → Failure
  register_empty : Signal → Failure
  -- The signal, the name that was asked for, and the names that would have worked.
  unknown_exporter : Signal → String → List String → Failure
  unsupported_protocol : String → Failure
  from_registry : Registry.Failure → Failure
  foreign : ℕ → Failure

-- errors.Is(err, ErrUnknownExporter)
unfoldable pub is_unknown_exporter : Failure → Bool
is_unknown_exporter (unknown_exporter signal name supported) = true
is_unknown_exporter _ = false

abbrev pub Error : Type 0
Error = Errors.Error Failure

abbrev pub Result : Type 0 → Type 0
Result A = Errors.Result Failure A

-- attribute.KeyValue with what its method Valid answers
pub record Attribute : Type 0 where
  pub kv : KeyValue
  pub valid : Bool

module _ (Any : Type 0) where
  pub record Settings : Type 0 where
    pub service_name : String
    pub service_version : String
    pub resource_attrs : List KeyValue
    pub trace_exporter : String
    pub metric_exporter : String
    pub log_exporter : String
    pub prometheus : Bool
    pub propagators : List String
    pub shutdown_timeout : ℕ
    pub exporters : Option (Registry Any)

  -- `defaultShutdownTimeout`, 5 s
  abbrev pub default_shutdown_timeout : ℕ
  default_shutdown_timeout = 5000000000

  abbrev pub defaults : Settings
  defaults = record {
    service_name = "";
    service_version = "";
    resource_attrs = [];
    trace_exporter = "";
    metric_exporter = "";
    log_exporter = "";
    prometheus = true;
    propagators = [];
    shutdown_timeout = default_shutdown_timeout;
    exporters = none;
  }

  abbrev pub TelemetryOption : Type 0
  TelemetryOption = Setter Failure Settings

  unfoldable pub with_service_name : String → TelemetryOption
  with_service_name name s =
      if name == ""
      then (s, some (raw empty_service_name))
      else (record s { service_name = name }, none)

  unfoldable pub with_service_version : String → TelemetryOption
  with_service_version version s =
      if version == ""
      then (s, some (raw empty_service_version))
      else (record s { service_version = version }, none)

  -- The loop of WithResourceAttributes: the key of the first attribute that is not valid.
  unfoldable pub first_invalid : List Attribute → Option String
  first_invalid [] = none
  first_invalid (a ∷ kv) = let later = first_invalid kv in if a.valid then later else some a.kv.key

  unfoldable pub key_values : List Attribute → List KeyValue
  key_values [] = []
  key_values (a ∷ kv) = a.kv ∷ key_values kv

  unfoldable pub with_resource_attributes : List Attribute → TelemetryOption
  unfolding first_invalid key_values
  with_resource_attributes kv s = elim (first_invalid kv) [
    | some key ↦ (s, some (raw (invalid_attribute key)))
    | none ↦ (record s { resource_attrs = s.resource_attrs ++ key_values kv }, none)
  ]

  unfoldable pub with_trace_exporter : String → TelemetryOption
  with_trace_exporter name s =
      if name == ""
      then (s, some (raw (empty_exporter traces)))
      else (record s { trace_exporter = name }, none)

  unfoldable pub with_metric_exporter : String → TelemetryOption
  with_metric_exporter name s =
      if name == ""
      then (s, some (raw (empty_exporter metrics)))
      else (record s { metric_exporter = name }, none)

  unfoldable pub with_log_exporter : String → TelemetryOption
  with_log_exporter name s =
      if name == ""
      then (s, some (raw (empty_exporter logs)))
      else (record s { log_exporter = name }, none)

  unfoldable pub with_prometheus : Bool → TelemetryOption
  with_prometheus enabled s = (record s { prometheus = enabled }, none)

  unfoldable pub with_shutdown_timeout : ℕ → TelemetryOption
  with_shutdown_timeout d s =
      if ltb 0 d
      then (record s { shutdown_timeout = d }, none)
      else (s, some (raw bad_shutdown_timeout))

  -- The loop of WithPropagators
  unfoldable pub has_empty : List String → Bool
  has_empty [] = false
  has_empty (n ∷ names) = let later = has_empty names in if n == "" then true else later

  unfoldable pub with_propagators : List String → TelemetryOption
  unfolding has_empty
  with_propagators [] s = (s, some (raw no_propagators))
  with_propagators (n ∷ names) s =
      if has_empty (n ∷ names)
      then (s, some (raw empty_propagator))
      else (record s { propagators = s.propagators ++ n ∷ names }, none)

  unfoldable pub with_exporter_registry : Option (Registry Any) → TelemetryOption
  with_exporter_registry none s = (s, some (raw nil_registry))
  with_exporter_registry (some r) s = (record s { exporters = some r }, none)
