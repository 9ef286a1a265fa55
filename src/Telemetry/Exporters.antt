-- ===== src/Telemetry/Exporters.antt =====
-- telemetry/exporters.go: exporter names, resolved in the injected registry first. What the code calls
-- outside the repository is `Sdk`; exporters and readers are values of the registry's dynamic type.
use Prim.Native.String
use goga.Prelude.{
  String, Bool, true, false, Option, none, some, List, [], ◌∷◌, ◌++◌, ◌==◌, if◌then◌else◌,
}
use goga.Errors.{ok, err, raw, wrap, within, map_error, map_result, ◌>>=◌}
use goga.Strings.{cut_prefix}
use goga.Sorting.{sort_strings}
use goga.Context.{Context}
use goga.Registry
use goga.Registry.{Registry, GoType, Constructor}
use goga.Telemetry.Settings.{
  Signal, traces, metrics, logs, signal_name, Error, Result, unknown_exporter, unsupported_protocol,
  from_registry, register_in_nil, register_empty,
}

-- `registryKey`
unfoldable pub registry_key : Signal → String → String
registry_key signal name =
    String.◌++◌ "telemetry." (String.◌++◌ (signal_name signal) (String.◌++◌ "." name))

abbrev pub exporter_otlp : String
exporter_otlp = "otlp"

abbrev pub exporter_console : String
exporter_console = "console"

abbrev pub exporter_none : String
exporter_none = "none"

-- `standardExporters`
abbrev pub standard_exporters : List String
standard_exporters = exporter_otlp ∷ exporter_console ∷ exporter_none ∷ []

-- The loop of registeredNames
unfoldable pub stripped : String → List String → List String
stripped prefix [] = []
stripped prefix (key ∷ keys) =
    let rest = stripped prefix keys in
    elim (cut_prefix prefix key) [ none ↦ rest | some after ↦ after ∷ rest ]

-- slices.Compact
unfoldable pub compact : List String → List String
compact [] = []
compact (s ∷ []) = s ∷ []
compact (s ∷ t ∷ ss) = let rest = compact (t ∷ ss) in if s == t then rest else s ∷ rest

-- slices.Contains
unfoldable pub contains : List String → String → Bool
contains [] s = false
contains (t ∷ ts) s = let later = contains ts s in if t == s then true else later

-- The names of the environment variables
abbrev pub env_otlp_protocol : String
env_otlp_protocol = "OTEL_EXPORTER_OTLP_PROTOCOL"

abbrev pub env_signal_protocol : Signal → String
env_signal_protocol traces = "OTEL_EXPORTER_OTLP_TRACES_PROTOCOL"
env_signal_protocol metrics = "OTEL_EXPORTER_OTLP_METRICS_PROTOCOL"
env_signal_protocol logs = "OTEL_EXPORTER_OTLP_LOGS_PROTOCOL"

abbrev pub protocol_grpc : String
protocol_grpc = "grpc"

abbrev pub protocol_http : String
protocol_http = "http/protobuf"

-- `otlpProtocol`, given os.Getenv
unfoldable pub otlp_protocol : (String → String) → Signal → Result String
otlp_protocol getenv signal =
    let own = getenv (env_signal_protocol signal) in
    let general = if own == "" then getenv env_otlp_protocol else own in
    let proto = if general == "" then protocol_http else general in
    if proto == protocol_grpc
    then ok proto
    else if proto == protocol_http
    then ok proto
    else err (raw (unsupported_protocol proto))

module _ (Any : Type 0) where
  -- autoexport, the OTLP and stdout exporters, periodic readers, the Prometheus exporter and
  -- os.Getenv; the dynamic types of the three exporter interfaces.
  pub record Sdk : Type 0 where
    pub getenv : String → String
    pub autoexport : Signal → Context → Result Any
    pub is_none : Signal → Any → Bool
    -- Whether a value of an interface type is nil
    pub is_nil : Any → Bool
    pub otlp_grpc : Signal → Context → Result Any
    pub otlp_http : Signal → Context → Result Any
    pub stdout : Signal → Result Any
    pub periodic_reader : Any → Any
    pub prometheus : Result Any
    pub zero_value : GoType → Any
    pub exporter_type : Signal → GoType

  -- `registerExporter`, for the three exported helpers
  unfoldable pub register_exporter :
      GoType
      → Option (Registry Any)
      → Signal
      → String
      → GoType
      → Option (Constructor Any)
      → Option (Registry Any) × Option Error
  unfolding registry_key map_error
  register_exporter port none signal name settings ctor =
      (none, some (raw (register_in_nil signal name)))
  register_exporter port (some r) signal name settings ctor =
      let (r', failure) = Registry.register Any r (registry_key signal name) port settings ctor in
      if name == "" then (some r, some (raw (register_empty signal))) else elim failure [
        | none ↦ (some r', none)
        | some e ↦
            (some r', some (wrap "goga/telemetry: register exporter" (map_error from_registry e)))
      ]

  -- `registeredNames`
  unfoldable pub registered_names : Option (Registry Any) → Signal → List String
  unfolding stripped registry_key cut_prefix
  registered_names none signal = []
  registered_names (some r) signal = stripped (registry_key signal "") (Registry.names Any r)

  -- `unknownExporter`
  unfoldable pub unknown : Option (Registry Any) → Signal → String → Error
  unfolding registered_names compact
  unknown r signal name = raw (
      unknown_exporter signal name
        (compact (sort_strings (registered_names r signal ++ standard_exporters))))

  module _ (sdk : Sdk) where
    -- `openFromRegistry`; no result where the registry does not claim the name
    unfoldable pub open_from_registry :
        Option (Registry Any) → Signal → String → Option (Result Any)
    unfolding registry_key contains map_error
    open_from_registry none signal name = none
    open_from_registry (some r) signal name =
        let key = registry_key signal name in
        if contains (Registry.names Any r) key
        then some (
            within "goga/telemetry: exporter" (
              map_result from_registry
                (Registry.open_port Any sdk.zero_value r (sdk.exporter_type signal) key []).1))
        else none

    abbrev pub otlp : Signal → Context → Result Any
    otlp signal ctx = do
      proto ← otlp_protocol sdk.getenv signal
      if proto == protocol_grpc then sdk.otlp_grpc signal ctx else sdk.otlp_http signal ctx

    abbrev pub from_environment : Signal → Context → Result (Option Any)
    from_environment signal ctx = elim (sdk.autoexport signal ctx) [
      | err e ↦ err (wrap "goga/telemetry: exporter" e)
      | ok exp ↦ if sdk.is_none signal exp then ok none else ok (some exp)
    ]

    -- What a constructor of the registry made, which may be a nil interface
    abbrev pub unless_nil : Any → Option Any
    unless_nil exp = if sdk.is_nil exp then none else some exp

    -- `resolveSpanExporter` and `resolveLogExporter`, which differ in the signal only
    unfoldable pub resolve_exporter :
        Signal → String → Context → Option (Registry Any) → Result (Option Any)
    unfolding open_from_registry otlp_protocol unknown
    resolve_exporter signal name ctx exporters =
        if name == ""
        then from_environment signal ctx
        else elim (open_from_registry exporters signal name) [
          | some (ok exp) ↦ ok (unless_nil exp)
          | some (err e) ↦ err e
          | none ↦
              if name == exporter_otlp
              then (do exp ← otlp signal ctx; ok (some exp))
              else if name == exporter_console
              then (do exp ← sdk.stdout signal; ok (some exp))
              else if name == exporter_none
              then ok none
              else err (unknown exporters signal name)
        ]

    -- The switch of resolveMetricReader on OTLP, where only the exporter's own error is wrapped
    abbrev pub otlp_reader : Context → Result (Option Any)
    otlp_reader ctx = do
      proto ← otlp_protocol sdk.getenv metrics
      exp ←
          within "goga/telemetry: metric exporter" (
            if proto == protocol_grpc then sdk.otlp_grpc metrics ctx else sdk.otlp_http metrics ctx)
      ok (some (sdk.periodic_reader exp))

    -- `resolveMetricReader`; what the registry supplies, nil or not, is wrapped in a reader
    unfoldable pub resolve_metric_reader :
        String → Context → Option (Registry Any) → Result (Option Any)
    unfolding open_from_registry otlp_protocol unknown
    resolve_metric_reader name ctx exporters =
        if name == ""
        then from_environment metrics ctx
        else elim (open_from_registry exporters metrics name) [
          | some (ok exp) ↦ ok (some (sdk.periodic_reader exp))
          | some (err e) ↦ err e
          | none ↦
              if name == exporter_otlp
              then otlp_reader ctx
              else if name == exporter_console
              then (do
                exp ← within "goga/telemetry: metric exporter" (sdk.stdout metrics)
                ok (some (sdk.periodic_reader exp)))
              else if name == exporter_none
              then ok none
              else err (unknown exporters metrics name)
        ]

    -- The resolution of each signal
    abbrev pub resolve : Signal → String → Context → Option (Registry Any) → Result (Option Any)
    resolve traces name ctx exporters = resolve_exporter traces name ctx exporters
    resolve metrics name ctx exporters = resolve_metric_reader name ctx exporters
    resolve logs name ctx exporters = resolve_exporter logs name ctx exporters

    -- `newPrometheusReader`
    unfoldable pub new_prometheus_reader : Result Any
    new_prometheus_reader = within "goga/telemetry: prometheus reader" sdk.prometheus
