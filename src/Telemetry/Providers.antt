-- ===== src/Telemetry/Providers.antt =====
-- telemetry/telemetry.go: the providers that Setup builds, and what it and Shutdown do to them, as
-- a list of acts beside a result. What the code calls of the OpenTelemetry SDK is `Answers`.
use goga.Prelude.{String, Option, List}
use goga.Semconv.{KeyValue}
use goga.Context.{Context}
use goga.Telemetry.Settings.{Signal, Error, Result}

module _ (Any Resource Propagator : Type 0) where
  -- A provider of one signal with its resource and the exporters and readers it was given
  pub record Provider : Type 0 where
    pub signal : Signal
    pub resource : Resource
    pub pipelines : List Any

  -- `Telemetry`; the three handles derive from the providers, any of which a caller may leave nil.
  pub record Telemetry : Type 0 where
    pub tracer_provider : Option Provider
    pub meter_provider : Option Provider
    pub logger_provider : Option Provider

  pub data Act : Type 0 where
    -- An exporter or reader of a signal is running.
    started : Signal → Any → Act
    built : Provider → Act
    flushed stopped : Provider → Context → Act
    -- otel.SetTracerProvider, otel.SetMeterProvider and global.SetLoggerProvider, by the signal
    installed : Provider → Act
    installed_propagator : Propagator → Act
    -- slog.SetDefault with a logger on the provider
    installed_logger : Provider → Act
    -- The span of Shutdown
    opened : Context → Act
    ended : Option Error → Act
    -- otel.Handle
    handled : Error → Act

  pub record Answers : Type 0 where
    -- resource.Merge of the default resource and a schemaless one
    pub merge_resource : List KeyValue → Result Resource
    pub env_propagator : Propagator
    pub named_propagator : List String → Result Propagator
    pub force_flush : Provider → Context → Option Error
    pub shut_down : Provider → Context → Option Error
