-- ===== src/Telemetry.antt =====
-- telemetry/: the set-up of OpenTelemetry, its exporters, its shutdown, and the handle that every other
-- package instruments itself with.
pub mod Settings
pub mod Exporters
pub mod Names
pub mod Supported
pub mod Resolution
pub mod Setup
pub mod Providers
pub mod Shutdown
pub mod Instrumentation
