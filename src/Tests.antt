-- ===== src/Tests.antt =====
-- The theorems at concrete inputs.
mod RegistryRuns
mod GuardRuns
mod ConfigRuns
mod WatchRuns
mod ServeRuns
mod TxRuns
mod MigrateRuns
mod TelemetryRuns
mod McpRuns
mod OpenRuns
