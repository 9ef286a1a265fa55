-- ===== src/Lib.antt =====
-- goga: functional options, an adapter registry, configuration, transactions, migrations, an HTTP
-- server, telemetry and a server of the Model Context Protocol.
--
-- The program is a library of Go packages. Each takes its settings through the functional options of
-- goga.go, reports errors as values that errors.Is searches, and calls one third-party library that
-- does the work: koanf (config/), database/sql and pgx (database/), goose (migrate/), net/http (serve/),
-- OpenTelemetry (telemetry/), the MCP SDK (mcp/).
-- Here each of those libraries is a record of operations, a parameter of the package's functions; what
-- a theorem relies on of it is a record of laws among the theorem's hypotheses.
--
-- Shared modules
--   Prelude, with Tests, Lists, Dict, Texts: Boolean tests on the native numbers, lists, Go maps as
--     association lists, the order of strings.
--   Errors: fmt.Errorf with %w, errors.Join and errors.Is; results. Strings, Sorting: what the code
--     uses of strings, path and sort; strings.ToLower is on ASCII letters only.
--   Context: a context as far as it is derived: cancelled or not, and the time left.
--
-- Components
--   Options: goga.go (Option is Setter, Apply is apply).
--   Registry, with Names, Opening, Handles: registry/registry.go. Go's type parameters are erased; the
--     reflect.Type values that the code compares are numbers.
--   Config.Keys: parentPaths of config/config.go. Config.Guard, with Laws, Verdict, Accepts: keyGuard.
--     Config.Failure: config/errors.go. Config.Library: koanf with its providers, parsers and pflag.
--     Config.Settings: config/options.go. Config.Load, with Precedence, Outcomes, Order: build, decode,
--     Load and reload of config/config.go. Config.Watch, with Rounds and Paths: config/watch.go, whose
--     loop is a step relation; the time that a timer takes is not counted.
--   Database.SqlTx, Database.PgxTx: database/tx.go and database/pgxdb/tx.go; Database.Failure what they
--     share; Database.TxLaws and Database.TxAgree the proofs. Database.SqlOpen, with Handles:
--     database/options.go and the opening of database/database.go. Database.PgxOpen, with Opened:
--     database/pgxdb/options.go and pgxdb.go.
--   Migrate.Settings: migrate/options.go and the checks of New. Migrate.Migrator: migrate/migrate.go,
--     with a trace of what is done to the connection, the lock and the migrations; Migrate.Engine is
--     goose and the connection. Migrate.Locking, Migrate.Runs: the proofs.
--   Serve.Settings: serve/options.go. Serve.Ops: serve/ops.go. Serve.Server: serve/serve.go, where Run is a
--     relation, since a listener or the context may end first. Serve.Options, Serve.Probes,
--     Serve.Listening, Serve.Construction, Serve.Running: the proofs. The choice of net/http's ServeMux is
--     Serve.Ops.matched on a cleaned path; the cleaning of paths is a parameter.
--   Semconv: semconv/semconv.go.
--   Telemetry.Settings: the options of telemetry/telemetry.go. Telemetry.Exporters: exporters.go, with
--     Names, Supported and Resolution the proofs. Telemetry.Providers, Telemetry.Setup (with Trace, Steps, Atomic,
--     Idle, Stopped, Leftover), Telemetry.Shutdown: Setup, Shutdown and the cleanup, as traces of what is started,
--     built, stopped and installed. Telemetry.Instrumentation, with Cache and Ending:
--     instrumentation.go, the handle of a module and the closer that Start returns.
--   Mcp.Settings, Mcp.Details: the options of mcp/. Mcp.Server, with Resolving: mcp.go and transport.go.
--     Mcp.Handlers, with Contained and Textual: the handlers that AddTool, AddResource and AddPrompt
--     register, where a panic of the project's function is a value. Mcp.Meta: trace.go. Mcp.Client:
--     client.go. Mcp.Transports, with Serving: httptransport/ and ssetransport/. Mcp.Bounds: the
--     deadlines of tools.
--   Tests: concrete libraries, and the theorems at concrete inputs.
--
-- Packages meet in Options and Errors; the exporters of telemetry/ and the transports of mcp/ stand in
-- the Registry, and the two listening transports run on Serve. Inside config/, Load runs the sources of the settings
-- through the guard and koanf, and the watcher's callbacks are reloads, which run the same build again.
--
-- Bounds: durations are natural numbers of nanoseconds, where an option that refuses what is not
-- positive refuses 0; versions are natural numbers, and UpTo refuses 0. No function takes fuel: every
-- loop runs over a list, but for those of parentPaths and applyMiddleware, which count down the rounds
-- that are left: one less than the number of segments, and the number of handlers.
--
-- Not modelled: the spans and metrics that the other packages record, but for the errors that the
-- spans of Tx and of mcp/ are closed with; locking, since each operation of the registry and of a handle
-- is one step; texts of errors, but for the prefixes that the code adds; the construction of goose's
-- provider; the reflection of promptArguments in mcp/; the lint/ package,
-- serve's in-tree listener and As, and the goroutine that runs the watcher beside its owner.
pub mod Prelude
pub mod Errors
pub mod Strings
pub mod Sorting
pub mod Context
pub mod Options
pub mod Registry
pub mod Config
pub mod Database
pub mod Migrate
pub mod Serve
pub mod Semconv
pub mod Telemetry
pub mod Mcp
pub mod Tests
