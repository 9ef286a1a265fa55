-- ===== src/Migrate/Settings.antt =====
-- migrate/options.go, and the checks of New.
use goga.Prelude.{
  ℕ, ◌+◌, ◌/◌, ◌%◌, String, Bool, false, Option, none, some, List, ltb, eqb, ◌==◌, if◌then◌else◌,
}
use goga.Errors.{ok, err, raw, wrap}
use goga.Options.{Setter, apply}
use goga.Migrate.Engine.{
  Failure, Error, Result, nil_db, nil_fs, no_migration_source, nil_locker, single_connection,
  empty_dir, empty_table, empty_dialect, bad_lock_timeout,
}

-- The migrations: a file system that the caller passed, or os.DirFS of a path.
pub data MigrationSource : Type 0 where
  passed : ℕ → MigrationSource
  dir_fs : String → MigrationSource

-- A session locker: the caller's, or goose's with its retry budget.
pub data Locker : Type 0 where
  callers : ℕ → Locker
  -- The period in seconds, and the number of tries.
  postgres : ℕ → ℕ → Locker

-- `settings`, less the telemetry handle. Durations are in nanoseconds.
pub record Settings : Type 0 where
  pub fsys : Option MigrationSource
  pub table : String
  pub dialect : String
  pub allow_missing : Bool
  pub lock_timeout : ℕ
  pub locker : Option Locker

abbrev pub second : ℕ
second = 1000000000

abbrev pub default_lock_timeout : ℕ
default_lock_timeout = 30000000000

abbrev pub lock_retry_period_seconds : ℕ
lock_retry_period_seconds = 1

abbrev pub defaults : Settings
defaults = record {
  fsys = none;
  table = "goga_db_version";
  dialect = "postgres";
  allow_missing = false;
  lock_timeout = default_lock_timeout;
  locker = none;
}

abbrev pub MigrateOption : Type 0
MigrateOption = Setter Failure Settings

unfoldable pub with_fs : Option ℕ → MigrateOption
with_fs none s = (s, some (raw nil_fs))
with_fs (some fsys) s = (record s { fsys = some (passed fsys) }, none)

unfoldable pub with_dir : String → MigrateOption
with_dir dir s =
    if dir == "" then (s, some (raw empty_dir)) else (record s { fsys = some (dir_fs dir) }, none)

unfoldable pub with_table : String → MigrateOption
with_table name s =
    if name == "" then (s, some (raw empty_table)) else (record s { table = name }, none)

unfoldable pub with_dialect : String → MigrateOption
with_dialect d s =
    if d == "" then (s, some (raw empty_dialect)) else (record s { dialect = d }, none)

unfoldable pub with_allow_missing : Bool → MigrateOption
with_allow_missing on s = (record s { allow_missing = on }, none)

-- A negative duration, which is refused like 0, is read as 0.
unfoldable pub with_lock_timeout : ℕ → MigrateOption
with_lock_timeout d s =
    if ltb 0 d then (record s { lock_timeout = d }, none) else (s, some (raw bad_lock_timeout))

unfoldable pub with_session_locker : Option Locker → MigrateOption
with_session_locker none s = (s, some (raw nil_locker))
with_session_locker (some l) s = (record s { locker = some l }, none)

-- The number of tries of `newLocker`.
unfoldable pub retries : ℕ → ℕ
retries timeout =
    let whole = timeout / second in
    let up = if eqb (timeout % second) 0 then whole else whole + 1 in if ltb up 1 then 1 else up

-- lock.NewPostgresSessionLocker either answers or refuses its budget.
module _ (postgres_locker : ℕ → ℕ → Option Error) where
  unfoldable pub new_locker : Settings → Result Locker
  unfolding retries
  new_locker s = elim s.locker [
    | some l ↦ ok l
    | none ↦
        let tries = retries s.lock_timeout in
        elim (postgres_locker lock_retry_period_seconds tries) [
          | none ↦ ok (postgres lock_retry_period_seconds tries)
          | some e ↦ err (wrap "goga/migrate: building the advisory locker" e)
        ]
  ]

  -- New up to goose.NewProvider: the settings and the locker, given the pool's limit (0 for none) if
  -- there is a pool.
  unfoldable pub prepare : Option ℕ → List MigrateOption → Result (Settings × Locker)
  unfolding new_locker
  prepare pool opts =
      let (set, failure) = apply defaults opts in
      elim failure [
        | some e ↦ err (wrap "goga/migrate: new" e)
        | none ↦ elim pool [
          | none ↦ err (raw nil_db)
          | some max_open ↦ elim set.fsys [
            | none ↦ err (raw no_migration_source)
            | some fsys ↦
                if eqb max_open 1
                then err (raw single_connection)
                else elim (new_locker set) [ ok l ↦ ok (set, l) | err e ↦ err e ]
          ]
        ]
      ]
