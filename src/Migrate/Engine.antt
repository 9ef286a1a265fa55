-- ===== src/Migrate/Engine.antt =====
-- What migrate/ calls outside the repository (goose's provider and the session locker, and the
-- connection that database/sql hands out), its errors, and the trace of what a call did.
use goga.Prelude.{ℕ, String, Bool, true, false, Option, List, [], ◌∷◌, ◌++◌}
use goga.Errors
use goga.Context.{Context}

pub data Failure : Type 0 where
  nil_db nil_fs no_migration_source nil_locker single_connection : Failure
  empty_dir empty_table empty_dialect bad_lock_timeout bad_version : Failure
  -- How many migrations are pending, and the version and file of the oldest.
  still_pending : ℕ → ℕ → String → Failure
  -- A pending migration, its file, and the newer version that is applied.
  older_than_applied : ℕ → String → ℕ → Failure
  -- goose.ErrNoNextVersion, driver.ErrBadConn, sql.ErrConnDone
  no_next_version bad_conn conn_done : Failure
  foreign : ℕ → Failure

abbrev pub Error : Type 0
Error = Errors.Error Failure

abbrev pub Result : Type 0 → Type 0
Result A = Errors.Result Failure A

unfoldable pub is_bad_conn : Failure → Bool
is_bad_conn bad_conn = true
is_bad_conn _ = false

unfoldable pub is_conn_done : Failure → Bool
is_conn_done conn_done = true
is_conn_done _ = false

-- *goose.Source; goose.MigrationStatus and goose.MigrationResult, which hold one that may be nil
pub record Origin : Type 0 where
  pub version : ℕ
  pub path : String

pub record GooseStatus : Type 0 where
  pub source : Option Origin
  pub is_pending : Bool
  pub applied_at : ℕ

pub record GooseResult : Type 0 where
  pub source : Option Origin
  pub direction : String
  pub duration : ℕ
  pub empty : Bool

pub record Engine : Type 1 where
  pub Db : Type 0
  -- db.Conn, conn.Close, conn.Raw(discardConn)
  pub conn : Context → Db → Option Error
  pub close : Db → Option Error
  pub raw_discard : Db → Option Error
  -- SessionLock, SessionUnlock
  pub session_lock : Context → Db → Db × Option Error
  pub session_unlock : Context → Db → Db × Option Error
  -- The provider's Status, GetDBVersion, ApplyVersion and ListSources
  pub status : Db → Result (List (Option GooseStatus))
  pub get_db_version : Db → Result ℕ
  pub apply_version : Db → ℕ → Bool → Db × Result (Option GooseResult)
  pub list_sources : List Origin

-- One call that the code made, or one error that it gave to otel.Handle.
pub data Event : Type 0 where
  conn_opened lock_taken lock_released unlock_failed conn_discarded conn_closed : Event
  reported : Error → Event
  -- ApplyVersion was called, and what it answered: true for success.
  apply_called : ℕ → Bool → Bool → Event

pub record World (Db : Type 0) : Type 0 where
  pub db : Db
  pub trace : List Event

abbrev pub note : {Db : Type 0} → Event → World Db → World Db
note e w = record w { trace = w.trace ++ e ∷ [] }
