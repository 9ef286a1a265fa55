-- ===== src/Database/SqlOpen.antt =====
-- database/options.go and the opening of database/database.go. Numbers that are not positive are read
-- as 0. What pgx, otelsql and database/sql answer is `Library`.
use goga.Prelude.{
  ℕ, String, Bool, false, Option, none, some, List, [], ◌∷◌, ◌++◌, ltb, if◌then◌else◌,
}
use goga.Errors
use goga.Errors.{ok, err, raw, wrap}
use goga.Options.{Setter, apply}

pub data Failure : Type 0 where
  bad_max_open_conns bad_max_idle_conns bad_conn_max_lifetime : Failure
  nil_telemetry driver_not_wrapped : Failure
  foreign : ℕ → Failure

abbrev pub Error : Type 0
Error = Errors.Error Failure

abbrev pub Result : Type 0 → Type 0
Result A = Errors.Result Failure A

pub record Settings : Type 0 where
  pub max_open_conns : ℕ
  pub max_idle_conns : ℕ
  pub conn_max_lifetime : ℕ
  pub sql_commenter : Bool
  pub instr : String

-- 10 connections, all of which may be idle, for an hour
abbrev pub defaults : Settings
defaults = record {
  max_open_conns = 10;
  max_idle_conns = 10;
  conn_max_lifetime = 3600000000000;
  sql_commenter = false;
  instr = "database";
}

abbrev pub OpenOption : Type 0
OpenOption = Setter Failure Settings

unfoldable pub with_max_open_conns : ℕ → OpenOption
with_max_open_conns n s =
    if ltb 0 n then (record s { max_open_conns = n }, none) else (s, some (raw bad_max_open_conns))

unfoldable pub with_max_idle_conns : ℕ → OpenOption
with_max_idle_conns n s =
    if ltb 0 n then (record s { max_idle_conns = n }, none) else (s, some (raw bad_max_idle_conns))

unfoldable pub with_conn_max_lifetime : ℕ → OpenOption
with_conn_max_lifetime d s =
    if ltb 0 d
    then (record s { conn_max_lifetime = d }, none)
    else (s, some (raw bad_conn_max_lifetime))

unfoldable pub with_sql_commenter : Bool → OpenOption
with_sql_commenter on s = (record s { sql_commenter = on }, none)

unfoldable pub with_telemetry : Option String → OpenOption
with_telemetry none s = (s, some (raw nil_telemetry))
with_telemetry (some i) s = (record s { instr = i }, none)

-- A *sql.DB: the connector that it is over, and the bounds of its pool
pub record Handle : Type 0 where
  pub connector : ℕ
  pub max_open_conns : ℕ
  pub max_idle_conns : ℕ
  pub conn_max_lifetime : ℕ

pub data Act : Type 0 where
  -- The span of Open, for the handle that instruments
  opened : String → Act
  ended : Option Error → Act
  -- otel.Handle
  handled : Error → Act
  -- The end of a handle, and of the registration of its statistics
  closed : Handle → Act
  unregistered : ℕ → Act

pub record Library : Type 0 where
  pub parse_config : String → Option Error
  -- otelsql.WrapDriver of the pgx driver, for the comment option: whether what it returns is a
  -- DriverContext
  pub wrapped_context : Bool → Bool
  -- OpenConnector of the wrapped driver
  pub open_connector : Bool → String → Result ℕ
  pub register_stats : Handle → Result ℕ
  pub unregister : ℕ → Option Error
  pub close : Handle → Option Error

-- What open returns beside the error: the registration is nil where it failed.
abbrev pub Opened : Type 0
Opened = Handle × Option ℕ

module _ (lib : Library) where
  -- The parsing, the wrapping and the connector
  unfoldable pub connect : Settings → String → Result ℕ
  connect set dsn = elim (lib.parse_config dsn) [
    | some e ↦ err (wrap "goga/database: open: parsing dsn" e)
    | none ↦
        if lib.wrapped_context set.sql_commenter
        then elim (lib.open_connector set.sql_commenter dsn) [
          | ok connector ↦ ok connector
          | err e ↦ err (wrap "goga/database: open" e)
        ]
        else err (raw driver_not_wrapped)
  ]

  -- The handle, its bounds and its statistics
  unfoldable pub open_db : Settings → ℕ → List Act × Opened
  open_db set connector =
      let db : Handle = record {
        connector = connector;
        max_open_conns = set.max_open_conns;
        max_idle_conns = set.max_idle_conns;
        conn_max_lifetime = set.conn_max_lifetime;
      } in
      elim (lib.register_stats db) [
        | ok registration ↦ ([], (db, some registration))
        | err e ↦
            (handled (wrap "goga/database: open: registering pool statistics" e) ∷ [], (db, none))
      ]

  -- `open`
  unfoldable pub open_dsn : String → List OpenOption → List Act × Result Opened
  unfolding apply connect open_db
  open_dsn dsn opts =
      let (set, failure) = apply defaults opts in
      elim failure [
        | some e ↦ ([], err (wrap "goga/database: open" e))
        | none ↦ elim (connect set dsn) [
          | err e ↦ (opened set.instr ∷ ended (some e) ∷ [], err e)
          | ok connector ↦
              let (reported, db) = open_db set connector in
              (opened set.instr ∷ reported ++ ended none ∷ [], ok db)
        ]
      ]

  -- otel.Handle of an error that is not nil
  abbrev pub report : Option Error → List Act
  report none = []
  report (some e) = handled e ∷ []

  -- The function that `openWithCleanup` returns beside the handle
  unfoldable pub cleanup : Opened → List Act
  cleanup (db, none) = closed db ∷ report (lib.close db)
  cleanup (db, some registration) =
      unregistered registration ∷ report (lib.unregister registration)
      ++ closed db ∷ report (lib.close db)

  -- `openWithCleanup`: the handle, and what a call of its cleanup does
  unfoldable pub open_with_cleanup :
      String → List OpenOption → List Act × Result (Handle × List Act)
  unfolding open_dsn cleanup
  open_with_cleanup dsn opts =
      let (acts, result) = open_dsn dsn opts in
      elim result [ err e ↦ (acts, err e) | ok o ↦ (acts, ok (o.0, cleanup o)) ]
