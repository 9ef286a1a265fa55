-- ===== src/Migrate/Migrator.antt =====
-- The Migrator of migrate/migrate.go. Each call takes the world and gives the new one: the database,
-- and the trace of what was done to the connection, the lock and the migrations. New's provider and
-- the spans are left out.
use goga.Prelude.{
  ℕ, zero, suc, String, Bool, true, false, Option, none, some, List, [], ◌∷◌, length, ltb, eqb,
  if◌then◌else◌, filter, map,
}
use goga.Errors.{ok, err, raw, wrap, is}
use goga.Context.{Context, with_timeout, without_cancel}
use goga.Migrate.Engine.{
  Failure, Error, Result, Engine, World, note, Origin, GooseStatus, GooseResult, is_bad_conn,
  is_conn_done, conn_opened, lock_taken, lock_released, unlock_failed, conn_discarded, conn_closed,
  reported, apply_called, still_pending, older_than_applied, no_next_version, bad_version,
}

pub record Applied : Type 0 where
  pub version : ℕ
  pub source : String
  pub direction : String
  pub duration : ℕ
  pub empty : Bool

pub record Status : Type 0 where
  pub version : ℕ
  pub source : String
  pub pending : Bool
  pub applied_at : ℕ

abbrev no_applied : Applied
no_applied = record { version = 0; source = ""; direction = ""; duration = 0; empty = false }

abbrev version_of : Option Origin → ℕ
version_of none = 0
version_of (some o) = o.version

abbrev path_of : Option Origin → String
path_of none = ""
path_of (some o) = o.path

unfoldable pub applied_from : Option GooseResult → Applied
applied_from none = no_applied
applied_from (some r) = record {
  version = version_of r.source;
  source = path_of r.source;
  direction = r.direction;
  duration = r.duration;
  empty = r.empty;
}

unfoldable pub status_from : Option GooseStatus → Status
status_from none = record { version = 0; source = ""; pending = false; applied_at = 0 }
status_from (some s) = record {
  version = version_of s.source;
  source = path_of s.source;
  pending = s.is_pending;
  applied_at = s.applied_at;
}

-- `Migrator`, less its handles
pub record Migrator : Type 0 where
  pub lock_timeout : ℕ
  pub allow_missing : Bool

module _ (engine : Engine) where
  open engine use {Db}

  -- An error that the code hands to otel.Handle unless it is of the kind that it expects.
  abbrev pub report : (Failure → Bool) → String → Option Error → World Db → World Db
  report expected message none w = w
  report expected message (some e) w =
      if is expected e then w else note (reported (wrap message e)) w

  unfoldable pub close_conn : World Db → World Db
  unfolding is
  close_conn w =
      report is_conn_done "goga/migrate: closing the lock connection" (engine.close w.db)
        (note conn_closed w)

  unfoldable pub lock : Migrator → Context → World Db → World Db × Option Error
  lock m ctx w = elim (engine.conn ctx w.db) [
    | some e ↦ (w, some (wrap "goga/migrate: acquiring lock" e))
    | none ↦
        let w1 = note conn_opened w in
        let (db, failure) = engine.session_lock (with_timeout m.lock_timeout ctx) w1.db in
        elim failure [
          | none ↦ (note lock_taken (record w1 { db = db }), none)
          | some e ↦
              (close_conn (record w1 { db = db }), some (wrap "goga/migrate: acquiring lock" e))
        ]
  ]

  unfoldable pub release : Migrator → Context → World Db → World Db
  release m ctx w =
      let (db, failure) =
        engine.session_unlock (with_timeout m.lock_timeout (without_cancel ctx)) w.db in
      elim failure [
        | none ↦ close_conn (note lock_released (record w { db = db }))
        | some e ↦
            let w1 =
              note (reported (wrap "goga/migrate: releasing the advisory lock" e))
                (note unlock_failed (record w { db = db })) in
            close_conn (
              report is_bad_conn "goga/migrate: discarding the lock connection"
                (engine.raw_discard db) (note conn_discarded w1))
      ]

  unfoldable pub status : Db → Result (List Status)
  status db = elim (engine.status db) [
    | err e ↦ err (wrap "goga/migrate: status" e)
    | ok statuses ↦ ok (map status_from statuses)
  ]

  unfoldable pub pending : Db → Result (List Status)
  pending db = elim (status db) [ err e ↦ err e | ok all ↦ ok (filter (λ s. s.pending) all) ]

  unfoldable pub ready : Db → Option Error
  ready db = elim (pending db) [
    | err e ↦ some (wrap "goga/migrate: ready" e)
    | ok [] ↦ none
    | ok (oldest ∷ rest) ↦
        some (raw (still_pending (length (oldest ∷ rest)) oldest.version oldest.source))
  ]

  -- `sourceOf` over ListSources
  unfoldable pub source_of : List Origin → ℕ → String
  source_of [] version = ""
  source_of (o ∷ rest) version = if eqb o.version version then o.path else source_of rest version

  unfoldable pub apply : World Db → ℕ → String → Bool → World Db × Result Applied
  apply w version source up =
      let (db, answer) = engine.apply_version w.db version up in
      elim answer [
        | err e ↦ (
          note (apply_called version up false) (record w { db = db }),
          err (wrap "goga/migrate: migration" e),
        )
        | ok res ↦
            (note (apply_called version up true) (record w { db = db }), ok (applied_from res))
      ]

  -- The first pending migration that is older than `current`.
  unfoldable pub first_older : ℕ → List Status → Option Status
  first_older current [] = none
  first_older current (s ∷ rest) =
      let later = first_older current rest in if ltb s.version current then some s else later

  unfoldable pub check_for_missing : Migrator → Db → List Status → Option Error
  check_for_missing m db [] = none
  check_for_missing m db (s ∷ rest) =
      if m.allow_missing then none else elim (engine.get_db_version db) [
        | err e ↦ some (wrap "goga/migrate: reading the current version" e)
        | ok current ↦ elim (first_older current (s ∷ rest)) [
          | none ↦ none
          | some old ↦ some (raw (older_than_applied old.version old.source current))
        ]
      ]

  -- The loop of `run`: what was applied, and the error that ended it.
  unfoldable pub apply_pending : ℕ → List Status → World Db → World Db × List Applied × Option Error
  apply_pending target [] w = (w, [], none)
  apply_pending target (src ∷ rest) w =
      let (w1, answer) = apply w src.version src.source true in
      let after = apply_pending target rest w1 in
      if ltb target src.version
      then (w, [], none)
      else elim answer [ err e ↦ (w1, [], some e) | ok res ↦ (after.0, res ∷ after.1, after.2) ]

  -- `run` between the lock and the release
  unfoldable pub run_locked : Migrator → ℕ → World Db → World Db × List Applied × Option Error
  run_locked m target w = elim (pending w.db) [
    | err e ↦ (w, [], some e)
    | ok todo ↦ elim (check_for_missing m w.db todo) [
      | some e ↦ (w, [], some e)
      | none ↦ apply_pending target todo w
    ]
  ]

  unfoldable pub run : Migrator → Context → ℕ → World Db → World Db × List Applied × Option Error
  run m ctx target w =
      let (w1, failure) = lock m ctx w in
      elim failure [
        | some e ↦ (w1, [], some e)
        | none ↦ let done = run_locked m target w1 in (release m ctx done.0, done.1, done.2)
      ]

  -- math.MaxInt64
  abbrev pub max_int64 : ℕ
  max_int64 = 9223372036854775807

  unfoldable pub up : Migrator → Context → World Db → World Db × List Applied × Option Error
  up m ctx w = run m ctx max_int64 w

  -- A version that is not positive is read as 0.
  unfoldable pub up_to : Migrator → Context → ℕ → World Db → World Db × List Applied × Option Error
  up_to m ctx version w =
      if ltb version 1 then (w, [], some (raw bad_version)) else run m ctx version w

  -- `Down` between the lock and the release
  unfoldable pub down_locked : World Db → World Db × Result Applied
  down_locked w = elim (engine.get_db_version w.db) [
    | err e ↦ (w, err (wrap "goga/migrate: down" e))
    | ok zero ↦ (w, err (wrap "goga/migrate: down" (raw no_next_version)))
    | ok (suc v) ↦ apply w (suc v) (source_of engine.list_sources (suc v)) false
  ]

  unfoldable pub down : Migrator → Context → World Db → World Db × Result Applied
  down m ctx w =
      let (w1, failure) = lock m ctx w in
      elim failure [
        | some e ↦ (w1, err e)
        | none ↦ let (w2, answer) = down_locked w1 in (release m ctx w2, answer)
      ]
