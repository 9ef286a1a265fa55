-- ===== src/Tests/MigrateRuns.antt =====
-- migrate/ on a database that holds the list of the applied versions, newest first.
use goga.Prelude.{
  ℕ, ◌+◌, ◌*◌, ◌≤◌, ◌<◌, ◌≡◌, refl, ◌⊎◌, inl, Bool, true, false, Option, none, some, List, [], ◌∷◌,
  Listed, eqb, map, arith, if◌then◌else◌,
}
use goga.Errors.{ok, err, raw}
use goga.Context.{Context}
use goga.Migrate.Engine.{Engine, World, GooseStatus, foreign, older_than_applied}
use goga.Migrate.Settings.{retries, second}
use goga.Migrate.Migrator.{
  Migrator, Status, run_locked, pending, status, ready, check_for_missing, up, up_to, down,
  status_from,
}
use goga.Migrate.Locking.{idle, phase, phase_after, lock_discipline}
use goga.Migrate.Runs.{Finished, Stopped, retries_fit, run_applies, run_refuses_missing}

abbrev is_in : ℕ → List ℕ → Bool
is_in v [] = false
is_in v (w ∷ ws) = if eqb v w then true else is_in v ws

abbrev status_of : List ℕ → ℕ → Option GooseStatus
status_of applied v = some (record {
  source = some (record { version = v; path = "step.sql" });
  is_pending = if is_in v applied then false else true;
  applied_at = 0;
})

abbrev newest : List ℕ → ℕ
newest [] = 0
newest (v ∷ vs) = v

-- Versions 1, 2 and 3 exist, 3 always fails, and an unlock fails.
abbrev three_steps : Engine
three_steps = record {
  Db = List ℕ;
  conn = λ ctx db. none;
  close = λ db. none;
  raw_discard = λ db. none;
  session_lock = λ ctx db. (db, none);
  session_unlock = λ ctx db. (db, some (raw (foreign 1)));
  status = λ db. ok (map (status_of db) (1 ∷ 2 ∷ 3 ∷ []));
  get_db_version = λ db. ok (newest db);
  apply_version = λ db v up. if eqb v 3 then (db, err (raw (foreign 3))) else (v ∷ db, ok none);
  list_sources = [];
}

abbrev step : ℕ → Bool → Status
step v p = record { version = v; source = "step.sql"; pending = p; applied_at = 0 }

abbrev two_applied : World (List ℕ)
two_applied = record { db = 2 ∷ []; trace = [] }

abbrev caller : Context
caller = record { cancelled = false; left = none }

abbrev lenient : Migrator
lenient = record { lock_timeout = 30; allow_missing = true }

abbrev strict : Migrator
strict = record { lock_timeout = 30; allow_missing = false }

abbrev todo : List Status
todo = step 1 true ∷ step 3 true ∷ []

reading : Unit {0}
unfolding pending status status_from check_for_missing
reading = tt

run_applies_example :
    Finished three_steps 5 todo two_applied (run_locked three_steps lenient 5 two_applied)
    ⊎ Stopped three_steps 5 todo two_applied (run_locked three_steps lenient 5 two_applied)
unfolding reading
run_applies_example = run_applies three_steps lenient todo 5 two_applied refl refl

run_refuses_missing_example :
    (old : Status) × Listed old todo
    × (old.version < 2)
    × (run_locked three_steps strict 5 two_applied
        ≡ (two_applied, [], some (raw (older_than_applied old.version old.source 2))))
unfolding reading
run_refuses_missing_example =
    run_refuses_missing three_steps strict todo 5 2 two_applied (step 1 true) refl refl refl
      (inl refl) (omega arith)

lock_discipline_example :
    (phase (up three_steps lenient caller two_applied).0 ≡ idle)
    × (phase (up_to three_steps lenient caller 2 two_applied).0 ≡ idle)
    × (phase (down three_steps lenient caller two_applied).0 ≡ idle)
unfolding phase_after
lock_discipline_example = lock_discipline three_steps lenient caller 2 two_applied refl

ready_run : ready three_steps (3 ∷ 2 ∷ 1 ∷ []) ≡ none
unfolding reading ready
ready_run = refl

retries_fit_example :
    (1 ≤ retries 1500000000)
    × (1500000000 ≤ retries 1500000000 * second)
    × (0 < 1500000000 → retries 1500000000 * second < 1500000000 + second)
retries_fit_example = retries_fit 1500000000

retries_run : retries 1500000000 ≡ 2
unfolding retries
retries_run = refl
