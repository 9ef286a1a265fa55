-- ===== src/Tests/OpenRuns.antt =====
-- database/ and database/pgxdb/: a pool whose statistics cannot be recorded, and a handle.
use goga.Prelude.{ℕ, ◌≡◌, refl, true, false, none, some, List, [], ◌∷◌, map}
use goga.Errors.{ok, err, raw}
use goga.Database.PgxOpen as PgxOpen
use goga.Database.PgxOpen.{Config, open_dsn}
use goga.Database.Opened.{Call, conns, most, option_of, Settled, pool-Settled}
use goga.Database.SqlOpen as SqlOpen
use goga.Database.SqlOpen.{open_with_cleanup, with_max_open_conns}
use goga.Database.Handles.{Released, handle_of, handle-Released}

abbrev cfg : Config
cfg = record { max_conns = 4; min_conns = 1; traced = false }

abbrev pgx : PgxOpen.Library
pgx = record { parse_config = λ dsn. ok cfg; new_pool = λ c. ok 5; record_stats = λ pool. none }

abbrev calls : List Call
calls = conns most 8 ∷ conns most 9 ∷ []

pool-Settled_example : Settled calls cfg (open_dsn pgx "host=a" (map option_of calls))
pool-Settled_example = pool-Settled pgx "host=a" calls cfg refl

abbrev sql : SqlOpen.Library
sql = record {
  parse_config = λ dsn. none;
  wrapped_context = λ comment. true;
  open_connector = λ comment dsn. ok 3;
  register_stats = λ db. err (raw (SqlOpen.foreign 1));
  unregister = λ r. none;
  close = λ db. some (raw (SqlOpen.foreign 2));
}

handle-Released_example :
    Released sql "host=a"
      (with_max_open_conns 3 ∷ [])
      (open_with_cleanup sql "host=a" (with_max_open_conns 3 ∷ []))
    × ((stats : SqlOpen.Handle → SqlOpen.Result ℕ)
        → handle_of
            (open_with_cleanup
              (record sql { register_stats = stats })
              "host=a"
              (with_max_open_conns 3 ∷ [])).1
          ≡ handle_of (open_with_cleanup sql "host=a" (with_max_open_conns 3 ∷ [])).1)
handle-Released_example = handle-Released sql "host=a" (with_max_open_conns 3 ∷ [])
