-- ===== src/Migrate/Locking.antt =====
-- The advisory lock: an automaton that reads a trace and breaks at an event out of turn, and the
-- proof that Up, UpTo and Down never break it and end where they began.
use goga.Prelude.{
  ℕ, suc, zero, ◌≡◌, refl, ap, ◌∙◌, ◌⊎◌, inl, inr, Bool, true, false, String, Option, Option-cases,
  none, some, List, [], ◌∷◌, ◌++◌, arith,
}
use goga.Errors.{Result-cases, wrap}
use goga.Context.{Context, with_timeout, without_cancel}
use goga.Migrate.Engine.{
  Failure, Error, Engine, Event, World, note, is_bad_conn, is_conn_done, conn_opened, lock_taken,
  lock_released, unlock_failed, conn_discarded, conn_closed, reported, apply_called,
}
use goga.Migrate.Migrator.{
  Migrator, Status, report, close_conn, lock, release, pending, apply, apply_pending, source_of,
  max_int64, run_locked, run, up, up_to, down_locked, down,
}

-- Where the lock's connection is: not there, open, holding the lock, holding a lock that could not
-- be released, or past an event that was out of turn.
pub data Phase : Type 0 where
  idle connected holding stuck broken : Phase

-- Migrations run only while the lock is held, and a stuck connection is discarded before it is
-- closed.
abbrev pub advance : Phase → Event → Phase
advance idle conn_opened = connected
advance connected lock_taken = holding
advance connected conn_closed = idle
advance holding (apply_called version up done) = holding
advance holding lock_released = connected
advance holding unlock_failed = stuck
advance stuck conn_discarded = connected
advance phase (reported e) = phase
advance _ _ = broken

unfoldable pub phase_after : Phase → List Event → Phase
phase_after p [] = p
phase_after p (e ∷ es) = phase_after (advance p e) es

-- The phase after all that happened in a world.
abbrev pub phase : {Db : Type 0} → World Db → Phase
phase w = phase_after idle w.trace

phase_after-append :
    (p : Phase) (es : List Event) (e : Event)
    → phase_after p (es ++ e ∷ []) ≡ advance (phase_after p es) e
unfolding phase_after
phase_after-append p [] e = refl
phase_after-append p (d ∷ es) e = phase_after-append (advance p d) es e

phase-note : {Db : Type 0} (e : Event) (w : World Db) → phase (note e w) ≡ advance (phase w) e
phase-note e w = phase_after-append idle w.trace e

module _ (engine : Engine) where
  open engine use {Db}

  report-phase :
      (expected : Failure → Bool) (message : String) (e : Option Error) (w : World Db)
      → phase (report engine expected message e w) ≡ phase w
  report-phase expected message none w = refl
  report-phase expected message (some e) w =
      ground (arith, phase-note (reported (wrap message e)) w)

  close_conn-idle : (w : World Db) → phase w ≡ connected → phase (close_conn engine w) ≡ idle
  unfolding close_conn
  close_conn-idle w h =
      report-phase is_conn_done _ (engine.close w.db) (note conn_closed w)
      ∙ (phase-note conn_closed w ∙ rw h)

  -- A lock that is taken is held; one that fails leaves no connection.
  lock-phase :
      (m : Migrator) (ctx : Context) (w : World Db)
      → phase w ≡ idle
      → (((lock engine m ctx w).1 ≡ none) × (phase (lock engine m ctx w).0 ≡ holding))
        ⊎ ((e : Error) × ((lock engine m ctx w).1 ≡ some e)
            × (phase (lock engine m ctx w).0 ≡ idle))
  unfolding lock
  lock-phase m ctx w h =
      let opened : phase (note conn_opened w) ≡ connected = phase-note conn_opened w ∙ rw h in
      let db = (engine.session_lock (with_timeout m.lock_timeout ctx) w.db).0 in
      let locking : World Db = record w { db = db; trace = w.trace ++ conn_opened ∷ [] } in
      let closed = close_conn-idle locking opened in
      let held : phase (note lock_taken locking) ≡ holding =
        phase-note lock_taken locking ∙ ap (λ p. advance p lock_taken) opened in
      elim (Option-cases (engine.conn ctx w.db)) [
        | inr (e, refused) ↦ inr (wrap "goga/migrate: acquiring lock" e, ground arith, ground arith)
        | inl reached ↦
            elim (Option-cases (engine.session_lock (with_timeout m.lock_timeout ctx) w.db).1) [
              | inl taken ↦ inl (ground arith, ground arith)
              | inr (e, refused) ↦
                  inr (wrap "goga/migrate: acquiring lock" e, ground arith, ground arith)
            ]
      ]

  release-idle :
      (m : Migrator) (ctx : Context) (w : World Db)
      → phase w ≡ holding
      → phase (release engine m ctx w) ≡ idle
  unfolding release
  release-idle m ctx w h =
      let answer = engine.session_unlock (with_timeout m.lock_timeout (without_cancel ctx)) w.db in
      let db = answer.0 in
      let w0 : World Db = record w { db = db } in
      let freed : phase (note lock_released w0) ≡ connected = phase-note lock_released w0 ∙ rw h in
      let kept : phase (note unlock_failed w0) ≡ stuck = phase-note unlock_failed w0 ∙ rw h in
      elim (Option-cases answer.1) [
        | inl done ↦ let closed = close_conn-idle (note lock_released w0) freed in ground arith
        | inr (e, failed) ↦
            let told =
              note (reported (wrap "goga/migrate: releasing the advisory lock" e))
                (note unlock_failed w0) in
            let told_stuck : phase told ≡ stuck =
              phase-note (reported (wrap "goga/migrate: releasing the advisory lock" e))
                (note unlock_failed w0)
              ∙ ap (λ p. advance p (reported (wrap "goga/migrate: releasing the advisory lock" e)))
                  kept in
            let discarded : phase (note conn_discarded told) ≡ connected =
              phase-note conn_discarded told ∙ ap (λ p. advance p conn_discarded) told_stuck in
            let last =
              report engine is_bad_conn "goga/migrate: discarding the lock connection"
                (engine.raw_discard db) (note conn_discarded told) in
            let closed = close_conn-idle last (
              report-phase is_bad_conn _ (engine.raw_discard db) (note conn_discarded told)
              ∙ discarded) in
            ground arith
      ]

  apply-holding :
      (w : World Db) (version : ℕ) (source : String) (up : Bool)
      → phase w ≡ holding
      → phase (apply engine w version source up).0 ≡ holding
  unfolding apply
  apply-holding w version source up h = ground (
    arith,
    phase_after-append idle w.trace (apply_called version up true),
    phase_after-append idle w.trace (apply_called version up false),
  )

  apply_pending-holding :
      (target : ℕ) (todo : List Status) (w : World Db)
      → phase w ≡ holding
      → phase (apply_pending engine target todo w).0 ≡ holding
  unfolding apply_pending
  apply_pending-holding target [] w h = h
  apply_pending-holding target (s ∷ rest) w h =
      let next = apply-holding w s.version s.source true h in
      ground
        (arith, apply_pending-holding target rest (apply engine w s.version s.source true).0 next)

  run_locked-holding :
      (m : Migrator) (target : ℕ) (w : World Db)
      → phase w ≡ holding
      → phase (run_locked engine m target w).0 ≡ holding
  unfolding run_locked
  run_locked-holding m target w h = elim (Result-cases (pending engine w.db)) [
    | inr (e, failed) ↦ ground arith
    | inl (todo, listed) ↦ ground (arith, apply_pending-holding target todo w)
  ]

  run-idle :
      (m : Migrator) (ctx : Context) (target : ℕ) (w : World Db)
      → phase w ≡ idle
      → phase (run engine m ctx target w).0 ≡ idle
  unfolding run
  run-idle m ctx target w h = elim (lock-phase m ctx w h) [
    | inr (e, failed, there) ↦ ground arith
    | inl (taken, held) ↦
        let done = run_locked-holding m target (lock engine m ctx w).0 held in
        ground (arith, release-idle m ctx (run_locked engine m target (lock engine m ctx w).0).0)
  ]

  down_locked-holding :
      (w : World Db) → phase w ≡ holding → phase (down_locked engine w).0 ≡ holding
  unfolding down_locked
  down_locked-holding w h = elim (Result-cases (engine.get_db_version w.db)) [
    | inr (e, failed) ↦ ground arith
    | inl (zero, current) ↦ ground arith
    | inl (suc v, current) ↦
        ground
          (arith, apply-holding w (suc v) (source_of engine engine.list_sources (suc v)) false h)
  ]

  down-idle :
      (m : Migrator) (ctx : Context) (w : World Db)
      → phase w ≡ idle
      → phase (down engine m ctx w).0 ≡ idle
  unfolding down
  down-idle m ctx w h = elim (lock-phase m ctx w h) [
    | inr (e, failed, there) ↦ ground arith
    | inl (taken, held) ↦
        let done = down_locked-holding (lock engine m ctx w).0 held in
        ground (arith, release-idle m ctx (down_locked engine (lock engine m ctx w).0).0)
  ]

  -- Whatever goose, the locker and the connection answer, Up, UpTo and Down run migrations only
  -- while they hold the lock, give up the lock or the session that holds it, and close the
  -- connection: a trace that was in order and idle before is so after.
  pub lock_discipline :
      (m : Migrator) (ctx : Context) (version : ℕ) (w : World Db)
      → phase w ≡ idle
      → (phase (up engine m ctx w).0 ≡ idle)
        × (phase (up_to engine m ctx version w).0 ≡ idle)
        × (phase (down engine m ctx w).0 ≡ idle)
  unfolding up up_to
  lock_discipline m ctx version w h = (
    run-idle m ctx (max_int64 engine) w h,
    ground (arith, run-idle m ctx version w h),
    down-idle m ctx w h,
  )
