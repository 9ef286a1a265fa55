-- ===== src/Migrate/Runs.antt =====
-- Which migrations a run applies, what Ready answers, and the retry budget of the default locker.
use goga.Prelude.{
  ℕ, ◌+◌, ◌*◌, ◌≤◌, ◌<◌, ◌≡◌, refl, sym, ◌∙◌, ◌⊎◌, ◌↔◌, inl, inr, true, false, Bool-cases, String,
  Option, none, some, List, Listed, [], ◌∷◌, ◌++◌, append-nil, append_assoc, map, filter, length,
  arith, ltb, if◌then◌else◌,
}
use goga.Errors.{Result-cases, ok, err, raw}
use goga.Migrate.Engine.{Error, Engine, Event, World, apply_called, older_than_applied}
use goga.Migrate.Settings.{retries, second}
use goga.Migrate.Migrator.{
  Migrator, Status, Applied, status, pending, ready, apply, first_older, check_for_missing,
  apply_pending, run_locked,
}

-- The default locker tries at least once; at one try a second its tries last at least as long as the
-- timeout, and less than a second longer when the timeout is positive.
pub retries_fit :
    (timeout : ℕ)
    → (1 ≤ retries timeout)
      × (timeout ≤ retries timeout * second)
      × (0 < timeout → retries timeout * second < timeout + second)
unfolding retries
retries_fit timeout = ground arith

older_clash : (a b : ℕ) → a < b → ltb a b ≡ false → ⊥
older_clash a b h k = ground arith

module _ (engine : Engine) where
  open engine use {Db}

  -- Ready answers nil exactly when Status can be read and lists nothing that is pending.
  pub ready-nil_iff :
      (db : Db)
      → (ready engine db ≡ none)
        ↔ ((all : List Status) × (status engine db ≡ ok all) × (filter (λ s. s.pending) all ≡ []))
  unfolding ready pending
  ready-nil_iff db = elim (Result-cases (status engine db)) [
    | inr (e, failed) ↦ (λ h. ground arith, λ (all, read, left). cc)
    | inl (all, read) ↦ (λ h. (all, read, ground arith), λ (xs, again, left). ground arith)
  ]

  -- The migrations of a list that come before the first one above `target`.
  abbrev pub reachable : ℕ → List Status → List Status
  reachable target [] = []
  reachable target (s ∷ rest) =
      let later = reachable target rest in if ltb target s.version then [] else s ∷ later

  abbrev pub applied_event : Status → Event
  applied_event s = apply_called s.version true true

  -- The loop ran to its end: every reachable migration was applied, in order, and reported.
  abbrev pub Finished : ℕ → List Status → World Db → World Db × List Applied × Option Error → Type 0
  Finished target todo w r =
      (r.2 ≡ none)
      × (r.0.trace ≡ w.trace ++ map applied_event (reachable target todo))
      × (length r.1 ≡ length (reachable target todo))

  -- The loop stopped at a migration that failed: those before it were applied, in order, and are
  -- reported beside the error.
  abbrev pub Stopped : ℕ → List Status → World Db → World Db × List Applied × Option Error → Type 0
  Stopped target todo w r =
      (before : List Status) × (src : Status) × (after : List Status) × (e : Error) × (reachable
          target todo
        ≡ before ++ src ∷ after)
      × (r.2 ≡ some e)
      × (r.0.trace
          ≡ w.trace ++ (map applied_event before ++ apply_called src.version true false ∷ []))
      × (length r.1 ≡ length before)

  apply-ok :
      (w : World Db) (v : ℕ) (source : String) (res : Applied)
      → (apply engine w v source true).1 ≡ ok res
      → (apply engine w v source true).0.trace ≡ w.trace ++ apply_called v true true ∷ []
  unfolding apply
  apply-ok w v source res h = ground arith

  apply-err :
      (w : World Db) (v : ℕ) (source : String) (e : Error)
      → (apply engine w v source true).1 ≡ err e
      → (apply engine w v source true).0.trace ≡ w.trace ++ apply_called v true false ∷ []
  unfolding apply
  apply-err w v source e h = ground arith

  after_head :
      (es fs : List Event) (e : Event) (rest : List Event)
      → fs ≡ es ++ e ∷ []
      → fs ++ rest ≡ es ++ e ∷ rest
  after_head es fs e rest h = rw h (append_assoc es (e ∷ []) rest)

  apply_pending_outcome :
      (target : ℕ) (todo : List Status) (w : World Db)
      → Finished target todo w (apply_pending engine target todo w)
        ⊎ Stopped target todo w (apply_pending engine target todo w)
  unfolding apply_pending
  apply_pending_outcome target [] w = inl (refl, sym (append-nil w.trace), refl)
  apply_pending_outcome target (s ∷ rest) w = elim (Bool-cases (ltb target s.version)) [
    | inl above ↦ inl (ground arith, rw above (sym (append-nil w.trace)), ground arith)
    | inr within ↦ elim (Result-cases (apply engine w s.version s.source true).1) [
      | inr (e, failed) ↦ inr (
        [],
        s,
        reachable target rest,
        e,
        ground arith,
        ground arith,
        (let told = apply-err w s.version s.source e failed in ground arith),
        ground arith,
      )
      | inl (res, good) ↦
          let w1 = (apply engine w s.version s.source true).0 in
          let told = apply-ok w s.version s.source res good in
          elim (apply_pending_outcome target rest w1) [
            | inl (fine, trace, count) ↦ inl (
              ground arith,
              (let whole =
                    trace
                    ∙ after_head w.trace w1.trace (applied_event s)
                        (map applied_event (reachable target rest)) told in
                  ground arith),
              ground arith,
            )
            | inr (before, src, after, e, split, failed, trace, count) ↦ inr (
              s ∷ before,
              src,
              after,
              e,
              ground arith,
              ground arith,
              (let whole =
                    trace
                    ∙ after_head w.trace w1.trace (applied_event s)
                        (map applied_event before ++ apply_called src.version true false ∷ [])
                        told in
                  ground arith),
              ground arith,
            )
          ]
    ]
  ]

  check-passes :
      (m : Migrator) (todo : List Status) (target : ℕ) (w : World Db)
      → pending engine w.db ≡ ok todo
      → check_for_missing engine m w.db todo ≡ none
      → run_locked engine m target w ≡ apply_pending engine target todo w
  unfolding run_locked
  check-passes m todo target w read passed = ground arith

  -- Under the lock, a run whose check passes applies the pending migrations up to the target, in the
  -- order of Status: all of them if it returns no error; otherwise those before the one that failed,
  -- which it tried last. The list that it returns has an entry for each that it applied.
  pub run_applies :
      (m : Migrator) (todo : List Status) (target : ℕ) (w : World Db)
      → pending engine w.db ≡ ok todo
      → check_for_missing engine m w.db todo ≡ none
      → Finished target todo w (run_locked engine m target w)
        ⊎ Stopped target todo w (run_locked engine m target w)
  run_applies m todo target w read passed =
      rw (check-passes m todo target w read passed) (apply_pending_outcome target todo w)

  first_older-some :
      (current : ℕ) (todo : List Status) (s : Status)
      → Listed s todo
      → s.version < current
      → (old : Status) × (first_older engine current todo ≡ some old)
        × (old.version < current)
        × Listed old todo
  unfolding first_older
  first_older-some current [] s m h = elim m [ ]
  first_older-some current (t ∷ rest) s m h = elim (Bool-cases (ltb t.version current)) [
    | inl older ↦ (t, ground arith, ground arith, inl refl)
    | inr newer ↦ elim m [
      | inl e ↦ absurd (older_clash t.version current (rw e at h) newer)
      | inr n ↦
          let (old, found, below, l) = first_older-some current rest s n h in
          (old, ground arith, below, inr l)
    ]
  ]

  -- Without WithAllowMissing, one pending migration that is older than the applied version makes the
  -- run fail before it applies anything, with an error that names such a migration.
  pub run_refuses_missing :
      (m : Migrator) (todo : List Status) (target current : ℕ) (w : World Db) (s : Status)
      → m.allow_missing ≡ false
      → pending engine w.db ≡ ok todo
      → engine.get_db_version w.db ≡ ok current
      → Listed s todo
      → s.version < current
      → (old : Status) × Listed old todo
        × (old.version < current)
        × (run_locked engine m target w
            ≡ (w, [], some (raw (older_than_applied old.version old.source current))))
  unfolding run_locked check_for_missing
  run_refuses_missing m [] target current w s strict read at_version l h = elim l [ ]
  run_refuses_missing m (t ∷ rest) target current w s strict read at_version l h =
      let (old, found, below, listed) = first_older-some current (t ∷ rest) s l h in
      (old, listed, below, ground arith)
