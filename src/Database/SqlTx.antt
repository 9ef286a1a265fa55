-- ===== src/Database/SqlTx.antt =====
-- database/tx.go over database/sql.
use goga.Prelude.{ℕ, Bool, false, Option, none, some, List, ltb, if◌then◌else◌, not}
use goga.Errors.{Result, ok, err, raw, wrap, is}
use goga.Options.{Setter, apply}
use goga.Context.{Context, with_timeout}
use goga.Database.Failure.{
  Failure, Error, nil_db, nil_tx_func, bad_timeout, is_tx_done, Ending, returned, panicked, Report,
  and_rollback, panic_in_body,
}

-- The calls of database/sql that Tx makes on a *sql.DB and its *sql.Tx.
pub record SqlApi : Type 1 where
  pub State : Type 0
  pub begin_tx : Context → ℕ → Bool → Result Failure State
  pub commit : State → State × Option Error
  pub rollback : State → State × Option Error

-- `txSettings`, less the telemetry handle
pub record TxSettings : Type 0 where
  pub timeout : ℕ
  pub iso : ℕ
  pub read_only : Bool

abbrev pub tx_defaults : TxSettings
tx_defaults = record { timeout = 0; iso = 0; read_only = false }

abbrev pub TxOption : Type 0
TxOption = Setter Failure TxSettings

-- WithTxTimeout. A negative duration, which is refused like 0, is read as 0.
unfoldable pub with_tx_timeout : ℕ → TxOption
with_tx_timeout d s =
    if ltb 0 d then (record s { timeout = d }, none) else (s, some (raw bad_timeout))

unfoldable pub with_tx_isolation : ℕ → TxOption
with_tx_isolation level s = (record s { iso = level }, none)

unfoldable pub with_tx_read_only : Bool → TxOption
with_tx_read_only on s = (record s { read_only = on }, none)

module _ (api : SqlApi) where
  open api use {State, begin_tx, commit}

  -- `fn`, which may use the transaction, end it itself, and panic
  abbrev pub Body : Type 0
  Body = Context → State → State × Ending

  -- `rollback`
  unfoldable pub rollback : State → State × Option Error
  rollback s =
      let (s', e) = api.rollback s in
      elim e [
        | none ↦ (s', none)
        | some cause ↦
            if is is_tx_done cause
            then (s', none)
            else (s', some (wrap "goga/database: tx: rollback" cause))
      ]

  -- The deferred function, and the two ways on from a body that returned.
  unfoldable pub settle : State → Ending → Report State
  settle s (panicked p) =
      let (s', rb) = rollback s in
      record {
        ending = panicked p;
        tx = some s';
        span = some (some (and_rollback (raw (panic_in_body p)) rb));
      }
  settle s (returned (some e)) =
      let (s', rb) = rollback s in
      record {
        ending = returned (some (and_rollback e rb));
        tx = some s';
        span = some (some (and_rollback e rb));
      }
  settle s (returned none) =
      let (s', e) = commit s in
      elim e [
        | none ↦ record { ending = returned none; tx = some s'; span = some none }
        | some cause ↦
            let wrapped : Error = wrap "goga/database: tx: commit" cause in
            record { ending = returned (some wrapped); tx = some s'; span = some (some wrapped) }
      ]

  abbrev pub refused : Option (Option Error) → Error → Report State
  refused span e = record { ending = returned (some e); tx = none; span = span }

  unfoldable pub run_tx : Context → Body → TxSettings → Report State
  run_tx ctx fn set =
      let bounded = if ltb 0 set.timeout then with_timeout set.timeout ctx else ctx in
      elim (begin_tx bounded set.iso set.read_only) [
        | err e ↦
            let wrapped : Error = wrap "goga/database: tx: begin" e in
            refused (some (some wrapped)) wrapped
        | ok s ↦ let (s', ending) = fn bounded s in settle s' ending
      ]

  -- `Tx`; the handle and the body may be nil.
  unfoldable pub tx : Context → Bool → Option Body → List TxOption → Report State
  tx ctx has_db fn opts = elim fn [
    | none ↦ refused none (raw (if has_db then nil_tx_func else nil_db))
    | some body ↦
        let (set, failure) = apply tx_defaults opts in
        if not has_db then refused none (raw nil_db) else elim failure [
          | some e ↦ refused none (wrap "goga/database: tx" e)
          | none ↦ run_tx ctx body set
        ]
  ]
