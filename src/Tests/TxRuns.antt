-- ===== src/Tests/TxRuns.antt =====
-- database/tx.go and pgxdb/tx.go on a transaction that counts its statements.
use goga.Prelude.{
  ℕ, ◌+◌, ◌≡◌, refl, ◌↔◌, Bool, true, false, Option, none, some, List, [], ◌∷◌, ltb, if◌then◌else◌,
}
use goga.Errors.{ok, raw, is}
use goga.Options.{apply}
use goga.Context.{Context}
use goga.Database.Failure.{Error, Ending, returned, panicked, tx_done, foreign, is_tx_done}
use goga.Database.SqlTx
use goga.Database.SqlTx.{SqlApi, TxSettings}
use goga.Database.PgxTx
use goga.Database.TxLaws.{SqlLaws, Success, tx_body_error, tx-IsDone, tx-nil_iff}
use goga.Database.TxAgree.{Transactions, as_pgx}

-- The statements that were run, and whether the transaction is over.
abbrev Work : Type 0
Work = ℕ × Bool

-- Commit fails on an empty transaction, rollback on one of more than two statements.
abbrev end_work : Bool → Work → Work × Option Error
end_work fails (n, true) = ((n, true), some (raw tx_done))
end_work fails (n, false) = ((n, true), if fails then some (raw (foreign n)) else none)

abbrev counted : SqlApi
counted = record {
  State = Work;
  begin_tx = λ ctx iso read_only. ok (0, false);
  commit = λ s. end_work (ltb s.0 1) s;
  rollback = λ s. end_work (ltb 2 s.0) s;
}

abbrev IsOver : Work → Type 0
IsOver s = s.1 ≡ true

end_work-IsOver : (fails : Bool) (s : Work) → IsOver (end_work fails s).0
end_work-IsOver fails (n, true) = refl
end_work-IsOver fails (n, false) = refl

abbrev counted_laws : SqlLaws counted
counted_laws = record {
  IsDone = IsOver;
  commit_done = λ s. end_work-IsOver (ltb s.0 1) s;
  rollback_done = λ s. end_work-IsOver (ltb 2 s.0) s;
}

abbrev caller : Context
caller = record { cancelled = false; left = some 100 }

-- Bodies that run three statements: one succeeds, one fails, one panics.
abbrev body : Ending → Context → Work → Work × Ending
body ending ctx (n, over) = ((n + 3, over), ending)

abbrev timed : TxSettings
timed = record { timeout = 50; iso = 0; read_only = false }

abbrev options : List SqlTx.TxOption
options = SqlTx.with_tx_timeout 50 ∷ []

tx_body_error_example :
    (f : Error) × ((SqlTx.tx counted caller true
        (some (body (returned (some (raw (foreign 8))))))
        options).ending
      ≡ returned (some f))
    × (is (λ e. elim e [ foreign n ↦ true | _ ↦ false ]) f ≡ true)
unfolding SqlTx.with_tx_timeout apply is
tx_body_error_example =
    tx_body_error counted caller (body (returned (some (raw (foreign 8))))) options timed (0, false)
      (3, false) refl refl (raw (foreign 8)) (λ e. elim e [ foreign n ↦ true | _ ↦ false ]) refl
      refl

tx-IsDone_example : IsOver (3, true)
unfolding SqlTx.tx SqlTx.run_tx SqlTx.settle SqlTx.rollback SqlTx.with_tx_timeout apply is
    is_tx_done
tx-IsDone_example =
    tx-IsDone counted counted_laws caller true (some (body (panicked 6))) options (3, true) refl

tx-nil_iff_example :
    ((SqlTx.tx counted caller true (some (body (returned none))) options).ending ≡ returned none)
    ↔ Success counted caller true (body (returned none)) options
tx-nil_iff_example = tx-nil_iff counted caller true (body (returned none)) options

tx-nil_run :
    (SqlTx.tx counted caller true (some (body (returned none))) options).ending ≡ returned none
unfolding SqlTx.tx SqlTx.run_tx SqlTx.settle SqlTx.with_tx_timeout apply
tx-nil_run = refl

-- On a cancelled context a call is not sent, and the transaction stays open.
abbrev sent : Context → Work × Option Error → Work → Work × Option Error
sent ctx answer s = if ctx.cancelled then (s, some (raw (foreign 7))) else answer

abbrev work : Transactions Work
work = record {
  begin = λ ctx. ok (0, false);
  commit = λ ctx s. sent ctx (end_work false s) s;
  rollback = λ ctx s. sent ctx (end_work true s) s;
}

-- The body fails because its caller has gone.
abbrev gone : Context
gone = record { cancelled = true; left = none }

abbrev failing : Context → Work → Work × Ending
failing = body (returned (some (raw (foreign 8))))

abbrev pgx_options : List PgxTx.TxOption
pgx_options = PgxTx.with_tx_timeout 50 ∷ PgxTx.with_tx_read_only true ∷ []

gone_rolled_back : (PgxTx.tx (as_pgx work) gone true (some failing) pgx_options).tx ≡ some (3, true)
unfolding PgxTx.tx PgxTx.run_tx PgxTx.settle PgxTx.rollback PgxTx.with_tx_timeout
    PgxTx.with_tx_read_only apply goga.Context.without_cancel goga.Context.with_timeout is
    is_tx_done
gone_rolled_back = refl
