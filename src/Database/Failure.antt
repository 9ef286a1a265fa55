-- ===== src/Database/Failure.antt =====
-- The errors of the two Tx helpers, and what a call of one leaves behind.
use goga.Prelude.{ℕ, Bool, true, false, Option, none, some}
use goga.Errors

pub data Failure : Type 0 where
  nil_db nil_tx_func bad_timeout : Failure
  -- sql.ErrTxDone and pgx.ErrTxClosed
  tx_done : Failure
  -- fmt.Errorf("… panic: %v", p), which does not wrap `p`
  panic_in_body : ℕ → Failure
  foreign : ℕ → Failure

abbrev pub Error : Type 0
Error = Errors.Error Failure

-- errors.Is(err, sql.ErrTxDone)
unfoldable pub is_tx_done : Failure → Bool
is_tx_done tx_done = true
is_tx_done _ = false

-- How a Go function ends: it returns its error or nil, or it panics with a value.
pub data Ending : Type 0 where
  returned : Option Error → Ending
  panicked : ℕ → Ending

-- What a call of Tx leaves: how it ended, the transaction if one was begun, and the error that the
-- span was closed with if one was opened.
pub record Report (State : Type 0) : Type 0 where
  pub ending : Ending
  pub tx : Option State
  pub span : Option (Option Error)

-- errors.Join(err, rbErr), where rbErr may be nil
abbrev pub and_rollback : Error → Option Error → Error
and_rollback e none = e
and_rollback e (some r) = Errors.join e r
