-- ===== src/Database/TxAgree.antt =====
-- database.Tx and pgxdb.Tx over the same transactions behave alike.
use goga.Prelude.{◌≡◌, false, Option, none, some}
use goga.Errors.{Result, ok, err, raw, wrap, join}
use goga.Context.{Context, background}
use goga.Database.Failure.{Failure, Error, Ending, returned, panicked, Report}
use goga.Database.SqlTx
use goga.Database.SqlTx.{SqlApi}
use goga.Database.PgxTx
use goga.Database.PgxTx.{PgxApi}

-- An error without the texts that name the package.
abbrev pub untitled : Error → Error
untitled (raw e) = raw e
untitled (wrap message e) = wrap "" (untitled e)
untitled (join a b) = join (untitled a) (untitled b)

abbrev pub untitled_option : Option Error → Option Error
untitled_option none = none
untitled_option (some e) = some (untitled e)

abbrev untitled_ending : Ending → Ending
untitled_ending (returned e) = returned (untitled_option e)
untitled_ending (panicked p) = panicked p

abbrev untitled_span : Option (Option Error) → Option (Option Error)
untitled_span none = none
untitled_span (some e) = some (untitled_option e)

-- A report without those texts.
abbrev pub untitled_report : {State : Type 0} → Report State → Report State
untitled_report r = record {
  ending = untitled_ending r.ending;
  tx = r.tx;
  span = untitled_span r.span;
}

-- One kind of transaction behind both packages: it begins on a context, and a commit and a rollback are
-- calls on a context, which fail or do nothing as that one lets them.
pub record Transactions (State : Type 0) : Type 0 where
  pub begin : Context → Result Failure State
  pub commit : Context → State → State × Option Error
  pub rollback : Context → State → State × Option Error

abbrev over : {State : Type 0} → Context → State × Option Error → (Context × State) × Option Error
over ctx (s, e) = ((ctx, s), e)

module _ {State : Type 0} (txs : Transactions State) where
  -- A *sql.Tx keeps the context that it began on: Commit is a call on that one, and Rollback, which
  -- takes no context, on one without cancellation and deadline; a rollback that database/sql makes by
  -- itself when the context ends counts as that one. How the options reach the server is left out.
  abbrev pub as_sql : SqlApi
  as_sql = record {
    State = Context × State;
    begin_tx = λ ctx iso read_only. elim (txs.begin ctx) [ ok s ↦ ok (ctx, s) | err e ↦ err e ];
    commit = λ (ctx, s). over ctx (txs.commit ctx s);
    rollback = λ (ctx, s). over ctx (txs.rollback background s);
  }

  -- A pgx.Tx is handed the context of each call.
  abbrev pub as_pgx : PgxApi
  as_pgx = record {
    State = State;
    begin_tx = λ ctx opts. txs.begin ctx;
    commit = txs.commit;
    rollback = txs.rollback;
  }

  -- A body over the transactions, on a *sql.Tx
  abbrev pub on_sql :
      (Context → State → State × Ending) → Context → Context × State → (Context × State) × Ending
  on_sql fn b (ctx, s) = let (s', ending) = fn b s in ((ctx, s'), ending)

  abbrev pub on_sql_option :
      Option (Context → State → State × Ending)
      → Option (Context → Context × State → (Context × State) × Ending)
  on_sql_option none = none
  on_sql_option (some fn) = some (on_sql fn)

  abbrev state_of : Option (Context × State) → Option State
  state_of none = none
  state_of (some (ctx, s)) = some s

  -- A report without the context that a *sql.Tx keeps
  abbrev pub forgotten : Report (Context × State) → Report State
  forgotten r = record { ending = r.ending; tx = state_of r.tx; span = r.span }

  -- The server answers a rollback within the grace as it does without a deadline.
  abbrev pub InGrace : Type 0
  InGrace =
      (s : State)
      → txs.rollback (record { cancelled = false; left = some PgxTx.rollback_grace }) s
        ≡ txs.rollback background s

  module _ (in_grace : InGrace) where
    abbrev sql_from :
        (Context → State → State × Ending)
        → Context
        → Result Failure State
        → Report (Context × State)
    sql_from fn b r = elim r [
      | err e ↦
          let wrapped : Error = wrap "goga/database: tx: begin" e in
          SqlTx.refused as_sql (some (some wrapped)) wrapped
      | ok s ↦ let (s', ending) = on_sql fn b (b, s) in SqlTx.settle as_sql s' ending
    ]

    abbrev pgx_from :
        (Context → State → State × Ending) → Context → Result Failure State → Report State
    pgx_from fn b r = elim r [
      | err e ↦
          let wrapped : Error = wrap "goga/database/pgxdb: tx: begin" e in
          PgxTx.refused as_pgx (some (some wrapped)) wrapped
      | ok s ↦ let (s', ending) = fn b s in PgxTx.settle as_pgx b s' ending
    ]
