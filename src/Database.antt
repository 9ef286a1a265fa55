-- ===== src/Database.antt =====
-- database/ and database/pgxdb/: transactions that always end.
pub mod Failure
pub mod SqlTx
pub mod PgxTx
pub mod TxLaws
pub mod TxAgree
pub mod SqlOpen
pub mod PgxOpen
pub mod Opened
pub mod Handles
