-- ===== src/Db.antt =====
-- src/db.ts and migrations/: the database that all parts share, and what runs a statement on it.
-- `Rows` has a record for each table, `Statement` the statements' effects, errors and transactions.
mod Rows
mod Statement
pub mod Updates
pub mod Client
pub use Rows.*
pub use Statement.*
unfoldable pub use Statement.{with_transaction}
