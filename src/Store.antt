-- ===== src/Store.antt =====
-- The tables of migrations/000001_init_schema.up.sql, the environment of a process, and the
-- transactions of internal/infrastructure/database/transaction_manager.go.
mod Tables
mod Queues
mod Connection
pub mod Insert
pub mod Update
pub mod Due
pub mod Rows
pub mod Rules
pub mod Invariant
pub mod Reads
pub mod Always
pub mod Then
pub mod Ensures
pub mod Writes
pub mod Effects
pub mod Found
pub mod Keys
unfoldable pub use Tables.*
unfoldable pub use Queues.*
unfoldable pub use Connection.*
