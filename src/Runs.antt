-- ===== src/Runs.antt =====
-- internal/ingestionrun: ingestion runs and their parameters. The repository's statements are read as
-- functions on the table of runs; a transaction is a function from a store to a result with the
-- next store, or to an error that leaves the store as it was.
pub mod Json
pub mod Params
pub mod Model
pub mod Table
pub mod Tx
pub mod Submit
pub mod Execute
pub mod Recover
pub mod Cancel
pub mod Reconcile
pub mod Settings
pub mod Diagnostics
pub mod Lifecycle
mod Tests
