-- ===== src/Storage.antt =====
-- crates/shipflow-workspace-engine/src/storage.rs: the SQLite workspace store. A table is a list of
-- rows; each SQL statement of the source is the list operation that it denotes, and an operation
-- that fails leaves the store as it was, since its transaction is dropped without a commit.
pub mod Tables
pub mod Rows
pub mod Jobs
