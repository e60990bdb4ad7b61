-- ===== src/Processing.antt =====
-- server/src/storage/git_processing.rs: which committed inputs a processing pass validates.
pub mod Paths
pub mod Scan
pub mod Select
pub mod History
pub mod Resolve
pub mod Outcome
pub mod Incremental
pub mod Materialize
