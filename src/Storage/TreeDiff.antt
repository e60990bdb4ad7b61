-- ===== src/Storage/TreeDiff.antt =====
-- server/src/storage/git_changes.rs: comparisons of two trees, kept in a small cache.
pub mod Repository
pub mod Compare
pub mod Cache
pub mod Traces
pub mod Replays
pub mod Sound
pub mod Visits
