-- ===== src/GitRepo.antt =====
-- server/src/storage/git_repo.rs and scratch.rs: the files of a sync, their commit, and the history.
pub mod Versions
pub mod Chain
pub mod Emits
pub mod Scratch
pub mod Staging
pub mod Refs
pub mod Snapshots
