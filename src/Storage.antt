-- ===== src/Storage.antt =====
-- server/src/storage: what a provider's repository and database hold.
pub mod PathSet
pub mod TreeDiff
pub mod Identifiers
pub mod Documents
pub mod Membership
pub mod Versions
