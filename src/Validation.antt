-- ===== src/Validation.antt =====
-- server/src/pipeline/validate.rs: the outcome of the checks of one document.
pub mod Integrity
pub mod Documents
pub mod Profiles
pub mod Provider
pub mod Consistent
