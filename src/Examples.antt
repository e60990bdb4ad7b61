-- ===== src/Examples.antt =====
-- Concrete runs of the definitions, and the theorems at them.
mod Data
mod Jobs
mod Storage
mod Processing
mod Runner
mod Resumed
mod Server
mod Limits
mod Sources
mod GitRepo
mod Refs
mod Snapshots
mod Validation
mod Documents
mod Membership
mod Versions
