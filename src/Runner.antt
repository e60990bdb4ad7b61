-- ===== src/Runner.antt =====
-- Provider jobs: server/src/scheduler/runner.rs and its progress bridge.
pub mod Progress
pub mod World
pub mod Snapshot
pub mod Pipeline
