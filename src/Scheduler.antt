-- ===== src/Scheduler.antt =====
-- Planning and running the parsers (src/artifact_engine/core/scheduler.py).
pub mod Manifest
pub mod Topo
pub mod Levels
pub mod Plan
pub mod Waiting
pub mod Tasks
pub mod Skips
pub mod Release
pub mod Dispatch
pub mod Run
mod Tests
