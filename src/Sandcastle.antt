-- ===== src/Sandcastle.antt =====
-- The orchestrator .sandcastle/main.mts.
pub mod Plan
pub mod Decimal
pub mod RunState
pub mod Pipeline
pub mod Gates
pub mod Autopilot
pub mod Environment
pub mod TaskEnvironment
pub mod Pages
pub mod Claims
pub mod World
pub mod Checkpoints
pub mod Round
pub mod IssuePipeline
pub mod Rounds
mod CheckpointTests
mod ClaimTests
mod RoundTests
mod Tests
