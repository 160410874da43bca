-- ===== src/Trust.antt =====
-- src/trust/trustLadder.ts: how far each synthetic target is trusted, from simulation to bounded
-- automation, and what moves it up and down.
pub mod Types
pub mod Capabilities
pub mod Validate
pub mod Evidence
pub mod Canary
pub mod Audit
pub mod Store
pub mod Targets
pub mod Ladder
pub mod Calls
pub mod Moves
pub mod Steps
pub mod History
pub mod Open
pub mod Convincing
pub mod Promotion
pub mod Rollback
pub mod Rollout
mod Tests
