-- ===== src/Actions.antt =====
-- src/actions/gateway.ts: immutable action envelopes, their approvals, and the execution of an
-- action with its receipts.
pub mod Types
pub mod Fields
pub mod Json
pub mod Validate
pub mod Records
pub mod Checks
pub mod Adapters
pub mod Gateway
pub mod Calls
pub mod Gives
pub mod Lifecycle
pub mod Once
pub mod Stopped
pub mod Submitted
pub mod Tests
