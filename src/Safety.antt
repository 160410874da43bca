-- ===== src/Safety.antt =====
-- src/safety/safetyController.ts: kill switches, budgets, circuit breakers, the bounded queue and
-- the audit chain of `LocalSafetyController`.
pub mod Types
pub mod Scope
pub mod Validate
pub mod Audit
pub mod Circuit
pub mod Budget
pub mod Store
pub mod Operator
pub mod Lease
pub mod Queue
pub mod GameDay
pub mod Frames
pub mod KillSwitch
pub mod Calls
pub mod Tests
