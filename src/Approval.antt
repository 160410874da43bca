-- ===== src/Approval.antt =====
-- src/approvals/approvalInbox.ts: requests for the approval of actions, and the decisions on them.
pub mod Types
pub mod Policy
pub mod Requests
pub mod Audit
pub mod Store
pub mod Standing
pub mod Inbox
pub mod Verifier
pub mod Executing
pub mod Calls
pub mod Office
pub mod Quorum
pub mod Authorized
mod Tests
