-- ===== src/Lib.antt =====
-- GhostAPI runs and supervises the side effects of agents. This library is about the part that
-- decides whether an effect may happen: the safety controller, `LocalSafetyController` of
-- src/safety/safetyController.ts, the action gateway, `LocalActionGateway` of
-- src/actions/gateway.ts, which runs approved actions under its leases, the approval inbox,
-- `LocalApprovalInbox` of src/approvals/approvalInbox.ts, where people decide on actions and from
-- which approved ones are executed through the gateway, and the trust ladder, `LocalTrustLadder` of
-- src/trust/trustLadder.ts, which says how far a target may act by itself.
--
-- The program. Callers (the action gateway among them) ask the controller for a lease with `admit`,
-- check it with `assertActive`, run the effect inside `commit` and report it with
-- `complete`. Operators stop scopes and re-enable them, and configure budgets and circuit breakers.
-- The controller keeps one JSON file; every call reads it under a lock, validates it, changes the
-- value, validates it again and replaces the file at once.
--
-- The files.
--   Common            texts as lists of code units, errors as values (`Result`), computations that
--                     change a state and may throw (`Op`), canonical JSON
--   Safety/Types      the types of the controller's state
--   Safety/Scope      `scopeMatches`, `scopeValue`, `scopeKey`, `sameScope`, `ledgerKey`
--   Safety/Validate   the validators: the texts and numbers, the controls, the records
--   Safety/Audit      `appendAudit`, `validateAudit`, `validateAuditChain`
--   Safety/Circuit    `assertActionAllowed`, `evaluateCircuits`, `evaluateCircuit`, `rateBps`
--   Safety/Budget     `assertBudgets`, `sumCosts`
--   Safety/Store      `emptyState`, `validateState`, `read`, `mutate`, `timestamp`, `authorize`
--   Safety/Operator   `configureBudget`, `configureCircuit`, `stop`, `reenable` and their helpers
--   Safety/Lease      `admit`, `assertActive`, `commit`, `complete`, `pruneExpiredLeases`
--   Safety/Queue      `enqueue`, `dequeue`
--   Safety/GameDay    `runScheduledGameDay`
--   Safety/Calls      histories: any sequence of calls by any callers, and their invariants
--   Actions/Types     the types of the gateway: envelopes, approvals, receipts, stored actions
--   Actions/Fields    `identifier`, `hash`, `positiveInteger`, `timestampValue`
--   Actions/Json      the canonical JSON of envelopes, approvals and receipts, and their hashes
--   Actions/Validate  `validateActionEnvelope`, `validateActionApproval`, `verifyApproval`
--   Actions/Records   `createReceipt`, `appendReceipt`, `validateReceipt`, `validateStoredAction`
--   Actions/Checks    the checks with which `execute` begins
--   Actions/Adapters  the stores of a gateway, its adapters, `safetyAction`
--   Actions/Gateway   `submit`, `execute`, `inspect`, `compensate`
--   Actions/Calls     histories of the gateways' calls
--   Actions/Lifecycle the stages of an action as a state machine that the gateway refines
--   Approval/Types    the types of the inbox: policies, requests, decisions, audit records
--   Approval/Policy   `validatePolicy`, `evaluate`, `classify`, `policyHash`
--   Approval/Requests `validateRequest`, the validators below it, and the new requests
--   Approval/Audit    `appendAudit`, `validateAudit`, `validateAuditChain`
--   Approval/Store    `validateState`, `read`, `write`, `mutate`
--   Approval/Standing the tests on a request and its approvers, `assertIndependent`
--   Approval/Inbox    `request`, `approve`, `reject`, `revoke`, `editAndResubmit`, `get`, `list`
--   Approval/Verifier the verifier that the inbox gives its gateway
--   Approval/Executing `execute`, `latestDurableFailedReceipt`
--   Approval/Calls    the calls of the inbox's other methods
--   Approval/Office   histories of the inbox with its gateway, executions included
--   Approval/Quorum   what the approvals of a request are, and that every call keeps it
--   Approval/Authorized what an execution rests on
--   Trust/Types       the types of the trust ladder: levels, policies, evidence, targets
--   Trust/Capabilities `createLocalSyntheticTrustCapabilities`, `nextSupportedLevel`
--   Trust/Validate    `validatePolicy`, `validateEvidence` and the other validators
--   Trust/Evidence    `assertPromotionEvidence`
--   Trust/Canary      `canaryDecision`, `deterministicBucket`, the hashes of observations
--   Trust/Audit       `appendAudit`, `validateAudit`, `validateAuditChain`
--   Trust/Store       `validateState`, `read`, `mutate`
--   Trust/Targets     `findOrCreateTarget` and the tests on a target
--   Trust/Ladder      `promote`, `recordCanaryOutcome`, `rollbackToApproval` and the other methods
--   Trust/Calls       histories of the ladder's calls
--   Fault             `sanitizeConfig`, `updateFaultLabConfig`, `decideFault` of
--                     src/fault/faultLab.ts, the simulated failures
-- A file under a component's folder that is not named here holds proofs about that component.
--
-- A method is a function from the store to its result or error and the store after it. An operation
-- that throws inside `mutate` has changed the value that it was given, and nothing is written:
-- `mutate` returns the store as it was. The lock makes a mutation one step, so that a history is a
-- list of calls; a `commit` is two mutations, and the effect between them is a function that may
-- change the store as other callers do. The gateway keeps one file for each action; a call of it
-- changes that file, the controller's store and the world of its adapter.
--
-- Numbers and times. Counts and costs are naturals. The validators bound each of them by 2^53 - 1,
-- so the doubles of the source hold them exactly; a sum that passes 2^53 is rounded there and not
-- here, and is above every limit in both. Times are milliseconds since the epoch, written by
-- `toISOString` and read by `Date.parse`. A clock before 1970 is not represented.
-- A double of the fault lab is the fraction that it is; the numbers of its documents are naturals, or
-- values that its fields do not accept.
--
-- Parameters. SHA-256, `JSON.stringify` of strings and numbers, `toISOString`, and
-- `sanitizeSecretString` of src/security/secrets.ts are fields of `Host`; the length of a lease and
-- the byte size of a written state are fields of `Env`. What the emergency authorizer answers is an
-- argument of the methods that ask it. So are the gateway's adapter, the verifier of its approvals,
-- the readings of its clock and its random ids, the verifiers of approvers and of owners, the inbox's
-- signer, the preflight of the synthetic adapter, the fault lab's draws, the `formatError` of its
-- provider, and the rounded product of a draw and an integer. Nothing is assumed of any of them, but
-- that the product with a draw below one is the integer at most, where a statement says so.
--
-- Not modelled: the file system below `mutate` (src/storage/fileStore.ts), the tests for the shape
-- of parsed JSON (a value of the right shape is a record; `object` and `exactKeys` reject the
-- others), the Ed25519 keys, the synthetic adapter and the other parts of the program.
--
-- All recursion is structural, on the lists of the state and on texts; there is no fuel.
pub mod Common
pub mod Safety
pub mod Actions
pub mod Approval
pub mod Trust
pub mod Fault
