-- ===== src/Actions/Types.antt =====
-- The types of src/actions/gateway.ts. Times are milliseconds since the epoch. The provider, the
-- environment, the type of the resource and the kinds of the records have one value each and are
-- constants here.
use ghostapi.Common.{ℕ, Text, Option, List, Bool}
use ghostapi.Safety.Types.{Env as SafetyEnv, RiskClass}

pub data ActorType : Type 0 where
  agent service : ActorType

pub data Reversibility : Type 0 where
  irreversible compensatable : Reversibility

pub record Actor : Type 0 where
  pub id : Text
  pub workload_id : Text
  pub type : ActorType

pub record PolicyReference : Type 0 where
  pub version : ℕ
  pub hash : Text

pub record ActionEnvelope : Type 0 where
  pub action_id : Text
  pub idempotency_key : Text
  pub actor : Actor
  pub project_id : Text
  pub operation : Text
  pub resource_id : Text
  pub world_id : Text
  pub expected_side_effects : List Text
  pub risk_class : RiskClass
  pub reversibility : Reversibility
  pub policy : PolicyReference
  pub evidence_hash : Text
  pub expires_at : ℕ
  pub nonce : Text

pub record UnsignedActionApproval : Type 0 where
  pub approval_id : Text
  pub action_hash : Text
  pub approved_by : Text
  pub approved_at : ℕ
  pub expires_at : ℕ
  pub nonce : Text

pub record ActionApproval : Type 0 where
  pub unsigned : UnsignedActionApproval
  pub open unsigned use *
  pub key_id : Text
  pub signature : Text

pub data ReceiptStatus : Type 0 where
  requested attempted committed verified failed : ReceiptStatus

pub record ReceiptResult : Type 0 where
  pub world_id : Text
  pub subscription_id : Text
  pub synthetic_receipt_id : Text

pub data FailureCode : Type 0 where
  execution_error unknown_outcome verification_failed : FailureCode

-- An `ActionExecutionReceipt` without its `receiptHash`.
pub record ReceiptBase : Type 0 where
  pub receipt_id : Text
  pub action_id : Text
  pub action_hash : Text
  pub status : ReceiptStatus
  pub timestamp : ℕ
  pub provider_request_id : Option Text
  pub result : Option ReceiptResult
  pub failure : Option FailureCode
  pub previous_receipt_hash : Text

pub record Receipt : Type 0 where
  pub base : ReceiptBase
  pub open base use *
  pub receipt_hash : Text

pub record StoredAction : Type 0 where
  pub envelope : ActionEnvelope
  pub action_hash : Text
  pub approval : ActionApproval
  pub receipts : List Receipt

pub record ExecutionIdentity : Type 0 where
  pub actor_id : Text
  pub workload_id : Text

pub record PolicyCheck : Type 0 where
  pub version : ℕ
  pub hash : Text
  pub allowed : Bool

pub data Phase : Type 0 where
  submit execute : Phase

-- An `ActionApprovalVerification`: whose provenance is always "verified".
pub record Verification : Type 0 where
  pub approval_inbox_request_id : Option Text

-- What `execute` of an adapter answers.
pub data Execution : Type 0 where
  committed_as : Text → ReceiptResult → Execution
  unknown : Execution

-- What `verify` of an adapter answers.
pub record Reconciliation : Type 0 where
  pub committed : Bool
  pub provider_request_id : Option Text
  pub result : Option ReceiptResult

-- What a gateway is built over: the safety controller's host, and the bytes of a record that is
-- written as JSON.
pub record Env : Type 0 where
  pub safety : SafetyEnv
  pub open safety use *
  pub action_bytes : StoredAction → ℕ
