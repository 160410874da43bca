-- ===== src/Approval/Types.antt =====
-- The types of src/approvals/approvalInbox.ts. Of what a request displays, only the reasons of the
-- policy are kept: the rest is computed from its action and context, and a stored display that is
-- not what is computed is refused.
use ghostapi.Common.{ℕ, Text, Option, List, Result}
use ghostapi.Actions.Types.{
  Env as ActionsEnv, ActionEnvelope, ActionApproval, UnsignedActionApproval,
}

pub data Risk : Type 0 where
  read create update communicate money_movement delete permission_change deployment : Risk

pub data RequestStatus : Type 0 where
  pending approved rejected revoked timed_out expired executing executed execution_failed
        superseded :
      RequestStatus

pub record Policy : Type 0 where
  pub id : Text
  pub version : ℕ
  pub allowed_environments : List Text
  pub allowed_actors : Option (List Text)
  pub allowed_resources : Option (List Text)
  pub max_amount_minor : Option ℕ
  pub minimum_confidence : ℕ
  pub critical_risks : List Risk
  pub max_actions : ℕ
  pub window_ms : ℕ
  pub approval_ttl_ms : ℕ
  pub escalation_timeout_ms : ℕ

pub record Context : Type 0 where
  pub confidence : ℕ
  pub amount_minor : Option ℕ

pub record Approver : Type 0 where
  pub id : Text
  pub principal_id : Text
  pub independence_key : Text

pub data DecisionKind : Type 0 where
  approve reject revoke : DecisionKind

pub record Decision : Type 0 where
  pub id : Text
  pub kind : DecisionKind
  pub approver : Approver
  pub reason : Option Text
  pub decided_at : ℕ

pub record PolicyRecord : Type 0 where
  pub id : Text
  pub version : ℕ
  pub hash : Text
  pub required_approvals : ℕ

pub record Request : Type 0 where
  pub id : Text
  pub action : ActionEnvelope
  pub action_hash : Text
  pub risk : Risk
  pub context : Context
  pub policy : PolicyRecord
  pub policy_reason : List Text
  pub status : RequestStatus
  pub created_at : ℕ
  pub expires_at : ℕ
  pub escalation_at : ℕ
  pub decisions : List Decision
  pub artifact : Option ActionApproval
  pub consumed_at : Option ℕ
  pub execution_receipt_hash : Option Text
  pub supersedes_request_id : Option Text

pub record AuditBase : Type 0 where
  pub sequence : ℕ
  pub event : Text
  pub request_id : Text
  pub action_hash : Text
  pub action_receipt_hash : Option Text
  pub actor_id : Text
  pub timestamp : ℕ
  pub previous_hash : Text

pub record AuditRecord : Type 0 where
  pub base : AuditBase
  pub open base use *
  pub record_hash : Text

pub record State : Type 0 where
  pub requests : List Request
  pub audit_anchor : Text
  pub audit : List AuditRecord

-- What an inbox is built over: the gateway's host, the signer of approvals, and the bytes of a
-- state that is written as JSON.
pub record Env : Type 0 where
  pub actions : ActionsEnv
  pub open actions use *
  pub sign : UnsignedActionApproval → Result ActionApproval
  pub inbox_bytes : State → ℕ
