-- ===== src/Safety/Types.antt =====
-- The types of src/safety/safetyController.ts. Times are milliseconds since the epoch, which the
-- source writes as ISO strings and reads back by `Date.parse`.
use ghostapi.Common.{ℕ, Text, Option, List, Bool, Host}

pub data ScopeKind : Type 0 where
  global organization project environment agent workload provider operation risk_class : ScopeKind

pub record Scope : Type 0 where
  pub kind : ScopeKind
  pub id : Option Text

pub data RiskClass : Type 0 where
  read write money_movement external_communication delete deploy : RiskClass

pub record Costs : Type 0 where
  pub monetary_amount_minor : ℕ
  pub requests : ℕ
  pub messages : ℕ
  pub mutations : ℕ
  pub deletes : ℕ
  pub token_cost : ℕ

pub record Action : Type 0 where
  pub organization_id : Text
  pub project_id : Text
  pub environment : Text
  pub actor_id : Text
  pub workload_id : Text
  pub provider : Text
  pub operation : Text
  pub risk_class : RiskClass
  pub idempotency_key : Text
  pub action_hash : Text
  pub costs : Costs

pub record Limits : Type 0 where
  pub monetary_amount_minor : Option ℕ
  pub requests : Option ℕ
  pub messages : Option ℕ
  pub mutations : Option ℕ
  pub deletes : Option ℕ
  pub token_cost : Option ℕ
  pub concurrency : Option ℕ
  pub velocity : Option ℕ

pub record Budget : Type 0 where
  pub id : Text
  pub scope : Scope
  pub window_ms : ℕ
  pub velocity_window_ms : ℕ
  pub limits : Limits

pub data CircuitState : Type 0 where
  closed opened : CircuitState

pub record Circuit : Type 0 where
  pub id : Text
  pub scope : Scope
  pub window_ms : ℕ
  pub minimum_samples : ℕ
  pub max_failure_rate_bps : ℕ
  pub max_policy_violations : ℕ
  pub max_latency_ms : ℕ
  pub max_reconciliation_mismatches : ℕ
  pub state : CircuitState
  pub opened_at : Option ℕ
  pub reason : Option Text

pub data Permission : Type 0 where
  stop reenable configure inspect : Permission

pub record Operator : Type 0 where
  pub id : Text
  pub principal_id : Text
  pub permissions : List Permission

pub record Switch : Type 0 where
  pub scope : Scope
  pub enabled : Bool
  pub changed_at : ℕ
  pub reason : Text
  pub changed_by : Text

pub record Outcome : Type 0 where
  pub success : Bool
  pub policy_violation : Bool
  pub reconciliation_mismatch : Bool
  pub latency_ms : ℕ
  pub reason : Option Text

pub data Status : Type 0 where
  reserved completed : Status

-- An element of `SafetyControllerState["ledger"]`.
pub record Entry : Type 0 where
  pub key : Text
  pub action : Action
  pub status : Status
  pub admitted_at : ℕ
  pub completed_at : Option ℕ
  pub outcome : Option Outcome

pub record QueueItem : Type 0 where
  pub id : Text
  pub action : Action
  pub queued_at : ℕ

pub record DeadLetter : Type 0 where
  pub item : QueueItem
  pub open item use *
  pub reason : Text
  pub dead_lettered_at : ℕ

-- An audit record without its `recordHash`.
pub record AuditBase : Type 0 where
  pub sequence : ℕ
  pub event : Text
  pub subject : Text
  pub reason : Text
  pub actor_principal_id : Option Text
  pub timestamp : ℕ
  pub previous_hash : Text

pub record AuditRecord : Type 0 where
  pub base : AuditBase
  pub open base use *
  pub record_hash : Text

pub record State : Type 0 where
  pub switches : List Switch
  pub budgets : List Budget
  pub circuits : List Circuit
  pub ledger : List Entry
  pub queue : List QueueItem
  pub dead_letters : List DeadLetter
  pub audit_anchor : Text
  pub audit : List AuditRecord

-- What a controller is built over: the host, the length of a lease, and the bytes of a state that
-- is written as JSON.
pub record Env : Type 0 where
  pub host : Host
  pub open host use *
  pub lease_ttl_ms : ℕ
  pub store_bytes : State → ℕ
