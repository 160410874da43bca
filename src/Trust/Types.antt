-- ===== src/Trust/Types.antt =====
-- The types of src/trust/trustLadder.ts. The provider and the environment of a target are constants.
use ghostapi.Common.{ℕ, Text, Bool, Option, List}
use ghostapi.Safety.Types.{Env as SafetyEnv}

pub data Level : Type 0 where
  simulate shadow dry_run approve bounded_auto trusted : Level

pub record Target : Type 0 where
  pub tenant_id : Text
  pub resource_id : Text

pub record Capability : Type 0 where
  pub level : Level
  pub supported : Bool
  pub external_side_effects : Bool
  pub requires_actual_context : Bool
  pub requires_official_provider_semantics : Bool
  pub requires_approval : Bool
  pub requires_canary : Bool
  pub requires_outcome_comparison : Bool
  pub reason : Option Text

pub data ViolationResponse : Type 0 where
  demote_to_approve open_circuit_breaker : ViolationResponse

pub record CanaryScope : Type 0 where
  pub tenant_ids : List Text
  pub resource_ids : List Text
  pub percentage_bps : ℕ

pub record PromotionPolicy : Type 0 where
  pub id : Text
  pub owner_principal_id : Text
  pub minimum_runs : ℕ
  pub required_eval_ids : List Text
  pub max_violation_rate_bps : ℕ
  pub max_error_rate_bps : ℕ
  pub evidence_freshness_ms : ℕ
  pub canary : CanaryScope
  pub max_violations : ℕ
  pub max_errors : ℕ
  pub violation_response : ViolationResponse

pub record Evaluation : Type 0 where
  pub id : Text
  pub passed : Bool
  pub completed_at : ℕ

pub record Evidence : Type 0 where
  pub run_count : ℕ
  pub violations : ℕ
  pub errors : ℕ
  pub evals : List Evaluation
  pub observed_at : ℕ

pub record Owner : Type 0 where
  pub id : Text
  pub principal_id : Text

pub record CanaryDecision : Type 0 where
  pub target : Target
  pub assigned : Bool
  pub bucket : ℕ
  pub reason : Text

pub record Observation : Type 0 where
  pub target : Target
  pub action_hash : Text
  pub operation : Text
  pub context_hash : Text

pub record OutcomeObservation : Type 0 where
  pub target : Target
  pub action_hash : Text
  pub outcome_hash : Text
  pub execution_receipt_hash : Text

pub record Comparison : Type 0 where
  pub target : Target
  pub level : Level
  pub matched : Bool
  pub predicted_hash : Text
  pub actual_hash : Text
  pub observed_at : ℕ

pub data CanaryOutcome : Type 0 where
  success violation error : CanaryOutcome

pub record TargetState : Type 0 where
  pub target : Target
  pub level : Level
  pub is_open : Bool
  pub observed : ℕ
  pub violations : ℕ
  pub errors : ℕ
  pub updated_at : ℕ

pub record AuditBase : Type 0 where
  pub sequence : ℕ
  pub event : Text
  pub target_key : Text
  pub from_level : Option Level
  pub to_level : Option Level
  pub reason : Text
  pub timestamp : ℕ
  pub previous_hash : Text

pub record AuditRecord : Type 0 where
  pub base : AuditBase
  pub open base use *
  pub record_hash : Text

pub record State : Type 0 where
  pub targets : List TargetState
  pub audit_anchor : Text
  pub audit : List AuditRecord

-- What the ladder is built over: the host, and the bytes of a state that is written as JSON.
pub record Env : Type 0 where
  pub safety : SafetyEnv
  pub open safety use *
  pub trust_bytes : State → ℕ
