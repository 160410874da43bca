-- ===== src/Trust/Tests/Fixtures.antt =====
-- Values at which the statements about the trust ladder are tried out.
use ghostapi.Common.{lit, true, [], ◌∷◌, sort_texts, text_le}
use ghostapi.Safety.Tests.Fixtures.{opened as safety_opened, test_env}
use ghostapi.Actions.Json.{optional_field}
use ghostapi.Trust.Types.{Env, Target, PromotionPolicy, Evidence, Owner, open_circuit_breaker}
use ghostapi.Trust.Capabilities.{
  level_text, rank, level_eq, in_order, validate_capability, validate_capabilities, capability_for,
  levels_after, first_supported, next_supported_level,
}
use ghostapi.Trust.Validate.{
  identifiers, validate_policy, validate_evaluation, validate_evidence, validate_target,
  validate_observation, validate_outcome_observation, validate_owner,
}
use ghostapi.Trust.Evidence.{rate_bps, is_stale, check_eval, check_evals, assert_promotion_evidence}
use ghostapi.Trust.Canary.{
  same_target, target_json, hex_value, read_hex, is_in_scope, target_key, deterministic_bucket,
  canary_decision, observation_hash, outcome_hash, comparison_evidence,
}
use ghostapi.Trust.Audit.{
  optional_level, last_hash, audit_json, record_hash, append_record, validate_audit, chain_from,
}
use ghostapi.Trust.Store.{
  timestamp, empty_state, validate_target_state, validate_state, read, persist, mutate,
}
use ghostapi.Trust.Targets.{
  created, find_or_create_target, outcome_is_violation, outcome_is_error, demotes, count_if,
  counted, opens_at_once, must_open, require_level, is_next, unsupported_reason,
}
use ghostapi.Trust.Ladder.{
  append_audit, assign_state, compare_state, promote_state, demote, trip, record_state,
  rollback_state, inspect, assign_canary, promote, compare_shadow, compare_bounded_outcome,
  record_canary_outcome, rollback_to_approval,
}
use ghostapi.Trust.Calls.{step, run}

unfoldable pub opened : Unit {0}
unfolding safety_opened sort_texts text_le optional_field level_text rank level_eq in_order
    validate_capability validate_capabilities capability_for levels_after first_supported
    next_supported_level identifiers validate_policy validate_evaluation validate_evidence
    validate_target validate_observation validate_outcome_observation validate_owner rate_bps
    is_stale check_eval check_evals assert_promotion_evidence same_target target_json hex_value
    read_hex is_in_scope target_key deterministic_bucket canary_decision observation_hash
    outcome_hash comparison_evidence optional_level last_hash audit_json record_hash append_record
    validate_audit chain_from timestamp empty_state validate_target_state validate_state read
    persist mutate created find_or_create_target outcome_is_violation outcome_is_error demotes
    count_if counted opens_at_once must_open require_level is_next unsupported_reason append_audit
    assign_state compare_state promote_state demote trip record_state rollback_state inspect
    assign_canary promote compare_shadow compare_bounded_outcome record_canary_outcome
    rollback_to_approval step run
opened = tt

abbrev pub trust_env : Env
trust_env = record { safety = test_env; trust_bytes = λ _. 0 }

abbrev pub invoices : Target
invoices = record { tenant_id = lit "acme"; resource_id = lit "invoices" }

abbrev pub careful : PromotionPolicy
careful = record {
  id = lit "policy-1";
  owner_principal_id = lit "alice";
  minimum_runs = 10;
  required_eval_ids = lit "safety" ∷ [];
  max_violation_rate_bps = 100;
  max_error_rate_bps = 100;
  evidence_freshness_ms = 1_000_000;
  canary = record { tenant_ids = []; resource_ids = []; percentage_bps = 10_000 };
  max_violations = 1;
  max_errors = 3;
  violation_response = open_circuit_breaker;
}

abbrev pub good : Evidence
good = record {
  run_count = 200;
  violations = 2;
  errors = 0;
  evals = record { id = lit "safety"; passed = true; completed_at = 900 } ∷ [];
  observed_at = 950;
}

abbrev pub alice : Owner
alice = record { id = lit "alice"; principal_id = lit "alice" }
