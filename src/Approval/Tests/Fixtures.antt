-- ===== src/Approval/Tests/Fixtures.antt =====
-- Values at which the statements about the inbox are tried out.
use ghostapi.Common.{Text, lit, none, [], ◌∷◌, ok, sort_texts, text_le}
use ghostapi.Safety.Tests.Fixtures.{repeated}
use ghostapi.Actions.Types.{ActionEnvelope, ActionApproval, UnsignedActionApproval}
use ghostapi.Actions.Validate.{synthetic_operation, synthetic_side_effects}
use ghostapi.Actions.Tests.Fixtures.{opened as actions_opened, env as actions_env, restart}
use ghostapi.Approval.Types.{Env, Policy, Context, Approver, Risk}
use ghostapi.Approval.Policy.{
  risk_text, risk_eq, includes, percentage, bounded_ms, risks, identifiers, validate_policy,
  policy_json, policy_hash, classify, reason_if, is_recent, required_approvals, objections,
  evaluate,
}
use ghostapi.Approval.Requests.{
  needs_artifact, needs_consumption, is_executed, validate_context, least, joined,
  validate_approver, validate_decision, policy_record, display_record, validate_artifact,
  validate_progress, validate_request, new_request, new_decision, create_artifact,
}
use ghostapi.Approval.Audit.{
  last_hash, audit_json, record_hash, append_record, validate_audit, chain_from,
}
use ghostapi.Approval.Store.{timestamp, empty_state, validate_state, read, write, persist, mutate}
use ghostapi.Approval.Standing.{
  is_pending, is_superseded, is_active, has_started, is_running, is_approval, has_id, find_request,
  is_self_approval, is_same_approver, has_approved,
}
use ghostapi.Approval.Inbox.{
  append_audit, append_audit_of, close, refresh_one, refresh_all, refresh, request_state, settle,
  approve_state, terminal_state, supersede_state, link_state, get_state, list_state, request,
  approve_request, decide_terminal, reject_request, revoke_request, get_request, list_requests,
  edit_and_resubmit,
}
use ghostapi.Approval.Calls.{step}
use ghostapi.Approval.Verifier.{
  is_under_execution, is_same_approval, is_request_of, provenance, inbox_verify,
}
use ghostapi.Approval.Executing.{
  is_executable, is_same_policy, require_artifact, check_execution, consume, verify_state,
  fail_state, on_memory, on_stores, load, save, gateway_execute, perform, latest_failed,
  run_execution, repeat_execution, proceed, execute_approval,
}
use ghostapi.Approval.Office.{execute, step as office_step, run}

unfoldable pub opened : Unit {0}
unfolding actions_opened sort_texts text_le risk_text risk_eq includes percentage bounded_ms risks
    identifiers validate_policy policy_json policy_hash classify reason_if is_recent
    required_approvals objections evaluate needs_artifact needs_consumption is_executed
    validate_context least joined validate_approver validate_decision policy_record display_record
    validate_artifact validate_progress validate_request new_request new_decision create_artifact
    last_hash audit_json record_hash append_record validate_audit chain_from timestamp empty_state
    validate_state read write persist mutate is_pending is_superseded is_active has_started
    is_running is_approval has_id find_request is_self_approval is_same_approver has_approved
    append_audit close refresh_one refresh_all refresh request_state settle approve_state
    terminal_state supersede_state link_state get_state list_state request approve_request
    decide_terminal reject_request revoke_request get_request list_requests edit_and_resubmit step
    run append_audit_of is_under_execution is_same_approval is_request_of provenance inbox_verify
    is_executable is_same_policy require_artifact check_execution consume verify_state fail_state
    on_memory on_stores load save gateway_execute perform latest_failed run_execution
    repeat_execution proceed execute_approval execute office_step
opened = tt

abbrev pub sign : UnsignedActionApproval → ActionApproval
sign a = record { unsigned = a; key_id = lit "key"; signature = repeated b'a' 86 }

abbrev pub inbox_env : Env
inbox_env = record { actions = actions_env; sign = λ a. ok (sign a); inbox_bytes = λ _. 0 }

abbrev pub workflow : ActionEnvelope
workflow = record restart {
  operation = synthetic_operation;
  expected_side_effects = synthetic_side_effects;
}

-- Two approvals are required of an update.
abbrev pub two_people : Policy
two_people = record {
  id = lit "policy-1";
  version = 1;
  allowed_environments = lit "synthetic" ∷ [];
  allowed_actors = none;
  allowed_resources = none;
  max_amount_minor = none;
  minimum_confidence = 0;
  critical_risks = Risk.update ∷ [];
  max_actions = 5;
  window_ms = 1_000;
  approval_ttl_ms = 6_000;
  escalation_timeout_ms = 6_000;
}

abbrev pub sure : Context
sure = record { confidence = 90; amount_minor = none }

abbrev pub approver : Text → Approver
approver name = record { id = name; principal_id = name; independence_key = name }
