-- ===== src/Actions/Tests/Fixtures.antt =====
-- Values at which the statements about the action gateway are tried out.
use ghostapi.Common.{ℕ, Text, lit, true, none, some, [], ok, err, suc}
use ghostapi.Common.Action.{pure}
use ghostapi.Safety.Types.{RiskClass}
use ghostapi.Safety.Tests.Fixtures.{opened as safety_opened, test_env, digest, repeated}
use ghostapi.Actions.Types.{
  Env, ActionEnvelope, ActionApproval, ActorType, Reversibility, ExecutionIdentity, PolicyCheck,
  committed_as, ReceiptResult,
}
use ghostapi.Actions.Calls.{Gateway, step, run}
use ghostapi.Actions.Checks.{require_inbox, moment, is_same_envelope, check_record}
use ghostapi.Actions.Fields.{
  hash, positive_integer, timestamp_value, is_base64url, matches_signature, is_safe_identifier,
  identifier,
}
use ghostapi.Actions.Adapters.{
  Stores, safety_action, proof_of, failure_outcome, success_outcome, put_file, on_safety, on_world,
  on_both, on_first,
}
use ghostapi.Actions.Gateway.{
  write_stored_action, add_receipt, commit_effect, submit, inspect, verify_committed,
  reconcile_attempt, fail_action, verify_execution, settle, first_attempt, execute_record, execute,
  compensate,
}
use ghostapi.Actions.Json.{
  actor_type_text, reversibility_text, receipt_status_text, failure_code_text, text_items,
  optional_field, string_field, optional_string, result_json, failure_json, optional_result,
  optional_failure, actor_json, envelope_json, unsigned_fields, approval_json, receipt_json,
  receipt_hash, approval_digest, envelope_digest, receipt_genesis_hash,
}
use ghostapi.Actions.Once.{instead, execute_by}
use ghostapi.Actions.Records.{
  status_eq, find_latest_receipt, last_receipt_hash, append_receipt, needs_result, starts_requested,
  create_receipt, normalize_result, validate_receipt, validate_receipts, validate_stored_action,
  read_stored_action, require_stored_action,
}
use ghostapi.Actions.Validate.{
  synthetic_operation, synthetic_side_effects, texts_eq, check_approval_times, verify_policy,
  validate_side_effects, validate_envelope, action_hash, validate_approval, action_approval_hash,
  verify_binding, verify_approval,
}

unfoldable pub opened : Unit {0}
unfolding safety_opened require_inbox moment is_same_envelope check_record hash positive_integer
    timestamp_value is_base64url matches_signature is_safe_identifier identifier safety_action
    proof_of failure_outcome success_outcome put_file on_safety on_world on_both on_first
    write_stored_action add_receipt commit_effect submit inspect verify_committed reconcile_attempt
    fail_action verify_execution settle first_attempt execute_record execute compensate
    actor_type_text reversibility_text receipt_status_text failure_code_text text_items
    optional_field string_field optional_string result_json failure_json optional_result
    optional_failure actor_json envelope_json unsigned_fields approval_json receipt_json
    receipt_hash approval_digest envelope_digest receipt_genesis_hash instead execute_by status_eq
    find_latest_receipt last_receipt_hash append_receipt needs_result starts_requested
    create_receipt normalize_result validate_receipt validate_receipts validate_stored_action
    read_stored_action require_stored_action synthetic_operation synthetic_side_effects texts_eq
    check_approval_times verify_policy validate_side_effects validate_envelope action_hash
    validate_approval action_approval_hash verify_binding verify_approval step run
opened = tt

abbrev pub env : Env
env = record { safety = test_env; action_bytes = λ _. 0 }

abbrev pub restart : ActionEnvelope
restart = record {
  action_id = lit "act-1";
  idempotency_key = lit "key-1";
  actor = record { id = lit "agent-1"; workload_id = lit "billing"; type = ActorType.agent };
  project_id = lit "shop";
  operation = lit "ops.restart";
  resource_id = lit "world-1";
  world_id = lit "world-1";
  expected_side_effects = [];
  risk_class = RiskClass.write;
  reversibility = Reversibility.irreversible;
  policy = record { version = 1; hash = digest (lit "policy") };
  evidence_hash = digest (lit "evidence");
  expires_at = 9_000;
  nonce = lit "nonce-1";
}

abbrev pub restart_hash : Text
restart_hash = elim (action_hash env.host restart) [ ok d ↦ d | err _ ↦ [] ]

abbrev pub approved : ActionApproval
approved = record {
  unsigned = record {
    approval_id = lit "approval-1";
    action_hash = restart_hash;
    approved_by = lit "alice";
    approved_at = 1_000;
    expires_at = 8_000;
    nonce = lit "nonce-2";
  };
  key_id = lit "key";
  signature = repeated b'a' 86;
}

abbrev pub policy : PolicyCheck
policy = record { version = 1; hash = digest (lit "policy"); allowed = true }

abbrev pub identity : ExecutionIdentity
identity = record { actor_id = lit "agent-1"; workload_id = lit "billing" }

abbrev pub proof : ActionEnvelope → ReceiptResult
proof a = record {
  world_id = a.world_id;
  subscription_id = lit "sub-1";
  synthetic_receipt_id = lit "rec-1";
}

-- The world is the number of effects that were done.
abbrev pub gateway : Gateway ℕ (Unit {0})
gateway = record {
  adapter = record {
    supports = λ _. true;
    plan = λ _. pure tt;
    simulate = λ _. pure tt;
    execute = λ a commit both.
        let (done, after) = commit (λ b. (ok tt, (b.0, suc b.1))) both in
        (elim done [ ok _ ↦ ok (committed_as (lit "request-1") (proof a)) | err x ↦ err x ], after);
    verify = λ a n. (
      ok (record {
        committed = true;
        provider_request_id = some (lit "request-1");
        result = some (proof a);
      }),
      n,
    );
    compensate = none;
  };
  verify = λ _ _ _. ok (record { approval_inbox_request_id = none });
  clock = λ _. some 2_000;
  fresh = λ n. repeated b'a' (suc n);
}

abbrev pub nothing : Stores ℕ
nothing = record { files = λ _. none; safety = none; world = 0 }
