-- ===== src/Actions/Validate.antt =====
-- `validateActionEnvelope`, `validateActionApproval`, `verifyApproval`, `verifyPolicy` and the hashes
-- of envelopes and approvals. A parsed JSON value of the right shape is a record.
use ghostapi.Common.{
  ℕ, Text, lit, text_eq, is_unique, Bool, true, false, not, ◌&&◌, ◌||◌, ◌==◌, List, [], ◌∷◌, all,
  length, leb, ltb, Host, Result, ok, require, ◌>>=◌, ◌>>◌,
}
use ghostapi.Actions.Types.{ActionEnvelope, ActionApproval, PolicyCheck}
use ghostapi.Actions.Fields.{
  hash, positive_integer, timestamp_value, matches_signature, is_safe_identifier, identifier,
}
use ghostapi.Actions.Json.{envelope_digest, approval_digest}

unfoldable pub synthetic_operation : Text
synthetic_operation = lit "synthetic.subscription_failure"

unfoldable pub synthetic_side_effects : List Text
synthetic_side_effects =
    lit "stripe.subscription.past_due"
    ∷ lit "email.subscription_payment_failed"
    ∷ lit "github.recovery_issue"
    ∷ lit "generic_rest.payment_failed"
    ∷ []

-- Two lists of the same length with the same texts.
unfoldable pub texts_eq : List Text → List Text → Bool
texts_eq [] [] = true
texts_eq [] (y ∷ ys) = false
texts_eq (x ∷ xs) [] = false
texts_eq (x ∷ xs) (y ∷ ys) = text_eq x y && texts_eq xs ys

-- The limits on an approval that depend on the clock.
unfoldable pub check_approval_times : ActionApproval → ℕ → Result (Unit {0})
check_approval_times approval now = do
  require (leb approval.approved_at now) (lit "Action approval timestamp is in the future.")
  require (ltb now approval.expires_at) (lit "Action approval has expired.")

unfoldable pub verify_policy : ActionEnvelope → PolicyCheck → Result (Unit {0})
verify_policy action policy = do
  require policy.allowed (lit "Current policy denies action execution.")
  require (policy.version == action.policy.version && text_eq policy.hash action.policy.hash)
      (lit "Current policy reference does not match the approved action.")

module _ (host : Host) where
  unfoldable pub validate_side_effects : Text → List Text → Result (Unit {0})
  unfolding texts_eq
  validate_side_effects operation effects = do
    require (leb (length effects) 16 && all effects (is_safe_identifier host) && is_unique effects)
        (lit "Action expected side effects must be a bounded unique list of safe identifiers.")
    require (not (text_eq operation synthetic_operation) || texts_eq effects synthetic_side_effects)
        (lit "Action expected side effects are invalid for the synthetic operation.")

  unfoldable pub validate_envelope : ActionEnvelope → Result ActionEnvelope
  validate_envelope a = do
    operation ← identifier host a.operation (lit "Action operation")
    validate_side_effects operation a.expected_side_effects
    world_id ← identifier host a.world_id (lit "Action world id")
    require (text_eq a.resource_id world_id)
        (lit "Action resource and normalized world argument must match.")
    action_id ← identifier host a.action_id (lit "Action id")
    idempotency_key ← identifier host a.idempotency_key (lit "Action idempotency key")
    actor_id ← identifier host a.actor.id (lit "Action actor id")
    workload_id ← identifier host a.actor.workload_id (lit "Action workload id")
    project_id ← identifier host a.project_id (lit "Action project id")
    policy_version ← positive_integer a.policy.version (lit "Action policy version")
    policy_hash ← hash a.policy.hash (lit "Action policy hash")
    evidence_hash ← hash a.evidence_hash (lit "Action evidence hash")
    expires_at ← timestamp_value a.expires_at (lit "Action expiry")
    nonce ← identifier host a.nonce (lit "Action nonce")
    ok (record {
      action_id = action_id;
      idempotency_key = idempotency_key;
      actor = record { id = actor_id; workload_id = workload_id; type = a.actor.type };
      project_id = project_id;
      operation = operation;
      resource_id = world_id;
      world_id = world_id;
      expected_side_effects = a.expected_side_effects;
      risk_class = a.risk_class;
      reversibility = a.reversibility;
      policy = record { version = policy_version; hash = policy_hash };
      evidence_hash = evidence_hash;
      expires_at = expires_at;
      nonce = nonce;
    })

  -- `actionHash`
  unfoldable pub action_hash : ActionEnvelope → Result Text
  action_hash a = validate_envelope a >>= λ valid. ok (envelope_digest host valid)

  unfoldable pub validate_approval : ActionApproval → Result ActionApproval
  validate_approval a = do
    approved_at ← timestamp_value a.approved_at (lit "Action approval timestamp")
    expires_at ← timestamp_value a.expires_at (lit "Action approval expiry")
    require (ltb approved_at expires_at) (lit "Action approval must expire after it was issued.")
    require (matches_signature a.signature) (lit "Action approval provenance is invalid.")
    approval_id ← identifier host a.approval_id (lit "Action approval id")
    digest ← hash a.action_hash (lit "Action approval hash")
    approved_by ← identifier host a.approved_by (lit "Action approver id")
    nonce ← identifier host a.nonce (lit "Action approval nonce")
    key_id ← identifier host a.key_id (lit "Action approval provenance key id")
    ok (record {
      unsigned = record {
        approval_id = approval_id;
        action_hash = digest;
        approved_by = approved_by;
        approved_at = approved_at;
        expires_at = expires_at;
        nonce = nonce;
      };
      key_id = key_id;
      signature = a.signature;
    })

  -- `actionApprovalHash`
  unfoldable pub action_approval_hash : ActionApproval → Result Text
  action_approval_hash a = validate_approval a >>= λ valid. ok (approval_digest host valid)

  -- `verifyApproval`, without its two tests on the clock.
  unfoldable pub verify_binding : ActionEnvelope → ActionApproval → Result (Unit {0})
  verify_binding action approval = do
    digest ← action_hash action
    require (text_eq approval.action_hash digest)
        (lit "Action approval is not bound to the exact canonical action hash.")
    require
        (not (text_eq approval.approved_by action.actor.id)
          && not (text_eq approval.approved_by action.actor.workload_id))
        (lit "An action actor cannot approve its own high-risk action.")

  -- `verifyApproval` with `enforceExpiry`.
  unfoldable pub verify_approval : ActionEnvelope → ActionApproval → ℕ → Result (Unit {0})
  verify_approval action approval now = do
    verify_binding action approval
    check_approval_times approval now
