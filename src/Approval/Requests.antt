-- ===== src/Approval/Requests.antt =====
-- `validateRequest` and the validators below it.
use ghostapi.Common.{
  ℕ, ◌+◌, [], ◌∷◌, take, Text, lit, text_eq, ◌==◌, Bool, true, false, not, ◌&&◌, ◌||◌, is_some,
  Option, none, List, leb, ltb, map_ok, ◌++◌, Failure, Result, ok, err, require, ◌>>=◌, ◌>>◌,
  if◌then◌else◌, arr, canonical,
}
use ghostapi.Safety.Validate.{
  positive, non_negative, max_safe_integer, array, hash, timestamp, optional, identifier, text,
}
use ghostapi.Actions.Types.{ActionEnvelope, ActionApproval}
use ghostapi.Actions.Fields.{matches_signature}
use ghostapi.Actions.Json.{text_items}
use ghostapi.Actions.Validate.{validate_envelope, action_hash}
use ghostapi.Approval.Types.{
  Env, RequestStatus, Policy, pending, DecisionKind, approved, executing, executed,
  execution_failed, Context, Approver, Decision, PolicyRecord, Request,
}
use ghostapi.Approval.Policy.{percentage, classify, risk_eq, evaluate, policy_hash}

-- `MAX_DECISIONS`
abbrev pub max_decisions : ℕ
max_decisions = 4

unfoldable pub needs_artifact : RequestStatus → Bool
needs_artifact approved = true
needs_artifact executing = true
needs_artifact executed = true
needs_artifact execution_failed = true
needs_artifact _ = false

unfoldable pub needs_consumption : RequestStatus → Bool
needs_consumption executing = true
needs_consumption executed = true
needs_consumption execution_failed = true
needs_consumption _ = false

unfoldable pub is_executed : RequestStatus → Bool
is_executed executed = true
is_executed _ = false

unfoldable pub validate_context : Context → Result Context
validate_context c = do
  confidence ← percentage c.confidence (lit "Approval confidence")
  amount ← optional (λ n. non_negative n (lit "Approval amount") max_safe_integer) c.amount_minor
  ok (record { confidence = confidence; amount_minor = amount })

-- What becomes of an error of the gateway's validators: those of the inbox are not of its class.
abbrev pub of_gateway : {A : Type 0} → (Failure → Failure) → Result A → Result A
of_gateway foreign (ok a) = ok a
of_gateway foreign (err e) = err (foreign e)

-- `Math.min`
unfoldable pub least : ℕ → ℕ → ℕ
least a b = if leb a b then a else b

-- `reasons.join("; ")`
unfoldable pub joined : List Text → Text
joined [] = []
joined (x ∷ []) = x
joined (x ∷ y ∷ ys) = x ++ lit "; " ++ joined (y ∷ ys)

module _ (env : Env) where
  unfoldable pub validate_approver : Approver → Result Approver
  validate_approver a = do
    id ← identifier env.safety a.id (lit "Approver id")
    principal_id ← identifier env.safety a.principal_id (lit "Approver principal id")
    independence_key ← identifier env.safety a.independence_key (lit "Approver independence key")
    ok (record { id = id; principal_id = principal_id; independence_key = independence_key })

  unfoldable pub validate_decision : Decision → Result Decision
  unfolding validate_approver
  validate_decision d = do
    id ← identifier env.safety d.id (lit "Approval decision id")
    approver ← validate_approver d.approver
    reason ← optional (λ r. text env.safety r (lit "Approval decision reason") 200) d.reason
    decided_at ← timestamp d.decided_at (lit "Approval decision time")
    ok (record {
      id = id;
      kind = d.kind;
      approver = approver;
      reason = reason;
      decided_at = decided_at;
    })

  unfoldable pub policy_record : PolicyRecord → Result PolicyRecord
  policy_record p = do
    require (p.required_approvals == 1 || p.required_approvals == 2)
        (lit "Approval requirement is invalid.")
    id ← identifier env.safety p.id (lit "Approval policy id")
    version ← positive p.version (lit "Approval policy version") 100_000
    digest ← hash p.hash (lit "Approval policy hash")
    ok (record {
      id = id;
      version = version;
      hash = digest;
      required_approvals = p.required_approvals;
    })

  -- `displayRecord`, on the reasons: the rest of a display is computed.
  unfoldable pub display_record : List Text → Result (List Text)
  display_record reasons = do
    given ← array reasons (lit "Approval policy reason") 16
    trimmed ← map_ok (λ r. text env.safety r (lit "Approval policy reason") 200) given
    require
        (text_eq (canonical env.host (arr (text_items reasons)))
          (canonical env.host (arr (text_items trimmed))))
        (lit "Approval display does not match normalized action data.")
    ok trimmed

  unfoldable pub validate_artifact : Text → ActionApproval → Result ActionApproval
  validate_artifact digest a = do
    require (text_eq a.action_hash digest && text_eq a.approved_by (lit "approval-inbox"))
        (lit "Approval artifact is invalid.")
    require (matches_signature a.signature) (lit "Approval artifact provenance is invalid.")
    approval_id ← identifier env.safety a.approval_id (lit "Approval artifact id")
    approved_at ← timestamp a.approved_at (lit "Approval artifact issue time")
    expires_at ← timestamp a.expires_at (lit "Approval artifact expiry")
    nonce ← identifier env.safety a.nonce (lit "Approval artifact nonce")
    key_id ← identifier env.safety a.key_id (lit "Approval artifact key id")
    ok (record {
      unsigned = record {
        approval_id = approval_id;
        action_hash = digest;
        approved_by = lit "approval-inbox";
        approved_at = approved_at;
        expires_at = expires_at;
        nonce = nonce;
      };
      key_id = key_id;
      signature = a.signature;
    })

  -- The rest of `validateRequest`, once the action, the policy and the decisions are read: the times,
  -- and what the status demands.
  unfoldable pub validate_progress :
      Request
      → ActionEnvelope
      → Text
      → Context
      → PolicyRecord
      → List Text
      → List Decision
      → Result Request
  unfolding validate_artifact
  validate_progress r action digest context policy reasons decisions = do
    created_at ← timestamp r.created_at (lit "Approval creation time")
    expires_at ← timestamp r.expires_at (lit "Approval expiry")
    escalation_at ← timestamp r.escalation_at (lit "Approval escalation time")
    require (ltb created_at expires_at && leb escalation_at expires_at)
        (lit "Approval request lifecycle is invalid.")
    artifact ← optional (validate_artifact digest) r.artifact
    require (not (needs_artifact r.status) || is_some artifact)
        (lit "Approved requests require an approval artifact.")
    consumed_at ← optional (λ t. timestamp t (lit "Approval consumption time")) r.consumed_at
    require (not (needs_consumption r.status) || is_some consumed_at)
        (lit "Executed approvals require consumption metadata.")
    receipt_hash ←
        optional (λ h. hash h (lit "Approval execution receipt hash")) r.execution_receipt_hash
    require (not (is_executed r.status) || is_some receipt_hash)
        (lit "Executed approvals require an action receipt hash.")
    id ← identifier env.safety r.id (lit "Approval request id")
    supersedes ←
        optional (λ s. identifier env.safety s (lit "Superseded approval request id"))
          r.supersedes_request_id
    ok (record {
      id = id;
      action = action;
      action_hash = digest;
      risk = r.risk;
      context = context;
      policy = policy;
      policy_reason = reasons;
      status = r.status;
      created_at = created_at;
      expires_at = expires_at;
      escalation_at = escalation_at;
      decisions = decisions;
      artifact = artifact;
      consumed_at = consumed_at;
      execution_receipt_hash = receipt_hash;
      supersedes_request_id = supersedes;
    })

  unfoldable pub validate_request : (Failure → Failure) → Request → Result Request
  unfolding validate_progress
  validate_request foreign r = do
    action ← of_gateway foreign (validate_envelope env.host r.action)
    digest ← hash r.action_hash (lit "Approval action hash")
    expected ← of_gateway foreign (action_hash env.host action)
    require (text_eq expected digest) (lit "Approval request action is invalid.")
    risk ← classify action
    require (risk_eq risk r.risk) (lit "Approval request action is invalid.")
    context ← validate_context r.context
    policy ← policy_record r.policy
    reasons ← display_record r.policy_reason
    given ← array r.decisions (lit "Approval decisions") max_decisions
    decisions ← map_ok validate_decision given
    validate_progress r action digest context policy reasons decisions

  -- The new request that `request` makes.
  unfoldable pub new_request :
      Policy → ActionEnvelope → Context → List Request → ℕ → Text → Result Request
  unfolding least joined
  new_request policy action context history now fresh = do
    decision ← evaluate policy action context history now none
    require decision.allowed (lit "Approval policy denies this action: " ++ joined decision.reasons)
    id ← identifier env.safety (lit "approval-" ++ fresh) (lit "Approval request id")
    digest ← action_hash env.host action
    risk ← classify action
    ok (record {
      id = id;
      action = action;
      action_hash = digest;
      risk = risk;
      context = context;
      policy = record {
        id = policy.id;
        version = policy.version;
        hash = policy_hash env policy;
        required_approvals = decision.required_approvals;
      };
      policy_reason = decision.reasons;
      status = pending;
      created_at = now;
      expires_at = least action.expires_at (now + policy.approval_ttl_ms);
      escalation_at = now + policy.escalation_timeout_ms;
      decisions = [];
      artifact = none;
      consumed_at = none;
      execution_receipt_hash = none;
      supersedes_request_id = none;
    })

  -- A decision of an approver at a time.
  unfoldable pub new_decision : Approver → DecisionKind → Option Text → ℕ → Text → Result Decision
  new_decision approver kind reason now fresh = do
    id ← identifier env.safety (lit "decision-" ++ fresh) (lit "Approval decision id")
    ok (record { id = id; kind = kind; approver = approver; reason = reason; decided_at = now })

  -- `createArtifact`
  unfoldable pub create_artifact : Request → ℕ → Result ActionApproval
  create_artifact r now = env.sign (record {
    approval_id = r.id;
    action_hash = r.action_hash;
    approved_by = lit "approval-inbox";
    approved_at = now;
    expires_at = r.expires_at;
    nonce = lit "inbox-" ++ take 32 r.action_hash;
  })
