-- ===== src/Actions/Json.antt =====
-- The canonical JSON of envelopes, approvals and receipts, and the hashes of src/actions/gateway.ts.
use ghostapi.Common.{
  Text, lit, Option, none, some, List, [], ◌∷◌, ◌++◌, Host, Json, false, bool, num, str, arr, obj,
  Items, nil, cons, Fields, end, field, canonical,
}
use ghostapi.Safety.Scope.{risk_text}
use ghostapi.Actions.Types.{
  ActorType, agent, service, Reversibility, irreversible, compensatable, Actor, ActionEnvelope,
  UnsignedActionApproval, ActionApproval, ReceiptStatus, requested, attempted, committed, verified,
  failed, ReceiptResult, FailureCode, execution_error, unknown_outcome, verification_failed,
  ReceiptBase,
}

unfoldable pub actor_type_text : ActorType → Text
actor_type_text agent = lit "agent"
actor_type_text service = lit "service"

unfoldable pub reversibility_text : Reversibility → Text
reversibility_text irreversible = lit "none"
reversibility_text compensatable = lit "compensatable"

unfoldable pub receipt_status_text : ReceiptStatus → Text
receipt_status_text requested = lit "requested"
receipt_status_text attempted = lit "attempted"
receipt_status_text committed = lit "committed"
receipt_status_text verified = lit "verified"
receipt_status_text failed = lit "failed"

unfoldable pub failure_code_text : FailureCode → Text
failure_code_text execution_error = lit "execution_error"
failure_code_text unknown_outcome = lit "unknown_outcome"
failure_code_text verification_failed = lit "verification_failed"

unfoldable pub text_items : List Text → Items
text_items [] = nil
text_items (x ∷ xs) = cons (str x) (text_items xs)

-- A field that an object has only if it is defined.
unfoldable pub optional_field : Text → Option Json → Fields → Fields
optional_field key none fs = fs
optional_field key (some value) fs = field key value fs

unfoldable pub string_field : Text → Text → Fields → Fields
string_field key value fs = field key (str value) fs

unfoldable pub optional_string : Option Text → Option Json
optional_string none = none
optional_string (some s) = some (str s)

unfoldable pub result_json : ReceiptResult → Json
unfolding string_field
result_json r = obj (
    string_field (lit "worldId") r.world_id (
      string_field (lit "subscriptionId") r.subscription_id
        (string_field (lit "syntheticReceiptId") r.synthetic_receipt_id end)))

unfoldable pub failure_json : FailureCode → Json
unfolding string_field failure_code_text
failure_json code =
    obj (
      string_field (lit "code") (failure_code_text code) (field (lit "retrySafe") (bool false) end))

unfoldable pub optional_result : Option ReceiptResult → Option Json
optional_result none = none
optional_result (some r) = some (result_json r)

unfoldable pub optional_failure : Option FailureCode → Option Json
optional_failure none = none
optional_failure (some code) = some (failure_json code)

module _ (host : Host) where
  unfoldable pub actor_json : Actor → Json
  unfolding string_field actor_type_text
  actor_json a = obj (
      string_field (lit "id") a.id (
        string_field (lit "workloadId") a.workload_id
          (string_field (lit "type") (actor_type_text a.type) end)))

  unfoldable pub envelope_json : ActionEnvelope → Json
  unfolding string_field actor_json reversibility_text text_items
  envelope_json a = obj (
      field (lit "schemaVersion") (num 1) (
        string_field (lit "kind") (lit "ghostapi.action") (
          string_field (lit "actionId") a.action_id (
            string_field (lit "idempotencyKey") a.idempotency_key (
              field (lit "actor") (actor_json a.actor) (
                field (lit "project")
                  (obj (
                    string_field (lit "id") a.project_id
                      (string_field (lit "environment") (lit "synthetic") end)))
                  (string_field (lit "provider") (lit "ghostapi-synthetic") (
                    string_field (lit "operation") a.operation (
                      field (lit "resource")
                        (obj (
                          string_field (lit "type") (lit "synthetic-world")
                            (string_field (lit "id") a.resource_id end)))
                        (field (lit "arguments") (obj (string_field (lit "worldId") a.world_id end))
                          (field (lit "expectedSideEffects")
                            (arr (text_items a.expected_side_effects))
                            (string_field (lit "riskClass") (risk_text a.risk_class) (
                              string_field (lit "reversibility")
                                (reversibility_text a.reversibility)
                                (field (lit "policy")
                                  (obj (
                                    field (lit "version") (num a.policy.version)
                                      (string_field (lit "hash") a.policy.hash end)))
                                  (field (lit "evidence")
                                    (obj (string_field (lit "hash") a.evidence_hash end))
                                    (string_field (lit "expiresAt") (host.iso a.expires_at)
                                      (string_field (lit "nonce") a.nonce end)))))))))))))))))

  unfoldable pub unsigned_fields : UnsignedActionApproval → Fields → Fields
  unfolding string_field
  unsigned_fields a rest = field (lit "schemaVersion") (num 1) (
      string_field (lit "kind") (lit "ghostapi.action-approval") (
        string_field (lit "approvalId") a.approval_id (
          string_field (lit "actionHash") a.action_hash (
            string_field (lit "approvedBy") a.approved_by (
              string_field (lit "approvedAt") (host.iso a.approved_at) (
                string_field (lit "expiresAt") (host.iso a.expires_at)
                  (string_field (lit "nonce") a.nonce rest)))))))

  unfoldable pub approval_json : ActionApproval → Json
  unfolding string_field unsigned_fields
  approval_json a = obj (
      unsigned_fields a.unsigned (
        field (lit "provenance")
          (obj (
            string_field (lit "kind") (lit "ghostapi.ed25519-signature") (
              string_field (lit "keyId") a.key_id
                (string_field (lit "signature") a.signature end))))
          end))

  unfoldable pub receipt_json : ReceiptBase → Json
  unfolding string_field optional_field optional_string optional_result optional_failure
      receipt_status_text result_json failure_json
  receipt_json r = obj (
      string_field (lit "receiptId") r.receipt_id (
        string_field (lit "actionId") r.action_id (
          string_field (lit "actionHash") r.action_hash (
            string_field (lit "status") (receipt_status_text r.status) (
              string_field (lit "timestamp") (host.iso r.timestamp) (
                optional_field (lit "providerRequestId") (optional_string r.provider_request_id) (
                  optional_field (lit "result") (optional_result r.result) (
                    optional_field (lit "failure") (optional_failure r.failure)
                      (string_field (lit "previousReceiptHash") r.previous_receipt_hash end)))))))))

  unfoldable pub receipt_hash : ReceiptBase → Text
  receipt_hash r = host.sha256 (canonical host (receipt_json r))

  -- The hash of an approval that has been validated.
  unfoldable pub approval_digest : ActionApproval → Text
  approval_digest a = host.sha256 (canonical host (approval_json a))

  -- The hash of an envelope that has been validated.
  unfoldable pub envelope_digest : ActionEnvelope → Text
  envelope_digest a = host.sha256 (canonical host (envelope_json a))

  unfoldable pub receipt_genesis_hash : Text → Text
  receipt_genesis_hash digest = host.sha256 (lit "ghostapi.action.receipt.v1:" ++ digest)
