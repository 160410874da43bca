-- ===== src/Approval/Audit.antt =====
-- `appendAudit`, `validateAudit`, `validateAuditChain` of the inbox.
use ghostapi.Common.{
  ℕ, ◌+◌, Text, lit, Option, List, [], ◌∷◌, ◌++◌, length, text_eq, ◌==◌, ◌&&◌, Result, ok, fail,
  require, ◌>>=◌, ◌>>◌, if◌then◌else◌, Json, str, num, obj, end, field, canonical,
}
use ghostapi.Safety.Validate.{positive, hash, timestamp, optional, identifier, text}
use ghostapi.Actions.Json.{optional_field, optional_string}
use ghostapi.Approval.Types.{Env, AuditBase, AuditRecord, Request}

-- `state.audit.at(-1)?.recordHash ?? state.auditAnchor`
unfoldable pub last_hash : Text → List AuditRecord → Text
last_hash anchor [] = anchor
last_hash anchor (r ∷ rs) = last_hash r.record_hash rs

module _ (env : Env) where
  unfoldable pub audit_json : AuditBase → Json
  audit_json b = obj (
      field (lit "sequence") (num b.sequence) (
        field (lit "event") (str b.event) (
          field (lit "requestId") (str b.request_id) (
            field (lit "actionHash") (str b.action_hash) (
              optional_field (lit "actionReceiptHash") (optional_string b.action_receipt_hash) (
                field (lit "actorId") (str b.actor_id) (
                  field (lit "timestamp") (str (env.iso b.timestamp))
                    (field (lit "previousHash") (str b.previous_hash) end))))))))

  unfoldable pub record_hash : AuditBase → Text
  unfolding audit_json
  record_hash b = env.sha256 (canonical env.host (audit_json b))

  -- `appendAudit`, on the two fields that it reads.
  unfoldable pub append_record :
      Text → List AuditRecord → Text → Request → Text → ℕ → Option Text → Result (List AuditRecord)
  unfolding record_hash last_hash
  append_record anchor audit event request actor_id now receipt_hash = do
    actor ← identifier env.safety actor_id (lit "Approval audit actor id")
    let base : AuditBase = record {
      sequence = length audit + 1;
      event = event;
      request_id = request.id;
      action_hash = request.action_hash;
      action_receipt_hash = receipt_hash;
      actor_id = actor;
      timestamp = now;
      previous_hash = last_hash anchor audit;
    }
    ok (audit ++ record { base = base; record_hash = record_hash base } ∷ [])

  unfoldable pub validate_audit : AuditRecord → Result AuditRecord
  unfolding record_hash
  validate_audit r = do
    sequence ← positive r.sequence (lit "Approval audit sequence") 100_000
    event ← text env.safety r.event (lit "Approval audit event") 80
    request_id ← identifier env.safety r.request_id (lit "Approval audit request id")
    action_hash ← hash r.action_hash (lit "Approval audit action hash")
    receipt_hash ← optional (λ h. hash h (lit "Approval audit receipt hash")) r.action_receipt_hash
    actor_id ← identifier env.safety r.actor_id (lit "Approval audit actor id")
    at ← timestamp r.timestamp (lit "Approval audit timestamp")
    previous_hash ← hash r.previous_hash (lit "Approval audit previous hash")
    let base : AuditBase = record {
      sequence = sequence;
      event = event;
      request_id = request_id;
      action_hash = action_hash;
      action_receipt_hash = receipt_hash;
      actor_id = actor_id;
      timestamp = at;
      previous_hash = previous_hash;
    }
    given ← hash r.record_hash (lit "Approval audit record hash")
    require (text_eq given (record_hash base)) (lit "Approval audit record hash is invalid.")
    ok (record { base = base; record_hash = r.record_hash })

-- The loop of `validateAuditChain`.
unfoldable pub chain_from : Text → ℕ → List AuditRecord → Result (Unit {0})
chain_from previous sequence [] = ok tt
chain_from previous sequence (r ∷ rs) =
    if r.sequence == sequence && text_eq r.previous_hash previous
    then chain_from r.record_hash (sequence + 1) rs
    else fail (lit "Approval audit chain is invalid.")
