-- ===== src/Safety/Audit.antt =====
-- The audit chain: `appendAudit`, the hash of a record, `validateAudit`, `validateAuditChain`.
use ghostapi.Common.{
  ℕ, ◌+◌, Text, lit, Option, none, some, List, [], ◌∷◌, ◌++◌, length, text_eq, ◌==◌, leb, ◌&&◌,
  Result, ok, fail, require, ◌>>=◌, ◌>>◌, if◌then◌else◌, Json, str, num, obj, Fields, end, field,
  canonical,
}
use ghostapi.Safety.Types.{Env, AuditBase, AuditRecord}
use ghostapi.Safety.Validate.{positive, hash, timestamp, optional, identifier, text}

-- `MAX_AUDIT`
abbrev pub max_audit : ℕ
max_audit = 10_000

actor_fields : Option Text → Fields → Fields
actor_fields none fs = fs
actor_fields (some actor) fs = field (lit "actorPrincipalId") (str actor) fs

-- `state.audit.at(-1)?.recordHash ?? state.auditAnchor`
unfoldable pub last_hash : Text → List AuditRecord → Text
last_hash anchor [] = anchor
last_hash anchor (r ∷ rs) = last_hash r.record_hash rs

module _ (env : Env) where
  -- The record as the object that is hashed.
  unfoldable pub audit_json : AuditBase → Json
  unfolding actor_fields
  audit_json b = obj (
      field (lit "sequence") (num b.sequence) (
        field (lit "event") (str b.event) (
          field (lit "subject") (str b.subject) (
            field (lit "reason") (str b.reason) (
              actor_fields b.actor_principal_id (
                field (lit "timestamp") (str (env.iso b.timestamp))
                  (field (lit "previousHash") (str b.previous_hash) end)))))))

  unfoldable pub record_hash : AuditBase → Text
  unfolding audit_json
  record_hash b = env.sha256 (canonical env.host (audit_json b))

  -- The record that `appendAudit` builds.
  unfoldable pub audit_base :
      List AuditRecord → Text → Text → Text → Text → ℕ → Option Text → Result AuditBase
  audit_base audit anchor event subject reason now actor = do
    event ← text env event (lit "Safety audit event") 80
    subject ← text env subject (lit "Safety audit subject") 300
    reason ← text env reason (lit "Safety audit reason") 200
    actor ← optional (λ a. identifier env a (lit "Safety audit actor")) actor
    ok (record {
      sequence = length audit + 1;
      event = event;
      subject = subject;
      reason = reason;
      actor_principal_id = actor;
      timestamp = now;
      previous_hash = last_hash anchor audit;
    })

  -- `appendAudit`, on the two fields that it reads.
  unfoldable pub append_record :
      Text → List AuditRecord → Text → Text → Text → ℕ → Option Text → Result (List AuditRecord)
  unfolding audit_base record_hash
  append_record anchor audit event subject reason now actor =
      if leb max_audit (length audit)
      then fail (lit "Safety audit limit was reached.")
      else (audit_base audit anchor event subject reason now actor >>= λ base.
          ok (audit ++ record { base = base; record_hash = record_hash base } ∷ []))

  unfoldable pub validate_audit : AuditRecord → Result AuditRecord
  unfolding record_hash
  validate_audit r = do
    sequence ← positive r.sequence (lit "Safety audit sequence") max_audit
    event ← text env r.event (lit "Safety audit event") 80
    subject ← text env r.subject (lit "Safety audit subject") 300
    reason ← text env r.reason (lit "Safety audit reason") 200
    actor ← optional (λ a. identifier env a (lit "Safety audit actor")) r.actor_principal_id
    timestamp ← timestamp r.timestamp (lit "Safety audit time")
    previous_hash ← hash r.previous_hash (lit "Safety audit previous hash")
    let base : AuditBase = record {
      sequence = sequence;
      event = event;
      subject = subject;
      reason = reason;
      actor_principal_id = actor;
      timestamp = timestamp;
      previous_hash = previous_hash;
    }
    given ← hash r.record_hash (lit "Safety audit record hash")
    require (text_eq given (record_hash base)) (lit "Safety audit record hash is invalid.")
    ok (record { base = base; record_hash = r.record_hash })

-- The loop of `validateAuditChain`.
unfoldable pub chain_from : Text → ℕ → List AuditRecord → Result (Unit {0})
chain_from previous sequence [] = ok tt
chain_from previous sequence (r ∷ rs) =
    if r.sequence == sequence && text_eq r.previous_hash previous
    then chain_from r.record_hash (sequence + 1) rs
    else fail (lit "Safety audit chain is invalid.")

unfoldable pub validate_audit_chain : Text → List AuditRecord → Result (Unit {0})
unfolding chain_from
validate_audit_chain anchor audit = chain_from anchor 1 audit
