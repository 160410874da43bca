-- ===== src/Trust/Audit.antt =====
-- `appendAudit`, `validateAudit`, `validateAuditChain` of the ladder.
use ghostapi.Common.{
  ℕ, ◌+◌, Text, lit, not, Option, none, some, List, [], ◌∷◌, ◌++◌, length, leb, text_eq, ◌==◌, ◌&&◌,
  Result, ok, fail, require, ◌>>=◌, ◌>>◌, if◌then◌else◌, Json, str, num, obj, end, field, canonical,
}
use ghostapi.Safety.Validate.{positive, hash, timestamp, identifier, text}
use ghostapi.Actions.Json.{optional_field}
use ghostapi.Trust.Types.{Env, Level, Target, AuditBase, AuditRecord}
use ghostapi.Trust.Capabilities.{level_text}
use ghostapi.Trust.Canary.{target_key}

-- `MAX_AUDIT`
abbrev pub max_audit : ℕ
max_audit = 10_000

unfoldable pub optional_level : Option Level → Option Json
unfolding level_text
optional_level none = none
optional_level (some l) = some (str (level_text l))

-- `state.audit.at(-1)?.recordHash ?? state.auditAnchor`
unfoldable pub last_hash : Text → List AuditRecord → Text
last_hash anchor [] = anchor
last_hash anchor (r ∷ rs) = last_hash r.record_hash rs

module _ (env : Env) where
  unfoldable pub audit_json : AuditBase → Json
  unfolding optional_level
  audit_json b = obj (
      field (lit "sequence") (num b.sequence) (
        field (lit "event") (str b.event) (
          field (lit "targetKey") (str b.target_key) (
            optional_field (lit "fromLevel") (optional_level b.from_level) (
              optional_field (lit "toLevel") (optional_level b.to_level) (
                field (lit "reason") (str b.reason) (
                  field (lit "timestamp") (str (env.iso b.timestamp))
                    (field (lit "previousHash") (str b.previous_hash) end))))))))

  unfoldable pub record_hash : AuditBase → Text
  unfolding audit_json
  record_hash b = env.sha256 (canonical env.host (audit_json b))

  -- `appendAudit`, on the fields that it reads.
  unfoldable pub append_record :
      Text
      → List AuditRecord
      → Text
      → Target
      → Option Level
      → Option Level
      → Text
      → ℕ
      → Result (List AuditRecord)
  unfolding record_hash last_hash
  append_record anchor audit event_value target from_level to_level reason_value now = do
    require (not (leb max_audit (length audit))) (lit "Trust audit limit was reached.")
    event ← text env.safety event_value (lit "Trust audit event") 80
    reason ← text env.safety reason_value (lit "Trust audit reason") 200
    let base : AuditBase = record {
      sequence = length audit + 1;
      event = event;
      target_key = target_key env target;
      from_level = from_level;
      to_level = to_level;
      reason = reason;
      timestamp = now;
      previous_hash = last_hash anchor audit;
    }
    ok (audit ++ record { base = base; record_hash = record_hash base } ∷ [])

  unfoldable pub validate_audit : AuditRecord → Result AuditRecord
  unfolding record_hash
  validate_audit r = do
    sequence ← positive r.sequence (lit "Trust audit sequence") max_audit
    event ← text env.safety r.event (lit "Trust audit event") 80
    key ← identifier env.safety r.target_key (lit "Trust audit target key")
    reason ← text env.safety r.reason (lit "Trust audit reason") 200
    at ← timestamp r.timestamp (lit "Trust audit timestamp")
    previous_hash ← hash r.previous_hash (lit "Trust audit previous hash")
    let base : AuditBase = record {
      sequence = sequence;
      event = event;
      target_key = key;
      from_level = r.from_level;
      to_level = r.to_level;
      reason = reason;
      timestamp = at;
      previous_hash = previous_hash;
    }
    given ← hash r.record_hash (lit "Trust audit record hash")
    require (text_eq given (record_hash base)) (lit "Trust audit record hash is invalid.")
    ok (record { base = base; record_hash = r.record_hash })

-- The loop of `validateAuditChain`.
unfoldable pub chain_from : Text → ℕ → List AuditRecord → Result (Unit {0})
chain_from previous sequence [] = ok tt
chain_from previous sequence (r ∷ rs) =
    if r.sequence == sequence && text_eq r.previous_hash previous
    then chain_from r.record_hash (sequence + 1) rs
    else fail (lit "Trust audit chain is invalid.")
