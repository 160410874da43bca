-- ===== src/Trust/Canary.antt =====
-- `canaryDecision`, `deterministicBucket`, `targetKey`, and the hashes of the observations.
use ghostapi.Common.{
  ℕ, ◌+◌, ◌-◌, ◌*◌, ◌%◌, Text, lit, text_eq, Bool, true, false, not, ◌&&◌, ◌||◌, ◌++◌, ◌==◌, any,
  length, take, leb, ltb, List, [], ◌∷◌, Json, str, obj, end, field, canonical, if◌then◌else◌,
}
use ghostapi.Trust.Types.{
  Env, Level, Target, PromotionPolicy, CanaryDecision, Observation, OutcomeObservation, Comparison,
}

unfoldable pub same_target : Target → Target → Bool
same_target a b = text_eq a.tenant_id b.tenant_id && text_eq a.resource_id b.resource_id

unfoldable pub target_json : Target → Json
target_json t = obj (
    field (lit "provider") (str (lit "ghostapi-synthetic")) (
      field (lit "environment") (str (lit "synthetic")) (
        field (lit "tenantId") (str t.tenant_id)
          (field (lit "resourceId") (str t.resource_id) end))))

unfoldable pub hex_value : ℕ → ℕ
hex_value c = if leb c b'9' then c - 48 else c - 87

-- `readUInt32BE(0)` of a digest, which is given in hexadecimal.
unfoldable pub read_hex : ℕ → Text → ℕ
unfolding hex_value
read_hex value [] = value
read_hex value (c ∷ cs) = read_hex (value * 16 + hex_value c) cs

-- Whether a list of a scope, which is open if it is empty, has an id.
unfoldable pub is_in_scope : List Text → Text → Bool
is_in_scope ids id = length ids == 0 || any ids (text_eq id)

module _ (env : Env) where
  unfoldable pub target_key : Target → Text
  unfolding target_json
  target_key t = lit "target-" ++ take 32 (env.sha256 (canonical env.host (target_json t)))

  unfoldable pub deterministic_bucket : Text → Target → ℕ
  unfolding read_hex target_key
  deterministic_bucket policy_id t =
      read_hex 0 (
        take 8
          (env.sha256 (lit "ghostapi.trust.canary.v1:" ++ policy_id ++ lit ":" ++ target_key t)))
      % 10_000

  unfoldable pub canary_decision : Target → PromotionPolicy → CanaryDecision
  unfolding is_in_scope
  canary_decision t p =
      let bucket = deterministic_bucket p.id t in
      if not (is_in_scope p.canary.tenant_ids t.tenant_id)
      then record {
        target = t;
        assigned = false;
        bucket = bucket;
        reason = lit "tenant is outside the configured canary scope";
      }
      else if not (is_in_scope p.canary.resource_ids t.resource_id)
      then record {
        target = t;
        assigned = false;
        bucket = bucket;
        reason = lit "resource is outside the configured canary scope";
      }
      else if ltb bucket p.canary.percentage_bps
      then record {
        target = t;
        assigned = true;
        bucket = bucket;
        reason = lit "target is inside deterministic canary scope";
      }
      else record {
        target = t;
        assigned = false;
        bucket = bucket;
        reason = lit "target is outside the configured canary percentage";
      }

  unfoldable pub observation_hash : Observation → Text
  unfolding target_json
  observation_hash o = env.sha256 (
      canonical env.host (
        obj (
          field (lit "target") (target_json o.target) (
            field (lit "actionHash") (str o.action_hash) (
              field (lit "operation") (str o.operation)
                (field (lit "contextHash") (str o.context_hash) end))))))

  unfoldable pub outcome_hash : OutcomeObservation → Text
  unfolding target_json
  outcome_hash o = env.sha256 (
      canonical env.host (
        obj (
          field (lit "target") (target_json o.target) (
            field (lit "actionHash") (str o.action_hash) (
              field (lit "outcomeHash") (str o.outcome_hash)
                (field (lit "executionReceiptHash") (str o.execution_receipt_hash) end))))))

unfoldable pub comparison_evidence : Target → Level → Text → Text → ℕ → Comparison
comparison_evidence target level predicted actual now = record {
  target = target;
  level = level;
  matched = text_eq predicted actual;
  predicted_hash = predicted;
  actual_hash = actual;
  observed_at = now;
}
