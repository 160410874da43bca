-- ===== src/Trust/Validate.antt =====
-- `validatePolicy`, `validateEvidence`, `validateTarget`, the observations, `validateOwner`. The
-- checks of single values are those of the safety controller, of which the ladder has copies with the
-- same texts.
use ghostapi.Common.{
  ℕ, Text, lit, Bool, true, false, not, ◌||◌, ◌==◌, length, ◌++◌, List, map, map_ok, sort_texts,
  Result, ok, require, ◌>>=◌, ◌>>◌,
}
use ghostapi.Safety.Validate.{
  positive, non_negative, bps, bounded_ms, unique, array, hash, timestamp, identifier,
}
use ghostapi.Trust.Types.{
  Env, Target, PromotionPolicy, Evaluation, Evidence, Owner, Observation, OutcomeObservation,
}

-- `MAX_TARGETS`
abbrev pub max_targets : ℕ
max_targets = 1_000

-- `MAX_EVALS`
abbrev pub max_evals : ℕ
max_evals = 100

module _ (env : Env) where
  unfoldable pub identifiers : List Text → Text → ℕ → Bool → Result (List Text)
  identifiers values label max allow_empty = do
    given ← array values label max
    result ← map_ok (λ entry. identifier env.safety entry label) given
    require (allow_empty || not (length result == 0)) (label ++ lit " must not be empty.")
    unique result label
    ok (sort_texts result)

  unfoldable pub validate_policy : PromotionPolicy → Result PromotionPolicy
  unfolding identifiers
  validate_policy p = do
    id ← identifier env.safety p.id (lit "Trust policy id")
    owner ← identifier env.safety p.owner_principal_id (lit "Trust owner principal id")
    runs ← positive p.minimum_runs (lit "Trust minimum runs") 1_000_000
    evals ← identifiers p.required_eval_ids (lit "Trust required eval ids") max_evals false
    violation_rate ← bps p.max_violation_rate_bps (lit "Trust maximum violation rate")
    error_rate ← bps p.max_error_rate_bps (lit "Trust maximum error rate")
    freshness ← bounded_ms p.evidence_freshness_ms (lit "Trust evidence freshness")
    tenants ← identifiers p.canary.tenant_ids (lit "Trust canary tenant ids") max_targets true
    resources ← identifiers p.canary.resource_ids (lit "Trust canary resource ids") max_targets true
    percentage ← bps p.canary.percentage_bps (lit "Trust canary percentage")
    violations ← non_negative p.max_violations (lit "Trust canary maximum violations") 1_000_000
    errors ← non_negative p.max_errors (lit "Trust canary maximum errors") 1_000_000
    ok (record {
      id = id;
      owner_principal_id = owner;
      minimum_runs = runs;
      required_eval_ids = evals;
      max_violation_rate_bps = violation_rate;
      max_error_rate_bps = error_rate;
      evidence_freshness_ms = freshness;
      canary = record {
        tenant_ids = tenants;
        resource_ids = resources;
        percentage_bps = percentage;
      };
      max_violations = violations;
      max_errors = errors;
      violation_response = p.violation_response;
    })

  unfoldable pub validate_evaluation : Evaluation → Result Evaluation
  validate_evaluation e = do
    id ← identifier env.safety e.id (lit "Trust evidence eval id")
    completed_at ← timestamp e.completed_at (lit "Trust evidence eval completion")
    ok (record { id = id; passed = e.passed; completed_at = completed_at })

  unfoldable pub validate_evidence : Evidence → Result Evidence
  unfolding validate_evaluation
  validate_evidence e = do
    run_count ← non_negative e.run_count (lit "Trust evidence run count") 1_000_000
    violations ← non_negative e.violations (lit "Trust evidence violation count") run_count
    errors ← non_negative e.errors (lit "Trust evidence error count") run_count
    given ← array e.evals (lit "Trust evidence evals") max_evals
    evals ← map_ok validate_evaluation given
    unique (map (λ x. x.id) evals) (lit "Trust evidence eval ids")
    observed_at ← timestamp e.observed_at (lit "Trust evidence observation time")
    ok (record {
      run_count = run_count;
      violations = violations;
      errors = errors;
      evals = evals;
      observed_at = observed_at;
    })

  unfoldable pub validate_target : Target → Result Target
  validate_target t = do
    tenant_id ← identifier env.safety t.tenant_id (lit "Trust target tenant id")
    resource_id ← identifier env.safety t.resource_id (lit "Trust target resource id")
    ok (record { tenant_id = tenant_id; resource_id = resource_id })

  unfoldable pub validate_observation : Observation → Result Observation
  unfolding validate_target
  validate_observation o = do
    target ← validate_target o.target
    action_hash ← hash o.action_hash (lit "Shadow action hash")
    operation ← identifier env.safety o.operation (lit "Shadow operation")
    context_hash ← hash o.context_hash (lit "Shadow context hash")
    ok (record {
      target = target;
      action_hash = action_hash;
      operation = operation;
      context_hash = context_hash;
    })

  unfoldable pub validate_outcome_observation : OutcomeObservation → Result OutcomeObservation
  unfolding validate_target
  validate_outcome_observation o = do
    target ← validate_target o.target
    action_hash ← hash o.action_hash (lit "Bounded action hash")
    outcome_hash ← hash o.outcome_hash (lit "Bounded outcome hash")
    receipt_hash ← hash o.execution_receipt_hash (lit "Bounded execution receipt hash")
    ok (record {
      target = target;
      action_hash = action_hash;
      outcome_hash = outcome_hash;
      execution_receipt_hash = receipt_hash;
    })

  unfoldable pub validate_owner : Owner → Result Owner
  validate_owner o = do
    id ← identifier env.safety o.id (lit "Trust owner id")
    principal_id ← identifier env.safety o.principal_id (lit "Trust owner principal id")
    ok (record { id = id; principal_id = principal_id })
