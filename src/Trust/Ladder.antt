-- ===== src/Trust/Ladder.antt =====
-- `LocalTrustLadder`: `inspect`, `assignCanary`, `promote`, `compareShadow`,
-- `compareBoundedOutcome`, `recordCanaryOutcome`, `rollbackToApproval`. What the owner verifier
-- answers is an argument.
use ghostapi.Common.{
  ℕ, Text, lit, text_eq, true, not, ◌&&◌, ◌||◌, Option, none, some, ◌++◌, Result, ok, err, require,
  if◌then◌else◌,
}
use ghostapi.Common.Action.{Op, pure, lift, ◌>>=◌, ◌>>◌}
use ghostapi.Safety.Validate.{text}
use ghostapi.Trust.Types.{
  Env, Level, shadow, approve, bounded_auto, Target, PromotionPolicy, Evidence, Owner,
  CanaryDecision, Observation, OutcomeObservation, Comparison, CanaryOutcome, TargetState, State,
}
use ghostapi.Trust.Capabilities.{
  level_text, level_eq, local_capabilities, capability_for, next_supported_level,
}
use ghostapi.Trust.Validate.{
  validate_policy, validate_evidence, validate_target, validate_observation,
  validate_outcome_observation, validate_owner,
}
use ghostapi.Trust.Evidence.{assert_promotion_evidence}
use ghostapi.Trust.Canary.{
  same_target, canary_decision, observation_hash, outcome_hash, comparison_evidence,
}
use ghostapi.Trust.Audit.{append_record}
use ghostapi.Trust.Store.{Store, mutate}
use ghostapi.Trust.Targets.{
  find_or_create_target, put_target, outcome_is_violation, demotes, counted, opens_at_once,
  must_open, require_level, is_next, unsupported_reason,
}

module _ (env : Env) where
  unfoldable pub append_audit :
      Text → TargetState → Option Level → Option Level → Text → ℕ → Op State (Unit {0})
  append_audit event t from_level to_level reason now s =
      elim (append_record env s.audit_anchor s.audit event t.target from_level to_level reason
        now) [ ok audit ↦ (ok tt, record s { audit = audit }) | err e ↦ (err e, s) ]

  unfoldable pub assign_state : Target → PromotionPolicy → ℕ → Op State CanaryDecision
  unfolding find_or_create_target
  assign_state target policy now = do
    t ← find_or_create_target target now
    lift (
        require (not t.is_open)
          (lit "Canary circuit breaker is open; no further canary action is allowed."))
    pure (canary_decision env target policy)

  unfoldable pub compare_state :
      Target → Level → Text → Text → Text → Text → Text → ℕ → Op State Comparison
  unfolding find_or_create_target require_level
  compare_state target level event predicted actual same different now = do
    t ← find_or_create_target target now
    lift (
        require (not t.is_open)
          (lit "Canary circuit breaker is open; comparisons cannot continue."))
    lift (require_level t level)
    let c : Comparison = comparison_evidence target level predicted actual now
    append_audit event t none none (if c.matched then same else different) now
    pure c

  -- The mutation of `promote`; a capability that needs a canary is asked for it.
  unfoldable pub promote_state :
      Target → Level → PromotionPolicy → Evidence → Owner → ℕ → Op State TargetState
  unfolding find_or_create_target is_next unsupported_reason
  promote_state target level policy evidence owner now = do
    t ← find_or_create_target target now
    lift (require (not t.is_open) (lit "Trust promotion is blocked by an open circuit breaker."))
    capability ← lift (capability_for local_capabilities level)
    lift (
        require capability.supported (
          lit "Trust level "
          ++ level_text level
          ++ lit " is unsupported: "
          ++ unsupported_reason capability))
    next ← lift (next_supported_level local_capabilities t.level)
    lift (
        require (is_next next level) (
          lit
            "Trust promotion must move to the next supported level; automatic promotion is disabled."))
    lift (assert_promotion_evidence evidence policy now)
    let decision : CanaryDecision = canary_decision env target policy
    lift (
        require (not capability.requires_canary || decision.assigned)
          (lit "Canary scope denies promotion: " ++ decision.reason))
    let t' : TargetState = record t { level = level; updated_at = now }
    put_target t'
    append_audit (lit "trust.promoted") t' (some t.level) (some level)
        (lit "verified owner " ++ owner.principal_id ++ lit " approved promotion") now
    pure t'

  -- The automatic demotion at the end of `recordCanaryOutcome`.
  unfoldable pub demote : TargetState → PromotionPolicy → CanaryOutcome → ℕ → Op State TargetState
  unfolding outcome_is_violation demotes
  demote t policy outcome now =
      if outcome_is_violation outcome && demotes policy
      then (let t' : TargetState = record t { level = approve } in
          put_target t'
          >> append_audit (lit "trust.auto_demoted") t' (some t.level) (some approve)
              (lit "policy violation automatically returned trust to approval mode") now
          >> pure t')
      else pure t

  -- The circuit breaker, after it.
  unfoldable pub trip : TargetState → PromotionPolicy → CanaryOutcome → ℕ → Op State TargetState
  unfolding must_open opens_at_once
  trip t policy outcome now =
      if must_open t policy outcome
      then (let t' : TargetState = record t { is_open = true } in
          put_target t'
          >> append_audit (lit "canary.circuit_opened") t' none none
              (if opens_at_once policy outcome
                then lit "policy violation opened the configured circuit breaker"
                else lit "configured canary stop condition was breached")
              now
          >> pure t')
      else pure t

  -- The mutation of `recordCanaryOutcome`.
  unfoldable pub record_state :
      Target → PromotionPolicy → CanaryOutcome → Text → ℕ → Op State TargetState
  unfolding find_or_create_target level_eq counted demote trip
  record_state target policy outcome reason now = do
    t ← find_or_create_target target now
    lift (
        require (not t.is_open)
          (lit "Canary circuit breaker is open; no further canary action is allowed."))
    lift (
        require (level_eq t.level bounded_auto) (lit "Canary outcomes require bounded-auto trust."))
    let decision : CanaryDecision = canary_decision env target policy
    lift (
        require decision.assigned
          (lit "Canary scope denies outcome recording: " ++ decision.reason))
    let t' : TargetState = counted t outcome now
    put_target t'
    append_audit (lit "canary.outcome") t' none none reason now
    t2 ← demote t' policy outcome now
    trip t2 policy outcome now

  -- The mutation of `rollbackToApproval`.
  unfoldable pub rollback_state : Target → Text → ℕ → Op State TargetState
  unfolding find_or_create_target
  rollback_state target reason now = do
    t ← find_or_create_target target now
    let t' : TargetState = record t { level = approve; updated_at = now }
    put_target t'
    append_audit (lit "trust.rollback_to_approval") t' (some t.level) (some approve) reason now
    pure t'

  module _ (clock : Option ℕ) where
    unfoldable pub inspect : Target → Op Store TargetState
    unfolding find_or_create_target
    inspect target_value = do
      target ← lift (validate_target env target_value)
      mutate env clock (find_or_create_target target)

    unfoldable pub assign_canary : Target → PromotionPolicy → Op Store CanaryDecision
    unfolding assign_state
    assign_canary target_value policy_value = do
      target ← lift (validate_target env target_value)
      policy ← lift (validate_policy env policy_value)
      mutate env clock (assign_state target policy)

    unfoldable pub promote :
        Target → Level → PromotionPolicy → Evidence → Result Owner → Op Store TargetState
    unfolding promote_state
    promote target_value level policy_value evidence_value identity = do
      target ← lift (validate_target env target_value)
      policy ← lift (validate_policy env policy_value)
      evidence ← lift (validate_evidence env evidence_value)
      given ← lift identity
      owner ← lift (validate_owner env given)
      lift (
          require (text_eq owner.principal_id policy.owner_principal_id)
            (lit "Trust promotion requires the configured verified owner decision."))
      mutate env clock (promote_state target level policy evidence owner)

    unfoldable pub compare_shadow : Observation → Observation → Op Store Comparison
    unfolding compare_state
    compare_shadow prediction_value actual_value = do
      prediction ← lift (validate_observation env prediction_value)
      actual ← lift (validate_observation env actual_value)
      lift (
          require (same_target prediction.target actual.target)
            (lit "Shadow comparison cannot mix synthetic identities."))
      mutate env clock (
          compare_state prediction.target shadow (lit "shadow.compared")
            (observation_hash env prediction) (observation_hash env actual)
            (lit "predicted action matches actual input context")
            (lit "predicted action differs from actual input context"))

    unfoldable pub compare_bounded_outcome :
        OutcomeObservation → OutcomeObservation → Op Store Comparison
    unfolding compare_state
    compare_bounded_outcome prediction_value actual_value = do
      prediction ← lift (validate_outcome_observation env prediction_value)
      actual ← lift (validate_outcome_observation env actual_value)
      lift (
          require (same_target prediction.target actual.target)
            (lit "Bounded outcome comparison cannot mix synthetic identities."))
      mutate env clock (
          compare_state prediction.target bounded_auto (lit "bounded.outcome_compared")
            (outcome_hash env prediction) (outcome_hash env actual)
            (lit "predicted and actual bounded outcomes match")
            (lit "predicted and actual bounded outcomes differ"))

    unfoldable pub record_canary_outcome :
        Target → PromotionPolicy → CanaryOutcome → Text → Op Store TargetState
    unfolding record_state
    record_canary_outcome target_value policy_value outcome reason_value = do
      target ← lift (validate_target env target_value)
      policy ← lift (validate_policy env policy_value)
      reason ← lift (text env.safety reason_value (lit "Canary outcome reason") 200)
      mutate env clock (record_state target policy outcome reason)

    unfoldable pub rollback_to_approval :
        Target → PromotionPolicy → Result Owner → Text → Op Store TargetState
    unfolding rollback_state
    rollback_to_approval target_value policy_value identity reason_value = do
      target ← lift (validate_target env target_value)
      policy ← lift (validate_policy env policy_value)
      given ← lift identity
      owner ← lift (validate_owner env given)
      reason ← lift (text env.safety reason_value (lit "Trust rollback reason") 200)
      lift (
          require (text_eq owner.principal_id policy.owner_principal_id)
            (lit "Trust rollback requires the configured verified owner decision."))
      mutate env clock (rollback_state target reason)
