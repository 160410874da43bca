-- ===== src/Trust/Targets.antt =====
-- What the trust ladder keeps of a target, and its tests on one.
use ghostapi.Common.{
  ℕ, ◌+◌, Text, lit, Bool, true, false, not, ◌&&◌, ◌||◌, ltb, leb, Option, none, some, [], ◌∷◌,
  ◌++◌, length, find, update_first, Result, ok, fail, require, if◌then◌else◌,
}
use ghostapi.Common.Action.{Op, modify}
use ghostapi.Trust.Types.{
  Level, simulate, Target, Capability, PromotionPolicy, demote_to_approve, open_circuit_breaker,
  CanaryOutcome, violation, error, TargetState, State,
}
use ghostapi.Trust.Capabilities.{level_text, level_eq}
use ghostapi.Trust.Validate.{max_targets}
use ghostapi.Trust.Canary.{same_target}

abbrev pub is_for : Target → TargetState → Bool
is_for target t = same_target t.target target

-- A target that was not seen before.
unfoldable pub created : Target → ℕ → TargetState
created target now = record {
  target = target;
  level = simulate;
  is_open = false;
  observed = 0;
  violations = 0;
  errors = 0;
  updated_at = now;
}

unfoldable pub find_or_create_target : Target → ℕ → Op State TargetState
unfolding created
find_or_create_target target now s = elim (find (is_for target) s.targets) [
  | some t ↦ (ok t, s)
  | none ↦
      if leb max_targets (length s.targets)
      then (fail (lit "Trust target limit was reached."), s)
      else (ok (created target now), record s { targets = s.targets ++ created target now ∷ [] })
]

-- The assignments to a target, as it is in the state.
abbrev pub put_target : TargetState → Op State (Unit {0})
put_target t =
    modify (λ s. record s { targets = update_first (is_for t.target) (λ _. t) s.targets })

unfoldable pub outcome_is_violation : CanaryOutcome → Bool
outcome_is_violation violation = true
outcome_is_violation _ = false

unfoldable pub outcome_is_error : CanaryOutcome → Bool
outcome_is_error error = true
outcome_is_error _ = false

unfoldable pub demotes : PromotionPolicy → Bool
demotes p = elim p.violation_response [ demote_to_approve ↦ true | open_circuit_breaker ↦ false ]

unfoldable pub count_if : Bool → ℕ → ℕ
count_if test n = if test then n + 1 else n

-- A target after one more outcome of its canary.
unfoldable pub counted : TargetState → CanaryOutcome → ℕ → TargetState
unfolding outcome_is_violation outcome_is_error count_if
counted t outcome now = record t {
  observed = t.observed + 1;
  violations = count_if (outcome_is_violation outcome) t.violations;
  errors = count_if (outcome_is_error outcome) t.errors;
  updated_at = now;
}

-- Whether a violation opens the circuit breaker by itself.
unfoldable pub opens_at_once : PromotionPolicy → CanaryOutcome → Bool
unfolding outcome_is_violation demotes
opens_at_once p outcome = outcome_is_violation outcome && not (demotes p)

unfoldable pub must_open : TargetState → PromotionPolicy → CanaryOutcome → Bool
unfolding opens_at_once
must_open t p outcome =
    opens_at_once p outcome
    || (ltb 0 t.violations && leb p.max_violations t.violations)
    || (ltb 0 t.errors && leb p.max_errors t.errors)

unfoldable pub require_level : TargetState → Level → Result (Unit {0})
unfolding level_eq
require_level t level =
    require (level_eq t.level level)
      (lit "Trust target is not active at " ++ level_text level ++ lit ".")

-- Whether a level is the one that comes next.
unfoldable pub is_next : Option Level → Level → Bool
unfolding level_eq
is_next none level = false
is_next (some next) level = level_eq level next

-- `capability.reason ?? "provider capability is unavailable"`
unfoldable pub unsupported_reason : Capability → Text
unsupported_reason c = elim c.reason [
  | none ↦ lit "provider capability is unavailable"
  | some r ↦ r
]
