-- ===== src/Safety/Circuit.antt =====
-- Circuit breakers: `evaluateCircuit`, `evaluateCircuits`, `assertActionAllowed`.
pub mod Allows
pub mod Samples
pub mod Clear
use ghostapi.Common.{
  ℕ, ◌+◌, ◌*◌, ◌/◌, Text, lit, Option, none, some, List, [], ◌∷◌, ◌++◌, length, any, find, filter,
  Bool, true, false, not, ◌&&◌, is_some, leb, ltb, ◌==◌, Result, ok, err, Failure, fail,
  if◌then◌else◌,
}
use ghostapi.Common.Action.{Op, ◌>>◌}
use ghostapi.Safety.Types.{
  Env, Action, Circuit, CircuitState, closed, opened, Switch, Entry, Status, reserved, completed,
  Outcome, AuditRecord, State,
}
use ghostapi.Safety.Scope.{scope_matches, scope_key}
use ghostapi.Safety.Audit.{append_record}

unfoldable pub is_open : CircuitState → Bool
is_open closed = false
is_open opened = true

unfoldable pub is_completed : Status → Bool
is_completed reserved = false
is_completed completed = true

-- `Date.parse(at) >= Date.parse(now) - windowMs`
unfoldable pub in_window : ℕ → ℕ → ℕ → Bool
in_window at now window_ms = leb now (at + window_ms)

unfoldable pub completed_since : Option ℕ → ℕ → ℕ → Bool
unfolding in_window
completed_since none now window_ms = false
completed_since (some at) now window_ms = in_window at now window_ms

-- The entries that `evaluateCircuit` counts.
unfoldable pub is_sample : Circuit → ℕ → Entry → Bool
unfolding is_completed completed_since
is_sample c now e =
    is_completed e.status
    && is_some e.outcome
    && scope_matches c.scope e.action
    && completed_since e.completed_at now c.window_ms

-- A test on `entry.outcome!`.
unfoldable pub outcome_is : (Outcome → Bool) → Entry → Bool
outcome_is test e = elim e.outcome [ none ↦ false | some o ↦ test o ]

unfoldable pub rate_bps : ℕ → ℕ → ℕ
rate_bps count total = if total == 0 then 0 else (count * 10_000) / total

-- The reason for which a circuit opens on these samples.
unfoldable pub trip_reason : Circuit → List Entry → Option Text
unfolding outcome_is rate_bps
trip_reason c entries =
    let failures = length (filter (outcome_is (λ o. not o.success)) entries) in
    let violations = length (filter (outcome_is (λ o. o.policy_violation)) entries) in
    let mismatches = length (filter (outcome_is (λ o. o.reconciliation_mismatch)) entries) in
    let slow = any entries (outcome_is (λ o. ltb c.max_latency_ms o.latency_ms)) in
    if ltb (length entries) c.minimum_samples
    then none
    else (if ltb c.max_failure_rate_bps (rate_bps failures (length entries))
        then some (lit "failure rate exceeded")
        else (if ltb c.max_policy_violations violations
            then some (lit "policy violation threshold exceeded")
            else (if ltb c.max_reconciliation_mismatches mismatches
                then some (lit "reconciliation mismatch threshold exceeded")
                else (if slow then some (lit "latency threshold exceeded") else none))))

unfoldable pub trip : Circuit → ℕ → Text → Circuit
trip c now reason = record c { state = opened; opened_at = some now; reason = some reason }

-- The circuits and the audit chain after some evaluations, and whether one threw.
abbrev pub Evaluated : Type 0
Evaluated = Result (Unit {0}) × List Circuit × List AuditRecord

unfoldable pub kill_switch_code : Text
kill_switch_code = lit "SAFETY_KILL_SWITCH"

unfoldable pub kill_switch_error : Switch → Failure
unfolding kill_switch_code
kill_switch_error c = record {
  message = lit "Kill switch is active for " ++ scope_key c.scope ++ lit ".";
  code = some kill_switch_code;
}

unfoldable pub circuit_error : Circuit → Text
circuit_error c = lit "Safety circuit breaker is open: " ++ c.id ++ lit "."

unfoldable pub stops : Action → Switch → Bool
stops a c = c.enabled && scope_matches c.scope a

unfoldable pub denies : Action → Circuit → Bool
unfolding is_open
denies a c = is_open c.state && scope_matches c.scope a

unfoldable pub is_watching : Action → Circuit → Bool
unfolding is_open
is_watching a c = not (is_open c.state) && scope_matches c.scope a

-- The rest of the loop, once a circuit was evaluated.
unfoldable pub after_circuit :
    Result (Unit {0}) × Circuit × List AuditRecord
    → List Circuit
    → (List AuditRecord → Evaluated)
    → Evaluated
after_circuit (ok _, c, audit) cs rest = let (r, cs', audit') = rest audit in (r, c ∷ cs', audit')
after_circuit (err e, c, audit) cs rest = (err e, c ∷ cs, audit)

-- The test for an open circuit, before and after the evaluation.
unfoldable pub assert_no_open : Action → Op State (Unit {0})
unfolding denies circuit_error
assert_no_open a s = elim (find (denies a) s.circuits) [
  | none ↦ (ok tt, s)
  | some c ↦ (fail (circuit_error c), s)
]

unfoldable pub assert_not_stopped : Action → Op State (Unit {0})
unfolding stops kill_switch_error
assert_not_stopped a s = elim (find (stops a) s.switches) [
  | none ↦ (ok tt, s)
  | some c ↦ (err (kill_switch_error c), s)
]

module _ (env : Env) where
  -- `evaluateCircuit`: the circuit is opened before the audit record is appended, which may throw.
  unfoldable pub evaluate_circuit :
      List Entry
      → Text
      → ℕ
      → Circuit
      → List AuditRecord
      → Result (Unit {0}) × Circuit × List AuditRecord
  unfolding is_sample trip_reason trip
  evaluate_circuit ledger anchor now c audit =
      elim (trip_reason c (filter (is_sample c now) ledger)) [
        | none ↦ (ok tt, c, audit)
        | some why ↦
            elim (append_record env anchor audit (lit "circuit.opened") c.id why now none) [
              | ok audit' ↦ (ok tt, trip c now why, audit')
              | err e ↦ (err e, trip c now why, audit)
            ]
      ]

  -- `for (const circuit of state.circuits) if (closed && scopeMatches) evaluateCircuit(…)`
  unfoldable pub evaluate_circuits :
      List Entry → Text → Action → ℕ → List Circuit → List AuditRecord → Evaluated
  unfolding is_watching after_circuit
  evaluate_circuits ledger anchor a now [] audit = (ok tt, [], audit)
  evaluate_circuits ledger anchor a now (c ∷ cs) audit =
      let rest = evaluate_circuits ledger anchor a now cs in
      elim (is_watching a c) [
        | true ↦ after_circuit (evaluate_circuit ledger anchor now c audit) cs rest
        | false ↦ after_circuit (ok tt, c, audit) cs rest
      ]

  unfoldable pub evaluate : Action → ℕ → Op State (Unit {0})
  unfolding evaluate_circuits
  evaluate a now s =
      let (r, circuits, audit) =
        evaluate_circuits s.ledger s.audit_anchor a now s.circuits s.audit in
      (r, record s { circuits = circuits; audit = audit })

  unfoldable pub assert_action_allowed : Action → ℕ → Op State (Unit {0})
  unfolding assert_not_stopped assert_no_open evaluate
  assert_action_allowed a now = do
    assert_not_stopped a
    assert_no_open a
    evaluate a now
    assert_no_open a
