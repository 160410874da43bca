-- ===== src/Safety/Validate/Controls.antt =====
-- `validateScope`, `validateSwitch`, `validateBudget`, `validateCircuit`, `validateOperator`.
use ghostapi.Common.{
  ℕ, String, Text, lit, Option, none, some, Bool, true, false, ◌||◌, is_some, map, Result, ok, fail,
  require, ◌>>=◌, ◌>>◌,
}
use ghostapi.Safety.Types.{
  Env, ScopeKind, Scope, Limits, Budget, Circuit, closed, opened, Switch, Permission, Operator,
  stop, reenable, configure, inspect,
}
use ghostapi.Safety.Scope.{kind_eq}
use ghostapi.Safety.Validate.Fields.{
  max_safe_integer, day_ms, positive, non_negative, bounded_ms, bps, timestamp, optional,
  identifier, text, unique, array,
}

-- `MAX_LEDGER`
abbrev pub max_ledger : ℕ
max_ledger = 10_000

unfoldable pub has_limit : Limits → Bool
has_limit l =
    is_some l.monetary_amount_minor
    || is_some l.requests
    || is_some l.messages
    || is_some l.mutations
    || is_some l.deletes
    || is_some l.token_cost
    || is_some l.concurrency
    || is_some l.velocity

unfoldable pub amount : String → Option ℕ → Result (Option ℕ)
amount label = optional (λ n. non_negative n (lit label) max_safe_integer)

unfoldable pub validate_limits : Limits → Result Limits
validate_limits l = do
  monetary_amount_minor ← amount "Safety budget monetaryAmountMinor" l.monetary_amount_minor
  requests ← amount "Safety budget requests" l.requests
  messages ← amount "Safety budget messages" l.messages
  mutations ← amount "Safety budget mutations" l.mutations
  deletes ← amount "Safety budget deletes" l.deletes
  token_cost ← amount "Safety budget tokenCost" l.token_cost
  concurrency ← amount "Safety budget concurrency" l.concurrency
  velocity ← amount "Safety budget velocity" l.velocity
  require (has_limit l) (lit "Safety budget requires at least one limit.")
  ok (record {
    monetary_amount_minor = monetary_amount_minor;
    requests = requests;
    messages = messages;
    mutations = mutations;
    deletes = deletes;
    token_cost = token_cost;
    concurrency = concurrency;
    velocity = velocity;
  })

unfoldable pub permission_text : Permission → Text
permission_text stop = lit "safety.stop"
permission_text reenable = lit "safety.reenable"
permission_text configure = lit "safety.configure"
permission_text inspect = lit "safety.inspect"

module _ (env : Env) where
  unfoldable pub validate_scope : Scope → Result Scope
  validate_scope s = elim (kind_eq s.kind ScopeKind.global) [
    | true ↦ elim s.id [
      | some _ ↦ fail (lit "Global safety scope cannot have an id.")
      | none ↦ ok (record { kind = ScopeKind.global; id = none })
    ]
    | false ↦ elim s.id [
      | none ↦ fail (lit "Scoped safety control requires an id.")
      | some id ↦ do
        id ← identifier env id (lit "Safety scope id")
        ok (record { kind = s.kind; id = some id })
    ]
  ]

  unfoldable pub validate_switch : Switch → Result Switch
  validate_switch c = do
    scope ← validate_scope c.scope
    changed_at ← timestamp c.changed_at (lit "Safety switch time")
    reason ← text env c.reason (lit "Safety switch reason") 200
    changed_by ← identifier env c.changed_by (lit "Safety switch operator")
    ok (record {
      scope = scope;
      enabled = c.enabled;
      changed_at = changed_at;
      reason = reason;
      changed_by = changed_by;
    })

  unfoldable pub validate_budget : Budget → Result Budget
  validate_budget b = do
    limits ← validate_limits b.limits
    id ← identifier env b.id (lit "Safety budget id")
    scope ← validate_scope b.scope
    window_ms ← bounded_ms b.window_ms (lit "Safety budget window")
    velocity_window_ms ← bounded_ms b.velocity_window_ms (lit "Safety velocity window")
    ok (record {
      id = id;
      scope = scope;
      window_ms = window_ms;
      velocity_window_ms = velocity_window_ms;
      limits = limits;
    })

  -- The last step of `validateCircuit`: an open circuit keeps its audit metadata, a closed one has
  -- none.
  unfoldable pub open_metadata : Circuit → Circuit → Result Circuit
  open_metadata c result = elim c.state [
    | closed ↦ ok result
    | opened ↦ elim c.opened_at [
      | none ↦ fail (lit "Open safety circuit requires audit metadata.")
      | some at ↦ elim c.reason [
        | none ↦ fail (lit "Open safety circuit requires audit metadata.")
        | some why ↦ do
          opened_at ← timestamp at (lit "Safety circuit open time")
          reason ← text env why (lit "Safety circuit reason") 200
          ok (record result { opened_at = some opened_at; reason = some reason })
      ]
    ]
  ]

  unfoldable pub validate_circuit : Circuit → Result Circuit
  unfolding open_metadata
  validate_circuit c = do
    id ← identifier env c.id (lit "Safety circuit id")
    scope ← validate_scope c.scope
    window_ms ← bounded_ms c.window_ms (lit "Safety circuit window")
    minimum_samples ← positive c.minimum_samples (lit "Safety circuit minimum samples") max_ledger
    rate ← bps c.max_failure_rate_bps (lit "Safety circuit failure rate")
    violations ←
        non_negative c.max_policy_violations (lit "Safety circuit policy violations") max_ledger
    latency ← non_negative c.max_latency_ms (lit "Safety circuit latency") day_ms
    mismatches ←
        non_negative c.max_reconciliation_mismatches
          (lit "Safety circuit reconciliation mismatches") max_ledger
    open_metadata c (record {
      id = id;
      scope = scope;
      window_ms = window_ms;
      minimum_samples = minimum_samples;
      max_failure_rate_bps = rate;
      max_policy_violations = violations;
      max_latency_ms = latency;
      max_reconciliation_mismatches = mismatches;
      state = c.state;
      opened_at = none;
      reason = none;
    })

  unfoldable pub validate_operator : Operator → Result Operator
  validate_operator o = do
    permissions ← array o.permissions (lit "Emergency operator permissions") 8
    unique (map permission_text permissions) (lit "Emergency operator permissions")
    id ← identifier env o.id (lit "Emergency operator id")
    principal_id ← identifier env o.principal_id (lit "Emergency operator principal id")
    ok (record { id = id; principal_id = principal_id; permissions = permissions })
