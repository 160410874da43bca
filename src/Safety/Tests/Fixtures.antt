-- ===== src/Safety/Tests/Fixtures.antt =====
-- Values at which the statements about the safety controller are tried out, and a declaration that
-- opens its definitions.
use ghostapi.Common.{
  true, false, err, ℕ, zero, suc, Text, lit, none, some, [], ◌∷◌, ◌+◌, ◌%◌, Result, ok, canonical,
  text_eq, option_eq, is_space, trim_start, trim, is_control, is_lower_or_digit, is_identifier_unit,
  is_hex, matches_identifier, matches_hash, is_unique,
}
use ghostapi.Safety.Types.{
  Env, Scope, ScopeKind, Action, RiskClass, Budget, Operator, Outcome, Permission, State,
}
use ghostapi.Safety.Scope.{
  kind_text, risk_text, kind_eq, scope_value, scope_matches, id_text, scope_key, same_scope,
  ledger_key,
}
use ghostapi.Safety.Validate.{
  invalid, positive, non_negative, bounded_ms, bps, hash, timestamp, unique, array,
  is_safe_identifier, identifier, is_safe_text, text,
}
use ghostapi.Safety.Validate.Controls.{
  has_limit, amount, validate_limits, permission_text, validate_scope, validate_switch,
  validate_budget, open_metadata, validate_circuit, validate_operator,
}
use ghostapi.Safety.Validate.Records.{
  validate_costs, fits_status, status_message, validate_action, validate_outcome, validate_ledger,
  validate_queue_item, validate_dead_letter,
}
use ghostapi.Safety.Audit.{
  last_hash, audit_json, record_hash, audit_base, append_record, validate_audit, chain_from,
  validate_audit_chain,
}
use ghostapi.Safety.Circuit.{
  is_open, is_completed, in_window, completed_since, is_sample, outcome_is, rate_bps, trip_reason,
  trip, kill_switch_code, kill_switch_error, circuit_error, stops, denies, is_watching,
  after_circuit, assert_no_open, assert_not_stopped, evaluate_circuit, evaluate_circuits, evaluate,
  assert_action_allowed,
}
use ghostapi.Safety.Budget.{
  cost_name, cost_at, limit_at, add_costs, add_all, sum_costs, counted, exceeds, check_costs,
  check_budget, assert_budgets,
}
use ghostapi.Safety.Store.{
  Store, validated, distinct, empty_state, validate_state, read, timestamp as clock_reading,
  persist, mutate, append_audit, authorize,
}
use ghostapi.Safety.Operator.{
  or_else, assign_circuit, put_budget, put_circuit, write_switch, set_switch, make_room,
  add_dead_letter, dead_letter_from, dead_letter_matching_queued, configure_budget,
  configure_circuit, stop_state, stop, reenable_state, reenable,
}
use ghostapi.Safety.Lease.{
  has_key, find_ledger, is_live, prune_expired_leases, collides, reserve, complete_entry,
  completion_reason, lease_expired, assert_reserved, admit_new, admit_state, admit, assert_active,
  commit_check, commit_record, commit, completion_audit, complete_state, complete,
}
use ghostapi.Safety.Queue.{queue_id, push_item, enqueue, dequeue_item, dequeue_state, dequeue}
use ghostapi.Safety.Calls.{step, run}

unfoldable pub repeated : ℕ → ℕ → Text
repeated c zero = []
repeated c (suc n) = c ∷ repeated c n

-- Sixty-four hexadecimal digits that depend on the sum of the text.
unfoldable pub digest : Text → Text
unfolding repeated
digest s = (b'0' + total s % 10) ∷ repeated b'a' 63
  where
    total : Text → ℕ
    total [] = 0
    total (c ∷ cs) = c + total cs

unfoldable pub opened : Unit {0}
unfolding kind_text risk_text kind_eq scope_value scope_matches id_text scope_key same_scope
    ledger_key invalid positive non_negative bounded_ms bps hash timestamp unique array
    is_safe_identifier identifier is_safe_text text has_limit amount validate_limits permission_text
    validate_scope validate_switch validate_budget open_metadata validate_circuit validate_operator
    validate_costs fits_status status_message validate_action validate_outcome validate_ledger
    validate_queue_item validate_dead_letter last_hash audit_json record_hash audit_base
    append_record validate_audit chain_from validate_audit_chain is_open is_completed in_window
    completed_since is_sample outcome_is rate_bps trip_reason trip kill_switch_code
    kill_switch_error circuit_error stops denies is_watching after_circuit assert_no_open
    assert_not_stopped evaluate_circuit evaluate_circuits evaluate assert_action_allowed cost_name
    cost_at limit_at add_costs add_all sum_costs counted exceeds check_costs check_budget
    assert_budgets validated distinct empty_state validate_state read clock_reading persist mutate
    append_audit authorize or_else assign_circuit put_budget put_circuit write_switch set_switch
    make_room add_dead_letter dead_letter_from dead_letter_matching_queued configure_budget
    configure_circuit stop_state stop reenable_state reenable has_key find_ledger is_live
    prune_expired_leases collides reserve complete_entry completion_reason lease_expired
    assert_reserved admit_new admit_state admit assert_active commit_check commit_record commit
    completion_audit complete_state complete queue_id push_item enqueue dequeue_item dequeue_state
    dequeue step run lit text_eq option_eq is_space trim_start trim is_control is_lower_or_digit
    is_identifier_unit is_hex matches_identifier matches_hash is_unique canonical digest repeated
opened = tt

abbrev pub test_env : Env
test_env = record {
  host = record {
    sha256 = digest;
    quote = λ s. s;
    decimal = λ n. n ∷ [];
    iso = λ n. n ∷ [];
    sanitize = λ s. s;
  };
  lease_ttl_ms = 60_000;
  store_bytes = λ _. 0;
}

abbrev pub oncall : Result Operator
oncall = ok (record {
  id = lit "oncall";
  principal_id = lit "alice";
  permissions = Permission.stop ∷ Permission.reenable ∷ Permission.configure ∷ [];
})

-- A charge of the provider with this idempotency key.
abbrev pub charge : Text → Action
charge key = record {
  organization_id = lit "acme";
  project_id = lit "shop";
  environment = lit "prod";
  actor_id = lit "agent-1";
  workload_id = lit "billing";
  provider = lit "stripe";
  operation = lit "charge";
  risk_class = RiskClass.money_movement;
  idempotency_key = key;
  action_hash = digest key;
  costs = record {
    monetary_amount_minor = 100;
    requests = 1;
    messages = 0;
    mutations = 1;
    deletes = 0;
    token_cost = 0;
  };
}

abbrev pub stripe : Scope
stripe = record { kind = ScopeKind.provider; id = some (lit "stripe") }

-- At most 250 are spent at the provider in a second.
abbrev pub budget : Budget
budget = record {
  id = lit "daily";
  scope = stripe;
  window_ms = 1_000;
  velocity_window_ms = 1_000;
  limits = record {
    monetary_amount_minor = some 250;
    requests = none;
    messages = none;
    mutations = none;
    deletes = none;
    token_cost = none;
    concurrency = some 5;
    velocity = some 5;
  };
}

-- The store after the budget is configured and one charge admitted.
abbrev pub charged : Store
charged =
    (admit test_env (some 1_000) (charge (lit "order-1"))
      (configure_budget test_env oncall (some 500) budget none).1).1

abbrev pub succeeded : Outcome
succeeded = record {
  success = true;
  policy_violation = false;
  reconciliation_mismatch = false;
  latency_ms = 20;
  reason = none;
}

-- The state that is read from a store.
abbrev pub state_of : Store → State
state_of store = elim (read test_env store) [ ok s ↦ s | err _ ↦ empty_state test_env ]
