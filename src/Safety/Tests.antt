-- ===== src/Safety/Tests.antt =====
-- The statements about the safety controller at concrete inputs.
pub mod Fixtures
use ghostapi.Common.{
  arith, ℕ, zero, suc, ◌≡◌, ◌≢◌, ◌↔◌, refl, Text, lit, Option, none, some, List, [], ◌∷◌, ◌<◌, ◌+◌,
  All, Bool, true, false, filter, any, length, trim, Result, ok, err, Failure,
}
use ghostapi.Common.Action.{pure}
use ghostapi.Safety.Types.{AuditRecord, closed, Env, Scope, State, QueueItem}
use ghostapi.Safety.Scope.{scope_matches, ledger_key}
use ghostapi.Safety.Store.{Store, read, empty_state}
use ghostapi.Safety.Operator.{configure_budget, stop, stop_state}
use ghostapi.Safety.Lease.{Lease, admit, commit}
use ghostapi.Safety.Queue.{enqueue}
use ghostapi.Safety.Calls.{Call, run}
use ghostapi.Safety.Budget.Spent.{IsWithin}
use ghostapi.Safety.Budget.Bounds.{admit-IsWithin}
use ghostapi.Safety.Queue.Stopped.{remains, stop_state-queue, stop-refused}
use ghostapi.Safety.KillSwitch.Stops.{stop-admit, stop-commit, stop-enqueue}
use ghostapi.Safety.GameDay.{global_scope, is_globally_stopped, run_scheduled_game_day}
use ghostapi.Safety.GameDay.Stuck.{Fails, run_scheduled_game_day-StoreIsStopped}
use ghostapi.Safety.KillSwitch.Effect.{StoreIsStopped}
use ghostapi.Safety.Circuit.{assert_action_allowed}
use ghostapi.Safety.Circuit.Clear.{IsClear, assert_action_allowed-IsClear}
use ghostapi.Safety.Lease.Again.{admit-again}
use ghostapi.Safety.Lease.Once.{complete-commit, complete-admit}
use ghostapi.Safety.Lease.{complete, has_key}
use ghostapi.Safety.Tests.Fixtures.{
  budget, opened, repeated, test_env, oncall, charge, stripe, budget, charged, succeeded, state_of,
}

abbrev order1 : Lease
order1 = record {
  action = charge (lit "order-1");
  key = ledger_key (charge (lit "order-1"));
  replay = false;
}

abbrev stopped : Result (Unit {0}) × Store
stopped = stop test_env oncall (some 1_500) stripe (lit "leak") charged

-- After the stop somebody asks for another charge, and for the next queued action.
abbrev history : List (Option ℕ × Call)
history = (some 1_600, Call.admits (charge (lit "order-2"))) ∷ (some 1_700, Call.dequeues) ∷ []

stop-admit_example : (record order1 { replay = true }).replay ≡ true
unfolding opened
stop-admit_example =
    stop-admit test_env oncall (some 1_500) stripe (lit "leak") charged refl history (tt, (tt, tt))
      (some 2_000) (charge (lit "order-1")) (record order1 { replay = true }) refl refl

stop-commit_example :
    let now = run test_env history stopped.1 in
    (e : Failure) × (commit test_env order1 (some 2_000) (some 2_100) (pure tt) now ≡ (err e, now))
unfolding opened
stop-commit_example =
    stop-commit test_env oncall (some 1_500) stripe (lit "leak") charged refl history (tt, (tt, tt))
      order1 (some 2_000) (some 2_100) (pure tt) refl

stop-enqueue_example :
    let now = run test_env history stopped.1 in
    (e : Failure) × (enqueue test_env (some 2_000) (charge (lit "order-3")) now ≡ (err e, now))
unfolding opened
stop-enqueue_example =
    stop-enqueue test_env oncall (some 1_500) stripe (lit "leak") charged refl history
      (tt, (tt, tt)) (some 2_000) (charge (lit "order-3")) refl

abbrev order2 : Lease
order2 = record {
  action = charge (lit "order-2");
  key = ledger_key (charge (lit "order-2"));
  replay = false;
}

admit-IsWithin_example :
    (s : State) × ((admit test_env (some 1_600) (charge (lit "order-2")) charged).1 ≡ some s)
    × All
        (λ b. scope_matches b.scope (charge (lit "order-2")) ≡ true → IsWithin b 1_600 s.ledger)
        s.budgets
unfolding opened
admit-IsWithin_example =
    admit-IsWithin test_env 1_600 (charge (lit "order-2")) charged order2 refl refl

abbrev item : Text → Text → QueueItem
item id provider = record {
  id = id;
  action = record (charge id) { provider = provider };
  queued_at = 1_000;
}

-- A queue with a charge of the provider between two of another.
abbrev queued : State
queued = record (empty_state test_env) {
  queue =
      item (lit "q-1") (lit "other")
      ∷ item (lit "q-2") (lit "stripe")
      ∷ item (lit "q-3") (lit "other")
      ∷ [];
}

abbrev drained : Result (Unit {0}) × State
drained = stop_state test_env stripe (lit "leak") (lit "alice") 2_000 queued

stop_state-queue_example : drained.1.queue ≡ filter (remains stripe) queued.queue
unfolding opened
stop_state-queue_example =
    stop_state-queue test_env stripe (lit "leak") (lit "alice") 2_000 queued drained.1 refl

abbrev long_reason : Text
long_reason = repeated b'x' 188

stop-refused_example :
    (e : Failure) × (stop test_env oncall (some 2_000) stripe long_reason (some queued)
      ≡ (err e, some queued))
unfolding opened
stop-refused_example =
    stop-refused test_env oncall (some 2_000) stripe long_reason (some queued) queued refl
      (omega arith) refl

abbrev completed : Result (Unit {0}) × Store
completed = complete test_env order1 (some 1_200) succeeded charged

complete-commit_example :
    let now = run test_env history completed.1 in
    (e : Failure) × (commit test_env order1 (some 2_000) (some 2_100) (pure tt) now ≡ (err e, now))
unfolding opened
complete-commit_example =
    complete-commit test_env order1 (some 1_200) succeeded charged (state_of charged) refl refl refl
      refl history order1 (some 2_000) (some 2_100) (pure tt) refl

complete-admit_example : (record order1 { replay = true }).replay ≡ true
unfolding opened
complete-admit_example =
    complete-admit test_env order1 (some 1_200) succeeded charged (state_of charged) refl refl refl
      refl history (some 9_000_000) (charge (lit "order-1")) (record order1 { replay = true }) refl
      refl

abbrev drill_reason : Text
drill_reason = repeated b'x' 186

run_scheduled_game_day-StoreIsStopped_example : Fails (StoreIsStopped global_scope test_env) (
    run_scheduled_game_day test_env oncall oncall
      (λ n. some (1_000 + n))
      (charge (lit "order-1"))
      drill_reason
      none)
unfolding opened is_globally_stopped
run_scheduled_game_day-StoreIsStopped_example =
    run_scheduled_game_day-StoreIsStopped test_env oncall oncall (λ n. some (1_000 + n))
      (charge (lit "order-1")) drill_reason none drill_reason (empty_state test_env) (omega arith)
      refl refl refl refl refl

-- The ledger after a completed charge, watched by a circuit breaker of the provider.
abbrev watched : State
watched = record (state_of completed.1) {
  circuits =
      record {
        id = lit "stripe-errors";
        scope = stripe;
        window_ms = 60_000;
        minimum_samples = 1;
        max_failure_rate_bps = 500;
        max_policy_violations = 0;
        max_latency_ms = 100;
        max_reconciliation_mismatches = 0;
        state = closed;
        opened_at = none;
        reason = none;
      }
      ∷ [];
}

assert_action_allowed-IsClear_example :
    (((assert_action_allowed test_env (charge (lit "order-2")) 2_000 watched).0 ≡ ok tt)
      ↔ IsClear (charge (lit "order-2")) 2_000 watched)
    × (IsClear (charge (lit "order-2")) 2_000 watched
        → assert_action_allowed test_env (charge (lit "order-2")) 2_000 watched ≡ (ok tt, watched))
assert_action_allowed-IsClear_example =
    assert_action_allowed-IsClear test_env (charge (lit "order-2")) 2_000 watched

-- The first charge, and the same again half a minute later.
abbrev budgeted : Store
budgeted = (configure_budget test_env oncall (some 500) budget none).1

admit-again_example : (record order1 { replay = true }).replay ≡ true
unfolding opened
admit-again_example =
    admit-again test_env 1_000 31_000 (charge (lit "order-1")) budgeted order1
      (record order1 { replay = true }) refl refl (omega arith) refl
