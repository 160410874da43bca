-- ===== src/Actions/Tests.antt =====
-- The statements about the action gateway at concrete inputs.
pub mod Fixtures
use ghostapi.Common.{
  ℕ, Text, lit, ◌≡◌, refl, Bool, true, Option, none, some, List, [], ◌∷◌, Result, ok, err, Failure,
  ◌⊎◌, ◌≤◌, ◌<◌, length,
}
use ghostapi.Common.Action.{Op, pure, throw}
use ghostapi.Safety.Types.{Scope, ScopeKind}
use ghostapi.Safety.Store.{Store}
use ghostapi.Safety.Operator.{stop}
use ghostapi.Safety.Tests.Fixtures.{test_env, oncall}
use ghostapi.Actions.Types.{StoredAction}
use ghostapi.Actions.Records.{max_receipts}
use ghostapi.Actions.Adapters.{Stores}
use ghostapi.Actions.Gateway.{submit, inspect}
use ghostapi.Actions.Submitted.{submit-inspect}
use ghostapi.Actions.Calls.{Call, run}
use ghostapi.Actions.Once.{Effects, instead, execute_by, execute-once}
use ghostapi.Actions.Stopped.{Refused, stop-execute}
use ghostapi.Actions.Lifecycle.{
  Stage, absent, Reach, Stands, statuses_of, statuses, proven, submitted,
}
use ghostapi.Actions.Lifecycle.Refines.{run-Stands, run-receipts}
use ghostapi.Actions.Tests.Fixtures.{
  env, restart, approved, policy, identity, gateway, nothing, opened,
}

abbrev calls : List (Call ℕ (Unit {0}))
calls =
    Call.submits gateway restart approved policy
    ∷ Call.executes gateway restart identity policy
    ∷ Call.executes gateway restart identity policy
    ∷ []

-- The record after these calls.
abbrev record_of : Option StoredAction → StoredAction
record_of (some r) = r
record_of none = record { envelope = restart; action_hash = []; approval = approved; receipts = [] }

abbrev made : StoredAction
made = record_of ((run env calls nothing).files (lit "act-1"))

calls-statuses : statuses_of made ≡ statuses proven
unfolding opened
calls-statuses = refl

-- The effect was done once.
calls-world : (run env calls nothing).world ≡ 1
unfolding opened
calls-world = refl

run-Stands_example :
    (h : Stage) × Reach absent h × Stands ((run env calls nothing).files (lit "act-1")) h
run-Stands_example = run-Stands env (λ _. absent) calls nothing (λ _. tt) (lit "act-1")

run-receipts_example : (length made.receipts ≤ 5) × (5 < max_receipts)
unfolding opened
run-receipts_example = run-receipts env calls nothing (λ _. refl) (lit "act-1") made refl

abbrev submitted_calls : List (Call ℕ (Unit {0}))
submitted_calls = Call.submits gateway restart approved policy ∷ []

abbrev waiting : Stores ℕ
waiting = run env submitted_calls nothing

abbrev own_effect : Effects ℕ (Unit {0})
own_effect = gateway.adapter.execute

execute-once_example :
    let done = execute_by env (instead gateway own_effect) restart identity policy waiting in
    ((e : Effects ℕ (Unit {0}))
      → execute_by env (instead gateway e) restart identity policy waiting ≡ done)
    ⊎ ((cs : List (Call ℕ (Unit {0}))) (e e' : Effects ℕ (Unit {0}))
        → execute_by env (instead gateway e) restart identity policy (run env cs done.1)
          ≡ execute_by env (instead gateway e') restart identity policy (run env cs done.1))
execute-once_example =
    execute-once env gateway gateway restart restart identity identity policy policy
      (λ id. (run-Stands env (λ _. absent) submitted_calls nothing (λ _. tt) id).0) waiting
      own_effect (λ id. (run-Stands env (λ _. absent) submitted_calls nothing (λ _. tt) id).2) refl

abbrev everything : Scope
everything = record { kind = ScopeKind.provider; id = some (lit "ghostapi-synthetic") }

-- The stores after the provider is stopped, with the submitted action.
abbrev halted : Stores ℕ
halted = record waiting {
  safety = (stop test_env oncall (some 1_500) everything (lit "leak") none).1;
}

stop-execute_example : Refused halted.files (λ (e : Effects ℕ (Unit {0})).
    execute_by env (instead gateway e) restart identity policy halted)
unfolding opened
stop-execute_example =
    stop-execute env oncall (some 1_500) everything (lit "leak") none [] gateway restart identity
      policy halted (record_of (waiting.files (lit "act-1"))) refl tt refl refl refl refl

abbrev submission : Result StoredAction × Stores ℕ
submission =
    submit env gateway.adapter gateway.verify gateway.clock gateway.fresh restart approved policy
      nothing

submit-inspect_example :
    inspect env gateway.adapter gateway.verify gateway.clock gateway.fresh
      (lit "act-1")
      submission.1
    ≡ (ok (record_of (submission.1.files (lit "act-1"))), submission.1)
unfolding opened
submit-inspect_example =
    submit-inspect env gateway gateway restart approved policy nothing submission.1
      (record_of (submission.1.files (lit "act-1"))) refl refl
