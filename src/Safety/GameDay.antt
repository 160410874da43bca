-- ===== src/Safety/GameDay.antt =====
-- `runScheduledGameDay`.
pub mod Stuck
use ghostapi.Common.{
  ℕ, Text, lit, Option, none, some, ◌++◌, any, Bool, true, not, ◌&&◌, option_eq, Result, ok, err,
  fail, require,
}
use ghostapi.Common.Action.{Op, pure, lift, get, attempt, ◌>>=◌, ◌>>◌}
use ghostapi.Safety.Types.{Env, ScopeKind, Scope, Action, Operator, State}
use ghostapi.Safety.Scope.{same_scope, ledger_key}
use ghostapi.Safety.Validate.{text}
use ghostapi.Safety.Validate.Records.{validate_action}
use ghostapi.Safety.Circuit.{kill_switch_code}
use ghostapi.Safety.Store.{Store, read, timestamp, mutate, append_audit}
use ghostapi.Safety.Operator.{stop, reenable}
use ghostapi.Safety.Lease.{Lease, admit}

pub record Drill : Type 0 where
  pub passed : Bool
  pub stopped_at : ℕ
  pub reenabled_at : ℕ

abbrev pub global_scope : Scope
global_scope = record { kind = ScopeKind.global; id = none }

-- The two handlers of `admit(action).then(…)`.
unfoldable pub expect_blocked : Result Lease → Result (Unit {0})
unfolding kill_switch_code
expect_blocked (ok _) = fail (lit "Game-day kill switch did not block the action.")
expect_blocked (err e) = elim (option_eq e.code (some kill_switch_code)) [
  | true ↦ ok tt
  | _ ↦ err e
]

unfoldable pub is_globally_stopped : State → Bool
is_globally_stopped s = any s.switches (λ c. same_scope c.scope global_scope && c.enabled)

module _ (env : Env) where
  -- `clock n` is what the clock gives when it is read for the n-th time.
  -- The last mutation of a game day.
  unfoldable pub record_drill : Action → Text → ℕ → Op State (Unit {0})
  record_drill a reason now =
      append_audit env (lit "game_day.passed") (ledger_key a) reason now none

  unfoldable pub run_scheduled_game_day :
      Result Operator → Result Operator → (ℕ → Option ℕ) → Action → Text → Op Store Drill
  unfolding expect_blocked is_globally_stopped record_drill
  run_scheduled_game_day stop_identity reenable_identity clock input reason = do
    a ← lift (validate_action env input)
    reason ← lift (text env reason (lit "Game-day reason") 200)
    store ← get
    before ← lift (read env store)
    lift (
        require (not (is_globally_stopped before))
          (lit "Game-day test requires an inactive global kill switch."))
    stop env stop_identity (clock 0) global_scope (reason ++ lit " stop drill")
    stopped_at ← lift (timestamp env (clock 1))
    outcome ← attempt (admit env (clock 2) a)
    lift (expect_blocked outcome)
    reenable env reenable_identity (clock 3) global_scope (reason ++ lit " recovery drill")
    reenabled_at ← lift (timestamp env (clock 4))
    mutate env (clock 5) (record_drill a reason)
    pure (record { passed = true; stopped_at = stopped_at; reenabled_at = reenabled_at })
