-- ===== src/Safety/KillSwitch/Effect.antt =====
-- What a stop means for every later call, through the persisted store.
use ghostapi.Common.{
  ℕ, ◌≡◌, ◌≢◌, refl, sym, ap, ◌∙◌, subst, List, [], ◌∷◌, any, map_ok, Text, Option, Result, ok,
  ok_inj, bind-elim, All,
}
use ghostapi.Common.Action.{continue-ok}
use ghostapi.Safety.Types.{Env, Scope, Switch, State, Operator, Permission}
use ghostapi.Safety.Scope.{ledger_key}
use ghostapi.Safety.Validate.{text}
use ghostapi.Safety.Validate.Controls.{validate_switch, validate_scope}
use ghostapi.Safety.Validate.Laws.{Gives-eq, validate_switch-Gives, validate_scope-Gives}
use ghostapi.Safety.Store.{Store, authorize}
use ghostapi.Safety.Store.Laws.{Holds, Survives, Holds-some, mutate-Wrote}
use ghostapi.Safety.Store.Validated.{validate_state-inv}
use ghostapi.Safety.Operator.{stop_state, stop}
use ghostapi.Safety.Calls.{Call, run}
use ghostapi.Safety.Calls.Invariants.{Invariant, Permits, run-Holds}
use ghostapi.Safety.KillSwitch.Blocks.{is_active, IsStopped}
use ghostapi.Safety.KillSwitch.Keeps.{
  put_budget-LeavesSwitches, put_circuit-LeavesSwitches, append_audit-LeavesSwitches,
  assert_reserved-LeavesSwitches, assert_action_allowed-LeavesSwitches, admit_state-LeavesSwitches,
  dequeue_state-LeavesSwitches, complete_state-LeavesSwitches, push_item-LeavesSwitches,
  stop_state-Keeps, reenable_state-Keeps, stop_state-IsStopped,
}

map_ok-active :
    (env : Env) (scope : Scope) (cs : List Switch) {ds : List Switch}
    → map_ok (validate_switch env) cs ≡ ok ds
    → any ds (is_active scope) ≡ any cs (is_active scope)
map_ok-active env scope [] h = rw (← ok_inj h) refl
map_ok-active env scope (c ∷ cs) h = bind-elim (validate_switch env c) _ h λ d e h1.
    bind-elim (map_ok (validate_switch env) cs) _ h1 λ ds e' h2.
      rw (← ok_inj h2, Gives-eq (validate_switch-Gives env c) e, map_ok-active env scope cs e') refl

IsStopped-Survives : (env : Env) (scope : Scope) → Survives (IsStopped scope) env
unfolding IsStopped
IsStopped-Survives env scope s t h v =
    map_ok-active env scope s.switches (validate_state-inv env s v).0.switches ∙ h

-- The persisted store has an active switch of this scope, whenever it can be read.
abbrev pub StoreIsStopped : Scope → Env → Store → Type 0
StoreIsStopped scope = Holds (IsStopped scope)

-- The calls that cannot end a stop of this scope: all but a re-enabling of it.
abbrev pub IsNotReenabling : Scope → Call → Type 0
IsNotReenabling scope = Permits (λ other. other ≢ scope)

module _ (env : Env) (scope : Scope) where
  leaving : (s t : State) → t.switches ≡ s.switches → IsStopped scope s → IsStopped scope t
  unfolding IsStopped
  leaving s t h stopped = rw h stopped

  stop-Invariant : Invariant (IsStopped scope) env (λ other. other ≢ scope)
  stop-Invariant = record {
    survives = IsStopped-Survives env scope;
    put_budget_keeps = λ b s. leaving s _ (put_budget-LeavesSwitches b s);
    put_circuit_keeps = λ c s. leaving s _ (put_circuit-LeavesSwitches c s);
    append_audit_keeps = λ event subject reason now actor s.
        leaving s _ (append_audit-LeavesSwitches env event subject reason now actor s);
    assert_action_allowed_keeps =
        λ a now s. leaving s _ (assert_action_allowed-LeavesSwitches env a now s);
    stop_state_keeps =
        λ other reason principal now. stop_state-Keeps scope other reason principal now env;
    reenable_state_keeps = λ other reason principal now ne.
        reenable_state-Keeps scope other reason principal now env ne;
    admit_state_keeps =
        λ a now s. leaving s _ (admit_state-LeavesSwitches env a (ledger_key a) now s);
    assert_reserved_keeps = λ key now s. leaving s _ (assert_reserved-LeavesSwitches env key now s);
    complete_state_keeps =
        λ key outcome now s. leaving s _ (complete_state-LeavesSwitches env key outcome now s);
    push_item_keeps = λ a now s. leaving s _ (push_item-LeavesSwitches env a now s);
    dequeue_state_keeps = λ now s. leaving s _ (dequeue_state-LeavesSwitches env now s);
  }

  -- A stop of a scope lasts through every history in which the scope is not re-enabled.
  pub run-StoreIsStopped :
      (cs : List (Option ℕ × Call)) (store : Store)
      → All (λ c. IsNotReenabling scope c.1) cs
      → StoreIsStopped scope env store
      → StoreIsStopped scope env (run env cs store)
  run-StoreIsStopped = run-Holds (IsStopped scope) env (λ other. other ≢ scope) stop-Invariant

  -- A stop that succeeds is in the store.
  pub stop-StoreIsStopped :
      (identity : Result Operator) (clock : Option ℕ) (reason : Text) (store : Store)
      → (stop env identity clock scope reason store).0 ≡ ok tt
      → StoreIsStopped scope env (stop env identity clock scope reason store).1
  unfolding stop
  stop-StoreIsStopped identity clock reason store h =
      let (operator, _, h1, e1) = continue-ok (authorize env identity Permission.stop) store _ h in
      let (scope', v, h2, e2) = continue-ok (validate_scope env scope) store _ h1 in
      let (reason', _, h3, e3) = continue-ok (text env reason _ 200) store _ h2 in
      let same : scope' ≡ scope = Gives-eq (validate_scope-Gives env scope) v in
      let w =
        mutate-Wrote env clock (stop_state env scope' reason' operator.principal_id) store h3 in
      let end : IsStopped scope w.changed =
        subst (λ x. IsStopped x w.changed) same
          (stop_state-IsStopped scope' reason' operator.principal_id w.now env w.before w.ran) in
      subst (StoreIsStopped scope env) (sym (ap (λ r. r.1) (e1 ∙ e2 ∙ e3) ∙ w.stored)) (
        Holds-some (IsStopped scope) env (IsStopped-Survives env scope) w.written
          (IsStopped-Survives env scope w.changed w.written end w.valid))
