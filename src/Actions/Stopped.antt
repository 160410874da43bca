-- ===== src/Actions/Stopped.antt =====
-- A stop of the safety controller reaches the executions of actions.
use ghostapi.Common.{
  ◌≡◌, refl, sym, ap, ◌∙◌, subst, ℕ, Text, true, Option, some, List, All, Result, ok, err, Failure,
  require, ltb,
}
use ghostapi.Common.Action.{Op, continue}
use ghostapi.Safety.Types.{Scope, Operator}
use ghostapi.Safety.Scope.{scope_matches}
use ghostapi.Safety.Store.{Store}
use ghostapi.Safety.Operator.{stop}
use ghostapi.Safety.Lease.{Lease, admit}
use ghostapi.Safety.Calls.{Call, run}
use ghostapi.Safety.KillSwitch.Effect.{IsNotReenabling}
use ghostapi.Safety.KillSwitch.Stops.{stop-admit}
use ghostapi.Safety.Validate.Laws.{Gives-eq}
use ghostapi.Actions.Types.{Env, ActionEnvelope, StoredAction, PolicyCheck, ExecutionIdentity}
use ghostapi.Actions.Gives.{validate_envelope-Gives}
use ghostapi.Actions.Validate.{validate_envelope, verify_approval}
use ghostapi.Actions.Checks.{check_record}
use ghostapi.Actions.Records.{require_stored_action}
use ghostapi.Actions.Adapters.{Stores, on_world, on_safety, safety_action}
use ghostapi.Actions.Gateway.{first_attempt, execute_record, execute}
use ghostapi.Actions.Calls.{Gateway}
use ghostapi.Actions.Lifecycle.{submitted, Stands}
use ghostapi.Actions.Lifecycle.Finds.{submitted-none}
use ghostapi.Actions.Lifecycle.Records.{require_stored_action-file}
use ghostapi.Actions.Once.{Effects, instead, execute_by}

-- Whatever an effect does, the operation throws the same and leaves the files as they were.
abbrev pub Refused :
    {W E B : Type 0} → (Text → Option StoredAction) → (E → Result B × Stores W) → Type 0
Refused {W} {E} files f =
    (x : Failure) × (t : Stores W) × ((e : E) → f e ≡ (err x, t)) × (t.files ≡ files)

continue-Refused :
    {W E A B : Type 0} (r : Result A) (s : Stores W) (f : E → A → Op (Stores W) B)
    → ((a : A) → r ≡ ok a → Refused s.files (λ e. f e a s))
    → Refused s.files (λ e. continue r s (f e))
continue-Refused (ok a) s f h = h a refl
continue-Refused (err x) s f h = (x, s, (λ _. refl), refl)

module _ {W Effect : Type 0} (env : Env) (g : Gateway W Effect) (s : Stores W) where
  module _ (id : Text) (r : StoredAction) (now : ℕ)
      (replays : (clock : Option ℕ) (l : Lease)
        → (admit env.safety clock (safety_action r.envelope r.action_hash) s.safety).0 ≡ ok l
        → l.replay ≡ true) where
    first-Refused : Refused s.files (λ (e : Effects W Effect).
        first_attempt env (instead g e).adapter g.verify g.clock g.fresh id r now s)
    unfolding first_attempt instead on_world on_safety
    first-Refused = continue-Refused (require (ltb now r.envelope.expires_at) _) _ _ λ _ _.
        continue-Refused (verify_approval env.host r.envelope r.approval now) _ _ λ _ _.
          continue-Refused (g.adapter.plan r.envelope s.world).0 _ _ λ _ _.
            continue-Refused (g.adapter.simulate r.envelope _).0 _ _ λ _ _.
              continue-Refused
                (admit env.safety (g.clock 1) (safety_action r.envelope r.action_hash) s.safety).0 _
                _ λ l admitted. rw (replays (g.clock 1) l admitted) (_, _, (λ _. refl), refl)

  execute-Refused :
      (action : ActionEnvelope) (identity : ExecutionIdentity) (policy : PolicyCheck)
      (r : StoredAction)
      → s.files action.action_id ≡ some r
      → Stands (some r) submitted
      → ((clock : Option ℕ) (l : Lease)
          → (admit env.safety clock (safety_action r.envelope r.action_hash) s.safety).0 ≡ ok l
          → l.replay ≡ true)
      → Refused s.files
          (λ (e : Effects W Effect). execute_by env (instead g e) action identity policy s)
  unfolding execute_by execute instead execute_record
  execute-Refused action identity policy r file at replays =
      continue-Refused (validate_envelope env.host action) s _ λ a valid.
        let same : a ≡ action = Gives-eq (validate_envelope-Gives env.host action) valid in
        continue-Refused (require_stored_action env (s.files a.action_id)) s _ λ r' was_read.
          continue-Refused
            (check_record env.host g.verify g.adapter.supports (g.clock 0) a r' identity policy) s _
            λ now _.
              let was : some r ≡ some r' =
                sym file
                ∙ ap (λ x. s.files x.action_id) (sym same)
                ∙ require_stored_action-file env (s.files a.action_id) was_read in
              let one : r ≡ r' = cc in
              let (v, c, t) = submitted-none r' (subst (λ x. Stands x submitted) was at) in
              rw (execute_record, v, c, t)
                (first-Refused a.action_id r' now
                  (λ clock l admitted. replays clock l (rw one admitted)))

-- After a stop of a scope that succeeds, in every history of calls of the safety controller that
-- does not re-enable the scope, the execution of a submitted action in the scope throws, leaves the
-- files of the actions as they were, and is the same whatever the effect of the adapter does.
pub stop-execute :
    {W Effect : Type 0} (env : Env) (operator : Result Operator) (clock : Option ℕ) (scope : Scope)
    (reason : Text) (store : Store) (history : List (Option ℕ × Call)) (g : Gateway W Effect)
    (action : ActionEnvelope) (identity : ExecutionIdentity) (policy : PolicyCheck) (s : Stores W)
    (r : StoredAction)
    → (stop env.safety operator clock scope reason store).0 ≡ ok tt
    → All (λ c. IsNotReenabling scope c.1) history
    → s.safety ≡ run env.safety history (stop env.safety operator clock scope reason store).1
    → s.files action.action_id ≡ some r
    → Stands (some r) submitted
    → scope_matches scope (safety_action r.envelope r.action_hash) ≡ true
    → Refused s.files
        (λ (e : Effects W Effect). execute_by env (instead g e) action identity policy s)
stop-execute env operator clock scope reason store history g action identity policy s r stopped kept
      now file at matches =
    execute-Refused env g s action identity policy r file at λ later l admitted.
      stop-admit env.safety operator clock scope reason store stopped history kept later
        (safety_action r.envelope r.action_hash) l matches (rw now at admitted)
