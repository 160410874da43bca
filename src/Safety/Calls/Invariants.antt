-- ===== src/Safety/Calls/Invariants.antt =====
-- Invariants of the histories: what every mutation keeps holds of the store after every call.
use ghostapi.Common.{ℕ, subst, sym, Text, Option, List, [], ◌∷◌, All, Bool, Bool-cases, inl, inr}
use ghostapi.Common.Action.{Op, Keeps, Keeps-bind, continue-keeps, pure}
use ghostapi.Safety.Types.{Env, Scope, Action, Budget, Circuit, State, Permission, Outcome}
use ghostapi.Safety.Scope.{ledger_key}
use ghostapi.Safety.Validate.{text}
use ghostapi.Safety.Validate.Controls.{validate_scope, validate_budget, validate_circuit}
use ghostapi.Safety.Validate.Records.{validate_action, validate_outcome}
use ghostapi.Safety.Validate.Laws.{Gives-eq, validate_scope-Gives}
use ghostapi.Safety.Circuit.{assert_action_allowed}
use ghostapi.Safety.Store.{Store, mutate, append_audit, authorize}
use ghostapi.Safety.Store.Laws.{Holds, Survives, mutate-Holds}
use ghostapi.Safety.Operator.{
  put_budget, put_circuit, stop_state, reenable_state, configure_budget, configure_circuit, stop,
  reenable,
}
use ghostapi.Safety.Lease.{
  Lease, admit, admit_state, assert_reserved, assert_active, commit_check, commit_record, complete,
  complete_state,
}
use ghostapi.Safety.GameDay.{record_drill}
use ghostapi.Safety.Queue.{enqueue, push_item, dequeue, dequeue_state}
use ghostapi.Safety.Calls.{Call, step, run}

-- A property of the states that validation and each mutation keep; a re-enabling keeps it if its
-- scope is allowed.
pub record Invariant (P : State → Type 0) (env : Env) (Allows : Scope → Type 0) : Type 0 where
  pub survives : Survives P env
  pub put_budget_keeps : (b : Budget) → Keeps P (put_budget b)
  pub put_circuit_keeps : (c : Circuit) → Keeps P (put_circuit c)
  pub append_audit_keeps :
      (event subject reason : Text) (now : ℕ) (actor : Option Text)
      → Keeps P (append_audit env event subject reason now actor)
  pub assert_action_allowed_keeps :
      (a : Action) (now : ℕ) → Keeps P (assert_action_allowed env a now)
  pub stop_state_keeps :
      (scope : Scope) (reason principal : Text) (now : ℕ)
      → Keeps P (stop_state env scope reason principal now)
  pub reenable_state_keeps :
      (scope : Scope) (reason principal : Text) (now : ℕ)
      → Allows scope
      → Keeps P (reenable_state env scope reason principal now)
  pub admit_state_keeps : (a : Action) (now : ℕ) → Keeps P (admit_state env a (ledger_key a) now)
  pub assert_reserved_keeps : (key : Text) (now : ℕ) → Keeps P (assert_reserved env key now)
  pub complete_state_keeps :
      (key : Text) (outcome : Outcome) (now : ℕ) → Keeps P (complete_state env key outcome now)
  pub push_item_keeps : (a : Action) (now : ℕ) → Keeps P (push_item env a now)
  pub dequeue_state_keeps : (now : ℕ) → Keeps P (dequeue_state env now)

-- The calls that an invariant is about: all but the re-enabling of a scope that is not allowed.
abbrev pub Permits : (Scope → Type 0) → Call → Type 0
Permits Allows (Call.reenables identity scope reason) = Allows scope
Permits Allows _ = Unit

pub Permits-any : (cs : List (Option ℕ × Call)) → All (λ c. Permits (λ _. Unit {0}) c.1) cs
Permits-any [] = tt
Permits-any ((_, Call.reenables _ _ _) ∷ cs) = (tt, Permits-any cs)
Permits-any ((_, c) ∷ cs) = (tt, Permits-any cs)

module _ (P : State → Type 0) (env : Env) (Allows : Scope → Type 0)
    (i : Invariant P env Allows) where
  kept :
      {A : Type 0} (clock : Option ℕ) (operation : ℕ → Op State A) (store : Store)
      → ((now : ℕ) → Keeps P (operation now))
      → Holds P env store
      → Holds P env (mutate env clock operation store).1
  kept clock operation store keeps h =
      mutate-Holds P env i.survives clock operation store
        (λ now s a t p e. subst (λ r. P r.1) e (keeps now s p)) h

  step-Holds :
      (clock : Option ℕ) (c : Call) (store : Store)
      → Permits Allows c
      → Holds P env store
      → Holds P env (step env (clock, c) store)
  unfolding step configure_budget configure_circuit stop reenable admit enqueue assert_active
      complete dequeue commit_check commit_record record_drill
  step-Holds clock (Call.configures_budget identity budget) store n h =
      let Q = Holds P env in
      continue-keeps Q (authorize env identity Permission.configure) store _ h λ operator _.
        continue-keeps Q (validate_budget env budget) store _ h λ b _.
          kept clock _ store
            (λ now. Keeps-bind P (put_budget b) _ (i.put_budget_keeps b) λ _.
              Keeps-bind P (append_audit env _ _ _ now _) _ (i.append_audit_keeps _ _ _ now _)
                (λ _ s p. p))
            h
  step-Holds clock (Call.configures_circuit identity circuit) store n h =
      let Q = Holds P env in
      continue-keeps Q (authorize env identity Permission.configure) store _ h λ operator _.
        continue-keeps Q (validate_circuit env circuit) store _ h λ c _.
          kept clock _ store
            (λ now. Keeps-bind P (put_circuit c) _ (i.put_circuit_keeps c) λ _.
              Keeps-bind P (append_audit env _ _ _ now _) _ (i.append_audit_keeps _ _ _ now _)
                (λ _ s p. p))
            h
  step-Holds clock (Call.stops identity other reason) store n h =
      let Q = Holds P env in
      continue-keeps Q (authorize env identity Permission.stop) store _ h λ operator _.
        continue-keeps Q (validate_scope env other) store _ h λ scope _.
          continue-keeps Q (text env reason _ 200) store _ h
            λ reason _. kept clock _ store (i.stop_state_keeps scope reason operator.principal_id) h
  step-Holds clock (Call.reenables identity other reason) store n h =
      let Q = Holds P env in
      continue-keeps Q (authorize env identity Permission.reenable) store _ h λ operator _.
        continue-keeps Q (validate_scope env other) store _ h λ scope e.
          continue-keeps Q (text env reason _ 200) store _ h λ reason _.
            kept clock _ store
              (λ now.
                i.reenable_state_keeps scope reason operator.principal_id now
                  (subst Allows (sym (Gives-eq (validate_scope-Gives env other) e)) n))
              h
  step-Holds clock (Call.admits a) store n h =
      let Q = Holds P env in
      continue-keeps Q (validate_action env a) store _ h λ a _.
        (let lease : Bool → Op Store Lease =
            λ replay. pure (record { action = a; key = ledger_key a; replay = replay }) in
          let after =
            kept clock (admit_state env a (ledger_key a)) store (i.admit_state_keeps a) h in
          let m = mutate env clock (admit_state env a (ledger_key a)) store in
          continue-keeps Q m.0 m.1 lease after (λ _ _. after))
  step-Holds clock (Call.enqueues a) store n h =
      continue-keeps (Holds P env) (validate_action env a) store _ h λ a _.
        kept clock _ store
          (λ now.
            Keeps-bind P (assert_action_allowed env a now) _ (i.assert_action_allowed_keeps a now)
              (λ _. i.push_item_keeps a now))
          h
  step-Holds clock (Call.asserts l) store n h = elim (Bool-cases l.replay) [
    | inl e ↦ rw (e, assert_active) h
    | inr e ↦
        rw (e, assert_active)
          (kept clock _ store
            (λ now.
              Keeps-bind P (assert_reserved env l.key now) _ (i.assert_reserved_keeps l.key now)
                λ _.
                  Keeps-bind P (assert_action_allowed env l.action now) _
                    (i.assert_action_allowed_keeps l.action now)
                    (λ _. i.append_audit_keeps _ _ _ now _))
            h)
  ]
  step-Holds clock (Call.checks_commit l) store n h =
      kept clock (commit_check env l) store
        (λ now.
          Keeps-bind P (assert_reserved env l.key now) _ (i.assert_reserved_keeps l.key now)
            (λ _. i.assert_action_allowed_keeps l.action now))
        h
  step-Holds clock (Call.records_commit l) store n h =
      kept clock (commit_record env l) store
        (λ now.
          Keeps-bind P (assert_reserved env l.key now) _ (i.assert_reserved_keeps l.key now)
            (λ _. i.append_audit_keeps _ _ _ now _))
        h
  step-Holds clock (Call.completes l input) store n h = elim (Bool-cases l.replay) [
    | inl e ↦ rw (e, complete) h
    | inr e ↦
        rw (e, complete)
          (continue-keeps (Holds P env) (validate_outcome env input) store _ h λ outcome _.
            kept clock (complete_state env l.key outcome) store
              (i.complete_state_keeps l.key outcome) h)
  ]
  step-Holds clock Call.dequeues store n h =
      kept clock (dequeue_state env) store i.dequeue_state_keeps h
  step-Holds clock (Call.records_drill a reason) store n h =
      kept clock (record_drill env a reason) store (λ now. i.append_audit_keeps _ _ _ now _) h

  -- An invariant that holds of the store holds of it after every history.
  pub run-Holds :
      (cs : List (Option ℕ × Call)) (store : Store)
      → All (λ c. Permits Allows c.1) cs
      → Holds P env store
      → Holds P env (run env cs store)
  unfolding run
  run-Holds [] store n h = h
  run-Holds ((clock, c) ∷ cs) store (n, ns) h =
      run-Holds cs (step env (clock, c) store) ns (step-Holds clock c store n h)
