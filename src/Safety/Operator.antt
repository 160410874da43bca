-- ===== src/Safety/Operator.antt =====
-- The operator's methods: `configureBudget`, `configureCircuit`, `stop`, `reenable`, and what they
-- call: `setSwitch`, `deadLetterMatchingQueued`, `addDeadLetter`.
use ghostapi.Common.{
  ℕ, Text, lit, Option, none, some, List, [], ◌∷◌, ◌++◌, length, find, any, update_first, Bool,
  true, false, leb, text_eq, Result, ok, err, fail, if◌then◌else◌,
}
use mathlib.Core.List.{tail}
use ghostapi.Common.Action.{Op, pure, lift, modify, ◌>>=◌, ◌>>◌}
use ghostapi.Safety.Types.{
  Env, Scope, Budget, Circuit, Switch, QueueItem, DeadLetter, Operator, State, Permission,
  configure,
}
use ghostapi.Safety.Scope.{scope_key, same_scope, scope_matches}
use ghostapi.Safety.Validate.{text}
use ghostapi.Safety.Validate.Controls.{validate_scope, validate_budget, validate_circuit}
use ghostapi.Safety.Store.{max_controls, max_dead_letters, Store, mutate, append_audit, authorize}

-- `Object.assign(existing, circuit)`: a field that the new value lacks keeps its old value.
unfoldable pub or_else {ℓ} : {A : Type ℓ} → Option A → Option A → Option A
or_else none old = old
or_else (some a) old = some a

unfoldable pub assign_circuit : Circuit → Circuit → Circuit
unfolding or_else
assign_circuit c existing = record c {
  opened_at = or_else c.opened_at existing.opened_at;
  reason = or_else c.reason existing.reason;
}

unfoldable pub put_budget : Budget → Op State (Unit {0})
put_budget b s =
    if any s.budgets (λ x. text_eq x.id b.id)
    then (ok tt, record s { budgets = update_first (λ x. text_eq x.id b.id) (λ _. b) s.budgets })
    else (if leb max_controls (length s.budgets)
        then (fail (lit "Safety budget limit was reached."), s)
        else (ok tt, record s { budgets = s.budgets ++ b ∷ [] }))

unfoldable pub put_circuit : Circuit → Op State (Unit {0})
unfolding assign_circuit
put_circuit c s =
    if any s.circuits (λ x. text_eq x.id c.id)
    then (
      ok tt,
      record s { circuits = update_first (λ x. text_eq x.id c.id) (assign_circuit c) s.circuits },
    )
    else (if leb max_controls (length s.circuits)
        then (fail (lit "Safety circuit limit was reached."), s)
        else (ok tt, record s { circuits = s.circuits ++ c ∷ [] }))

-- The switch that `setSwitch` writes, in place of one with the same scope.
unfoldable pub write_switch : Bool → Text → Text → ℕ → Switch → Switch
write_switch enabled reason principal_id now c = record c {
  enabled = enabled;
  reason = reason;
  changed_by = principal_id;
  changed_at = now;
}

unfoldable pub set_switch : Scope → Bool → Text → Text → ℕ → Op State (Unit {0})
unfolding write_switch
set_switch scope enabled reason principal_id now s =
    if any s.switches (λ c. same_scope c.scope scope)
    then (
      ok tt,
      record s {
        switches =
            update_first (λ c. same_scope c.scope scope)
              (write_switch enabled reason principal_id now) s.switches;
      },
    )
    else (if leb max_controls (length s.switches)
        then (fail (lit "Safety switch limit was reached."), s)
        else (
          ok tt,
          record s {
            switches =
                s.switches
                ++ record {
                  scope = scope;
                  enabled = enabled;
                  changed_at = now;
                  reason = reason;
                  changed_by = principal_id;
                }
                  ∷ [];
          },
        ))

-- `if (deadLetters.length >= MAX_DEAD_LETTERS) deadLetters.shift()`
unfoldable pub make_room : List DeadLetter → List DeadLetter
make_room letters = if leb max_dead_letters (length letters) then tail letters else letters

module _ (env : Env) where
  unfoldable pub add_dead_letter : QueueItem → Text → ℕ → Op State (Unit {0})
  unfolding make_room
  add_dead_letter item reason now s =
      let letters = make_room s.dead_letters in
      elim (text env reason (lit "Safety dead-letter reason") 200) [
        | err e ↦ (err e, record s { dead_letters = letters })
        | ok reason ↦ (
          ok tt,
          record s {
            dead_letters =
                letters ++ record { item = item; reason = reason; dead_lettered_at = now } ∷ [];
          },
        )
      ]

  -- The loop of `deadLetterMatchingQueued`, which gives the items that remain.
  unfoldable pub dead_letter_from : Scope → Text → ℕ → List QueueItem → Op State (List QueueItem)
  unfolding add_dead_letter
  dead_letter_from scope reason now [] = pure []
  dead_letter_from scope reason now (item ∷ items) =
      let rest = dead_letter_from scope reason now items in
      elim (scope_matches scope item.action) [
        | true ↦ do
          add_dead_letter item (lit "kill switch: " ++ reason) now
          append_audit env (lit "queue.dead_lettered") item.id
              (lit "kill switch stopped queued action") now none
          rest
        | false ↦ do remaining ← rest; pure (item ∷ remaining)
      ]

  unfoldable pub dead_letter_matching_queued : Scope → Text → ℕ → Op State (Unit {0})
  unfolding dead_letter_from
  dead_letter_matching_queued scope reason now s =
      (do
        remaining ← dead_letter_from scope reason now s.queue
        modify (λ t. record t { queue = remaining }))
        s

  unfoldable pub configure_budget : Result Operator → Option ℕ → Budget → Op Store Budget
  unfolding put_budget
  configure_budget identity clock input = do
    operator ← lift (authorize env identity configure)
    budget ← lift (validate_budget env input)
    mutate env clock λ now. do
      put_budget budget
      append_audit env (lit "budget.configured") budget.id
          (lit "configured " ++ scope_key budget.scope) now (some operator.principal_id)
      pure budget

  unfoldable pub configure_circuit : Result Operator → Option ℕ → Circuit → Op Store Circuit
  unfolding put_circuit
  configure_circuit identity clock input = do
    operator ← lift (authorize env identity configure)
    circuit ← lift (validate_circuit env input)
    mutate env clock λ now. do
      put_circuit circuit
      append_audit env (lit "circuit.configured") circuit.id
          (lit "configured " ++ scope_key circuit.scope) now (some operator.principal_id)
      pure circuit

  -- What `stop` does to the state, once its input is validated.
  unfoldable pub stop_state : Scope → Text → Text → ℕ → Op State (Unit {0})
  unfolding set_switch dead_letter_matching_queued
  stop_state scope reason principal_id now = do
    set_switch scope true reason principal_id now
    dead_letter_matching_queued scope reason now
    append_audit env (lit "kill_switch.stopped") (scope_key scope) reason now (some principal_id)

  unfoldable pub stop : Result Operator → Option ℕ → Scope → Text → Op Store (Unit {0})
  unfolding stop_state
  stop identity clock input reason = do
    operator ← lift (authorize env identity Permission.stop)
    scope ← lift (validate_scope env input)
    reason ← lift (text env reason (lit "Kill-switch reason") 200)
    mutate env clock (stop_state scope reason operator.principal_id)

  unfoldable pub reenable_state : Scope → Text → Text → ℕ → Op State (Unit {0})
  unfolding write_switch
  reenable_state scope reason principal_id now s =
      elim (find (λ c. same_scope c.scope scope) s.switches) [
        | none ↦ (fail (lit "Kill switch is not active for this scope."), s)
        | some control ↦ elim control.enabled [
          | false ↦ (fail (lit "Kill switch is not active for this scope."), s)
          | true ↦
              append_audit env (lit "kill_switch.reenabled") (scope_key scope) reason now
                (some principal_id)
                (record s {
                  switches =
                      update_first (λ c. same_scope c.scope scope)
                        (write_switch false reason principal_id now) s.switches;
                })
        ]
      ]

  unfoldable pub reenable : Result Operator → Option ℕ → Scope → Text → Op Store (Unit {0})
  unfolding reenable_state
  reenable identity clock input reason = do
    operator ← lift (authorize env identity Permission.reenable)
    scope ← lift (validate_scope env input)
    reason ← lift (text env reason (lit "Kill-switch re-enable reason") 200)
    mutate env clock (reenable_state scope reason operator.principal_id)
