-- ===== src/Safety/KillSwitch/Keeps.antt =====
-- Which mutations leave the switches alone, and that none but a re-enabling of its scope ends a stop.
use ghostapi.Common.{
  ℕ, ◌≡◌, ◌≢◌, refl, ap, true, false, List, [], ◌∷◌, any, any-append, update_first, Text, Option,
  ok, arith,
}
use ghostapi.Common.Action.{Op, Leaves, Keeps, bind-eq-ok}
use ghostapi.Safety.Types.{Env, Scope, Action, Switch, State, Budget, Circuit, Outcome, QueueItem}
use ghostapi.Safety.Scope.{same_scope, same_scope_sound, same_scope_refl}
use ghostapi.Safety.Circuit.{assert_action_allowed, evaluate}
use ghostapi.Safety.Store.{append_audit}
use ghostapi.Safety.Operator.{
  put_budget, put_circuit, set_switch, add_dead_letter, dead_letter_from,
  dead_letter_matching_queued, stop_state, reenable_state, write_switch,
}
use ghostapi.Safety.Lease.{
  Lease, admit_state, admit_new, commit_check, commit_record, assert_reserved, complete_state,
  completion_audit,
}
use ghostapi.Safety.Queue.{push_item, dequeue_state, dequeue_item}
use ghostapi.Safety.Frames.{
  append_audit-frame, evaluate-frame, assert_action_allowed-frame, add_dead_letter-frame,
}
use ghostapi.Safety.KillSwitch.Blocks.{is_active, IsStopped}

abbrev pub LeavesSwitches : {A : Type 0} → Op State A → Type 0
LeavesSwitches m = Leaves (λ s. s.switches) m

pub put_budget-LeavesSwitches : (b : Budget) → LeavesSwitches (put_budget b)
unfolding put_budget
put_budget-LeavesSwitches b s = ground arith

pub put_circuit-LeavesSwitches : (c : Circuit) → LeavesSwitches (put_circuit c)
unfolding put_circuit
put_circuit-LeavesSwitches c s = ground arith

module _ (env : Env) where
  pub append_audit-LeavesSwitches :
      (event subject reason : Text) (now : ℕ) (actor : Option Text)
      → LeavesSwitches (append_audit env event subject reason now actor)
  append_audit-LeavesSwitches event subject reason now actor s =
      ap (λ (t : State). t.switches) (append_audit-frame env event subject reason now actor s)

  pub evaluate-LeavesSwitches : (a : Action) (now : ℕ) → LeavesSwitches (evaluate env a now)
  evaluate-LeavesSwitches a now s = ap (λ (t : State). t.switches) (evaluate-frame env a now s)

  pub assert_action_allowed-LeavesSwitches :
      (a : Action) (now : ℕ) → LeavesSwitches (assert_action_allowed env a now)
  assert_action_allowed-LeavesSwitches a now s =
      ap (λ (t : State). t.switches) (assert_action_allowed-frame env a now s)

  pub add_dead_letter-LeavesSwitches :
      (item : QueueItem) (reason : Text) (now : ℕ)
      → LeavesSwitches (add_dead_letter env item reason now)
  add_dead_letter-LeavesSwitches item reason now s =
      ap (λ (t : State). t.switches) (add_dead_letter-frame env item reason now s)

  pub admit_state-LeavesSwitches :
      (a : Action) (key : Text) (now : ℕ) → LeavesSwitches (admit_state env a key now)
  unfolding admit_state admit_new
  admit_state-LeavesSwitches a key now s =
      grind (arith, append_audit-LeavesSwitches, assert_action_allowed-LeavesSwitches)

  pub dequeue_state-LeavesSwitches : (now : ℕ) → LeavesSwitches (dequeue_state env now)
  unfolding dequeue_state dequeue_item
  dequeue_state-LeavesSwitches now s = grind (
    arith, append_audit-LeavesSwitches, assert_action_allowed-LeavesSwitches,
    add_dead_letter-LeavesSwitches,
  )

  pub complete_state-LeavesSwitches :
      (key : Text) (outcome : Outcome) (now : ℕ)
      → LeavesSwitches (complete_state env key outcome now)
  unfolding complete_state completion_audit
  complete_state-LeavesSwitches key outcome now s =
      grind (arith, append_audit-LeavesSwitches, evaluate-LeavesSwitches)

  pub assert_reserved-LeavesSwitches :
      (key : Text) (now : ℕ) → LeavesSwitches (assert_reserved env key now)
  unfolding assert_reserved
  assert_reserved-LeavesSwitches key now s = ground arith

  pub commit_check-LeavesSwitches : (l : Lease) (now : ℕ) → LeavesSwitches (commit_check env l now)
  unfolding commit_check assert_reserved
  commit_check-LeavesSwitches l now s = grind (arith, assert_action_allowed-LeavesSwitches)

  pub commit_record-LeavesSwitches :
      (l : Lease) (now : ℕ) → LeavesSwitches (commit_record env l now)
  unfolding commit_record assert_reserved
  commit_record-LeavesSwitches l now s = grind (arith, append_audit-LeavesSwitches)

  pub push_item-LeavesSwitches : (a : Action) (now : ℕ) → LeavesSwitches (push_item env a now)
  unfolding push_item
  push_item-LeavesSwitches a now s = grind (arith, append_audit-LeavesSwitches)

  pub dead_letter_from-LeavesSwitches :
      (scope : Scope) (reason : Text) (now : ℕ) (items : List QueueItem)
      → LeavesSwitches (dead_letter_from env scope reason now items)
  unfolding dead_letter_from
  dead_letter_from-LeavesSwitches scope reason now [] s = refl
  dead_letter_from-LeavesSwitches scope reason now (item ∷ items) s = grind (
    arith,
    append_audit-LeavesSwitches,
    add_dead_letter-LeavesSwitches,
    dead_letter_from-LeavesSwitches scope reason now items,
  )

  pub dead_letter_matching_queued-LeavesSwitches :
      (scope : Scope) (reason : Text) (now : ℕ)
      → LeavesSwitches (dead_letter_matching_queued env scope reason now)
  unfolding dead_letter_matching_queued
  dead_letter_matching_queued-LeavesSwitches scope reason now s =
      grind (arith, dead_letter_from-LeavesSwitches scope reason now s.queue)

module _ (scope other : Scope) (reason principal : Text) (now : ℕ) where
  any-write_stop :
      (cs : List Switch)
      → any cs (is_active scope) ≡ true
      → any
          (update_first (λ c. same_scope c.scope other) (write_switch true reason principal now) cs)
          (is_active scope)
        ≡ true
  unfolding write_switch
  any-write_stop [] h = cc
  any-write_stop (c ∷ cs) h = ground (arith, any-write_stop cs)

  any-write_reenable :
      (cs : List Switch)
      → other ≢ scope
      → any cs (is_active scope) ≡ true
      → any
          (update_first
            (λ c. same_scope c.scope other)
            (write_switch false reason principal now)
            cs)
          (is_active scope)
        ≡ true
  unfolding write_switch
  any-write_reenable [] ne h = cc
  any-write_reenable (c ∷ cs) ne h =
      ground (
        arith,
        any-write_reenable cs,
        same_scope_sound c.scope other,
        same_scope_sound c.scope scope,
      )

  pub set_switch-Keeps : Keeps (IsStopped scope) (set_switch other true reason principal now)
  unfolding set_switch IsStopped
  set_switch-Keeps s h = grind (arith, any-write_stop s.switches h, any-append)

  module _ (env : Env) where
    -- After its switch is written, `stop` writes no other.
    stop_state-switches :
        (s : State)
        → (stop_state env other reason principal now s).1.switches
          ≡ (set_switch other true reason principal now s).1.switches
    unfolding stop_state
    stop_state-switches s =
        grind (arith, dead_letter_matching_queued-LeavesSwitches, append_audit-LeavesSwitches)

    pub stop_state-Keeps : Keeps (IsStopped scope) (stop_state env other reason principal now)
    unfolding IsStopped
    stop_state-Keeps s h = rw (stop_state-switches s) (set_switch-Keeps s h)

    pub reenable_state-Keeps :
        other ≢ scope → Keeps (IsStopped scope) (reenable_state env other reason principal now)
    unfolding reenable_state IsStopped
    reenable_state-Keeps ne s h =
        grind (arith, append_audit-LeavesSwitches, any-write_reenable s.switches)

module _ (scope : Scope) (reason principal : Text) (now : ℕ) where
  any-write_same :
      (cs : List Switch)
      → any cs (λ c. same_scope c.scope scope) ≡ true
      → any
          (update_first (λ c. same_scope c.scope scope) (write_switch true reason principal now) cs)
          (is_active scope)
        ≡ true
  unfolding write_switch
  any-write_same [] h = cc
  any-write_same (c ∷ cs) h = ground (arith, any-write_same cs)

  set_switch-IsStopped :
      (s : State) {u : Unit {0}}
      → (set_switch scope true reason principal now s).0 ≡ ok u
      → IsStopped scope (set_switch scope true reason principal now s).1
  unfolding set_switch IsStopped
  set_switch-IsStopped s h =
      grind (arith, any-write_same s.switches, any-append, same_scope_refl scope)

  -- After a stop that succeeds its scope is stopped.
  pub stop_state-IsStopped :
      (env : Env) (s : State) {t : State}
      → stop_state env scope reason principal now s ≡ (ok tt, t)
      → IsStopped scope t
  unfolding stop_state IsStopped
  stop_state-IsStopped env s {t} h =
      let (u, e, _) = bind-eq-ok _ _ _ h in
      let same : (stop_state env scope reason principal now s).1.switches ≡ t.switches =
        ap (λ r. r.1.switches) h in
      rw (← same, stop_state-switches scope scope reason principal now env s)
        (set_switch-IsStopped s e)
