-- ===== src/Safety/Lease/Keeps.antt =====
-- Which mutations leave the ledger alone.
use ghostapi.Common.{ℕ, true, refl, ap, List, [], ◌∷◌, Text, Option, arith}
use ghostapi.Common.Action.{Op, Leaves}
use ghostapi.Safety.Types.{Env, Scope, Action, State, Budget, Circuit, QueueItem}
use ghostapi.Safety.Circuit.{assert_action_allowed, evaluate}
use ghostapi.Safety.Store.{append_audit}
use ghostapi.Safety.Operator.{
  put_budget, put_circuit, set_switch, add_dead_letter, dead_letter_from,
  dead_letter_matching_queued, stop_state, reenable_state,
}
use ghostapi.Safety.Lease.{assert_reserved}
use ghostapi.Safety.Queue.{push_item, dequeue_state, dequeue_item}
use ghostapi.Safety.Frames.{
  append_audit-frame, evaluate-frame, assert_action_allowed-frame, add_dead_letter-frame,
}

abbrev pub LeavesLedger : {A : Type 0} → Op State A → Type 0
LeavesLedger m = Leaves (λ s. s.ledger) m

pub put_budget-LeavesLedger : (b : Budget) → LeavesLedger (put_budget b)
unfolding put_budget
put_budget-LeavesLedger b s = ground arith

pub put_circuit-LeavesLedger : (c : Circuit) → LeavesLedger (put_circuit c)
unfolding put_circuit
put_circuit-LeavesLedger c s = ground arith

module _ (env : Env) where
  pub append_audit-LeavesLedger :
      (event subject reason : Text) (now : ℕ) (actor : Option Text)
      → LeavesLedger (append_audit env event subject reason now actor)
  append_audit-LeavesLedger event subject reason now actor s =
      ap (λ (t : State). t.ledger) (append_audit-frame env event subject reason now actor s)

  pub evaluate-LeavesLedger : (a : Action) (now : ℕ) → LeavesLedger (evaluate env a now)
  evaluate-LeavesLedger a now s = ap (λ (t : State). t.ledger) (evaluate-frame env a now s)

  pub assert_action_allowed-LeavesLedger :
      (a : Action) (now : ℕ) → LeavesLedger (assert_action_allowed env a now)
  assert_action_allowed-LeavesLedger a now s =
      ap (λ (t : State). t.ledger) (assert_action_allowed-frame env a now s)

  add_dead_letter-LeavesLedger :
      (item : QueueItem) (reason : Text) (now : ℕ)
      → LeavesLedger (add_dead_letter env item reason now)
  add_dead_letter-LeavesLedger item reason now s =
      ap (λ (t : State). t.ledger) (add_dead_letter-frame env item reason now s)

  pub dequeue_state-LeavesLedger : (now : ℕ) → LeavesLedger (dequeue_state env now)
  unfolding dequeue_state dequeue_item
  dequeue_state-LeavesLedger now s = grind (
    arith, append_audit-LeavesLedger, assert_action_allowed-LeavesLedger,
    add_dead_letter-LeavesLedger,
  )

  pub assert_reserved-LeavesLedger :
      (key : Text) (now : ℕ) → LeavesLedger (assert_reserved env key now)
  unfolding assert_reserved
  assert_reserved-LeavesLedger key now s = ground arith

  pub push_item-LeavesLedger : (a : Action) (now : ℕ) → LeavesLedger (push_item env a now)
  unfolding push_item
  push_item-LeavesLedger a now s = grind (arith, append_audit-LeavesLedger)

  dead_letter_from-LeavesLedger :
      (scope : Scope) (reason : Text) (now : ℕ) (items : List QueueItem)
      → LeavesLedger (dead_letter_from env scope reason now items)
  unfolding dead_letter_from
  dead_letter_from-LeavesLedger scope reason now [] s = refl
  dead_letter_from-LeavesLedger scope reason now (item ∷ items) s = grind (
    arith,
    append_audit-LeavesLedger,
    add_dead_letter-LeavesLedger,
    dead_letter_from-LeavesLedger scope reason now items,
  )

  dead_letter_matching_queued-LeavesLedger :
      (scope : Scope) (reason : Text) (now : ℕ)
      → LeavesLedger (dead_letter_matching_queued env scope reason now)
  unfolding dead_letter_matching_queued
  dead_letter_matching_queued-LeavesLedger scope reason now s =
      grind (arith, dead_letter_from-LeavesLedger scope reason now s.queue)

  set_switch-LeavesLedger :
      (scope : Scope) (reason principal : Text) (now : ℕ)
      → LeavesLedger (set_switch scope true reason principal now)
  unfolding set_switch
  set_switch-LeavesLedger scope reason principal now s = ground arith

  pub stop_state-LeavesLedger :
      (scope : Scope) (reason principal : Text) (now : ℕ)
      → LeavesLedger (stop_state env scope reason principal now)
  unfolding stop_state
  stop_state-LeavesLedger scope reason principal now s = grind (
    arith, set_switch-LeavesLedger, dead_letter_matching_queued-LeavesLedger,
    append_audit-LeavesLedger,
  )

  pub reenable_state-LeavesLedger :
      (scope : Scope) (reason principal : Text) (now : ℕ)
      → LeavesLedger (reenable_state env scope reason principal now)
  unfolding reenable_state
  reenable_state-LeavesLedger scope reason principal now s =
      grind (arith, append_audit-LeavesLedger)
