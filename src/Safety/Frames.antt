-- ===== src/Safety/Frames.antt =====
-- What the helpers of the methods leave alone.
use ghostapi.Common.{ℕ, Text, Option, ◌≡◌, refl, arith}
use ghostapi.Safety.Types.{Env, Action, QueueItem, State}
use ghostapi.Safety.Circuit.{evaluate, assert_not_stopped, assert_no_open, assert_action_allowed}
use ghostapi.Safety.Store.{append_audit}
use ghostapi.Safety.Operator.{add_dead_letter}

module _ (env : Env) where
  -- `appendAudit` writes the audit chain alone.
  pub append_audit-frame :
      (event subject reason : Text) (now : ℕ) (actor : Option Text) (s : State)
      → let t = (append_audit env event subject reason now actor s).1 in
        t ≡ record s { audit = t.audit }
  unfolding append_audit
  append_audit-frame event subject reason now actor s = ground arith

  pub evaluate-frame :
      (a : Action) (now : ℕ) (s : State)
      → let t = (evaluate env a now s).1 in t ≡ record s { circuits = t.circuits; audit = t.audit }
  unfolding evaluate
  evaluate-frame a now s = refl

  -- `assertActionAllowed` writes circuits and the audit chain alone.
  pub assert_action_allowed-frame :
      (a : Action) (now : ℕ) (s : State)
      → let t = (assert_action_allowed env a now s).1 in
        t ≡ record s { circuits = t.circuits; audit = t.audit }
  unfolding assert_action_allowed assert_not_stopped assert_no_open
  assert_action_allowed-frame a now s = ground (arith, evaluate-frame a now s)

  pub add_dead_letter-frame :
      (item : QueueItem) (reason : Text) (now : ℕ) (s : State)
      → let t = (add_dead_letter env item reason now s).1 in
        t ≡ record s { dead_letters = t.dead_letters }
  unfolding add_dead_letter
  add_dead_letter-frame item reason now s = ground arith
