-- ===== src/Safety/Queue.antt =====
-- The bounded queue: `enqueue` and `dequeue`.
pub mod Stopped
use ghostapi.Common.{
  ℕ, Text, lit, Option, none, some, [], ◌∷◌, ◌++◌, length, find, take, leb, text_eq, Result, ok,
  err, fail, if◌then◌else◌,
}
use ghostapi.Common.Action.{Op, pure, lift, modify, attempt, ◌>>=◌, ◌>>◌}
use ghostapi.Safety.Types.{Env, Action, QueueItem, State}
use ghostapi.Safety.Scope.{ledger_key}
use ghostapi.Safety.Validate.Records.{validate_action}
use ghostapi.Safety.Circuit.{assert_action_allowed}
use ghostapi.Safety.Store.{max_queue, Store, mutate, append_audit}
use ghostapi.Safety.Operator.{add_dead_letter}

module _ (env : Env) where
  unfoldable pub queue_id : Action → ℕ → Text
  queue_id a now = lit "queue-" ++ take 32 (env.sha256 (ledger_key a ++ lit ":" ++ env.iso now))

  -- The mutation of `enqueue`, after the action was found to be allowed.
  unfoldable pub push_item : Action → ℕ → Op State QueueItem
  unfolding queue_id
  push_item a now s = elim (find (λ i. text_eq (ledger_key i.action) (ledger_key a)) s.queue) [
    | some item ↦ (ok item, s)
    | none ↦
        if leb max_queue (length s.queue)
        then (fail (lit "Safety queue is full; backpressure is active."), s)
        else (let item : QueueItem = record { id = queue_id a now; action = a; queued_at = now } in
            (do
              modify (λ t. record t { queue = t.queue ++ item ∷ [] })
              append_audit env (lit "queue.enqueued") item.id
                  (lit "action is queued without execution") now none
              pure item)
              s)
  ]

  unfoldable pub enqueue : Option ℕ → Action → Op Store QueueItem
  unfolding push_item
  enqueue clock input = do
    a ← lift (validate_action env input)
    mutate env clock λ now. do assert_action_allowed env a now; push_item a now

  -- The rest of `dequeue`, from how the check of the action ended.
  unfoldable pub dequeue_item : QueueItem → ℕ → Result (Unit {0}) → Op State (Option QueueItem)
  dequeue_item item now (err error) = do
    add_dead_letter env item error.message now
    append_audit env (lit "queue.dead_lettered") item.id error.message now none
    pure none
  dequeue_item item now (ok _) = do
    append_audit env (lit "queue.dequeued") item.id (lit "dequeued for separate re-admission") now
        none
    pure (some item)

  -- The mutation of `dequeue`. The throw of the check is caught, so its writes stay.
  unfoldable pub dequeue_state : ℕ → Op State (Option QueueItem)
  unfolding dequeue_item
  dequeue_state now s = elim s.queue [
    | [] ↦ (ok none, s)
    | item ∷ items ↦
        (do
          allowed ← attempt (assert_action_allowed env item.action now)
          dequeue_item item now allowed)
          (record s { queue = items })
  ]

  unfoldable pub dequeue : Option ℕ → Op Store (Option QueueItem)
  unfolding dequeue_state
  dequeue clock = mutate env clock dequeue_state
