-- ===== src/Safety/Validate/Records.antt =====
-- `validateAction`, `validateOutcome`, `validateLedger`, `validateQueueItem`, `validateDeadLetter`.
use ghostapi.Common.{Text, lit, Bool, not, ◌&&◌, is_some, text_eq, Result, ok, require, ◌>>=◌, ◌>>◌}
use ghostapi.Safety.Types.{
  Env, Costs, Action, Outcome, Status, reserved, completed, Entry, QueueItem, DeadLetter,
}
use ghostapi.Safety.Scope.{ledger_key}
use ghostapi.Safety.Validate.Fields.{
  max_safe_integer, day_ms, non_negative, hash, timestamp, optional, identifier, text,
}

unfoldable pub validate_costs : Costs → Result Costs
validate_costs c = do
  monetary ← non_negative c.monetary_amount_minor (lit "Safety monetary amount") max_safe_integer
  requests ← non_negative c.requests (lit "Safety request count") max_safe_integer
  messages ← non_negative c.messages (lit "Safety message count") max_safe_integer
  mutations ← non_negative c.mutations (lit "Safety mutation count") max_safe_integer
  deletes ← non_negative c.deletes (lit "Safety delete count") max_safe_integer
  token_cost ← non_negative c.token_cost (lit "Safety token cost") max_safe_integer
  ok (record {
    monetary_amount_minor = monetary;
    requests = requests;
    messages = messages;
    mutations = mutations;
    deletes = deletes;
    token_cost = token_cost;
  })

-- A completed entry has a completion time and an outcome, a reserved one has neither.
unfoldable pub fits_status : Status → Bool → Bool → Bool
fits_status completed timed known = timed && known
fits_status reserved timed known = not timed && not known

unfoldable pub status_message : Status → Text
status_message completed = lit "Completed safety ledger entry is invalid."
status_message reserved = lit "Reserved safety ledger entry is invalid."

module _ (env : Env) where
  unfoldable pub validate_action : Action → Result Action
  validate_action a = do
    organization_id ← identifier env a.organization_id (lit "Safety organization id")
    project_id ← identifier env a.project_id (lit "Safety project id")
    environment ← identifier env a.environment (lit "Safety environment")
    actor_id ← identifier env a.actor_id (lit "Safety actor id")
    workload_id ← identifier env a.workload_id (lit "Safety workload id")
    provider ← identifier env a.provider (lit "Safety provider")
    operation ← identifier env a.operation (lit "Safety operation")
    idempotency_key ← identifier env a.idempotency_key (lit "Safety idempotency key")
    action_hash ← hash a.action_hash (lit "Safety action hash")
    costs ← validate_costs a.costs
    ok (record {
      organization_id = organization_id;
      project_id = project_id;
      environment = environment;
      actor_id = actor_id;
      workload_id = workload_id;
      provider = provider;
      operation = operation;
      risk_class = a.risk_class;
      idempotency_key = idempotency_key;
      action_hash = action_hash;
      costs = costs;
    })

  unfoldable pub validate_outcome : Outcome → Result Outcome
  validate_outcome o = do
    latency_ms ← non_negative o.latency_ms (lit "Safety action latency") day_ms
    reason ← optional (λ r. text env r (lit "Safety action outcome reason") 200) o.reason
    ok (record {
      success = o.success;
      policy_violation = o.policy_violation;
      reconciliation_mismatch = o.reconciliation_mismatch;
      latency_ms = latency_ms;
      reason = reason;
    })

  unfoldable pub validate_ledger : Entry → Result Entry
  validate_ledger e = do
    action ← validate_action e.action
    completed_at ← optional (λ t. timestamp t (lit "Safety completion time")) e.completed_at
    outcome ← optional validate_outcome e.outcome
    require (fits_status e.status (is_some completed_at) (is_some outcome))
        (status_message e.status)
    key ← text env e.key (lit "Safety ledger key") 300
    require (text_eq key (ledger_key action)) (lit "Safety ledger key does not match its action.")
    admitted_at ← timestamp e.admitted_at (lit "Safety admission time")
    ok (record {
      key = key;
      action = action;
      status = e.status;
      admitted_at = admitted_at;
      completed_at = completed_at;
      outcome = outcome;
    })

  unfoldable pub validate_queue_item : QueueItem → Result QueueItem
  validate_queue_item q = do
    id ← identifier env q.id (lit "Safety queue id")
    action ← validate_action q.action
    queued_at ← timestamp q.queued_at (lit "Safety queue time")
    ok (record { id = id; action = action; queued_at = queued_at })

  unfoldable pub validate_dead_letter : DeadLetter → Result DeadLetter
  validate_dead_letter d = do
    id ← identifier env d.id (lit "Safety queue id")
    action ← validate_action d.action
    queued_at ← timestamp d.queued_at (lit "Safety queue time")
    reason ← text env d.reason (lit "Safety dead-letter reason") 200
    dead_lettered_at ← timestamp d.dead_lettered_at (lit "Safety dead-letter time")
    ok (record {
      item = record { id = id; action = action; queued_at = queued_at };
      reason = reason;
      dead_lettered_at = dead_lettered_at;
    })
