-- ===== src/Actions/Adapters.antt =====
-- What the gateway works on: its stores, the adapters, and the steps on one of the stores.
use ghostapi.Common.{Text, lit, text_eq, Bool, true, false, Option, none, some, if◌then◌else◌}
use ghostapi.Common.Action.{Op}
use ghostapi.Safety.Types.{Action, Outcome}
use ghostapi.Safety.Store.{Store}
use ghostapi.Actions.Types.{ActionEnvelope, ReceiptResult, StoredAction, Execution, Reconciliation}

-- The files of the actions by their ids, the safety controller's store, and the world of the
-- adapter.
pub record Stores (W : Type 0) : Type 0 where
  pub files : Text → Option StoredAction
  pub safety : Store
  pub world : W

-- An `ActionExecutionAdapter`. `execute` is given `commit` of the lease for its effect.
pub record Adapter (W Effect : Type 0) : Type 0 where
  pub supports : Text → Bool
  pub plan : ActionEnvelope → Op W (Unit {0})
  pub simulate : ActionEnvelope → Op W (Unit {0})
  pub execute :
      ActionEnvelope → (Op (Store × W) Effect → Op (Store × W) Effect) → Op (Store × W) Execution
  pub verify : ActionEnvelope → Op W Reconciliation
  pub compensate : Option (ActionEnvelope → Op W (Unit {0}))

-- `safetyAction`
unfoldable pub safety_action : ActionEnvelope → Text → Action
safety_action a digest = record {
  organization_id = lit "ghostapi-local";
  project_id = a.project_id;
  environment = lit "synthetic";
  actor_id = a.actor.id;
  workload_id = a.actor.workload_id;
  provider = lit "ghostapi-synthetic";
  operation = a.operation;
  risk_class = a.risk_class;
  idempotency_key = a.idempotency_key;
  action_hash = digest;
  costs = record {
    monetary_amount_minor = 0;
    requests = 1;
    messages = 1;
    mutations = 1;
    deletes = 0;
    token_cost = 0;
  };
}

-- The request id and the result that prove that an action was committed.
unfoldable pub proof_of : Reconciliation → Option (Text × ReceiptResult)
proof_of r =
    if r.committed
    then elim r.provider_request_id [
      | none ↦ none
      | some p ↦ elim r.result [ none ↦ none | some result ↦ some (p, result) ]
    ]
    else none

-- The outcome of a lease that is reported without success.
unfoldable pub failure_outcome : Bool → Text → Outcome
failure_outcome mismatch reason = record {
  success = false;
  policy_violation = false;
  reconciliation_mismatch = mismatch;
  latency_ms = 0;
  reason = some reason;
}

unfoldable pub success_outcome : Outcome
success_outcome = record {
  success = true;
  policy_violation = false;
  reconciliation_mismatch = false;
  latency_ms = 0;
  reason = none;
}

unfoldable pub put_file :
    Text → StoredAction → (Text → Option StoredAction) → Text → Option StoredAction
put_file id r files other = if text_eq other id then some r else files other

module _ {W : Type 0} where
  unfoldable pub on_safety : {A : Type 0} → Op Store A → Op (Stores W) A
  on_safety m s = let (r, safety) = m s.safety in (r, record s { safety = safety })

  unfoldable pub on_world : {A : Type 0} → Op W A → Op (Stores W) A
  on_world m s = let (r, world) = m s.world in (r, record s { world = world })

  unfoldable pub on_both : {A : Type 0} → Op (Store × W) A → Op (Stores W) A
  on_both m s =
      let (r, both) = m (s.safety, s.world) in (r, record s { safety = both.0; world = both.1 })

  unfoldable pub on_first : {A : Type 0} → Op Store A → Op (Store × W) A
  on_first m s = let (r, store) = m s.0 in (r, (store, s.1))
