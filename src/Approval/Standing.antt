-- ===== src/Approval/Standing.antt =====
-- The tests of the approval inbox on a request, on its decisions and on their approvers.
use ghostapi.Common.{
  Text, lit, text_eq, Bool, true, false, ◌&&◌, ◌||◌, none, some, List, any, find, Result, ok, fail,
}
use ghostapi.Actions.Types.{ActionEnvelope}
use ghostapi.Approval.Types.{
  RequestStatus, pending, approved, executing, executed, execution_failed, superseded, Approver,
  approve, Decision, Request, State,
}

unfoldable pub is_pending : RequestStatus → Bool
is_pending pending = true
is_pending _ = false

unfoldable pub is_superseded : RequestStatus → Bool
is_superseded superseded = true
is_superseded _ = false

unfoldable pub is_active : RequestStatus → Bool
is_active pending = true
is_active approved = true
is_active _ = false

-- Whether the execution of a request has begun.
unfoldable pub has_started : RequestStatus → Bool
has_started executing = true
has_started executed = true
has_started execution_failed = true
has_started _ = false

unfoldable pub is_running : RequestStatus → Bool
is_running executing = true
is_running executed = true
is_running _ = false

unfoldable pub is_approval : Decision → Bool
is_approval d = elim d.kind [ approve ↦ true | _ ↦ false ]

unfoldable pub has_id : Text → Request → Bool
has_id id r = text_eq r.id id

unfoldable pub find_request : State → Text → Result Request
unfolding has_id
find_request s id = elim (find (has_id id) s.requests) [
  | none ↦ fail (lit "Approval request was not found.")
  | some r ↦ ok r
]

-- `assertIndependent`
unfoldable pub is_self_approval : ActionEnvelope → Approver → Bool
is_self_approval action a =
    text_eq a.id action.actor.id
    || text_eq a.principal_id action.actor.id
    || text_eq a.principal_id action.actor.workload_id
    || text_eq a.independence_key action.actor.id
    || text_eq a.independence_key action.actor.workload_id

-- Whether two approvers share an id, a principal or an independence key.
unfoldable pub is_same_approver : Approver → Approver → Bool
is_same_approver a b =
    text_eq a.id b.id
    || text_eq a.principal_id b.principal_id
    || text_eq a.independence_key b.independence_key

unfoldable pub has_approved : Approver → List Decision → Bool
unfolding is_approval is_same_approver
has_approved a ds = any ds (λ d. is_approval d && is_same_approver d.approver a)
