-- ===== src/Approval/Calls.antt =====
-- The calls of the inbox's methods but `execute`, each with the readings of the clock in it.
use ghostapi.Common.{ℕ, Text, Option, Bool, Result}
use ghostapi.Actions.Types.{ActionEnvelope}
use ghostapi.Approval.Types.{Env, Policy, Context, Approver, RequestStatus}
use ghostapi.Approval.Store.{Store}
use ghostapi.Approval.Inbox.{
  request, approve_request, reject_request, revoke_request, get_request, list_requests,
  edit_and_resubmit,
}

pub data Call : Type 0 where
  requests : (ActionEnvelope → Result (Unit {0})) → ActionEnvelope → Policy → Context → Call
  approves : Result Approver → Text → Call
  rejects revokes : Result Approver → Text → Text → Call
  gets : Text → Call
  lists : (RequestStatus → Bool) → Call
  edits :
      (ActionEnvelope → Result (Unit {0}))
      → Result Approver
      → Text
      → ActionEnvelope
      → Policy
      → Context
      → Call

-- A call with the readings of the clock in it, and its random id.
abbrev pub Timed : Type 0
Timed = (ℕ → Option ℕ) × Text × Call

unfoldable pub step : Env → Timed → Store → Store
step env (clock, fresh, Call.requests preflight action policy context) store =
    (request env clock fresh preflight action policy context store).1
step env (clock, fresh, Call.approves identity id) store =
    (approve_request env clock fresh identity id store).1
step env (clock, fresh, Call.rejects identity id reason) store =
    (reject_request env clock fresh identity id reason store).1
step env (clock, fresh, Call.revokes identity id reason) store =
    (revoke_request env clock fresh identity id reason store).1
step env (clock, fresh, Call.gets id) store = (get_request env clock fresh id store).1
step env (clock, fresh, Call.lists wanted) store = (list_requests env clock fresh wanted store).1
step env (clock, fresh, Call.edits preflight identity id action policy context) store =
    (edit_and_resubmit env clock fresh preflight identity id action policy context store).1
