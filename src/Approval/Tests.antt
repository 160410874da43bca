-- ===== src/Approval/Tests.antt =====
-- The statements about the inbox at concrete inputs.
mod Fixtures
use ghostapi.Common.{
  All, ℕ, ◌≤◌, ◌≡◌, refl, Text, lit, true, some, none, List, [], ◌∷◌, Result, ok, err, Option,
  length, ◌⊎◌, map,
}
use ghostapi.Actions.Types.{Receipt, StoredAction}
use ghostapi.Actions.Adapters.{Stores}
use ghostapi.Actions.Calls.{Gateway}
use ghostapi.Actions.Tests.Fixtures.{gateway, nothing, identity, policy}
use ghostapi.Approval.Types.{Request, State, RequestStatus, Risk}
use ghostapi.Approval.Store.{Store, read, empty_state}
use ghostapi.Approval.Standing.{find_request}
use ghostapi.Approval.Calls.{Call, Timed}
use ghostapi.Approval.Office.{Office, Event, calls, execute, run}
use ghostapi.Approval.Quorum.{approvers_of}
use ghostapi.Approval.Quorum.Independent.{ArePairwiseSeparate, IsOutside}
use ghostapi.Approval.Quorum.History.{run-quorate}
use ghostapi.Approval.Authorized.{IsAuthorized, execute-IsAuthorized}
use ghostapi.Approval.Tests.Fixtures.{opened, inbox_env, workflow, two_people, sure, approver}

abbrev at : ℕ → ℕ → Option ℕ
at now _ = some now

abbrev start : Office ℕ
start = record { inbox = none; stores = nothing }

-- A request and the approvals of two people.
abbrev history : List (Event ℕ (Unit {0}))
history = map calls (
    (at 1_000, lit "a", Call.requests (λ _. ok tt) workflow two_people sure)
    ∷ (at 2_000, lit "b", Call.approves (ok (approver (lit "alice"))) (lit "approval-a"))
    ∷ (at 3_000, lit "c", Call.approves (ok (approver (lit "bob"))) (lit "approval-a"))
    ∷ [])

abbrev office : Office ℕ
office = run inbox_env history start

abbrev after : State
after = elim (read inbox_env office.inbox) [ ok s ↦ s | err _ ↦ empty_state inbox_env ]

-- The request that is found, or one that nobody decided on.
abbrev request_of : Result Request → Request
request_of (ok r) = r
request_of (err _) = record {
  id = [];
  action = workflow;
  action_hash = [];
  risk = Risk.update;
  context = sure;
  policy = record { id = []; version = 0; hash = []; required_approvals = 0 };
  policy_reason = [];
  status = RequestStatus.pending;
  created_at = 0;
  expires_at = 0;
  escalation_at = 0;
  decisions = [];
  artifact = none;
  consumed_at = none;
  execution_receipt_hash = none;
  supersedes_request_id = none;
}

abbrev approved_request : Request
approved_request = request_of (find_request after (lit "approval-a"))

approved_request-status : approved_request.status ≡ RequestStatus.approved
unfolding opened
approved_request-status = refl

run-quorate_example :
    (approved_request.policy.required_approvals ≤ length (approvers_of approved_request.decisions))
    × ArePairwiseSeparate (approvers_of approved_request.decisions)
    × All (IsOutside approved_request.action) (approvers_of approved_request.decisions)
unfolding opened
run-quorate_example =
    run-quorate inbox_env history nothing after (lit "approval-a") approved_request refl refl refl

abbrev later : Gateway ℕ (Unit {0})
later = record gateway { clock = λ _. some 4_000 }

abbrev executed_office : Result Receipt × Office ℕ
executed_office = execute inbox_env later (lit "approval-a") identity policy two_people office

abbrev executed_state : State
executed_state = elim (read inbox_env executed_office.1.inbox) [
  | ok s ↦ s
  | err _ ↦ empty_state inbox_env
]

executed_office-world : executed_office.1.stores.world ≡ 1
unfolding opened
executed_office-world = refl

execute-IsAuthorized_example :
    ((executed_office.1.stores) ≡ office.stores)
    ⊎ IsAuthorized inbox_env office.inbox (some 4_000) (lit "approval-a") identity two_people
execute-IsAuthorized_example =
    execute-IsAuthorized inbox_env history nothing later (lit "approval-a") identity policy
      two_people office refl

executed_office-status :
    (request_of (find_request executed_state (lit "approval-a"))).status ≡ RequestStatus.executed
unfolding opened
executed_office-status = refl
