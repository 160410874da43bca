-- ===== src/Approval/Quorum/History.antt =====
-- The quorum in every history of the inbox and its gateway.
use ghostapi.Common.{
  All, ◌≤◌, Text, ◌≡◌, true, not, ◌&&◌, ◌||◌, List, [], ◌∷◌, length, leb, leb→le, and_left,
  and_right, none, ok,
}
use ghostapi.Actions.Adapters.{Stores}
use ghostapi.Approval.Types.{Env, Request, State}
use ghostapi.Approval.Requests.{needs_artifact}
use ghostapi.Approval.Store.{read}
use ghostapi.Approval.Standing.{find_request}
use ghostapi.Approval.Office.{Office, Event, calls, executes, others, step, run}
use ghostapi.Approval.Quorum.{approvers_of, separate, is_outside, quorate}
use ghostapi.Approval.Quorum.Independent.{
  ArePairwiseSeparate, IsOutside, separate-AreSeparate, is_outside-IsOutside,
}
use ghostapi.Approval.Quorum.Refreshes.{find_request-quorate}
use ghostapi.Approval.Quorum.Files.{Holds, Holds-none, step-Holds as call-Holds}
use ghostapi.Approval.Quorum.Desk.{execute-Holds}

module _ {W Effect : Type 0} (env : Env) where
  step-Holds :
      (e : Event W Effect) (o : Office W) → Holds env o.inbox → Holds env (step env e o).inbox
  unfolding step
  step-Holds (calls c) o h = call-Holds env c o.inbox h
  step-Holds (executes g id identity action_policy policy) o h =
      execute-Holds env g id identity action_policy policy o h
  step-Holds (others change) o h = h

  pub run-Holds :
      (es : List (Event W Effect)) (o : Office W)
      → Holds env o.inbox
      → Holds env (run env es o).inbox
  unfolding run
  run-Holds [] o h = h
  run-Holds (e ∷ es) o h = run-Holds es (step env e o) (step-Holds e o h)

-- What it says of a request that needs its approvals that it has its quorum.
pub quorate-needs :
    (r : Request)
    → quorate r ≡ true
    → needs_artifact r.status ≡ true
    → (r.policy.required_approvals ≤ length (approvers_of r.decisions))
      × ArePairwiseSeparate (approvers_of r.decisions)
      × All (IsOutside r.action) (approvers_of r.decisions)
quorate-needs r q needs =
    let approvers = approvers_of r.decisions in
    let enough =
      not (needs_artifact r.status) || leb r.policy.required_approvals (length approvers) in
    let front = and_left (separate approvers && is_outside r.action approvers) enough q in
    let required =
      rw needs at (and_right (separate approvers && is_outside r.action approvers) enough q) in
    (
      leb→le _ _ required,
      separate-AreSeparate approvers (and_left _ _ front),
      is_outside-IsOutside r.action approvers (and_right (separate approvers) _ front),
    )

-- In every history of calls that starts without a file, executions included, a request that is
-- approved, or further on, has at least the approvals that its policy required; no two of them are by
-- approvers who share an id, a principal or an independence key; and of none the id is the actor's, or
-- the principal or the independence key the actor's id or the workload's.
pub run-quorate :
    {W Effect : Type 0} (env : Env) (history : List (Event W Effect)) (stores : Stores W)
    (s : State) (id : Text) (r : Request)
    → read env (run env history (record { inbox = none; stores = stores })).inbox ≡ ok s
    → find_request s id ≡ ok r
    → needs_artifact r.status ≡ true
    → (r.policy.required_approvals ≤ length (approvers_of r.decisions))
      × ArePairwiseSeparate (approvers_of r.decisions)
      × All (IsOutside r.action) (approvers_of r.decisions)
run-quorate env history stores s id r was_read found needs =
    let start : Office _ = record { inbox = none; stores = stores } in
    let holds = run-Holds env history start (Holds-none env) in
    let q = find_request-quorate env s id (holds s was_read) found in quorate-needs r q needs
