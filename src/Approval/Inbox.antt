-- ===== src/Approval/Inbox.antt =====
-- `LocalApprovalInbox`: `request`, `approve`, `reject`, `revoke`, `editAndResubmit`, `get`, `list`,
-- and `refresh`. What the approver verifier answers is an argument; so are the random ids.
use ghostapi.Common.{
  ℕ, ◌+◌, Text, lit, text_eq, Bool, not, ◌&&◌, is_some, Option, none, some, List, [], ◌∷◌, ◌++◌,
  length, find, filter, update_first, leb, ltb, Result, ok, err, require, if◌then◌else◌,
}
use ghostapi.Common.Action.{Op, pure, lift, get, modify, ◌>>=◌, ◌>>◌}
use ghostapi.Safety.Validate.{identifier, text}
use ghostapi.Actions.Types.{ActionEnvelope}
use ghostapi.Actions.Validate.{validate_envelope, action_hash}
use ghostapi.Approval.Types.{
  Env, RequestStatus, approved, rejected, revoked, timed_out, expired, superseded, Policy, Context,
  Approver, DecisionKind, approve, reject, revoke, Request, State,
}
use ghostapi.Approval.Policy.{validate_policy}
use ghostapi.Approval.Requests.{validate_context, new_request, new_decision, create_artifact}
use ghostapi.Approval.Audit.{append_record}
use ghostapi.Approval.Store.{Store, mutate, timestamp}
use ghostapi.Approval.Standing.{
  is_pending, is_superseded, is_active, has_started, is_running, is_approval, has_id, find_request,
  is_self_approval, has_approved,
}

module _ (env : Env) where
  unfoldable pub append_audit_of : Option Text → Text → Request → Text → ℕ → Op State (Unit {0})
  append_audit_of receipt_hash event r actor_id now s =
      elim (append_record env s.audit_anchor s.audit event r actor_id now receipt_hash) [
        | ok audit ↦ (ok tt, record s { audit = audit })
        | err e ↦ (err e, s)
      ]

  -- `appendAudit` without the hash of a receipt.
  unfoldable pub append_audit : Text → Request → Text → ℕ → Op State (Unit {0})
  unfolding append_audit_of
  append_audit = append_audit_of none

  -- An end of a request, with its audit record.
  unfoldable pub close : Text → RequestStatus → ℕ → Request → Op State Request
  unfolding append_audit
  close event status now r = do
    append_audit event r (lit "approval-inbox") now
    pure (record r { status = status })

  -- The body of the loop of `refresh`.
  unfoldable pub refresh_one : ℕ → Request → Op State Request
  unfolding close
  refresh_one now r =
      if is_pending r.status && leb r.escalation_at now
      then close (lit "request.timed_out") timed_out now r
      else if is_active r.status && leb r.expires_at now
      then close (lit "request.expired") expired now r
      else pure r

  unfoldable pub refresh_all : ℕ → List Request → Op State (List Request)
  unfolding refresh_one
  refresh_all now [] = pure []
  refresh_all now (r ∷ rs) = do r' ← refresh_one now r; rs' ← refresh_all now rs; pure (r' ∷ rs')

  unfoldable pub refresh : ℕ → Op State (Unit {0})
  unfolding refresh_all
  refresh now = do
    s ← get
    requests ← refresh_all now s.requests
    modify (λ t. record t { requests = requests })

  -- The assignment to the request with an id, as it is in the state.
  abbrev pub put_request : Request → Op State (Unit {0})
  put_request r =
      modify (λ s. record s { requests = update_first (has_id r.id) (λ _. r) s.requests })

  -- The mutation of `request`.
  unfoldable pub request_state : ActionEnvelope → Policy → Context → Text → ℕ → Op State Request
  unfolding refresh
  request_state action policy context fresh now = do
    refresh now
    s ← get
    digest ← lift (action_hash env.host action)
    elim (find (λ r. text_eq r.action_hash digest && not (is_superseded r.status)) s.requests) [
      | some r ↦ pure r
      | none ↦ do
        r ← lift (new_request env policy action context s.requests now fresh)
        modify (λ t. record t { requests = t.requests ++ r ∷ [] })
        append_audit (lit "request.created") r action.actor.id now
        pure r
    ]

  -- The end of `approve`: the request is approved once it has the approvals that it needs.
  unfoldable pub settle : Request → ℕ → Op State Request
  settle r now =
      if leb r.policy.required_approvals (length (filter is_approval r.decisions))
      then (lift (create_artifact env r now) >>= λ artifact.
          let r' : Request = record r { status = approved; artifact = some artifact } in
          put_request r'
          >> append_audit (lit "artifact.issued") r' (lit "approval-inbox") now
          >> pure r')
      else pure r

  -- The mutation of `approve`.
  unfoldable pub approve_state : Approver → Text → Text → ℕ → Op State Request
  unfolding refresh settle
  approve_state approver id fresh now = do
    refresh now
    s ← get
    r ← lift (find_request s id)
    lift (require (is_pending r.status) (lit "Approval is not pending."))
    lift (
        require (not (is_self_approval r.action approver))
          (lit "Action workload cannot approve its own action."))
    lift (
        require (not (has_approved approver r.decisions))
          (lit "An independent approver can approve this action only once."))
    decision ← lift (new_decision env approver approve none now fresh)
    let r' : Request = record r { decisions = r.decisions ++ decision ∷ [] }
    put_request r'
    append_audit (lit "request.approved") r' approver.id now
    settle r' now

  -- The mutation of `decideTerminal`, which rejects or revokes.
  unfoldable pub terminal_state :
      Approver → Text → Text → DecisionKind → RequestStatus → Text → Text → ℕ → Op State Request
  unfolding refresh
  terminal_state approver id reason kind status event fresh now = do
    refresh now
    s ← get
    r ← lift (find_request s id)
    lift (
        require (not (has_started r.status))
          (lit "Execution has already started; approval cannot be revoked."))
    lift (require (is_active r.status) (lit "Approval is not active."))
    decision ← lift (new_decision env approver kind (some reason) now fresh)
    let r' : Request = record r { decisions = r.decisions ++ decision ∷ []; status = status }
    put_request r'
    append_audit event r' approver.id now
    pure r'

  -- The first mutation of `editAndResubmit`.
  unfoldable pub supersede_state : Approver → Text → ℕ → Op State Request
  unfolding refresh
  supersede_state approver id now = do
    refresh now
    s ← get
    r ← lift (find_request s id)
    lift (
        require (not (is_running r.status) && not (is_some r.consumed_at))
          (lit "Executed or executing approvals cannot be edited."))
    let r' : Request = record r { status = superseded }
    put_request r'
    append_audit (lit "request.superseded") r' approver.id now
    pure r'

  -- Its last mutation.
  unfoldable pub link_state : Text → Text → ℕ → Op State Request
  link_state id old now = do
    s ← get
    r ← lift (find_request s id)
    let r' : Request = record r { supersedes_request_id = some old }
    put_request r'
    pure r'

  -- The mutation of `get`.
  unfoldable pub get_state : Text → ℕ → Op State Request
  unfolding refresh
  get_state id now = do refresh now; s ← get; lift (find_request s id)

  -- The mutation of `list`, for the requests that pass a test.
  unfoldable pub list_state : (RequestStatus → Bool) → ℕ → Op State (List Request)
  unfolding refresh
  list_state wanted now = do refresh now; s ← get; pure (filter (λ r. wanted r.status) s.requests)

  module _ (clock : ℕ → Option ℕ) (fresh : Text) where
    -- `preflight` is `plan` and `simulate` of the synthetic adapter.
    unfoldable pub request :
        (ActionEnvelope → Result (Unit {0})) → ActionEnvelope → Policy → Context → Op Store Request
    unfolding request_state
    request preflight action_value policy_value context_value = do
      action ← lift (validate_envelope env.host action_value)
      policy ← lift (validate_policy env policy_value)
      context ← lift (validate_context context_value)
      now ← lift (timestamp (clock 0))
      lift (require (ltb now action.expires_at) (lit "Action has expired."))
      lift (preflight action)
      mutate env (clock 1) (request_state action policy context fresh)

    unfoldable pub approve_request : Result Approver → Text → Op Store Request
    unfolding approve_state
    approve_request identity id_value = do
      approver ← lift identity
      id ← lift (identifier env.safety id_value (lit "Approval request id"))
      mutate env (clock 0) (approve_state approver id fresh)

    unfoldable pub decide_terminal :
        DecisionKind → RequestStatus → Text → Result Approver → Text → Text → Op Store Request
    unfolding terminal_state
    decide_terminal kind status event identity id_value reason_value = do
      approver ← lift identity
      id ← lift (identifier env.safety id_value (lit "Approval request id"))
      reason ← lift (text env.safety reason_value (lit "Approval decision reason") 200)
      mutate env (clock 0) (terminal_state approver id reason kind status event fresh)

    unfoldable pub reject_request : Result Approver → Text → Text → Op Store Request
    unfolding decide_terminal
    reject_request = decide_terminal reject rejected (lit "request.rejected")

    unfoldable pub revoke_request : Result Approver → Text → Text → Op Store Request
    unfolding decide_terminal
    revoke_request = decide_terminal revoke revoked (lit "request.revoked")

    unfoldable pub get_request : Text → Op Store Request
    unfolding get_state
    get_request id_value = do
      id ← lift (identifier env.safety id_value (lit "Approval request id"))
      mutate env (clock 0) (get_state id)

    unfoldable pub list_requests : (RequestStatus → Bool) → Op Store (List Request)
    unfolding list_state
    list_requests wanted = mutate env (clock 0) (list_state wanted)

  unfoldable pub edit_and_resubmit :
      (ℕ → Option ℕ)
      → Text
      → (ActionEnvelope → Result (Unit {0}))
      → Result Approver
      → Text
      → ActionEnvelope
      → Policy
      → Context
      → Op Store Request
  unfolding supersede_state link_state request
  edit_and_resubmit clock fresh preflight identity id_value action policy context = do
    approver ← lift identity
    id ← lift (identifier env.safety id_value (lit "Approval request id"))
    old ← mutate env (clock 0) (supersede_state approver id)
    next ← request (λ n. clock (1 + n)) fresh preflight action policy context
    lift (
        require (not (text_eq next.action_hash old.action_hash))
          (lit "Edit-and-resubmit requires changed normalized action arguments."))
    mutate env (clock 3) (link_state next.id old.id)
