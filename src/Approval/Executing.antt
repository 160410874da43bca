-- ===== src/Approval/Executing.antt =====
-- `LocalApprovalInbox.execute` and `latestDurableFailedReceipt`. The inbox's file is locked for the
-- whole of an execution, so that nobody else writes it; the checkpoints for tests are left out.
use ghostapi.Common.{
  ℕ, ◌+◌, Text, lit, text_eq, Bool, true, false, not, ◌&&◌, ◌==◌, is_some, option_eq, Option, none,
  some, Result, ok, err, fail, require, if◌then◌else◌,
}
use ghostapi.Common.Action.{Op, pure, lift, get, attempt, ◌>>=◌, ◌>>◌}
use ghostapi.Safety.Validate.{identifier}
use ghostapi.Actions.Types.{
  ActionApproval, Receipt, ExecutionIdentity, PolicyCheck, verified, failed,
}
use ghostapi.Actions.Records.{status_eq, find_latest_receipt}
use ghostapi.Actions.Adapters.{Stores, Adapter}
use ghostapi.Actions.Gateway.{submit, execute, inspect}
use ghostapi.Approval.Types.{
  Env, Policy, PolicyRecord, Request, RequestStatus, approved, executing, executed,
  execution_failed, State,
}
use ghostapi.Approval.Policy.{validate_policy, policy_hash, evaluate}
use ghostapi.Approval.Store.{Store, read, write, timestamp}
use ghostapi.Approval.Standing.{find_request}
use ghostapi.Approval.Inbox.{refresh, put_request, append_audit, append_audit_of}
use ghostapi.Approval.Verifier.{Verifier, inbox_verify}

-- The state that an execution holds in memory, the inbox's file, and the stores of the gateway.
pub record Desk (W : Type 0) : Type 0 where
  pub memory : State
  pub inbox : Store
  pub stores : Stores W

-- The statuses in which an approval may be executed.
unfoldable pub is_executable : RequestStatus → Bool
is_executable approved = true
is_executable executing = true
is_executable executed = true
is_executable _ = false

unfoldable pub is_same_policy : PolicyRecord → Policy → Text → Bool
is_same_policy kept policy digest =
    text_eq kept.id policy.id && kept.version == policy.version && text_eq kept.hash digest

unfoldable pub require_artifact : Request → Result ActionApproval
unfolding is_executable
require_artifact r =
    if is_executable r.status
    then elim r.artifact [
      | none ↦ fail (lit "Approval is not active for execution.")
      | some artifact ↦ ok artifact
    ]
    else fail (lit "Approval is not active for execution.")

module _ (env : Env) where
  -- What `execute` checks of the request before it looks at how far its execution is.
  unfoldable pub check_execution :
      Policy → Text → ExecutionIdentity → ℕ → Op State (Request × ActionApproval)
  unfolding is_same_policy require_artifact refresh
  check_execution policy id identity now = do
    refresh env now
    s ← get
    r ← lift (find_request s id)
    artifact ← lift (require_artifact r)
    lift (
        require (is_same_policy r.policy policy (policy_hash env policy))
          (lit "Approval policy changed after approval."))
    history ← get
    decision ← lift (evaluate policy r.action r.context history.requests now (some r.id))
    lift (
        require (decision.allowed && decision.required_approvals == r.policy.required_approvals)
          (lit "Current approval policy no longer authorizes execution."))
    lift (
        require
          (text_eq identity.actor_id r.action.actor.id
            && text_eq identity.workload_id r.action.actor.workload_id)
          (lit "Execution identity does not match the approved action."))
    pure (r, artifact)

  -- The consumption of an approval, before it is written.
  unfoldable pub consume : Request → Text → ℕ → Op State (Unit {0})
  consume r actor_id now = do
    lift (require (not (is_some r.consumed_at)) (lit "Approval consumption state is invalid."))
    let r' : Request = record r { consumed_at = some now; status = executing }
    put_request env r'
    append_audit env (lit "artifact.consumed") r' actor_id now

  -- The end of an execution that the gateway verified, before it is written.
  unfoldable pub verify_state : Text → Text → Text → Option ℕ → Op State (Unit {0})
  verify_state id actor_id receipt_hash clock = do
    s ← get
    r ← lift (find_request s id)
    let r' : Request = record r { status = executed; execution_receipt_hash = some receipt_hash }
    put_request env r'
    now ← lift (timestamp clock)
    append_audit_of env (some receipt_hash) (lit "execution.verified") r' actor_id now

  -- The end of an execution that failed, before it is written.
  unfoldable pub fail_state : Text → Text → Text → Option ℕ → Op State (Unit {0})
  fail_state id actor_id receipt_hash clock = do
    s ← get
    r ← lift (find_request s id)
    let r' : Request = record r { status = execution_failed }
    put_request env r'
    now ← lift (timestamp clock)
    append_audit_of env (some receipt_hash) (lit "execution.failed") r' actor_id now

module _ {W : Type 0} where
  unfoldable pub on_memory : {A : Type 0} → Op State A → Op (Desk W) A
  on_memory m d = let (r, memory) = m d.memory in (r, record d { memory = memory })

  unfoldable pub on_stores : {A : Type 0} → Op (Stores W) A → Op (Desk W) A
  on_stores m d = let (r, stores) = m d.stores in (r, record d { stores = stores })

  module _ (env : Env) where
    -- `this.read()`, into memory.
    unfoldable pub load : Op (Desk W) (Unit {0})
    load d = elim (read env d.inbox) [
      | ok s ↦ (ok tt, record d { memory = s })
      | err e ↦ (err e, d)
    ]

    -- `this.write(state)`
    unfoldable pub save : Op (Desk W) (Unit {0})
    save d = elim (write env d.memory) [
      | ok valid ↦ (ok tt, record d { inbox = some valid })
      | err e ↦ (err e, d)
    ]

    module _ {Effect : Type 0} (adapter : Adapter W Effect) (verify : Verifier)
        (clock : ℕ → Option ℕ) (fresh : ℕ → Text) where
      -- `execute` of the gateway, with the inbox's verifier on the file as it is.
      unfoldable pub gateway_execute :
          Request → ExecutionIdentity → PolicyCheck → Op (Desk W) Receipt
      unfolding on_stores
      gateway_execute r identity policy = do
        d ← get
        on_stores (
            execute env.actions adapter (inbox_verify env verify d.inbox) (λ n. clock (2 + n))
              (λ n. fresh (1 + n)) r.action identity policy)

      -- The `try` block.
      unfoldable pub perform :
          Request → ActionApproval → ExecutionIdentity → PolicyCheck → Op (Desk W) Receipt
      unfolding on_stores on_memory gateway_execute verify_state save
      perform r artifact identity policy = do
        d ← get
        _ ← on_stores (
            submit env.actions adapter (inbox_verify env verify d.inbox) (λ n. clock (1 + n)) fresh
              r.action artifact policy)
        receipt ← gateway_execute r identity policy
        on_memory (verify_state env r.id identity.actor_id receipt.receipt_hash (clock 11))
        save
        pure receipt

      -- `latestDurableFailedReceipt`
      unfoldable pub latest_failed : Text → Op (Desk W) (Option Receipt)
      unfolding on_stores
      latest_failed action_id = do
        answer ← attempt (on_stores (inspect env.actions adapter verify clock fresh action_id))
        elim answer [ err _ ↦ pure none | ok r ↦ pure (find_latest_receipt failed r.receipts) ]

      -- The `try` with its `catch`.
      unfoldable pub run_execution :
          Request → ActionApproval → ExecutionIdentity → PolicyCheck → Op (Desk W) Receipt
      unfolding perform latest_failed on_memory fail_state save
      run_execution r artifact identity policy = do
        answer ← attempt (perform r artifact identity policy)
        elim answer [
          | ok receipt ↦ pure receipt
          | err e ↦ do
            failure ← latest_failed r.action.action_id
            elim failure [
              | none ↦ lift (err e)
              | some receipt ↦ do
                on_memory (fail_state env r.id identity.actor_id receipt.receipt_hash (clock 12))
                save
                lift (err e)
            ]
        ]

      -- An approval that was executed: the gateway finds the receipt again.
      unfoldable pub repeat_execution :
          Request → ExecutionIdentity → PolicyCheck → Op (Desk W) Receipt
      unfolding gateway_execute
      repeat_execution r identity policy = do
        receipt ← gateway_execute r identity policy
        lift (
            require
              (status_eq receipt.status verified
                && option_eq (some receipt.receipt_hash) r.execution_receipt_hash)
              (lit "Executed approval does not match its durable action receipt."))
        pure receipt

      -- What is done with a request in a status, once it passed the checks.
      unfoldable pub proceed :
          RequestStatus
          → Request
          → ActionApproval
          → ExecutionIdentity
          → PolicyCheck
          → ℕ
          → Op (Desk W) Receipt
      unfolding repeat_execution on_memory consume save run_execution
      proceed executed r artifact identity policy now = repeat_execution r identity policy
      proceed approved r artifact identity policy now = do
        on_memory (consume env r identity.actor_id now)
        save
        run_execution r artifact identity policy
      proceed _ r artifact identity policy now = do
        lift (require (is_some r.consumed_at) (lit "Approval consumption state is invalid."))
        run_execution r artifact identity policy

      unfoldable pub execute_approval :
          Text → ExecutionIdentity → PolicyCheck → Policy → Op (Desk W) Receipt
      unfolding load on_memory check_execution proceed
      execute_approval id_value identity action_policy policy_value = do
        id ← lift (identifier env.safety id_value (lit "Approval request id"))
        policy ← lift (validate_policy env policy_value)
        load
        now ← lift (timestamp (clock 0))
        checked ← on_memory (check_execution env policy id identity now)
        proceed checked.0.status checked.0 checked.1 identity action_policy now
