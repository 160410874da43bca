-- ===== src/Actions/Gateway.antt =====
-- `LocalActionGateway`: `submit`, `execute`, `inspect`, `compensate`. The file lock makes the reads
-- and writes of one action's file one step; while an adapter runs, it may do anything to the safety
-- controller's store, as other callers may.
use ghostapi.Common.{
  ℕ, Text, lit, text_eq, true, false, not, ◌&&◌, Option, none, some, [], ◌∷◌, ltb, Result, ok, err,
  require, if◌then◌else◌,
}
use ghostapi.Common.Action.{Op, pure, lift, throw, get, attempt, ◌>>=◌, ◌>>◌}
use ghostapi.Safety.Types.{Outcome}
use ghostapi.Safety.Store.{Store, mutate}
use ghostapi.Safety.Lease.{Lease, admit, commit_check, commit_record, complete}
use ghostapi.Actions.Types.{
  Env, ActionEnvelope, ActionApproval, ReceiptStatus, requested, attempted, committed, verified,
  failed, ReceiptResult, FailureCode, execution_error, unknown_outcome, verification_failed,
  Receipt, StoredAction, ExecutionIdentity, PolicyCheck, Phase, Verification, Execution,
  committed_as, unknown, compensatable, irreversible,
}
use ghostapi.Actions.Fields.{identifier}
use ghostapi.Actions.Validate.{
  validate_envelope, validate_approval, action_hash, action_approval_hash, verify_approval,
  verify_policy,
}
use ghostapi.Actions.Checks.{require_inbox, moment, check_record}
use ghostapi.Actions.Records.{
  find_latest_receipt, create_receipt, append_receipt, validate_stored_action, read_stored_action,
  require_stored_action,
}
use ghostapi.Actions.Adapters.{
  Stores, Adapter, safety_action, proof_of, failure_outcome, success_outcome, put_file, on_safety,
  on_world, on_both, on_first,
}

module _ {W : Type 0} where
  module _ (env : Env) where
    -- `writeStoredAction`
    unfoldable pub write_stored_action : Text → StoredAction → Op (Stores W) (Unit {0})
    unfolding put_file
    write_stored_action id r s = elim (validate_stored_action env.host r) [
      | ok valid ↦ (ok tt, record s { files = put_file id valid s.files })
      | err e ↦ (err e, s)
    ]

    -- A receipt is made, appended and written; what follows goes on with the record in memory.
    unfoldable pub add_receipt :
        Text
        → StoredAction
        → ReceiptStatus
        → ℕ
        → Text
        → Option Text
        → Option ReceiptResult
        → Option FailureCode
        → Op (Stores W) (StoredAction × Receipt)
    add_receipt id r status now fresh provider_request_id result failure = do
      receipt ← lift (create_receipt env.host r status now fresh provider_request_id result failure)
      r' ← lift (append_receipt r receipt)
      write_stored_action id r'
      pure (r', receipt)

    -- `safety.commit`, on the store of the safety controller beside the world.
    unfoldable pub commit_effect :
        {T : Type 0} → Lease → Option ℕ → Option ℕ → Op (Store × W) T → Op (Store × W) T
    unfolding on_first
    commit_effect l before after operation =
        if l.replay then throw (lit "Safety replay lease cannot commit a side effect.") else do
          on_first (mutate env.safety before (commit_check env.safety l))
          result ← operation
          on_first (mutate env.safety after (commit_record env.safety l))
          pure result

    module _ {Effect : Type 0} (adapter : Adapter W Effect)
        (verify : Phase → ActionEnvelope → ActionApproval → Result Verification)
        (clock : ℕ → Option ℕ) (fresh : ℕ → Text) where
      unfoldable pub submit :
          ActionEnvelope → ActionApproval → PolicyCheck → Op (Stores W) StoredAction
      submit action_value approval_value policy = do
        action ← lift (validate_envelope env.host action_value)
        approval ← lift (validate_approval env.host approval_value)
        verification ← lift (verify Phase.submit action approval)
        lift (require_inbox approval verification)
        current ← lift (moment (clock 0))
        lift (verify_policy action policy)
        digest ← lift (action_hash env.host action)
        s ← get
        existing ← lift (read_stored_action env (s.files action.action_id))
        elim existing [
          | some r ↦ do
            old ← lift (action_approval_hash env.host r.approval)
            new ← lift (action_approval_hash env.host approval)
            lift (
                require (text_eq r.action_hash digest && text_eq old new)
                  (lit "Action id already exists with a different immutable envelope or approval."))
            pure r
          | none ↦ do
            lift (require (ltb current action.expires_at) (lit "Action has expired."))
            lift (verify_approval env.host action approval current)
            let empty : StoredAction = record {
              envelope = action;
              action_hash = digest;
              approval = approval;
              receipts = [];
            }
            receipt ←
                lift (create_receipt env.host empty requested current (fresh 0) none none none)
            let r : StoredAction = record empty { receipts = receipt ∷ [] }
            write_stored_action action.action_id r
            pure r
        ]

      unfoldable pub inspect : Text → Op (Stores W) StoredAction
      inspect action_id = do
        id ← lift (identifier env.host action_id (lit "Action id"))
        s ← get
        lift (require_stored_action env (s.files id))

      -- `execute` where a receipt says that the action was committed.
      unfoldable pub verify_committed : Text → StoredAction → ℕ → Op (Stores W) Receipt
      verify_committed id r current = do
        answer ← on_world (adapter.verify r.envelope)
        elim (proof_of answer) [
          | none ↦ throw (
              lit
                "Committed action verification is incomplete; execution will not retry without idempotency proof.")
          | some (p, result) ↦ do
            added ← add_receipt id r verified current (fresh 0) (some p) (some result) none
            pure added.1
        ]

      -- `execute` where an attempt was recorded and no outcome: its two receipts are written at once.
      unfoldable pub reconcile_attempt : Text → StoredAction → ℕ → Op (Stores W) Receipt
      reconcile_attempt id r current = do
        answer ← on_world (adapter.verify r.envelope)
        elim (proof_of answer) [
          | none ↦ throw (
              lit
                "Prior action outcome is unknown; execution will not retry without idempotency proof.")
          | some (p, result) ↦ do
            first ←
                lift (
                  create_receipt env.host r committed current (fresh 0) (some p) (some result) none)
            r' ← lift (append_receipt r first)
            added ← add_receipt id r' verified current (fresh 1) (some p) (some result) none
            pure added.1
        ]

      -- A failure is reported to the safety controller and recorded, and the call throws.
      unfoldable pub fail_action :
          Text
          → StoredAction
          → Lease
          → Outcome
          → FailureCode
          → Option Text
          → Option ReceiptResult
          → Text
          → Op (Stores W) Receipt
      fail_action id r l outcome code provider_request_id result message = do
        on_safety (complete env.safety l (clock 4) outcome)
        now ← lift (moment (clock 5))
        _ ← add_receipt id r failed now (fresh 1) provider_request_id result (some code)
        throw message

      -- The end of `execute`, once the adapter has answered that it committed.
      unfoldable pub verify_execution :
          Text → StoredAction → Lease → Text → ReceiptResult → Op (Stores W) Receipt
      verify_execution id r l p result = do
        now ← lift (moment (clock 6))
        added ← add_receipt id r committed now (fresh 2) (some p) (some result) none
        answer ← on_world (adapter.verify r.envelope)
        elim (proof_of answer) [
          | none ↦
              fail_action id added.0 l
                (failure_outcome true (lit "synthetic verification did not prove the result"))
                verification_failed (some p) (some result)
                (lit
                  "Action committed but verification did not prove its result; it was not automatically retried.")
          | some (p', result') ↦ do
            later ← lift (moment (clock 7))
            last ← add_receipt id added.0 verified later (fresh 3) (some p') (some result') none
            on_safety (complete env.safety l (clock 8) success_outcome)
            pure last.1
        ]

      -- What `execute` does with the end of `adapter.execute`.
      unfoldable pub settle : Text → StoredAction → Lease → Result Execution → Op (Stores W) Receipt
      unfolding verify_execution
      settle id r l (err _) =
          fail_action id r l
            (failure_outcome false (lit "synthetic execution failed or was stopped"))
            execution_error none none
            (lit "Action execution failed; it was not automatically retried.")
      settle id r l (ok unknown) =
          fail_action id r l (failure_outcome false (lit "synthetic execution outcome is unknown"))
            unknown_outcome none none
            (lit "Action provider outcome is unknown; it was not automatically retried.")
      settle id r l (ok (committed_as p result)) = verify_execution id r l p result

      -- `execute` where no attempt was recorded.
      unfoldable pub first_attempt : Text → StoredAction → ℕ → Op (Stores W) Receipt
      unfolding settle
      first_attempt id r current = do
        lift (require (ltb current r.envelope.expires_at) (lit "Action has expired."))
        lift (verify_approval env.host r.envelope r.approval current)
        on_world (adapter.plan r.envelope)
        on_world (adapter.simulate r.envelope)
        l ← on_safety (admit env.safety (clock 1) (safety_action r.envelope r.action_hash))
        lift (
            require (not l.replay)
              (lit "Safety controller replay was reached before a verified action receipt."))
        added ← add_receipt id r attempted current (fresh 0) none none none
        answer ←
            attempt (on_both (adapter.execute r.envelope (commit_effect l (clock 2) (clock 3))))
        settle id added.0 l answer

      unfoldable pub execute_record : Text → StoredAction → ℕ → Op (Stores W) Receipt
      execute_record id r current = elim (find_latest_receipt verified r.receipts) [
        | some receipt ↦ pure receipt
        | none ↦ elim (find_latest_receipt committed r.receipts) [
          | some _ ↦ verify_committed id r current
          | none ↦ elim (find_latest_receipt attempted r.receipts) [
            | some _ ↦ reconcile_attempt id r current
            | none ↦ first_attempt id r current
          ]
        ]
      ]

      unfoldable pub execute :
          ActionEnvelope → ExecutionIdentity → PolicyCheck → Op (Stores W) Receipt
      unfolding execute_record
      execute action_value identity policy = do
        action ← lift (validate_envelope env.host action_value)
        s ← get
        r ← lift (require_stored_action env (s.files action.action_id))
        current ←
            lift (check_record env.host verify adapter.supports (clock 0) action r identity policy)
        execute_record action.action_id r current

      unfoldable pub compensate : Text → Op (Stores W) Receipt
      unfolding inspect
      compensate action_id = do
        r ← inspect action_id
        elim adapter.compensate [
          | none ↦
              throw (lit "Compensation is unsupported for this action; no rollback is claimed.")
          | some undo ↦ elim r.envelope.reversibility [
            | irreversible ↦
                throw (lit "Compensation is unsupported for this action; no rollback is claimed.")
            | compensatable ↦ do
              on_world (undo r.envelope)
              throw (
                  lit
                    "Compensation adapters must return a durable compensation receipt before this operation can be exposed.")
          ]
        ]
