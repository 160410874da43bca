-- ===== src/Approval/Verifier.antt =====
-- The verifier that `LocalApprovalInbox` gives its gateway: what the verifier of its options says,
-- and that the approval is that of a request under execution.
use ghostapi.Common.{
  lit, text_eq, Bool, true, false, ◌&&◌, is_some, none, some, find, Result, ok, fail, require,
  ◌>>=◌, ◌>>◌, if◌then◌else◌,
}
use ghostapi.Actions.Types.{ActionEnvelope, ActionApproval, Phase, Verification}
use ghostapi.Actions.Validate.{action_hash, action_approval_hash, validate_approval}
use ghostapi.Approval.Types.{Env, Request, executing, executed}
use ghostapi.Approval.Store.{Store, read}
use ghostapi.Approval.Standing.{has_id}

-- A verifier of approvals, such as that of a gateway's options.
abbrev pub Verifier : Type 0
Verifier = Phase → ActionEnvelope → ActionApproval → Result Verification

-- `active`, and that the approval was consumed.
unfoldable pub is_under_execution : Request → Bool
is_under_execution r =
    is_some r.consumed_at
    && elim r.status [ executing ↦ true | executed ↦ is_some r.execution_receipt_hash | _ ↦ false ]

module _ (env : Env) where
  unfoldable pub is_same_approval : ActionApproval → ActionApproval → Result Bool
  is_same_approval artifact approval = do
    kept ← action_approval_hash env.host artifact
    given ← action_approval_hash env.host approval
    ok (text_eq kept given)

  -- Whether a request is of an action and has the artifact of an approval.
  unfoldable pub is_request_of : Request → ActionEnvelope → ActionApproval → Result Bool
  unfolding is_same_approval
  is_request_of r action approval = elim r.artifact [
    | none ↦ ok false
    | some artifact ↦ do
      digest ← action_hash env.host action
      if text_eq r.action_hash digest then is_same_approval artifact approval else ok false
  ]

  unfoldable pub provenance : Request → ActionEnvelope → ActionApproval → Result (Unit {0})
  unfolding is_under_execution is_request_of
  provenance r action approval = do
    require (is_under_execution r) (lit "Approval inbox provenance is not active for execution.")
    is_its ← is_request_of r action approval
    require is_its (lit "Approval inbox provenance is not active for execution.")

  -- The verifier on the file as it is at the call.
  unfoldable pub inbox_verify : Verifier → Store → Verifier
  unfolding provenance
  inbox_verify verify store phase action approval_value = do
    _ ← verify phase action approval_value
    approval ← validate_approval env.host approval_value
    s ← read env store
    elim (find (has_id approval.approval_id) s.requests) [
      | none ↦ fail (lit "Approval inbox provenance is not active for execution.")
      | some r ↦ do
        provenance r action approval
        ok (record { approval_inbox_request_id = some r.id })
    ]
