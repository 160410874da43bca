-- ===== src/Actions/Checks.antt =====
-- The checks with which `submit` and `execute` begin.
use ghostapi.Common.{
  ℕ, Text, lit, text_eq, Bool, not, ◌&&◌, ◌||◌, option_eq, Option, none, some, canonical, ◌++◌,
  Host, Result, ok, fail, require, ◌>>=◌, ◌>>◌,
}
use ghostapi.Actions.Types.{
  ActionEnvelope, ActionApproval, StoredAction, ExecutionIdentity, PolicyCheck, Phase, Verification,
}
use ghostapi.Actions.Json.{envelope_json}
use ghostapi.Actions.Validate.{validate_envelope, action_hash, verify_binding, verify_policy}

-- `requireApprovalInboxVerification`
unfoldable pub require_inbox : ActionApproval → Verification → Result (Unit {0})
require_inbox approval verification =
    require
      (not (text_eq approval.approved_by (lit "approval-inbox"))
        || option_eq verification.approval_inbox_request_id (some approval.approval_id))
      (lit "Approval inbox provenance is not active for execution.")

-- `this.now().toISOString()`, which throws on an invalid date.
unfoldable pub moment : Option ℕ → Result ℕ
moment none = fail (lit "Invalid time value")
moment (some now) = ok now

module _ (host : Host) where
  -- Whether an envelope has the hash and the canonical form of a record's.
  unfoldable pub is_same_envelope : ActionEnvelope → StoredAction → Result Bool
  is_same_envelope action r = do
    digest ← action_hash host action
    given ← validate_envelope host action
    kept ← validate_envelope host r.envelope
    ok (
        text_eq digest r.action_hash
        && text_eq (canonical host (envelope_json host given))
            (canonical host (envelope_json host kept)))

  -- The checks of `execute` on the record that it reads, before it looks at the receipts; the time
  -- that it reads.
  unfoldable pub check_record :
      (Phase → ActionEnvelope → ActionApproval → Result Verification)
      → (Text → Bool)
      → Option ℕ
      → ActionEnvelope
      → StoredAction
      → ExecutionIdentity
      → PolicyCheck
      → Result ℕ
  unfolding is_same_envelope
  check_record verify supports clock action r identity policy = do
    verification ← verify Phase.execute r.envelope r.approval
    require_inbox r.approval verification
    current ← moment clock
    same ← is_same_envelope action r
    require same (lit "Action envelope changed after approval; execution is blocked.")
    verify_binding host r.envelope r.approval
    verify_policy r.envelope policy
    require
        (text_eq identity.actor_id r.envelope.actor.id
          && text_eq identity.workload_id r.envelope.actor.workload_id)
        (lit "Execution identity does not match the approved action.")
    require (supports r.envelope.operation)
        (lit "Execution adapter does not support action operation: " ++ r.envelope.operation)
    ok current
