-- ===== src/Actions/Records.antt =====
-- Receipts and stored records: `createReceipt`, `appendReceipt`, `validateReceipt`,
-- `validateStoredAction`, `findLatestReceipt`, and the file of a record.
use ghostapi.Common.{
  ℕ, Text, lit, text_eq, ◌==◌, Bool, false, not, ◌&&◌, ◌||◌, is_some, Option, none, some, List, [],
  ◌∷◌, ◌++◌, length, leb, Host, Result, ok, fail, require, ◌>>=◌, ◌>>◌, if◌then◌else◌,
}
use ghostapi.Safety.Validate.{optional}
use ghostapi.Actions.Types.{
  ReceiptStatus, requested, attempted, committed, verified, failed, ReceiptResult, FailureCode,
  ReceiptBase, Receipt, StoredAction, Env,
}
use ghostapi.Actions.Fields.{hash, timestamp_value, identifier}
use ghostapi.Actions.Json.{receipt_hash, receipt_genesis_hash}
use ghostapi.Actions.Validate.{validate_envelope, validate_approval, verify_binding, action_hash}

-- `MAX_RECEIPTS`
abbrev pub max_receipts : ℕ
max_receipts = 20

-- `MAX_ACTION_BYTES`
abbrev pub max_action_bytes : ℕ
max_action_bytes = 131_072

status_index : ReceiptStatus → ℕ
status_index requested = 0
status_index attempted = 1
status_index committed = 2
status_index verified = 3
status_index failed = 4

unfoldable pub status_eq : ReceiptStatus → ReceiptStatus → Bool
unfolding status_index
status_eq a b = status_index a == status_index b

-- `findLatestReceipt`: the last receipt with this status.
unfoldable pub find_latest_receipt : ReceiptStatus → List Receipt → Option Receipt
find_latest_receipt status [] = none
find_latest_receipt status (r ∷ rs) = elim (find_latest_receipt status rs) [
  | some later ↦ some later
  | none ↦ if status_eq r.status status then some r else none
]

-- `receipts.at(-1)!.receiptHash`, or the genesis hash if there is none.
unfoldable pub last_receipt_hash : Text → List Receipt → Text
last_receipt_hash genesis [] = genesis
last_receipt_hash genesis (r ∷ rs) = last_receipt_hash r.receipt_hash rs

unfoldable pub append_receipt : StoredAction → Receipt → Result StoredAction
append_receipt r receipt =
    if leb max_receipts (length r.receipts)
    then fail (lit "Action receipt limit of 20 was reached.")
    else ok (record r { receipts = r.receipts ++ receipt ∷ [] })

unfoldable pub needs_result : ReceiptStatus → Bool
needs_result status = status_eq status committed || status_eq status verified

unfoldable pub starts_requested : List Receipt → Bool
starts_requested [] = false
starts_requested (r ∷ rs) = status_eq r.status requested

module _ (host : Host) where
  -- `fresh` is what `randomUUID` gives, without its dashes.
  unfoldable pub create_receipt :
      StoredAction
      → ReceiptStatus
      → ℕ
      → Text
      → Option Text
      → Option ReceiptResult
      → Option FailureCode
      → Result Receipt
  create_receipt r status now fresh provider_request_id result failure = do
    receipt_id ← identifier host (lit "receipt-" ++ fresh) (lit "Receipt id")
    timestamp ← timestamp_value now (lit "Action receipt timestamp")
    provider ← optional (λ p. identifier host p (lit "Provider request id")) provider_request_id
    let base : ReceiptBase = record {
      receipt_id = receipt_id;
      action_id = r.envelope.action_id;
      action_hash = r.action_hash;
      status = status;
      timestamp = timestamp;
      provider_request_id = provider;
      result = result;
      failure = failure;
      previous_receipt_hash =
          last_receipt_hash (receipt_genesis_hash host r.action_hash) r.receipts;
    }
    ok (record { base = base; receipt_hash = receipt_hash host base })

  unfoldable pub normalize_result : ReceiptResult → Result ReceiptResult
  normalize_result r = do
    world_id ← identifier host r.world_id (lit "Action receipt world id")
    subscription_id ← identifier host r.subscription_id (lit "Action receipt subscription id")
    synthetic_receipt_id ←
        identifier host r.synthetic_receipt_id (lit "Action receipt synthetic receipt id")
    ok (record {
      world_id = world_id;
      subscription_id = subscription_id;
      synthetic_receipt_id = synthetic_receipt_id;
    })

  unfoldable pub validate_receipt : Text → Text → Text → Receipt → Result Receipt
  validate_receipt action_id digest previous r = do
    require
        (text_eq r.action_id action_id
          && text_eq r.action_hash digest
          && text_eq r.previous_receipt_hash previous)
        (lit "Action receipt linkage is invalid.")
    provider ← optional (λ p. identifier host p (lit "Provider request id")) r.provider_request_id
    result ← optional normalize_result r.result
    require (not (needs_result r.status) || (is_some provider && is_some result))
        (lit "Committed and verified receipts require a provider result.")
    require (not (status_eq r.status failed) || is_some r.failure)
        (lit "Failed receipt requires a failure classification.")
    receipt_id ← identifier host r.receipt_id (lit "Receipt id")
    timestamp ← timestamp_value r.timestamp (lit "Action receipt timestamp")
    let base : ReceiptBase = record {
      receipt_id = receipt_id;
      action_id = action_id;
      action_hash = digest;
      status = r.status;
      timestamp = timestamp;
      provider_request_id = provider;
      result = result;
      failure = r.failure;
      previous_receipt_hash = previous;
    }
    given ← hash r.receipt_hash (lit "Action receipt hash")
    require (text_eq given (receipt_hash host base)) (lit "Action receipt hash is invalid.")
    ok (record { base = base; receipt_hash = r.receipt_hash })

  -- `rawReceipts.map(…)`: each receipt is linked to the raw hash of the one before.
  unfoldable pub validate_receipts : Text → Text → Text → List Receipt → Result (List Receipt)
  validate_receipts action_id digest previous [] = ok []
  validate_receipts action_id digest previous (r ∷ rs) = do
    valid ← validate_receipt action_id digest previous r
    rest ← validate_receipts action_id digest r.receipt_hash rs
    ok (valid ∷ rest)

  unfoldable pub validate_stored_action : StoredAction → Result StoredAction
  validate_stored_action r = do
    envelope ← validate_envelope host r.envelope
    digest ← hash r.action_hash (lit "Action record hash")
    expected ← action_hash host envelope
    require (text_eq digest expected) (lit "Action record hash does not match its envelope.")
    approval ← validate_approval host r.approval
    verify_binding host envelope approval
    require (leb 1 (length r.receipts) && leb (length r.receipts) max_receipts)
        (lit "Action record receipts are invalid.")
    receipts ←
        validate_receipts envelope.action_id digest (receipt_genesis_hash host digest) r.receipts
    require (starts_requested receipts) (lit "Action record must begin with a requested receipt.")
    ok (record {
      envelope = envelope;
      action_hash = digest;
      approval = approval;
      receipts = receipts;
    })

-- `readStoredAction`, of what the file holds: nothing if there is none.
unfoldable pub read_stored_action : Env → Option StoredAction → Result (Option StoredAction)
read_stored_action env none = ok none
read_stored_action env (some r) =
    if leb (env.action_bytes r) max_action_bytes
    then (validate_stored_action env.host r >>= λ valid. ok (some valid))
    else fail (lit "Action record exceeds 131072 bytes.")

-- The same where a record is required.
unfoldable pub require_stored_action : Env → Option StoredAction → Result StoredAction
require_stored_action env file = read_stored_action env file >>= λ found. elim found [
  | none ↦ fail (lit "Action was not found.")
  | some r ↦ ok r
]
