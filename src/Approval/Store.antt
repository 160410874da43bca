-- ===== src/Approval/Store.antt =====
-- The inbox's file: `emptyState`, `validateState`, `read`, `write`, `mutate`, `timestamp`.
use ghostapi.Common.{
  ℕ, lit, Option, none, some, [], map, leb, map_ok, Failure, Result, ok, err, fail, ◌>>=◌, ◌>>◌,
  if◌then◌else◌,
}
use ghostapi.Common.Action.{Op}
use ghostapi.Safety.Validate.{array, hash, unique}
use ghostapi.Approval.Types.{Env, State}
use ghostapi.Approval.Requests.{validate_request}
use ghostapi.Approval.Audit.{validate_audit, chain_from}

-- `MAX_REQUESTS`
abbrev pub max_requests : ℕ
max_requests = 1_000

-- `MAX_AUDIT`
abbrev pub max_audit : ℕ
max_audit = 10_000

-- `MAX_STORE_BYTES`
abbrev pub max_store_bytes : ℕ
max_store_bytes = 1_048_576

-- The file, `none` while there is none.
abbrev pub Store : Type 0
Store = Option State

-- The clock gives `none` for an invalid date.
unfoldable pub timestamp : Option ℕ → Result ℕ
timestamp none = fail (lit "Approval inbox clock is invalid.")
timestamp (some now) = ok now

module _ (env : Env) where
  unfoldable pub empty_state : State
  empty_state = record {
    requests = [];
    audit_anchor = env.sha256 (lit "ghostapi.approval.audit.v1");
    audit = [];
  }

  unfoldable pub validate_state : (Failure → Failure) → State → Result State
  validate_state foreign s = do
    given ← array s.requests (lit "Approval requests") max_requests
    requests ← map_ok (validate_request env foreign) given
    unique (map (λ r. r.id) requests) (lit "Approval request ids")
    unique (map (λ r. r.action_hash) requests) (lit "Approval action hashes")
    anchor ← hash s.audit_anchor (lit "Approval audit anchor")
    records ← array s.audit (lit "Approval audit") max_audit
    audit ← map_ok (validate_audit env) records
    chain_from anchor 1 audit
    ok (record { requests = requests; audit_anchor = anchor; audit = audit })

  -- An error that is not the inbox's own is reported as a file that is not JSON.
  unfoldable pub read : Store → Result State
  unfolding validate_state empty_state
  read none = ok empty_state
  read (some s) =
      if leb (env.inbox_bytes s) max_store_bytes
      then validate_state
          (λ _. record { message = lit "Approval inbox store is not valid JSON."; code = none }) s
      else fail (lit "Approval inbox store exceeds its size limit.")

  unfoldable pub write : State → Result State
  unfolding validate_state
  write s = validate_state (λ e. e) s

  -- The write at the end of `mutate`.
  unfoldable pub persist : {A : Type 0} → Result A × State → Store → Result A × Store
  persist (err e, s) store = (err e, store)
  persist (ok a, s) store = elim (write s) [
    | ok valid ↦ (ok a, some valid)
    | err e ↦ (err e, store)
  ]

  unfoldable pub mutate : {A : Type 0} → Option ℕ → (ℕ → Op State A) → Op Store A
  mutate clock operation store = elim (read store) [
    | err e ↦ (err e, store)
    | ok s ↦ elim (timestamp clock) [
      | err e ↦ (err e, store)
      | ok now ↦ persist (operation now s) store
    ]
  ]
