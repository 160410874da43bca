-- ===== src/Safety/Store.antt =====
-- The persisted store: `emptyState`, `validateState`, `read`, `mutate`, `timestamp`, `appendAudit`,
-- `authorize`. The file lock makes each `mutate` one step; the file is `none` while it does not
-- exist, and a new file replaces it at once or not at all (`atomicWriteJson`).
pub mod Laws
pub mod Validated
use ghostapi.Common.{
  ℕ, Text, lit, Option, none, some, List, [], ◌++◌, map, any, leb, Result, ok, err, fail, require,
  ◌>>=◌, ◌>>◌, map_ok, text_eq, if◌then◌else◌,
}
use ghostapi.Common.Action.{Op}
use ghostapi.Safety.Types.{Env, State, Operator, Permission}
use ghostapi.Safety.Scope.{scope_key}
use ghostapi.Safety.Validate.{array, hash, unique}
use ghostapi.Safety.Validate.Controls.{
  max_ledger, validate_switch, validate_budget, validate_circuit, validate_operator,
  permission_text,
}
use ghostapi.Safety.Validate.Records.{validate_ledger, validate_queue_item, validate_dead_letter}
use ghostapi.Safety.Audit.{max_audit, validate_audit, validate_audit_chain, append_record}

-- `MAX_CONTROLS`
abbrev pub max_controls : ℕ
max_controls = 1_000

-- `MAX_QUEUE`
abbrev pub max_queue : ℕ
max_queue = 100

-- `MAX_DEAD_LETTERS`
abbrev pub max_dead_letters : ℕ
max_dead_letters = 1_000

-- `MAX_STORE_BYTES`
abbrev pub max_store_bytes : ℕ
max_store_bytes = 1_048_576

-- `array(value, label, max).map(validate)`
unfoldable pub validated {ℓ} : {A : Type ℓ} → (A → Result A) → List A → Text → ℕ → Result (List A)
unfolding array
validated validate values label max = array values label max >>= map_ok validate

-- The same with the test that the keys of the values are distinct.
unfoldable pub distinct {ℓ} :
    {A : Type ℓ} → (A → Result A) → (A → Text) → List A → Text → ℕ → Text → Result (List A)
unfolding validated
distinct validate key values label max keys = do
  given ← validated validate values label max
  unique (map key given) keys
  ok given

-- The store, `undefined` while there is no file.
abbrev pub Store : Type 0
Store = Option State

module _ (env : Env) where
  unfoldable pub empty_state : State
  empty_state = record {
    switches = [];
    budgets = [];
    circuits = [];
    ledger = [];
    queue = [];
    dead_letters = [];
    audit_anchor = env.sha256 (lit "ghostapi.safety.audit.v1");
    audit = [];
  }

  unfoldable pub validate_state : State → Result State
  validate_state s = do
    switches ←
        distinct (validate_switch env) (λ c. scope_key c.scope) s.switches (lit "Safety switches")
          max_controls (lit "Safety switch scopes")
    budgets ←
        distinct (validate_budget env) (λ b. b.id) s.budgets (lit "Safety budgets") max_controls
          (lit "Safety budget ids")
    circuits ←
        distinct (validate_circuit env) (λ c. c.id) s.circuits (lit "Safety circuits") max_controls
          (lit "Safety circuit ids")
    ledger ←
        distinct (validate_ledger env) (λ e. e.key) s.ledger (lit "Safety ledger") max_ledger
          (lit "Safety ledger keys")
    unique (map (λ e. e.action.idempotency_key) ledger) (lit "Safety ledger idempotency keys")
    queue ←
        distinct (validate_queue_item env) (λ q. q.id) s.queue (lit "Safety queue") max_queue
          (lit "Safety queue ids")
    dead_letters ←
        distinct (validate_dead_letter env) (λ d. d.id) s.dead_letters
          (lit "Safety dead-letter queue") max_dead_letters (lit "Safety dead-letter ids")
    audit_anchor ← hash s.audit_anchor (lit "Safety audit anchor")
    audit ← validated (validate_audit env) s.audit (lit "Safety audit") max_audit
    validate_audit_chain audit_anchor audit
    ok (record {
      switches = switches;
      budgets = budgets;
      circuits = circuits;
      ledger = ledger;
      queue = queue;
      dead_letters = dead_letters;
      audit_anchor = audit_anchor;
      audit = audit;
    })

  unfoldable pub read : Store → Result State
  read none = ok empty_state
  read (some s) =
      if leb (env.store_bytes s) max_store_bytes
      then validate_state s
      else fail (lit "Safety controller store exceeds its size limit.")

  -- The clock gives `none` for an invalid date.
  unfoldable pub timestamp : Option ℕ → Result ℕ
  timestamp none = fail (lit "Safety controller clock is invalid.")
  timestamp (some now) = ok now

  -- The write at the end of `mutate`.
  unfoldable pub persist : {A : Type 0} → Result A × State → Store → Result A × Store
  persist (err e, s) store = (err e, store)
  persist (ok a, s) store = elim (validate_state s) [
    | ok valid ↦ (ok a, some valid)
    | err e ↦ (err e, store)
  ]

  unfoldable pub mutate : {A : Type 0} → Option ℕ → (ℕ → Op State A) → Op Store A
  mutate clock operation store = elim (read store) [
    | err e ↦ (err e, store)
    | ok s ↦ elim (timestamp clock) [
      | err e ↦ (err e, store)
      | ok now ↦ persist (operation now s) store
    ]
  ]

  unfoldable pub append_audit : Text → Text → Text → ℕ → Option Text → Op State (Unit {0})
  append_audit event subject reason now actor s =
      elim (append_record env s.audit_anchor s.audit event subject reason now actor) [
        | ok audit ↦ (ok tt, record s { audit = audit })
        | err e ↦ (err e, s)
      ]

  -- `authorize`, on what the emergency authorizer answers.
  unfoldable pub authorize : Result Operator → Permission → Result Operator
  authorize authenticated permission = do
    answer ← authenticated
    operator ← validate_operator env answer
    require (any (map permission_text operator.permissions) (text_eq (permission_text permission)))
        (lit "Emergency operator lacks required permission: "
          ++ permission_text permission
          ++ lit ".")
    ok operator
