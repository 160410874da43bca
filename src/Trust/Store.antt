-- ===== src/Trust/Store.antt =====
-- The ladder's file: `emptyState`, `validateState`, `validateTargetState`, `read`, `mutate`,
-- `timestamp`.
use ghostapi.Common.{
  ℕ, lit, Option, none, some, [], map, leb, map_ok, Result, ok, err, fail, ◌>>=◌, ◌>>◌,
  if◌then◌else◌,
}
use ghostapi.Common.Action.{Op}
use ghostapi.Safety.Validate.{non_negative, array, hash, unique, timestamp as validate_time}
use ghostapi.Trust.Types.{Env, State, TargetState}
use ghostapi.Trust.Validate.{max_targets, validate_target}
use ghostapi.Trust.Canary.{target_key}
use ghostapi.Trust.Audit.{max_audit, validate_audit, chain_from}

-- `MAX_STORE_BYTES`
abbrev pub max_store_bytes : ℕ
max_store_bytes = 1_048_576

-- The file, `none` while there is none.
abbrev pub Store : Type 0
Store = Option State

-- The clock gives `none` for an invalid date.
unfoldable pub timestamp : Option ℕ → Result ℕ
timestamp none = fail (lit "Trust ladder clock is invalid.")
timestamp (some now) = ok now

module _ (env : Env) where
  unfoldable pub empty_state : State
  empty_state = record {
    targets = [];
    audit_anchor = env.sha256 (lit "ghostapi.trust.audit.v1");
    audit = [];
  }

  unfoldable pub validate_target_state : TargetState → Result TargetState
  validate_target_state t = do
    observed ← non_negative t.observed (lit "Trust canary observed count") 1_000_000
    violations ← non_negative t.violations (lit "Trust canary violation count") observed
    errors ← non_negative t.errors (lit "Trust canary error count") observed
    target ← validate_target env t.target
    updated_at ← validate_time t.updated_at (lit "Trust target update time")
    ok (record {
      target = target;
      level = t.level;
      is_open = t.is_open;
      observed = observed;
      violations = violations;
      errors = errors;
      updated_at = updated_at;
    })

  unfoldable pub validate_state : State → Result State
  unfolding validate_target_state
  validate_state s = do
    given ← array s.targets (lit "Trust targets") max_targets
    targets ← map_ok validate_target_state given
    unique (map (λ t. target_key env t.target) targets) (lit "Trust targets")
    anchor ← hash s.audit_anchor (lit "Trust audit anchor")
    records ← array s.audit (lit "Trust audit") max_audit
    audit ← map_ok (validate_audit env) records
    chain_from anchor 1 audit
    ok (record { targets = targets; audit_anchor = anchor; audit = audit })

  unfoldable pub read : Store → Result State
  unfolding validate_state empty_state
  read none = ok empty_state
  read (some s) =
      if leb (env.trust_bytes s) max_store_bytes
      then validate_state s
      else fail (lit "Trust ladder store exceeds its size limit.")

  -- The write at the end of `mutate`.
  unfoldable pub persist : {A : Type 0} → Result A × State → Store → Result A × Store
  unfolding validate_state
  persist (err e, s) store = (err e, store)
  persist (ok a, s) store = elim (validate_state s) [
    | ok valid ↦ (ok a, some valid)
    | err e ↦ (err e, store)
  ]

  unfoldable pub mutate : {A : Type 0} → Option ℕ → (ℕ → Op State A) → Op Store A
  mutate clock operation store = elim (read store) [
    | err e ↦ (err e, store)
    | ok s ↦ elim (timestamp clock) [
      | err e ↦ (err e, store)
      | ok now ↦ persist (operation now s) store
    ]
  ]
