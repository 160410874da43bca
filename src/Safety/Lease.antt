-- ===== src/Safety/Lease.antt =====
-- Admission and the lease: `admit`, `assertActive`, `commit`, `complete`, `pruneExpiredLeases`,
-- `findLedger`, `leaseExpired`.
pub mod Laws
pub mod Admission
pub mod Keeps
pub mod Done
pub mod Once
pub mod Again
use ghostapi.Common.{
  ℕ, ◌+◌, Text, lit, Option, none, some, List, [], ◌∷◌, ◌++◌, length, find, filter, update_first,
  Bool, true, false, not, ◌&&◌, ◌||◌, is_some, leb, ltb, text_eq, Result, ok, fail, if◌then◌else◌,
  require,
}
use ghostapi.Common.Action.{Op, pure, lift, throw, get, modify, ◌>>=◌, ◌>>◌}
use ghostapi.Safety.Types.{Env, Action, Entry, reserved, completed, Outcome, State}
use ghostapi.Safety.Scope.{ledger_key}
use ghostapi.Safety.Validate.Controls.{max_ledger}
use ghostapi.Safety.Validate.Records.{validate_action, validate_outcome}
use ghostapi.Safety.Circuit.{is_completed, assert_action_allowed, evaluate}
use ghostapi.Safety.Budget.{assert_budgets}
use ghostapi.Safety.Store.{Store, mutate, append_audit}

-- The variables that the methods of a lease share.
pub record Lease : Type 0 where
  pub action : Action
  pub key : Text
  pub replay : Bool

unfoldable pub has_key : Text → Entry → Bool
has_key key e = text_eq e.key key

unfoldable pub find_ledger : Text → State → Result Entry
unfolding has_key
find_ledger key s = elim (find (has_key key) s.ledger) [
  | none ↦ fail (lit "Safety lease was not found.")
  | some e ↦ ok e
]

-- `Date.parse(entry.admittedAt) >= Date.parse(now) - leaseTtlMs`
unfoldable pub is_live : ℕ → ℕ → Entry → Bool
unfolding is_completed
is_live now ttl e = is_completed e.status || leb now (e.admitted_at + ttl)

unfoldable pub prune_expired_leases : ℕ → ℕ → State → State
unfolding is_live
prune_expired_leases now ttl s = record s { ledger = filter (is_live now ttl) s.ledger }

-- Whether the first entry with the idempotency key of an action has another hash.
unfoldable pub collides : Action → List Entry → Bool
collides a ledger = elim (find (λ e. text_eq e.action.idempotency_key a.idempotency_key) ledger) [
  | none ↦ false
  | some e ↦ not (text_eq e.action.action_hash a.action_hash)
]

unfoldable pub reserve : Action → ℕ → Entry
reserve a now = record {
  key = ledger_key a;
  action = a;
  status = reserved;
  admitted_at = now;
  completed_at = none;
  outcome = none;
}

unfoldable pub complete_entry : Outcome → ℕ → Entry → Entry
complete_entry outcome now e = record e {
  status = completed;
  completed_at = some now;
  outcome = some outcome;
}

-- The reason of the audit record of a completion.
unfoldable pub completion_reason : Outcome → Text
completion_reason o = elim o.reason [
  | some reason ↦ reason
  | none ↦ if o.success then lit "action completed" else lit "action outcome is unknown"
]

module _ (env : Env) where
  unfoldable pub lease_expired : Entry → ℕ → Bool
  unfolding is_completed
  lease_expired e now = not (is_completed e.status) && ltb (e.admitted_at + env.lease_ttl_ms) now

  -- The checks on the entry of a lease that `assertActive` and `commit` share.
  unfoldable pub assert_reserved : Text → ℕ → Op State (Unit {0})
  unfolding lease_expired find_ledger
  assert_reserved key now = do
    s ← get
    entry ← lift (find_ledger key s)
    lift (require (not (lease_expired entry now)) (lit "Safety lease has expired."))
    lift (require (not (is_completed entry.status)) (lit "Safety lease is no longer active."))

  -- The last part of `admit`, for an action that is not in the ledger.
  unfoldable pub admit_new : Action → Text → ℕ → Op State Bool
  unfolding reserve
  admit_new a key now = do
    assert_action_allowed env a now
    s ← get
    lift (require (not (leb max_ledger (length s.ledger))) (lit "Safety ledger limit was reached."))
    lift (assert_budgets s.ledger a now s.budgets)
    modify (λ t. record t { ledger = t.ledger ++ reserve a now ∷ [] })
    append_audit env (lit "action.admitted") key (lit "budget reservation created") now none
    pure false

  -- The mutation of `admit`: whether the lease is a replay.
  unfoldable pub admit_state : Action → Text → ℕ → Op State Bool
  unfolding collides prune_expired_leases admit_new has_key
  admit_state a key now = do
    modify (prune_expired_leases now env.lease_ttl_ms)
    s ← get
    lift (
        require (not (collides a s.ledger))
          (lit "Safety idempotency key collides with a different action hash."))
    (if is_some (find (has_key key) s.ledger) then pure true else admit_new a key now)

  unfoldable pub admit : Option ℕ → Action → Op Store Lease
  unfolding admit_state
  admit clock input = do
    a ← lift (validate_action env input)
    replay ← mutate env clock (admit_state a (ledger_key a))
    pure (record { action = a; key = ledger_key a; replay = replay })

  unfoldable pub assert_active : Lease → Option ℕ → Op Store (Unit {0})
  unfolding assert_reserved
  assert_active l clock =
      if l.replay
      then pure tt
      else mutate env clock λ now. do
        assert_reserved l.key now
        assert_action_allowed env l.action now
        append_audit env (lit "action.final_check") l.key
            (lit "kill switch, budgets, and circuits remain active") now none

  -- The first mutation of `commit`.
  unfoldable pub commit_check : Lease → ℕ → Op State (Unit {0})
  unfolding assert_reserved
  commit_check l now = do assert_reserved l.key now; assert_action_allowed env l.action now

  -- The second mutation of `commit`.
  unfoldable pub commit_record : Lease → ℕ → Op State (Unit {0})
  unfolding assert_reserved
  commit_record l now = do
    assert_reserved l.key now
    append_audit env (lit "action.final_check") l.key
        (lit "kill switch, budgets, and circuits remained active through commit") now none

  -- `operation` is the side effect; other callers may change the store while it runs.
  unfoldable pub commit : {T : Type 0} → Lease → Option ℕ → Option ℕ → Op Store T → Op Store T
  unfolding commit_check commit_record
  commit l before after operation =
      if l.replay then throw (lit "Safety replay lease cannot commit a side effect.") else do
        mutate env before (commit_check l)
        result ← operation
        mutate env after (commit_record l)
        pure result

  unfoldable pub completion_audit : Text → Outcome → ℕ → Op State (Unit {0})
  unfolding completion_reason
  completion_audit key outcome now =
      append_audit env (if outcome.success then lit "action.completed" else lit "action.unknown")
        key (completion_reason outcome) now none

  -- The mutation of `complete`.
  unfoldable pub complete_state : Text → Outcome → ℕ → Op State (Unit {0})
  unfolding has_key complete_entry completion_audit
  complete_state key outcome now s = elim (find (has_key key) s.ledger) [
    | none ↦ completion_audit key outcome now s
    | some e ↦ elim e.status [
      | completed ↦ (ok tt, s)
      | reserved ↦
          (do
            modify (λ t. record t {
              ledger = update_first (has_key key) (complete_entry outcome now) t.ledger;
            })
            completion_audit key outcome now
            evaluate env e.action now)
            s
    ]
  ]

  unfoldable pub complete : Lease → Option ℕ → Outcome → Op Store (Unit {0})
  unfolding complete_state
  complete l clock input = if l.replay then pure tt else do
    outcome ← lift (validate_outcome env input)
    mutate env clock (complete_state l.key outcome)
