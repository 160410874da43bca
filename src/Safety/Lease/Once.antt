-- ===== src/Safety/Lease/Once.antt =====
-- An action that is completed is not performed again, in any history.
use ghostapi.Common.{
  ℕ, ◌≡◌, refl, sym, ap, ◌∙◌, subst, Bool, true, false, List, [], ◌∷◌, ◌++◌, any, any-find, Text,
  lit, Option, none, ok, err, Failure, arith, ok_inj, Bool-cases, inl, inr, ◌⊎◌,
}
use ghostapi.Common.Action.{Op, Keeps, continue-elim}
use ghostapi.Safety.Types.{Env, Action, Outcome, State}
use ghostapi.Safety.Scope.{ledger_key}
use ghostapi.Safety.Circuit.{is_completed}
use ghostapi.Safety.Validate.Records.{validate_outcome}
use ghostapi.Safety.Store.{Store, read}
use ghostapi.Safety.Store.Laws.{Holds, Holds-some, mutate-Wrote, mutate-refused}
use ghostapi.Safety.Calls.{Call, run}
use ghostapi.Safety.Calls.Invariants.{Invariant, Permits-any, run-Holds}
use ghostapi.Safety.Lease.{
  Lease, has_key, find_ledger, lease_expired, assert_reserved, reserve, prune_expired_leases,
  admit_new, admit_state, admit, commit, commit_check, complete, complete_state, completion_audit,
}
use ghostapi.Safety.Lease.Laws.{admit-Admitted}
use ghostapi.Safety.Lease.Keeps.{
  put_budget-LeavesLedger, put_circuit-LeavesLedger, append_audit-LeavesLedger,
  evaluate-LeavesLedger, assert_action_allowed-LeavesLedger, dequeue_state-LeavesLedger,
  assert_reserved-LeavesLedger, push_item-LeavesLedger, stop_state-LeavesLedger,
  reenable_state-LeavesLedger,
}
use ghostapi.Safety.Lease.Done.{
  read-keys_fit, IsDone, IsDone-Survives, keys_fit, is_done-filter, is_done-append, is_done-update,
  is_done_complete, is_done-find, is_done-status, keys_fit-filter, keys_fit-reserve,
  keys_fit-update,
}

module _ (env : Env) (key : Text) where
  leaving : (s t : State) → t.ledger ≡ s.ledger → IsDone key s → IsDone key t
  unfolding IsDone
  leaving s t h done = (rw h done.0, rw h done.1)

  prune-Keeps :
      (now : ℕ) (s : State)
      → IsDone key s
      → IsDone key (prune_expired_leases now env.lease_ttl_ms s)
  unfolding IsDone prune_expired_leases
  prune-Keeps now s done = (
    is_done-filter key now env.lease_ttl_ms s.ledger done.0,
    keys_fit-filter now env.lease_ttl_ms s.ledger done.1,
  )

  admit_new-ledger :
      (a : Action) (now : ℕ) (s : State)
      → let t = (admit_new env a (ledger_key a) now s).1 in
        (t.ledger ≡ s.ledger) ⊎ (t.ledger ≡ s.ledger ++ reserve a now ∷ [])
  unfolding admit_new
  admit_new-ledger a now s =
      grind (arith, assert_action_allowed-LeavesLedger env a now s, append_audit-LeavesLedger)

  reserve-Keeps : (a : Action) (now : ℕ) → Keeps (IsDone key) (admit_new env a (ledger_key a) now)
  unfolding IsDone
  reserve-Keeps a now s done = elim (admit_new-ledger a now s) [
    | inl e ↦ (rw e done.0, rw e done.1)
    | inr e ↦ (
      rw e (is_done-append key s.ledger (reserve a now ∷ []) done.0),
      rw e (keys_fit-reserve a now s.ledger done.1),
    )
  ]

  admit_state-Keeps :
      (a : Action) (now : ℕ) → Keeps (IsDone key) (admit_state env a (ledger_key a) now)
  unfolding admit_state
  admit_state-Keeps a now s done =
      let p = prune_expired_leases now env.lease_ttl_ms s in
      let pruned = prune-Keeps now s done in ground (arith, pruned, reserve-Keeps a now p pruned)

  complete_state-Keeps :
      (other : Text) (outcome : Outcome) (now : ℕ)
      → Keeps (IsDone key) (complete_state env other outcome now)
  unfolding complete_state completion_audit IsDone
  complete_state-Keeps other outcome now s done = grind (
    arith,
    append_audit-LeavesLedger env,
    evaluate-LeavesLedger env,
    is_done-update key other outcome now s.ledger done.0,
    keys_fit-update other outcome now s.ledger done.1,
  )

  IsDone-Invariant : Invariant (IsDone key) env (λ _. Unit)
  IsDone-Invariant = record {
    survives = IsDone-Survives env key;
    put_budget_keeps = λ b s. leaving s _ (put_budget-LeavesLedger b s);
    put_circuit_keeps = λ c s. leaving s _ (put_circuit-LeavesLedger c s);
    append_audit_keeps = λ event subject reason now actor s.
        leaving s _ (append_audit-LeavesLedger env event subject reason now actor s);
    assert_action_allowed_keeps =
        λ a now s. leaving s _ (assert_action_allowed-LeavesLedger env a now s);
    stop_state_keeps = λ scope reason principal now s.
        leaving s _ (stop_state-LeavesLedger env scope reason principal now s);
    reenable_state_keeps = λ scope reason principal now _ s.
        leaving s _ (reenable_state-LeavesLedger env scope reason principal now s);
    admit_state_keeps = admit_state-Keeps;
    assert_reserved_keeps =
        λ other now s. leaving s _ (assert_reserved-LeavesLedger env other now s);
    complete_state_keeps = complete_state-Keeps;
    push_item_keeps = λ a now s. leaving s _ (push_item-LeavesLedger env a now s);
    dequeue_state_keeps = λ now s. leaving s _ (dequeue_state-LeavesLedger env now s);
  }

  assert_reserved-done :
      (now : ℕ) (s : State)
      → IsDone key s
      → (e : Failure) × ((assert_reserved env key now s).0 ≡ err e)
  unfolding IsDone assert_reserved find_ledger lease_expired
  assert_reserved-done now s done =
      let (e, found, completed) = is_done-find key s.ledger done.0 in
      (
        record { message = lit "Safety lease is no longer active."; code = none },
        ground (arith, found, completed),
      )

admit_state-done :
    (env : Env) (a : Action) (now : ℕ) (s : State) {b : Bool} {t : State}
    → IsDone (ledger_key a) s
    → admit_state env a (ledger_key a) now s ≡ (ok b, t)
    → b ≡ true
unfolding admit_state IsDone
admit_state-done env a now s done h =
    let (e, found, _) =
      is_done-find (ledger_key a) (prune_expired_leases now env.lease_ttl_ms s).ledger
        (prune-Keeps env (ledger_key a) now s done).0 in
    ground (arith, found)

complete_state-IsDone :
    (env : Env) (key : Text) (outcome : Outcome) (now : ℕ) (s : State) {t : State}
    → any s.ledger (has_key key) ≡ true
    → keys_fit s.ledger ≡ true
    → complete_state env key outcome now s ≡ (ok tt, t)
    → IsDone key t
unfolding complete_state completion_audit IsDone is_completed
complete_state-IsDone env key outcome now s known fit h =
    let (e, found) = any-find (has_key key) s.ledger known in
    grind (
      arith,
      found,
      append_audit-LeavesLedger env,
      evaluate-LeavesLedger env,
      is_done_complete key outcome now s.ledger known,
      is_done-status key s.ledger found,
      keys_fit-update key outcome now s.ledger fit,
    )

module _ (env : Env) (l : Lease) (clock : Option ℕ) (outcome : Outcome) (store : Store) (s : State)
    (was_read : read env store ≡ ok s) (known : any s.ledger (has_key l.key) ≡ true)
    (first : l.replay ≡ false) (completed : (complete env l clock outcome store).0 ≡ ok tt) where
  complete-Holds : Holds (IsDone l.key) env (complete env l clock outcome store).1
  unfolding complete
  complete-Holds =
      rw (first, complete)
        (continue-elim (validate_outcome env outcome) store _ (rw (first, complete) at completed)
          λ o _ h e.
            let w = mutate-Wrote env clock (complete_state env l.key o) store h in
            let before = ok_inj (sym w.was_read ∙ was_read) in
            let done =
              complete_state-IsDone env l.key o w.now w.before {t = w.changed} (rw before known)
                (read-keys_fit env store w.before w.was_read) w.ran in
            subst (Holds (IsDone l.key) env) (sym (ap (λ r. r.1) e ∙ w.stored)) (
              Holds-some (IsDone l.key) env (IsDone-Survives env l.key) w.written
                (IsDone-Survives env l.key w.changed w.written done w.valid)))

  module _ (history : List (Option ℕ × Call)) where
    later : Holds (IsDone l.key) env (run env history (complete env l clock outcome store).1)
    later =
        run-Holds (IsDone l.key) env (λ _. Unit) (IsDone-Invariant env l.key) history _
          (Permits-any history) complete-Holds

    -- After a lease on a reservation is completed, in every history of calls, a commit under a lease
    -- for the same key throws before its operation, whatever that does, and leaves the store as it
    -- was.
    pub complete-commit :
        {T : Type 0} (other : Lease) (before after : Option ℕ) (operation : Op Store T)
        → other.key ≡ l.key
        → let now = run env history (complete env l clock outcome store).1 in
          (e : Failure) × (commit env other before after operation now ≡ (err e, now))
    unfolding commit commit_check
    complete-commit other before after operation same = elim (Bool-cases other.replay) [
      | inl e ↦ (
        record { message = lit "Safety replay lease cannot commit a side effect."; code = none },
        rw (e, commit) refl,
      )
      | inr e ↦
          let (f, x) = mutate-refused env before (commit_check env other) _ λ now t r.
            let (g, y) = assert_reserved-done env l.key now t (later t r) in
            (g, ground (arith, y, same)) in
          (f, ground (arith, x))
    ]

    -- After a lease on a reservation is completed, in every history of calls, an admission of an
    -- action with its key gives no lease but a replay.
    pub complete-admit :
        (now : Option ℕ) (a : Action) (m : Lease)
        → ledger_key a ≡ l.key
        → (admit env now a (run env history (complete env l clock outcome store).1)).0 ≡ ok m
        → m.replay ≡ true
    complete-admit now a m same h =
        let (_, _, admitted, _) = admit-Admitted env now a _ h in
        let w = mutate-Wrote env now (admit_state env a (ledger_key a)) _ admitted in
        admit_state-done env a w.now w.before
          (subst (λ k. IsDone k w.before) (sym same) (later w.before w.was_read)) w.ran
