-- ===== src/Safety/KillSwitch/Stops.antt =====
-- The headline statements about `stop`.
use ghostapi.Common.{
  ℕ, ◌≡◌, refl, true, List, Text, lit, Option, none, Result, ok, err, Failure, All, arith, inl, inr,
  Bool-cases, Result-cases,
}
use ghostapi.Common.Action.{Op, ◌>>=◌}
use ghostapi.Safety.Types.{Env, Scope, Action, State, Operator}
use ghostapi.Safety.Scope.{scope_matches, ledger_key}
use ghostapi.Safety.Validate.Laws.{validate_action-Gives}
use ghostapi.Safety.Circuit.{assert_action_allowed, kill_switch_error}
use ghostapi.Safety.Store.{Store}
use ghostapi.Safety.Store.Laws.{mutate-Wrote, mutate-refused}
use ghostapi.Safety.Operator.{stop}
use ghostapi.Safety.Lease.{Lease, admit, admit_state, commit, commit_check, assert_reserved}
use ghostapi.Safety.Lease.Laws.{admit-Admitted}
use ghostapi.Safety.Queue.{enqueue, push_item}
use ghostapi.Safety.Calls.{Call, run}
use ghostapi.Safety.KillSwitch.Blocks.{
  IsStopped, assert_action_allowed-stopped, admit_state-stopped,
}
use ghostapi.Safety.KillSwitch.Effect.{
  StoreIsStopped, IsNotReenabling, run-StoreIsStopped, stop-StoreIsStopped,
}

module _ (env : Env) (scope : Scope) (store : Store) (h : StoreIsStopped scope env store) where
  admit-stopped :
      (clock : Option ℕ) (a : Action) {l : Lease}
      → scope_matches scope a ≡ true
      → (admit env clock a store).0 ≡ ok l
      → l.replay ≡ true
  admit-stopped clock a {l} matches e =
      let (_, _, m, _) = admit-Admitted env clock a store e in
      let w = mutate-Wrote env clock (admit_state env a (ledger_key a)) store m in
      admit_state-stopped scope a matches env (ledger_key a) w.now w.before (h w.before w.was_read)
        w.ran

  enqueue-stopped :
      (clock : Option ℕ) (a : Action)
      → scope_matches scope a ≡ true
      → (e : Failure) × (enqueue env clock a store ≡ (err e, store))
  unfolding enqueue
  enqueue-stopped clock a matches = elim (validate_action-Gives env a) [
    | inr (f, v) ↦ (f, rw (v, enqueue) refl)
    | inl v ↦
        rw (v, enqueue)
          (mutate-refused env clock
            (λ now. assert_action_allowed env a now >>= λ _. push_item env a now) store
            λ now s e.
              let (c, x) = assert_action_allowed-stopped scope a matches env now s (h s e) in
              (kill_switch_error c, rw x refl))
  ]

  assert_reserved-state : (key : Text) (now : ℕ) (s : State) → (assert_reserved env key now s).1 ≡ s
  unfolding assert_reserved
  assert_reserved-state key now s = ground arith

  commit_check-stopped :
      (l : Lease) (now : ℕ) (s : State)
      → scope_matches scope l.action ≡ true
      → IsStopped scope s
      → (e : Failure) × ((commit_check env l now s).0 ≡ err e)
  unfolding commit_check
  commit_check-stopped l now s matches stopped =
      let (c, e) = assert_action_allowed-stopped scope l.action matches env now s stopped in
      elim (Result-cases (assert_reserved env l.key now s).0) [
        | inr (f, k) ↦ (f, ground arith)
        | inl (_, k) ↦ (kill_switch_error c, ground (arith, assert_reserved-state l.key now s))
      ]

  commit-stopped :
      {T : Type 0} (l : Lease) (before after : Option ℕ) (operation : Op Store T)
      → scope_matches scope l.action ≡ true
      → (e : Failure) × (commit env l before after operation store ≡ (err e, store))
  unfolding commit
  commit-stopped l before after operation matches = elim (Bool-cases l.replay) [
    | inl e ↦ (
      record { message = lit "Safety replay lease cannot commit a side effect."; code = none },
      rw (e, commit) refl,
    )
    | inr e ↦
        let (f, x) =
          mutate-refused env before (commit_check env l) store
            (λ now s k. commit_check-stopped l now s matches (h s k)) in
        (f, ground (arith, x))
  ]

-- In words, for one history.
module _ (env : Env) (identity : Result Operator) (clock : Option ℕ) (scope : Scope) (reason : Text)
    (store : Store) (stopped : (stop env identity clock scope reason store).0 ≡ ok tt)
    (history : List (Option ℕ × Call)) (kept : All (λ c. IsNotReenabling scope c.1) history) where
  later : StoreIsStopped scope env (run env history (stop env identity clock scope reason store).1)
  later =
      run-StoreIsStopped env scope history _ kept
        (stop-StoreIsStopped env scope identity clock reason store stopped)

  -- After a stop that succeeds, in every history of calls that does not re-enable its scope, the
  -- admission of an action in the scope gives no lease but a replay, which cannot commit.
  pub stop-admit :
      (now : Option ℕ) (a : Action) (l : Lease)
      → scope_matches scope a ≡ true
      → (admit env now a (run env history (stop env identity clock scope reason store).1)).0 ≡ ok l
      → l.replay ≡ true
  stop-admit now a l = admit-stopped env scope _ later now a

  -- After a stop that succeeds, in every history of calls that does not re-enable its scope, a
  -- commit under any lease for an action in the scope throws before its operation, whatever that
  -- does, and leaves the store as it was.
  pub stop-commit :
      {T : Type 0} (l : Lease) (before after : Option ℕ) (operation : Op Store T)
      → scope_matches scope l.action ≡ true
      → let now = run env history (stop env identity clock scope reason store).1 in
        (e : Failure) × (commit env l before after operation now ≡ (err e, now))
  stop-commit l before after operation = commit-stopped env scope _ later l before after operation

  -- After a stop that succeeds, in every history of calls that does not re-enable its scope, an
  -- action in the scope cannot be queued.
  pub stop-enqueue :
      (at : Option ℕ) (a : Action)
      → scope_matches scope a ≡ true
      → let now = run env history (stop env identity clock scope reason store).1 in
        (e : Failure) × (enqueue env at a now ≡ (err e, now))
  stop-enqueue at a = enqueue-stopped env scope _ later at a
