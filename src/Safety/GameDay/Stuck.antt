-- ===== src/Safety/GameDay/Stuck.antt =====
-- A game day whose reason is too long for the re-enabling.
use ghostapi.Common.{
  ℕ, ◌≡◌, ◌<◌, refl, false, Text, lit, ◌++◌, length, length-append, Option, Result, ok, err,
  Failure, arith, Result-cases, inl, inr, [], ◌∷◌, not, require,
}
use ghostapi.Common.Action.{Op, continue}
use ghostapi.Safety.Types.{Env, Scope, Action, Operator, Permission, State}
use ghostapi.Safety.Validate.{text}
use ghostapi.Safety.Validate.Laws.{text-long}
use ghostapi.Safety.Validate.Controls.{validate_scope}
use ghostapi.Safety.Validate.Records.{validate_action}
use ghostapi.Safety.Store.{Store, read, timestamp as clock_reading, authorize}
use ghostapi.Safety.Operator.{stop, reenable}
use ghostapi.Safety.Lease.{admit}
use ghostapi.Safety.Calls.{Call, step, run}
use ghostapi.Safety.KillSwitch.Effect.{StoreIsStopped, stop-StoreIsStopped, run-StoreIsStopped}
use ghostapi.Safety.GameDay.{
  global_scope, expect_blocked, is_globally_stopped, run_scheduled_game_day,
}

length-suffix : length (lit " recovery drill") ≡ 15
unfolding lit
length-suffix = refl

recovery_text :
    (env : Env) (reason label : Text)
    → 185 < length reason
    → (e : Failure) × (text env (reason ++ lit " recovery drill") label 200 ≡ err e)
recovery_text env reason label h =
    text-long env (reason ++ lit " recovery drill") label 200
      (omega (arith, h, length-append reason (lit " recovery drill"), length-suffix))

-- The re-enabling throws whoever asks for it, and writes nothing.
reenable-refused :
    (env : Env) (identity : Result Operator) (clock : Option ℕ) (reason : Text) (store : Store)
    → 185 < length reason
    → (e : Failure) × (reenable env identity clock global_scope
          (reason ++ lit " recovery drill")
          store
        ≡ (err e, store))
unfolding reenable
reenable-refused env identity clock reason store h =
    let (f, x) = recovery_text env reason (lit "Kill-switch re-enable reason") h in
    elim (Result-cases (authorize env identity Permission.reenable)) [
      | inr (g, k) ↦ (g, ground (arith, k))
      | inl (operator, k) ↦ elim (Result-cases (validate_scope env global_scope)) [
        | inr (g, v) ↦ (g, ground (arith, k, v))
        | inl (scope, v) ↦ (f, ground (arith, k, v, x))
      ]
    ]

-- A computation that throws and leaves the store with a property.
abbrev pub Fails : {B : Type 0} → (Store → Type 0) → Result B × Store → Type 0
Fails Q r = ((e : Failure) × (r.0 ≡ err e)) × Q r.1

continue-Fails :
    {A B : Type 0} (Q : Store → Type 0) (r : Result A) (s : Store) (f : A → Op Store B)
    → Q s
    → ((a : A) → r ≡ ok a → Fails Q (f a s))
    → Fails Q (continue r s f)
continue-Fails Q (ok a) s f q k = k a refl
continue-Fails Q (err e) s f q k = ((e, refl), q)

continue_after-Fails :
    {A B : Type 0} (Q : Store → Type 0) (r : Result A) (s : Store) (f : A → Op Store B) (a : A)
    → r ≡ ok a
    → Fails Q (f a s)
    → Fails Q (continue r s f)
continue_after-Fails Q r s f a e q = rw e q

admit-StoreIsStopped :
    (env : Env) (scope : Scope) (clock : Option ℕ) (a : Action) (store : Store)
    → StoreIsStopped scope env store
    → StoreIsStopped scope env (admit env clock a store).1
unfolding run step
admit-StoreIsStopped env scope clock a store h =
    run-StoreIsStopped env scope ((clock, Call.admits a) ∷ []) store (tt, tt) h

module _ (env : Env) (stop_identity reenable_identity : Result Operator) (clock : ℕ → Option ℕ)
    (a : Action) (reason : Text) (store : Store) where
  -- A game day on a reason of more than 185 characters (the limit is 200), if its action and reason
  -- are valid, it finds no global stop and its own stop succeeds, throws and leaves the global kill
  -- switch active.
  pub run_scheduled_game_day-StoreIsStopped :
      (given : Text) (s : State)
      → 185 < length reason
      → validate_action env a ≡ ok a
      → text env given (lit "Game-day reason") 200 ≡ ok reason
      → read env store ≡ ok s
      → is_globally_stopped s ≡ false
      → (stop env stop_identity (clock 0) global_scope (reason ++ lit " stop drill") store).0
        ≡ ok tt
      → Fails
          (StoreIsStopped global_scope env)
          (run_scheduled_game_day env stop_identity reenable_identity clock a given store)
  unfolding run_scheduled_game_day
  run_scheduled_game_day-StoreIsStopped given s long valid good was_read free stopped =
      let Q = StoreIsStopped global_scope env in
      let first =
        stop env stop_identity (clock 0) global_scope (reason ++ lit " stop drill") store in
      let after =
        stop-StoreIsStopped env global_scope stop_identity (clock 0) (reason ++ lit " stop drill")
          store stopped in
      let blocked = admit env (clock 2) a first.1 in
      let still = admit-StoreIsStopped env global_scope (clock 2) a first.1 after in
      let (f, x) = reenable-refused env reenable_identity (clock 3) reason blocked.1 long in
      continue_after-Fails Q (validate_action env a) store _ a valid (
        continue_after-Fails Q (text env given (lit "Game-day reason") 200) store _ reason good (
          continue_after-Fails Q (read env store) store _ s was_read (
            continue_after-Fails Q
              (require (not (is_globally_stopped s))
                (lit "Game-day test requires an inactive global kill switch."))
              store _ tt (rw free refl)
              (continue_after-Fails Q first.0 first.1 _ tt stopped (
                continue-Fails Q (clock_reading env (clock 1)) first.1 _ after λ stopped_at _.
                  continue-Fails Q (expect_blocked blocked.0) blocked.1 _ still
                    λ _ _. ((f, ground (arith, x)), rw x still))))))
