-- ===== src/Trust/History.antt =====
-- The ladder over histories: what its mutations keep of the targets, the file keeps.
use ghostapi.Common.{
  ℕ, lit, ◌≡◌, refl, sym, ap, ◌∙◌, subst, Bool, Option, some, List, [], ◌∷◌, map, leb, text_eq,
  Result, ok, err, ok_inj, require, Result-cases, inl, inr, Bool-cases, Yields, bind-Yields, map_ok,
}
use ghostapi.Common.Action.{Op, Keeps, continue-keeps}
use ghostapi.Safety.Validate.{array, hash, unique, text}
use ghostapi.Safety.Validate.Laws.{
  Gives, Gives-bind, non_negative-Gives, timestamp-Gives, identifier-Gives, array-ok, map_ok-Gives,
}
use ghostapi.Trust.Types.{Env, Level, Target, TargetState, State, shadow, bounded_auto}
use ghostapi.Trust.Validate.{
  max_targets, validate_policy, validate_evidence, validate_target, validate_observation,
  validate_outcome_observation, validate_owner,
}
use ghostapi.Trust.Canary.{same_target, target_key, observation_hash, outcome_hash}
use ghostapi.Trust.Audit.{max_audit, validate_audit, chain_from}
use ghostapi.Trust.Store.{
  Store, max_store_bytes, timestamp, validate_target_state, validate_state, read, persist, mutate,
}
use ghostapi.Trust.Targets.{find_or_create_target}
use ghostapi.Trust.Ladder.{
  assign_state, promote_state, record_state, rollback_state, inspect, assign_canary, promote,
  compare_shadow, compare_bounded_outcome, record_canary_outcome, rollback_to_approval,
}
use ghostapi.Trust.Calls.{
  Timed, inspects, assigns, promotes, compares, compares_outcomes, records, rolls_back, step, run,
}
use ghostapi.Trust.Moves.{Reach, here, level_at, open_at, Follows}
use ghostapi.Trust.Steps.{
  find_or_create-Stands, assign_state-Stands, compare_state-Stands, promote_state-Stands,
  rollback_state-Stands,
}
use ghostapi.Trust.Steps.Outcome.{record_state-Stands}

module _ (env : Env) where
  pub validate_target-Gives : (t : Target) → Gives t (validate_target env t)
  unfolding validate_target
  validate_target-Gives t =
      Gives-bind _ (identifier-Gives env.safety _ _)
        (Gives-bind _ (identifier-Gives env.safety _ _) (inl refl))

  validate_target_state-Gives : (t : TargetState) → Gives t (validate_target_state env t)
  unfolding validate_target_state
  validate_target_state-Gives t = Gives-bind _ (non_negative-Gives _ _ _) (
      Gives-bind _ (non_negative-Gives _ _ _) (
        Gives-bind _ (non_negative-Gives _ _ _) (
          Gives-bind _ (validate_target-Gives t.target)
            (Gives-bind _ (timestamp-Gives _ _) (inl refl)))))

  pub validate_state-targets :
      (s : State) → Yields (λ v. v.targets ≡ s.targets) (validate_state env s)
  unfolding validate_state
  validate_state-targets s =
      let P : State → Type 0 = λ v. v.targets ≡ s.targets in
      bind-Yields P (array s.targets _ max_targets) _ λ given read_given.
        bind-Yields P (map_ok (validate_target_state env) given) _ λ targets read_targets.
          bind-Yields P (unique (map (λ t. target_key env t.target) targets) _) _ λ _ _.
            bind-Yields P (hash s.audit_anchor _) _ λ anchor _.
              bind-Yields P (array s.audit _ max_audit) _ λ records _.
                bind-Yields P (map_ok (validate_audit env) records) _ λ audit _.
                  bind-Yields P (chain_from anchor 1 audit) _ λ _ _ v e.
                    ap (λ x. x.targets) (sym (ok_inj e))
                    ∙ map_ok-Gives (validate_target_state env) given validate_target_state-Gives
                        read_targets
                    ∙ array-ok s.targets _ _ read_given

  -- What is read from a file has the targets that were written.
  pub read-targets : (u : State) → Yields (λ v. v.targets ≡ u.targets) (read env (some u))
  unfolding read
  read-targets u v e = elim (Bool-cases (leb (env.trust_bytes u) max_store_bytes)) [
    | inl k ↦ validate_state-targets u v (rw (read, k) at e)
    | inr k ↦ (let x = rw (read, k) at e in cc)
  ]

  module _ (l : Level) (b : Bool) (y : Target) where
    -- Whatever is read from the file, the target stands where the machine goes from its start.
    abbrev pub Holds : Store → Type 0
    Holds store = (s : State) → read env store ≡ ok s → Follows l b y s.targets

    persist-Holds :
        {A : Type 0} (r : Result A × State) (store : Store)
        → Follows l b y r.1.targets
        → Holds store
        → Holds (persist env r store).1
    unfolding persist
    persist-Holds (err e, t) store q h = h
    persist-Holds (ok a, t) store q h = elim (Result-cases (validate_state env t)) [
      | inr (x, e) ↦ rw (persist, e) h
      | inl (u, e) ↦
          rw (persist, e)
            (λ s was_read.
              subst (Follows l b y) (sym (read-targets u s was_read ∙ validate_state-targets t u e))
                q)
    ]

    mutate-Holds :
        {A : Type 0} (clock : Option ℕ) (operation : ℕ → Op State A) (store : Store)
        → ((now : ℕ) → Keeps (λ s. Follows l b y s.targets) (operation now))
        → Holds store
        → Holds (mutate env clock operation store).1
    unfolding mutate
    mutate-Holds clock operation store keeps h = elim (Result-cases (read env store)) [
      | inr (x, e) ↦ rw (mutate, e) h
      | inl (s, e) ↦ elim (Result-cases (timestamp clock)) [
        | inr (x, k) ↦ rw (mutate, e, k) h
        | inl (now, k) ↦
            rw (mutate, e, k) (persist-Holds (operation now s) store (keeps now s (h s e)) h)
      ]
    ]

    step-Holds : (c : Timed) (store : Store) → Holds store → Holds (step env c store)
    unfolding step inspect assign_canary promote compare_shadow compare_bounded_outcome
        record_canary_outcome rollback_to_approval
    step-Holds (clock, inspects target) store h =
        continue-keeps Holds (validate_target env target) store _ h λ t _.
          mutate-Holds clock (find_or_create_target t) store
            (λ now. find_or_create-Stands env l b y t now) h
    step-Holds (clock, assigns target policy) store h =
        continue-keeps Holds (validate_target env target) store _ h λ t _.
          continue-keeps Holds (validate_policy env policy) store _ h λ p _.
            mutate-Holds clock (assign_state env t p) store (assign_state-Stands env l b y t p) h
    step-Holds (clock, promotes target level policy evidence identity) store h =
        continue-keeps Holds (validate_target env target) store _ h λ t _.
          continue-keeps Holds (validate_policy env policy) store _ h λ p _.
            continue-keeps Holds (validate_evidence env evidence) store _ h λ v _.
              continue-keeps Holds identity store _ h λ given _.
                continue-keeps Holds (validate_owner env given) store _ h λ owner _.
                  continue-keeps Holds (require (text_eq owner.principal_id p.owner_principal_id) _)
                    store _ h
                    λ _ _.
                      mutate-Holds clock (promote_state env t level p v owner) store
                        (promote_state-Stands env l b y t level p v owner) h
    step-Holds (clock, compares prediction actual) store h =
        continue-keeps Holds (validate_observation env prediction) store _ h λ p _.
          continue-keeps Holds (validate_observation env actual) store _ h λ a _.
            continue-keeps Holds (require (same_target p.target a.target) _) store _ h λ _ _.
              mutate-Holds clock _ store
                (compare_state-Stands env l b y p.target shadow (lit "shadow.compared")
                  (observation_hash env p) (observation_hash env a)
                  (lit "predicted action matches actual input context")
                  (lit "predicted action differs from actual input context"))
                h
    step-Holds (clock, compares_outcomes prediction actual) store h =
        continue-keeps Holds (validate_outcome_observation env prediction) store _ h λ p _.
          continue-keeps Holds (validate_outcome_observation env actual) store _ h λ a _.
            continue-keeps Holds (require (same_target p.target a.target) _) store _ h λ _ _.
              mutate-Holds clock _ store
                (compare_state-Stands env l b y p.target bounded_auto
                  (lit "bounded.outcome_compared") (outcome_hash env p) (outcome_hash env a)
                  (lit "predicted and actual bounded outcomes match")
                  (lit "predicted and actual bounded outcomes differ"))
                h
    step-Holds (clock, records target policy outcome reason) store h =
        continue-keeps Holds (validate_target env target) store _ h λ t _.
          continue-keeps Holds (validate_policy env policy) store _ h λ p _.
            continue-keeps Holds (text env.safety reason _ 200) store _ h λ r _.
              mutate-Holds clock (record_state env t p outcome r) store
                (record_state-Stands env l b y t p outcome r) h
    step-Holds (clock, rolls_back target policy identity reason) store h =
        continue-keeps Holds (validate_target env target) store _ h λ t _.
          continue-keeps Holds (validate_policy env policy) store _ h λ p _.
            continue-keeps Holds identity store _ h λ given _.
              continue-keeps Holds (validate_owner env given) store _ h λ owner _.
                continue-keeps Holds (text env.safety reason _ 200) store _ h λ r _.
                  continue-keeps Holds (require (text_eq owner.principal_id p.owner_principal_id) _)
                    store _ h
                    λ _ _.
                      mutate-Holds clock (rollback_state env t r) store
                        (rollback_state-Stands env l b y t r) h

    pub run-Holds : (cs : List Timed) (store : Store) → Holds store → Holds (run env cs store)
    unfolding run
    run-Holds [] store h = h
    run-Holds (c ∷ cs) store h = run-Holds cs (step env c store) (step-Holds c store h)

-- In every history of calls each target goes only along the moves of the machine, from where it stood
-- in the file before the history to where it stands after it.
pub run-Reach :
    (env : Env) (history : List Timed) (store : Store) (s s' : State) (y : Target)
    → read env store ≡ ok s
    → read env (run env history store) ≡ ok s'
    → Reach
        (level_at y s.targets)
        (open_at y s.targets)
        (level_at y s'.targets)
        (open_at y s'.targets)
run-Reach env history store s s' y before after =
    let l = level_at y s.targets in
    let b = open_at y s.targets in
    run-Holds env l b y history store
      (λ x e. subst (λ z. Follows l b y z.targets) (ok_inj (sym before ∙ e)) here) s' after
