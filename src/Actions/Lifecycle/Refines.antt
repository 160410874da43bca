-- ===== src/Actions/Lifecycle/Refines.antt =====
-- The gateway refines the machine of the stages.
use ghostapi.Common.{
  ◌≡◌, refl, sym, ap, ◌∙◌, subst, ℕ, Text, text_eq, text_eq_sound, Option, none, some, List, [],
  ◌∷◌, Result, Option-cases, Bool-cases, length, length-map, ◌≤◌, ◌<◌, arith, inl, inr, ◌⊎◌,
  require, ltb, ◌&&◌,
}
use ghostapi.Common.Action.{pure, continue-keeps, ◌>>◌}
use ghostapi.Safety.Validate.Laws.{Gives-eq}
use ghostapi.Actions.Types.{
  Env, ActionEnvelope, ActionApproval, StoredAction, requested, PolicyCheck, Phase, Verification,
  ExecutionIdentity, Reversibility, irreversible, compensatable,
}
use ghostapi.Actions.Fields.{identifier}
use ghostapi.Actions.Gives.{validate_envelope-Gives}
use ghostapi.Actions.Validate.{
  validate_envelope, validate_approval, verify_approval, action_hash, verify_policy,
  action_approval_hash,
}
use ghostapi.Actions.Checks.{moment, check_record, require_inbox}
use ghostapi.Actions.Records.{
  max_receipts, create_receipt, require_stored_action, read_stored_action,
}
use ghostapi.Actions.Adapters.{Stores, Adapter, put_file, on_world}
use ghostapi.Actions.Gateway.{write_stored_action, submit, inspect, execute, compensate}
use ghostapi.Actions.Calls.{Call, step, run}
use ghostapi.Actions.Lifecycle.{
  Stage, absent, submitted, started, failing, done, disputed, proven, settled, reconciled, submits,
  Reach, here, once, Reach-trans, Stands, Stands-none, Stands-statuses, statuses, statuses_of,
}
use ghostapi.Actions.Lifecycle.Records.{
  require_stored_action-file, read_stored_action-file, write_stored_action-Ends,
  create_receipt-status,
}
use ghostapi.Actions.Lifecycle.Writes.{Puts, execute_record-Holds}

abbrev pub Files : Type 0
Files = Text → Option StoredAction

-- Every file is at a stage that the machine reaches from its first.
abbrev pub Evolved : (Text → Stage) → Files → Type 0
Evolved start files = (id : Text) → (h : Stage) × Reach (start id) h × Stands (files id) h

-- A record that is put on file later.
Evolved-Puts :
    (start : Text → Stage) (g : Stage) (id : Text) → Reach (start id) g → Puts g id (Evolved start)
unfolding put_file
Evolved-Puts start g id reach h later r at files e o = elim (Bool-cases (text_eq o id)) [
  | inl same ↦
      let there = text_eq_sound o id same in
      (
        h,
        subst (λ x. Reach (start x) h) (sym there) (Reach-trans reach later),
        rw (put_file, same) at,
      )
  | inr other ↦ let (k, there, at') = e o in (k, there, rw (put_file, other) at')
]

-- The record that `submit` makes first.
abbrev unwritten : ActionEnvelope → Text → ActionApproval → StoredAction
unwritten a digest approval = record {
  envelope = a;
  action_hash = digest;
  approval = approval;
  receipts = [];
}

module _ {W Effect : Type 0} (env : Env) (adapter : Adapter W Effect)
    (verify : Phase → ActionEnvelope → ActionApproval → Result Verification) (clock : ℕ → Option ℕ)
    (fresh : ℕ → Text) (Q : Files → Type 0) (g : Stage) where
  abbrev Holds : Stores W → Type 0
  Holds s = Q s.files

  pub execute-Holds :
      (action : ActionEnvelope) (identity : ExecutionIdentity) (policy : PolicyCheck) (s : Stores W)
      → Stands (s.files action.action_id) g
      → Puts g action.action_id Q
      → Q s.files
      → Q (execute env adapter verify clock fresh action identity policy s).1.files
  unfolding execute
  execute-Holds action identity policy s at puts q =
      continue-keeps Holds (validate_envelope env.host action) s _ q λ a valid.
        let same : a ≡ action = Gives-eq (validate_envelope-Gives env.host action) valid in
        continue-keeps Holds (require_stored_action env (s.files a.action_id)) s _ q λ r was_read.
          continue-keeps Holds
            (check_record env.host verify adapter.supports (clock 0) a r identity policy) s _ q
            λ now _.
              let file = require_stored_action-file env (s.files a.action_id) was_read in
              execute_record-Holds env adapter verify clock fresh a.action_id Q g (rw same puts) r
                now s (subst (λ x. Stands x g) (ap (λ x. s.files x.action_id) (sym same) ∙ file) at)
                q

  new_file :
      (id : Text) (r : StoredAction) (s : Stores W)
      → Stands none g
      → statuses_of r ≡ statuses submitted
      → Puts g id Q
      → Q s.files
      → Q ((write_stored_action env id r >> pure r) s).1.files
  new_file id r s at made puts q = elim (write_stored_action-Ends env id r s) [
    | inl e ↦ rw e (
        puts submitted (subst (λ k. Reach k submitted) (sym (Stands-none g at)) (once submits)) r
          made s.files q)
    | inr (x, e) ↦ rw e q
  ]

  pub submit-Holds :
      (action : ActionEnvelope) (approval : ActionApproval) (policy : PolicyCheck) (s : Stores W)
      → Stands (s.files action.action_id) g
      → Puts g action.action_id Q
      → Q s.files
      → Q (submit env adapter verify clock fresh action approval policy s).1.files
  unfolding submit
  submit-Holds action approval policy s at puts q =
      continue-keeps Holds (validate_envelope env.host action) s _ q λ a valid.
        let same : a ≡ action = Gives-eq (validate_envelope-Gives env.host action) valid in
        continue-keeps Holds (validate_approval env.host approval) s _ q λ b _.
          continue-keeps Holds (verify Phase.submit a b) s _ q λ verification _.
            continue-keeps Holds (require_inbox b verification) s _ q λ _ _.
              continue-keeps Holds (moment (clock 0)) s _ q λ now _.
                continue-keeps Holds (verify_policy a policy) s _ q λ _ _.
                  continue-keeps Holds (action_hash env.host a) s _ q λ digest _.
                    continue-keeps Holds (read_stored_action env (s.files a.action_id)) s _ q
                      λ existing was_read. elim (Option-cases existing) [
                        | inr (r, k) ↦ rw k (
                            continue-keeps Holds (action_approval_hash env.host r.approval) s _ q
                              λ old _.
                                continue-keeps Holds (action_approval_hash env.host b) s _ q
                                  λ new _.
                                    continue-keeps Holds
                                      (require (text_eq r.action_hash digest && text_eq old new) _)
                                      s _ q λ _ _. q)
                        | inl k ↦ rw k (
                            continue-keeps Holds (require (ltb now a.expires_at) _) s _ q λ _ _.
                              continue-keeps Holds (verify_approval env.host a b now) s _ q λ _ _.
                                continue-keeps Holds
                                  (create_receipt env.host (unwritten a digest b) requested now
                                    (fresh 0) none none none)
                                  s _ q
                                  λ receipt made.
                                    new_file a.action_id
                                      (record (unwritten a digest b) { receipts = receipt ∷ [] }) s
                                      (subst (λ x. Stands x g)
                                        (ap (λ x. s.files x.action_id) (sym same)
                                          ∙ sym (
                                              read_stored_action-file env (s.files a.action_id)
                                                was_read)
                                          ∙ k)
                                        at)
                                      (ap (λ y. y ∷ [])
                                        (create_receipt-status env.host (unwritten a digest b)
                                          requested now (fresh 0) none none none made))
                                      (rw same puts) q)
                      ]

Reversibility-cases : (v : Reversibility) → (v ≡ irreversible) ⊎ (v ≡ compensatable)
Reversibility-cases irreversible = inl refl
Reversibility-cases compensatable = inr refl

module _ {W Effect : Type 0} (env : Env) (adapter : Adapter W Effect)
    (verify : Phase → ActionEnvelope → ActionApproval → Result Verification) (clock : ℕ → Option ℕ)
    (fresh : ℕ → Text) (action_id : Text) (s : Stores W) where
  abbrev Same : Stores W → Type 0
  Same t = t.files ≡ s.files

  inspect-Same : Same (inspect env adapter verify clock fresh action_id s).1
  unfolding inspect
  inspect-Same = continue-keeps Same (identifier env.host action_id _) s _ refl λ id _. refl

  compensate-Same : Same (compensate env adapter verify clock fresh action_id s).1
  unfolding compensate on_world
  compensate-Same =
      let (found, after) = inspect env adapter verify clock fresh action_id s in
      continue-keeps Same found after _ inspect-Same λ r _. elim (Option-cases adapter.compensate) [
        | inl e ↦ rw e inspect-Same
        | inr (undo, e) ↦ elim (Reversibility-cases r.envelope.reversibility) [
          | inl k ↦ rw (e, k) inspect-Same
          | inr k ↦
              rw (e, k)
                (continue-keeps Same (undo r.envelope after.world).0 _ _ inspect-Same
                  λ _ _. inspect-Same)
        ]
      ]

module _ {W Effect : Type 0} (env : Env) (start : Text → Stage) where
  step-Evolved :
      (c : Call W Effect) (s : Stores W)
      → Evolved start s.files
      → Evolved start (step env c s).files
  unfolding step
  step-Evolved (Call.submits g action approval policy) s e =
      let (now, reach, at) = e action.action_id in
      submit-Holds env g.adapter g.verify g.clock g.fresh (Evolved start) now action approval policy
        s at (Evolved-Puts start now action.action_id reach) e
  step-Evolved (Call.executes g action identity policy) s e =
      let (now, reach, at) = e action.action_id in
      execute-Holds env g.adapter g.verify g.clock g.fresh (Evolved start) now action identity
        policy s at (Evolved-Puts start now action.action_id reach) e
  step-Evolved (Call.compensates g action_id) s e =
      rw (compensate-Same env g.adapter g.verify g.clock g.fresh action_id s) e
  step-Evolved (Call.others change) s e = e

  pub run-Evolved :
      (cs : List (Call W Effect)) (s : Stores W)
      → Evolved start s.files
      → Evolved start (run env cs s).files
  unfolding run
  run-Evolved [] s e = e
  run-Evolved (c ∷ cs) s e = run-Evolved cs (step env c s) (step-Evolved c s e)

  -- In every history of the gateway's calls, by gateways with any adapters, verifiers and clocks,
  -- the record of each action goes only along the transitions of the machine from the stage where
  -- it stood.
  pub run-Stands :
      (cs : List (Call W Effect)) (s : Stores W)
      → ((id : Text) → Stands (s.files id) (start id))
      → (id : Text) → (h : Stage) × Reach (start id) h × Stands ((run env cs s).files id) h
  run-Stands cs s at = run-Evolved cs s (λ id. (start id, here, at id))

statuses-length : (g : Stage) → length (statuses g) ≤ 5
statuses-length absent = omega arith
statuses-length submitted = omega arith
statuses-length started = omega arith
statuses-length failing = omega arith
statuses-length done = omega arith
statuses-length disputed = omega arith
statuses-length proven = omega arith
statuses-length settled = omega arith
statuses-length reconciled = omega arith

-- In every history that starts without files, a record has at most five receipts, so that no call
-- reaches the limit of twenty.
pub run-receipts :
    {W Effect : Type 0} (env : Env) (cs : List (Call W Effect)) (s : Stores W)
    → ((id : Text) → s.files id ≡ none)
    → (id : Text) (r : StoredAction) → (run env cs s).files id ≡ some r
    → (length r.receipts ≤ 5) × (5 < max_receipts)
run-receipts env cs s no_files id r e =
    let (h, _, at) =
      run-Stands env (λ _. absent) cs s (λ o. subst (λ x. Stands x absent) (sym (no_files o)) tt)
        id in
    (
      subst (λ n. n ≤ 5)
          (ap length (sym (Stands-statuses r h (subst (λ x. Stands x h) e at)))
            ∙ length-map (λ x. x.status) r.receipts)
          (statuses-length h),
      omega arith,
    )
