-- ===== src/Actions/Lifecycle/Writes.antt =====
-- What `execute` writes: a property of the files that every write along the stages keeps.
use ghostapi.Common.{
  ◌≡◌, ap, ◌∙◌, ℕ, Text, Option, none, some, [], ◌∷◌, ◌++◌, Option-cases, subst, Result, ok, err,
  inl, inr, require, ltb, not,
}
use ghostapi.Common.Action.{Op, ◌>>=◌, continue-keeps}
use ghostapi.Safety.Types.{Outcome}
use ghostapi.Safety.Lease.{Lease, admit, complete}
use ghostapi.Actions.Types.{
  Env, ActionEnvelope, ActionApproval, StoredAction, Receipt, ReceiptStatus, attempted, committed,
  verified, failed, ReceiptResult, FailureCode, Phase, Verification, Execution, committed_as,
  unknown,
}
use ghostapi.Actions.Validate.{verify_approval}
use ghostapi.Actions.Checks.{moment}
use ghostapi.Actions.Records.{find_latest_receipt, create_receipt, append_receipt}
use ghostapi.Actions.Adapters.{
  Stores, Adapter, put_file, on_safety, on_world, on_both, proof_of, safety_action, success_outcome,
}
use ghostapi.Actions.Gateway.{
  add_receipt, verify_committed, reconcile_attempt, fail_action, verify_execution, settle,
  first_attempt, execute_record,
}
use ghostapi.Actions.Lifecycle.{
  Stage, submitted, started, Next, attempts, fails, commits, disputes, proves, Reach, here, next,
  statuses, statuses_of, Stands, Next-Stands, Stands-statuses,
}
use ghostapi.Actions.Lifecycle.Records.{
  add_receipt-then, create_receipt-status, append_receipt-statuses,
}
use ghostapi.Actions.Lifecycle.Finds.{committed-Next, attempted-Next, unattempted-submitted}

-- A property of the files, that a record of an action at a later stage than this keeps when it is
-- put on file.
abbrev pub Puts : Stage → Text → ((Text → Option StoredAction) → Type 0) → Type 0
Puts g id Q =
    (h : Stage)
    → Reach g h
    → (r : StoredAction) → Stands (some r) h
    → (files : Text → Option StoredAction) → Q files
    → Q (put_file id r files)

module _ {W Effect : Type 0} (env : Env) (adapter : Adapter W Effect)
    (verify : Phase → ActionEnvelope → ActionApproval → Result Verification) (clock : ℕ → Option ℕ)
    (fresh : ℕ → Text) (id : Text) (Q : (Text → Option StoredAction) → Type 0) (first : Stage)
    (puts : Puts first id Q) where
  abbrev Holds : Stores W → Type 0
  Holds s = Q s.files

  -- One write, after which the record is at the next stage.
  add-Next :
      {B : Type 0} {g h : Stage} (r : StoredAction) (status : ReceiptStatus) (now : ℕ)
      (fresh' : Text) (p : Option Text) (result : Option ReceiptResult)
      (failure : Option FailureCode) (s : Stores W) (f : StoredAction × Receipt → Op (Stores W) B)
      → Reach first g
      → Next g h
      → statuses_of r ++ status ∷ [] ≡ statuses h
      → Q s.files
      → ((r' : StoredAction) (x : Receipt) (t : Stores W)
          → statuses_of r' ≡ statuses h
          → Q t.files
          → Q (f (r', x) t).1.files)
      → Q ((add_receipt env id r status now fresh' p result failure >>= f) s).1.files
  add-Next {h = h} r status now fresh' p result failure s f reach n e q after =
      add_receipt-then env id Holds r status now fresh' p result failure s f q λ r' x same.
        after r' x _ (same ∙ e) (puts h (next reach n) r' (Next-Stands r' n (same ∙ e)) s.files q)

  fail_action-Holds :
      {g h : Stage} (r : StoredAction) (l : Lease) (outcome : Outcome) (code : FailureCode)
      (p : Option Text) (result : Option ReceiptResult) (message : Text) (s : Stores W)
      → Reach first g
      → Next g h
      → statuses_of r ++ failed ∷ [] ≡ statuses h
      → Q s.files
      → Q
          (fail_action env adapter verify clock fresh id r l outcome code p result message
            s).1.files
  unfolding fail_action on_safety
  fail_action-Holds r l outcome code p result message s reach n e q =
      continue-keeps Holds (complete env.safety l (clock 4) outcome s.safety).0 _ _ q λ _ _.
        continue-keeps Holds (moment (clock 5)) _ _ q λ now _.
          add-Next r failed now (fresh 1) p result (some code) _ _ reach n e q λ _ _ _ _ q'. q'

  verify_committed-Holds :
      (g : Stage) (r : StoredAction) (now : ℕ) (s : Stores W)
      → Reach first g
      → (h : Stage) × Next g h × (statuses_of r ++ verified ∷ [] ≡ statuses h)
      → Q s.files
      → Q (verify_committed env adapter verify clock fresh id r now s).1.files
  unfolding verify_committed on_world
  verify_committed-Holds g r now s reach (h, n, e) q =
      continue-keeps Holds (adapter.verify r.envelope s.world).0 _ _ q λ answer _.
        elim (Option-cases (proof_of answer)) [
          | inl k ↦ rw k q
          | inr ((p, result), k) ↦ rw k (
              add-Next r verified now (fresh 0) (some p) (some result) none _ _ reach n e q
                λ _ _ _ _ q'. q')
        ]

  reconcile_attempt-Holds :
      (g : Stage) (r : StoredAction) (now : ℕ) (s : Stores W)
      → Reach first g
      → (h : Stage) × Next g h × ((statuses_of r ++ committed ∷ []) ++ verified ∷ [] ≡ statuses h)
      → Q s.files
      → Q (reconcile_attempt env adapter verify clock fresh id r now s).1.files
  unfolding reconcile_attempt on_world
  reconcile_attempt-Holds g r now s reach (h, n, e) q =
      continue-keeps Holds (adapter.verify r.envelope s.world).0 _ _ q λ answer _.
        elim (Option-cases (proof_of answer)) [
          | inl k ↦ rw k q
          | inr ((p, result), k) ↦ rw k (
              continue-keeps Holds
                (create_receipt env.host r committed now (fresh 0) (some p) (some result) none) _ _
                q
                λ x made. continue-keeps Holds (append_receipt r x) _ _ q λ r' added.
                  add-Next r' verified now (fresh 1) (some p) (some result) none _ _ reach n
                    (ap (λ ss. ss ++ verified ∷ [])
                        (append_receipt-statuses r x added
                          ∙ ap (λ y. statuses_of r ++ y ∷ [])
                              (create_receipt-status env.host r committed now (fresh 0) (some p)
                                (some result) none made))
                      ∙ e)
                    q λ _ _ _ _ q'. q')
        ]

  verify_execution-Holds :
      (r : StoredAction) (l : Lease) (p : Text) (result : ReceiptResult) (s : Stores W)
      → Reach first started
      → statuses_of r ≡ statuses started
      → Q s.files
      → Q (verify_execution env adapter verify clock fresh id r l p result s).1.files
  unfolding verify_execution on_world on_safety
  verify_execution-Holds r l p result s reach at q =
      continue-keeps Holds (moment (clock 6)) _ _ q λ now _.
        add-Next r committed now (fresh 2) (some p) (some result) none _ _ reach commits
          (ap (λ ss. ss ++ committed ∷ []) at) q
          λ r' x t at' q'.
            continue-keeps Holds (adapter.verify r.envelope t.world).0 _ _ q' λ answer _.
              elim (Option-cases (proof_of answer)) [
                | inl k ↦ rw k (
                    fail_action-Holds r' l _ _ _ _ _ _ (next reach commits) disputes
                      (ap (λ ss. ss ++ failed ∷ []) at') q')
                | inr ((p', result'), k) ↦ rw k (
                    continue-keeps Holds (moment (clock 7)) _ _ q' λ later _.
                      add-Next r' verified later (fresh 3) (some p') (some result') none _ _
                        (next reach commits) proves (ap (λ ss. ss ++ verified ∷ []) at') q'
                        λ r'' y u _ q''.
                          continue-keeps Holds
                            (complete env.safety l (clock 8) success_outcome u.safety).0 _ _ q''
                            λ _ _. q'')
              ]

  -- Whatever the adapter answered.
  pub settle-Holds :
      (r : StoredAction) (l : Lease) (answer : Result Execution) (s : Stores W)
      → Reach first started
      → statuses_of r ≡ statuses started
      → Q s.files
      → Q (settle env adapter verify clock fresh id r l answer s).1.files
  unfolding settle
  settle-Holds r l (err _) s reach at q =
      fail_action-Holds r l _ _ _ _ _ s reach fails (ap (λ ss. ss ++ failed ∷ []) at) q
  settle-Holds r l (ok unknown) s reach at q =
      fail_action-Holds r l _ _ _ _ _ s reach fails (ap (λ ss. ss ++ failed ∷ []) at) q
  settle-Holds r l (ok (committed_as p result)) s reach at q =
      verify_execution-Holds r l p result s reach at q

  first_attempt-Holds :
      (r : StoredAction) (now : ℕ) (s : Stores W)
      → Reach first submitted
      → statuses_of r ≡ statuses submitted
      → Q s.files
      → Q (first_attempt env adapter verify clock fresh id r now s).1.files
  unfolding first_attempt on_world on_safety on_both
  first_attempt-Holds r now s reach at q =
      continue-keeps Holds (require (ltb now r.envelope.expires_at) _) _ _ q λ _ _.
        continue-keeps Holds (verify_approval env.host r.envelope r.approval now) _ _ q λ _ _.
          continue-keeps Holds (adapter.plan r.envelope s.world).0 _ _ q λ _ _.
            continue-keeps Holds (adapter.simulate r.envelope _).0 _ _ q λ _ _.
              continue-keeps Holds
                (admit env.safety (clock 1) (safety_action r.envelope r.action_hash) s.safety).0 _ _
                q
                λ l _. continue-keeps Holds (require (not l.replay) _) _ _ q λ _ _.
                  add-Next r attempted now (fresh 0) none none none _ _ reach attempts
                    (ap (λ ss. ss ++ attempted ∷ []) at) q
                    λ r' x t at' q'. settle-Holds r' l _ _ (next reach attempts) at' q'

  pub execute_record-Holds :
      (r : StoredAction) (now : ℕ) (s : Stores W)
      → Stands (some r) first
      → Q s.files
      → Q (execute_record env adapter verify clock fresh id r now s).1.files
  unfolding execute_record
  execute_record-Holds r now s at q =
      elim (Option-cases (find_latest_receipt verified r.receipts)) [
        | inr (x, v) ↦ rw (execute_record, v) q
        | inl v ↦ elim (Option-cases (find_latest_receipt committed r.receipts)) [
          | inr (x, c) ↦
              let (h, n, e) = committed-Next r first at v c in
              rw (execute_record, v, c)
                (verify_committed-Holds first r now s here (h, n, rw (Stands-statuses r first at) e)
                  q)
          | inl c ↦ elim (Option-cases (find_latest_receipt attempted r.receipts)) [
            | inr (x, a) ↦
                let (h, n, e) = attempted-Next r first at c a in
                rw (execute_record, v, c, a)
                  (reconcile_attempt-Holds first r now s here
                    (h, n, rw (Stands-statuses r first at) e) q)
            | inl a ↦
                let same = unattempted-submitted r first at a in
                rw (execute_record, v, c, a)
                  (first_attempt-Holds r now s (subst (Reach first) same here)
                    (Stands-statuses r first at ∙ ap (λ g. statuses g) same) q)
          ]
        ]
      ]
