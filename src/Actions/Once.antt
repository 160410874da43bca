-- ===== src/Actions/Once.antt =====
-- The effect of an action is reached at most once.
use ghostapi.Common.{
  ◌≡◌, refl, sym, ap, ◌∙◌, subst, ℕ, Text, Bool, true, Option, none, some, List, [], ◌∷◌, ◌++◌, any,
  ◌⊎◌, inl, inr, text_eq_refl, Result, ok, err, Option-cases, require, ltb, not,
}
use ghostapi.Common.Action.{Op, ◌>>=◌, continue, attempt}
use ghostapi.Safety.Store.{Store}
use ghostapi.Safety.Lease.{Lease, admit}
use ghostapi.Safety.Validate.Laws.{Gives-eq}
use ghostapi.Actions.Types.{
  Env, ActionEnvelope, StoredAction, Receipt, ReceiptStatus, attempted, committed, verified,
  PolicyCheck, ExecutionIdentity, Execution,
}
use ghostapi.Actions.Gives.{validate_envelope-Gives}
use ghostapi.Actions.Validate.{validate_envelope, verify_approval}
use ghostapi.Actions.Checks.{check_record}
use ghostapi.Actions.Records.{find_latest_receipt, status_eq, require_stored_action}
use ghostapi.Actions.Adapters.{Stores, put_file, on_world, on_safety, on_both, safety_action}
use ghostapi.Actions.Gateway.{
  add_receipt, verify_committed, reconcile_attempt, settle, first_attempt, execute_record, execute,
  commit_effect,
}
use ghostapi.Actions.Calls.{Gateway, Call, step, run}
use ghostapi.Actions.Lifecycle.{
  Stage, absent, submitted, started, failing, done, disputed, proven, settled, reconciled, here,
  Reach-IsAttempted, IsAttempted, Stands, Stands-none, Stands-statuses, statuses, statuses_of,
}
use ghostapi.Actions.Lifecycle.Finds.{unattempted-submitted}
use ghostapi.Actions.Lifecycle.Records.{require_stored_action-file, add_receipt-Ends}
use ghostapi.Actions.Lifecycle.Writes.{Puts, settle-Holds}
use ghostapi.Actions.Lifecycle.Refines.{Evolved, run-Evolved, run-Stands}

-- What an adapter does to the world as `execute`, with the commit of its lease.
abbrev pub Effects : Type 0 → Type 0 → Type 0
Effects W Effect =
    ActionEnvelope → (Op (Store × W) Effect → Op (Store × W) Effect) → Op (Store × W) Execution

-- A gateway whose adapter does this in place of its own effect.
unfoldable pub instead :
    {W Effect : Type 0} → Gateway W Effect → Effects W Effect → Gateway W Effect
instead g e = record g { adapter = record g.adapter { execute = e } }

unfoldable pub execute_by :
    {W Effect : Type 0}
    → Env
    → Gateway W Effect
    → ActionEnvelope
    → ExecutionIdentity
    → PolicyCheck
    → Op (Stores W) Receipt
execute_by env g = execute env g.adapter g.verify g.clock g.fresh

continue-cong :
    {S A B : Type 0} (r : Result A) (s : S) (f g : A → Op S B)
    → ((a : A) → r ≡ ok a → f a s ≡ g a s)
    → continue r s f ≡ continue r s g
continue-cong (ok a) s f g h = h a refl
continue-cong (err e) s f g h = refl

-- Either an end does not depend on a value, or it has a property.
abbrev Either : {E S B : Type 0} → (S → Type 0) → E → (E → Result B × S) → Type 0
Either {E} Post own f = ((e : E) → f e ≡ f own) ⊎ Post (f own).1

continue-Either :
    {E S A B : Type 0} (Post : S → Type 0) (own : E) (r : Result A) (s : S) (f : E → A → Op S B)
    → ((a : A) → r ≡ ok a → Either Post own (λ e. f e a s))
    → Either Post own (λ e. continue r s (f e))
continue-Either Post own (ok a) s f h = h a refl
continue-Either Post own (err e) s f h = inl (λ _. refl)

-- A file whose record has an attempt.
abbrev pub HasAttempt : Option StoredAction → Type 0
HasAttempt file = (h : Stage) × IsAttempted h × Stands file h

-- The same of the statuses themselves.
abbrev lists_attempt : List ReceiptStatus → Bool
lists_attempt ss = any ss (λ s. status_eq s attempted)

IsAttempted-lists : (h : Stage) → IsAttempted h → lists_attempt (statuses h) ≡ true
unfolding status_eq
IsAttempted-lists absent t = absurd t
IsAttempted-lists submitted t = absurd t
IsAttempted-lists started t = refl
IsAttempted-lists failing t = refl
IsAttempted-lists done t = refl
IsAttempted-lists disputed t = refl
IsAttempted-lists proven t = refl
IsAttempted-lists settled t = refl
IsAttempted-lists reconciled t = refl

lists-IsAttempted : (h : Stage) → lists_attempt (statuses h) ≡ true → IsAttempted h
unfolding status_eq
lists-IsAttempted absent t = cc
lists-IsAttempted submitted t = cc
lists-IsAttempted started t = tt
lists-IsAttempted failing t = tt
lists-IsAttempted done t = tt
lists-IsAttempted disputed t = tt
lists-IsAttempted proven t = tt
lists-IsAttempted settled t = tt
lists-IsAttempted reconciled t = tt

-- The stage of a file tells whether it has an attempt.
HasAttempt-IsAttempted :
    (file : Option StoredAction) (k : Stage) → HasAttempt file → Stands file k → IsAttempted k
HasAttempt-IsAttempted none k (h, tried, at) at' =
    absurd (subst IsAttempted (Stands-none h at) tried)
HasAttempt-IsAttempted (some r) k (h, tried, at) at' = lists-IsAttempted k (
    ap lists_attempt (sym (Stands-statuses r k at') ∙ Stands-statuses r h at)
    ∙ IsAttempted-lists h tried)

module _ {W Effect : Type 0} (env : Env) (g : Gateway W Effect) (id : Text) where
  record_by : Effects W Effect → StoredAction → ℕ → Op (Stores W) Receipt
  record_by e = execute_record env (instead g e).adapter g.verify g.clock g.fresh id

  -- Where an attempt is on record, the effect is not reached.
  record-attempted :
      (r : StoredAction) (now : ℕ) (s : Stores W) (e e' : Effects W Effect)
      → HasAttempt (some r)
      → record_by e r now s ≡ record_by e' r now s
  unfolding record_by instead execute_record verify_committed reconcile_attempt
  record-attempted r now s e e' (h, tried, at) =
      elim (Option-cases (find_latest_receipt verified r.receipts)) [
        | inr (x, v) ↦ rw (execute_record, v) refl
        | inl v ↦ elim (Option-cases (find_latest_receipt committed r.receipts)) [
          | inr (x, c) ↦ rw (execute_record, v, c) refl
          | inl c ↦ elim (Option-cases (find_latest_receipt attempted r.receipts)) [
            | inr (x, a) ↦ rw (execute_record, v, c, a) refl
            | inl a ↦ absurd (subst IsAttempted (unattempted-submitted r h at a) tried)
          ]
        ]
      ]

  abbrev Tried : (Text → Option StoredAction) → Type 0
  Tried files = HasAttempt (files id)

  started-Puts : Puts started id Tried
  unfolding put_file
  started-Puts h later r at files t =
      (h, Reach-IsAttempted later tt, rw (put_file, text_eq_refl id) at)

  -- The attempt is on file before the effect is reached.
  after-attempt :
      (r : StoredAction) (now : ℕ) (l : Lease) (s : Stores W) (own : Effects W Effect)
      → statuses_of r ≡ statuses submitted
      → Either
          (λ t. Tried t.files)
          own
          (λ e.
            (add_receipt env id r attempted now (g.fresh 0) none none none >>= λ added.
            attempt (on_both (e r.envelope (commit_effect env l (g.clock 2) (g.clock 3))))
            >>= λ answer.
                settle env (instead g e).adapter g.verify g.clock g.fresh id added.0 l answer)
              s)
  unfolding instead on_both put_file
  after-attempt r now l s own at =
      elim (add_receipt-Ends env id r attempted now (g.fresh 0) none none none s) [
        | inr (x, k) ↦ inl (λ e. rw k refl)
        | inl (r', x, same, k) ↦ inr (
            rw k (
              settle-Holds env (instead g own).adapter g.verify g.clock g.fresh id Tried started
                started-Puts r' l _ _ here (same ∙ ap (λ ss. ss ++ attempted ∷ []) at)
                (
                  started,
                  tt,
                  rw (put_file, text_eq_refl id) (same ∙ ap (λ ss. ss ++ attempted ∷ []) at),
                )))
      ]

  first-Either :
      (r : StoredAction) (now : ℕ) (s : Stores W) (own : Effects W Effect)
      → statuses_of r ≡ statuses submitted
      → Either
          (λ t. HasAttempt (t.files id))
          own
          (λ e. first_attempt env (instead g e).adapter g.verify g.clock g.fresh id r now s)
  unfolding first_attempt instead on_world on_safety
  first-Either r now s own at =
      let Post : Stores W → Type 0 = λ t. HasAttempt (t.files id) in
      continue-Either Post own (require (ltb now r.envelope.expires_at) _) _ _ λ _ _.
        continue-Either Post own (verify_approval env.host r.envelope r.approval now) _ _ λ _ _.
          continue-Either Post own (g.adapter.plan r.envelope s.world).0 _ _ λ _ _.
            continue-Either Post own (g.adapter.simulate r.envelope _).0 _ _ λ _ _.
              continue-Either Post own
                (admit env.safety (g.clock 1) (safety_action r.envelope r.action_hash) s.safety).0 _
                _
                λ l _.
                  continue-Either Post own (require (not l.replay) _) _ _
                    λ _ _. after-attempt r now l _ own at

  record-Either :
      (r : StoredAction) (now : ℕ) (s : Stores W) (own : Effects W Effect)
      → (h : Stage) × Stands (some r) h
      → Either (λ t. HasAttempt (t.files id)) own (λ e. record_by e r now s)
  unfolding record_by instead execute_record verify_committed reconcile_attempt
  record-Either r now s own (h, at) =
      elim (Option-cases (find_latest_receipt verified r.receipts)) [
        | inr (x, v) ↦ inl (λ e. rw (execute_record, v) refl)
        | inl v ↦ elim (Option-cases (find_latest_receipt committed r.receipts)) [
          | inr (x, c) ↦ inl (λ e. rw (execute_record, v, c) refl)
          | inl c ↦ elim (Option-cases (find_latest_receipt attempted r.receipts)) [
            | inr (x, a) ↦ inl (λ e. rw (execute_record, v, c, a) refl)
            | inl a ↦
                rw (execute_record, v, c, a)
                  (first-Either r now s own (
                    Stands-statuses r h at ∙ ap (λ k. statuses k) (unattempted-submitted r h at a)))
          ]
        ]
      ]

module _ {W Effect : Type 0} (env : Env) (g : Gateway W Effect) (action : ActionEnvelope)
    (identity : ExecutionIdentity) (policy : PolicyCheck) (s : Stores W) where
  execute-attempted :
      (e e' : Effects W Effect)
      → HasAttempt (s.files action.action_id)
      → execute_by env (instead g e) action identity policy s
        ≡ execute_by env (instead g e') action identity policy s
  unfolding execute_by execute instead record_by
  execute-attempted e e' tried = continue-cong (validate_envelope env.host action) s _ _ λ a valid.
      let same : a ≡ action = Gives-eq (validate_envelope-Gives env.host action) valid in
      continue-cong (require_stored_action env (s.files a.action_id)) s _ _ λ r was_read.
        continue-cong
          (check_record env.host g.verify g.adapter.supports (g.clock 0) a r identity policy) s _ _
          λ now _. record-attempted env g a.action_id r now s e e' (
            subst HasAttempt
              (ap (λ x. s.files x.action_id) (sym same)
                ∙ require_stored_action-file env (s.files a.action_id) was_read)
              tried)

  execute-Either :
      (own : Effects W Effect)
      → (h : Stage) × Stands (s.files action.action_id) h
      → Either
          (λ t. HasAttempt (t.files action.action_id))
          own
          (λ e. execute_by env (instead g e) action identity policy s)
  unfolding execute_by execute instead record_by
  execute-Either own at =
      let Post : Stores W → Type 0 = λ t. HasAttempt (t.files action.action_id) in
      continue-Either Post own (validate_envelope env.host action) s _ λ a valid.
        let same : a ≡ action = Gives-eq (validate_envelope-Gives env.host action) valid in
        continue-Either Post own (require_stored_action env (s.files a.action_id)) s _ λ r was_read.
          continue-Either Post own
            (check_record env.host g.verify g.adapter.supports (g.clock 0) a r identity policy) s _
            λ now _. rw (← same) (
              record-Either env g a.action_id r now s own (
                subst (λ x. (h : Stage) × Stands x h)
                  (ap (λ x. s.files x.action_id) (sym same)
                    ∙ require_stored_action-file env (s.files a.action_id) was_read)
                  at))

-- Of an execution of an action and a later one of the same action, by any gateways and with any
-- history of calls between them, one does not reach the effect of its adapter: whatever another
-- adapter would do there, its result and the stores after it are the same.
pub execute-once :
    {W Effect : Type 0} (env : Env) (g g' : Gateway W Effect) (action action' : ActionEnvelope)
    (identity identity' : ExecutionIdentity) (policy policy' : PolicyCheck) (start : Text → Stage)
    (s : Stores W) (own : Effects W Effect)
    → ((id : Text) → Stands (s.files id) (start id))
    → action'.action_id ≡ action.action_id
    → let done = execute_by env (instead g own) action identity policy s in
      ((e : Effects W Effect) → execute_by env (instead g e) action identity policy s ≡ done)
      ⊎ ((cs : List (Call W Effect)) (e e' : Effects W Effect)
          → execute_by env (instead g' e) action' identity' policy' (run env cs done.1)
            ≡ execute_by env (instead g' e') action' identity' policy' (run env cs done.1))
unfolding run step execute_by
execute-once env g g' action action' identity identity' policy policy' start s own at same =
    elim (execute-Either env g action identity policy s own
      (start action.action_id, at action.action_id)) [
        | inl free ↦ inl free
        | inr tried ↦ inr λ cs e e'.
            let c = Call.executes (instead g own) action identity policy in
            let once : Evolved start (step env c s).files =
              run-Evolved env start (c ∷ []) s λ id. (start id, here, at id) in
            let now : Text → Stage = λ id. (once id).0 in
            let at' : (id : Text) → Stands ((step env c s).files id) (now id) = λ id. (once id).2 in
            let (h, later, there) = run-Stands env now cs (step env c s) at' action.action_id in
            let tried' =
              Reach-IsAttempted later (HasAttempt-IsAttempted _ _ tried (at' action.action_id)) in
            execute-attempted env g' action' identity' policy' _ e e' (rw same (h, tried', there))
      ]
