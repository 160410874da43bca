-- ===== src/Approval/Quorum/Files.antt =====
-- The quorum of the requests in the inbox's file, under every call but `execute`.
use ghostapi.Common.{
  ℕ, ◌+◌, Text, lit, ◌≡◌, refl, subst, false, not, leb, text_eq, ltb, Option, none, some,
  Result-cases, inl, inr, Failure, Bool-cases, Result, ok, err, ok_inj, require,
}
use ghostapi.Common.Action.{Op, Keeps, continue-keeps}
use ghostapi.Safety.Validate.{identifier, text}
use ghostapi.Actions.Types.{ActionEnvelope}
use ghostapi.Actions.Validate.{validate_envelope}
use ghostapi.Approval.Types.{
  Env, Policy, Context, Approver, Decision, DecisionKind, reject, revoke, RequestStatus, rejected,
  revoked, State,
}
use ghostapi.Approval.Policy.{validate_policy}
use ghostapi.Approval.Requests.{needs_artifact, validate_context}
use ghostapi.Approval.Store.{
  Store, max_store_bytes, read, write, mutate, persist, timestamp, empty_state,
}
use ghostapi.Approval.Standing.{is_approval}
use ghostapi.Approval.Inbox.{
  request, approve_request, decide_terminal, reject_request, revoke_request, get_request,
  list_requests, edit_and_resubmit, request_state, approve_state, terminal_state, supersede_state,
  link_state, get_state, list_state,
}
use ghostapi.Approval.Calls.{Call, Timed, step}
use ghostapi.Approval.Quorum.{AreQuorate}
use ghostapi.Approval.Quorum.Validated.{validate_state-quorate}
use ghostapi.Approval.Quorum.Keeps.{
  request_state-Keeps, approve_state-Keeps, terminal_state-Keeps, supersede_state-Keeps,
  link_state-Keeps, get_state-Keeps, list_state-Keeps,
}

abbrev unreadable : Failure → Failure
unreadable _ = record { message = lit "Approval inbox store is not valid JSON."; code = none }

module _ (env : Env) where
  -- Whatever is read from the file has its approvals.
  abbrev pub Holds : Store → Type 0
  Holds store = (s : State) → read env store ≡ ok s → AreQuorate s

  pub Holds-some : (u : State) → AreQuorate u → Holds (some u)
  unfolding read
  Holds-some u q s e = elim (Bool-cases (leb (env.inbox_bytes u) max_store_bytes)) [
    | inl k ↦ validate_state-quorate env unreadable u q s (rw (read, k) at e)
    | inr k ↦ (let x = rw (read, k) at e in cc)
  ]

  persist-Holds :
      {A : Type 0} (r : Result A × State) (store : Store)
      → AreQuorate r.1
      → Holds store
      → Holds (persist env r store).1
  unfolding persist write
  persist-Holds (err e, t) store q h = h
  persist-Holds (ok a, t) store q h = elim (Result-cases (write env t)) [
    | inr (x, e) ↦ rw (persist, e) h
    | inl (u, e) ↦ rw (persist, e) (Holds-some u (validate_state-quorate env (λ x. x) t q u e))
  ]

  mutate-Holds :
      {A : Type 0} (clock : Option ℕ) (operation : ℕ → Op State A) (store : Store)
      → ((now : ℕ) → Keeps AreQuorate (operation now))
      → Holds store
      → Holds (mutate env clock operation store).1
  unfolding mutate
  mutate-Holds clock operation store keeps h = elim (Result-cases (read env store)) [
    | inr (x, e) ↦ rw (mutate, e) h
    | inl (s, e) ↦ elim (Result-cases (timestamp clock)) [
      | inr (x, k) ↦ rw (mutate, e, k) h
      | inl (now, k) ↦
          rw (mutate, e, k) (persist-Holds (operation now s) store (keeps now s (h s e)) h)
    ]
  ]

  request-Holds :
      (clock : ℕ → Option ℕ) (fresh : Text) (preflight : ActionEnvelope → Result (Unit {0}))
      (action : ActionEnvelope) (policy : Policy) (context : Context) (store : Store)
      → Holds store
      → Holds (request env clock fresh preflight action policy context store).1
  unfolding request
  request-Holds clock fresh preflight action policy context store h =
      continue-keeps Holds (validate_envelope env.host action) store _ h λ a _.
        continue-keeps Holds (validate_policy env policy) store _ h λ p _.
          continue-keeps Holds (validate_context context) store _ h λ c _.
            continue-keeps Holds (timestamp (clock 0)) store _ h λ now _.
              continue-keeps Holds (require (ltb now a.expires_at) _) store _ h λ _ _.
                continue-keeps Holds (preflight a) store _ h λ _ _.
                  mutate-Holds (clock 1) (request_state env a p c fresh) store
                    (request_state-Keeps env a p c fresh) h

  decide-Holds :
      (clock : ℕ → Option ℕ) (fresh : Text) (kind : DecisionKind) (status : RequestStatus)
      (event : Text) (identity : Result Approver) (id reason : Text) (store : Store)
      → ((d : Decision) → d.kind ≡ kind → is_approval d ≡ false)
      → needs_artifact status ≡ false
      → Holds store
      → Holds (decide_terminal env clock fresh kind status event identity id reason store).1
  unfolding decide_terminal
  decide-Holds clock fresh kind status event identity id reason store e n h =
      continue-keeps Holds identity store _ h λ approver _.
        continue-keeps Holds (identifier env.safety id _) store _ h λ id' _.
          continue-keeps Holds (text env.safety reason _ 200) store _ h λ reason' _.
            mutate-Holds (clock 0) (terminal_state env approver id' reason' kind status event fresh)
              store
              (λ now. terminal_state-Keeps env approver id' reason' kind status event fresh now e n)
              h

  edit-Holds :
      (clock : ℕ → Option ℕ) (fresh : Text) (preflight : ActionEnvelope → Result (Unit {0}))
      (identity : Result Approver) (id : Text) (action : ActionEnvelope) (policy : Policy)
      (context : Context) (store : Store)
      → Holds store
      → Holds
          (edit_and_resubmit env clock fresh preflight identity id action policy context store).1
  unfolding edit_and_resubmit
  edit-Holds clock fresh preflight identity id action policy context store h =
      continue-keeps Holds identity store _ h λ approver _.
        continue-keeps Holds (identifier env.safety id _) store _ h λ id' _.
          (let first = mutate env (clock 0) (supersede_state env approver id') store in
            let h1 =
              mutate-Holds (clock 0) (supersede_state env approver id') store
                (supersede_state-Keeps env approver id') h in
            continue-keeps Holds first.0 first.1 _ h1 λ old _.
              (let second =
                  request env (λ n. clock (1 + n)) fresh preflight action policy context first.1 in
                let h2 =
                  request-Holds (λ n. clock (1 + n)) fresh preflight action policy context first.1
                    h1 in
                continue-keeps Holds second.0 second.1 _ h2 λ new _.
                  continue-keeps Holds (require (not (text_eq new.action_hash old.action_hash)) _)
                    second.1 _ h2
                    λ _ _.
                      mutate-Holds (clock 3) (link_state env new.id old.id) second.1
                        (link_state-Keeps env new.id old.id) h2))

  pub step-Holds : (c : Timed) (store : Store) → Holds store → Holds (step env c store)
  unfolding step approve_request reject_request revoke_request get_request list_requests is_approval
      needs_artifact
  step-Holds (clock, fresh, Call.requests preflight action policy context) store h =
      request-Holds clock fresh preflight action policy context store h
  step-Holds (clock, fresh, Call.approves identity id) store h =
      continue-keeps Holds identity store _ h λ approver _.
        continue-keeps Holds (identifier env.safety id _) store _ h λ id' _.
          mutate-Holds (clock 0) (approve_state env approver id' fresh) store
            (approve_state-Keeps env approver id' fresh) h
  step-Holds (clock, fresh, Call.rejects identity id reason) store h =
      decide-Holds clock fresh reject rejected _ identity id reason store (λ d e. rw e refl) refl h
  step-Holds (clock, fresh, Call.revokes identity id reason) store h =
      decide-Holds clock fresh revoke revoked _ identity id reason store (λ d e. rw e refl) refl h
  step-Holds (clock, fresh, Call.gets id) store h =
      continue-keeps Holds (identifier env.safety id _) store _ h
        λ id' _. mutate-Holds (clock 0) (get_state env id') store (get_state-Keeps env id') h
  step-Holds (clock, fresh, Call.lists wanted) store h =
      mutate-Holds (clock 0) (list_state env wanted) store (list_state-Keeps env wanted) h
  step-Holds (clock, fresh, Call.edits preflight identity id action policy context) store h =
      edit-Holds clock fresh preflight identity id action policy context store h

  pub Holds-none : Holds none
  unfolding read empty_state
  Holds-none s e = subst AreQuorate (ok_inj e) refl
