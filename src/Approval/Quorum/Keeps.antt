-- ===== src/Approval/Quorum/Keeps.antt =====
-- Every mutation of the inbox keeps the quorum of its requests.
use ghostapi.Common.{
  both, false_of_not, ℕ, Text, lit, ◌≡◌, refl, ap, ◌∙◌, sym, subst, Bool, true, false, not, ◌&&◌,
  ◌||◌, List, [], ◌∷◌, ◌++◌, filter, length, length-map, all, leb, arith, and_left, find, text_eq,
  is_some, Option, none, some, Option-cases, Bool-cases, inl, inr, ok, require, require-eq-ok,
  ok_inj, bind-elim,
}
use ghostapi.Common.Action.{◌>>=◌, ◌>>◌, Keeps, Keeps-bind, continue-keeps, pure}
use ghostapi.Safety.Validate.{identifier}
use ghostapi.Actions.Types.{ActionEnvelope, ActionApproval}
use ghostapi.Actions.Validate.{action_hash}
use ghostapi.Approval.Types.{
  Env, Policy, Context, Approver, Decision, DecisionKind, approve, Request, RequestStatus, approved,
  superseded, State,
}
use ghostapi.Approval.Policy.{evaluate, classify}
use ghostapi.Approval.Requests.{needs_artifact, new_request, new_decision, create_artifact}
use ghostapi.Approval.Standing.{
  is_approval, is_self_approval, has_approved, is_pending, is_active, is_superseded, has_started,
  is_running, find_request,
}
use ghostapi.Approval.Inbox.{
  append_audit, refresh, put_request, request_state, settle, approve_state, terminal_state,
  supersede_state, link_state, get_state, list_state,
}
use ghostapi.Approval.Quorum.{
  quorate, approvers_of, AreQuorate, all-append, approvers-other, approval-quorate,
}
use ghostapi.Approval.Quorum.Refreshes.{
  closed-quorate, refresh-Keeps, put_request-Keeps, append_audit-Keeps, find_request-quorate,
  on_request,
}

approving : (d : Decision) → d.kind ≡ approve → is_approval d ≡ true
unfolding is_approval
approving d e = rw e refl

pending-waits : (status : RequestStatus) → is_pending status ≡ true → needs_artifact status ≡ false
unfolding is_pending needs_artifact
pending-waits status e = ground arith

-- A request with the approvals that it needs.
approved-quorate :
    (r : Request) (artifact : ActionApproval)
    → leb r.policy.required_approvals (length (filter is_approval r.decisions)) ≡ true
    → quorate r ≡ true
    → quorate (record r { status = approved; artifact = some artifact }) ≡ true
unfolding needs_artifact
approved-quorate r artifact e q =
    let same = length-map (λ (d : Decision). d.approver) (filter is_approval r.decisions) in
    let front =
      and_left _
        (not (needs_artifact r.status)
          || leb r.policy.required_approvals (length (approvers_of r.decisions)))
        q in
    both front (rw same e)

module _ (env : Env) where
  -- A request that is put and recorded.
  changed :
      (r : Request) (event actor : Text) (now : ℕ) (s : State)
      → AreQuorate s
      → quorate r ≡ true
      → AreQuorate
          ((put_request env r >>= λ _. append_audit env event r actor now >>= λ _. pure r) s).1
  changed r event actor now s q k =
      let audit = append_audit env event r actor now in
      Keeps-bind AreQuorate (put_request env r) (λ _. audit >>= λ _. pure r)
        (put_request-Keeps env r k)
        (λ _.
          Keeps-bind AreQuorate audit (λ _. pure r) (append_audit-Keeps env event r actor now)
            (λ _ _ u. u))
        s q

  new_decision-Of :
      (approver : Approver) (kind : DecisionKind) (reason : Option Text) (now : ℕ) (fresh : Text)
      {d : Decision}
      → new_decision env approver kind reason now fresh ≡ ok d
      → (d.approver ≡ approver) × (d.kind ≡ kind)
  unfolding new_decision
  new_decision-Of approver kind reason now fresh h =
      bind-elim (identifier env.safety (lit "decision-" ++ fresh) _) _ h
        λ id _ e. (ap (λ d. d.approver) (sym (ok_inj e)), ap (λ d. d.kind) (sym (ok_inj e)))

  settle-Keeps :
      (r : Request) (now : ℕ) (s : State)
      → AreQuorate s
      → quorate r ≡ true
      → AreQuorate (settle env r now s).1
  unfolding settle
  settle-Keeps r now s q k =
      elim (Bool-cases
        (leb r.policy.required_approvals (length (filter is_approval r.decisions)))) [
          | inr e ↦ rw e q
          | inl e ↦ rw e (
              continue-keeps AreQuorate (create_artifact env r now) s _ q λ artifact _.
                let r' : Request = record r { status = approved; artifact = some artifact } in
                let audit =
                  append_audit env (lit "artifact.issued") r' (lit "approval-inbox") now in
                Keeps-bind AreQuorate (put_request env r' >> audit) (λ _. pure r')
                  (Keeps-bind AreQuorate (put_request env r') (λ _. audit)
                    (put_request-Keeps env r' (approved-quorate r artifact e k))
                    (λ _.
                      append_audit-Keeps env (lit "artifact.issued") r' (lit "approval-inbox") now))
                  (λ _ _ u. u) s q)
        ]

  pub approve_state-Keeps :
      (approver : Approver) (id fresh : Text) (now : ℕ)
      → Keeps AreQuorate (approve_state env approver id fresh now)
  unfolding approve_state
  approve_state-Keeps approver id fresh now s q = on_request env id now s _ q λ r t u k.
      continue-keeps AreQuorate (require (is_pending r.status) _) t _ u λ _ waits.
        continue-keeps AreQuorate (require (not (is_self_approval r.action approver)) _) t _ u
          λ _ other.
            continue-keeps AreQuorate (require (not (has_approved approver r.decisions)) _) t _ u
              λ _ first.
                continue-keeps AreQuorate (new_decision env approver approve none now fresh) t _ u
                  λ d made.
                    let (by, kind) = new_decision-Of approver approve none now fresh made in
                    let r' : Request = record r { decisions = r.decisions ++ d ∷ [] } in
                    let k' =
                      approval-quorate r d (approving d kind)
                        (rw by (false_of_not (require-eq-ok _ _ other)))
                        (rw by (false_of_not (require-eq-ok _ _ first))) k
                        (pending-waits r.status (require-eq-ok _ _ waits)) in
                    let audit = append_audit env (lit "request.approved") r' approver.id now in
                    Keeps-bind AreQuorate (put_request env r')
                      (λ _. audit >>= λ _. settle env r' now) (put_request-Keeps env r' k')
                      (λ _.
                        Keeps-bind AreQuorate audit (λ _. settle env r' now)
                          (append_audit-Keeps env (lit "request.approved") r' approver.id now)
                          (λ _ v x. settle-Keeps r' now v x k'))
                      t u

  pub terminal_state-Keeps :
      (approver : Approver) (id reason : Text) (kind : DecisionKind) (status : RequestStatus)
      (event fresh : Text) (now : ℕ)
      → ((d : Decision) → d.kind ≡ kind → is_approval d ≡ false)
      → needs_artifact status ≡ false
      → Keeps AreQuorate (terminal_state env approver id reason kind status event fresh now)
  unfolding terminal_state
  terminal_state-Keeps approver id reason kind status event fresh now e n s q =
      on_request env id now s _ q λ r t u k.
        continue-keeps AreQuorate (require (not (has_started r.status)) _) t _ u λ _ _.
          continue-keeps AreQuorate (require (is_active r.status) _) t _ u λ _ _.
            continue-keeps AreQuorate (new_decision env approver kind (some reason) now fresh) t _ u
              λ d made.
                let r' : Request = record r {
                  decisions = r.decisions ++ d ∷ [];
                  status = status;
                } in
                let is_other = e d (new_decision-Of approver kind (some reason) now fresh made).1 in
                let k' : quorate r' ≡ true =
                  rw (approvers-other r.decisions d is_other) (closed-quorate r status n k) in
                changed r' event approver.id now t u k'

  pub supersede_state-Keeps :
      (approver : Approver) (id : Text) (now : ℕ)
      → Keeps AreQuorate (supersede_state env approver id now)
  unfolding supersede_state needs_artifact
  supersede_state-Keeps approver id now s q = on_request env id now s _ q λ r t u k.
      continue-keeps AreQuorate
        (require (not (is_running r.status) && not (is_some r.consumed_at)) _) t _ u
        λ _ _.
          changed (record r { status = superseded }) (lit "request.superseded") approver.id now t u
            (closed-quorate r superseded refl k)

  pub link_state-Keeps : (id old : Text) (now : ℕ) → Keeps AreQuorate (link_state env id old now)
  unfolding link_state
  link_state-Keeps id old now s q = continue-keeps AreQuorate (find_request s id) s _ q λ r e.
      let r' : Request = record r { supersedes_request_id = some old } in
      Keeps-bind AreQuorate (put_request env r') (λ _. pure r')
        (put_request-Keeps env r' (find_request-quorate env s id q e)) (λ _ _ u. u) s q

  pub get_state-Keeps : (id : Text) (now : ℕ) → Keeps AreQuorate (get_state env id now)
  unfolding get_state
  get_state-Keeps id now =
      Keeps-bind AreQuorate (refresh env now) (λ _ t. (find_request t id, t))
        (refresh-Keeps env now) (λ _ _ u. u)

  pub list_state-Keeps :
      (wanted : RequestStatus → Bool) (now : ℕ) → Keeps AreQuorate (list_state env wanted now)
  unfolding list_state
  list_state-Keeps wanted now =
      Keeps-bind AreQuorate (refresh env now)
        (λ _ t. (ok (filter (λ r. wanted r.status) t.requests), t)) (refresh-Keeps env now)
        (λ _ _ u. u)

  new_request-quorate :
      (policy : Policy) (action : ActionEnvelope) (context : Context) (history : List Request)
      (now : ℕ) (fresh : Text) {r : Request}
      → new_request env policy action context history now fresh ≡ ok r
      → quorate r ≡ true
  unfolding new_request needs_artifact
  new_request-quorate policy action context history now fresh h =
      bind-elim (evaluate policy action context history now none) _ h λ decision _ h1.
        bind-elim (require decision.allowed _) _ h1 λ _ _ h2.
          bind-elim (identifier env.safety (lit "approval-" ++ fresh) _) _ h2 λ _ _ h3.
            bind-elim (action_hash env.host action) _ h3 λ _ _ h4.
              bind-elim (classify action) _ h4
                λ _ _ e. subst (λ x. quorate x ≡ true) (ok_inj e) refl

  pub request_state-Keeps :
      (action : ActionEnvelope) (policy : Policy) (context : Context) (fresh : Text) (now : ℕ)
      → Keeps AreQuorate (request_state env action policy context fresh now)
  unfolding request_state
  request_state-Keeps action policy context fresh now s q =
      continue-keeps AreQuorate (refresh env now s).0 (refresh env now s).1 _
        (refresh-Keeps env now s q)
        λ _ _.
          let t = (refresh env now s).1 in
          let u = refresh-Keeps env now s q in
          continue-keeps AreQuorate (action_hash env.host action) t _ u λ digest _.
            elim (Option-cases (
              find (λ r. text_eq r.action_hash digest && not (is_superseded r.status))
                t.requests)) [
                  | inr (r, e) ↦ rw e u
                  | inl e ↦ rw e (
                      continue-keeps AreQuorate
                        (new_request env policy action context t.requests now fresh) t _ u
                        λ r made.
                          let added : all (t.requests ++ r ∷ []) quorate ≡ true =
                            all-append quorate t.requests (r ∷ [])
                            ∙ both u (
                                both
                                  (new_request-quorate policy action context t.requests now fresh
                                    made)
                                  refl) in
                          Keeps-bind AreQuorate
                            (append_audit env (lit "request.created") r action.actor.id now)
                            (λ _. pure r)
                            (append_audit-Keeps env (lit "request.created") r action.actor.id now)
                            (λ _ _ x. x) (record t { requests = t.requests ++ r ∷ [] }) added)
                ]
