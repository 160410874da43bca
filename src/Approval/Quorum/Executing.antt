-- ===== src/Approval/Quorum/Executing.antt =====
-- An execution keeps the quorum of the requests, in memory and in the file.
use ghostapi.Common.{
  ℕ, Text, lit, ◌≡◌, refl, ◌∙◌, ap, sym, subst, true, not, ◌&&◌, ◌==◌, is_some, Option, none, some,
  Option-cases, find, find-some, find-update_first, text_eq_sound, text_eq_refl, text_eq, inl, inr,
  ok, ok_inj, require, require-eq-ok, arith,
}
use ghostapi.Common.Action.{Keeps, continue-keeps, continue-elim}
use ghostapi.Actions.Types.{ActionApproval, ExecutionIdentity}
use ghostapi.Approval.Types.{Env, Policy, Request, executing, executed, execution_failed, State}
use ghostapi.Approval.Policy.{policy_hash, evaluate}
use ghostapi.Approval.Requests.{needs_artifact}
use ghostapi.Approval.Store.{timestamp}
use ghostapi.Approval.Standing.{has_id, find_request}
use ghostapi.Approval.Inbox.{refresh, put_request, append_audit, append_audit_of}
use ghostapi.Approval.Executing.{
  is_executable, is_same_policy, require_artifact, check_execution, consume, verify_state,
  fail_state,
}
use ghostapi.Approval.Quorum.{quorate, AreQuorate}
use ghostapi.Approval.Quorum.Refreshes.{
  put_request-Keeps, append_audit_of-requests, on_request, find_request-quorate,
}

pub find_request-some :
    (s : State) (id : Text) {r : Request}
    → find_request s id ≡ ok r
    → (find (has_id id) s.requests ≡ some r) × (r.id ≡ id)
unfolding find_request has_id
find_request-some s id {r} h = elim (Option-cases (find (has_id id) s.requests)) [
  | inl e ↦ (let k = rw (find_request, e) at h in cc)
  | inr (x, e) ↦
      let same : find (has_id id) s.requests ≡ some r =
        e ∙ ap some (ok_inj (rw (find_request, e) at h)) in
      (same, text_eq_sound r.id id (find-some (has_id id) s.requests same))
]

pub find_request-of :
    (s : State) (id : Text) {r : Request}
    → find (has_id id) s.requests ≡ some r
    → find_request s id ≡ ok r
unfolding find_request
find_request-of s id h = rw (find_request, h) refl

-- Only the requests are read.
pub find_request-same :
    (s t : State) (id : Text) → s.requests ≡ t.requests → find_request s id ≡ find_request t id
unfolding find_request
find_request-same s t id e = ap (λ rs. find_request (record s { requests = rs }) id) e

-- The request with this id, if there is one, was approved.
abbrev pub Ready : Text → State → Type 0
Ready id s = (r : Request) → find_request s id ≡ ok r → needs_artifact r.status ≡ true

pub require_artifact-needs :
    (r : Request) {artifact : ActionApproval}
    → require_artifact r ≡ ok artifact
    → needs_artifact r.status ≡ true
unfolding require_artifact is_executable needs_artifact
require_artifact-needs r h = ground arith

module _ (env : Env) where
  -- A request that is put is found.
  pub put_request-found :
      (s : State) {r : Request} (r' : Request)
      → find_request s r'.id ≡ ok r
      → find_request (put_request env r' s).1 r'.id ≡ ok r'
  unfolding has_id
  put_request-found s r' found = find_request-of (put_request env r' s).1 r'.id (
      find-update_first (has_id r'.id) r' s.requests (find_request-some s r'.id found).0
        (text_eq_refl r'.id))

  -- An approval that was needed is still there in another status that needs it.
  moved-quorate :
      (r r' : Request)
      → r'.decisions ≡ r.decisions
      → r'.action ≡ r.action
      → r'.policy ≡ r.policy
      → needs_artifact r.status ≡ true
      → quorate r ≡ true
      → quorate r' ≡ true
  moved-quorate r r' d a p needs q = rw (d, a, p) (ground arith)

  -- What the checks let through was approved.
  pub check_execution-found :
      (policy : Policy) (id : Text) (identity : ExecutionIdentity) (now : ℕ) (s : State)
      {r : Request} {artifact : ActionApproval}
      → (check_execution env policy id identity now s).0 ≡ ok (r, artifact)
      → ((check_execution env policy id identity now s).1 ≡ (refresh env now s).1)
        × ((refresh env now s).0 ≡ ok tt)
        × (find_request (refresh env now s).1 id ≡ ok r)
        × (require_artifact r ≡ ok artifact)
        × (is_same_policy r.policy policy (policy_hash env policy) ≡ true)
        × ((text_eq identity.actor_id r.action.actor.id
              && text_eq identity.workload_id r.action.actor.workload_id)
            ≡ true)
  unfolding check_execution
  check_execution-found policy id identity now s {r} {artifact} h =
      continue-elim (refresh env now s).0 (refresh env now s).1 _ h λ _ refreshed h1 e1.
        continue-elim (find_request (refresh env now s).1 id) _ _ h1 λ x found h2 e2.
          continue-elim (require_artifact x) _ _ h2 λ a has h3 e3.
            continue-elim
              (require (is_same_policy x.policy policy (policy_hash env policy))
                (lit "Approval policy changed after approval."))
              _ _ h3
              λ _ is_policy h4 e4.
                continue-elim
                  (evaluate policy x.action x.context (refresh env now s).1.requests now
                    (some x.id))
                  _ _ h4
                  λ decision _ h5 e5.
                    continue-elim
                      (require
                        (decision.allowed
                          && decision.required_approvals == x.policy.required_approvals)
                        (lit "Current approval policy no longer authorizes execution."))
                      _ _ h5
                      λ _ _ h6 e6.
                        continue-elim
                          (require
                            (text_eq identity.actor_id x.action.actor.id
                              && text_eq identity.workload_id x.action.actor.workload_id)
                            (lit "Execution identity does not match the approved action."))
                          _ _ h6
                          λ _ is_actor h7 e7.
                            let same : x ≡ r = ap (λ p. p.0) (ok_inj h7) in
                            let its : a ≡ artifact = ap (λ p. p.1) (ok_inj h7) in
                            (
                              ap (λ p. p.1) (e1 ∙ e2 ∙ e3 ∙ e4 ∙ e5 ∙ e6 ∙ e7),
                              refreshed,
                              subst (λ y. find_request (refresh env now s).1 id ≡ ok y) same found,
                              rw (← same, ← its) has,
                              rw (← same) (require-eq-ok _ _ is_policy),
                              rw (← same) (require-eq-ok _ _ is_actor),
                            )

  -- The request with this id after an assignment to it that leaves it approved.
  put_request-Ready :
      (s : State) {r : Request} (r' : Request)
      → find_request s r'.id ≡ ok r
      → needs_artifact r'.status ≡ true
      → Ready r'.id (put_request env r' s).1
  put_request-Ready s r' found needs x e =
      subst (λ y. needs_artifact y.status ≡ true) (ok_inj (sym (put_request-found s r' found) ∙ e))
        needs

  -- The requests have their approvals, and that with this id was approved.
  abbrev pub Open : Text → State → Type 0
  Open id s = AreQuorate s × Ready id s

  append_audit_of-Open :
      (id : Text) (hash : Option Text) (event : Text) (r : Request) (actor : Text) (now : ℕ)
      → Keeps (Open id) (append_audit_of env hash event r actor now)
  append_audit_of-Open id hash event r actor now s h =
      let same = append_audit_of-requests env hash event r actor now s in
      let t = (append_audit_of env hash event r actor now s).1 in
      (rw same h.0, λ x e. h.1 x (find_request-same s t id (sym same) ∙ e))

  -- An assignment that leaves a request approved, with its audit record.
  moved-Open :
      (id : Text) (s : State) (r r' : Request)
      → r'.decisions ≡ r.decisions
      → r'.action ≡ r.action
      → r'.policy ≡ r.policy
      → r'.id ≡ r.id
      → needs_artifact r'.status ≡ true
      → find_request s id ≡ ok r
      → Open id s
      → Open id (put_request env r' s).1
  moved-Open id s r r' d a p i needs found h =
      let name : id ≡ r'.id = sym (i ∙ (find_request-some s id found).1) in
      let was = h.1 r found in
      let q = moved-quorate r r' d a p was (find_request-quorate env s id h.0 found) in
      (
        put_request-Keeps env r' q s h.0,
        subst (λ n. Ready n (put_request env r' s).1) (sym name)
            (put_request-Ready s r' (subst (λ n. find_request s n ≡ ok r) name found) needs),
      )

  pub consume-Open :
      (id : Text) (r : Request) (actor : Text) (now : ℕ) (s : State)
      → find_request s id ≡ ok r
      → Open id s
      → Open id (consume env r actor now s).1
  unfolding consume needs_artifact append_audit
  consume-Open id r actor now s found h =
      continue-keeps (Open id) (require (not (is_some r.consumed_at)) _) s _ h λ _ _.
        let r' : Request = record r { consumed_at = some now; status = executing } in
        append_audit_of-Open id none _ r' actor now (put_request env r' s).1
          (moved-Open id s r r' refl refl refl refl refl found h)

  pub verify_state-Open :
      (id actor hash : Text) (clock : Option ℕ)
      → Keeps (Open id) (verify_state env id actor hash clock)
  unfolding verify_state needs_artifact
  verify_state-Open id actor hash clock s h =
      continue-keeps (Open id) (find_request s id) s _ h λ r found.
        let r' : Request = record r { status = executed; execution_receipt_hash = some hash } in
        let k = moved-Open id s r r' refl refl refl refl refl found h in
        let t = (put_request env r' s).1 in
        continue-keeps (Open id) (timestamp clock) t _ k
          λ now _. append_audit_of-Open id (some hash) _ r' actor now t k

  pub fail_state-Open :
      (id actor hash : Text) (clock : Option ℕ)
      → Keeps (Open id) (fail_state env id actor hash clock)
  unfolding fail_state needs_artifact
  fail_state-Open id actor hash clock s h =
      continue-keeps (Open id) (find_request s id) s _ h λ r found.
        let r' : Request = record r { status = execution_failed } in
        let k = moved-Open id s r r' refl refl refl refl refl found h in
        let t = (put_request env r' s).1 in
        continue-keeps (Open id) (timestamp clock) t _ k
          λ now _. append_audit_of-Open id (some hash) _ r' actor now t k

  pub check_execution-Keeps :
      (policy : Policy) (id : Text) (identity : ExecutionIdentity) (now : ℕ)
      → Keeps AreQuorate (check_execution env policy id identity now)
  unfolding check_execution
  check_execution-Keeps policy id identity now s q = on_request env id now s _ q λ x t u _.
      continue-keeps AreQuorate (require_artifact x) t _ u λ _ _.
        continue-keeps AreQuorate
          (require (is_same_policy x.policy policy (policy_hash env policy)) _) t _ u
          λ _ _.
            continue-keeps AreQuorate
              (evaluate policy x.action x.context t.requests now (some x.id)) t _ u
              λ decision _.
                continue-keeps AreQuorate
                  (require
                    (decision.allowed && decision.required_approvals == x.policy.required_approvals)
                    _)
                  t _ u
                  λ _ _.
                    continue-keeps AreQuorate
                      (require
                        (text_eq identity.actor_id x.action.actor.id
                          && text_eq identity.workload_id x.action.actor.workload_id)
                        _)
                      t _ u λ _ _. u

  -- What is proceeded with was approved, and is the request of this id.
  pub check_execution-Open :
      (policy : Policy) (id : Text) (identity : ExecutionIdentity) (now : ℕ) (s : State)
      {r : Request} {artifact : ActionApproval}
      → AreQuorate s
      → (check_execution env policy id identity now s).0 ≡ ok (r, artifact)
      → (find_request (check_execution env policy id identity now s).1 r.id ≡ ok r)
        × Open r.id (check_execution env policy id identity now s).1
  check_execution-Open policy id identity now s {r} q h =
      let t = (check_execution env policy id identity now s).1 in
      let (same, _, found, has, _, _) = check_execution-found policy id identity now s h in
      let mine : find_request t id ≡ ok r =
        subst (λ x. find_request x id ≡ ok r) (sym same) found in
      let name = (find_request-some t id mine).1 in
      let its = subst (λ n. find_request t n ≡ ok r) (sym name) mine in
      (
        its,
        (
          check_execution-Keeps policy id identity now s q,
          λ x e.
              subst (λ y. needs_artifact y.status ≡ true) (ok_inj (sym its ∙ e))
                (require_artifact-needs r has),
        ),
      )
