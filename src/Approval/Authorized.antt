-- ===== src/Approval/Authorized.antt =====
-- What an execution demands of the inbox before it touches the stores of the gateway.
use ghostapi.Common.{
  All, ℕ, ◌≤◌, ◌<◌, Text, lit, ◌≡◌, refl, ◌∙◌, ap, sym, subst, true, false, ◌&&◌, List, [], ◌∷◌,
  length, leb, find, Bool-cases, Result-cases, ◌⊎◌, inl, inr, none, Option, some, ok, ok_inj, arith,
  text_eq, text_eq_sound, and_left, and_right,
}
use ghostapi.Common.Action.{continue-keeps, continue-elim}
use ghostapi.Safety.Validate.{identifier}
use ghostapi.Safety.Validate.Laws.{Gives-eq, identifier-Gives}
use ghostapi.Actions.Types.{ActionApproval, ExecutionIdentity, PolicyCheck}
use ghostapi.Actions.Adapters.{Stores}
use ghostapi.Actions.Calls.{Gateway}
use ghostapi.Approval.Policy.{validate_policy, policy_hash}
use ghostapi.Approval.Store.{Store, read, timestamp}
use ghostapi.Approval.Executing.{
  Desk, load, on_memory, is_same_policy, check_execution, execute_approval,
}
use ghostapi.Approval.Office.{Office, Event, execute, run}
use ghostapi.Approval.Quorum.{approvers_of}
use ghostapi.Approval.Quorum.Independent.{ArePairwiseSeparate, IsOutside}
use ghostapi.Approval.Quorum.Files.{Holds, Holds-none}
use ghostapi.Approval.Quorum.History.{run-Holds, quorate-needs}
use ghostapi.Approval.Types.{Env, Policy, Request, RequestStatus, timed_out, expired, State}
use ghostapi.Approval.Requests.{needs_artifact}
use ghostapi.Approval.Standing.{has_id, is_pending, is_active, find_request}
use ghostapi.Approval.Inbox.{append_audit, close, refresh_one, refresh_all, refresh}
use ghostapi.Approval.Quorum.Refreshes.{find_request-quorate}
use ghostapi.Approval.Quorum.Executing.{
  find_request-some, find_request-of, check_execution-found, require_artifact-needs,
}

module _ (env : Env) where
  -- A request that is approved after a refresh is as it was, and not over.
  abbrev Stays : ℕ → Request → Request → Type 0
  Stays now r r' =
      (r'.id ≡ r.id)
      × (needs_artifact r'.status ≡ true
          → (r' ≡ r) × (is_active r.status ≡ true → now < r.expires_at))

  close-Stays :
      (event : Text) (status : RequestStatus) (now : ℕ) (r : Request) (s : State) {r' : Request}
      → needs_artifact status ≡ false
      → (close env event status now r s).0 ≡ ok r'
      → Stays now r r'
  unfolding close
  close-Stays event status now r s {r'} n h =
      continue-elim (append_audit env event r _ now s).0 _ _ h
        λ _ _ e _. subst (Stays now r) (ok_inj e) (refl, λ needs. let x = n in cc)

  refresh_one-Stays :
      (now : ℕ) (r : Request) (s : State) {r' : Request}
      → (refresh_one env now r s).0 ≡ ok r'
      → Stays now r r'
  unfolding refresh_one needs_artifact
  refresh_one-Stays now r s {r'} h =
      elim (Bool-cases (is_pending r.status && leb r.escalation_at now)) [
        | inl e ↦ close-Stays (lit "request.timed_out") timed_out now r s refl (rw e at h)
        | inr e ↦ elim (Bool-cases (is_active r.status && leb r.expires_at now)) [
          | inl k ↦ close-Stays (lit "request.expired") expired now r s refl (rw (e, k) at h)
          | inr k ↦
              subst (Stays now r) (ok_inj (rw (e, k) at h)) (refl, λ _. (refl, λ a. ground arith))
        ]
      ]

  find_step :
      (now : ℕ) (id : Text) (x x' : Request) (rs ys : List Request) (r : Request)
      → Stays now x x'
      → find (has_id id) (x' ∷ ys) ≡ some r
      → needs_artifact r.status ≡ true
      → (find (has_id id) ys ≡ some r
          → (find (has_id id) rs ≡ some r) × (is_active r.status ≡ true → now < r.expires_at))
      → (find (has_id id) (x ∷ rs) ≡ some r) × (is_active r.status ≡ true → now < r.expires_at)
  unfolding has_id
  find_step now id x x' rs ys r (same, stays) found needs rest = elim (Bool-cases (has_id id x')) [
    | inr e ↦
        let e' : text_eq x.id id ≡ false = subst (λ n. text_eq n id ≡ false) same e in
        rw e' (rest (rw e at found))
    | inl e ↦
        let e' : text_eq x.id id ≡ true = subst (λ n. text_eq n id ≡ true) same e in
        let is : x' ≡ r = (let k = rw e at found in cc) in
        let (old, open_) = stays (subst (λ y. needs_artifact y.status ≡ true) (sym is) needs) in
        let was : x ≡ r = sym old ∙ is in
        rw e' (
          ap some was,
          λ a.
              subst (λ y. now < y.expires_at) was
                (open_ (subst (λ y. is_active y.status ≡ true) (sym was) a)),
        )
  ]

  refresh_all-find :
      (now : ℕ) (id : Text) (rs : List Request) (s : State) {rs' : List Request} {r : Request}
      → (refresh_all env now rs s).0 ≡ ok rs'
      → find (has_id id) rs' ≡ some r
      → needs_artifact r.status ≡ true
      → (find (has_id id) rs ≡ some r) × (is_active r.status ≡ true → now < r.expires_at)
  unfolding refresh_all
  refresh_all-find now id [] s {rs'} {r} h found needs =
      let e = subst (λ xs. find (has_id id) xs ≡ some r) (sym (ok_inj h)) found in cc
  refresh_all-find now id (x ∷ rs) s {rs'} {r} h found needs =
      continue-elim (refresh_one env now x s).0 _ _ h λ x' e h1 _.
        continue-elim (refresh_all env now rs _).0 _ _ h1 λ ys e' h2 _.
          (let here = subst (λ xs. find (has_id id) xs ≡ some r) (sym (ok_inj h2)) found in
            find_step now id x x' rs ys r (refresh_one-Stays now x s e) here needs
              λ there. refresh_all-find now id rs _ e' there needs)

  -- What is found after a refresh was found before.
  pub refresh-find :
      (now : ℕ) (id : Text) (s : State) {r : Request}
      → (refresh env now s).0 ≡ ok tt
      → find_request (refresh env now s).1 id ≡ ok r
      → needs_artifact r.status ≡ true
      → (find_request s id ≡ ok r) × (is_active r.status ≡ true → now < r.expires_at)
  unfolding refresh
  refresh-find now id s {r} done h needs =
      continue-elim (refresh_all env now s.requests s).0 _ _ done λ rs e _ same.
        let t : State = record (refresh_all env now s.requests s).1 { requests = rs } in
        let found = find_request-some t id (subst (λ p. find_request p.1 id ≡ ok r) same h) in
        let (was, open_) = refresh_all-find now id s.requests s e found.0 needs in
        (find_request-of s id was, open_)

-- What an execution of an approval rests on: a request in the file, approved by as many approvers as
-- its policy requires, of whom no two share an id, a principal or an independence key, and who are
-- outside of its action; it is not over at the time, unless its execution has begun; its policy is the
-- one that is given, and its actor is who executes.
pub record IsAuthorized (env : Env) (store : Store) (clock : Option ℕ) (id : Text)
    (identity : ExecutionIdentity) (policy : Policy) : Type 0 where
  pub state : State
  pub request : Request
  pub now : ℕ
  pub was_read : read env store ≡ ok state
  pub found : find_request state id ≡ ok request
  pub at_time : clock ≡ some now
  pub unexpired : is_active request.status ≡ true → now < request.expires_at
  pub approved : needs_artifact request.status ≡ true
  pub enough : request.policy.required_approvals ≤ length (approvers_of request.decisions)
  pub separated : ArePairwiseSeparate (approvers_of request.decisions)
  pub outside : All (IsOutside request.action) (approvers_of request.decisions)
  pub valid : Policy
  pub validated : validate_policy env policy ≡ ok valid
  pub same_policy : is_same_policy request.policy valid (policy_hash env valid) ≡ true
  pub actor : identity.actor_id ≡ request.action.actor.id
  pub workload : identity.workload_id ≡ request.action.actor.workload_id

timestamp-some : (clock : Option ℕ) {now : ℕ} → timestamp clock ≡ ok now → clock ≡ some now
unfolding timestamp
timestamp-some none h = cc
timestamp-some (some t) h = ap some (ok_inj h)

module _ (env : Env) where
  IsAuthorized-checked :
      (clock : Option ℕ) (id : Text) (identity : ExecutionIdentity) (policy valid : Policy)
      (store : Store) (s : State) (now : ℕ) (r : Request) (artifact : ActionApproval)
      → Holds env store
      → read env store ≡ ok s
      → timestamp clock ≡ ok now
      → validate_policy env policy ≡ ok valid
      → (check_execution env valid id identity now s).0 ≡ ok (r, artifact)
      → IsAuthorized env store clock id identity policy
  IsAuthorized-checked clock id identity policy valid store s now r artifact holds was_read at
        ok_policy h =
      let (_, refreshed, found, has, same, actor) =
        check_execution-found env valid id identity now s h in
      let needs = require_artifact-needs r has in
      let (was, open_) = refresh-find env now id s refreshed found needs in
      let q = quorate-needs r (find_request-quorate env s id (holds s was_read) was) needs in
      record {
        state = s;
        request = r;
        now = now;
        was_read = was_read;
        found = was;
        at_time = timestamp-some clock at;
        unexpired = open_;
        approved = needs;
        enough = q.0;
        separated = q.1;
        outside = q.2;
        valid = valid;
        validated = ok_policy;
        same_policy = same;
        actor = text_eq_sound _ _ (and_left _ _ actor);
        workload = text_eq_sound _ _ (and_right _ _ actor);
      }

  execute_approval-IsAuthorized :
      {W Effect : Type 0} (g : Gateway W Effect) (id : Text) (identity : ExecutionIdentity)
      (action_policy : PolicyCheck) (policy : Policy) (d : Desk W)
      → Holds env d.inbox
      → ((execute_approval env g.adapter g.verify g.clock g.fresh id identity action_policy policy
            d).1.stores
          ≡ d.stores)
        ⊎ IsAuthorized env d.inbox (g.clock 0) id identity policy
  unfolding execute_approval on_memory
  execute_approval-IsAuthorized {W = W} g id_value identity action_policy policy d holds =
      let Q : Desk W → Type 0 = λ e.
        (e.stores ≡ d.stores) ⊎ IsAuthorized env d.inbox (g.clock 0) id_value identity policy in
      continue-keeps Q (identifier env.safety id_value _) d _ (inl refl) λ id is_id.
        continue-keeps Q (validate_policy env policy) d _ (inl refl) λ valid ok_policy.
          elim (Result-cases (read env d.inbox)) [
            | inr (x, e) ↦ rw (load, e) (inl refl)
            | inl (s, e) ↦
                rw (load, e)
                  (continue-keeps Q (timestamp (g.clock 0)) (record d { memory = s }) _ (inl refl)
                    λ now at.
                      continue-keeps Q (check_execution env valid id identity now s).0 _ _
                        (inl refl)
                        λ c passed. inr (
                          IsAuthorized-checked (g.clock 0) id_value identity policy valid d.inbox s
                            now c.0 c.1 holds e at ok_policy
                            (subst (λ n. (check_execution env valid n identity now s).0 ≡ ok c)
                              (Gives-eq (identifier-Gives env.safety id_value _) is_id) passed)))
          ]

-- In every history of calls that starts without a file, an execution of an approval leaves the stores
-- of the gateway as they were, whatever its adapter does, or the request with its id is authorized: the
-- file holds it, approved by as many approvers as its policy requires; no two of them share an id, a
-- principal or an independence key, and of none the id is the actor's, or the principal or the
-- independence key the actor's id or the workload's; unless its execution has begun, it is not over at
-- the time; its policy is the one that is given, and its actor is who executes.
pub execute-IsAuthorized :
    {W Effect : Type 0} (env : Env) (history : List (Event W Effect)) (stores : Stores W)
    (g : Gateway W Effect) (id : Text) (identity : ExecutionIdentity) (action_policy : PolicyCheck)
    (policy : Policy) (o : Office W)
    → o ≡ run env history (record { inbox = none; stores = stores })
    → ((execute env g id identity action_policy policy o).1.stores ≡ o.stores)
      ⊎ IsAuthorized env o.inbox (g.clock 0) id identity policy
unfolding execute
execute-IsAuthorized env history stores g id identity action_policy policy o e =
    execute_approval-IsAuthorized env g id identity action_policy policy _ (
      subst (λ p. Holds env p.inbox) (sym e)
        (run-Holds env history (record { inbox = none; stores = stores }) (Holds-none env)))
