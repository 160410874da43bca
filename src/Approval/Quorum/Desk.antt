-- ===== src/Approval/Quorum/Desk.antt =====
-- An execution with its gateway keeps the quorum of the requests.
use ghostapi.Common.{
  ℕ, ◌+◌, Text, lit, ◌≡◌, refl, ◌&&◌, is_some, Option, some, Result-cases, Option-cases, option_eq,
  inl, inr, ok, err, require,
}
use ghostapi.Common.Action.{Op, Keeps, Keeps-bind, continue, continue-keeps, lift, pure}
use ghostapi.Safety.Validate.{identifier}
use ghostapi.Actions.Types.{ActionApproval, ExecutionIdentity, PolicyCheck, verified, failed}
use ghostapi.Actions.Records.{status_eq, find_latest_receipt}
use ghostapi.Actions.Adapters.{Adapter}
use ghostapi.Actions.Gateway.{submit, inspect}
use ghostapi.Actions.Calls.{Gateway}
use ghostapi.Approval.Types.{Env, Policy, Request, RequestStatus, approved, executed, State}
use ghostapi.Approval.Policy.{validate_policy}
use ghostapi.Approval.Store.{read, write, timestamp, empty_state}
use ghostapi.Approval.Standing.{find_request}
use ghostapi.Approval.Verifier.{Verifier, inbox_verify}
use ghostapi.Approval.Executing.{
  Desk, on_memory, on_stores, load, save, check_execution, consume, verify_state, fail_state,
  gateway_execute, perform, latest_failed, run_execution, repeat_execution, proceed,
  execute_approval,
}
use ghostapi.Approval.Office.{Office, execute}
use ghostapi.Approval.Quorum.{AreQuorate}
use ghostapi.Approval.Quorum.Validated.{validate_state-quorate}
use ghostapi.Approval.Quorum.Executing.{
  Open, consume-Open, verify_state-Open, fail_state-Open, check_execution-Keeps,
  check_execution-Open,
}
use ghostapi.Approval.Quorum.Files.{Holds, Holds-some}

module _ {W : Type 0} (env : Env) where
  -- What holds of an execution between its steps.
  abbrev Fine : (State → Type 0) → Desk W → Type 0
  Fine P d = P d.memory × Holds env d.inbox

  on_memory-Fine :
      {A : Type 0} (P : State → Type 0) (m : Op State A) → Keeps P m → Keeps (Fine P) (on_memory m)
  unfolding on_memory
  on_memory-Fine P m keeps d h = (keeps d.memory h.0, h.1)

  save-Fine :
      (P : State → Type 0) → ((s : State) → P s → AreQuorate s) → Keeps (Fine P) (save {W = W} env)
  unfolding save write
  save-Fine P quorate d h = elim (Result-cases (write env d.memory)) [
    | inr (x, e) ↦ rw (save, e) h
    | inl (u, e) ↦
        rw (save, e)
          (
            h.0,
            Holds-some env u
                (validate_state-quorate env (λ x. x) d.memory (quorate d.memory h.0) u e),
          )
  ]

  load-Fine : Keeps (Fine AreQuorate) (load {W = W} env)
  unfolding load
  load-Fine d h = elim (Result-cases (read env d.inbox)) [
    | inr (x, e) ↦ rw (load, e) h
    | inl (s, e) ↦ rw (load, e) (h.1 s e, h.1)
  ]

  module _ {Effect : Type 0} (adapter : Adapter W Effect) (verify : Verifier) (clock : ℕ → Option ℕ)
      (fresh : ℕ → Text) (identity : ExecutionIdentity) (policy : PolicyCheck) where
    gateway_execute-Fine :
        (P : State → Type 0) (r : Request)
        → Keeps (Fine P) (gateway_execute env adapter verify clock fresh r identity policy)
    unfolding gateway_execute on_stores
    gateway_execute-Fine P r d h = h

    perform-Fine :
        (r : Request) (artifact : ActionApproval)
        → Keeps
            (Fine (Open env r.id))
            (perform env adapter verify clock fresh r artifact identity policy)
    unfolding perform on_stores
    perform-Fine r artifact d h =
        let P = Fine (Open env r.id) in
        let asked =
          on_stores
            (submit env.actions adapter (inbox_verify env verify d.inbox) (λ n. clock (1 + n)) fresh
              r.action artifact policy)
            d in
        continue-keeps P asked.0 asked.1 _ h λ _ _.
          let ran = gateway_execute env adapter verify clock fresh r identity policy asked.1 in
          let l = gateway_execute-Fine (Open env r.id) r asked.1 h in
          continue-keeps P ran.0 ran.1 _ l λ receipt _.
            let ended =
              on_memory (verify_state env r.id identity.actor_id receipt.receipt_hash (clock 11))
                ran.1 in
            let m =
              on_memory-Fine (Open env r.id)
                (verify_state env r.id identity.actor_id receipt.receipt_hash (clock 11))
                (verify_state-Open env r.id identity.actor_id receipt.receipt_hash (clock 11)) ran.1
                l in
            continue-keeps P ended.0 ended.1 _ m λ _ _.
              Keeps-bind P (save env) (λ _. pure receipt) (save-Fine (Open env r.id) (λ s x. x.0))
                (λ _ _ x. x) ended.1 m

    run_execution-Fine :
        (r : Request) (artifact : ActionApproval)
        → Keeps
            (Fine (Open env r.id))
            (run_execution env adapter verify clock fresh r artifact identity policy)
    unfolding run_execution latest_failed on_stores
    run_execution-Fine r artifact d h =
        let P = Fine (Open env r.id) in
        let tried = perform env adapter verify clock fresh r artifact identity policy d in
        let k = perform-Fine r artifact d h in
        elim (Result-cases tried.0) [
          | inl (receipt, e) ↦ rw e k
          | inr (x, e) ↦ rw e (
              let asked =
                on_stores (inspect env.actions adapter verify clock fresh r.action.action_id)
                  tried.1 in
              elim (Result-cases asked.0) [
                | inr (y, u) ↦ rw u k
                | inl (kept, u) ↦
                    rw u (elim (Option-cases (find_latest_receipt failed kept.receipts)) [
                      | inl n ↦ rw n k
                      | inr (receipt, n) ↦ rw n (
                          let failing =
                            fail_state env r.id identity.actor_id receipt.receipt_hash (clock 12) in
                          let ended = on_memory failing asked.1 in
                          let m =
                            on_memory-Fine (Open env r.id) failing
                              (fail_state-Open env r.id identity.actor_id receipt.receipt_hash
                                (clock 12))
                              asked.1 k in
                          continue-keeps P ended.0 ended.1 _ m λ _ _.
                            Keeps-bind P (save env) (λ _. lift (err x))
                              (save-Fine (Open env r.id) (λ s x. x.0)) (λ _ _ x. x) ended.1 m)
                    ])
              ])
        ]

    repeat_execution-Fine :
        (P : State → Type 0) (r : Request)
        → Keeps (Fine P) (repeat_execution env adapter verify clock fresh r identity policy)
    unfolding repeat_execution
    repeat_execution-Fine P r d h =
        let ran = gateway_execute env adapter verify clock fresh r identity policy d in
        let k = gateway_execute-Fine P r d h in
        continue-keeps (Fine P) ran.0 ran.1 _ k λ receipt _.
          continue-keeps (Fine P)
            (require
              (status_eq receipt.status verified
                && option_eq (some receipt.receipt_hash) r.execution_receipt_hash)
              _)
            ran.1 _ k λ _ _. k

    resume-Fine :
        (r : Request) (artifact : ActionApproval) (d : Desk W)
        → Fine (Open env r.id) d
        → Fine
            (Open env r.id)
            (continue
              (require (is_some r.consumed_at) (lit "Approval consumption state is invalid."))
              d
              (λ _. run_execution env adapter verify clock fresh r artifact identity policy)).1
    resume-Fine r artifact d h =
        continue-keeps (Fine (Open env r.id)) (require (is_some r.consumed_at) _) d _ h
          λ _ _. run_execution-Fine r artifact d h

    proceed-Fine :
        (status : RequestStatus) (r : Request) (artifact : ActionApproval) (now : ℕ) (d : Desk W)
        → find_request d.memory r.id ≡ ok r
        → Fine (Open env r.id) d
        → Fine
            (Open env r.id)
            (proceed env adapter verify clock fresh status r artifact identity policy now d).1
    unfolding proceed
    proceed-Fine executed r artifact now d found h = repeat_execution-Fine (Open env r.id) r d h
    proceed-Fine approved r artifact now d found h =
        let P = Fine (Open env r.id) in
        let consumed = on_memory (consume env r identity.actor_id now) d in
        let k : P consumed.1 =
          unfold on_memory in
          (consume-Open env r.id r identity.actor_id now d.memory found h.0, h.1) in
        continue-keeps P consumed.0 consumed.1 _ k λ _ _.
          Keeps-bind P (save env)
            (λ _. run_execution env adapter verify clock fresh r artifact identity policy)
            (save-Fine (Open env r.id) (λ s x. x.0)) (λ _. run_execution-Fine r artifact) consumed.1
            k
    proceed-Fine _ r artifact now d found h = resume-Fine r artifact d h

    pub execute_approval-Fine :
        (id : Text) (approval_policy : Policy)
        → Keeps
            (Fine AreQuorate)
            (execute_approval env adapter verify clock fresh id identity policy approval_policy)
    unfolding execute_approval on_memory
    execute_approval-Fine id_value approval_policy d h =
        let P = Fine AreQuorate in
        continue-keeps P (identifier env.safety id_value _) d _ h λ id _.
          continue-keeps P (validate_policy env approval_policy) d _ h λ valid _.
            continue-keeps P (load env d).0 (load env d).1 _ (load-Fine d h) λ _ _.
              continue-keeps P (timestamp (clock 0)) (load env d).1 _ (load-Fine d h) λ now _.
                let u = (load env d).1.memory in
                let checked = check_execution env valid id identity now u in
                let k = check_execution-Keeps env valid id identity now u (load-Fine d h).0 in
                let e : Desk W = record (load env d).1 { memory = checked.1 } in
                continue-keeps P checked.0 e _ (k, (load-Fine d h).1)
                  λ c passed.
                    (let (found, o) =
                        check_execution-Open env valid id identity now u (load-Fine d h).0 passed in
                      let m = proceed-Fine c.0.status c.0 c.1 now e found (o, (load-Fine d h).1) in
                      (m.0.0, m.1))

module _ {W Effect : Type 0} (env : Env) where
  pub execute-Holds :
      (g : Gateway W Effect) (id : Text) (identity : ExecutionIdentity)
      (action_policy : PolicyCheck) (policy : Policy) (o : Office W)
      → Holds env o.inbox
      → Holds env (execute env g id identity action_policy policy o).1.inbox
  unfolding execute empty_state
  execute-Holds g id identity action_policy policy o h =
      (execute_approval-Fine env g.adapter g.verify g.clock g.fresh identity action_policy id policy
        _ (refl, h)).1
