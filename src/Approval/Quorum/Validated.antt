-- ===== src/Approval/Quorum/Validated.antt =====
-- Validation keeps what the quorum of a request is about.
use ghostapi.Common.{
  lit, Text, ◌≡◌, refl, ap, ◌∙◌, sym, subst, Bool, true, false, not, ◌&&◌, ◌||◌, ◌==◌, List, [],
  ◌∷◌, map, map_ok, filter, all, leb, ltb, is_some, inl, if◌then◌else◌, Failure, Result, Yields,
  bind-Yields, ok, err, require, ok_inj, bind-elim, text_eq,
}
use ghostapi.Approval.Audit.{validate_audit, chain_from}
use ghostapi.Approval.Store.{validate_state, max_requests, max_audit}
use ghostapi.Safety.Validate.{unique, array, hash, timestamp, optional, identifier, text, positive}
use ghostapi.Safety.Validate.Laws.{Gives, Gives-bind, Gives-eq, identifier-Gives, array-ok}
use ghostapi.Actions.Validate.{validate_envelope, action_hash}
use ghostapi.Actions.Gives.{validate_envelope-Gives}
use ghostapi.Actions.Types.{ActionEnvelope}
use ghostapi.Approval.Types.{Env, Context, Approver, Decision, Request, State, PolicyRecord}
use ghostapi.Approval.Policy.{classify, risk_eq}
use ghostapi.Approval.Requests.{
  validate_approver, validate_decision, validate_progress, validate_request, policy_record,
  validate_context, display_record, validate_artifact, needs_artifact, needs_consumption,
  is_executed, of_gateway, max_decisions,
}
use ghostapi.Approval.Standing.{is_approval}
use ghostapi.Approval.Quorum.{quorate, approvers_of, AreQuorate}

module _ (env : Env) where
  validate_approver-Gives : (a : Approver) → Gives a (validate_approver env a)
  unfolding validate_approver
  validate_approver-Gives a = Gives-bind _ (identifier-Gives env.safety _ _) (
      Gives-bind _ (identifier-Gives env.safety _ _)
        (Gives-bind _ (identifier-Gives env.safety _ _) (inl refl)))

  validate_decision-Yields :
      (d : Decision)
      → Yields
          (λ c. (is_approval c ≡ is_approval d) × (c.approver ≡ d.approver))
          (validate_decision env d)
  unfolding validate_decision is_approval
  validate_decision-Yields d = bind-Yields _ (identifier env.safety d.id _) _ λ _ _.
      bind-Yields _ (validate_approver env d.approver) _ λ a given.
        bind-Yields _
          (optional (λ r. text env.safety r (lit "Approval decision reason") 200) d.reason) _
          λ _ _. bind-Yields _ (timestamp d.decided_at _) _ λ _ _ c e. (
            ap is_approval (sym (ok_inj e)),
            ap (λ c. c.approver) (sym (ok_inj e))
                ∙ Gives-eq (validate_approver-Gives d.approver) given,
          )

  decisions-approvers :
      (ds : List Decision)
      → Yields (λ cs. approvers_of cs ≡ approvers_of ds) (map_ok (validate_decision env) ds)
  decisions-approvers [] cs e = ap approvers_of (sym (ok_inj e))
  decisions-approvers (d ∷ ds) all_cs h = bind-elim (validate_decision env d) _ h λ c given h1.
      bind-elim (map_ok (validate_decision env) ds) _ h1 λ cs rest e.
        let (kind, approver) = validate_decision-Yields d c given in
        let same = decisions-approvers ds cs rest in
        rw (← ok_inj e) (rw kind (kept c d cs ds (is_approval d) approver same))
    where
      kept :
          (c d : Decision) (cs ds : List Decision) (b : Bool)
          → c.approver ≡ d.approver
          → approvers_of cs ≡ approvers_of ds
          → map (λ x. x.approver) (if b then c ∷ filter is_approval cs else filter is_approval cs)
            ≡ map (λ x. x.approver) (if b then d ∷ filter is_approval ds else filter is_approval ds)
      kept c d cs ds true a same = cc
      kept c d cs ds false a same = same

  policy_record-required :
      (p : PolicyRecord)
      → Yields (λ q. q.required_approvals ≡ p.required_approvals) (policy_record env p)
  unfolding policy_record
  policy_record-required p =
      bind-Yields _ (require (p.required_approvals == 1 || p.required_approvals == 2) _) _ λ _ _.
        bind-Yields _ (identifier env.safety p.id _) _ λ _ _.
          bind-Yields _ (positive p.version _ 100_000) _ λ _ _.
            bind-Yields _ (hash p.hash _) _
              λ _ _ q e. ap (λ x. x.required_approvals) (sym (ok_inj e))

  of_gateway-ok :
      {A : Type 0} (foreign : Failure → Failure) (m : Result A) {a : A}
      → of_gateway foreign m ≡ ok a
      → m ≡ ok a
  of_gateway-ok foreign (ok a) e = e
  of_gateway-ok foreign (err x) e = cc

  -- What a request is of is kept while its progress is checked.
  validate_progress-Yields :
      (P : Request → Type 0) (r : Request) (action : ActionEnvelope) (digest : Text)
      (context : Context) (policy : PolicyRecord) (reasons : List Text) (decisions : List Decision)
      → ((v : Request)
          → v.action ≡ action
          → v.policy ≡ policy
          → v.decisions ≡ decisions
          → v.status ≡ r.status
          → P v)
      → Yields P (validate_progress env r action digest context policy reasons decisions)
  unfolding validate_progress
  validate_progress-Yields P r action digest context policy reasons decisions keeps =
      bind-Yields P (timestamp r.created_at _) _ λ created_at _.
        bind-Yields P (timestamp r.expires_at _) _ λ expires_at _.
          bind-Yields P (timestamp r.escalation_at _) _ λ escalation_at _.
            bind-Yields P (require (ltb created_at expires_at && leb escalation_at expires_at) _) _
              λ _ _.
                bind-Yields P (optional (validate_artifact env digest) r.artifact) _ λ artifact _.
                  bind-Yields P (require (not (needs_artifact r.status) || is_some artifact) _) _
                    λ _ _.
                      bind-Yields P
                        (optional (λ t. timestamp t (lit "Approval consumption time"))
                          r.consumed_at)
                        _
                        λ consumed_at _.
                          bind-Yields P
                            (require (not (needs_consumption r.status) || is_some consumed_at) _) _
                            λ _ _.
                              bind-Yields P
                                (optional (λ h. hash h (lit "Approval execution receipt hash"))
                                  r.execution_receipt_hash)
                                _
                                λ receipt_hash _.
                                  bind-Yields P
                                    (require (not (is_executed r.status) || is_some receipt_hash) _)
                                    _
                                    λ _ _. bind-Yields P (identifier env.safety r.id _) _ λ id _.
                                      bind-Yields P
                                        (optional
                                          (λ x.
                                            identifier env.safety x
                                              (lit "Superseded approval request id"))
                                          r.supersedes_request_id)
                                        _
                                        λ _ _ v e. subst P (ok_inj e) (keeps _ refl refl refl refl)

  pub validate_request-quorate :
      (foreign : Failure → Failure) (r : Request)
      → Yields (λ v. quorate v ≡ quorate r) (validate_request env foreign r)
  unfolding validate_request
  validate_request-quorate foreign r =
      let P : Request → Type 0 = λ v. quorate v ≡ quorate r in
      bind-Yields P (of_gateway foreign (validate_envelope env.host r.action)) _
        λ action read_action. bind-Yields P (hash r.action_hash _) _ λ digest _.
          bind-Yields P (of_gateway foreign (action_hash env.host action)) _ λ expected _.
            bind-Yields P (require (text_eq expected digest) _) _ λ _ _.
              bind-Yields P (classify action) _ λ risk _.
                bind-Yields P (require (risk_eq risk r.risk) _) _ λ _ _.
                  bind-Yields P (validate_context r.context) _ λ context _.
                    bind-Yields P (policy_record env r.policy) _ λ policy read_policy.
                      bind-Yields P (display_record env r.policy_reason) _ λ reasons _.
                        bind-Yields P (array r.decisions _ max_decisions) _ λ given read_given.
                          bind-Yields P (map_ok (validate_decision env) given) _
                            λ decisions read_decisions.
                              validate_progress-Yields P r action digest context policy reasons
                                decisions
                                λ v is_action is_policy are_decisions is_status.
                                  rw
                                    (
                                      is_action
                                          ∙ Gives-eq (validate_envelope-Gives env.host r.action)
                                              (of_gateway-ok foreign _ read_action),
                                      ap (λ p. p.required_approvals) is_policy
                                          ∙ policy_record-required r.policy policy read_policy,
                                      ap approvers_of are_decisions
                                          ∙ decisions-approvers given decisions read_decisions
                                          ∙ ap approvers_of (array-ok r.decisions _ _ read_given),
                                      is_status,
                                    )
                                    refl

  requests-quorate :
      (foreign : Failure → Failure) (rs : List Request)
      → Yields (λ vs. all vs quorate ≡ all rs quorate) (map_ok (validate_request env foreign) rs)
  requests-quorate foreign [] vs e = ap (λ xs. all xs quorate) (sym (ok_inj e))
  requests-quorate foreign (r ∷ rs) all_vs h =
      bind-elim (validate_request env foreign r) _ h λ v valid h1.
        bind-elim (map_ok (validate_request env foreign) rs) _ h1 λ vs rest e. rw (← ok_inj e) (
          ap (λ x. x && all vs quorate) (validate_request-quorate foreign r v valid)
          ∙ ap (λ x. quorate r && x) (requests-quorate foreign rs vs rest))

  pub validate_state-quorate :
      (foreign : Failure → Failure) (s : State)
      → AreQuorate s
      → Yields AreQuorate (validate_state env foreign s)
  unfolding validate_state
  validate_state-quorate foreign s h =
      bind-Yields _ (array s.requests _ max_requests) _ λ given read_given.
        bind-Yields _ (map_ok (validate_request env foreign) given) _ λ requests read_requests.
          bind-Yields _ (unique (map (λ r. r.id) requests) _) _ λ _ _.
            bind-Yields _ (unique (map (λ r. r.action_hash) requests) _) _ λ _ _.
              bind-Yields _ (hash s.audit_anchor _) _ λ anchor _.
                bind-Yields _ (array s.audit _ max_audit) _ λ records _.
                  bind-Yields _ (map_ok (validate_audit env) records) _ λ audit _.
                    bind-Yields _ (chain_from anchor 1 audit) _ λ _ _ v e.
                      subst AreQuorate (ok_inj e) (
                        requests-quorate foreign given requests read_requests
                        ∙ ap (λ rs. all rs quorate) (array-ok s.requests _ _ read_given)
                        ∙ h)
