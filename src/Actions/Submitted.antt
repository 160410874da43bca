-- ===== src/Actions/Submitted.antt =====
-- What `submit` returns is what `inspect` reads.
use ghostapi.Common.{
  ◌≡◌, refl, ap, ◌∙◌, subst, Text, lit, text_eq, text_eq_refl, true, ◌&&◌, none, some, List, [],
  ◌∷◌, leb, ltb, Result, ok, err, Option-cases, inl, inr, require, ok_inj, bind-elim,
}
use ghostapi.Common.Action.{Op, ◌>>◌, pure, continue}
use ghostapi.Safety.Validate.Laws.{Gives-eq}
use ghostapi.Actions.Types.{
  Env, ActionEnvelope, ActionApproval, StoredAction, Receipt, requested, PolicyCheck, Phase,
}
use ghostapi.Actions.Fields.{identifier}
use ghostapi.Actions.Gives.{identifier-Gives, validate_envelope-Gives, validate_stored_action-Gives}
use ghostapi.Actions.Validate.{
  validate_envelope, validate_approval, verify_approval, action_hash, verify_policy,
  action_approval_hash, validate_side_effects,
}
use ghostapi.Actions.Checks.{moment, require_inbox}
use ghostapi.Actions.Records.{
  create_receipt, read_stored_action, require_stored_action, max_action_bytes,
}
use ghostapi.Actions.Adapters.{Stores, put_file}
use ghostapi.Actions.Gateway.{write_stored_action, submit, inspect}
use ghostapi.Actions.Calls.{Gateway}

-- The record that `submit` makes first.
abbrev first_record : ActionEnvelope → Text → ActionApproval → List Receipt → StoredAction
first_record a digest approval receipts = record {
  envelope = a;
  action_hash = digest;
  approval = approval;
  receipts = receipts;
}

-- Inversion of a block that gave a value, with what follows from the parts.
block-elim :
    {S A B P : Type 0} (m : Result A) (s : S) (f : A → Op S B) {b : B} {t : S}
    → continue m s f ≡ (ok b, t)
    → ((a : A) → m ≡ ok a → f a s ≡ (ok b, t) → P)
    → P
block-elim (ok a) s f h k = k a refl h
block-elim (err e) s f h k = cc

module _ {W Effect : Type 0} (env : Env) (g : Gateway W Effect) where
  -- A record that stands on file and can be read.
  abbrev IsOnFile : Text → StoredAction → Stores W → Type 0
  IsOnFile id r t = read_stored_action env (t.files id) ≡ ok (some r)

  new-IsOnFile :
      (id : Text) (x : StoredAction) (s : Stores W) (r : StoredAction) (t : Stores W)
      → leb (env.action_bytes r) max_action_bytes ≡ true
      → (write_stored_action env id x >> pure x) s ≡ (ok r, t)
      → IsOnFile id r t
  unfolding write_stored_action read_stored_action
  new-IsOnFile id x s r t small h = elim (validate_stored_action-Gives env.host x) [
    | inr (f, e) ↦ (let k = rw (write_stored_action, e) at h in cc)
    | inl e ↦
        let k = rw (write_stored_action, e) at h in
        let same : x ≡ r = ok_inj (ap (λ p. p.0) k) in
        let files : put_file id x s.files id ≡ t.files id = ap (λ p. p.1.files id) k in
        let there : read_stored_action env (some r) ≡ ok (some r) = rw (small, rw same at e) refl in
        subst (λ file. read_stored_action env file ≡ ok (some r)) files
          (rw (put_file, text_eq_refl id) (rw same there))
  ]

  kept :
      (id : Text) (s : Stores W) (x r : StoredAction) (t : Stores W)
      → IsOnFile id x s
      → pure x s ≡ (ok r, t)
      → IsOnFile id r t
  kept id s x r t e h =
      let same : x ≡ r = ok_inj (ap (λ p. p.0) h) in
      let stores : s ≡ t = ap (λ p. p.1) h in
      subst (λ u. IsOnFile id r u) stores (e ∙ ap (λ y. ok (some y)) same)

  identified :
      (a : ActionEnvelope) {v : ActionEnvelope}
      → validate_envelope env.host a ≡ ok v
      → identifier env.host a.action_id (lit "Action id") ≡ ok a.action_id
  unfolding validate_envelope
  identified a h = bind-elim (identifier env.host a.operation _) _ h λ operation _ h1.
      bind-elim (validate_side_effects env.host operation a.expected_side_effects) _ h1 λ _ _ h2.
        bind-elim (identifier env.host a.world_id _) _ h2 λ world _ h3.
          bind-elim (require (text_eq a.resource_id world) _) _ h3 λ _ _ h4.
            bind-elim (identifier env.host a.action_id _) _ h4
              λ id e _. e ∙ ap ok (Gives-eq (identifier-Gives env.host a.action_id _) e)

  inspect-IsOnFile :
      (id : Text) (r : StoredAction) (t : Stores W)
      → identifier env.host id (lit "Action id") ≡ ok id
      → IsOnFile id r t
      → inspect env g.adapter g.verify g.clock g.fresh id t ≡ (ok r, t)
  unfolding inspect require_stored_action
  inspect-IsOnFile id r t named file = rw (named, file) refl

  submit-IsOnFile :
      (action : ActionEnvelope) (approval : ActionApproval) (policy : PolicyCheck) (s t : Stores W)
      (r : StoredAction)
      → submit env g.adapter g.verify g.clock g.fresh action approval policy s ≡ (ok r, t)
      → leb (env.action_bytes r) max_action_bytes ≡ true
      → (identifier env.host action.action_id (lit "Action id") ≡ ok action.action_id)
        × IsOnFile action.action_id r t
  unfolding submit
  submit-IsOnFile action approval policy s t r h small =
      block-elim (validate_envelope env.host action) s _ h λ a valid h1.
        let same : a ≡ action = Gives-eq (validate_envelope-Gives env.host action) valid in
        block-elim (validate_approval env.host approval) s _ h1 λ b _ h2.
          block-elim (g.verify Phase.submit a b) s _ h2 λ v _ h3.
            block-elim (require_inbox b v) s _ h3 λ _ _ h4.
              block-elim (moment (g.clock 0)) s _ h4 λ now _ h5.
                block-elim (verify_policy a policy) s _ h5 λ _ _ h6.
                  block-elim (action_hash env.host a) s _ h6 λ digest _ h7.
                    block-elim (read_stored_action env (s.files a.action_id)) s _ h7
                      λ existing was_read h8. (
                        identified action valid,
                        rw (← same) (elim (Option-cases existing) [
                          | inr (x, k) ↦
                              let h9 = rw k at h8 in
                              block-elim (action_approval_hash env.host x.approval) s _ h9
                                λ old _ h10.
                                  block-elim (action_approval_hash env.host b) s _ h10 λ new _ h11.
                                    block-elim
                                      (require (text_eq x.action_hash digest && text_eq old new) _)
                                      s _ h11
                                      λ _ _ h12. kept a.action_id s x r t (was_read ∙ ap ok k) h12
                          | inl k ↦
                              let h9 = rw k at h8 in
                              block-elim (require (ltb now a.expires_at) _) s _ h9 λ _ _ h10.
                                block-elim (verify_approval env.host a b now) s _ h10 λ _ _ h11.
                                  block-elim
                                    (create_receipt env.host (first_record a digest b []) requested
                                      now (g.fresh 0) none none none)
                                    s _ h11
                                    λ receipt _ h12.
                                      new-IsOnFile a.action_id
                                        (first_record a digest b (receipt ∷ [])) s r t small h12
                        ]),
                      )

-- What a `submit` returns, which may be the record that was there, is what an `inspect` of the
-- action then reads, provided that the record is not longer than the limit on files; the `inspect`
-- changes nothing.
pub submit-inspect :
    {W Effect : Type 0} (env : Env) (g g' : Gateway W Effect) (action : ActionEnvelope)
    (approval : ActionApproval) (policy : PolicyCheck) (s t : Stores W) (r : StoredAction)
    → submit env g.adapter g.verify g.clock g.fresh action approval policy s ≡ (ok r, t)
    → leb (env.action_bytes r) max_action_bytes ≡ true
    → inspect env g'.adapter g'.verify g'.clock g'.fresh action.action_id t ≡ (ok r, t)
submit-inspect env g g' action approval policy s t r h small =
    let (named, file) = submit-IsOnFile env g action approval policy s t r h small in
    inspect-IsOnFile env g' action.action_id r t named file
