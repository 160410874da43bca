-- ===== src/Trust/Promotion.antt =====
-- What a promotion that succeeds rests on.
use ghostapi.Common.{
  false_of_not, ℕ, ◌<◌, lit, text_eq, text_eq_sound, ◌≡◌, refl, sym, ap, ◌∙◌, subst, Bool, true,
  false, not, ◌||◌, ◌++◌, Option, none, some, Option-cases, Bool-cases, find, leb, length, inl, inr,
  Result, ok, err, ok_inj, Result-cases, require, require-eq-ok, Yields, bind-Yields, arith,
}
use ghostapi.Common.Action.{Op, continue-elim}
use ghostapi.Safety.Validate.{positive, non_negative, bps, bounded_ms, identifier}
use ghostapi.Safety.Validate.Laws.{Gives-eq}
use ghostapi.Trust.Types.{
  Env, Level, bounded_auto, Target, TargetState, State, PromotionPolicy, Evidence, Owner,
  Capability,
}
use ghostapi.Trust.Capabilities.{
  level_eq, rank, local_capabilities, capability_for, next_supported_level,
}
use ghostapi.Trust.Validate.{
  max_targets, max_evals, identifiers, validate_policy, validate_evidence, validate_target,
  validate_owner,
}
use ghostapi.Trust.Evidence.{assert_promotion_evidence}
use ghostapi.Trust.Canary.{canary_decision}
use ghostapi.Trust.Store.{Store, read, mutate, persist, validate_state, timestamp}
use ghostapi.Trust.Targets.{is_for, created, find_or_create_target, put_target, is_next}
use ghostapi.Trust.Ladder.{append_audit, promote_state, promote}
use ghostapi.Trust.Moves.{Rise, level_at, open_at}
use ghostapi.Trust.Steps.{next-Rise}
use ghostapi.Trust.History.{validate_target-Gives}
use ghostapi.Trust.Convincing.{IsConvincing, assert_promotion_evidence-IsConvincing}

-- The policy, evidence and owner as they are validated; the owner is the policy's, the target was not
-- tripped and the level is the one supported level after its own, the evidence is convincing at the
-- time, and a target that is to act by itself is in the policy's canary.
pub record IsJustified (env : Env) (clock : Option ℕ) (store : Store) (target : Target)
    (level : Level) (policy : PromotionPolicy) (evidence : Evidence) (identity : Result Owner)
    : Type 0 where
  pub state : State
  pub now : ℕ
  pub valid_policy : PromotionPolicy
  pub valid_evidence : Evidence
  pub given : Owner
  pub owner : Owner
  pub was_read : read env store ≡ ok state
  pub at_time : clock ≡ some now
  pub of_policy : validate_policy env policy ≡ ok valid_policy
  pub of_evidence : validate_evidence env evidence ≡ ok valid_evidence
  pub authenticated : identity ≡ ok given
  pub of_owner : validate_owner env given ≡ ok owner
  pub is_owner : owner.principal_id ≡ valid_policy.owner_principal_id
  pub closed : open_at target state.targets ≡ false
  pub comes_next : Rise (level_at target state.targets) level
  pub convincing : IsConvincing valid_evidence valid_policy now
  pub in_canary : level ≡ bounded_auto → (canary_decision env target valid_policy).assigned ≡ true

validate_policy-runs :
    (env : Env) (policy : PromotionPolicy)
    → Yields (λ p. 0 < p.minimum_runs) (validate_policy env policy)
unfolding validate_policy positive
validate_policy-runs env p =
    let P : PromotionPolicy → Type 0 = λ q. 0 < q.minimum_runs in
    bind-Yields P (identifier env.safety p.id _) _ λ _ _.
      bind-Yields P (identifier env.safety p.owner_principal_id _) _ λ _ _.
        bind-Yields P (positive p.minimum_runs (lit "Trust minimum runs") 1_000_000) _
          λ runs is_positive.
            bind-Yields P (identifiers env p.required_eval_ids _ max_evals false) _ λ _ _.
              bind-Yields P (bps p.max_violation_rate_bps _) _ λ _ _.
                bind-Yields P (bps p.max_error_rate_bps _) _ λ _ _.
                  bind-Yields P (bounded_ms p.evidence_freshness_ms _) _ λ _ _.
                    bind-Yields P (identifiers env p.canary.tenant_ids _ max_targets true) _ λ _ _.
                      bind-Yields P (identifiers env p.canary.resource_ids _ max_targets true) _
                        λ _ _. bind-Yields P (bps p.canary.percentage_bps _) _ λ _ _.
                          bind-Yields P (non_negative p.max_violations _ 1_000_000) _ λ _ _.
                            bind-Yields P (non_negative p.max_errors _ 1_000_000) _
                              λ _ _ q e. subst P (ok_inj e) (ground arith)

-- The target that is found or made stands as the state says.
pub find_or_create-stands :
    (target : Target) (now : ℕ) (s : State) {t : TargetState}
    → (find_or_create_target target now s).0 ≡ ok t
    → (t.level ≡ level_at target s.targets) × (t.is_open ≡ open_at target s.targets)
unfolding find_or_create_target created
find_or_create-stands target now s {t} h = elim (Option-cases (find (is_for target) s.targets)) [
  | inr (x, e) ↦
      let is = ok_inj (rw (find_or_create_target, e) at h) in
      rw e (ap (λ y. y.level) (sym is), ap (λ y. y.is_open) (sym is))
  | inl e ↦ elim (Bool-cases (leb max_targets (length s.targets))) [
    | inl full ↦ (let k = rw (find_or_create_target, e, full) at h in cc)
    | inr room ↦
        let is = ok_inj (rw (find_or_create_target, e, room) at h) in
        rw e (ap (λ y. y.level) (sym is), ap (λ y. y.is_open) (sym is))
  ]
]

timestamp-some : (clock : Option ℕ) {now : ℕ} → timestamp clock ≡ ok now → clock ≡ some now
unfolding timestamp
timestamp-some none h = cc
timestamp-some (some t) h = ap some (ok_inj h)

needs_canary :
    (level : Level) (c : Capability)
    → level ≡ bounded_auto
    → capability_for local_capabilities level ≡ ok c
    → (assigned : Bool) → (not c.requires_canary || assigned) ≡ true
    → assigned ≡ true
unfolding capability_for level_eq rank
needs_canary level c is e assigned h =
    let found = subst (λ l. capability_for local_capabilities l ≡ ok c) is e in
    let wants : c.requires_canary ≡ true = ap (λ x. x.requires_canary) (sym (ok_inj found)) in
    rw wants at h

module _ (env : Env) where
  persist-ok :
      {A : Type 0} (r : Result A × State) (store : Store) {a : A}
      → (persist env r store).0 ≡ ok a
      → (r.0 ≡ ok a)
        × ((valid : State) × (validate_state env r.1 ≡ ok valid)
            × (persist env r store ≡ (ok a, some valid)))
  unfolding persist
  persist-ok (err x, t) store h = cc
  persist-ok (ok b, t) store {a} h = elim (Result-cases (validate_state env t)) [
    | inr (x, e) ↦ (let y = rw (persist, e) at h in cc)
    | inl (v, e) ↦
        let is : ok b ≡ ok a = rw (persist, e) at h in
        (is, (v, e, rw (persist, e) (λ i. (is i, some v))))
  ]

  -- Inversion of a mutation that gave a value.
  pub mutate-elim {ℓ} :
      {A : Type 0} {P : Type ℓ} (clock : Option ℕ) (operation : ℕ → Op State A) (store : Store)
      {a : A}
      → (mutate env clock operation store).0 ≡ ok a
      → ((s : State) (now : ℕ)
          → read env store ≡ ok s
          → timestamp clock ≡ ok now
          → (operation now s).0 ≡ ok a
          → (valid : State) → validate_state env (operation now s).1 ≡ ok valid
          → mutate env clock operation store ≡ (ok a, some valid)
          → P)
      → P
  unfolding mutate persist
  mutate-elim clock operation store {a} h k = elim (Result-cases (read env store)) [
    | inr (x, e) ↦ (let y = rw (mutate, e) at h in cc)
    | inl (s, e) ↦ elim (Result-cases (timestamp clock)) [
      | inr (x, t) ↦ (let y = rw (mutate, e, t) at h in cc)
      | inl (now, t) ↦
          let is : mutate env clock operation store ≡ persist env (operation now s) store =
            rw (mutate, e, t) refl in
          let (gave, (valid, was_valid, whole)) =
            persist-ok (operation now s) store (ap (λ p. p.0) (sym is) ∙ h) in
          k s now e t gave valid was_valid (is ∙ whole)
    ]
  ]

  promote_state-checked :
      (target : Target) (level : Level) (p : PromotionPolicy) (v : Evidence) (owner : Owner)
      (now : ℕ) (s : State) {r : TargetState}
      → 0 < p.minimum_runs
      → (promote_state env target level p v owner now s).0 ≡ ok r
      → (r.level ≡ level)
        × (open_at target s.targets ≡ false)
        × Rise (level_at target s.targets) level
        × IsConvincing v p now
        × (level ≡ bounded_auto → (canary_decision env target p).assigned ≡ true)
  unfolding promote_state
  promote_state-checked target level p v owner now s {r} runs h =
      let made = find_or_create_target target now s in
      continue-elim made.0 made.1 _ h λ t is_made h1 _.
        continue-elim (require (not t.is_open) _) _ _ h1 λ _ closed h2 _.
          continue-elim (capability_for local_capabilities level) _ _ h2 λ c is_capability h3 _.
            continue-elim (require c.supported _) _ _ h3 λ _ _ h4 _.
              continue-elim (next_supported_level local_capabilities t.level) _ _ h4
                λ o is_after h5 _.
                  continue-elim (require (is_next o level) _) _ _ h5 λ _ follows h6 _.
                    continue-elim (assert_promotion_evidence v p now) _ _ h6 λ _ checked h7 _.
                      let d = canary_decision env target p in
                      continue-elim (require (not c.requires_canary || d.assigned) _) _ _ h7
                        λ _ canary h8 _.
                          let t' : TargetState = record t { level = level; updated_at = now } in
                          let u = (put_target t' made.1).1 in
                          let (at, opened) = find_or_create-stands target now s is_made in
                          continue-elim
                            (append_audit env (lit "trust.promoted") t' (some t.level) (some level)
                              (lit "verified owner "
                                ++ owner.principal_id
                                ++ lit " approved promotion")
                              now u).0
                            _ _ h8
                            λ _ _ h9 _. (
                              ap (λ x. x.level) (sym (ok_inj h9)),
                              sym opened ∙ false_of_not (require-eq-ok _ _ closed),
                              subst (λ x. Rise x level) at
                                  (next-Rise t.level level is_after (require-eq-ok _ _ follows)),
                              (assert_promotion_evidence-IsConvincing v p now runs).0 checked,
                              λ is.
                                  needs_canary level c is is_capability d.assigned
                                    (require-eq-ok _ _ canary),
                            )

  -- A promotion that succeeds gives the target at the level that was asked for, and is justified: the
  -- owner is the policy's, the target was not tripped, the level is the one supported level after the
  -- target's in the file, the evidence is convincing at the time, and a target that is to act by itself
  -- is in the policy's canary.
  pub promote-IsJustified :
      (clock : Option ℕ) (store : Store) (target : Target) (level : Level)
      (policy : PromotionPolicy) (evidence : Evidence) (identity : Result Owner) (r : TargetState)
      → (promote env clock target level policy evidence identity store).0 ≡ ok r
      → (r.level ≡ level) × IsJustified env clock store target level policy evidence identity
  unfolding promote
  promote-IsJustified clock store target level policy evidence identity r h =
      continue-elim (validate_target env target) store _ h λ x is_target h1 _.
        continue-elim (validate_policy env policy) store _ h1 λ p of_policy h2 _.
          continue-elim (validate_evidence env evidence) store _ h2 λ v of_evidence h3 _.
            continue-elim identity store _ h3 λ given authenticated h4 _.
              continue-elim (validate_owner env given) store _ h4 λ owner of_owner h5 _.
                continue-elim (require (text_eq owner.principal_id p.owner_principal_id) _) store _
                  h5
                  λ _ is_owner h6 _.
                    let same = Gives-eq (validate_target-Gives env target) is_target in
                    mutate-elim clock (promote_state env target level p v owner) store
                      (subst
                        (λ y.
                          (mutate env clock (promote_state env y level p v owner) store).0 ≡ ok r)
                        same h6)
                      λ s now was_read at gave _ _ _.
                        (let (is, closed, comes_next, convincing, in_canary) =
                            promote_state-checked target level p v owner now s
                              (validate_policy-runs env policy p of_policy) gave in
                          (
                            is,
                            record {
                              state = s;
                              now = now;
                              valid_policy = p;
                              valid_evidence = v;
                              given = given;
                              owner = owner;
                              was_read = was_read;
                              at_time = timestamp-some clock at;
                              of_policy = of_policy;
                              of_evidence = of_evidence;
                              authenticated = authenticated;
                              of_owner = of_owner;
                              is_owner = text_eq_sound _ _ (require-eq-ok _ _ is_owner);
                              closed = closed;
                              comes_next = comes_next;
                              convincing = convincing;
                              in_canary = in_canary;
                            },
                          ))
