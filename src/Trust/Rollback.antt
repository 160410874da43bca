-- ===== src/Trust/Rollback.antt =====
-- What a rollback does to the level of its target.
use ghostapi.Common.{
  ℕ, Text, lit, text_eq, ◌≡◌, refl, sym, ap, ◌∙◌, subst, Option, some, find, Result, ok, ok_inj,
  require,
}
use ghostapi.Common.Action.{continue-elim, ◌>>=◌, pure}
use ghostapi.Safety.Validate.{text}
use ghostapi.Safety.Validate.Laws.{Gives-eq}
use ghostapi.Trust.Types.{Env, approve, Target, TargetState, State, PromotionPolicy, Owner}
use ghostapi.Trust.Validate.{validate_policy, validate_target, validate_owner}
use ghostapi.Trust.Store.{Store, read, mutate}
use ghostapi.Trust.Targets.{is_for, find_or_create_target, put_target}
use ghostapi.Trust.Ladder.{append_audit, rollback_state, rollback_to_approval}
use ghostapi.Trust.Moves.{level_of, open_of, level_at, open_at}
use ghostapi.Trust.Steps.{find_or_create-found, changed-found}
use ghostapi.Trust.History.{validate_target-Gives, validate_state-targets, read-targets}
use ghostapi.Trust.Promotion.{find_or_create-stands, mutate-elim}

module _ (env : Env) where
  rollback_state-level :
      (target : Target) (reason : Text) (now : ℕ) (s : State) {r : TargetState}
      → (rollback_state env target reason now s).0 ≡ ok r
      → (level_at target (rollback_state env target reason now s).1.targets ≡ approve)
        × (open_at target (rollback_state env target reason now s).1.targets
            ≡ open_at target s.targets)
  unfolding rollback_state
  rollback_state-level target reason now s h =
      let made = find_or_create_target target now s in
      continue-elim made.0 made.1 _ h λ t is_made h1 whole.
        (let (found, is) = find_or_create-found env target now s is_made in
          let t' : TargetState = record t { level = approve; updated_at = now } in
          let event = lit "trust.rollback_to_approval" in
          let there = subst (λ x. find (is_for x) made.1.targets ≡ some t) (sym is) found in
          let (_, placed) =
            changed-found env t t' event (some t.level) (some approve) reason now made.1 refl there
              h1 in
          let at =
            subst
              (λ x.
                find (is_for x) (
                  ((put_target t' >>= λ _.
                  append_audit env event t' (some t.level) (some approve) reason now >>= λ _.
                  pure t')
                    made.1).1.targets)
                ≡ some t')
              is placed in
          let (_, opened) = find_or_create-stands target now s is_made in
          (
            ap (λ p. level_at target p.1.targets) whole ∙ ap level_of at,
            ap (λ p. open_at target p.1.targets) whole ∙ ap open_of at ∙ opened,
          ))

-- A rollback that succeeds leaves its target at approval in the file, whatever its level was: a target
-- that was only simulated, or not known at all, is raised to it without any evidence. The circuit
-- breaker is as it was.
pub rollback_to_approval-level :
    (env : Env) (clock : Option ℕ) (store : Store) (target : Target) (policy : PromotionPolicy)
    (identity : Result Owner) (reason : Text) (r : TargetState) (s s' : State)
    → (rollback_to_approval env clock target policy identity reason store).0 ≡ ok r
    → read env store ≡ ok s
    → read env (rollback_to_approval env clock target policy identity reason store).1 ≡ ok s'
    → (level_at target s'.targets ≡ approve)
      × (open_at target s'.targets ≡ open_at target s.targets)
unfolding rollback_to_approval
rollback_to_approval-level env clock store target policy identity reason r s s' h before after =
    continue-elim (validate_target env target) store _ h λ x is_target h1 w1.
      continue-elim (validate_policy env policy) store _ h1 λ p _ h2 w2.
        continue-elim identity store _ h2 λ given _ h3 w3.
          continue-elim (validate_owner env given) store _ h3 λ owner _ h4 w4.
            continue-elim (text env.safety reason _ 200) store _ h4 λ message _ h5 w5.
              continue-elim (require (text_eq owner.principal_id p.owner_principal_id) _) store _ h5
                λ _ _ h6 w6.
                  let same = Gives-eq (validate_target-Gives env target) is_target in
                  let m = λ (y : Target). mutate env clock (rollback_state env y message) store in
                  mutate-elim env clock (rollback_state env target message) store
                    (subst (λ y. (m y).0 ≡ ok r) same h6)
                    λ u now was_read _ gave valid was_valid whole.
                      (let is : s ≡ u = ok_inj (sym before ∙ was_read) in
                        let ended =
                          w1 ∙ w2 ∙ w3 ∙ w4 ∙ w5 ∙ w6 ∙ subst (λ y. m x ≡ m y) same refl ∙ whole in
                        let written = subst (λ q. read env q.1 ≡ ok s') ended after in
                        let targets =
                          read-targets env valid s' written
                          ∙ validate_state-targets env (rollback_state env target message now u).1
                              valid was_valid in
                        let (at, opened) = rollback_state-level env target message now u gave in
                        (
                          ap (level_at target) targets ∙ at,
                          ap (open_at target) targets
                              ∙ opened
                              ∙ ap (λ z. open_at target z.targets) (sym is),
                        ))
