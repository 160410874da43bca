-- ===== src/Trust/Steps/Outcome.antt =====
-- The outcome of an automatic action: it is counted, a violation may demote its target, and too many
-- failures trip it.
use ghostapi.Common.{
  false_of_not, ℕ, Text, lit, ◌≡◌, refl, sym, subst, Bool, true, false, not, ◌&&◌, find, some, none,
  Bool-cases, inl, inr, ◌⊎◌, ok, ok_inj, require, require-eq-ok,
}
use ghostapi.Common.Action.{Keeps, continue-keeps}
use ghostapi.Trust.Types.{
  Env, Level, simulate, shadow, dry_run, approve, bounded_auto, trusted, Target, TargetState, State,
  PromotionPolicy, CanaryOutcome,
}
use ghostapi.Trust.Capabilities.{level_eq, rank}
use ghostapi.Trust.Canary.{canary_decision}
use ghostapi.Trust.Targets.{
  is_for, put_target, counted, demotes as is_demoting, outcome_is_violation, must_open,
}
use ghostapi.Trust.Ladder.{append_audit, demote, trip, record_state}
use ghostapi.Trust.Moves.{demotes, trips, trips_demoted, Reach, next, put-found}
use ghostapi.Trust.Steps.{
  false_ne_true, changed-found, append_audit-targets, Stands, append_audit-Stands, on_target,
  put-Stands, changed-Stands,
}

-- A target that trips, from bounded automation or after a demotion.
abbrev CanTrip : TargetState → Type 0
CanTrip t = (t.is_open ≡ false) × ((t.level ≡ bounded_auto) ⊎ (t.level ≡ approve))

bounded_of : (x : Level) → level_eq x bounded_auto ≡ true → x ≡ bounded_auto
unfolding level_eq rank
bounded_of bounded_auto e = refl
bounded_of simulate e = absurd (false_ne_true e)
bounded_of shadow e = absurd (false_ne_true e)
bounded_of dry_run e = absurd (false_ne_true e)
bounded_of approve e = absurd (false_ne_true e)
bounded_of trusted e = absurd (false_ne_true e)

module _ (env : Env) where
  demote-CanTrip :
      (t : TargetState) (policy : PromotionPolicy) (outcome : CanaryOutcome) (now : ℕ) (s : State)
      {r : TargetState}
      → t.is_open ≡ false
      → t.level ≡ bounded_auto
      → find (is_for t.target) s.targets ≡ some t
      → (demote env t policy outcome now s).0 ≡ ok r
      → CanTrip r × (find (is_for r.target) (demote env t policy outcome now s).1.targets ≡ some r)
  unfolding demote
  demote-CanTrip t policy outcome now s {r} off at found h =
      elim (Bool-cases (outcome_is_violation outcome && is_demoting policy)) [
        | inr e ↦
            (let is = ok_inj (rw (demote, e) at h) in
              rw (demote, e)
                (subst (λ x. CanTrip x × (find (is_for x.target) s.targets ≡ some x)) is
                  ((off, inl at), found)))
        | inl e ↦
            (let k = rw (demote, e) at h in
              let t' : TargetState = record t { level = approve } in
              let (is, there) =
                changed-found env t t' (lit "trust.auto_demoted") (some t.level) (some approve)
                  (lit "policy violation automatically returned trust to approval mode") now s refl
                  found k in
              rw (demote, e, is) ((off, inr refl), there))
      ]

  module _ (l : Level) (b : Bool) (y : Target) where
    tripped : (t : TargetState) → CanTrip t → Reach l b t.level t.is_open → Reach l b t.level true
    tripped t (off, inl at) r =
        rw at
          (next (subst (λ x. Reach l b x false) at (subst (λ x. Reach l b t.level x) off r)) trips)
    tripped t (off, inr at) r = rw at (
        next (subst (λ x. Reach l b x false) at (subst (λ x. Reach l b t.level x) off r))
          trips_demoted)

    trip-Stands :
        (t : TargetState) (policy : PromotionPolicy) (outcome : CanaryOutcome) (now : ℕ) (s : State)
        → CanTrip t
        → find (is_for t.target) s.targets ≡ some t
        → Stands l b y s
        → Stands l b y (trip env t policy outcome now s).1
    unfolding trip
    trip-Stands t policy outcome now s can found h =
        elim (Bool-cases (must_open t policy outcome)) [
          | inr e ↦ rw (trip, e) h
          | inl e ↦
              rw (trip, e)
                (changed-Stands env l b y t (record t { is_open = true }) _ _ _ _ now s refl found
                  (tripped t can) h)
        ]

    -- A violation demotes an automatic target before it can trip, and anything else leaves it there.
    demote-Stands :
        (t : TargetState) (policy : PromotionPolicy) (outcome : CanaryOutcome) (now : ℕ) (s : State)
        → t.is_open ≡ false
        → t.level ≡ bounded_auto
        → find (is_for t.target) s.targets ≡ some t
        → Stands l b y s
        → Stands l b y (demote env t policy outcome now s).1
    unfolding demote
    demote-Stands t policy outcome now s off at found h =
        elim (Bool-cases (outcome_is_violation outcome && is_demoting policy)) [
          | inr e ↦ rw (demote, e) h
          | inl e ↦
              rw (demote, e)
                (changed-Stands env l b y t (record t { level = approve }) _ _ _ _ now s refl found
                  (λ r. rw off (
                    next
                      (subst (λ x. Reach l b x false) at (subst (λ x. Reach l b t.level x) off r))
                      demotes))
                  h)
        ]

    pub record_state-Stands :
        (target : Target) (policy : PromotionPolicy) (outcome : CanaryOutcome) (reason : Text)
        (now : ℕ)
        → Keeps (Stands l b y) (record_state env target policy outcome reason now)
    unfolding record_state counted
    record_state-Stands target policy outcome reason now s h =
        on_target env l b y target now s _ h λ t u k found.
          continue-keeps (Stands l b y) (require (not t.is_open) _) u _ k λ _ closed.
            continue-keeps (Stands l b y) (require (level_eq t.level bounded_auto) _) u _ k
              λ _ is_bounded.
                let d = canary_decision env target policy in
                continue-keeps (Stands l b y) (require d.assigned _) u _ k λ _ _.
                  let t' = counted t outcome now in
                  let v = (put_target t' u).1 in
                  let kv = put-Stands env l b y t t' u refl found (λ r. r) k in
                  let audit = append_audit env (lit "canary.outcome") t' none none reason now in
                  let w = (audit v).1 in
                  let kw =
                    append_audit-Stands env l b y (lit "canary.outcome") t' none none reason now v
                      kv in
                  let same =
                    append_audit-targets env (lit "canary.outcome") t' none none reason now v in
                  let placed : find (is_for t.target) w.targets ≡ some t' =
                    subst (λ x. find (is_for t.target) x ≡ some t') (sym same)
                      (put-found u.targets t' found) in
                  continue-keeps (Stands l b y) (audit v).0 w _ kw λ _ _.
                    (let off = false_of_not (require-eq-ok _ _ closed) in
                      let at = bounded_of t.level (require-eq-ok _ _ is_bounded) in
                      let fell = demote env t' policy outcome now w in
                      let keeps = demote-Stands t' policy outcome now w off at placed kw in
                      continue-keeps (Stands l b y) fell.0 fell.1 _ keeps λ r e.
                        (let (can, there) =
                            demote-CanTrip t' policy outcome now w off at placed e in
                          trip-Stands r policy outcome now fell.1 can there keeps))
