-- ===== src/Trust/Steps.antt =====
-- Every mutation of the ladder moves its target along the machine, and leaves the others alone.
pub mod Outcome
use ghostapi.Common.{
  both, false_of_not, ℕ, Text, lit, ◌≡◌, refl, if◌then◌else◌, sym, ap, ◌∙◌, subst, Bool, true,
  false, not, ◌&&◌, ◌||◌, leb, length, find, find-append-none, find-append-some, Option, none, some,
  Option-cases, Bool-cases, inl, inr, ◌⊎◌, List, [], ◌∷◌, ◌++◌, ok, ok_inj, require, require-eq-ok,
  arith,
}
use ghostapi.Common.Action.{
  Op, Keeps, Keeps-bind, Leaves, continue, continue-keeps, continue-elim, ◌>>=◌, pure,
}
use ghostapi.Trust.Types.{
  Env, Level, simulate, shadow, dry_run, approve, bounded_auto, trusted, Target, TargetState, State,
  PromotionPolicy, Evidence, Owner, CanaryOutcome,
}
use ghostapi.Trust.Capabilities.{
  level_eq, rank, local_capabilities, capability_for, next_supported_level, levels_after,
  first_supported,
}
use ghostapi.Trust.Evidence.{assert_promotion_evidence}
use ghostapi.Trust.Canary.{same_target, canary_decision, comparison_evidence}
use ghostapi.Trust.Validate.{max_targets}
use ghostapi.Trust.Targets.{
  is_for, created, find_or_create_target, put_target, require_level, is_next, counted,
  demotes as is_demoting, outcome_is_violation, must_open,
}
use ghostapi.Trust.Ladder.{
  append_audit, assign_state, compare_state, promote_state, demote, trip, record_state,
  rollback_state,
}
use ghostapi.Trust.Moves.{
  Rise, Rise-Move, to_shadow, to_approve, from_dry_run, to_bounded, demotes, trips, trips_demoted,
  rolls_back, Reach, next, level_of, open_of, Follows, put-Follows, put-found, same_target_refl,
  found-target,
}

pub false_ne_true : false ≡ true → ⊥
false_ne_true e = cc

not_next :
    {A : Type 0} (level : Level) {o p : Option Level}
    → ok p ≡ ok o
    → is_next p level ≡ false
    → is_next o level ≡ true
    → A
not_next level h differs e =
    absurd (false_ne_true (sym differs ∙ ap (λ x. is_next x level) (ok_inj h) ∙ e))

-- The level that comes next in the code is the next one.
pub next-Rise :
    (from level : Level) {o : Option Level}
    → next_supported_level local_capabilities from ≡ ok o
    → is_next o level ≡ true
    → Rise from level
unfolding next_supported_level levels_after first_supported capability_for level_eq rank is_next
next-Rise simulate shadow h e = Rise.to_shadow
next-Rise simulate level h e = not_next level h refl e
next-Rise shadow approve h e = Rise.to_approve
next-Rise shadow level h e = not_next level h refl e
next-Rise dry_run approve h e = Rise.from_dry_run
next-Rise dry_run level h e = not_next level h refl e
next-Rise approve bounded_auto h e = Rise.to_bounded
next-Rise approve level h e = not_next level h refl e
next-Rise bounded_auto level h e = not_next level h refl e
next-Rise trusted level h e = not_next level h refl e

created-Follows :
    (l : Level) (b : Bool) (y target : Target) (now : ℕ) (ts : List TargetState)
    → find (is_for target) ts ≡ none
    → Follows l b y ts
    → Follows l b y (ts ++ created target now ∷ [])
unfolding created
created-Follows l b y target now ts absent h = elim (Option-cases (find (is_for y) ts)) [
  | inr (t, e) ↦
      subst (λ o. Reach l b (level_of o) (open_of o))
        (e ∙ sym (find-append-some (is_for y) ts (created target now ∷ []) e)) h
  | inl e ↦
      (let is = find-append-none (is_for y) ts (created target now ∷ []) e in
        let k : Reach l b simulate false = subst (λ o. Reach l b (level_of o) (open_of o)) e h in
        let P : Option TargetState → Type 0 = λ o. Reach l b (level_of o) (open_of o) in
        subst P (sym is) (fresh P k (same_target target y)))
]
  where
    fresh :
        (P : Option TargetState → Type 0)
        → Reach l b simulate false
        → (test : Bool)
        → Reach l b
            (level_of (if test then some (created target now) else none))
            (open_of (if test then some (created target now) else none))
    fresh P k true = k
    fresh P k false = k

abbrev pub Stands : Level → Bool → Target → State → Type 0
Stands l b y s = Follows l b y s.targets

module _ (env : Env) where
  pub append_audit-targets :
      (event : Text) (t : TargetState) (from to : Option Level) (reason : Text) (now : ℕ)
      → Leaves (λ s. s.targets) (append_audit env event t from to reason now)
  unfolding append_audit
  append_audit-targets event t from to reason now s = ground arith

  pub find_or_create-found :
      (target : Target) (now : ℕ) (s : State) {t : TargetState}
      → (find_or_create_target target now s).0 ≡ ok t
      → (find (is_for target) (find_or_create_target target now s).1.targets ≡ some t)
        × (t.target ≡ target)
  unfolding find_or_create_target created
  find_or_create-found target now s {t} h = elim (Option-cases (find (is_for target) s.targets)) [
    | inr (x, e) ↦
        let is = ok_inj (rw (find_or_create_target, e) at h) in
        rw (find_or_create_target, e)
          (e ∙ ap some is, found-target target s.targets (e ∙ ap some is))
    | inl e ↦ elim (Bool-cases (leb max_targets (length s.targets))) [
      | inl full ↦ (let k = rw (find_or_create_target, e, full) at h in cc)
      | inr room ↦
          let is = ok_inj (rw (find_or_create_target, e, room) at h) in
          rw (find_or_create_target, e, room)
            (
              find-append-none (is_for target) s.targets (created target now ∷ []) e
                  ∙ rw (same_target_refl target) (ap some is),
              ap (λ x. x.target) (sym is),
            )
    ]
  ]

  -- What an assignment with its audit record gives is found where it was put.
  pub changed-found :
      (t t' : TargetState) (event : Text) (from to : Option Level) (reason : Text) (now : ℕ)
      (s : State) {r : TargetState}
      → t'.target ≡ t.target
      → find (is_for t.target) s.targets ≡ some t
      → ((put_target t' >>= λ _. append_audit env event t' from to reason now >>= λ _. pure t') s).0
        ≡ ok r
      → (r ≡ t')
        × (find
              (is_for t'.target)
              ((put_target t' >>= λ _.
                  append_audit env event t' from to reason now >>= λ _. pure t')
                s).1.targets
            ≡ some t')
  changed-found t t' event from to reason now s {r} same found h =
      let u = (put_target t' s).1 in
      let placed =
        put-found s.targets t' (subst (λ x. find (is_for x) s.targets ≡ some t) (sym same) found) in
      continue-elim (append_audit env event t' from to reason now u).0 _ _ h λ _ _ e whole. (
        sym (ok_inj e),
        subst (λ x. find (is_for t'.target) x ≡ some t')
            (sym (ap (λ p. p.1.targets) whole ∙ append_audit-targets event t' from to reason now u))
            placed,
      )

  module _ (l : Level) (b : Bool) (y : Target) where
    pub append_audit-Stands :
        (event : Text) (t : TargetState) (from to : Option Level) (reason : Text) (now : ℕ)
        → Keeps (Stands l b y) (append_audit env event t from to reason now)
    append_audit-Stands event t from to reason now s h =
        rw (append_audit-targets event t from to reason now s) h

    -- A target is found where it was made, and making it moves nobody.
    pub find_or_create-Stands :
        (target : Target) (now : ℕ) (s : State)
        → Stands l b y s
        → Stands l b y (find_or_create_target target now s).1
    unfolding find_or_create_target
    find_or_create-Stands target now s h = elim (Option-cases (find (is_for target) s.targets)) [
      | inr (t, e) ↦ rw (find_or_create_target, e) h
      | inl e ↦ elim (Bool-cases (leb max_targets (length s.targets))) [
        | inl full ↦ rw (find_or_create_target, e, full) h
        | inr room ↦
            rw (find_or_create_target, e, room) (created-Follows l b y target now s.targets e h)
      ]
    ]

    -- An assignment that makes a move, with its audit record.
    pub put-Stands :
        (t t' : TargetState) (s : State)
        → t'.target ≡ t.target
        → find (is_for t.target) s.targets ≡ some t
        → (Reach l b t.level t.is_open → Reach l b t'.level t'.is_open)
        → Stands l b y s
        → Stands l b y (put_target t' s).1
    put-Stands t t' s same found moves h =
        put-Follows l b y s.targets t'
          (subst (λ x. find (is_for x) s.targets ≡ some t) (sym same) found) moves h

    pub on_target :
        {B : Type 0} (target : Target) (now : ℕ) (s : State) (f : TargetState → Op State B)
        → Stands l b y s
        → ((t : TargetState) (u : State)
            → Stands l b y u
            → find (is_for t.target) u.targets ≡ some t
            → Stands l b y (f t u).1)
        → Stands l b y
            (continue
              (find_or_create_target target now s).0
              (find_or_create_target target now s).1
              f).1
    on_target target now s f h keeps =
        let made = find_or_create_target target now s in
        let k = find_or_create-Stands target now s h in
        continue-keeps (Stands l b y) made.0 made.1 f k λ t e.
          let (found, is) = find_or_create-found target now s e in
          keeps t made.1 k (subst (λ x. find (is_for x) made.1.targets ≡ some t) (sym is) found)

    -- A target that is put and recorded.
    pub changed-Stands :
        (t t' : TargetState) (event : Text) (from to : Option Level) (reason : Text) (now : ℕ)
        (s : State)
        → t'.target ≡ t.target
        → find (is_for t.target) s.targets ≡ some t
        → (Reach l b t.level t.is_open → Reach l b t'.level t'.is_open)
        → Stands l b y s
        → Stands l b y
            ((put_target t' >>= λ _. append_audit env event t' from to reason now >>= λ _. pure t')
              s).1
    changed-Stands t t' event from to reason now s same found moves h =
        Keeps-bind (Stands l b y) (append_audit env event t' from to reason now) (λ _. pure t')
          (append_audit-Stands event t' from to reason now) (λ _ _ x. x) (put_target t' s).1
          (put-Stands t t' s same found moves h)

    pub assign_state-Stands :
        (target : Target) (policy : PromotionPolicy) (now : ℕ)
        → Keeps (Stands l b y) (assign_state env target policy now)
    unfolding assign_state
    assign_state-Stands target policy now s h =
        on_target target now s _ h
          λ t u k _. continue-keeps (Stands l b y) (require (not t.is_open) _) u _ k λ _ _. k

    pub compare_state-Stands :
        (target : Target) (level : Level) (event predicted actual same different : Text) (now : ℕ)
        → Keeps
            (Stands l b y)
            (compare_state env target level event predicted actual same different now)
    unfolding compare_state
    compare_state-Stands target level event predicted actual same different now s h =
        on_target target now s _ h λ t u k _.
          continue-keeps (Stands l b y) (require (not t.is_open) _) u _ k λ _ _.
            continue-keeps (Stands l b y) (require_level t level) u _ k λ _ _.
              let c = comparison_evidence target level predicted actual now in
              let reason = if c.matched then same else different in
              Keeps-bind (Stands l b y) (append_audit env event t none none reason now)
                (λ _. pure c) (append_audit-Stands event t none none reason now) (λ _ _ x. x) u k

    pub promote_state-Stands :
        (target : Target) (level : Level) (policy : PromotionPolicy) (evidence : Evidence)
        (owner : Owner) (now : ℕ)
        → Keeps (Stands l b y) (promote_state env target level policy evidence owner now)
    unfolding promote_state
    promote_state-Stands target level policy evidence owner now s h =
        on_target target now s _ h λ t u k found.
          continue-keeps (Stands l b y) (require (not t.is_open) _) u _ k λ _ closed.
            continue-keeps (Stands l b y) (capability_for local_capabilities level) u _ k λ c _.
              continue-keeps (Stands l b y) (require c.supported _) u _ k λ _ _.
                continue-keeps (Stands l b y) (next_supported_level local_capabilities t.level) u _
                  k
                  λ o is_after.
                    continue-keeps (Stands l b y) (require (is_next o level) _) u _ k λ _ follows.
                      continue-keeps (Stands l b y) (assert_promotion_evidence evidence policy now)
                        u _ k
                        λ _ _.
                          let d = canary_decision env target policy in
                          continue-keeps (Stands l b y)
                            (require (not c.requires_canary || d.assigned) _) u _ k
                            λ _ _.
                              let t' : TargetState = record t { level = level; updated_at = now } in
                              let off = false_of_not (require-eq-ok _ _ closed) in
                              let move =
                                Rise-Move
                                  (next-Rise t.level level is_after (require-eq-ok _ _ follows)) in
                              changed-Stands t t' (lit "trust.promoted") (some t.level) (some level)
                                (lit "verified owner "
                                  ++ owner.principal_id
                                  ++ lit " approved promotion")
                                now u refl found
                                (λ r. rw off (next (subst (λ x. Reach l b t.level x) off r) move)) k

    pub rollback_state-Stands :
        (target : Target) (reason : Text) (now : ℕ)
        → Keeps (Stands l b y) (rollback_state env target reason now)
    unfolding rollback_state
    rollback_state-Stands target reason now s h = on_target target now s _ h λ t u k found.
        changed-Stands t (record t { level = approve; updated_at = now }) _ _ _ reason now u refl
          found (λ r. next r rolls_back) k
