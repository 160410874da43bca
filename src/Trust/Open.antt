-- ===== src/Trust/Open.antt =====
-- What an open circuit breaker refuses, in every history after it opened.
use ghostapi.Common.{
  ℕ, Text, ◌≡◌, refl, sym, ◌∙◌, subst, Bool, true, not, ◌⊎◌, inl, inr, Option, none, Option-cases,
  List, find, text_eq, Failure, Result, ok, err, Result-cases, require,
}
use ghostapi.Common.Action.{Op, continue}
use ghostapi.Safety.Validate.{text}
use ghostapi.Safety.Validate.Laws.{Gives-eq}
use ghostapi.Trust.Types.{
  Env, Level, approve, Target, TargetState, State, PromotionPolicy, Evidence, Owner, CanaryOutcome,
}
use ghostapi.Trust.Validate.{validate_policy, validate_evidence, validate_target, validate_owner}
use ghostapi.Trust.Store.{Store, read, mutate, persist, timestamp}
use ghostapi.Trust.Targets.{is_for, find_or_create_target}
use ghostapi.Trust.Ladder.{
  assign_state, promote_state, record_state, assign_canary, promote, record_canary_outcome,
}
use ghostapi.Trust.Calls.{Timed, run}
use ghostapi.Trust.Moves.{Move, rolls_back, Reach, here, next, open_of, open_at, level_at}
use ghostapi.Trust.History.{run-Reach, validate_target-Gives}

-- An operation that throws and writes nothing.
abbrev pub IsRefused : {S A : Type 0} → Op S A → S → Type 0
IsRefused m s = (e : Failure) × (m s ≡ (err e, s))

continue-IsRefused :
    {S A B : Type 0} (r : Result A) (s : S) (f : A → Op S B)
    → ((a : A) → r ≡ ok a → IsRefused (f a) s)
    → (e : Failure) × (continue r s f ≡ (err e, s))
continue-IsRefused (ok a) s f h = h a refl
continue-IsRefused (err e) s f h = (e, refl)

Move-open :
    {l l' : Level} {b b' : Bool}
    → Move l b l' b'
    → b ≡ true
    → (b' ≡ true) × ((l' ≡ l) ⊎ (l' ≡ approve))
Move-open rolls_back e = (e, inr refl)
Move-open Move.to_shadow e = cc
Move-open Move.to_approve e = cc
Move-open Move.to_bounded e = cc
Move-open Move.demotes e = cc
Move-open Move.trips e = cc
Move-open Move.trips_demoted e = cc

-- An open circuit breaker stays open, and the level falls to approval at most once.
Reach-open :
    {l : Level} {b : Bool} {l' : Level} {b' : Bool}
    → Reach l b l' b'
    → b ≡ true
    → (b' ≡ true) × ((l' ≡ l) ⊎ (l' ≡ approve))
Reach-open here e = (e, inl refl)
Reach-open (next r m) e =
    let (open_, before) = Reach-open r e in
    let (still, now) = Move-open m open_ in
    (
      still,
      elim now [
        | inr a ↦ inr a
        | inl a ↦ elim before [ inl c ↦ inl (a ∙ c) | inr c ↦ inr (a ∙ c) ]
      ],
    )

module _ (env : Env) (target : Target) where
  -- A mutation that looks the target up and then wants its circuit breaker to be closed.
  mutate-IsRefused :
      {A : Type 0} (clock : Option ℕ) (store : Store) (rest : TargetState → ℕ → Op State A)
      (message : Text)
      → ((s : State) → read env store ≡ ok s → open_at target s.targets ≡ true)
      → IsRefused
          (mutate env clock (λ now s.
            continue
              (find_or_create_target target now s).0
              (find_or_create_target target now s).1
              (λ t u. continue (require (not t.is_open) message) u (λ _. rest t now))))
          store
  unfolding mutate persist find_or_create_target
  mutate-IsRefused clock store rest message is_open = elim (Result-cases (read env store)) [
    | inr (x, e) ↦ (x, rw (mutate, e) refl)
    | inl (s, e) ↦ elim (Result-cases (timestamp clock)) [
      | inr (x, k) ↦ (x, rw (mutate, e, k) refl)
      | inl (now, k) ↦ elim (Option-cases (find (is_for target) s.targets)) [
        | inl n ↦ (let o = subst (λ x. open_of x ≡ true) n (is_open s e) in cc)
        | inr (t, f) ↦ (
          record { message = message; code = none },
          let o : t.is_open ≡ true = subst (λ x. open_of x ≡ true) f (is_open s e) in
              rw (mutate, e, k, find_or_create_target, f, o) refl,
        )
      ]
    ]
  ]

  module _ (clock : Option ℕ) (store : Store)
      (is_open : (s : State) → read env store ≡ ok s → open_at target s.targets ≡ true) where
    promote-IsRefused :
        (level : Level) (policy : PromotionPolicy) (evidence : Evidence) (identity : Result Owner)
        → IsRefused (promote env clock target level policy evidence identity) store
    unfolding promote promote_state
    promote-IsRefused level policy evidence identity =
        continue-IsRefused (validate_target env target) store _ λ t e.
          continue-IsRefused (validate_policy env policy) store _ λ p _.
            continue-IsRefused (validate_evidence env evidence) store _ λ v _.
              continue-IsRefused identity store _ λ given _.
                continue-IsRefused (validate_owner env given) store _ λ owner _.
                  continue-IsRefused (require (text_eq owner.principal_id p.owner_principal_id) _)
                    store _
                    λ _ _.
                      subst
                        (λ x.
                          IsRefused (mutate env clock (promote_state env x level p v owner)) store)
                        (sym (Gives-eq (validate_target-Gives env target) e))
                        (mutate-IsRefused clock store _ _ is_open)

    record-IsRefused :
        (policy : PromotionPolicy) (outcome : CanaryOutcome) (reason : Text)
        → IsRefused (record_canary_outcome env clock target policy outcome reason) store
    unfolding record_canary_outcome record_state
    record-IsRefused policy outcome reason =
        continue-IsRefused (validate_target env target) store _ λ t e.
          continue-IsRefused (validate_policy env policy) store _ λ p _.
            continue-IsRefused (text env.safety reason _ 200) store _ λ r _.
              subst (λ x. IsRefused (mutate env clock (record_state env x p outcome r)) store)
                (sym (Gives-eq (validate_target-Gives env target) e))
                (mutate-IsRefused clock store _ _ is_open)

    assign-IsRefused :
        (policy : PromotionPolicy) → IsRefused (assign_canary env clock target policy) store
    unfolding assign_canary assign_state
    assign-IsRefused policy = continue-IsRefused (validate_target env target) store _ λ t e.
        continue-IsRefused (validate_policy env policy) store _ λ p _.
          subst (λ x. IsRefused (mutate env clock (assign_state env x p)) store)
            (sym (Gives-eq (validate_target-Gives env target) e))
            (mutate-IsRefused clock store _ _ is_open)

-- Once the circuit breaker of a target is open in the file, it is open in every history: what is read
-- has it open, at the level that it had or at approval; and a promotion of the target, an outcome of
-- its canary and an assignment to its canary throw and write nothing.
pub open-IsRefused :
    (env : Env) (store : Store) (s : State) (target : Target) (history : List Timed)
    (clock : Option ℕ) (level : Level) (policy : PromotionPolicy) (evidence : Evidence)
    (identity : Result Owner) (outcome : CanaryOutcome) (reason : Text)
    → read env store ≡ ok s
    → open_at target s.targets ≡ true
    → ((s' : State)
        → read env (run env history store) ≡ ok s'
        → (open_at target s'.targets ≡ true)
          × ((level_at target s'.targets ≡ level_at target s.targets)
              ⊎ (level_at target s'.targets ≡ approve)))
      × IsRefused (promote env clock target level policy evidence identity) (run env history store)
      × IsRefused
          (record_canary_outcome env clock target policy outcome reason)
          (run env history store)
      × IsRefused (assign_canary env clock target policy) (run env history store)
open-IsRefused env store s target history clock level policy evidence identity outcome reason e
      is_open =
    let later = run env history store in
    let stays = λ (s' : State) (e' : read env later ≡ ok s').
      Reach-open (run-Reach env history store s s' target e e') is_open in
    let still = λ (s' : State) (e' : read env later ≡ ok s'). (stays s' e').0 in
    (
      stays,
      promote-IsRefused env target clock later still level policy evidence identity,
      record-IsRefused env target clock later still policy outcome reason,
      assign-IsRefused env target clock later still policy,
    )
