-- ===== src/Safety/Circuit/Allows.antt =====
-- What holds of the controls when `assertActionAllowed` lets an action pass.
use ghostapi.Common.{
  ℕ, ◌≡◌, ◌↔◌, refl, ap, true, false, List, [], ◌∷◌, any, find, find-none, find-any, filter, All,
  Text, lit, none, Option-cases, ok, Result-cases, Bool-cases, inl, inr, arith,
}
use ghostapi.Safety.Types.{Env, Action, Circuit, Entry, State, AuditRecord}
use ghostapi.Safety.Audit.{append_record}
use ghostapi.Safety.Circuit.{
  is_open, is_sample, trip_reason, trip, stops, denies, is_watching, after_circuit,
  evaluate_circuit, evaluate_circuits, evaluate, assert_no_open, assert_not_stopped,
  assert_action_allowed,
}

module _ (env : Env) (a : Action) (now : ℕ) where
  -- A closed circuit whose scope matches is within its thresholds.
  abbrev pub IsCalm : List Entry → Circuit → Type 0
  IsCalm ledger c = is_watching a c ≡ true → trip_reason c (filter (is_sample c now) ledger) ≡ none

  evaluate_circuits-IsCalm :
      (ledger : List Entry) (anchor : Text) (cs : List Circuit) (audit : List AuditRecord)
      → (evaluate_circuits env ledger anchor a now cs audit).0 ≡ ok tt
      → any (evaluate_circuits env ledger anchor a now cs audit).1 (denies a) ≡ false
      → All (IsCalm ledger) cs
  unfolding evaluate_circuits after_circuit evaluate_circuit denies is_watching trip is_open
  evaluate_circuits-IsCalm ledger anchor [] audit h free = tt
  evaluate_circuits-IsCalm ledger anchor (c ∷ cs) audit h free =
      elim (Bool-cases (is_watching a c)) [
        | inr e ↦ (
          λ w. absurd (ground (arith, e, w)),
          evaluate_circuits-IsCalm ledger anchor cs audit (ground (arith, e)) (ground (arith, e)),
        )
        | inl e ↦ elim (Option-cases (trip_reason c (filter (is_sample c now) ledger))) [
          | inl k ↦ (
            λ _. k,
            evaluate_circuits-IsCalm ledger anchor cs audit (ground (arith, e, k))
                (ground (arith, e, k)),
          )
          | inr (why, k) ↦
              elim (Result-cases
                (append_record env anchor audit (lit "circuit.opened") c.id why now none)) [
                  | inl (audit', x) ↦ absurd (ground (arith, e, k, x))
                  | inr (f, x) ↦ absurd (ground (arith, e, k, x))
                ]
        ]
      ]

  evaluate_circuits-calm :
      (ledger : List Entry) (anchor : Text) (cs : List Circuit) (audit : List AuditRecord)
      → All (IsCalm ledger) cs
      → evaluate_circuits env ledger anchor a now cs audit ≡ (ok tt, cs, audit)
  unfolding evaluate_circuits after_circuit evaluate_circuit
  evaluate_circuits-calm ledger anchor [] audit calm = refl
  evaluate_circuits-calm ledger anchor (c ∷ cs) audit (calm, calms) =
      elim (Bool-cases (is_watching a c)) [
        | inr e ↦ ground (arith, e, evaluate_circuits-calm ledger anchor cs audit calms)
        | inl e ↦ ground (arith, e, calm e, evaluate_circuits-calm ledger anchor cs audit calms)
      ]

  -- No kill switch stops the action, no circuit denies it, and none that watches it trips.
  abbrev pub Passes : State → Type 0
  Passes s =
      (any s.switches (stops a) ≡ false)
      × (any s.circuits (denies a) ≡ false)
      × All (IsCalm s.ledger) s.circuits

  assert_action_allowed-inv : (s : State) → (assert_action_allowed env a now s).0 ≡ ok tt → Passes s
  unfolding assert_action_allowed assert_not_stopped assert_no_open evaluate
  assert_action_allowed-inv s h =
      let after = evaluate_circuits env s.ledger s.audit_anchor a now s.circuits s.audit in
      elim (Option-cases (find (stops a) s.switches)) [
        | inr (c, e) ↦ absurd (ground (arith, e))
        | inl e ↦ elim (Option-cases (find (denies a) s.circuits)) [
          | inr (c, k) ↦ absurd (ground (arith, e, k))
          | inl k ↦ elim (Option-cases (find (denies a) after.1)) [
            | inr (c, x) ↦ absurd (ground (arith, e, k, x))
            | inl x ↦ (
              find-none (stops a) s.switches e,
              find-none (denies a) s.circuits k,
              evaluate_circuits-IsCalm s.ledger s.audit_anchor s.circuits s.audit
                  (ground (arith, e, k, x)) (find-none (denies a) after.1 x),
            )
          ]
        ]
      ]

  assert_action_allowed-clear :
      (s : State) → Passes s → assert_action_allowed env a now s ≡ (ok tt, s)
  unfolding assert_action_allowed assert_not_stopped assert_no_open evaluate
  assert_action_allowed-clear s (no_stop, no_open, calm) = ground (
    arith,
    find-any (stops a) s.switches no_stop,
    find-any (denies a) s.circuits no_open,
    evaluate_circuits-calm s.ledger s.audit_anchor s.circuits s.audit calm,
  )

  -- The tests of the code, all on the state as it was.
  pub assert_action_allowed-Passes :
      (s : State)
      → (((assert_action_allowed env a now s).0 ≡ ok tt) ↔ Passes s)
        × (Passes s → assert_action_allowed env a now s ≡ (ok tt, s))
  assert_action_allowed-Passes s = (
    (assert_action_allowed-inv s, λ clear. ap (λ r. r.0) (assert_action_allowed-clear s clear)),
    assert_action_allowed-clear s,
  )
