-- ===== src/Safety/Circuit/Clear.antt =====
-- When `assertActionAllowed` lets an action pass, said without the tests of the code.
use native.Mathlib.Nat.{div-lt_iff_lt-mul}
use ghostapi.Common.{
  ℕ, ◌+◌, ◌*◌, ◌/◌, ◌≤◌, ◌<◌, ◌≡◌, refl, sym, ◌∙◌, subst, ◌↔◌, ◌⊎◌, inl, inr, Bool, true, false,
  not, ◌&&◌, ◌==◌, none, Option-cases, Bool-cases, List, [], ◌∷◌, length, filter, any, All, ltb,
  ltb→le, ltb→lt, lt→ltb, ok, arith,
}
use ghostapi.Safety.Types.{
  Env, Action, Circuit, CircuitState, closed, opened, Switch, Entry, Outcome, State,
}
use ghostapi.Safety.Circuit.{
  is_open, is_sample, outcome_is, rate_bps, trip_reason, stops, denies, is_watching,
  assert_action_allowed,
}
use ghostapi.Safety.Circuit.Allows.{IsCalm, Passes, assert_action_allowed-Passes}
use ghostapi.Safety.Circuit.Samples.{
  Covers, scope_matches_iff, Counts, filter-Counts, Counts-filter, length-filter-filter, IsSample,
  Sampled, is_sample-IsSample, IsSample-is_sample, outcome_is_lem, any_samples,
}

-- The thresholds on the counts: as many failures as are below the next basis point above the rate, as
-- many violations and mismatches as are allowed, and no sample that took longer.
pub record IsBelow (c : Circuit) (now : ℕ) (ledger : List Entry)
    (total failures violations mismatches : ℕ) : Type 0 where
  pub rate : (total ≡ 0) ⊎ (failures * 10_000 < (c.max_failure_rate_bps + 1) * total)
  pub few_violations : violations ≤ c.max_policy_violations
  pub few_mismatches : mismatches ≤ c.max_reconciliation_mismatches
  pub fast : All (λ e. (o : Outcome) → IsSample c now e o → o.latency_ms ≤ c.max_latency_ms) ledger

-- There are fewer samples than a circuit needs, or they are below its thresholds.
pub record IsWithin (c : Circuit) (now : ℕ) (ledger : List Entry) : Type 0 where
  pub total : ℕ
  pub failures : ℕ
  pub violations : ℕ
  pub mismatches : ℕ
  pub samples : Counts (Sampled c now (λ _. Unit)) ledger total
  pub failed : Counts (Sampled c now (λ o. o.success ≡ false)) ledger failures
  pub violated : Counts (Sampled c now (λ o. o.policy_violation ≡ true)) ledger violations
  pub mismatched : Counts (Sampled c now (λ o. o.reconciliation_mismatch ≡ true)) ledger mismatches
  pub within :
      (total < c.minimum_samples) ⊎ IsBelow c now ledger total failures violations mismatches

-- No enabled kill switch covers the action, no open circuit does, and every closed one that does is
-- within its thresholds on the ledger at the time.
pub record IsClear (a : Action) (now : ℕ) (s : State) : Type 0 where
  pub no_switch : All (λ (c : Switch). c.enabled ≡ true → ¬ Covers c.scope a) s.switches
  pub no_open : All (λ (c : Circuit). c.state ≡ opened → ¬ Covers c.scope a) s.circuits
  pub calm :
      All
        (λ (c : Circuit). c.state ≡ closed → Covers c.scope a → IsWithin c now s.ledger)
        s.circuits

rate_bps_iff :
    (count total max : ℕ)
    → (ltb max (rate_bps count total) ≡ false)
      ↔ ((total ≡ 0) ⊎ (count * 10_000 < (max + 1) * total))
unfolding rate_bps
rate_bps_iff count total max = elim (Bool-cases (total == 0)) [
  | inl is ↦ (λ _. inl (ground (arith, is)), λ _. rw (rate_bps, is) (ground arith))
  | inr is ↦
      let some_sample : 0 < total = ground (arith, is) in
      let law : (count * 10_000 / total < max + 1) ↔ (count * 10_000 < (max + 1) * total) =
        div-lt_iff_lt-mul {k = total} {x = count * 10_000} {y = max + 1} some_sample in
      (
        λ h. inr (law.0 (let k = ltb→le _ _ (rw (rate_bps, is) at h) in omega arith)),
        λ h. elim h [
          | inl e ↦ absurd (omega (arith, e, some_sample))
          | inr e ↦ (let k = law.1 e in rw (rate_bps, is) (ground (arith, k)))
        ],
      )
]

-- The tests of a circuit on the numbers that it counts.
trip_reason_iff :
    (c : Circuit) (xs : List Entry)
    → (trip_reason c xs ≡ none) ↔ (
        (length xs < c.minimum_samples)
        ⊎ ((ltb c.max_failure_rate_bps
                (rate_bps (length (filter (outcome_is (λ o. not o.success)) xs)) (length xs))
              ≡ false)
            × (length (filter (outcome_is (λ o. o.policy_violation)) xs) ≤ c.max_policy_violations)
            × (length (filter (outcome_is (λ o. o.reconciliation_mismatch)) xs)
                ≤ c.max_reconciliation_mismatches)
            × (any xs (outcome_is (λ o. ltb c.max_latency_ms o.latency_ms)) ≡ false)))
unfolding trip_reason
trip_reason_iff c xs = (λ h. ground arith, λ h. ground arith)

All-map :
    {A : Type 0} {P Q : A → Type 0} → ((x : A) → P x → Q x) → (xs : List A) → All P xs → All Q xs
All-map f [] h = tt
All-map f (x ∷ xs) h = (f x h.0, All-map f xs h.1)

success_iff : (o : Outcome) → (not o.success ≡ true) ↔ (o.success ≡ false)
success_iff o = (λ h. ground (arith, h), λ h. ground (arith, h))

same_iff : (b : Bool) → (b ≡ true) ↔ (b ≡ true)
same_iff b = (λ h. h, λ h. h)

module _ (c : Circuit) (now : ℕ) (ledger : List Entry) where
  -- The entries that the code keeps, and those of them that a test accepts.
  abbrev kept : List Entry
  kept = filter (is_sample c now) ledger

  abbrev count_of : (Outcome → Bool) → ℕ
  count_of test = length (filter (outcome_is test) kept)

  total_iff : (e : Entry) → (is_sample c now e ≡ true) ↔ Sampled c now (λ _. Unit) e
  unfolding is_sample
  total_iff e = elim (Option-cases e.outcome) [
    | inl is ↦ (
      λ h. absurd (ground (arith, is, h)),
      λ s. absurd (let k = s.1.0.ended in ground (arith, is, k)),
    )
    | inr (o, is) ↦ (
      λ h. (o, (is_sample-IsSample c now e o is h, tt)),
      λ s. IsSample-is_sample c now e s.0 s.1.0,
    )
  ]

  count-Counts :
      (test : Outcome → Bool) (Q : Outcome → Type 0)
      (decides : (o : Outcome) → (test o ≡ true) ↔ Q o)
      → Counts (Sampled c now Q) ledger (count_of test)
  count-Counts test Q decides =
      subst (Counts (Sampled c now Q) ledger)
        (sym (length-filter-filter (is_sample c now) (outcome_is test) ledger))
        (filter-Counts (Sampled c now Q) (λ e. is_sample c now e && outcome_is test e)
          (outcome_is_lem c now test Q decides) ledger)

  Counts-count :
      (test : Outcome → Bool) (Q : Outcome → Type 0)
      (decides : (o : Outcome) → (test o ≡ true) ↔ Q o) (n : ℕ)
      → Counts (Sampled c now Q) ledger n
      → n ≡ count_of test
  Counts-count test Q decides n h =
      Counts-filter (Sampled c now Q) (λ e. is_sample c now e && outcome_is test e)
        (outcome_is_lem c now test Q decides) ledger n h
      ∙ sym (length-filter-filter (is_sample c now) (outcome_is test) ledger)

  slow_iff :
      (o : Outcome) → (ltb c.max_latency_ms o.latency_ms ≡ true) ↔ (c.max_latency_ms < o.latency_ms)
  slow_iff o = (ltb→lt _ _, lt→ltb _ _)

  fast_iff :
      (any kept (outcome_is (λ o. ltb c.max_latency_ms o.latency_ms)) ≡ false)
      ↔ All (λ e. (o : Outcome) → IsSample c now e o → o.latency_ms ≤ c.max_latency_ms) ledger
  fast_iff =
      let law = any_samples c now (λ o. ltb c.max_latency_ms o.latency_ms) _ slow_iff ledger in
      (
        λ h. All-map (λ e f o s. (let slow = f o s in ground (arith, slow))) ledger (law.0 h),
        λ h. law.1 (All-map (λ e f o s q. (let quick = f o s in omega (arith, quick, q))) ledger h),
      )

  trip_reason-IsWithin : (trip_reason c kept ≡ none) ↔ IsWithin c now ledger
  trip_reason-IsWithin =
      let law = trip_reason_iff c kept in
      (
        λ h. record {
          total = length kept;
          failures = count_of (λ o. not o.success);
          violations = count_of (λ o. o.policy_violation);
          mismatches = count_of (λ o. o.reconciliation_mismatch);
          samples = filter-Counts _ (is_sample c now) total_iff ledger;
          failed = count-Counts (λ o. not o.success) _ success_iff;
          violated = count-Counts (λ o. o.policy_violation) _ (λ o. same_iff _);
          mismatched = count-Counts (λ o. o.reconciliation_mismatch) _ (λ o. same_iff _);
          within = elim (law.0 h) [
            | inl few ↦ inl few
            | inr (rate, violations, mismatches, quick) ↦ inr (record {
              rate = (rate_bps_iff _ _ _).0 rate;
              few_violations = violations;
              few_mismatches = mismatches;
              fast = fast_iff.0 quick;
            })
          ];
        },
        λ w.
            let t = Counts-filter _ (is_sample c now) total_iff ledger w.total w.samples in
            let f = Counts-count (λ o. not o.success) _ success_iff w.failures w.failed in
            let v =
              Counts-count (λ o. o.policy_violation) _ (λ o. same_iff _) w.violations w.violated in
            let m =
              Counts-count (λ o. o.reconciliation_mismatch) _ (λ o. same_iff _) w.mismatches
                w.mismatched in
            law.1 (elim w.within [
              | inl few ↦ inl (subst (λ n. n < c.minimum_samples) t few)
              | inr b ↦ inr (
                (rate_bps_iff _ _ _).1 (
                    subst
                      (λ n.
                        (n ≡ 0)
                        ⊎ (count_of (λ o. not o.success) * 10_000
                            < (c.max_failure_rate_bps + 1) * n))
                      t
                      (subst
                        (λ n. (w.total ≡ 0) ⊎ (n * 10_000 < (c.max_failure_rate_bps + 1) * w.total))
                        f b.rate)),
                subst (λ n. n ≤ c.max_policy_violations) v b.few_violations,
                subst (λ n. n ≤ c.max_reconciliation_mismatches) m b.few_mismatches,
                fast_iff.1 b.fast,
              )
            ]),
      )

module _ (a : Action) (now : ℕ) where
  no_switch_iff :
      (xs : List Switch)
      → (any xs (stops a) ≡ false) ↔ All (λ c. c.enabled ≡ true → ¬ Covers c.scope a) xs
  unfolding stops
  no_switch_iff [] = (λ _. tt, λ _. refl)
  no_switch_iff (c ∷ cs) =
      let rest = no_switch_iff cs in
      let law = scope_matches_iff c.scope a in
      (
        λ h. (
          λ e covers. (let k = law.1 covers in ground (arith, h, e, k)),
          rest.0 (ground (arith, h)),
        ),
        λ h. elim (Bool-cases (stops a c)) [
          | inl k ↦ absurd (h.0 (ground (arith, k)) (law.0 (ground (arith, k))))
          | inr k ↦ (let r = rest.1 h.1 in ground (arith, k, r))
        ],
      )

  opened_iff : (x : CircuitState) → (is_open x ≡ true) ↔ (x ≡ opened)
  unfolding is_open
  opened_iff closed = (λ h. cc, λ h. ground (arith, h))
  opened_iff opened = (λ h. refl, λ h. refl)

  closed_iff : (x : CircuitState) → (not (is_open x) ≡ true) ↔ (x ≡ closed)
  unfolding is_open
  closed_iff closed = (λ h. refl, λ h. refl)
  closed_iff opened = (λ h. cc, λ h. ground (arith, h))

  no_open_iff :
      (xs : List Circuit)
      → (any xs (denies a) ≡ false) ↔ All (λ c. c.state ≡ opened → ¬ Covers c.scope a) xs
  unfolding denies
  no_open_iff [] = (λ _. tt, λ _. refl)
  no_open_iff (c ∷ cs) =
      let rest = no_open_iff cs in
      let law = scope_matches_iff c.scope a in
      let open_ = opened_iff c.state in
      (
        λ h. (
          λ e covers. (let k = law.1 covers in let o = open_.1 e in ground (arith, h, o, k)),
          rest.0 (ground (arith, h)),
        ),
        λ h. elim (Bool-cases (denies a c)) [
          | inl k ↦ absurd (h.0 (open_.0 (ground (arith, k))) (law.0 (ground (arith, k))))
          | inr k ↦ (let r = rest.1 h.1 in ground (arith, k, r))
        ],
      )

  watching_iff : (c : Circuit) → (is_watching a c ≡ true) ↔ ((c.state ≡ closed) × Covers c.scope a)
  unfolding is_watching
  watching_iff c =
      let law = scope_matches_iff c.scope a in
      let shut = closed_iff c.state in
      (
        λ h. (shut.0 (ground (arith, h)), law.0 (ground (arith, h))),
        λ h. (let k = shut.1 h.0 in let m = law.1 h.1 in ground (arith, k, m)),
      )

  circuits_lem :
      (env : Env) (ledger : List Entry) (xs : List Circuit)
      → All (IsCalm env a now ledger) xs
        ↔ All (λ c. c.state ≡ closed → Covers c.scope a → IsWithin c now ledger) xs
  circuits_lem env ledger xs = (
    All-map
        (λ c calm shut covers.
          (trip_reason-IsWithin c now ledger).0 (calm ((watching_iff c).1 (shut, covers))))
        xs,
    All-map
        (λ c calm watching.
          let w = (watching_iff c).0 watching in
          (trip_reason-IsWithin c now ledger).1 (calm w.0 w.1))
        xs,
  )

  Passes-IsClear : (env : Env) (s : State) → Passes env a now s → IsClear a now s
  Passes-IsClear env s (no_stop, none_open, calm) = record {
    no_switch = (no_switch_iff s.switches).0 no_stop;
    no_open = (no_open_iff s.circuits).0 none_open;
    calm = (circuits_lem env s.ledger s.circuits).0 calm;
  }

  IsClear-Passes : (env : Env) (s : State) → IsClear a now s → Passes env a now s
  IsClear-Passes env s clear = (
    (no_switch_iff s.switches).1 clear.no_switch,
    (no_open_iff s.circuits).1 clear.no_open,
    (circuits_lem env s.ledger s.circuits).1 clear.calm,
  )

-- An action is allowed exactly if no enabled kill switch covers it, no open circuit does, and every
-- closed circuit that does has fewer samples in its window than it needs, or a failure rate below the
-- next basis point above its limit, no more violations and mismatches than allowed, and no sample that
-- took longer than its limit; the state is then left as it was.
pub assert_action_allowed-IsClear :
    (env : Env) (a : Action) (now : ℕ) (s : State)
    → (((assert_action_allowed env a now s).0 ≡ ok tt) ↔ IsClear a now s)
      × (IsClear a now s → assert_action_allowed env a now s ≡ (ok tt, s))
assert_action_allowed-IsClear env a now s =
    let (law, same) = assert_action_allowed-Passes env a now s in
    (
      (
        λ h. Passes-IsClear a now env s (law.0 h),
        λ clear. law.1 (IsClear-Passes a now env s clear),
      ),
      λ clear. same (IsClear-Passes a now env s clear),
    )
