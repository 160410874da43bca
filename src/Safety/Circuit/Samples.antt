-- ===== src/Safety/Circuit/Samples.antt =====
-- What a circuit breaker counts and what its thresholds allow, said without the tests of the code.
use ghostapi.Common.{
  ℕ, ◌+◌, ◌≤◌, Text, ◌≡◌, refl, ◌∙◌, ◌↔◌, ◌⊎◌, inl, inr, Bool, true, false, ◌&&◌, ◌||◌, Option,
  none, some, Option-cases, Bool-cases, List, [], ◌∷◌, length, filter, any, All, option_eq,
  option_eq_sound, option_eq_refl, arith,
}
use ghostapi.Safety.Types.{
  ScopeKind, Scope, Action, Circuit, Entry, Status, reserved, completed, Outcome,
}
use ghostapi.Safety.Scope.{risk_text, kind_eq, scope_value, scope_matches}
use ghostapi.Safety.Circuit.{is_completed, in_window, completed_since, is_sample, outcome_is}

-- A global scope covers every action, another the actions with its id in the field of its kind.
abbrev pub Names : ScopeKind → Option Text → Action → Type 0
Names ScopeKind.global id a = Unit
Names ScopeKind.organization id a = id ≡ some a.organization_id
Names ScopeKind.project id a = id ≡ some a.project_id
Names ScopeKind.environment id a = id ≡ some a.environment
Names ScopeKind.agent id a = id ≡ some a.actor_id
Names ScopeKind.workload id a = id ≡ some a.workload_id
Names ScopeKind.provider id a = id ≡ some a.provider
Names ScopeKind.operation id a = id ≡ some a.operation
Names ScopeKind.risk_class id a = id ≡ some (risk_text a.risk_class)

abbrev pub Covers : Scope → Action → Type 0
Covers s a = Names s.kind s.id a

option_eq_iff : (x y : Option Text) → (option_eq x y ≡ true) ↔ (x ≡ y)
option_eq_iff x y = (option_eq_sound x y, λ e. rw e (option_eq_refl y))

scope_value_lem :
    (k : ScopeKind) (id : Option Text) (a : Action)
    → ((kind_eq k ScopeKind.global || option_eq id (scope_value k a)) ≡ true) ↔ Names k id a
unfolding kind_eq scope_value
scope_value_lem ScopeKind.global id a = (λ _. tt, λ _. refl)
scope_value_lem ScopeKind.organization id a = option_eq_iff id (some a.organization_id)
scope_value_lem ScopeKind.project id a = option_eq_iff id (some a.project_id)
scope_value_lem ScopeKind.environment id a = option_eq_iff id (some a.environment)
scope_value_lem ScopeKind.agent id a = option_eq_iff id (some a.actor_id)
scope_value_lem ScopeKind.workload id a = option_eq_iff id (some a.workload_id)
scope_value_lem ScopeKind.provider id a = option_eq_iff id (some a.provider)
scope_value_lem ScopeKind.operation id a = option_eq_iff id (some a.operation)
scope_value_lem ScopeKind.risk_class id a = option_eq_iff id (some (risk_text a.risk_class))

pub scope_matches_iff : (s : Scope) (a : Action) → (scope_matches s a ≡ true) ↔ Covers s a
unfolding scope_matches
scope_matches_iff s a = scope_value_lem s.kind s.id a

-- A number of members of a list have a property, and the others have not.
abbrev pub Counts : {A : Type 0} → (A → Type 0) → List A → ℕ → Type 0
Counts P [] n = n ≡ 0
Counts P (x ∷ xs) n = (P x × ((m : ℕ) × (n ≡ m + 1) × Counts P xs m)) ⊎ ((¬ (P x)) × Counts P xs n)

module _ {A : Type 0} (P : A → Type 0) (p : A → Bool) (decides : (x : A) → (p x ≡ true) ↔ P x) where
  pub filter-Counts : (xs : List A) → Counts P xs (length (filter p xs))
  filter-Counts [] = refl
  filter-Counts (x ∷ xs) = elim (Bool-cases (p x)) [
    | inl e ↦ rw e (inl ((decides x).0 e, (length (filter p xs), omega arith, filter-Counts xs)))
    | inr e ↦ rw e (inr (λ h. (let k = (decides x).1 h in ground (arith, e, k)), filter-Counts xs))
  ]

  pub Counts-filter : (xs : List A) (n : ℕ) → Counts P xs n → n ≡ length (filter p xs)
  Counts-filter [] n h = h
  Counts-filter (x ∷ xs) n (inl (h, (m, e, k))) =
      rw ((decides x).1 h) (e ∙ (let same = Counts-filter xs m k in omega arith))
  Counts-filter (x ∷ xs) n (inr (h, k)) = elim (Bool-cases (p x)) [
    | inl e ↦ absurd (h ((decides x).0 e))
    | inr e ↦ rw e (Counts-filter xs n k)
  ]

pub length-filter-filter :
    {A : Type 0} (p q : A → Bool) (xs : List A)
    → length (filter q (filter p xs)) ≡ length (filter (λ x. p x && q x) xs)
length-filter-filter p q [] = refl
length-filter-filter p q (x ∷ xs) = ground (arith, length-filter-filter p q xs)

-- An entry that a circuit counts at a time, with its outcome: completed, in the scope, and not before
-- the window.
pub record IsSample (c : Circuit) (now : ℕ) (e : Entry) (o : Outcome) : Type 0 where
  pub done : e.status ≡ completed
  pub ended : e.outcome ≡ some o
  pub covered : Covers c.scope e.action
  pub at : ℕ
  pub at_time : e.completed_at ≡ some at
  pub recent : now ≤ at + c.window_ms

-- A sample whose outcome has a property.
abbrev pub Sampled : Circuit → ℕ → (Outcome → Type 0) → Entry → Type 0
Sampled c now Q e = (o : Outcome) × (IsSample c now e o × Q o)

completed_since-some :
    (at : Option ℕ) (now window_ms : ℕ)
    → completed_since at now window_ms ≡ true
    → (t : ℕ) × ((at ≡ some t) × (now ≤ t + window_ms))
unfolding completed_since in_window
completed_since-some none now window_ms h = cc
completed_since-some (some t) now window_ms h = (t, (refl, ground arith))

done_of : (s : Status) → is_completed s ≡ true → s ≡ completed
unfolding is_completed
done_of reserved h = cc
done_of completed h = refl

module _ (c : Circuit) (now : ℕ) where
  pub is_sample-IsSample :
      (e : Entry) (o : Outcome) → e.outcome ≡ some o → is_sample c now e ≡ true → IsSample c now e o
  unfolding is_sample
  is_sample-IsSample e o ended h =
      let (t, (at, recent)) =
        completed_since-some e.completed_at now c.window_ms (ground (arith, h)) in
      record {
        done = done_of e.status (ground (arith, h));
        ended = ended;
        covered = (scope_matches_iff c.scope e.action).0 (ground (arith, h));
        at = t;
        at_time = at;
        recent = recent;
      }

  pub IsSample-is_sample : (e : Entry) (o : Outcome) → IsSample c now e o → is_sample c now e ≡ true
  unfolding is_sample is_completed completed_since in_window
  IsSample-is_sample e o s =
      rw (s.done, s.ended, s.at_time)
        (let covered = (scope_matches_iff c.scope e.action).1 s.covered in
          ground (arith, covered, s.recent))

  module _ (test : Outcome → Bool) (Q : Outcome → Type 0)
      (decides : (o : Outcome) → (test o ≡ true) ↔ Q o) where
    pub outcome_is_lem :
        (e : Entry) → ((is_sample c now e && outcome_is test e) ≡ true) ↔ Sampled c now Q e
    unfolding outcome_is
    outcome_is_lem e = elim (Option-cases e.outcome) [
      | inl is ↦ (
        λ h. absurd (ground (arith, is, h)),
        λ s. absurd (let k = s.1.0.ended in ground (arith, is, k)),
      )
      | inr (o, is) ↦ (
        λ h. (
          o,
          (is_sample-IsSample e o is (ground (arith, h)), (decides o).0 (ground (arith, is, h))),
        ),
        λ s.
            let sample = IsSample-is_sample e s.0 s.1.0 in
            let ended = s.1.0.ended in
            let good = (decides s.0).1 s.1.1 in ground (arith, sample, ended, good),
      )
    ]

    -- No sample has an outcome on which a test gives true.
    pub any_samples :
        (xs : List Entry)
        → (any (filter (is_sample c now) xs) (outcome_is test) ≡ false)
          ↔ All (λ e. (o : Outcome) → IsSample c now e o → ¬ Q o) xs
    any_samples [] = (λ _. tt, λ _. refl)
    any_samples (e ∷ xs) =
        let rest = any_samples xs in
        let one = outcome_is_lem e in
        elim (Bool-cases (is_sample c now e && outcome_is test e)) [
          | inl k ↦ (
            λ h. absurd (ground (arith, k, h)),
            λ h. absurd (let s = one.0 k in h.0 s.0 s.1.0 s.1.1),
          )
          | inr k ↦ (
            λ h. (
              λ o s q. absurd (let x = one.1 (o, (s, q)) in ground (arith, k, x)),
              rest.0 (ground (arith, k, h)),
            ),
            λ h. (let r = rest.1 h.1 in ground (arith, k, r)),
          )
        ]
