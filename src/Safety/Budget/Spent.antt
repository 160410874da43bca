-- ===== src/Safety/Budget/Spent.antt =====
-- What a budget counts, as a sum over the ledger, and what `assertBudgets` establishes of it.
use ghostapi.Common.{
  ℕ, ◌+◌, ◌≤◌, ◌≡◌, refl, sym, ◌∙◌, Option, none, some, Bool, true, ◌&&◌, not, List, [], ◌∷◌, ◌++◌,
  length, filter, All, leb, ok, arith, if◌then◌else◌, Bool-cases, inl, inr, bind-elim, require,
  require-eq-ok,
}
use ghostapi.Safety.Types.{Costs, Action, Budget, Entry}
use ghostapi.Safety.Scope.{scope_matches}
use ghostapi.Safety.Circuit.{is_completed, in_window}
use ghostapi.Safety.Budget.{
  CostKey, cost_keys, cost_at, limit_at, add_costs, add_all, sum_costs, zero_costs, counted,
  exceeds, check_costs, check_budget, assert_budgets,
}

-- Whether a budget counts an entry, for a window of this length that ends now.
abbrev pub counts : Budget → ℕ → ℕ → Entry → Bool
counts b window_ms now e = scope_matches b.scope e.action && leb now (e.admitted_at + window_ms)

-- The sum of one cost over the entries that a budget counts.
abbrev pub spent : CostKey → Budget → ℕ → ℕ → List Entry → ℕ
spent k b window_ms now [] = 0
spent k b window_ms now (e ∷ es) =
    (if counts b window_ms now e then cost_at k e.action.costs else 0) + spent k b window_ms now es

-- The number of reservations that a budget counts.
abbrev pub running : Budget → ℕ → List Entry → ℕ
running b now [] = 0
running b now (e ∷ es) =
    (if counts b b.window_ms now e && not (is_completed e.status) then 1 else 0) + running b now es

-- Every limit that a budget sets holds of the ledger.
pub record IsWithin (b : Budget) (now : ℕ) (ledger : List Entry) : Type 0 where
  pub costs :
      (k : CostKey) (limit : ℕ)
      → limit_at k b.limits ≡ some limit
      → spent k b b.window_ms now ledger ≤ limit
  pub concurrency : (limit : ℕ) → b.limits.concurrency ≡ some limit → running b now ledger ≤ limit
  pub velocity :
      (limit : ℕ)
      → b.limits.velocity ≡ some limit
      → spent CostKey.requests b b.velocity_window_ms now ledger ≤ limit

cost_at-add_costs :
    (k : CostKey) (c d : Costs) → cost_at k (add_costs c d) ≡ cost_at k c + cost_at k d
unfolding cost_at add_costs
cost_at-add_costs CostKey.requests c d = refl
cost_at-add_costs k c d = refl

add_all-spent :
    (k : CostKey) (b : Budget) (window_ms now : ℕ) (es : List Entry) (total : Costs)
    → cost_at k (add_all total (counted b window_ms now es))
      ≡ cost_at k total + spent k b window_ms now es
unfolding add_all counted in_window
add_all-spent k b window_ms now [] total = omega arith
add_all-spent k b window_ms now (e ∷ es) total = elim (Bool-cases (counts b window_ms now e)) [
  | inl h ↦ rw h (
      omega (
        arith,
        add_all-spent k b window_ms now es (add_costs total e.action.costs),
        cost_at-add_costs k total e.action.costs,
      ))
  | inr h ↦ rw h (omega (arith, add_all-spent k b window_ms now es total))
]

cost_at-requests : (c : Costs) → cost_at CostKey.requests c ≡ c.requests
unfolding cost_at
cost_at-requests c = refl

zero_costs_lem : (k : CostKey) → cost_at k zero_costs ≡ 0
unfolding cost_at
zero_costs_lem CostKey.requests = refl
zero_costs_lem k = refl

sum_costs-spent :
    (k : CostKey) (b : Budget) (window_ms now : ℕ) (es : List Entry)
    → cost_at k (sum_costs (counted b window_ms now es)) ≡ spent k b window_ms now es
unfolding sum_costs
sum_costs-spent k b window_ms now es =
    omega (arith, add_all-spent k b window_ms now es zero_costs, zero_costs_lem k)

requests-spent :
    (b : Budget) (window_ms now : ℕ) (es : List Entry)
    → (sum_costs (counted b window_ms now es)).requests ≡ spent CostKey.requests b window_ms now es
requests-spent b window_ms now es =
    sym (cost_at-requests _) ∙ sum_costs-spent CostKey.requests b window_ms now es

running-counted :
    (b : Budget) (now : ℕ) (es : List Entry)
    → length (filter (λ e. not (is_completed e.status)) (counted b b.window_ms now es))
      ≡ running b now es
unfolding counted in_window
running-counted b now [] = refl
running-counted b now (e ∷ es) = ground (arith, running-counted b now es)

spent-append :
    (k : CostKey) (b : Budget) (window_ms now : ℕ) (es : List Entry) (e : Entry)
    → spent k b window_ms now (es ++ e ∷ [])
      ≡ spent k b window_ms now es
        + (if counts b window_ms now e then cost_at k e.action.costs else 0)
spent-append k b window_ms now [] e = omega arith
spent-append k b window_ms now (x ∷ es) e = omega (arith, spent-append k b window_ms now es e)

running-append :
    (b : Budget) (now : ℕ) (es : List Entry) (e : Entry)
    → running b now (es ++ e ∷ [])
      ≡ running b now es
        + (if counts b b.window_ms now e && not (is_completed e.status) then 1 else 0)
running-append b now [] e = omega arith
running-append b now (x ∷ es) e = omega (arith, running-append b now es e)

-- The loop over the keys of the costs has passed every key.
check_costs-le :
    (b : Budget) (totals costs : Costs) (k : CostKey) (limit : ℕ)
    → check_costs b totals costs cost_keys ≡ ok tt
    → limit_at k b.limits ≡ some limit
    → cost_at k totals + cost_at k costs ≤ limit
unfolding check_costs exceeds
check_costs-le b totals costs CostKey.requests limit h e = ground arith
check_costs-le b totals costs k limit h e = ground arith

exceeds-le : (o : Option ℕ) (limit n : ℕ) → not (exceeds o n) ≡ true → o ≡ some limit → n ≤ limit
unfolding exceeds
exceeds-le none limit n h e = cc
exceeds-le (some m) limit n h e = ground arith

-- The three groups of tests that a budget makes.
check_budget-inv :
    (ledger : List Entry) (a : Action) (now : ℕ) (b : Budget)
    → check_budget ledger a now b ≡ ok tt
    → (check_costs b (sum_costs (counted b b.window_ms now ledger)) a.costs cost_keys ≡ ok tt)
      × (not (exceeds b.limits.concurrency (running b now ledger + 1)) ≡ true)
      × (not (
            exceeds b.limits.velocity
              (spent CostKey.requests b b.velocity_window_ms now ledger + a.costs.requests))
          ≡ true)
unfolding check_budget
check_budget-inv ledger a now b h =
    bind-elim (check_costs b (sum_costs (counted b b.window_ms now ledger)) a.costs cost_keys) _ h
      λ _ c h1. bind-elim (require (not (exceeds b.limits.concurrency _)) _) _ h1 λ _ r h2. (
        c,
        rw (← running-counted b now ledger) (require-eq-ok _ _ r),
        rw (← requests-spent b b.velocity_window_ms now ledger) (require-eq-ok _ _ h2),
      )

-- A budget that passes still holds when the entry of the action is added.
check_budget-IsWithin :
    (ledger : List Entry) (a : Action) (now : ℕ) (b : Budget) (e : Entry)
    → e.action ≡ a
    → e.admitted_at ≡ now
    → check_budget ledger a now b ≡ ok tt
    → IsWithin b now (ledger ++ e ∷ [])
check_budget-IsWithin ledger a now b e of_action at h =
    let (c, concurrency, velocity) = check_budget-inv ledger a now b h in
    record {
      costs = λ k limit is_limit. grind (
        arith,
        spent-append k b b.window_ms now ledger e,
        sum_costs-spent k b b.window_ms now ledger,
        check_costs-le b _ a.costs k limit c is_limit,
      );
      concurrency = λ limit is_limit. ground (
        arith,
        running-append b now ledger e,
        exceeds-le b.limits.concurrency limit _ concurrency is_limit,
      );
      velocity = λ limit is_limit. ground (
        arith,
        spent-append CostKey.requests b b.velocity_window_ms now ledger e,
        cost_at-requests a.costs,
        exceeds-le b.limits.velocity limit _ velocity is_limit,
      );
    }

-- What `assertBudgets` establishes for every budget whose scope matches.
pub assert_budgets-IsWithin :
    (ledger : List Entry) (a : Action) (now : ℕ) (e : Entry) (bs : List Budget)
    → e.action ≡ a
    → e.admitted_at ≡ now
    → assert_budgets ledger a now bs ≡ ok tt
    → All (λ b. scope_matches b.scope a ≡ true → IsWithin b now (ledger ++ e ∷ [])) bs
unfolding assert_budgets
assert_budgets-IsWithin ledger a now e [] of_action at h = tt
assert_budgets-IsWithin ledger a now e (b ∷ bs) of_action at h =
    elim (Bool-cases (scope_matches b.scope a)) [
      | inr miss ↦
          (λ hit. cc, assert_budgets-IsWithin ledger a now e bs of_action at (rw miss at h))
      | inl hit ↦ bind-elim (check_budget ledger a now b) _ (rw hit at h) λ _ c rest. (
        λ _. check_budget-IsWithin ledger a now b e of_action at c,
        assert_budgets-IsWithin ledger a now e bs of_action at rest,
      )
    ]
