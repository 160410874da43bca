-- ===== src/Safety/Budget.antt =====
-- Budgets: `assertBudgets`, `sumCosts`.
pub mod Spent
pub mod Bounds
use ghostapi.Common.{
  ℕ, ◌+◌, Text, lit, Option, none, some, List, [], ◌∷◌, ◌++◌, length, filter, Bool, false, ◌&&◌,
  not, ltb, Result, ok, fail, require, ◌>>◌, if◌then◌else◌,
}
use ghostapi.Safety.Types.{Costs, Action, Limits, Budget, Entry}
use ghostapi.Safety.Scope.{scope_matches}
use ghostapi.Safety.Circuit.{is_completed, in_window}

-- The keys of the costs, in the order of the loop.
pub data CostKey : Type 0 where
  monetary_amount_minor requests messages mutations deletes token_cost : CostKey

abbrev pub cost_keys : List CostKey
cost_keys =
    CostKey.monetary_amount_minor ∷ CostKey.requests ∷ CostKey.messages ∷ CostKey.mutations
    ∷ CostKey.deletes ∷ CostKey.token_cost ∷ []

unfoldable pub cost_name : CostKey → Text
cost_name CostKey.monetary_amount_minor = lit "monetaryAmountMinor"
cost_name CostKey.requests = lit "requests"
cost_name CostKey.messages = lit "messages"
cost_name CostKey.mutations = lit "mutations"
cost_name CostKey.deletes = lit "deletes"
cost_name CostKey.token_cost = lit "tokenCost"

-- `costs[key]`
unfoldable pub cost_at : CostKey → Costs → ℕ
cost_at CostKey.monetary_amount_minor c = c.monetary_amount_minor
cost_at CostKey.requests c = c.requests
cost_at CostKey.messages c = c.messages
cost_at CostKey.mutations c = c.mutations
cost_at CostKey.deletes c = c.deletes
cost_at CostKey.token_cost c = c.token_cost

-- `budget.limits[key]`
unfoldable pub limit_at : CostKey → Limits → Option ℕ
limit_at CostKey.monetary_amount_minor l = l.monetary_amount_minor
limit_at CostKey.requests l = l.requests
limit_at CostKey.messages l = l.messages
limit_at CostKey.mutations l = l.mutations
limit_at CostKey.deletes l = l.deletes
limit_at CostKey.token_cost l = l.token_cost

abbrev pub zero_costs : Costs
zero_costs = record {
  monetary_amount_minor = 0;
  requests = 0;
  messages = 0;
  mutations = 0;
  deletes = 0;
  token_cost = 0;
}

unfoldable pub add_costs : Costs → Costs → Costs
add_costs total value = record {
  monetary_amount_minor = total.monetary_amount_minor + value.monetary_amount_minor;
  requests = total.requests + value.requests;
  messages = total.messages + value.messages;
  mutations = total.mutations + value.mutations;
  deletes = total.deletes + value.deletes;
  token_cost = total.token_cost + value.token_cost;
}

-- `values.reduce(add, total)`
unfoldable pub add_all : Costs → List Entry → Costs
unfolding add_costs
add_all total [] = total
add_all total (e ∷ es) = add_all (add_costs total e.action.costs) es

unfoldable pub sum_costs : List Entry → Costs
unfolding add_all
sum_costs entries = add_all zero_costs entries

-- The entries that a budget counts, for a window of this length.
unfoldable pub counted : Budget → ℕ → ℕ → List Entry → List Entry
unfolding in_window
counted b window_ms now =
    filter (λ e. scope_matches b.scope e.action && in_window e.admitted_at now window_ms)

unfoldable pub exceeds : Option ℕ → ℕ → Bool
exceeds none value = false
exceeds (some limit) value = ltb limit value

-- The loop over the keys of the costs.
unfoldable pub check_costs : Budget → Costs → Costs → List CostKey → Result (Unit {0})
unfolding exceeds cost_name
check_costs b totals costs [] = ok tt
check_costs b totals costs (k ∷ ks) =
    if exceeds (limit_at k b.limits) (cost_at k totals + cost_at k costs)
    then fail (lit "Safety budget exceeded: " ++ b.id ++ lit " " ++ cost_name k ++ lit ".")
    else check_costs b totals costs ks

-- The body of the loop over the budgets, for one whose scope matches.
unfoldable pub check_budget : List Entry → Action → ℕ → Budget → Result (Unit {0})
check_budget ledger a now b =
    let window = counted b b.window_ms now ledger in
    let velocity = (sum_costs (counted b b.velocity_window_ms now ledger)).requests in
    let concurrent = length (filter (λ e. not (is_completed e.status)) window) in
    do
      check_costs b (sum_costs window) a.costs cost_keys
      require (not (exceeds b.limits.concurrency (concurrent + 1)))
          (lit "Safety budget exceeded: " ++ b.id ++ lit " concurrency.")
      require (not (exceeds b.limits.velocity (velocity + a.costs.requests)))
          (lit "Safety velocity limit exceeded: " ++ b.id ++ lit ".")

unfoldable pub assert_budgets : List Entry → Action → ℕ → List Budget → Result (Unit {0})
assert_budgets ledger a now [] = ok tt
assert_budgets ledger a now (b ∷ bs) =
    if scope_matches b.scope a
    then (check_budget ledger a now b >> assert_budgets ledger a now bs)
    else assert_budgets ledger a now bs
