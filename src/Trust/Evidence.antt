-- ===== src/Trust/Evidence.antt =====
-- `assertPromotionEvidence` and `rateBps`.
use ghostapi.Common.{
  ℕ, ◌-◌, ◌*◌, ◌/◌, Text, lit, text_eq, Bool, not, ◌++◌, ◌==◌, find, leb, none, some, List, [], ◌∷◌,
  Result, ok, fail, require, ◌>>◌, if◌then◌else◌,
}
use ghostapi.Trust.Types.{Evaluation, Evidence, PromotionPolicy}

unfoldable pub rate_bps : ℕ → ℕ → ℕ
rate_bps count total = if total == 0 then 10_000 else (count * 10_000) / total

-- The difference of two times may be negative in the source, where the test before it throws.
unfoldable pub is_stale : ℕ → ℕ → ℕ → Bool
is_stale now at freshness = not (leb (now - at) freshness)

-- The body of the loop over the required evaluations.
unfoldable pub check_eval : List Evaluation → ℕ → ℕ → Text → Result (Unit {0})
unfolding is_stale
check_eval evals freshness now required = elim (find (λ e. text_eq e.id required) evals) [
  | none ↦ fail (lit "Trust promotion requires passing eval: " ++ required)
  | some e ↦ do
    require e.passed (lit "Trust promotion requires passing eval: " ++ required)
    require (leb e.completed_at now) (lit "Trust promotion eval is from the future: " ++ required)
    require (not (is_stale now e.completed_at freshness))
        (lit "Trust promotion eval is stale: " ++ required)
]

unfoldable pub check_evals : List Evaluation → ℕ → ℕ → List Text → Result (Unit {0})
unfolding check_eval
check_evals evals freshness now [] = ok tt
check_evals evals freshness now (r ∷ rs) =
    check_eval evals freshness now r >> check_evals evals freshness now rs

unfoldable pub assert_promotion_evidence : Evidence → PromotionPolicy → ℕ → Result (Unit {0})
unfolding rate_bps is_stale check_evals
assert_promotion_evidence e p now = do
  require (leb p.minimum_runs e.run_count) (lit "Trust promotion evidence has too few runs.")
  require (leb e.observed_at now) (lit "Trust promotion evidence is from the future.")
  require (not (is_stale now e.observed_at p.evidence_freshness_ms))
      (lit "Trust promotion evidence is stale.")
  check_evals e.evals p.evidence_freshness_ms now p.required_eval_ids
  require (leb (rate_bps e.violations e.run_count) p.max_violation_rate_bps)
      (lit "Trust promotion violation rate exceeds policy.")
  require (leb (rate_bps e.errors e.run_count) p.max_error_rate_bps)
      (lit "Trust promotion error rate exceeds policy.")
