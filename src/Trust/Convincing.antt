-- ===== src/Trust/Convincing.antt =====
-- What evidence lets a target be promoted, said without the order of the checks.
use ghostapi.Common.{
  ℕ, ◌+◌, ◌*◌, ◌/◌, ◌≤◌, ◌<◌, Text, text_eq, ◌≡◌, refl, ◌↔◌, Bool, true, false, not, ◌==◌, find,
  leb, leb→le, le→leb, some, Option-cases, inl, inr, List, [], ◌∷◌, All, ok, require, require-eq-ok,
  bind-elim, arith,
}
use native.Mathlib.Nat.{div-lt_iff_lt-mul}
use ghostapi.Trust.Types.{Evaluation, Evidence, PromotionPolicy}
use ghostapi.Trust.Evidence.{rate_bps, is_stale, check_eval, check_evals, assert_promotion_evidence}

-- The evaluation that a policy requires, among those of the evidence.
pub record IsPassed (evals : List Evaluation) (freshness now : ℕ) (id : Text) : Type 0 where
  pub evaluation : Evaluation
  pub found : find (λ x. text_eq x.id id) evals ≡ some evaluation
  pub passed : evaluation.passed ≡ true
  pub past : evaluation.completed_at ≤ now
  pub fresh : now ≤ evaluation.completed_at + freshness

-- Evidence of enough runs, from the past and not too old, with each required evaluation passed, in the
-- past and not too old, and with rates of violations and errors that are below the next basis point
-- above what the policy allows.
pub record IsConvincing (e : Evidence) (p : PromotionPolicy) (now : ℕ) : Type 0 where
  pub enough : p.minimum_runs ≤ e.run_count
  pub past : e.observed_at ≤ now
  pub fresh : now ≤ e.observed_at + p.evidence_freshness_ms
  pub evals : All (IsPassed e.evals p.evidence_freshness_ms now) p.required_eval_ids
  pub violations : e.violations * 10_000 < (p.max_violation_rate_bps + 1) * e.run_count
  pub errors : e.errors * 10_000 < (p.max_error_rate_bps + 1) * e.run_count

require-true : (b : Bool) (message : Text) → b ≡ true → require b message ≡ ok tt
require-true b message e = rw e refl

is_stale_iff :
    (now at freshness : ℕ)
    → at ≤ now
    → (not (is_stale now at freshness) ≡ true) ↔ (now ≤ at + freshness)
unfolding is_stale
is_stale_iff now at freshness h = (λ e. ground arith, λ e. ground arith)

rate_bps_iff :
    (count total max : ℕ)
    → 0 < total
    → (leb (rate_bps count total) max ≡ true) ↔ (count * 10_000 < (max + 1) * total)
unfolding rate_bps
rate_bps_iff count total max h =
    let is : (total == 0) ≡ false = ground arith in
    let law : (count * 10_000 / total < max + 1) ↔ (count * 10_000 < (max + 1) * total) =
      div-lt_iff_lt-mul {k = total} {x = count * 10_000} {y = max + 1} h in
    (
      λ e. law.0 (let k = leb→le _ _ (rw (rate_bps, is) at e) in omega arith),
      λ e. let k = law.1 e in rw is (le→leb _ _ (omega arith)),
    )

check_eval-IsPassed :
    (evals : List Evaluation) (freshness now : ℕ) (id : Text)
    → check_eval evals freshness now id ≡ ok tt
    → IsPassed evals freshness now id
unfolding check_eval
check_eval-IsPassed evals freshness now id h =
    elim (Option-cases (find (λ x. text_eq x.id id) evals)) [
      | inl n ↦ (let k = rw (check_eval, n) at h in cc)
      | inr (v, e) ↦ bind-elim (require v.passed _) _ (rw (check_eval, e) at h) λ _ passed h1.
          bind-elim (require (leb v.completed_at now) _) _ h1 λ _ past h2.
            let before = leb→le _ _ (require-eq-ok _ _ past) in
            record {
              evaluation = v;
              found = e;
              passed = require-eq-ok _ _ passed;
              past = before;
              fresh = (is_stale_iff now v.completed_at freshness before).0 (require-eq-ok _ _ h2);
            }
    ]

IsPassed-check_eval :
    (evals : List Evaluation) (freshness now : ℕ) (id : Text)
    → IsPassed evals freshness now id
    → check_eval evals freshness now id ≡ ok tt
unfolding check_eval
IsPassed-check_eval evals freshness now id h =
    rw (check_eval, h.found, h.passed, le→leb _ _ h.past)
      (require-true _ _ ((is_stale_iff now h.evaluation.completed_at freshness h.past).1 h.fresh))

check_evals_iff :
    (evals : List Evaluation) (freshness now : ℕ) (ids : List Text)
    → (check_evals evals freshness now ids ≡ ok tt) ↔ All (IsPassed evals freshness now) ids
unfolding check_evals
check_evals_iff evals freshness now [] = (λ _. tt, λ _. refl)
check_evals_iff evals freshness now (id ∷ ids) =
    let rest = check_evals_iff evals freshness now ids in
    (
      λ h.
          bind-elim (check_eval evals freshness now id) _ h
            (λ _ e k. (check_eval-IsPassed evals freshness now id e, rest.0 k)),
      λ h. rw (IsPassed-check_eval evals freshness now id h.0) (rest.1 h.1),
    )

-- For a policy that wants a run at least, the check of the evidence passes exactly if the evidence is
-- convincing.
pub assert_promotion_evidence-IsConvincing :
    (e : Evidence) (p : PromotionPolicy) (now : ℕ)
    → 0 < p.minimum_runs
    → (assert_promotion_evidence e p now ≡ ok tt) ↔ IsConvincing e p now
unfolding assert_promotion_evidence
assert_promotion_evidence-IsConvincing e p now wants = (forward, backward)
  where
    forward : assert_promotion_evidence e p now ≡ ok tt → IsConvincing e p now
    forward h = bind-elim (require (leb p.minimum_runs e.run_count) _) _ h λ _ h0 h1.
        bind-elim (require (leb e.observed_at now) _) _ h1 λ _ k1 h2.
          bind-elim (require (not (is_stale now e.observed_at p.evidence_freshness_ms)) _) _ h2
            λ _ k2 h3.
              bind-elim (check_evals e.evals p.evidence_freshness_ms now p.required_eval_ids) _ h3
                λ _ k3 h4.
                  bind-elim
                    (require (leb (rate_bps e.violations e.run_count) p.max_violation_rate_bps) _) _
                    h4
                    λ _ k4 k5.
                      let enough = leb→le _ _ (require-eq-ok _ _ h0) in
                      let some_run : 0 < e.run_count = omega arith in
                      let past = leb→le _ _ (require-eq-ok _ _ k1) in
                      record {
                        enough = enough;
                        past = past;
                        fresh =
                            (is_stale_iff now e.observed_at p.evidence_freshness_ms past).0
                              (require-eq-ok _ _ k2);
                        evals =
                            (check_evals_iff e.evals p.evidence_freshness_ms now
                                p.required_eval_ids).0
                              k3;
                        violations =
                            (rate_bps_iff e.violations e.run_count _ some_run).0
                              (require-eq-ok _ _ k4);
                        errors =
                            (rate_bps_iff e.errors e.run_count _ some_run).0 (require-eq-ok _ _ k5);
                      }

    backward : IsConvincing e p now → assert_promotion_evidence e p now ≡ ok tt
    backward c =
        let enough = c.enough in
        let some_run : 0 < e.run_count = omega arith in
        let t1 = le→leb _ _ c.enough in
        let t2 = le→leb _ _ c.past in
        let t3 = (is_stale_iff now e.observed_at p.evidence_freshness_ms c.past).1 c.fresh in
        let t4 =
          (check_evals_iff e.evals p.evidence_freshness_ms now p.required_eval_ids).1 c.evals in
        let t5 = (rate_bps_iff e.violations e.run_count _ some_run).1 c.violations in
        let t6 = (rate_bps_iff e.errors e.run_count _ some_run).1 c.errors in
        rw (t1, t2, t3, t4, t5, t6) refl
