-- ===== src/Trust/Tests.antt =====
-- The statements about the trust ladder at concrete inputs.
mod Fixtures
use ghostapi.Common.{
  ◌+◌, ◌*◌, ◌%◌, ◌<◌, ℕ, ◌≤◌, ◌≡◌, refl, Text, lit, true, false, some, none, List, [], ◌∷◌, Result,
  ok, err, ◌↔◌, ◌⊎◌, arith, inr,
}
use ghostapi.Trust.Types.{
  Level, simulate, shadow, approve, bounded_auto, Target, TargetState, State, violation,
  PromotionPolicy,
}
use ghostapi.Trust.Capabilities.{local_capabilities, validate_capabilities}
use ghostapi.Trust.Evidence.{assert_promotion_evidence}
use ghostapi.Trust.Canary.{is_in_scope, canary_decision}
use ghostapi.Trust.Store.{Store, read, empty_state}
use ghostapi.Trust.Ladder.{
  assign_canary, record_canary_outcome, promote, promote_state, rollback_to_approval,
}
use ghostapi.Trust.Calls.{Call, Timed, promotes, records, rolls_back, inspects, run}
use ghostapi.Trust.Moves.{Reach, level_at, open_at}
use ghostapi.Trust.History.{run-Reach}
use ghostapi.Trust.Open.{IsRefused, open-IsRefused}
use ghostapi.Trust.Convincing.{IsPassed, IsConvincing, assert_promotion_evidence-IsConvincing}
use ghostapi.Trust.Promotion.{IsJustified, promote-IsJustified}
use ghostapi.Trust.Rollback.{rollback_to_approval-level}
use ghostapi.Trust.Rollout.{IsInScope, canary_decision_lem}
use ghostapi.Trust.Tests.Fixtures.{opened, trust_env, invoices, careful, good, alice}

local_capabilities-valid :
    validate_capabilities trust_env local_capabilities ≡ ok local_capabilities
unfolding opened
local_capabilities-valid = refl

-- Three promotions, an outcome that opens the circuit breaker, and a rollback.
abbrev climb : List Timed
climb =
    (some 1_000, promotes invoices shadow careful good (ok alice))
    ∷ (some 2_000, promotes invoices approve careful good (ok alice))
    ∷ (some 3_000, promotes invoices bounded_auto careful good (ok alice))
    ∷ []

abbrev fall : List Timed
fall =
    (some 4_000, records invoices careful violation (lit "refund twice"))
    ∷ (some 5_000, rolls_back invoices careful (ok alice) (lit "after an incident"))
    ∷ []

abbrev state_of : Result State → State
state_of (ok s) = s
state_of (err _) = empty_state trust_env

abbrev top : Store
top = run trust_env climb none

abbrev bottom : Store
bottom = run trust_env fall top

top-level : level_at invoices (state_of (read trust_env top)).targets ≡ bounded_auto
unfolding opened
top-level = refl

bottom-open : open_at invoices (state_of (read trust_env bottom)).targets ≡ true
unfolding opened
bottom-open = refl

abbrev before : State
before = state_of (read trust_env top)

abbrev after : State
after = state_of (read trust_env bottom)

run-Reach_example :
    Reach
      (level_at invoices before.targets)
      (open_at invoices before.targets)
      (level_at invoices after.targets)
      (open_at invoices after.targets)
unfolding opened
run-Reach_example = run-Reach trust_env fall top before after invoices refl refl

open-IsRefused_example :
    ((s' : State)
      → read trust_env (run trust_env [] bottom) ≡ ok s'
      → (open_at invoices s'.targets ≡ true)
        × ((level_at invoices s'.targets ≡ level_at invoices after.targets)
            ⊎ (level_at invoices s'.targets ≡ approve)))
    × IsRefused
        (promote trust_env (some 6_000) invoices bounded_auto careful good (ok alice))
        (run trust_env [] bottom)
    × IsRefused
        (record_canary_outcome trust_env (some 6_000) invoices careful violation (lit "again"))
        (run trust_env [] bottom)
    × IsRefused (assign_canary trust_env (some 6_000) invoices careful) (run trust_env [] bottom)
unfolding opened
open-IsRefused_example =
    open-IsRefused trust_env bottom after invoices [] (some 6_000) bounded_auto careful good
      (ok alice) violation (lit "again") refl refl

abbrev risen : TargetState
risen = record {
  target = invoices;
  level = shadow;
  is_open = false;
  observed = 0;
  violations = 0;
  errors = 0;
  updated_at = 1_000;
}

promote-IsJustified_example :
    (risen.level ≡ shadow)
    × IsJustified trust_env (some 1_000) none invoices shadow careful good (ok alice)
unfolding opened
promote-IsJustified_example =
    promote-IsJustified trust_env (some 1_000) none invoices shadow careful good (ok alice) risen
      refl

convincing : IsConvincing good careful 1_000
unfolding opened
convincing = record {
  enough = omega arith;
  past = omega arith;
  fresh = omega arith;
  evals = (passed_eval, tt);
  violations = omega arith;
  errors = omega arith;
}
  where
    passed_eval : IsPassed good.evals careful.evidence_freshness_ms 1_000 (lit "safety")
    passed_eval = record {
      evaluation = record { id = lit "safety"; passed = true; completed_at = 900 };
      found = refl;
      passed = refl;
      past = omega arith;
      fresh = omega arith;
    }

assert_promotion_evidence-IsConvincing_example :
    (assert_promotion_evidence good careful 1_000 ≡ ok tt) ↔ IsConvincing good careful 1_000
assert_promotion_evidence-IsConvincing_example =
    assert_promotion_evidence-IsConvincing good careful 1_000 (omega arith)

-- A target that nobody knows is raised to approval by a rollback.
abbrev rolled : State
rolled = state_of (
    read trust_env
      (rollback_to_approval trust_env (some 1_000) invoices careful (ok alice) (lit "start")
        none).1)

rollback_to_approval-level_example :
    (level_at invoices rolled.targets ≡ approve)
    × (open_at invoices rolled.targets ≡ open_at invoices (empty_state trust_env).targets)
unfolding opened
rollback_to_approval-level_example =
    rollback_to_approval-level trust_env (some 1_000) none invoices careful (ok alice) (lit "start")
      (record risen { level = approve }) (empty_state trust_env) rolled refl refl refl

-- A policy for half of the targets of one tenant.
abbrev halved : PromotionPolicy
halved = record careful {
  canary = record { tenant_ids = lit "acme" ∷ []; resource_ids = []; percentage_bps = 5_000 };
}

canary_decision_lem_example :
    ((canary_decision trust_env invoices halved).bucket
      ≡ (((154 * 256 + 170) * 256 + 170) * 256 + 170) % 10_000)
    × (((canary_decision trust_env invoices halved).assigned ≡ true) ↔ (
        IsInScope halved.canary.tenant_ids invoices.tenant_id
        × IsInScope halved.canary.resource_ids invoices.resource_id
        × ((((154 * 256 + 170) * 256 + 170) * 256 + 170) % 10_000 < halved.canary.percentage_bps)))
unfolding opened
canary_decision_lem_example =
    canary_decision_lem trust_env invoices halved 154 170 170 170 (omega arith) (omega arith)
      (omega arith) (omega arith) refl
