-- ===== src/Trust/Calls.antt =====
-- Histories of the ladder: any sequence of calls of its methods, by any callers.
use ghostapi.Common.{ℕ, Text, Option, List, [], ◌∷◌, Result}
use ghostapi.Trust.Types.{
  Env, Level, Target, PromotionPolicy, Evidence, Owner, Observation, OutcomeObservation,
  CanaryOutcome,
}
use ghostapi.Trust.Store.{Store}
use ghostapi.Trust.Ladder.{
  inspect, assign_canary, promote, compare_shadow, compare_bounded_outcome, record_canary_outcome,
  rollback_to_approval,
}

pub data Call : Type 0 where
  inspects : Target → Call
  assigns : Target → PromotionPolicy → Call
  promotes : Target → Level → PromotionPolicy → Evidence → Result Owner → Call
  compares : Observation → Observation → Call
  compares_outcomes : OutcomeObservation → OutcomeObservation → Call
  records : Target → PromotionPolicy → CanaryOutcome → Text → Call
  rolls_back : Target → PromotionPolicy → Result Owner → Text → Call

-- A call with the reading of the clock in it.
abbrev pub Timed : Type 0
Timed = Option ℕ × Call

unfoldable pub step : Env → Timed → Store → Store
step env (clock, inspects target) store = (inspect env clock target store).1
step env (clock, assigns target policy) store = (assign_canary env clock target policy store).1
step env (clock, promotes target level policy evidence identity) store =
    (promote env clock target level policy evidence identity store).1
step env (clock, compares prediction actual) store =
    (compare_shadow env clock prediction actual store).1
step env (clock, compares_outcomes prediction actual) store =
    (compare_bounded_outcome env clock prediction actual store).1
step env (clock, records target policy outcome reason) store =
    (record_canary_outcome env clock target policy outcome reason store).1
step env (clock, rolls_back target policy identity reason) store =
    (rollback_to_approval env clock target policy identity reason store).1

unfoldable pub run : Env → List Timed → Store → Store
unfolding step
run env [] store = store
run env (c ∷ cs) store = run env cs (step env c store)
