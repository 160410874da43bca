-- ===== src/Safety/Calls.antt =====
-- Histories of the store: any sequence of calls of the controller's methods, by any callers. The
-- file lock makes each mutation one step; the two mutations of a `commit` are two calls, between
-- which others may come, and a game day is a stop, an admission, a re-enabling and a record.
pub mod Invariants
use ghostapi.Common.{ℕ, Text, Option, List, [], ◌∷◌, Result}
use ghostapi.Safety.Types.{Env, Scope, Action, Budget, Circuit, Operator, Outcome}
use ghostapi.Safety.Store.{Store, mutate}
use ghostapi.Safety.Operator.{configure_budget, configure_circuit, stop, reenable}
use ghostapi.Safety.Lease.{Lease, admit, assert_active, commit_check, commit_record, complete}
use ghostapi.Safety.Queue.{enqueue, dequeue}
use ghostapi.Safety.GameDay.{record_drill}

pub data Call : Type 0 where
  configures_budget : Result Operator → Budget → Call
  configures_circuit : Result Operator → Circuit → Call
  stops reenables : Result Operator → Scope → Text → Call
  admits enqueues : Action → Call
  asserts checks_commit records_commit : Lease → Call
  completes : Lease → Outcome → Call
  dequeues : Call
  records_drill : Action → Text → Call

-- The store after a call at a reading of the clock.
unfoldable pub step : Env → Option ℕ × Call → Store → Store
step env (clock, Call.configures_budget identity budget) store =
    (configure_budget env identity clock budget store).1
step env (clock, Call.configures_circuit identity circuit) store =
    (configure_circuit env identity clock circuit store).1
step env (clock, Call.stops identity scope reason) store =
    (stop env identity clock scope reason store).1
step env (clock, Call.reenables identity scope reason) store =
    (reenable env identity clock scope reason store).1
step env (clock, Call.admits a) store = (admit env clock a store).1
step env (clock, Call.enqueues a) store = (enqueue env clock a store).1
step env (clock, Call.asserts l) store = (assert_active env l clock store).1
step env (clock, Call.checks_commit l) store = (mutate env clock (commit_check env l) store).1
step env (clock, Call.records_commit l) store = (mutate env clock (commit_record env l) store).1
step env (clock, Call.completes l outcome) store = (complete env l clock outcome store).1
step env (clock, Call.dequeues) store = (dequeue env clock store).1
step env (clock, Call.records_drill a reason) store =
    (mutate env clock (record_drill env a reason) store).1

unfoldable pub run : Env → List (Option ℕ × Call) → Store → Store
unfolding step
run env [] store = store
run env (c ∷ cs) store = run env cs (step env c store)
