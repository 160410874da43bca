-- ===== src/Approval/Office.antt =====
-- Histories of the inbox with its gateway: any sequence of calls of its methods, by any callers, each
-- execution by an inbox with an adapter, a verifier and a clock of its own. Between them others may
-- do anything to the stores of the gateway.
use ghostapi.Common.{Text, List, [], ◌∷◌}
use ghostapi.Common.Action.{Op}
use ghostapi.Actions.Types.{Receipt, ExecutionIdentity, PolicyCheck}
use ghostapi.Actions.Adapters.{Stores}
use ghostapi.Actions.Calls.{Gateway}
use ghostapi.Approval.Types.{Env, Policy}
use ghostapi.Approval.Store.{Store, empty_state}
use ghostapi.Approval.Executing.{Desk, execute_approval}
use ghostapi.Approval.Calls as Calls
use ghostapi.Approval.Calls.{Timed}

-- The inbox's file, and the stores of its gateway.
pub record Office (W : Type 0) : Type 0 where
  pub inbox : Store
  pub stores : Stores W

pub data Event (W Effect : Type 0) : Type 0 where
  calls : Timed → Event W Effect
  executes : Gateway W Effect → Text → ExecutionIdentity → PolicyCheck → Policy → Event W Effect
  others : (Stores W → Stores W) → Event W Effect

module _ {W Effect : Type 0} (env : Env) where
  -- What an execution holds in memory before it reads the file does not matter.
  unfoldable pub execute :
      Gateway W Effect → Text → ExecutionIdentity → PolicyCheck → Policy → Op (Office W) Receipt
  unfolding execute_approval
  execute g id identity action_policy policy o =
      let start : Desk W = record {
        memory = empty_state env;
        inbox = o.inbox;
        stores = o.stores;
      } in
      let (result, d) =
        execute_approval env g.adapter g.verify g.clock g.fresh id identity action_policy policy
          start in
      (result, record { inbox = d.inbox; stores = d.stores })

  unfoldable pub step : Event W Effect → Office W → Office W
  unfolding execute
  step (calls c) o = record o { inbox = Calls.step env c o.inbox }
  step (executes g id identity action_policy policy) o =
      (execute g id identity action_policy policy o).1
  step (others change) o = record o { stores = change o.stores }

  unfoldable pub run : List (Event W Effect) → Office W → Office W
  unfolding step
  run [] o = o
  run (e ∷ es) o = run es (step e o)
