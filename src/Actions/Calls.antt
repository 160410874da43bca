-- ===== src/Actions/Calls.antt =====
-- Histories of the gateway: any sequence of calls of its methods, each by a gateway of its own with
-- any adapter, verifier and clock. Between them others may change the safety controller's store and
-- the world, but not the files of the actions.
use ghostapi.Common.{ℕ, Text, Option, List, [], ◌∷◌, Result}
use ghostapi.Safety.Store.{Store}
use ghostapi.Actions.Types.{
  Env, ActionEnvelope, ActionApproval, PolicyCheck, Phase, Verification, ExecutionIdentity,
}
use ghostapi.Actions.Adapters.{Stores, Adapter}
use ghostapi.Actions.Gateway.{submit, execute, compensate}

-- The options of a gateway, with the readings of its clock and its random ids in one call.
pub record Gateway (W Effect : Type 0) : Type 0 where
  pub adapter : Adapter W Effect
  pub verify : Phase → ActionEnvelope → ActionApproval → Result Verification
  pub clock : ℕ → Option ℕ
  pub fresh : ℕ → Text

pub data Call (W Effect : Type 0) : Type 0 where
  submits : Gateway W Effect → ActionEnvelope → ActionApproval → PolicyCheck → Call W Effect
  executes : Gateway W Effect → ActionEnvelope → ExecutionIdentity → PolicyCheck → Call W Effect
  compensates : Gateway W Effect → Text → Call W Effect
  others : (Store × W → Store × W) → Call W Effect

module _ {W Effect : Type 0} (env : Env) where
  unfoldable pub step : Call W Effect → Stores W → Stores W
  step (Call.submits g action approval policy) s =
      (submit env g.adapter g.verify g.clock g.fresh action approval policy s).1
  step (Call.executes g action identity policy) s =
      (execute env g.adapter g.verify g.clock g.fresh action identity policy s).1
  step (Call.compensates g action_id) s =
      (compensate env g.adapter g.verify g.clock g.fresh action_id s).1
  step (Call.others change) s =
      let both = change (s.safety, s.world) in record s { safety = both.0; world = both.1 }

  unfoldable pub run : List (Call W Effect) → Stores W → Stores W
  unfolding step
  run [] s = s
  run (c ∷ cs) s = run cs (step c s)
