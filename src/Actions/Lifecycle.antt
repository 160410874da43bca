-- ===== src/Actions/Lifecycle.antt =====
-- The stages of an action's record, as a state machine over the statuses of its receipts.
pub mod Records
pub mod Finds
pub mod Writes
pub mod Refines
use ghostapi.Common.{◌≡◌, refl, List, [], ◌∷◌, map, Option, none, some}
use ghostapi.Actions.Types.{
  ReceiptStatus, requested, attempted, committed, verified, failed, StoredAction,
}

-- Before and after `submit`; an attempt under way, failed, or committed; a commit that verification
-- did not prove, or did; and a proof found after that or after a failure.
pub data Stage : Type 0 where
  absent submitted started failing done disputed proven settled reconciled : Stage

-- The statuses of the receipts at a stage, in order.
abbrev pub statuses : Stage → List ReceiptStatus
statuses absent = []
statuses submitted = requested ∷ []
statuses started = requested ∷ attempted ∷ []
statuses failing = requested ∷ attempted ∷ failed ∷ []
statuses done = requested ∷ attempted ∷ committed ∷ []
statuses disputed = requested ∷ attempted ∷ committed ∷ failed ∷ []
statuses proven = requested ∷ attempted ∷ committed ∷ verified ∷ []
statuses settled = requested ∷ attempted ∷ committed ∷ failed ∷ verified ∷ []
statuses reconciled = requested ∷ attempted ∷ failed ∷ committed ∷ verified ∷ []

-- One write of a record.
pub data Next : Stage → Stage → Type 0 where
  submits : Next absent submitted
  attempts : Next submitted started
  fails : Next started failing
  commits : Next started done
  disputes : Next done disputed
  proves : Next done proven
  settles : Next disputed settled
  recovers : Next started proven
  reconciles : Next failing reconciled

pub data Reach (g : Stage) : Stage → Type 0 where
  here : Reach g g
  next : {h k : Stage} → Reach g h → Next h k → Reach g k

pub once : {g h : Stage} → Next g h → Reach g h
once n = next here n

pub Reach-trans : {g h k : Stage} → Reach g h → Reach h k → Reach g k
Reach-trans r here = r
Reach-trans r (next q n) = next (Reach-trans r q) n

-- The statuses in a record.
abbrev pub statuses_of : StoredAction → List ReceiptStatus
statuses_of r = map (λ x. x.status) r.receipts

-- A file that is missing or whose record is at a stage.
abbrev pub Stands : Option StoredAction → Stage → Type 0
Stands none absent = Unit
Stands none _ = ⊥
Stands (some r) absent = ⊥
Stands (some r) g = statuses_of r ≡ statuses g

-- The stages at which an attempt was made.
abbrev pub IsAttempted : Stage → Type 0
IsAttempted absent = ⊥
IsAttempted submitted = ⊥
IsAttempted _ = Unit

pub Next-IsAttempted : {g h : Stage} → Next g h → IsAttempted g → IsAttempted h
Next-IsAttempted submits a = absurd a
Next-IsAttempted attempts a = tt
Next-IsAttempted fails a = tt
Next-IsAttempted commits a = tt
Next-IsAttempted disputes a = tt
Next-IsAttempted proves a = tt
Next-IsAttempted settles a = tt
Next-IsAttempted recovers a = tt
Next-IsAttempted reconciles a = tt

pub Reach-IsAttempted : {g h : Stage} → Reach g h → IsAttempted g → IsAttempted h
Reach-IsAttempted here a = a
Reach-IsAttempted (next r n) a = Next-IsAttempted n (Reach-IsAttempted r a)

pub Next-Stands :
    {g h : Stage} (r : StoredAction) → Next g h → statuses_of r ≡ statuses h → Stands (some r) h
Next-Stands r submits e = e
Next-Stands r attempts e = e
Next-Stands r fails e = e
Next-Stands r commits e = e
Next-Stands r disputes e = e
Next-Stands r proves e = e
Next-Stands r settles e = e
Next-Stands r recovers e = e
Next-Stands r reconciles e = e

pub Stands-statuses :
    (r : StoredAction) (g : Stage) → Stands (some r) g → statuses_of r ≡ statuses g
Stands-statuses r absent at = absurd at
Stands-statuses r submitted at = at
Stands-statuses r started at = at
Stands-statuses r failing at = at
Stands-statuses r done at = at
Stands-statuses r disputed at = at
Stands-statuses r proven at = at
Stands-statuses r settled at = at
Stands-statuses r reconciled at = at

pub Stands-none : (g : Stage) → Stands none g → g ≡ absent
Stands-none absent at = refl
Stands-none submitted at = absurd at
Stands-none started at = absurd at
Stands-none failing at = absurd at
Stands-none done at = absurd at
Stands-none disputed at = absurd at
Stands-none proven at = absurd at
Stands-none settled at = absurd at
Stands-none reconciled at = absurd at
