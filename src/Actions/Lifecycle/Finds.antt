-- ===== src/Actions/Lifecycle/Finds.antt =====
-- What the receipts that `execute` finds say of the stage of a record.
use ghostapi.Common.{
  ◌≡◌, refl, true, false, none, some, List, [], ◌∷◌, ◌++◌, map, any, is_some, arith, Option-cases,
  inl, inr,
}
use ghostapi.Actions.Types.{StoredAction, Receipt, ReceiptStatus, attempted, committed, verified}
use ghostapi.Actions.Records.{find_latest_receipt, status_eq}
use ghostapi.Actions.Lifecycle.{
  Stage, absent, submitted, started, failing, done, disputed, proven, settled, reconciled, statuses,
  statuses_of, Next, proves, settles, recovers, reconciles, Stands,
}

find_latest_receipt-any :
    (status : ReceiptStatus) (rs : List Receipt)
    → is_some (find_latest_receipt status rs)
      ≡ any (map (λ x. x.status) rs) (λ s. status_eq s status)
unfolding find_latest_receipt
find_latest_receipt-any status [] = refl
find_latest_receipt-any status (r ∷ rs) = ground (arith, find_latest_receipt-any status rs)

module _ (r : StoredAction) where
  found :
      (status : ReceiptStatus) (ss : List ReceiptStatus)
      → statuses_of r ≡ ss
      → is_some (find_latest_receipt status r.receipts) ≡ any ss (λ s. status_eq s status)
  found status ss e = rw (← e) (find_latest_receipt-any status r.receipts)

  impossible :
      {P : Type 0} {x : Receipt} (status : ReceiptStatus) (ss : List ReceiptStatus)
      → statuses_of r ≡ ss
      → find_latest_receipt status r.receipts ≡ some x
      → any ss (λ s. status_eq s status) ≡ false
      → P
  impossible status ss e h no_such =
      (let k = found status ss e in let k' = rw (h, no_such) at k in cc)

  missing :
      {P : Type 0} (status : ReceiptStatus) (ss : List ReceiptStatus)
      → statuses_of r ≡ ss
      → find_latest_receipt status r.receipts ≡ none
      → any ss (λ s. status_eq s status) ≡ true
      → P
  missing status ss e h there = (let k = found status ss e in let k' = rw (h, there) at k in cc)

  -- A record with a commit and no verification is committed, or its commit is disputed.
  pub committed-Next :
      (g : Stage) {x : Receipt}
      → Stands (some r) g
      → find_latest_receipt verified r.receipts ≡ none
      → find_latest_receipt committed r.receipts ≡ some x
      → (h : Stage) × Next g h × (statuses g ++ verified ∷ [] ≡ statuses h)
  unfolding status_eq
  committed-Next absent at v c = absurd at
  committed-Next submitted at v c = impossible committed _ at c refl
  committed-Next started at v c = impossible committed _ at c refl
  committed-Next failing at v c = impossible committed _ at c refl
  committed-Next done at v c = (proven, proves, refl)
  committed-Next disputed at v c = (settled, settles, refl)
  committed-Next proven at v c = missing verified _ at v refl
  committed-Next settled at v c = missing verified _ at v refl
  committed-Next reconciled at v c = missing verified _ at v refl

  -- A record with an attempt and no commit is started, or failed.
  pub attempted-Next :
      (g : Stage) {x : Receipt}
      → Stands (some r) g
      → find_latest_receipt committed r.receipts ≡ none
      → find_latest_receipt attempted r.receipts ≡ some x
      → (h : Stage) × Next g h × ((statuses g ++ committed ∷ []) ++ verified ∷ [] ≡ statuses h)
  unfolding status_eq
  attempted-Next absent at c a = absurd at
  attempted-Next submitted at c a = impossible attempted _ at a refl
  attempted-Next started at c a = (proven, recovers, refl)
  attempted-Next failing at c a = (reconciled, reconciles, refl)
  attempted-Next done at c a = missing committed _ at c refl
  attempted-Next disputed at c a = missing committed _ at c refl
  attempted-Next proven at c a = missing committed _ at c refl
  attempted-Next settled at c a = missing committed _ at c refl
  attempted-Next reconciled at c a = missing committed _ at c refl

  -- A record without an attempt is submitted.
  pub unattempted-submitted :
      (g : Stage)
      → Stands (some r) g
      → find_latest_receipt attempted r.receipts ≡ none
      → g ≡ submitted
  unfolding status_eq
  unattempted-submitted absent at a = absurd at
  unattempted-submitted submitted at a = refl
  unattempted-submitted started at a = missing attempted _ at a refl
  unattempted-submitted failing at a = missing attempted _ at a refl
  unattempted-submitted done at a = missing attempted _ at a refl
  unattempted-submitted disputed at a = missing attempted _ at a refl
  unattempted-submitted proven at a = missing attempted _ at a refl
  unattempted-submitted settled at a = missing attempted _ at a refl
  unattempted-submitted reconciled at a = missing attempted _ at a refl

  none-found :
      (status : ReceiptStatus) (ss : List ReceiptStatus)
      → statuses_of r ≡ ss
      → any ss (λ s. status_eq s status) ≡ false
      → find_latest_receipt status r.receipts ≡ none
  none-found status ss e no_such = elim (Option-cases (find_latest_receipt status r.receipts)) [
    | inl k ↦ k
    | inr (x, k) ↦ impossible status ss e k no_such
  ]

  -- A submitted record has none of the receipts that `execute` looks for.
  pub submitted-none :
      Stands (some r) submitted
      → (find_latest_receipt verified r.receipts ≡ none)
        × (find_latest_receipt committed r.receipts ≡ none)
        × (find_latest_receipt attempted r.receipts ≡ none)
  unfolding status_eq
  submitted-none at = (
    none-found verified _ at refl,
    none-found committed _ at refl,
    none-found attempted _ at refl,
  )
