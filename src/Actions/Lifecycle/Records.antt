-- ===== src/Actions/Lifecycle/Records.antt =====
-- What reading and writing do to the statuses of a record.
use ghostapi.Common.{
  lit, fail, ◌≡◌, refl, sym, ap, ◌∙◌, ℕ, Text, Option, none, some, List, [], ◌∷◌, ◌++◌, map, Host,
  ok, err, Failure, ok_inj, bind-elim, Result-cases, Bool-cases, inl, inr, ◌⊎◌, leb, length,
}
use ghostapi.Common.Action.{Op, ◌>>=◌}
use ghostapi.Safety.Validate.Laws.{Gives-eq}
use ghostapi.Safety.Validate.{optional}
use ghostapi.Actions.Fields.{identifier, timestamp_value}
use ghostapi.Actions.Types.{Env, StoredAction, Receipt, ReceiptStatus, ReceiptResult, FailureCode}
use ghostapi.Actions.Gives.{validate_stored_action-Gives}
use ghostapi.Actions.Records.{
  validate_stored_action, read_stored_action, max_action_bytes, require_stored_action,
  create_receipt, append_receipt, max_receipts,
}
use ghostapi.Actions.Adapters.{Stores, put_file}
use ghostapi.Actions.Gateway.{write_stored_action, add_receipt}
use ghostapi.Actions.Lifecycle.{statuses_of}

-- A record that is read is the record on file.
pub read_stored_action-file :
    (env : Env) (file : Option StoredAction) {found : Option StoredAction}
    → read_stored_action env file ≡ ok found
    → found ≡ file
unfolding read_stored_action
read_stored_action-file env none h = sym (ok_inj h)
read_stored_action-file env (some r) h =
    elim (Bool-cases (leb (env.action_bytes r) max_action_bytes)) [
      | inl e ↦
          bind-elim (validate_stored_action env.host r) _ (rw e at h)
            λ v k h1. rw (← Gives-eq (validate_stored_action-Gives env.host r) k) (sym (ok_inj h1))
      | inr e ↦ (let k = rw e at h in cc)
    ]

pub require_stored_action-file :
    (env : Env) (file : Option StoredAction) {r : StoredAction}
    → require_stored_action env file ≡ ok r
    → file ≡ some r
unfolding require_stored_action
require_stored_action-file env file {r} h =
    bind-elim (read_stored_action env file) _ h
      λ found e h1. sym (read_stored_action-file env file e) ∙ given found h1
  where
    given :
        (found : Option StoredAction)
        → (elim found [ none ↦ fail (lit "Action was not found.") | some x ↦ ok x ]) ≡ ok r
        → found ≡ some r
    given none h = cc
    given (some x) h = ap some (ok_inj h)

pub create_receipt-status :
    (host : Host) (r : StoredAction) (status : ReceiptStatus) (now : ℕ) (fresh : Text)
    (p : Option Text) (result : Option ReceiptResult) (failure : Option FailureCode) {x : Receipt}
    → create_receipt host r status now fresh p result failure ≡ ok x
    → x.status ≡ status
unfolding create_receipt
create_receipt-status host r status now fresh p result failure h =
    bind-elim (identifier host (lit "receipt-" ++ fresh) _) _ h λ _ _ h1.
      bind-elim (timestamp_value now _) _ h1 λ _ _ h2.
        bind-elim (optional (λ q. identifier host q (lit "Provider request id")) p) _ h2
          λ _ _ h3. sym (ap (λ y. y.status) (ok_inj h3))

map-append :
    (xs : List Receipt) (y : Receipt)
    → map (λ x. x.status) (xs ++ y ∷ []) ≡ map (λ x. x.status) xs ++ y.status ∷ []
map-append [] y = refl
map-append (x ∷ xs) y = ap (λ zs. x.status ∷ zs) (map-append xs y)

pub append_receipt-statuses :
    (r : StoredAction) (x : Receipt) {r' : StoredAction}
    → append_receipt r x ≡ ok r'
    → statuses_of r' ≡ statuses_of r ++ x.status ∷ []
unfolding append_receipt
append_receipt-statuses r x h = elim (Bool-cases (leb max_receipts (length r.receipts))) [
  | inl e ↦ (let k = rw e at h in cc)
  | inr e ↦ (let k = rw e at h in rw (← ok_inj k) (map-append r.receipts x))
]

module _ {W : Type 0} (env : Env) (id : Text) where
  -- A write puts the record on file, or throws and changes nothing.
  pub write_stored_action-Ends :
      (r : StoredAction) (s : Stores W)
      → (write_stored_action env id r s ≡ (ok tt, record s { files = put_file id r s.files }))
        ⊎ ((e : Failure) × (write_stored_action env id r s ≡ (err e, s)))
  unfolding write_stored_action
  write_stored_action-Ends r s = elim (validate_stored_action-Gives env.host r) [
    | inl e ↦ inl (rw (write_stored_action, e) refl)
    | inr (x, e) ↦ inr (x, rw (write_stored_action, e) refl)
  ]

  pub add_receipt-Ends :
      (r : StoredAction) (status : ReceiptStatus) (now : ℕ) (fresh : Text) (p : Option Text)
      (result : Option ReceiptResult) (failure : Option FailureCode) (s : Stores W)
      → ((r' : StoredAction) × (x : Receipt) × (statuses_of r' ≡ statuses_of r ++ status ∷ [])
          × (add_receipt env id r status now fresh p result failure s
              ≡ (ok (r', x), record s { files = put_file id r' s.files })))
        ⊎ ((e : Failure) × (add_receipt env id r status now fresh p result failure s ≡ (err e, s)))
  unfolding add_receipt
  add_receipt-Ends r status now fresh p result failure s =
      elim (Result-cases (create_receipt env.host r status now fresh p result failure)) [
        | inr (e, made) ↦ inr (e, rw made refl)
        | inl (x, made) ↦ elim (Result-cases (append_receipt r x)) [
          | inr (e, added) ↦ inr (e, rw (made, added) refl)
          | inl (r', added) ↦
              let same =
                append_receipt-statuses r x added
                ∙ ap (λ y. statuses_of r ++ y ∷ [])
                    (create_receipt-status env.host r status now fresh p result failure made) in
              elim (write_stored_action-Ends r' s) [
                | inr (e, written) ↦ inr (e, rw (made, added, written) refl)
                | inl written ↦ inl (r', x, same, rw (made, added, written) refl)
              ]
        ]
      ]

  module _ {B : Type 0} (Q : Stores W → Type 0) where
    -- What holds before a write, and after what follows it on the written file, holds in the end.
    pub add_receipt-then :
        (r : StoredAction) (status : ReceiptStatus) (now : ℕ) (fresh : Text) (p : Option Text)
        (result : Option ReceiptResult) (failure : Option FailureCode) (s : Stores W)
        (f : StoredAction × Receipt → Op (Stores W) B)
        → Q s
        → ((r' : StoredAction) (x : Receipt)
            → statuses_of r' ≡ statuses_of r ++ status ∷ []
            → Q (f (r', x) (record s { files = put_file id r' s.files })).1)
        → Q ((add_receipt env id r status now fresh p result failure >>= f) s).1
    add_receipt-then r status now fresh p result failure s f before after =
        elim (add_receipt-Ends r status now fresh p result failure s) [
          | inl (r', x, same, e) ↦ rw e (after r' x same)
          | inr (x, e) ↦ rw e before
        ]
