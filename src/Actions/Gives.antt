-- ===== src/Actions/Gives.antt =====
-- What the validators of actions return: a value that passes is returned as it is.
use ghostapi.Common.{
  lit, ltb, leb, length, ◌&&◌, ◌||◌, not, is_some, and_left, and_right, ◌≡◌, refl, sym, ap, ℕ, Text,
  text_eq, text_eq_sound, true, List, [], ◌∷◌, Host, Result, ok, err, arith, inl, inr, require,
  ◌>>=◌, ◌>>◌, require-eq-ok,
}
use ghostapi.Safety.Validate.Laws.{Gives, Gives-bind, optional-Gives}
use ghostapi.Actions.Types.{
  ActionEnvelope, ActionApproval, StoredAction, Receipt, ReceiptResult, failed,
}
use ghostapi.Actions.Fields.{matches_signature, hash, positive_integer, timestamp_value, identifier}
use ghostapi.Actions.Validate.{
  validate_envelope, validate_side_effects, validate_approval, verify_binding, action_hash,
}
use ghostapi.Actions.Json.{receipt_hash}
use ghostapi.Actions.Records.{
  status_eq, needs_result, starts_requested, normalize_result, validate_receipt, validate_receipts,
  validate_stored_action, max_receipts,
}

hash-Gives : (s label : Text) → Gives s (hash s label)
unfolding hash
hash-Gives s label = ground arith

positive_integer-Gives : (n : ℕ) (label : Text) → Gives n (positive_integer n label)
unfolding positive_integer
positive_integer-Gives n label = ground arith

timestamp_value-Gives : (n : ℕ) (label : Text) → Gives n (timestamp_value n label)
unfolding timestamp_value
timestamp_value-Gives n label = ground arith

-- A check that gives nothing before the rest of a check, which may use that it passed.
check-then :
    {A : Type 0} {a : A} (check : Result (Unit {0})) {rest : Result A}
    → (check ≡ ok tt → Gives a rest)
    → Gives a (check >> rest)
check-then (ok tt) h = h refl
check-then (err e) h = inr (e, refl)

-- A step before the rest of a check, which gives the same whatever the step gives.
step-then :
    {A B : Type 0} {a : A} (m : Result B) {rest : B → Result A}
    → ((b : B) → m ≡ ok b → Gives a (rest b))
    → Gives a (m >>= rest)
step-then (ok b) h = h b refl
step-then (err e) h = inr (e, refl)

relinked :
    (r : Receipt) (action_id digest previous : Text)
    → (text_eq r.action_id action_id
        && text_eq r.action_hash digest
        && text_eq r.previous_receipt_hash previous)
      ≡ true
    → record r {
      base = record r.base {
        action_id = action_id;
        action_hash = digest;
        previous_receipt_hash = previous;
      };
    }
      ≡ r
relinked r action_id digest previous h =
    let front = and_left _ (text_eq r.previous_receipt_hash previous) h in
    let ids = and_left _ (text_eq r.action_hash digest) front in
    let digests = and_right (text_eq r.action_id action_id) _ front in
    let links = and_right (text_eq r.action_id action_id && text_eq r.action_hash digest) _ h in
    rw
      (
        ← text_eq_sound r.action_id action_id ids,
        ← text_eq_sound r.action_hash digest digests,
        ← text_eq_sound r.previous_receipt_hash previous links,
      )
      refl

module _ (host : Host) where
  pub identifier-Gives : (s label : Text) → Gives s (identifier host s label)
  unfolding identifier
  identifier-Gives s label = ground arith

  pub validate_envelope-Gives : (a : ActionEnvelope) → Gives a (validate_envelope host a)
  unfolding validate_envelope
  validate_envelope-Gives a = Gives-bind _ (identifier-Gives _ _) (
      check-then (validate_side_effects host a.operation a.expected_side_effects) λ _.
        Gives-bind _ (identifier-Gives _ _) (
          check-then (require (text_eq a.resource_id a.world_id) _) λ same.
            Gives-bind _ (identifier-Gives _ _) (
              Gives-bind _ (identifier-Gives _ _) (
                Gives-bind _ (identifier-Gives _ _) (
                  Gives-bind _ (identifier-Gives _ _) (
                    Gives-bind _ (identifier-Gives _ _) (
                      Gives-bind _ (positive_integer-Gives _ _) (
                        Gives-bind _ (hash-Gives _ _) (
                          Gives-bind _ (hash-Gives _ _) (
                            Gives-bind _ (timestamp_value-Gives _ _) (
                              Gives-bind _ (identifier-Gives _ _) (
                                inl (
                                  ap (λ w. ok (record a { resource_id = w }))
                                    (sym (
                                      text_eq_sound a.resource_id a.world_id
                                        (require-eq-ok _ _ same))))))))))))))))

  validate_approval-Gives : (a : ActionApproval) → Gives a (validate_approval host a)
  unfolding validate_approval
  validate_approval-Gives a = Gives-bind _ (timestamp_value-Gives _ _) (
      Gives-bind _ (timestamp_value-Gives _ _) (
        check-then (require (ltb a.approved_at a.expires_at) _) λ _.
          check-then (require (matches_signature a.signature) _) λ _.
            Gives-bind _ (identifier-Gives _ _) (
              Gives-bind _ (hash-Gives _ _) (
                Gives-bind _ (identifier-Gives _ _) (
                  Gives-bind _ (identifier-Gives _ _)
                    (Gives-bind _ (identifier-Gives _ _) (inl refl)))))))

  normalize_result-Gives : (r : ReceiptResult) → Gives r (normalize_result host r)
  unfolding normalize_result
  normalize_result-Gives r =
      Gives-bind _ (identifier-Gives _ _)
        (Gives-bind _ (identifier-Gives _ _) (Gives-bind _ (identifier-Gives _ _) (inl refl)))

  validate_receipt-Gives :
      (action_id digest previous : Text) (r : Receipt)
      → Gives r (validate_receipt host action_id digest previous r)
  unfolding validate_receipt
  validate_receipt-Gives action_id digest previous r =
      check-then
        (require
          (text_eq r.action_id action_id
            && text_eq r.action_hash digest
            && text_eq r.previous_receipt_hash previous)
          _)
        λ linked.
          let same = relinked r action_id digest previous (require-eq-ok _ _ linked) in
          Gives-bind _
            (optional-Gives (λ p. identifier host p (lit "Provider request id"))
              r.provider_request_id λ p. identifier-Gives p _)
            (Gives-bind _ (optional-Gives (normalize_result host) r.result normalize_result-Gives) (
              check-then
                (require
                  (not (needs_result r.status)
                    || (is_some r.provider_request_id && is_some r.result))
                  _)
                λ _.
                  check-then (require (not (status_eq r.status failed) || is_some r.failure) _) λ _.
                    Gives-bind _ (identifier-Gives _ _) (
                      Gives-bind _ (timestamp_value-Gives _ _) (
                        Gives-bind _ (hash-Gives _ _) (
                          check-then
                            (require
                              (text_eq r.receipt_hash (
                                receipt_hash host (record r.base {
                                  action_id = action_id;
                                  action_hash = digest;
                                  previous_receipt_hash = previous;
                                })))
                              _)
                            λ _. inl (ap ok same))))))

  validate_receipts-Gives :
      (action_id digest previous : Text) (rs : List Receipt)
      → Gives rs (validate_receipts host action_id digest previous rs)
  unfolding validate_receipts
  validate_receipts-Gives action_id digest previous [] = inl refl
  validate_receipts-Gives action_id digest previous (r ∷ rs) =
      Gives-bind _ (validate_receipt-Gives action_id digest previous r)
        (Gives-bind _ (validate_receipts-Gives action_id digest r.receipt_hash rs) (inl refl))

  pub validate_stored_action-Gives : (r : StoredAction) → Gives r (validate_stored_action host r)
  unfolding validate_stored_action
  validate_stored_action-Gives r = Gives-bind _ (validate_envelope-Gives r.envelope) (
      Gives-bind _ (hash-Gives r.action_hash _) (
        step-then (action_hash host r.envelope) λ expected _.
          check-then (require (text_eq r.action_hash expected) _) λ _.
            Gives-bind _ (validate_approval-Gives r.approval) (
              check-then (verify_binding host r.envelope r.approval) λ _.
                check-then
                  (require (leb 1 (length r.receipts) && leb (length r.receipts) max_receipts) _)
                  λ _.
                    Gives-bind _
                      (validate_receipts-Gives r.envelope.action_id r.action_hash _ r.receipts)
                      (check-then (require (starts_requested r.receipts) _) λ _. inl refl))))
