-- ===== src/Safety/Store/Validated.antt =====
-- What `validateState` establishes of the state that it returns.
use ghostapi.Common.{
  ℕ, ◌≡◌, ◌≤◌, subst, ok_inj, bind-elim, true, List, map, is_unique, length, [], ◌∷◌, Text, Result,
  ok, >>=-eq-ok, require-eq-ok, arith, map_ok,
}
use ghostapi.Safety.Types.{Env, State}
use ghostapi.Safety.Scope.{scope_key}
use ghostapi.Safety.Validate.{array, unique, hash}
use ghostapi.Safety.Validate.Controls.{
  max_ledger, validate_switch, validate_budget, validate_circuit,
}
use ghostapi.Safety.Validate.Records.{validate_ledger, validate_queue_item, validate_dead_letter}
use ghostapi.Safety.Validate.Laws.{hash-Gives, Gives-eq}
use ghostapi.Safety.Audit.{max_audit, validate_audit, validate_audit_chain}
use ghostapi.Safety.Store.{max_queue, max_dead_letters, validate_state, validated, distinct}

-- The tests of `validateState` on the state that it returns.
pub record IsWellFormed (t : State) : Type 0 where
  pub switch_scopes : is_unique (map (λ c. scope_key c.scope) t.switches) ≡ true
  pub budget_ids : is_unique (map (λ b. b.id) t.budgets) ≡ true
  pub circuit_ids : is_unique (map (λ c. c.id) t.circuits) ≡ true
  pub ledger_keys : is_unique (map (λ e. e.key) t.ledger) ≡ true
  pub idempotency_keys : is_unique (map (λ e. e.action.idempotency_key) t.ledger) ≡ true
  pub queue_ids : is_unique (map (λ q. q.id) t.queue) ≡ true
  pub dead_letter_ids : is_unique (map (λ d. d.id) t.dead_letters) ≡ true
  pub chain : validate_audit_chain t.audit_anchor t.audit ≡ ok tt
  pub ledger_bound : length t.ledger ≤ max_ledger
  pub queue_bound : length t.queue ≤ max_queue
  pub dead_letter_bound : length t.dead_letters ≤ max_dead_letters
  pub audit_bound : length t.audit ≤ max_audit

-- How the parts of the state come from the parts that were validated.
pub record Parts (env : Env) (s t : State) : Type 0 where
  pub switches : map_ok (validate_switch env) s.switches ≡ ok t.switches
  pub budgets : map_ok (validate_budget env) s.budgets ≡ ok t.budgets
  pub circuits : map_ok (validate_circuit env) s.circuits ≡ ok t.circuits
  pub ledger : map_ok (validate_ledger env) s.ledger ≡ ok t.ledger
  pub queue : map_ok (validate_queue_item env) s.queue ≡ ok t.queue
  pub dead_letters : map_ok (validate_dead_letter env) s.dead_letters ≡ ok t.dead_letters
  pub audit : map_ok (validate_audit env) s.audit ≡ ok t.audit
  pub anchor : t.audit_anchor ≡ s.audit_anchor

length-map_ok {ℓ} :
    {A : Type ℓ} (f : A → Result A) (xs : List A) {ys : List A}
    → map_ok f xs ≡ ok ys
    → length ys ≡ length xs
length-map_ok f [] h = ground arith
length-map_ok f (x ∷ xs) h =
    let (y, e, h') = >>=-eq-ok (f x) _ h in
    let (zs, e', h'') = >>=-eq-ok (map_ok f xs) _ h' in ground (arith, length-map_ok f xs e')

array-inv :
    {A : Type 0} (xs : List A) (label : Text) (max : ℕ) {ys : List A}
    → array xs label max ≡ ok ys
    → (ys ≡ xs) × (length xs ≤ max)
unfolding array
array-inv xs label max h = ground arith

validated-inv :
    {A : Type 0} (f : A → Result A) (xs : List A) (label : Text) (max : ℕ) {ys : List A}
    → validated f xs label max ≡ ok ys
    → (map_ok f xs ≡ ok ys) × (length ys ≤ max)
unfolding validated
validated-inv f xs label max h =
    let (zs, e, h') = >>=-eq-ok (array xs label max) _ h in
    let (same, small) = array-inv xs label max e in
    (rw (← same) h', rw (length-map_ok f zs h') (rw same small))

unique-inv :
    (xs : List Text) (label : Text) {u : Unit {0}} → unique xs label ≡ ok u → is_unique xs ≡ true
unfolding unique
unique-inv xs label h = require-eq-ok _ _ h

distinct-inv :
    {A : Type 0} (f : A → Result A) (key : A → Text) (xs : List A) (label : Text) (max : ℕ)
    (keys : Text) {ys : List A}
    → distinct f key xs label max keys ≡ ok ys
    → (map_ok f xs ≡ ok ys) × (length ys ≤ max) × (is_unique (map key ys) ≡ true)
unfolding distinct
distinct-inv f key xs label max keys h = bind-elim (validated f xs label max) _ h λ zs e h1.
    bind-elim (unique (map key zs) keys) _ h1 λ _ u h2.
      let (mapped, small) = validated-inv f xs label max e in
      let same = ok_inj h2 in
      (rw (← same) mapped, rw (← same) small, rw (← same) (unique-inv _ keys u))

module _ (env : Env) where
  -- A state that is returned is well formed, and each part of it is a validated part.
  pub validate_state-inv :
      (s : State) {t : State} → validate_state env s ≡ ok t → Parts env s t × IsWellFormed t
  unfolding validate_state
  validate_state-inv s {t} h =
      bind-elim (distinct (validate_switch env) _ s.switches _ _ _) _ h λ switches e1 h1.
        bind-elim (distinct (validate_budget env) _ s.budgets _ _ _) _ h1 λ budgets e2 h2.
          bind-elim (distinct (validate_circuit env) _ s.circuits _ _ _) _ h2 λ circuits e3 h3.
            bind-elim (distinct (validate_ledger env) _ s.ledger _ _ _) _ h3 λ ledger e4 h4.
              bind-elim (unique _ _) _ h4 λ _ u h5.
                bind-elim (distinct (validate_queue_item env) _ s.queue _ _ _) _ h5 λ queue e5 h6.
                  bind-elim (distinct (validate_dead_letter env) _ s.dead_letters _ _ _) _ h6
                    λ letters e6 h7. bind-elim (hash s.audit_anchor _) _ h7 λ anchor e7 h8.
                      bind-elim (validated (validate_audit env) s.audit _ _) _ h8 λ audit e8 h9.
                        bind-elim (validate_audit_chain anchor audit) _ h9 λ _ c h10.
                          subst (λ t. Parts env s t × IsWellFormed t) (ok_inj h10)
                            (
                              record {
                                switches = (distinct-inv _ _ _ _ _ _ e1).0;
                                budgets = (distinct-inv _ _ _ _ _ _ e2).0;
                                circuits = (distinct-inv _ _ _ _ _ _ e3).0;
                                ledger = (distinct-inv _ _ _ _ _ _ e4).0;
                                queue = (distinct-inv _ _ _ _ _ _ e5).0;
                                dead_letters = (distinct-inv _ _ _ _ _ _ e6).0;
                                audit = (validated-inv _ _ _ _ e8).0;
                                anchor = Gives-eq (hash-Gives _ _) e7;
                              },
                              record {
                                switch_scopes = (distinct-inv _ _ _ _ _ _ e1).2;
                                budget_ids = (distinct-inv _ _ _ _ _ _ e2).2;
                                circuit_ids = (distinct-inv _ _ _ _ _ _ e3).2;
                                ledger_keys = (distinct-inv _ _ _ _ _ _ e4).2;
                                idempotency_keys = unique-inv _ _ u;
                                queue_ids = (distinct-inv _ _ _ _ _ _ e5).2;
                                dead_letter_ids = (distinct-inv _ _ _ _ _ _ e6).2;
                                chain = c;
                                ledger_bound = (distinct-inv _ _ _ _ _ _ e4).1;
                                queue_bound = (distinct-inv _ _ _ _ _ _ e5).1;
                                dead_letter_bound = (distinct-inv _ _ _ _ _ _ e6).1;
                                audit_bound = (validated-inv _ _ _ _ e8).1;
                              },
                            )
