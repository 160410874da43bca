-- ===== src/Safety/Validate/Laws.antt =====
-- What the validators return: a value that passes is returned as it is, but for the trimmed texts.
use ghostapi.Common.{
  ℕ, ◌<◌, length, Text, String, lit, trim, is_some, text_eq, none, some, Option, ◌≡◌, refl, sym, ap,
  ◌∙◌, ◌⊎◌, inl, inr, Bool, true, false, List, [], ◌∷◌, Result, ok, err, Failure, arith, ◌>>=◌,
  Option-cases, require, map_ok, ok_inj, bind-elim, require-eq-ok, text_eq_sound,
}
use ghostapi.Safety.Types.{Env, ScopeKind, Scope, Costs, Action, Switch, Limits, Budget, Entry}
use ghostapi.Safety.Scope.{kind_eq_sound, ledger_key}
use ghostapi.Safety.Validate.Fields.{
  positive, non_negative, bounded_ms, hash, timestamp, identifier, is_safe_text, invalid, text,
  array, optional,
}
use ghostapi.Safety.Validate.Controls.{
  validate_scope, validate_switch, validate_budget, validate_limits, amount, has_limit,
}
use ghostapi.Safety.Validate.Records.{
  validate_costs, validate_action, validate_ledger, validate_outcome, fits_status, status_message,
}

-- A check of a value gives that value or throws.
abbrev pub Gives {ℓ} : {A : Type ℓ} → A → Result A → Type ℓ
Gives a r = (r ≡ ok a) ⊎ ((e : Failure) × (r ≡ err e))

pub Gives-bind {ℓ κ} :
    {A : Type ℓ} {B : Type κ} {a : A} {b : B} {m : Result A} (f : A → Result B)
    → Gives a m
    → Gives b (f a)
    → Gives b (m >>= f)
Gives-bind f (inl e) h = rw e h
Gives-bind f (inr (e, h)) _ = inr (e, rw h refl)

pub Gives-eq {ℓ} : {A : Type ℓ} {a b : A} {r : Result A} → Gives a r → r ≡ ok b → b ≡ a
Gives-eq (inl e) h = cc
Gives-eq (inr (e, h)) k = cc

require-Gives : (b : Bool) (message : Text) → Gives tt (require b message)
require-Gives true message = inl refl
require-Gives false message = inr (record { message = message; code = none }, refl)

pub non_negative-Gives : (n : ℕ) (label : Text) (max : ℕ) → Gives n (non_negative n label max)
unfolding non_negative
non_negative-Gives n label max = ground arith

pub hash-Gives : (s label : Text) → Gives s (hash s label)
unfolding hash
hash-Gives s label = ground arith

pub timestamp-Gives : (n : ℕ) (label : Text) → Gives n (timestamp n label)
unfolding timestamp
timestamp-Gives n label = ground arith

validate_costs-Gives : (c : Costs) → Gives c (validate_costs c)
unfolding validate_costs
validate_costs-Gives c = Gives-bind _ (non_negative-Gives _ _ _) (
    Gives-bind _ (non_negative-Gives _ _ _) (
      Gives-bind _ (non_negative-Gives _ _ _) (
        Gives-bind _ (non_negative-Gives _ _ _) (
          Gives-bind _ (non_negative-Gives _ _ _)
            (Gives-bind _ (non_negative-Gives _ _ _) (inl refl))))))

positive-Gives : (n : ℕ) (label : Text) (max : ℕ) → Gives n (positive n label max)
unfolding positive
positive-Gives n label max = ground arith

bounded_ms-Gives : (n : ℕ) (label : Text) → Gives n (bounded_ms n label)
unfolding bounded_ms
bounded_ms-Gives n label = positive-Gives n label _

pub optional-Gives :
    {A : Type 0} (f : A → Result A) (o : Option A)
    → ((a : A) → Gives a (f a))
    → Gives o (optional f o)
optional-Gives f none h = inl refl
optional-Gives f (some a) h = Gives-bind _ (h a) (inl refl)

amount-Gives : (label : String) (o : Option ℕ) → Gives o (amount label o)
unfolding amount
amount-Gives label o = optional-Gives _ o (λ n. non_negative-Gives n _ _)

validate_limits-Gives : (l : Limits) → Gives l (validate_limits l)
unfolding validate_limits
validate_limits-Gives l = Gives-bind _ (amount-Gives _ _) (
    Gives-bind _ (amount-Gives _ _) (
      Gives-bind _ (amount-Gives _ _) (
        Gives-bind _ (amount-Gives _ _) (
          Gives-bind _ (amount-Gives _ _) (
            Gives-bind _ (amount-Gives _ _) (
              Gives-bind _ (amount-Gives _ _) (
                Gives-bind _ (amount-Gives _ _) (
                  Gives-bind (λ _. ok l)
                    (require-Gives (has_limit l) (lit "Safety budget requires at least one limit."))
                    (inl refl)))))))))

-- A list of values, each of which is given as it is.
pub map_ok-eq-ok :
    {A : Type 0} (f : A → Result A) (xs : List A) {ys : List A}
    → ((a : A) → Gives a (f a))
    → map_ok f xs ≡ ok ys
    → ys ≡ xs
map_ok-eq-ok f [] g h = sym (ok_inj h)
map_ok-eq-ok f (x ∷ xs) g h = bind-elim (f x) _ h λ y e h1.
    bind-elim (map_ok f xs) _ h1
      λ zs e' h2. rw (← ok_inj h2, Gives-eq (g x) e, map_ok-eq-ok f xs g e') refl

module _ (env : Env) where
  pub identifier-Gives : (s label : Text) → Gives s (identifier env s label)
  unfolding identifier
  identifier-Gives s label = ground arith

  pub text-Gives : (s label : Text) (max : ℕ) → Gives (trim s) (text env s label max)
  unfolding text
  text-Gives s label max = ground arith

  pub validate_scope-Gives : (s : Scope) → Gives s (validate_scope env s)
  unfolding validate_scope identifier
  validate_scope-Gives s = elim (Option-cases s.id) [
    | inl e ↦ ground (arith, kind_eq_sound s.kind ScopeKind.global)
    | inr (id, e) ↦ ground (arith, kind_eq_sound s.kind ScopeKind.global)
  ]

  pub validate_switch-Gives :
      (c : Switch) → Gives (record c { reason = trim c.reason }) (validate_switch env c)
  unfolding validate_switch
  validate_switch-Gives c = Gives-bind _ (validate_scope-Gives c.scope) (
      Gives-bind _ (timestamp-Gives _ _)
        (Gives-bind _ (text-Gives _ _ _) (Gives-bind _ (identifier-Gives _ _) (inl refl))))

  pub validate_action-Gives : (a : Action) → Gives a (validate_action env a)
  unfolding validate_action
  validate_action-Gives a = Gives-bind _ (identifier-Gives _ _) (
      Gives-bind _ (identifier-Gives _ _) (
        Gives-bind _ (identifier-Gives _ _) (
          Gives-bind _ (identifier-Gives _ _) (
            Gives-bind _ (identifier-Gives _ _) (
              Gives-bind _ (identifier-Gives _ _) (
                Gives-bind _ (identifier-Gives _ _) (
                  Gives-bind _ (identifier-Gives _ _) (
                    Gives-bind _ (hash-Gives _ _)
                      (Gives-bind _ (validate_costs-Gives _) (inl refl))))))))))

  pub validate_budget-Gives : (b : Budget) → Gives b (validate_budget env b)
  unfolding validate_budget
  validate_budget-Gives b = Gives-bind _ (validate_limits-Gives _) (
      Gives-bind _ (identifier-Gives _ _) (
        Gives-bind _ (validate_scope-Gives _)
          (Gives-bind _ (bounded_ms-Gives _ _) (Gives-bind _ (bounded_ms-Gives _ _) (inl refl)))))

  -- A ledger entry keeps all but the white space around its texts.
  pub validate_ledger-inv :
      (e : Entry) {f : Entry}
      → validate_ledger env e ≡ ok f
      → (f.action ≡ e.action)
        × (f.status ≡ e.status)
        × (f.admitted_at ≡ e.admitted_at)
        × (f.completed_at ≡ e.completed_at)
        × (f.key ≡ trim e.key)
        × (trim e.key ≡ ledger_key e.action)
  unfolding validate_ledger
  validate_ledger-inv e h = bind-elim (validate_action env e.action) _ h λ a e1 h1.
      bind-elim (optional (λ t. timestamp t _) e.completed_at) _ h1 λ completed_at e2 h2.
        bind-elim (optional (validate_outcome env) e.outcome) _ h2 λ outcome e3 h3.
          bind-elim
            (require (fits_status e.status (is_some completed_at) (is_some outcome))
              (status_message e.status))
            _ h3
            λ _ e4 h4. bind-elim (text env e.key _ 300) _ h4 λ key e5 h5.
              bind-elim
                (require (text_eq key (ledger_key a))
                  (lit "Safety ledger key does not match its action."))
                _ h5
                λ _ e6 h6. bind-elim (timestamp e.admitted_at _) _ h6 λ admitted_at e7 h7.
                  let f = ok_inj h7 in
                  let same = Gives-eq (validate_action-Gives e.action) e1 in
                  let of_key = Gives-eq (text-Gives e.key _ 300) e5 in
                  (
                    sym (ap (λ (x : Entry). x.action) f) ∙ same,
                    sym (ap (λ (x : Entry). x.status) f),
                    sym (ap (λ (x : Entry). x.admitted_at) f)
                        ∙ Gives-eq (timestamp-Gives e.admitted_at _) e7,
                    sym (ap (λ (x : Entry). x.completed_at) f)
                        ∙ Gives-eq (optional-Gives _ e.completed_at (λ t. timestamp-Gives t _)) e2,
                    sym (ap (λ (x : Entry). x.key) f) ∙ of_key,
                    sym of_key ∙ text_eq_sound _ _ (require-eq-ok _ _ e6) ∙ ap ledger_key same,
                  )

-- A text that is too long is refused.
pub text-long :
    (env : Env) (s label : Text) (max : ℕ)
    → max < length s
    → (e : Failure) × (text env s label max ≡ err e)
unfolding text is_safe_text invalid
text-long env s label max h = (record { message = invalid label; code = none }, ground (arith, h))

pub array-ok {ℓ} :
    {A : Type ℓ} (xs : List A) (label : Text) (n : ℕ) {ys : List A}
    → array xs label n ≡ ok ys
    → ys ≡ xs
unfolding array
array-ok xs label n {ys} e = ground arith

-- A check of each entry of a list gives the list.
pub map_ok-Gives {ℓ} :
    {A : Type ℓ} (f : A → Result A) (xs : List A) {ys : List A}
    → ((x : A) → Gives x (f x))
    → map_ok f xs ≡ ok ys
    → ys ≡ xs
map_ok-Gives f [] gives e = sym (ok_inj e)
map_ok-Gives f (x ∷ xs) gives h = bind-elim (f x) _ h λ y e h1.
    bind-elim (map_ok f xs) _ h1 λ ys e' k.
      let p = Gives-eq (gives x) e in
      let q = map_ok-Gives f xs gives e' in sym (ok_inj k) ∙ (λ i. p i ∷ q i)
