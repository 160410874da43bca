-- ===== src/Safety/Store/Laws.antt =====
-- How a mutation ends: it throws and the store is as it was, or the validated state is written.
use ghostapi.Common.{
  ℕ, ◌≡◌, refl, ap, inl, inr, Option, none, some, Result, ok, err, Failure, Result-cases,
  Option-cases, lit, arith,
}
use ghostapi.Common.Action.{Op}
use ghostapi.Safety.Types.{Env, State}
use ghostapi.Safety.Store.{Store, read, timestamp, mutate, persist, validate_state}

clock_error : Failure
clock_error = record { message = lit "Safety controller clock is invalid."; code = none }

-- The ways in which a mutation ends.
pub data Ends {A : Type 0} (env : Env) (clock : Option ℕ) (operation : ℕ → Op State A)
    (store : Store) (r : Result A × Store) : Type 0 where
  throws : (e : Failure) → r ≡ (err e, store) → Ends env clock operation store r
  writes :
      (s : State) (now : ℕ) (a : A) (t u : State)
      → clock ≡ some now
      → read env store ≡ ok s
      → operation now s ≡ (ok a, t)
      → validate_state env t ≡ ok u
      → r ≡ (ok a, some u)
      → Ends env clock operation store r

module _ {A : Type 0} (env : Env) where
  pub persist-Ends :
      (clock : Option ℕ) (operation : ℕ → Op State A) (store : Store) (s : State) (now : ℕ)
      → clock ≡ some now
      → read env store ≡ ok s
      → Ends env clock operation store (persist env (operation now s) store)
  unfolding persist
  persist-Ends clock operation store s now c e = split (operation now s).0 (operation now s).1 refl
    where
      split :
          (r : Result A) (t : State)
          → operation now s ≡ (r, t)
          → Ends env clock operation store (persist env (r, t) store)
      split (err f) t h = throws f refl
      split (ok a) t h = elim (Result-cases (validate_state env t)) [
        | inl (u, v) ↦ writes s now a t u c e h v (rw (v, persist) refl)
        | inr (f, v) ↦ throws f (rw (v, persist) refl)
      ]

  pub mutate-Ends :
      (clock : Option ℕ) (operation : ℕ → Op State A) (store : Store)
      → Ends env clock operation store (mutate env clock operation store)
  unfolding mutate timestamp clock_error
  mutate-Ends clock operation store = elim (Result-cases (read env store)) [
    | inr (f, e) ↦ throws f (rw (e, mutate) refl)
    | inl (s, e) ↦ elim (Option-cases clock) [
      | inl k ↦ throws clock_error (rw (e, k, mutate) refl)
      | inr (now, k) ↦ rw (e, k, mutate) (persist-Ends (some now) operation store s now refl e)
    ]
  ]

-- A property of the states that the validator and an operation keep, the store keeps.
abbrev pub Holds {ℓ} : (State → Type ℓ) → Env → Store → Type ℓ
Holds P env store = (s : State) → read env store ≡ ok s → P s

-- The validator keeps a property of the states.
abbrev pub Survives {ℓ} : (State → Type ℓ) → Env → Type ℓ
Survives P env = (s t : State) → P s → validate_state env s ≡ ok t → P t

module _ {ℓ} (P : State → Type ℓ) (env : Env) (survives : Survives P env) where
  pub Holds-some : (u : State) → P u → Holds P env (some u)
  unfolding read
  Holds-some u p s e = survives u s p (ground arith)

  Ends-Holds :
      {A : Type 0} (clock : Option ℕ) (operation : ℕ → Op State A) (store : Store)
      (r : Result A × Store)
      → ((now : ℕ) (s : State) (a : A) (t : State) → P s → operation now s ≡ (ok a, t) → P t)
      → Holds P env store
      → Ends env clock operation store r
      → Holds P env r.1
  Ends-Holds clock operation store r keeps h (throws f e) = rw e h
  Ends-Holds clock operation store r keeps h (writes s now a t u c e k v w) =
      rw w (Holds-some u (survives t u (keeps now s a t (h s e) k) v))

  pub mutate-Holds :
      {A : Type 0} (clock : Option ℕ) (operation : ℕ → Op State A) (store : Store)
      → ((now : ℕ) (s : State) (a : A) (t : State) → P s → operation now s ≡ (ok a, t) → P t)
      → Holds P env store
      → Holds P env (mutate env clock operation store).1
  mutate-Holds clock operation store keeps h =
      Ends-Holds clock operation store _ keeps h (mutate-Ends env clock operation store)

-- A mutation that gives a value has written a validated state.
pub record Wrote {A : Type 0} (env : Env) (clock : Option ℕ) (operation : ℕ → Op State A)
    (store : Store) (a : A) (after : Store) : Type 0 where
  pub before : State
  pub now : ℕ
  pub changed : State
  pub written : State
  pub clock_reading : clock ≡ some now
  pub was_read : read env store ≡ ok before
  pub ran : operation now before ≡ (ok a, changed)
  pub valid : validate_state env changed ≡ ok written
  pub stored : after ≡ some written

pub mutate-Wrote :
    {A : Type 0} (env : Env) (clock : Option ℕ) (operation : ℕ → Op State A) (store : Store) {a : A}
    → (mutate env clock operation store).0 ≡ ok a
    → Wrote env clock operation store a (mutate env clock operation store).1
mutate-Wrote {A} env clock operation store {a} h =
    split (mutate env clock operation store) (mutate-Ends env clock operation store) h
  where
    split :
        (r : Result A × Store)
        → Ends env clock operation store r
        → r.0 ≡ ok a
        → Wrote env clock operation store a r.1
    split r (throws f e) k = cc
    split r (writes s now b t u c e k v w) x = record {
      before = s;
      now = now;
      changed = t;
      written = u;
      clock_reading = c;
      was_read = e;
      ran = ground arith;
      valid = v;
      stored = ap (λ p. p.1) w;
    }

-- A mutation whose operation throws on the state that is read throws, and writes nothing.
pub mutate-refused :
    {A : Type 0} (env : Env) (clock : Option ℕ) (operation : ℕ → Op State A) (store : Store)
    → ((now : ℕ) (s : State)
        → read env store ≡ ok s
        → (e : Failure) × ((operation now s).0 ≡ err e))
    → (e : Failure) × (mutate env clock operation store ≡ (err e, store))
mutate-refused {A} env clock operation store h =
    split (mutate env clock operation store) (mutate-Ends env clock operation store)
  where
    split :
        (r : Result A × Store)
        → Ends env clock operation store r
        → (e : Failure) × (r ≡ (err e, store))
    split r (throws f e) = (f, e)
    split r (writes s now b t u c e k v w) = let (f, x) = h now s e in cc
