-- ===== src/Common/Action.antt =====
-- Operations on a state that may throw. What was written before a throw stays written, as in the
-- objects that the source mutates; who discards the state after a throw says so.
use mathlib.Core.Path.{◌≡◌, refl, ◌∙◌}
use ghostapi.Common.Strings.{Text}
use ghostapi.Common.Errors.{Result, ok, err, fail}

abbrev pub Op : Type 0 → Type 0 → Type 0
Op S A = S → Result A × S

module _ {S : Type 0} where
  abbrev pub pure : {A : Type 0} → A → Op S A
  pure a s = (ok a, s)

  abbrev pub lift : {A : Type 0} → Result A → Op S A
  lift r s = (r, s)

  abbrev pub throw : {A : Type 0} → Text → Op S A
  throw message s = (fail message, s)

  abbrev pub get : Op S S
  get s = (ok s, s)

  abbrev pub modify : (S → S) → Op S (Unit {0})
  modify f s = (ok tt, f s)

  -- `try`: the outcome of an operation as a value.
  abbrev pub attempt : {A : Type 0} → Op S A → Op S (Result A)
  attempt m s = let (r, s') = m s in (ok r, s')

  -- The rest of a `do` block after an operation that ended with this result and state.
  abbrev pub continue : {A B : Type 0} → Result A → S → (A → Op S B) → Result B × S
  continue (ok a) s f = f a s
  continue (err e) s f = (err e, s)

infixl 5 ◌>>=◌ ◌>>◌
abbrev pub ◌>>=◌ : {S A B : Type 0} → Op S A → (A → Op S B) → Op S B
◌>>=◌ m f s = let (r, s') = m s in continue r s' f

abbrev pub ◌>>◌ : {S B : Type 0} → Op S (Unit {0}) → Op S B → Op S B
m >> k = m >>= λ _. k

-- Inversion of a bind that succeeded.
pub bind-eq-ok :
    {S A B : Type 0} (r : Result A) (s : S) (f : A → Op S B) {b : B} {t : S}
    → continue r s f ≡ (ok b, t)
    → (a : A) × (r ≡ ok a) × (f a s ≡ (ok b, t))
bind-eq-ok (ok a) s f h = (a, refl, h)
bind-eq-ok (err e) s f h = cc

-- A part of the state that an operation leaves alone, however it ends.
abbrev pub Leaves {ℓ} : {S A : Type 0} {X : Type ℓ} → (S → X) → Op S A → Type ℓ
Leaves {S} f m = (s : S) → f (m s).1 ≡ f s

pub Leaves-bind {ℓ} :
    {S A B : Type 0} {X : Type ℓ} (f : S → X) (m : Op S A) (k : A → Op S B)
    → Leaves f m
    → ((a : A) → Leaves f (k a))
    → Leaves f (m >>= k)
Leaves-bind {S = S} {A = A} f m k hm hk s = after (m s).0 (m s).1 ∙ hm s
  where
    after : (r : Result A) (t : S) → f (continue r t k).1 ≡ f t
    after (ok a) t = hk a t
    after (err e) t = refl

-- A property of the state that an operation keeps, however it ends.
abbrev pub Keeps {ℓ} : {S A : Type 0} → (S → Type ℓ) → Op S A → Type ℓ
Keeps {S} P m = (s : S) → P s → P (m s).1

pub Keeps-bind {ℓ} :
    {S A B : Type 0} (P : S → Type ℓ) (m : Op S A) (k : A → Op S B)
    → Keeps P m
    → ((a : A) → Keeps P (k a))
    → Keeps P (m >>= k)
Keeps-bind {S = S} {A = A} P m k hm hk s h = after (m s).0 (m s).1 (hm s h)
  where
    after : (r : Result A) (t : S) → P t → P (continue r t k).1
    after (ok a) t h = hk a t h
    after (err e) t h = h

-- What holds of the state before the rest of a block, and after it, holds however the block ends.
pub continue-keeps {ℓ} :
    {S A B : Type 0} (Q : S → Type ℓ) (r : Result A) (s : S) (f : A → Op S B)
    → Q s
    → ((a : A) → r ≡ ok a → Q (f a s).1)
    → Q (continue r s f).1
continue-keeps Q (ok a) s f h k = k a refl
continue-keeps Q (err e) s f h k = h

-- A block whose first operation gives a value goes on with it.
pub continue-then :
    {S A B : Type 0} (r : Result A) (s : S) (f : A → Op S B) {a : A} {q : Result B × S}
    → r ≡ ok a
    → f a s ≡ q
    → continue r s f ≡ q
continue-then (ok b) s f {a} e k = (λ i. f (is i) s) ∙ k
  where
    is : b ≡ a
    is = cc
continue-then (err x) s f e k = cc

-- Inversion of a block that gave a value.
pub continue-ok :
    {S A B : Type 0} (r : Result A) (s : S) (f : A → Op S B) {b : B}
    → (continue r s f).0 ≡ ok b
    → (a : A) × (r ≡ ok a) × ((f a s).0 ≡ ok b) × (continue r s f ≡ f a s)
continue-ok (ok a) s f h = (a, refl, h, refl)
continue-ok (err e) s f h = cc

-- The same, with what follows from the parts.
pub continue-elim {ℓ} :
    {S A B : Type 0} {P : Type ℓ} (r : Result A) (s : S) (f : A → Op S B) {b : B}
    → (continue r s f).0 ≡ ok b
    → ((a : A) → r ≡ ok a → (f a s).0 ≡ ok b → continue r s f ≡ f a s → P)
    → P
continue-elim (ok a) s f h k = k a refl h refl
continue-elim (err e) s f h k = cc
