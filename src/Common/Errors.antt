-- ===== src/Common/Errors.antt =====
-- What the code calls and does not implement here, and errors as values.
use Prim.Native.Nat.{ℕ}
use mathlib.Core.Path.{◌≡◌, refl}
use mathlib.Core.Logic.{inl, inr, ◌⊎◌}
use mathlib.Core.Bool.{Bool, true, false}
use mathlib.Core.Option.{Option, none}
use mathlib.Core.List.{List, [], ◌∷◌}
use ghostapi.Common.Strings.{Text}

-- `createHash("sha256")`, `JSON.stringify` of a string and of a number, `Date.prototype.toISOString`
-- of a time in milliseconds, and the secret filter of src/security/secrets.ts.
pub record Host : Type 0 where
  pub sha256 : Text → Text
  pub quote : Text → Text
  pub decimal : ℕ → Text
  pub iso : ℕ → Text
  pub sanitize : Text → Text

-- An error that is thrown: its message, and its `code` where it has one.
pub record Failure : Type 0 where
  pub message : Text
  pub code : Option Text

pub data Result {ℓ} (A : Type ℓ) : Type ℓ where
  ok : A → Result A
  err : Failure → Result A

abbrev pub fail {ℓ} : {A : Type ℓ} → Text → Result A
fail message = err (record { message = message; code = none })

infixl 5 ◌>>=◌
abbrev pub ◌>>=◌ {ℓ κ} : {S : Type ℓ} {T : Type κ} (m : Result S) (next : S → Result T) → Result T
err failure >>= next = err failure
ok value >>= next = next value

infixl 5 ◌>>◌
abbrev pub ◌>>◌ {κ} : {T : Type κ} → Result (Unit {0}) → Result T → Result T
m >> later = m >>= λ _. later

-- `if (!test) throw new Error(message)`
abbrev pub require : Bool → Text → Result (Unit {0})
require true message = ok tt
require false message = fail message

pub >>=-eq-ok {ℓ κ} :
    {S : Type ℓ} {T : Type κ} (m : Result S) (next : S → Result T) {result : T}
    → m >>= next ≡ ok result
    → (value : S) × (m ≡ ok value) × (next value ≡ ok result)
>>=-eq-ok (err failure) next h = cc
>>=-eq-ok (ok value) next h = (value, refl, h)

-- The same, with what follows from the parts.
pub bind-elim {ℓ κ ι} :
    {A : Type ℓ} {B : Type κ} {P : Type ι} (m : Result A) (f : A → Result B) {b : B}
    → (m >>= f) ≡ ok b
    → ((a : A) → m ≡ ok a → f a ≡ ok b → P)
    → P
bind-elim m f h k = let (a, e, h') = >>=-eq-ok m f h in k a e h'

pub ok_inj {ℓ} : {A : Type ℓ} {a b : A} → ok a ≡ ok b → a ≡ b
ok_inj h = cc

pub require-eq-ok : (b : Bool) (message : Text) {u : Unit {0}} → require b message ≡ ok u → b ≡ true
require-eq-ok true message h = refl
require-eq-ok false message h = cc

pub Result-cases {ℓ} :
    {A : Type ℓ} (r : Result A) → ((a : A) × (r ≡ ok a)) ⊎ ((e : Failure) × (r ≡ err e))
Result-cases (ok a) = inl (a, refl)
Result-cases (err e) = inr (e, refl)

-- `values.map(validate)` where `validate` may throw.
abbrev pub map_ok {ℓ κ} : {A : Type ℓ} {B : Type κ} → (A → Result B) → List A → Result (List B)
map_ok f [] = ok []
map_ok f (x ∷ xs) = f x >>= λ y. map_ok f xs >>= λ ys. ok (y ∷ ys)

-- A statement about what a check gives.
abbrev pub Yields : {A : Type 0} → (A → Type 0) → Result A → Type 0
Yields {A} P m = (a : A) → m ≡ ok a → P a

pub bind-Yields :
    {A B : Type 0} (P : B → Type 0) (m : Result A) (f : A → Result B)
    → ((a : A) → m ≡ ok a → Yields P (f a))
    → Yields P (m >>= f)
bind-Yields P (ok a) f h b e = h a refl b e
bind-Yields P (err x) f h b e = cc
