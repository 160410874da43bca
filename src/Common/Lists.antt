-- ===== src/Common/Lists.antt =====
-- Array operations by Boolean tests, and the lemmas that the components share.
use Prim.Native.Nat.{ℕ, zero, suc, ◌+◌, ◌≤◌}
use mathlib.Core.Path.{◌≡◌, refl}
use mathlib.Core.Bool.{Bool, true, false, ◌&&◌, ◌||◌, not}
use mathlib.Core.Option.{Option, none, some}
use mathlib.Core.List.{List, [], ◌∷◌, ◌++◌, map}
use native.Mathlib.Omega.{arith}
use ghostapi.Common.Tests.{if◌then◌else◌, Bool-cases}
use mathlib.Core.Logic.{inl, inr}

module _ {ℓ} {A : Type ℓ} where
  abbrev pub length : List A → ℕ
  length [] = 0
  length (x ∷ xs) = suc (length xs)

  -- `Array.prototype.some`
  abbrev pub any : List A → (A → Bool) → Bool
  any [] p = false
  any (x ∷ xs) p = p x || any xs p

  -- `Array.prototype.every`
  abbrev pub all : List A → (A → Bool) → Bool
  all [] p = true
  all (x ∷ xs) p = p x && all xs p

  -- `Array.prototype.find`
  abbrev pub find : (A → Bool) → List A → Option A
  find p [] = none
  find p (x ∷ xs) = if p x then some x else find p xs

  -- `Array.prototype.filter`
  abbrev pub filter : (A → Bool) → List A → List A
  filter p [] = []
  filter p (x ∷ xs) = if p x then x ∷ filter p xs else filter p xs

  -- An assignment to the fields of what `find` returns.
  abbrev pub update_first : (A → Bool) → (A → A) → List A → List A
  update_first p f [] = []
  update_first p f (x ∷ xs) = if p x then f x ∷ xs else x ∷ update_first p f xs

  -- `slice(0, n)`
  abbrev pub take : ℕ → List A → List A
  take zero xs = []
  take (suc n) [] = []
  take (suc n) (x ∷ xs) = x ∷ take n xs

  -- A statement about every element.
  abbrev pub All {κ} : (A → Type κ) → List A → Type κ
  All P [] = Unit
  All P (x ∷ xs) = P x × All P xs

  pub length-append : (xs ys : List A) → length (xs ++ ys) ≡ length xs + length ys
  length-append [] ys = omega arith
  length-append (x ∷ xs) ys = omega (arith, length-append xs ys)

  pub length-filter-le : (p : A → Bool) (xs : List A) → length (filter p xs) ≤ length xs
  length-filter-le p [] = omega arith
  length-filter-le p (x ∷ xs) = ground (arith, length-filter-le p xs)

  pub any-append : (p : A → Bool) (xs ys : List A) → any (xs ++ ys) p ≡ (any xs p || any ys p)
  any-append p [] ys = refl
  any-append p (x ∷ xs) ys = ground (arith, any-append p xs ys)

  pub find-none : (p : A → Bool) (xs : List A) → find p xs ≡ none → any xs p ≡ false
  find-none p [] h = refl
  find-none p (x ∷ xs) h = ground (arith, find-none p xs)

  pub find-any : (p : A → Bool) (xs : List A) → any xs p ≡ false → find p xs ≡ none
  find-any p [] h = refl
  find-any p (x ∷ xs) h = ground (arith, find-any p xs)

  pub any-find : (p : A → Bool) (xs : List A) → any xs p ≡ true → (x : A) × (find p xs ≡ some x)
  any-find p [] h = cc
  any-find p (x ∷ xs) h = elim (Bool-cases (p x)) [
    | inl e ↦ (x, rw e refl)
    | inr e ↦ rw e (any-find p xs (rw e at h))
  ]

  pub find-some : (p : A → Bool) (xs : List A) {x : A} → find p xs ≡ some x → p x ≡ true
  find-some p [] h = cc
  find-some p (y ∷ xs) {x} h = elim (Bool-cases (p y)) [
    | inl e ↦ ground (arith, find-some p xs {x = x})
    | inr e ↦ ground (arith, find-some p xs {x = x})
  ]

  pub find-update_first :
      (p : A → Bool) (y : A) (xs : List A) {x : A}
      → find p xs ≡ some x
      → p y ≡ true
      → find p (update_first p (λ _. y) xs) ≡ some y
  find-update_first p y [] h k = cc
  find-update_first p y (z ∷ xs) {x} h k = ground (arith, find-update_first p y xs {x = x})

  pub find-update_other :
      (p q : A → Bool) (y : A) (xs : List A)
      → ((z : A) → p z ≡ true → q z ≡ false)
      → q y ≡ false
      → find q (update_first p (λ _. y) xs) ≡ find q xs
  find-update_other p q y [] apart other = refl
  find-update_other p q y (z ∷ xs) apart other =
      ground (arith, apart z, find-update_other p q y xs apart other)

  pub find-append-some :
      (p : A → Bool) (xs ys : List A) {x : A} → find p xs ≡ some x → find p (xs ++ ys) ≡ some x
  find-append-some p [] ys h = cc
  find-append-some p (z ∷ xs) ys {x} h = ground (arith, find-append-some p xs ys {x = x})

  pub find-append-none :
      (p : A → Bool) (xs ys : List A) → find p xs ≡ none → find p (xs ++ ys) ≡ find p ys
  find-append-none p [] ys h = refl
  find-append-none p (z ∷ xs) ys h = ground (arith, find-append-none p xs ys)

  pub filter-none : (p : A → Bool) (xs : List A) → any (filter (λ x. not (p x)) xs) p ≡ false
  filter-none p [] = refl
  filter-none p (x ∷ xs) = elim (Bool-cases (p x)) [
    | inl e ↦ rw e (filter-none p xs)
    | inr e ↦ rw e (rw e (filter-none p xs))
  ]

pub length-map {ℓ κ} :
    {A : Type ℓ} {B : Type κ} (f : A → B) (xs : List A) → length (map f xs) ≡ length xs
length-map f [] = refl
length-map f (x ∷ xs) = omega (arith, length-map f xs)
