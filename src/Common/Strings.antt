-- ===== src/Common/Strings.antt =====
-- Texts as lists of UTF-16 code units, as JavaScript's strings are, with the tests of its regular
-- expressions that the components use.
use Prim.Native.Nat.{ℕ}
use Prim.Native.Char.{code}
use Prim.Native.String.{String}
use mathlib.Core.Path.{◌≡◌, refl}
use mathlib.Core.Logic.{◌↔◌}
use mathlib.Core.Bool.{Bool, true, false, ◌&&◌, ◌||◌, not}
use mathlib.Core.List.{List, [], ◌∷◌, reverse}
use mathlib.Core.Option.{Option, none, some}
use native.Mathlib.Omega.{arith}
use ghostapi.Common.Tests.{leb, ◌==◌, if◌then◌else◌}
use ghostapi.Common.Lists.{length, any, all}

abbrev pub Text : Type 0
Text = List ℕ

abbrev codes : String → Text
codes String.[] = []
codes (String.◌∷◌ c s) = code c ∷ codes s

-- A literal of the source (all of them are ASCII).
unfoldable pub lit : String → Text
lit s = codes s

-- `left === right` on strings
unfoldable pub text_eq : Text → Text → Bool
text_eq [] [] = true
text_eq [] (y ∷ ys) = false
text_eq (x ∷ xs) [] = false
text_eq (x ∷ xs) (y ∷ ys) = x == y && text_eq xs ys

pub text_eq_refl : (xs : Text) → text_eq xs xs ≡ true
unfolding text_eq
text_eq_refl [] = refl
text_eq_refl (x ∷ xs) = ground (arith, text_eq_refl xs)

pub text_eq_sound : (xs ys : Text) → text_eq xs ys ≡ true → xs ≡ ys
unfolding text_eq
text_eq_sound [] [] h = refl
text_eq_sound [] (y ∷ ys) h = cc
text_eq_sound (x ∷ xs) [] h = cc
text_eq_sound (x ∷ xs) (y ∷ ys) h = ground (arith, text_eq_sound xs ys)

pub text_eq_iff : (xs ys : Text) → (text_eq xs ys ≡ true) ↔ (xs ≡ ys)
text_eq_iff xs ys = (text_eq_sound xs ys, λ e. rw e (text_eq_refl ys))

-- The same on values that may be `undefined`.
unfoldable pub option_eq : Option Text → Option Text → Bool
option_eq none none = true
option_eq none (some y) = false
option_eq (some x) none = false
option_eq (some x) (some y) = text_eq x y

pub option_eq_sound : (x y : Option Text) → option_eq x y ≡ true → x ≡ y
unfolding option_eq
option_eq_sound none none h = refl
option_eq_sound none (some y) h = cc
option_eq_sound (some x) none h = cc
option_eq_sound (some x) (some y) h = ground (arith, text_eq_sound x y)

pub option_eq_refl : (x : Option Text) → option_eq x x ≡ true
unfolding option_eq
option_eq_refl none = refl
option_eq_refl (some x) = text_eq_refl x

-- What `String.prototype.trim` removes.
unfoldable pub is_space : ℕ → Bool
is_space c =
    (leb 9 c && leb c 13)
    || c == 0x20
    || c == 0xa0
    || c == 0x1680
    || (leb 0x2000 c && leb c 0x200a)
    || c == 0x2028
    || c == 0x2029
    || c == 0x202f
    || c == 0x205f
    || c == 0x3000
    || c == 0xfeff

unfoldable pub trim_start : Text → Text
unfolding is_space
trim_start [] = []
trim_start (c ∷ s) = if is_space c then trim_start s else c ∷ s

unfoldable pub trim : Text → Text
unfolding trim_start
trim s = reverse (trim_start (reverse (trim_start s)))

-- /[\u0000-\u001f]/
unfoldable pub is_control : ℕ → Bool
is_control c = leb c 0x1f

-- [a-z0-9]
unfoldable pub is_lower_or_digit : ℕ → Bool
is_lower_or_digit c = (leb b'a' c && leb c b'z') || (leb b'0' c && leb c b'9')

-- [a-z0-9._-]
unfoldable pub is_identifier_unit : ℕ → Bool
unfolding is_lower_or_digit
is_identifier_unit c = is_lower_or_digit c || c == b'.' || c == b'_' || c == b'-'

-- [a-f0-9]
unfoldable pub is_hex : ℕ → Bool
is_hex c = (leb b'a' c && leb c b'f') || (leb b'0' c && leb c b'9')

-- /^[a-z0-9][a-z0-9._-]{0,127}$/
unfoldable pub matches_identifier : Text → Bool
unfolding is_identifier_unit
matches_identifier [] = false
matches_identifier (c ∷ s) = is_lower_or_digit c && all s is_identifier_unit && leb (length s) 127

-- /^[a-f0-9]{64}$/
unfoldable pub matches_hash : Text → Bool
unfolding is_hex
matches_hash s = length s == 64 && all s is_hex

-- `new Set(values).size === values.length`
unfoldable pub is_unique : List Text → Bool
is_unique [] = true
is_unique (x ∷ xs) = not (any xs (text_eq x)) && is_unique xs
