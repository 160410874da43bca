-- ===== src/Safety/Validate/Fields.antt =====
-- `positive`, `nonNegative`, `boundedMs`, `bps`, `identifier`, `hash`, `timestamp`, `text`, `array`,
-- `unique`.
use ghostapi.Common.{
  ℕ, Text, lit, text_eq, trim, is_control, matches_identifier, matches_hash, is_unique, Bool, not,
  ◌&&◌, ◌*◌, ◌++◌, List, [], any, length, leb, Result, ok, fail, require, if◌then◌else◌, Option,
  none, some, ◌>>=◌,
}
use ghostapi.Safety.Types.{Env}

-- Number.MAX_SAFE_INTEGER
abbrev pub max_safe_integer : ℕ
max_safe_integer = 9_007_199_254_740_991

abbrev pub day_ms : ℕ
day_ms = 86_400_000

unfoldable pub invalid : Text → Text
invalid label = label ++ lit " is invalid."

unfoldable pub positive : ℕ → Text → ℕ → Result ℕ
unfolding invalid
positive value label max = if leb 1 value && leb value max then ok value else fail (invalid label)

unfoldable pub non_negative : ℕ → Text → ℕ → Result ℕ
unfolding invalid
non_negative value label max = if leb value max then ok value else fail (invalid label)

unfoldable pub bounded_ms : ℕ → Text → Result ℕ
unfolding positive
bounded_ms value label = positive value label (30 * day_ms)

unfoldable pub bps : ℕ → Text → Result ℕ
unfolding non_negative
bps value label = non_negative value label 10_000

unfoldable pub hash : Text → Text → Result Text
hash value label =
    if matches_hash value then ok value else fail (label ++ lit " must be a SHA-256 hash.")

-- Of the instants, those whose ISO text has a year of four digits.
unfoldable pub timestamp : ℕ → Text → Result ℕ
timestamp value label =
    if leb value 253_402_300_799_999
    then ok value
    else fail (label ++ lit " must be an ISO UTC timestamp.")

unfoldable pub unique : List Text → Text → Result (Unit {0})
unique values label = require (is_unique values) (label ++ lit " must be unique.")

unfoldable pub array {ℓ} : {A : Type ℓ} → List A → Text → ℕ → Result (List A)
unfolding invalid
array value label max = if leb (length value) max then ok value else fail (invalid label)

-- A field that may be `undefined`.
abbrev pub optional {ℓ} : {A : Type ℓ} → (A → Result A) → Option A → Result (Option A)
optional f none = ok none
optional f (some a) = f a >>= λ b. ok (some b)

module _ (env : Env) where
  unfoldable pub is_safe_identifier : Text → Bool
  is_safe_identifier value = matches_identifier value && text_eq (env.sanitize value) value

  unfoldable pub identifier : Text → Text → Result Text
  identifier value label =
      if is_safe_identifier value
      then ok value
      else fail (label ++ lit " must be a safe identifier.")

  unfoldable pub is_safe_text : Text → ℕ → Bool
  is_safe_text value max =
      not (text_eq (trim value) [])
      && leb (length value) max
      && not (any value is_control)
      && text_eq (env.sanitize value) value

  unfoldable pub text : Text → Text → ℕ → Result Text
  unfolding invalid
  text value label max = if is_safe_text value max then ok (trim value) else fail (invalid label)
