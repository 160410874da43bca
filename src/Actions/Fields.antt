-- ===== src/Actions/Fields.antt =====
-- The checks of single values in src/actions/gateway.ts.
use ghostapi.Common.{
  ℕ, Text, lit, text_eq, matches_identifier, matches_hash, Bool, ◌&&◌, ◌++◌, leb, all, length, ◌==◌,
  ◌||◌, Host, Result, ok, fail, if◌then◌else◌,
}

unfoldable pub hash : Text → Text → Result Text
hash value label =
    if matches_hash value then ok value else fail (label ++ lit " must be a SHA-256 hex digest.")

unfoldable pub positive_integer : ℕ → Text → Result ℕ
positive_integer value label =
    if leb 1 value then ok value else fail (label ++ lit " must be a positive integer.")

-- Of the instants, those whose ISO text has a year of four digits. `futureTimestamp` and `timestamp`
-- are the same function.
unfoldable pub timestamp_value : ℕ → Text → Result ℕ
timestamp_value value label =
    if leb value 253_402_300_799_999
    then ok value
    else fail (label ++ lit " must be an ISO UTC timestamp.")

-- [A-Za-z0-9_-]
unfoldable pub is_base64url : ℕ → Bool
is_base64url c =
    (leb b'A' c && leb c b'Z')
    || (leb b'a' c && leb c b'z')
    || (leb b'0' c && leb c b'9')
    || c == b'_'
    || c == b'-'

-- /^[A-Za-z0-9_-]{86}$/
unfoldable pub matches_signature : Text → Bool
unfolding is_base64url
matches_signature s = length s == 86 && all s is_base64url

module _ (host : Host) where
  unfoldable pub is_safe_identifier : Text → Bool
  is_safe_identifier value = matches_identifier value && text_eq (host.sanitize value) value

  unfoldable pub identifier : Text → Text → Result Text
  identifier value label =
      if is_safe_identifier value
      then ok value
      else fail (label ++ lit " must be a safe stable identifier.")
