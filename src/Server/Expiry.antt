-- ===== src/Server/Expiry.antt =====
-- parseExpiry for sites and parseTokenExpiry for tokens: `none` is no deadline. A duration is its
-- number of nanoseconds, and time.ParseDuration a parameter.
use crate_html.Prelude.{
  ℕ, suc, zero, Option, none, some, Text, text_eq, ◌==◌, codes, is_empty, if◌then◌else◌, Result, ok,
  err, ℤ, pos, negsuc,
}

-- The text of defaultExpiry, as Duration.String writes 24 hours.
abbrev pub default_expiry : Text
default_expiry = codes "24h0m0s"

-- `err != nil || d <= 0`
unfoldable pub positive : Option ℤ → Result (Unit {0}) (Option ℕ)
positive none = err tt
positive (some (pos zero)) = err tt
positive (some (pos (suc n))) = ok (some (suc n))
positive (some (negsuc n)) = err tt

module _ (parse_duration : Text → Option ℤ) where
  unfoldable pub parse_expiry : Text → Result (Unit {0}) (Option ℕ)
  unfolding positive
  parse_expiry value =
      if value == codes "never"
      then ok none
      else positive (parse_duration (if is_empty value then default_expiry else value))

  unfoldable pub parse_token_expiry : Text → Result (Unit {0}) (Option ℕ)
  unfolding positive
  parse_token_expiry value =
      if is_empty value
      then ok none
      else if value == codes "never"
      then ok none
      else positive (parse_duration value)
