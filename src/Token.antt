-- ===== src/Token.antt =====
-- internal/token/token.go: named API tokens `crate_<id>_<secret>`. The mutex makes each method one
-- step. Times are instants on one clock and durations are not negative. YAML (a third-party
-- package) and SHA-256 are parameters; what is random is an argument.
pub mod Persistence
pub mod Store
pub mod Format
pub mod Lookup
pub mod Verify
pub mod Removal
pub mod Invariant
pub mod Verdicts
pub mod Durable
pub mod Restart
pub mod Runs
use crate_html.Prelude.{
  ℕ, ◌+◌, ◌/◌, ◌%◌, [], ◌∷◌, ◌++◌, Option, Text, List, ltb, if◌then◌else◌, codes,
}

-- Prefix
abbrev pub prefix : Text
prefix = codes "crate_"

abbrev pub id_bytes : ℕ
id_bytes = 4

abbrev pub secret_bytes : ℕ
secret_bytes = 32

-- touchInterval: a minute, in nanoseconds
abbrev pub touch_interval : ℕ
touch_interval = 60000000000

-- Record: one token as it is stored.
pub record Record : Type 0 where
  pub id : Text
  pub name : Text
  pub sha256 : Text
  pub created_at : ℕ
  pub expires_at : Option ℕ
  pub last_used_at : Option ℕ

-- One digit of hex.EncodeToString.
unfoldable pub hex_digit : ℕ → ℕ
hex_digit n = if ltb n 10 then b'0' + n else 87 + n

-- hex.EncodeToString
unfoldable pub hex : List ℕ → Text
unfolding hex_digit
hex [] = []
hex (b ∷ bs) = hex_digit (b / 16) ∷ hex_digit (b % 16) ∷ hex bs

-- The plaintext of a token, as `Create` returns it.
unfoldable pub plaintext : Text → Text → Text
plaintext id secret = prefix ++ (id ++ b'_' ∷ secret)
