-- ===== src/Name.antt =====
-- The two name policies: `ValidateName` of internal/storage/storage.go (sites) and of
-- internal/token/token.go (tokens), each a regular expression over bytes.
pub mod Laws
use crate_html.Prelude.{
  ℕ, suc, Bool, true, false, ◌&&◌, ◌||◌, [], ◌∷◌, Text, leb, eqb, length, all, if◌then◌else◌,
}

-- [a-z0-9]
abbrev pub is_alnum : ℕ → Bool
is_alnum c = (leb b'a' c && leb c b'z') || (leb b'0' c && leb c b'9')

-- [a-z0-9._-]
abbrev pub is_name_byte : ℕ → Bool
is_name_byte c = is_alnum c || (eqb c b'.' || (eqb c b'_' || eqb c b'-'))

-- `^[a-z0-9][a-z0-9._-]{0,62}$` of package storage
unfoldable pub validate_site : Text → Bool
validate_site [] = false
validate_site (c ∷ s) = is_alnum c && (all is_name_byte s && leb (length s) 62)

-- The last byte of a text, which the second expression restricts too.
abbrev pub last_or : ℕ → Text → ℕ
last_or c [] = c
last_or c (d ∷ s) = last_or d s

-- `^[a-z0-9]([a-z0-9._-]{0,62}[a-z0-9])?$` of package token
unfoldable pub validate_token : Text → Bool
validate_token [] = false
validate_token (c ∷ []) = is_alnum c
validate_token (c ∷ d ∷ s) =
    is_alnum c && (all is_name_byte (d ∷ s) && (is_alnum (last_or d s) && leb (length s) 62))
