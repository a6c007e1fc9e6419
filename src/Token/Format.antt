-- ===== src/Token/Format.antt =====
-- The text of a token: what `Create` prints, `Verify` takes apart.
use crate_html.Prelude.{
  Option-cases, inl, inr, cut-eq-some, ℕ, ◌≡◌, ◌<◌, refl, false, some, List, [], ◌∷◌, ◌++◌, Text,
  text_eq, has_byte, is_empty, cut_prefix, cut, cut_prefix-append, cut-append, cut_prefix-eq-some,
  arith, length,
}
use crate_html.Token.{prefix, hex, plaintext}
use crate_html.Token.Store.{split_bearer}

-- A hexadecimal text holds no underscore.
pub has_byte-hex : (bs : List ℕ) → has_byte b'_' (hex bs) ≡ false
unfolding hex
has_byte-hex [] = refl
has_byte-hex (b ∷ bs) = ground (arith, has_byte-hex bs)

pub is_empty-hex : (bs : List ℕ) → 0 < length bs → is_empty (hex bs) ≡ false
unfolding hex
is_empty-hex [] h = elim h [ ]
is_empty-hex (b ∷ bs) h = refl

split_bearer-plaintext :
    (id secret : Text)
    → has_byte b'_' id ≡ false
    → is_empty id ≡ false
    → is_empty secret ≡ false
    → split_bearer (plaintext id secret) ≡ some (id, secret)
unfolding split_bearer plaintext
split_bearer-plaintext id secret h k l =
    ground (arith, cut_prefix-append prefix (id ++ b'_' ∷ secret), cut-append b'_' id secret)

-- What `Create` prints from an id and a secret that are not empty, `Verify` takes apart into them.
pub split_bearer-hex :
    (raw_id raw : List ℕ)
    → 0 < length raw_id
    → 0 < length raw
    → split_bearer (plaintext (hex raw_id) (hex raw)) ≡ some (hex raw_id, hex raw)
split_bearer-hex raw_id raw h k =
    split_bearer-plaintext (hex raw_id) (hex raw) (has_byte-hex raw_id) (is_empty-hex raw_id h)
      (is_empty-hex raw k)

-- What `Verify` takes apart is the plaintext of its parts, the id as short as can be.
pub split_bearer-eq-some :
    (bearer id secret : Text)
    → split_bearer bearer ≡ some (id, secret)
    → (bearer ≡ plaintext id secret)
      × (has_byte b'_' id ≡ false)
      × (is_empty id ≡ false)
      × (is_empty secret ≡ false)
unfolding split_bearer plaintext
split_bearer-eq-some bearer id secret h = elim (Option-cases (cut_prefix bearer prefix)) [
  | inl miss ↦ ground arith
  | inr (rest, hit) ↦ elim (Option-cases (cut rest b'_')) [
    | inl miss ↦ ground arith
    | inr ((a, b), found) ↦
        ground (arith, cut_prefix-eq-some prefix bearer rest hit, cut-eq-some b'_' rest a b found)
  ]
]
