-- ===== src/Name/Laws.antt =====
-- What a valid name cannot hold, and how the two policies compare.
use crate_html.Prelude.{
  ℕ, ◌+◌, ◌≤◌, ◌≡◌, ◌≢◌, refl, true, false, [], ◌∷◌, ◌++◌, Text, length, all, has_byte, le→leb,
  arith, ◌&&◌, length-append,
}
use crate_html.Name.{is_name_byte, validate_site, validate_token}

all-has_byte :
    (b : ℕ) (s : Text) → is_name_byte b ≡ false → all is_name_byte s ≡ true → has_byte b s ≡ false
all-has_byte b [] n h = refl
all-has_byte b (c ∷ s) n h = ground (arith, all-has_byte b s n)

-- A valid site name holds no byte outside the name alphabet: no slash, no NUL, no upper case.
pub validate_site-has_byte :
    (b : ℕ) (s : Text) → is_name_byte b ≡ false → validate_site s ≡ true → has_byte b s ≡ false
unfolding validate_site
validate_site-has_byte b [] n h = refl
validate_site-has_byte b (c ∷ s) n h = ground (arith, all-has_byte b s n)

-- A valid site name has between 1 and 63 bytes and does not begin with a dot.
pub validate_site_shape :
    (s : Text)
    → validate_site s ≡ true
    → (1 ≤ length s) × (length s ≤ 63) × ((r : Text) → s ≢ b'.' ∷ r)
unfolding validate_site
validate_site_shape [] h = ground arith
validate_site_shape (c ∷ s) h = (omega arith, ground arith, λ r e. ground arith)

all-append : (s t : Text) → all is_name_byte (s ++ t) ≡ (all is_name_byte s && all is_name_byte t)
all-append [] t = refl
all-append (c ∷ s) t = ground (arith, all-append s t)

-- A valid name with more bytes of the name alphabet behind it is valid while it has room.
pub validate_site-append :
    (s t : Text)
    → validate_site s ≡ true
    → all is_name_byte t ≡ true
    → length s + length t ≤ 63
    → validate_site (s ++ t) ≡ true
unfolding validate_site
validate_site-append [] t h k l = ground arith
validate_site-append (c ∷ s) t h k l =
    ground (arith, all-append s t, length-append s t, le→leb (length (s ++ t)) 62)

pub validate_token_site :
    (s : Text) → validate_token s ≡ true → length s ≤ 63 → validate_site s ≡ true
unfolding validate_token validate_site
validate_token_site [] h l = h
validate_token_site (c ∷ []) h l = ground arith
validate_token_site (c ∷ d ∷ s) h l = ground arith
