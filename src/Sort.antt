-- ===== src/Sort.antt =====
-- sort.Strings, and sort.Slice by a name, as insertion sort over the byte order of Go strings.
pub mod Laws
use crate_html.Prelude.{
  ℕ, Bool, true, false, List, [], ◌∷◌, Text, ltb, eqb, if◌then◌else◌, ◌||◌, ◌&&◌,
}

-- a <= b on strings
unfoldable pub text_leb : Text → Text → Bool
text_leb [] t = true
text_leb (c ∷ s) [] = false
text_leb (c ∷ s) (d ∷ t) = ltb c d || (eqb c d && text_leb s t)

module _ {ℓ} {A : Type ℓ} (key : A → Text) where
  unfoldable pub insert_by : A → List A → List A
  insert_by a [] = a ∷ []
  insert_by a (b ∷ bs) =
      let later = insert_by a bs in if text_leb (key a) (key b) then a ∷ b ∷ bs else b ∷ later

  unfoldable pub sort_by : List A → List A
  unfolding insert_by
  sort_by [] = []
  sort_by (a ∷ l) = insert_by a (sort_by l)

-- sort.Strings
unfoldable pub sort_strings : List Text → List Text
unfolding sort_by
sort_strings = sort_by (λ s. s)
