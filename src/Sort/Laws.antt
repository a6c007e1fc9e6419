-- ===== src/Sort/Laws.antt =====
-- The sorted list is in order, and is a permutation of the given one.
use crate_html.Prelude.{
  ◌≡◌, refl, true, false, List, [], ◌∷◌, Text, text_eq, ◌||◌, arith, contains, ◌==◌, Bool-cases,
  inl, inr, All,
}
use mathlib.Core.List.{Perm}
use mathlib.Core.List.Perm
use crate_html.Sort.{text_leb, insert_by, sort_by, sort_strings}

pub text_leb_total : (s t : Text) → text_leb s t ≡ false → text_leb t s ≡ true
unfolding text_leb
text_leb_total [] t h = ground arith
text_leb_total (c ∷ s) [] h = refl
text_leb_total (c ∷ s) (d ∷ t) h = ground (arith, text_leb_total s t)

pub text_leb_trans :
    (r s t : Text) → text_leb r s ≡ true → text_leb s t ≡ true → text_leb r t ≡ true
unfolding text_leb
text_leb_trans [] s t h k = refl
text_leb_trans (b ∷ r) [] t h k = ground arith
text_leb_trans (b ∷ r) (c ∷ s) [] h k = ground arith
text_leb_trans (b ∷ r) (c ∷ s) (d ∷ t) h k = ground (arith, text_leb_trans r s t)

module _ {ℓ} {A : Type ℓ} (key : A → Text) where
  -- In the order of the keys.
  abbrev pub IsSorted : List A → Type 0
  IsSorted [] = Unit
  IsSorted (a ∷ l) = All (λ b. text_leb (key a) (key b) ≡ true) l × IsSorted l

  All-insert_by :
      (c : Text) (a : A) (l : List A)
      → text_leb c (key a) ≡ true
      → All (λ b. text_leb c (key b) ≡ true) l
      → All (λ b. text_leb c (key b) ≡ true) (insert_by key a l)
  unfolding insert_by
  All-insert_by c a [] h k = (h, tt)
  All-insert_by c a (b ∷ l) h k = elim (Bool-cases (text_leb (key a) (key b))) [
    | inl before ↦ rw before (h, k)
    | inr after ↦ rw after (k.0, All-insert_by c a l h k.1)
  ]

  All-le :
      (c d : Text) (l : List A)
      → text_leb c d ≡ true
      → All (λ b. text_leb d (key b) ≡ true) l
      → All (λ b. text_leb c (key b) ≡ true) l
  All-le c d [] h k = tt
  All-le c d (b ∷ l) h k = (text_leb_trans c d (key b) h k.0, All-le c d l h k.1)

  insert_by-IsSorted : (a : A) (l : List A) → IsSorted l → IsSorted (insert_by key a l)
  unfolding insert_by
  insert_by-IsSorted a [] s = (tt, tt)
  insert_by-IsSorted a (b ∷ l) s = elim (Bool-cases (text_leb (key a) (key b))) [
    | inl before ↦ rw before ((before, All-le (key a) (key b) l before s.0), s)
    | inr after ↦ rw after (
      All-insert_by (key b) a l (text_leb_total (key a) (key b) after) s.0,
      insert_by-IsSorted a l s.1,
    )
  ]

  pub sort_by-IsSorted : (l : List A) → IsSorted (sort_by key l)
  unfolding sort_by
  sort_by-IsSorted [] = tt
  sort_by-IsSorted (a ∷ l) = insert_by-IsSorted a (sort_by key l) (sort_by-IsSorted l)

  insert_by-perm : (a : A) (l : List A) → Perm (insert_by key a l) (a ∷ l)
  unfolding insert_by
  insert_by-perm a [] = Perm.refl (a ∷ [])
  insert_by-perm a (b ∷ l) = elim (Bool-cases (text_leb (key a) (key b))) [
    | inl before ↦ rw before (Perm.refl (a ∷ b ∷ l))
    | inr after ↦ rw after (Perm.trans (Perm.cons b (insert_by-perm a l)) (Perm.swap a b l))
  ]

  pub sort_by-perm : (l : List A) → Perm (sort_by key l) l
  unfolding sort_by
  sort_by-perm [] = Perm.refl []
  sort_by-perm (a ∷ l) =
      Perm.trans (insert_by-perm a (sort_by key l)) (Perm.cons a (sort_by-perm l))

contains-insert_by :
    (c a : Text) (l : List Text) → contains c (insert_by (λ s. s) a l) ≡ (a == c || contains c l)
unfolding insert_by
contains-insert_by c a [] = refl
contains-insert_by c a (b ∷ l) = ground (arith, contains-insert_by c a l)

-- Sorting changes no membership.
pub contains-sort_strings : (c : Text) (l : List Text) → contains c (sort_strings l) ≡ contains c l
unfolding sort_strings
contains-sort_strings c [] = refl
contains-sort_strings c (a ∷ l) =
    ground (arith, contains-insert_by c a (sort_by (λ (s : Text). s) l), contains-sort_strings c l)
