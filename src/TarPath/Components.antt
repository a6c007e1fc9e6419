-- ===== src/TarPath/Components.antt =====
-- Cleaning a path that is clean already, component by component.
use crate_html.Prelude.{
  ◌≡◌, refl, ◌∙◌, Bool, true, false, ◌&&◌, not, List, [], ◌∷◌, ◌++◌, Text, text_eq, ◌==◌, eqb,
  if◌then◌else◌, arith, all, Bool-cases, inl, inr, has_byte, is_empty,
}
use crate_html.TarPath.{
  put_front, split_slash, dot, dotdot, is_skipped, step_up, clean_from, is_rooted,
}

-- A component that Clean keeps, and that does not go up.
abbrev pub is_element : Text → Bool
is_element p = not (is_empty p) && not (p == dot) && not (p == dotdot)

pub clean_from-append :
    (rooted : Bool) (out ps qs : List Text)
    → clean_from rooted out (ps ++ qs) ≡ clean_from rooted (clean_from rooted out ps) qs
unfolding clean_from
clean_from-append rooted out [] qs = refl
clean_from-append rooted out (p ∷ ps) qs =
    clean_from-append rooted
      (if is_skipped p then out else if p == dotdot then step_up rooted out else p ∷ out) ps qs

pub clean_from-element :
    (rooted : Bool) (out : List Text) (p : Text) (ps : List Text)
    → is_element p ≡ true
    → clean_from rooted out (p ∷ ps) ≡ clean_from rooted (p ∷ out) ps
unfolding clean_from
clean_from-element rooted out p ps h =
    let a : is_skipped p ≡ false = ground arith in
    let b : (p == dotdot) ≡ false = ground arith in rw (a, b) refl

-- A text without a slash is one component.
pub split_slash-single : (c : Text) → has_byte b'/' c ≡ false → split_slash c ≡ c ∷ []
unfolding split_slash put_front
split_slash-single [] h = refl
split_slash-single (b ∷ c) h = ground (arith, split_slash-single c)

pub split_slash-ne_nil : (s : Text) → (p : Text) × (ps : List Text) × (split_slash s ≡ p ∷ ps)
unfolding split_slash put_front
split_slash-ne_nil [] = ([], [], refl)
split_slash-ne_nil (c ∷ s) = elim (Bool-cases (eqb c b'/')) [
  | inl slash ↦ ([], split_slash s, rw (slash, split_slash) refl)
  | inr other ↦
      let (p, ps, e) = split_slash-ne_nil s in (c ∷ p, ps, rw (other, split_slash, e) refl)
]

-- A component in front of a slash, and behind one.
pub split_slash-append : (d s : Text) → split_slash (d ++ b'/' ∷ s) ≡ split_slash d ++ split_slash s
unfolding split_slash put_front
split_slash-append [] s = refl
split_slash-append (b ∷ d) s =
    let (p, ps, e) = split_slash-ne_nil d in ground (arith, split_slash-append d s, e)

-- What Clean writes for components that it keeps: each in front of the one before.
abbrev pub onto : List Text → List Text → List Text
onto [] out = out
onto (p ∷ ps) out = onto ps (p ∷ out)

pub clean_from-onto :
    (rooted : Bool) (out ps : List Text)
    → all is_element ps ≡ true
    → clean_from rooted out ps ≡ onto ps out
unfolding clean_from
clean_from-onto rooted out [] h = refl
clean_from-onto rooted out (p ∷ ps) h =
    clean_from-element rooted out p ps (ground arith)
    ∙ clean_from-onto rooted (p ∷ out) ps (ground arith)

pub all-append {ℓ} :
    {A : Type ℓ} (t : A → Bool) (xs ys : List A) → all t (xs ++ ys) ≡ (all t xs && all t ys)
all-append t [] ys = refl
all-append t (x ∷ xs) ys = ground (arith, all-append t xs ys)

-- A path that begins with a component is not rooted.
pub is_rooted-element : (s : Text) → all is_element (split_slash s) ≡ true → is_rooted s ≡ false
unfolding split_slash
is_rooted-element [] h = refl
is_rooted-element (c ∷ s) h = ground arith
