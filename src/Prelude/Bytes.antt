-- ===== src/Prelude/Bytes.antt =====
-- Go strings as sequences of bytes, and the functions of package `strings` that the program uses.
use Prim.Native.Nat.{ℕ}
use Prim.Native.Char.{code}
use Prim.Native.String.{String}
use mathlib.Core.Path.{◌≡◌, refl}
use mathlib.Core.Logic.{◌↔◌, inl, inr}
use mathlib.Core.Bool.{Bool, true, false, ◌&&◌}
use mathlib.Core.Option.{Option, none, some}
use mathlib.Core.List.{List, [], ◌∷◌, ◌++◌}
use native.Mathlib.Omega.{arith}
use crate_html.Prelude.Tests.{Option-cases, Eq, eqb, if◌then◌else◌}
use crate_html.Prelude.Lists.{is_empty}

abbrev pub Text : Type 0
Text = List ℕ

-- The bytes of an ASCII literal. `String` has its own `[]` and `∷`.
abbrev pub codes : String → Text
codes String.[] = []
codes (String.◌∷◌ c s) = code c ∷ codes s

unfoldable pub text_beq : Text → Text → Bool
text_beq [] [] = true
text_beq (x ∷ xs) (y ∷ ys) = eqb x y && text_beq xs ys
text_beq _ _ = false

pub text_beq_iff : (a b : Text) → (text_beq a b ≡ true) ↔ (a ≡ b)
unfolding text_beq
text_beq_iff [] [] = (λ _. refl, λ _. refl)
text_beq_iff [] (y ∷ ys) = ground arith
text_beq_iff (x ∷ xs) [] = ground arith
text_beq_iff (x ∷ xs) (y ∷ ys) = ground (arith, text_beq_iff xs ys)

instance abbrev pub text_eq : Eq Text
text_eq = record { beq = text_beq; beq_iff = text_beq_iff }

-- strings.CutPrefix: the rest after the prefix, if it is there.
unfoldable pub cut_prefix : Text → Text → Option Text
cut_prefix s [] = some s
cut_prefix [] (p ∷ ps) = none
cut_prefix (c ∷ s) (p ∷ ps) = let rest = cut_prefix s ps in if eqb c p then rest else none

-- strings.HasPrefix
unfoldable pub has_prefix : Text → Text → Bool
unfolding cut_prefix
has_prefix s p = elim (cut_prefix s p) [ none ↦ false | some _ ↦ true ]

-- strings.TrimPrefix
unfoldable pub trim_prefix : Text → Text → Text
unfolding cut_prefix
trim_prefix s p = elim (cut_prefix s p) [ none ↦ s | some r ↦ r ]

-- strings.Cut at a separator of one byte: what stands before and after its first occurrence.
unfoldable pub cut : Text → ℕ → Option (Text × Text)
cut [] sep = none
cut (c ∷ s) sep =
    let rest : Option (Text × Text) = elim (cut s sep) [
      | none ↦ none
      | some (before, after) ↦ some (c ∷ before, after)
    ] in
    if eqb c sep then some ([], s) else rest

-- strings.TrimRight(s, "/")
unfoldable pub trim_slashes : Text → Text
trim_slashes [] = []
trim_slashes (c ∷ s) =
    let rest = trim_slashes s in
    if is_empty rest then (if eqb c b'/' then [] else c ∷ []) else c ∷ rest

pub cut_prefix-append : (p s : Text) → cut_prefix (p ++ s) p ≡ some s
unfolding cut_prefix
cut_prefix-append [] s = refl
cut_prefix-append (c ∷ p) s = ground (arith, cut_prefix-append p s)

-- What a successful cut took off stands in front of what it left.
pub cut_prefix-eq-some : (p s r : Text) → cut_prefix s p ≡ some r → s ≡ p ++ r
unfolding cut_prefix
cut_prefix-eq-some [] s r h = ground arith
cut_prefix-eq-some (c ∷ p) [] r h = ground arith
cut_prefix-eq-some (c ∷ p) (d ∷ s) r h = ground (arith, cut_prefix-eq-some p s r)

-- Whether a byte stands in a text (strings.Contains, for one byte).
abbrev pub has_byte : ℕ → Text → Bool
has_byte b [] = false
has_byte b (c ∷ s) = let rest = has_byte b s in if eqb c b then true else rest

-- A text without the separator in front of the separator is cut there.
pub cut-append :
    (sep : ℕ) (a s : Text) → has_byte sep a ≡ false → cut (a ++ sep ∷ s) sep ≡ some (a, s)
unfolding cut
cut-append sep [] s h = ground arith
cut-append sep (c ∷ a) s h = ground (arith, cut-append sep a s)

-- A cut found the first separator.
pub cut-eq-some :
    (sep : ℕ) (s a b : Text)
    → cut s sep ≡ some (a, b)
    → (s ≡ a ++ sep ∷ b) × (has_byte sep a ≡ false)
unfolding cut
cut-eq-some sep [] a b h = ground arith
cut-eq-some sep (c ∷ s) a b h = elim (Option-cases (cut s sep)) [
  | inl miss ↦ ground arith
  | inr ((x, y), hit) ↦ ground (arith, cut-eq-some sep s x y hit)
]
