-- ===== src/TarPath.antt =====
-- `SafeTarPath` of internal/storage/storage.go, and filepath.Clean, which is path.Clean where the
-- separator is a slash. A clean path is kept as its components, the deepest first; the path "." is
-- the relative one with no component.
pub mod Safety
pub mod Components
use crate_html.Prelude.{
  ℕ, Bool, true, false, ◌&&◌, ◌||◌, Option, none, some, List, [], ◌∷◌, ◌++◌, Text, text_eq, ◌==◌,
  eqb, if◌then◌else◌, codes, is_empty, ◌≡◌, ◌↔◌, refl, arith, not, Eq, text_beq_iff,
}

pub record CleanPath : Type 0 where
  pub rooted : Bool
  pub parts : List Text

unfoldable pub put_front : ℕ → List Text → List Text
put_front c [] = (c ∷ []) ∷ []
put_front c (p ∷ ps) = (c ∷ p) ∷ ps

-- The texts between the slashes.
unfoldable pub split_slash : Text → List Text
unfolding put_front
split_slash [] = [] ∷ []
split_slash (c ∷ s) = let rest = split_slash s in if eqb c b'/' then [] ∷ rest else put_front c rest

abbrev pub dot : Text
dot = b'.' ∷ []

abbrev pub dotdot : Text
dotdot = b'.' ∷ b'.' ∷ []

-- A component that Clean drops.
abbrev pub is_skipped : Text → Bool
is_skipped p = is_empty p || p == dot

-- ".." takes the last component away; where there is none it stays, or vanishes at the root.
unfoldable pub step_up : Bool → List Text → List Text
step_up rooted [] = if rooted then [] else dotdot ∷ []
step_up rooted (p ∷ ps) = if p == dotdot then dotdot ∷ p ∷ ps else ps

-- The loop of Clean over the components, with what it has written so far.
unfoldable pub clean_from : Bool → List Text → List Text → List Text
unfolding step_up
clean_from rooted out [] = out
clean_from rooted out (p ∷ ps) =
    clean_from rooted
      (if is_skipped p then out else if p == dotdot then step_up rooted out else p ∷ out) ps

abbrev pub is_rooted : Text → Bool
is_rooted [] = false
is_rooted (c ∷ s) = eqb c b'/'

unfoldable pub clean : Text → CleanPath
unfolding split_slash clean_from
clean name = record {
  rooted = is_rooted name;
  parts = clean_from (is_rooted name) [] (split_slash name);
}

-- The first component of the path is "..": the text is ".." or begins with "../".
abbrev pub climbs : List Text → Bool
climbs [] = false
climbs (p ∷ []) = p == dotdot
climbs (p ∷ q ∷ ps) = climbs (q ∷ ps)

-- `none` is ErrUnsafePath.
unfoldable pub safe_tar_path : Text → Option CleanPath
safe_tar_path name = let p = clean name in if climbs p.parts || p.rooted then none else some p

unfoldable pub parts_beq : List Text → List Text → Bool
parts_beq [] [] = true
parts_beq (p ∷ ps) (q ∷ qs) = p == q && parts_beq ps qs
parts_beq _ _ = false

pub parts_beq_iff : (ps qs : List Text) → (parts_beq ps qs ≡ true) ↔ (ps ≡ qs)
unfolding parts_beq
parts_beq_iff [] [] = (λ _. refl, λ _. refl)
parts_beq_iff [] (q ∷ qs) = ground arith
parts_beq_iff (p ∷ ps) [] = ground arith
parts_beq_iff (p ∷ ps) (q ∷ qs) = ground (arith, parts_beq_iff ps qs, text_beq_iff p q)

abbrev bool_beq : Bool → Bool → Bool
bool_beq true b = b
bool_beq false b = not b

-- Two clean paths are one text exactly when their components are.
unfoldable pub path_beq : CleanPath → CleanPath → Bool
unfolding parts_beq
path_beq p q = bool_beq p.rooted q.rooted && parts_beq p.parts q.parts

pub path_beq_iff : (p q : CleanPath) → (path_beq p q ≡ true) ↔ (p ≡ q)
unfolding path_beq
path_beq_iff p q = ground (arith, parts_beq_iff p.parts q.parts)

instance abbrev pub path_eq : Eq CleanPath
path_eq = record { beq = path_beq; beq_iff = path_beq_iff }

-- The path ".".
abbrev pub here : CleanPath
here = record { rooted = false; parts = [] }

-- path.Dir of a clean path: the root is its own directory.
abbrev pub up : List Text → List Text
up [] = []
up (b ∷ ps) = ps

abbrev pub dir_of : CleanPath → CleanPath
dir_of p = record p { parts = up p.parts }

-- path.Base of a clean path.
abbrev pub base_of : CleanPath → Text
base_of p = elim p.parts [ [] ↦ (if p.rooted then b'/' ∷ [] else dot) | b ∷ ps ↦ b ]

-- The text of a clean path.
unfoldable pub join_from : List Text → Text → Text
join_from [] s = s
join_from (p ∷ ps) s = join_from ps (p ++ b'/' ∷ s)

unfoldable pub to_text : CleanPath → Text
unfolding join_from
to_text p = elim p.parts [
  | [] ↦ (if p.rooted then b'/' ∷ [] else dot)
  | b ∷ ps ↦ (if p.rooted then b'/' ∷ join_from ps b else join_from ps b)
]

-- filepathToSlash of internal/s3store/memfs.go
unfoldable pub to_slash : Text → Text
to_slash [] = []
to_slash (c ∷ s) = (if eqb c 92 then b'/' else c) ∷ to_slash s
