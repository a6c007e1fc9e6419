-- ===== src/Pack/Names.antt =====
-- The names that the walk writes, and the paths that unpacking reads from them.
use crate_html.Prelude.{
  ℕ, ◌≡◌, refl, ap, ◌∙◌, Bool, true, false, ◌&&◌, ◌||◌, not, some, List, [], ◌∷◌, ◌++◌, Text,
  text_eq, ◌==◌, arith, all, has_byte, is_empty, trim_slashes,
}
use crate_html.TarPath.{
  CleanPath, split_slash, is_rooted, clean, climbs, safe_tar_path, join_from, to_text, to_slash,
  here, path_eq, path_beq_iff,
}
use crate_html.TarPath.Components.{
  is_element, clean_from-append, clean_from-onto, split_slash-single, split_slash-append, onto,
  is_rooted-element,
}
use crate_html.MemFs.{entry_path}
use crate_html.Pack.{arch_name, dir_name}

-- A name that a file system can give, without a backslash, which the in-memory site reads as a slash.
abbrev pub is_name : Text → Bool
is_name c = is_element c && not (has_byte b'/' c) && not (has_byte 92 c)

pub all_imp {ℓ} :
    {A : Type ℓ} (s t : A → Bool) (l : List A)
    → ((a : A) → s a ≡ true → t a ≡ true)
    → all s l ≡ true
    → all t l ≡ true
all_imp s t [] f h = refl
all_imp s t (a ∷ l) f h = ground (arith, f a, all_imp s t l f)

name-element : (c : Text) → is_name c ≡ true → is_element c ≡ true
name-element c h = ground arith

name-no_slash : (c : Text) → is_name c ≡ true → has_byte b'/' c ≡ false
name-no_slash c h = ground arith

name-no_backslash : (c : Text) → is_name c ≡ true → has_byte 92 c ≡ false
name-no_backslash c h = ground arith

-- The components of a written name.
pub split_slash-arch_name :
    (c : Text) (cs : List Text)
    → all is_name (c ∷ cs) ≡ true
    → split_slash (arch_name (c ∷ cs)) ≡ c ∷ cs
unfolding arch_name
split_slash-arch_name c [] h = split_slash-single c (name-no_slash c (ground arith))
split_slash-arch_name c (d ∷ cs) h =
    split_slash-append c (arch_name (d ∷ cs))
    ∙ ap (λ (l : List Text). l ++ split_slash (arch_name (d ∷ cs)))
        (split_slash-single c (name-no_slash c (ground arith)))
    ∙ ap (◌∷◌ c) (split_slash-arch_name d cs (ground arith))

trim_slashes-name : (c : Text) → has_byte b'/' c ≡ false → trim_slashes c ≡ c
unfolding trim_slashes
trim_slashes-name [] h = refl
trim_slashes-name (b ∷ c) h = ground (arith, trim_slashes-name c)

trim_slashes-append :
    (a c : Text)
    → trim_slashes c ≡ c
    → is_empty c ≡ false
    → (trim_slashes (a ++ c) ≡ a ++ c) × (is_empty (a ++ c) ≡ false)
unfolding trim_slashes
trim_slashes-append [] c t n = (t, n)
trim_slashes-append (b ∷ a) c t n = ground (arith, trim_slashes-append a c t n)

trim_slashes-arch_name :
    (c : Text) (cs : List Text)
    → all is_name (c ∷ cs) ≡ true
    → (trim_slashes (arch_name (c ∷ cs)) ≡ arch_name (c ∷ cs))
      × (is_empty (arch_name (c ∷ cs)) ≡ false)
unfolding arch_name
trim_slashes-arch_name c [] h = (trim_slashes-name c (name-no_slash c (ground arith)), ground arith)
trim_slashes-arch_name c (d ∷ cs) h =
    let (t, n) = trim_slashes-arch_name d cs (ground arith) in
    let (t', n') = trim_slashes-append (b'/' ∷ []) (arch_name (d ∷ cs)) t n in
    trim_slashes-append c (b'/' ∷ arch_name (d ∷ cs)) t' n'

pub split_slash-dir_name :
    (c : Text) (cs : List Text)
    → all is_name (c ∷ cs) ≡ true
    → split_slash (dir_name (c ∷ cs)) ≡ (c ∷ cs) ++ [] ∷ []
unfolding dir_name split_slash
split_slash-dir_name c cs h = rw ((trim_slashes-arch_name c cs h).0) (
    split_slash-append (arch_name (c ∷ cs)) []
    ∙ ap (λ (l : List Text). l ++ [] ∷ []) (split_slash-arch_name c cs h))

-- The path of the components, the deepest first.
abbrev pub path_of : List Text → CleanPath
path_of cs = record { rooted = false; parts = onto cs [] }

all-onto :
    (t : Text → Bool) (ps out : List Text)
    → all t ps ≡ true
    → all t out ≡ true
    → all t (onto ps out) ≡ true
all-onto t [] out h k = k
all-onto t (p ∷ ps) out h k = all-onto t ps (p ∷ out) (ground arith) (ground arith)

climbs-elements : (ps : List Text) → all is_element ps ≡ true → climbs ps ≡ false
climbs-elements [] h = refl
climbs-elements (p ∷ []) h = ground arith
climbs-elements (p ∷ q ∷ ps) h = climbs-elements (q ∷ ps) (ground arith)

safe_tar_path-clean :
    (s : Text) (ps : List Text)
    → clean s ≡ record { rooted = false; parts = ps }
    → all is_element ps ≡ true
    → safe_tar_path s ≡ some (record { rooted = false; parts = ps })
unfolding safe_tar_path
safe_tar_path-clean s ps e h = rw (e, climbs-elements ps h) refl

-- The way back from the text of a clean path.
split_slash-join_from :
    (ps : List Text) (s : Text)
    → all is_name ps ≡ true
    → split_slash (join_from ps s) ≡ onto ps (split_slash s)
unfolding join_from
split_slash-join_from [] s h = refl
split_slash-join_from (p ∷ ps) s h =
    split_slash-join_from ps (p ++ b'/' ∷ s) (ground arith)
    ∙ ap (onto ps) (
        split_slash-append p s
        ∙ ap (λ (l : List Text). l ++ split_slash s)
            (split_slash-single p (name-no_slash p (ground arith))))

pub onto_twice : (ps l : List Text) → onto (onto ps l) [] ≡ onto l ps
onto_twice [] l = refl
onto_twice (p ∷ ps) l = onto_twice ps (p ∷ l)

has_byte-append : (b : ℕ) (s t : Text) → has_byte b (s ++ t) ≡ (has_byte b s || has_byte b t)
has_byte-append b [] t = refl
has_byte-append b (c ∷ s) t = ground (arith, has_byte-append b s t)

has_byte-join_from :
    (ps : List Text) (s : Text)
    → all is_name ps ≡ true
    → has_byte 92 s ≡ false
    → has_byte 92 (join_from ps s) ≡ false
unfolding join_from
has_byte-join_from [] s h k = k
has_byte-join_from (p ∷ ps) s h k =
    has_byte-join_from ps (p ++ b'/' ∷ s) (ground arith)
      (ground (arith, has_byte-append 92 p (b'/' ∷ s), name-no_backslash p, k))

to_slash-same : (s : Text) → has_byte 92 s ≡ false → to_slash s ≡ s
unfolding to_slash
to_slash-same [] h = refl
to_slash-same (c ∷ s) h = ground (arith, to_slash-same s)

clean-elements :
    (s : Text) (ps : List Text)
    → split_slash s ≡ ps
    → all is_element ps ≡ true
    → clean s ≡ path_of ps
unfolding clean
clean-elements s ps e h =
    rw (is_rooted-element s (ap (all is_element) e ∙ h), e)
      (ap (λ (l : List Text). record { rooted = false; parts = l }) (clean_from-onto false [] ps h))

clean-to_text :
    (l : List Text)
    → is_empty l ≡ false
    → all is_name l ≡ true
    → clean (to_slash (to_text (record { rooted = false; parts = l })))
      ≡ record { rooted = false; parts = l }
unfolding to_text
clean-to_text [] n h = cc
clean-to_text (b ∷ ps) n h =
    rw
      (to_slash-same (join_from ps b)
        (has_byte-join_from ps b (ground arith) (name-no_backslash b (ground arith))))
      (clean-elements (join_from ps b) (onto ps (b ∷ []))
          (split_slash-join_from ps b (ground arith)
            ∙ ap (onto ps) (split_slash-single b (name-no_slash b (ground arith))))
          (all-onto is_element ps (b ∷ [])
            (all_imp is_name is_element ps name-element (ground arith))
            (ground (arith, name-element b)))
        ∙ ap (λ (l : List Text). record { rooted = false; parts = l }) (onto_twice ps (b ∷ [])))

is_empty-onto : (ps : List Text) (p : Text) (l : List Text) → is_empty (onto ps (p ∷ l)) ≡ false
is_empty-onto [] p l = refl
is_empty-onto (q ∷ ps) p l = is_empty-onto ps q (p ∷ l)

entry_path-safe :
    (s : Text) (p : CleanPath)
    → safe_tar_path s ≡ some p
    → entry_path s ≡ some (clean (to_slash (to_text p)))
unfolding entry_path
entry_path-safe s p e = rw (e, entry_path) refl

-- Where an entry goes whose name cleans to the path of such components.
entry_path-clean :
    (s c : Text) (cs : List Text)
    → all is_name (c ∷ cs) ≡ true
    → clean s ≡ path_of (c ∷ cs)
    → entry_path s ≡ some (path_of (c ∷ cs))
entry_path-clean s c cs h e =
    let n : all is_name (onto (c ∷ cs) []) ≡ true = all-onto is_name (c ∷ cs) [] h refl in
    entry_path-safe s (path_of (c ∷ cs))
      (safe_tar_path-clean s (onto (c ∷ cs) []) e (all_imp is_name is_element _ name-element n))
    ∙ ap (λ (p : CleanPath). some p) (clean-to_text (onto (c ∷ cs) []) (is_empty-onto cs c []) n)

pub entry_path-arch_name :
    (c : Text) (cs : List Text)
    → all is_name (c ∷ cs) ≡ true
    → entry_path (arch_name (c ∷ cs)) ≡ some (path_of (c ∷ cs))
entry_path-arch_name c cs h = entry_path-clean (arch_name (c ∷ cs)) c cs h (
    clean-elements (arch_name (c ∷ cs)) (c ∷ cs) (split_slash-arch_name c cs h)
      (all_imp is_name is_element (c ∷ cs) name-element h))

is_rooted-append : (s t : Text) → is_empty s ≡ false → is_rooted (s ++ t) ≡ is_rooted s
is_rooted-append [] t h = cc
is_rooted-append (c ∷ s) t h = refl

clean-dir_name :
    (c : Text) (cs : List Text)
    → all is_name (c ∷ cs) ≡ true
    → clean (dir_name (c ∷ cs)) ≡ path_of (c ∷ cs)
unfolding clean
clean-dir_name c cs h =
    let k = all_imp is_name is_element (c ∷ cs) name-element h in
    let a = arch_name (c ∷ cs) in
    let (t, n) = trim_slashes-arch_name c cs h in
    let r : is_rooted (dir_name (c ∷ cs)) ≡ false =
      unfold dir_name in
      (rw t (
        is_rooted-append a (b'/' ∷ []) n
        ∙ is_rooted-element a (ap (all is_element) (split_slash-arch_name c cs h) ∙ k))) in
    rw (r, split_slash-dir_name c cs h, clean_from-append false [] (c ∷ cs) ([] ∷ []))
      (rw (clean_from-onto false [] (c ∷ cs) k) refl)

pub entry_path-dir_name :
    (c : Text) (cs : List Text)
    → all is_name (c ∷ cs) ≡ true
    → entry_path (dir_name (c ∷ cs)) ≡ some (path_of (c ∷ cs))
entry_path-dir_name c cs h = entry_path-clean (dir_name (c ∷ cs)) c cs h (clean-dir_name c cs h)

pub path_of-ne-here : (c : Text) (cs : List Text) → (path_of (c ∷ cs) == here) ≡ false
path_of-ne-here c cs = ground (arith, path_beq_iff (path_of (c ∷ cs)) here, is_empty-onto cs c [])
