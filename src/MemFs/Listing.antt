-- ===== src/MemFs/Listing.antt =====
-- What ReadDir lists, against what Open finds.
use crate_html.Prelude.{
  ℕ, ◌≡◌, refl, sym, ap, ◌∙◌, Bool, true, false, ◌&&◌, ◌||◌, Option, none, some, List, [], ◌∷◌,
  ◌++◌, map, Text, text_eq, text_beq, text_beq_iff, ◌==◌, if◌then◌else◌, Result, ok, err, lookup,
  contains, is_some, All, all, has_byte, arith, Bool-cases, Option-cases, inl, inr,
}
use mathlib.Core.Path.{subst}
use crate_html.TarPath.{
  CleanPath, path_eq, path_beq, path_beq_iff, here, dir_of, split_slash, clean_from, clean, dot,
}
use crate_html.TarPath.Components.{
  is_element, clean_from-append, clean_from-element, split_slash-single, split_slash-append,
  all-append, is_rooted-element,
}
use crate_html.MemFs.{MemFs, kids_of, Unpacked, unpack_tar, TarItem}
use crate_html.MemFs.Placed.{is_listed, IsTree}
use crate_html.MemFs.Tree.{unpack_tar-IsTree}
use crate_html.MemFs.Known.{is_there, at, IsKnown, unpack_tar-IsKnown}
use crate_html.MemFs.Open.{
  utf8_from, valid_path, MemInfo, Opened, OpenError, child, entry_for, entries_for, open_path,
  read_dir, stat,
}

-- The path of a name in a directory.
abbrev pub path_in : Text → Text → Text
path_in d c = if d == dot then c else d ++ b'/' ∷ c

abbrev AreElements : Text → Type 0
AreElements name = all is_element (split_slash name) ≡ true

right_of : (a b c : Bool) → (a && (b || c)) ≡ true → b ≡ false → c ≡ true
right_of true true c h n = cc
right_of true false c h n = h
right_of false b c h n = cc

both : (a b : Bool) → (a && b) ≡ true → (a ≡ true) × (b ≡ true)
both true b h = (refl, h)
both false b h = cc

valid_path-AreElements :
    (name : Text) → valid_path name ≡ true → (name == dot) ≡ false → AreElements name
unfolding valid_path
valid_path-AreElements name h n =
    right_of (utf8_from 0 0x80 0xBF name) (name == dot) (all is_element (split_slash name)) h n

clean-child_deep :
    (d c : Text)
    → AreElements (d ++ b'/' ∷ c)
    → has_byte b'/' c ≡ false
    → (clean (d ++ b'/' ∷ c) ≡ child (clean d) c) × ((clean d).rooted ≡ false)
unfolding clean
clean-child_deep d c h n =
    let e : split_slash (d ++ b'/' ∷ c) ≡ split_slash d ++ c ∷ [] =
      split_slash-append d c ∙ ap (◌++◌ (split_slash d)) (split_slash-single c n) in
    let a : (all is_element (split_slash d) && all is_element (c ∷ [])) ≡ true =
      sym (all-append is_element (split_slash d) (c ∷ [])) ∙ sym (ap (all is_element) e) ∙ h in
    let (front, rest) = both (all is_element (split_slash d)) (all is_element (c ∷ [])) a in
    let last = (both (is_element c) true rest).0 in
    let r = is_rooted-element d front in
    let r' = is_rooted-element (d ++ b'/' ∷ c) h in
    (
      rw (r', r, e, clean_from-append false [] (split_slash d) (c ∷ []))
          (ap (λ (l : List Text). record { rooted = false; parts = l })
            (clean_from-element false (clean_from false [] (split_slash d)) c [] last)),
      r,
    )

clean-child_top : (c : Text) → AreElements c → has_byte b'/' c ≡ false → clean c ≡ at c []
unfolding clean
clean-child_top c h n =
    let e = split_slash-single c n in
    let last = (both (is_element c) true (sym (ap (all is_element) e) ∙ h)).0 in
    rw (is_rooted-element c h, e)
      (ap (λ (l : List Text). record { rooted = false; parts = l })
        (clean_from-element false [] c [] last))

slash-ne-dot : (d c : Text) → (d ++ b'/' ∷ c == dot) ≡ false
unfolding text_beq
slash-ne-dot [] c = refl
slash-ne-dot (b ∷ []) c = ground (arith, text_beq_iff (b ∷ b'/' ∷ c) dot)
slash-ne-dot (b ∷ b' ∷ d) c = ground (arith, text_beq_iff (b ∷ b' ∷ (d ++ b'/' ∷ c)) dot)

clean-dot : clean dot ≡ here
unfolding clean split_slash clean_from text_beq
clean-dot = refl

-- The clean path of a name in a directory stands below the directory's.
clean-path_in :
    (d c : Text)
    → valid_path (path_in d c) ≡ true
    → has_byte b'/' c ≡ false
    → (c == dot) ≡ false
    → (clean (path_in d c) ≡ child (clean d) c) × ((clean d).rooted ≡ false)
clean-path_in d c v n o = elim (Bool-cases (d == dot)) [
  | inl top ↦
      let e = (text_beq_iff d dot).0 top in
      let k : clean d ≡ here = ap clean e ∙ clean-dot in
      rw (top, k) (clean-child_top c (valid_path-AreElements c (rw top at v) o) n, refl)
  | inr deep ↦ rw deep (
      clean-child_deep d c
        (valid_path-AreElements (d ++ b'/' ∷ c) (rw deep at v) (slash-ne-dot d c)) n)
]

-- What Stat says of what Open found.
abbrev pub info_of : Result OpenError Opened → Option MemInfo
info_of (err e) = none
info_of (ok f) = some (stat f)

name-entry_for : (m : MemFs) (p : CleanPath) (c : Text) → (entry_for m p c).name ≡ c
unfolding entry_for
name-entry_for m p c = ground arith

info_of-open_path :
    (m : MemFs) (name : Text) (p : CleanPath) (c : Text)
    → valid_path name ≡ true
    → clean name ≡ child p c
    → info_of (open_path m name) ≡ (if is_there (child p c) m then some (entry_for m p c) else none)
unfolding open_path entry_for stat
info_of-open_path m name p c v e = rw (v, e) (ground arith)

read_dir-ok :
    (m : MemFs) (d : Text) (es : List MemInfo)
    → read_dir m d ≡ ok es
    → es ≡ map (entry_for m (clean d)) (kids_of (clean d) m.kids)
unfolding read_dir entries_for
read_dir-ok m d es h = ground arith

contains-names :
    (m : MemFs) (p : CleanPath) (c : Text) (l : List Text)
    → contains c (map MemInfo.name (map (entry_for m p) l)) ≡ contains c l
contains-names m p c [] = refl
contains-names m p c (x ∷ l) = rw (name-entry_for m p x, contains-names m p c l) refl

All-entries :
    (m : MemFs) (p : CleanPath) (c : Text) (o : Option MemInfo) (l : List Text)
    → (contains c l ≡ true → o ≡ some (entry_for m p c))
    → All (λ e. e.name ≡ c → o ≡ some e) (map (entry_for m p) l)
All-entries m p c o [] k = tt
All-entries m p c o (x ∷ l) k = (
  λ e.
      let same : x ≡ c = sym (name-entry_for m p x) ∙ e in
      k (ground (arith, text_beq_iff x c)) ∙ ap (λ (y : Text). some (entry_for m p y)) (sym same),
  All-entries m p c o l (λ h. k (ground (arith, h))),
)

iff_eq : (a b : Bool) → (a ≡ true → b ≡ true) → (b ≡ true → a ≡ true) → a ≡ b
iff_eq true true f g = refl
iff_eq true false f g = sym (f refl)
iff_eq false true f g = g refl
iff_eq false false f g = refl

at-ne-here : (c : Text) (ps : List Text) → (at c ps == here) ≡ false
unfolding path_beq
at-ne-here c ps = ground (arith, path_beq_iff (at c ps) here)

listed_of :
    (p : CleanPath) (m : MemFs)
    → (contains p m.is_dir ≡ true → (is_listed p m && contains (dir_of p) m.is_dir) ≡ true)
    → ((d : Text)
        → lookup p m.files ≡ some d
        → (is_listed p m && contains (dir_of p) m.is_dir) ≡ true)
    → is_there p m ≡ true
    → is_listed p m ≡ true
listed_of p m f g h = elim (Option-cases (lookup p m.files)) [
  | inl no_file ↦ (both (is_listed p m) _ (f (ground (arith, no_file, h)))).0
  | inr (d, e) ↦ (both (is_listed p m) _ (g d e)).0
]

-- In an unpacked site, a name is listed exactly when there is something.
contains-kids_of :
    (m : MemFs) (c : Text) (ps : List Text)
    → IsTree m
    → IsKnown m
    → is_listed (at c ps) m ≡ is_there (at c ps) m
contains-kids_of m c ps t k =
    iff_eq (is_listed (at c ps) m) (is_there (at c ps) m) (k c ps)
      (listed_of (at c ps) m (λ h. t.dirs (at c ps) h (at-ne-here c ps)) (t.files (at c ps)))

is_some-if {ℓ} : {A : Type ℓ} (b : Bool) (a : A) → is_some (if b then some a else none) ≡ b
is_some-if true a = refl
is_some-if false a = refl

-- In a site that was unpacked, a directory lists just the names at which Open finds something, and
-- every entry is what Stat says of it: the same name, size, time and kind. The names are those
-- without a slash that make a valid path behind the directory's.
pub read_dir-open_path :
    (now limit : ℕ) (items : List TarItem) (u : Unpacked) (d c : Text) (es : List MemInfo)
    → unpack_tar now limit items ≡ ok u
    → read_dir u.fsys d ≡ ok es
    → valid_path (path_in d c) ≡ true
    → has_byte b'/' c ≡ false
    → (c == dot) ≡ false
    → (contains c (map MemInfo.name es) ≡ is_some (info_of (open_path u.fsys (path_in d c))))
      × All (λ e. e.name ≡ c → info_of (open_path u.fsys (path_in d c)) ≡ some e) es
read_dir-open_path now limit items u d c es h r v n o =
    let m = u.fsys in
    let p = clean d in
    let (e, unrooted) = clean-path_in d c v n o in
    let i = info_of-open_path m (path_in d c) p c v e in
    let listed : contains c (kids_of p m.kids) ≡ is_there (child p c) m =
      subst
        (λ (b : Bool).
          contains c (kids_of (record { rooted = b; parts = p.parts }) m.kids)
          ≡ is_there (record { rooted = b; parts = c ∷ p.parts }) m)
        (sym unrooted)
        (contains-kids_of m c p.parts (unpack_tar-IsTree now limit items u h)
          (unpack_tar-IsKnown now limit items u h)) in
    rw (read_dir-ok m d es r) (
      contains-names m p c (kids_of p m.kids)
          ∙ listed
          ∙ sym (is_some-if (is_there (child p c) m) (entry_for m p c))
          ∙ ap is_some (sym i),
      All-entries m p c (info_of (open_path m (path_in d c))) (kids_of p m.kids)
          (λ k. i ∙ ap (λ (b : Bool). if b then some (entry_for m p c) else none) (sym listed ∙ k)),
    )
