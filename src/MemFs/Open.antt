-- ===== src/MemFs/Open.antt =====
-- Open, ReadDir and the open directories of internal/s3store/memfs.go. A valid path of package fs is
-- the text of a clean path, so the maps are read at the clean path of the name.
use crate_html.Prelude.{
  ℕ, zero, suc, ◌+◌, ◌-◌, Bool, true, false, ◌&&◌, ◌||◌, not, Option, none, some, List, [], ◌∷◌,
  map, Text, text_eq, ◌==◌, ltb, leb, eqb, if◌then◌else◌, Result, ok, err, ℤ, pos, negsuc, lookup,
  length, take, contains, all,
}
use crate_html.TarPath.{CleanPath, path_eq, base_of, split_slash, clean, dot}
use crate_html.TarPath.Components.{is_element}
use crate_html.MemFs.{MemFs, kids_of}

-- The first byte of a UTF-8 sequence: how many bytes follow, and the bounds of the next one.
unfoldable pub utf8_lead : ℕ → Option (ℕ × ℕ × ℕ)
utf8_lead c =
    if ltb c 0x80
    then some (0, 0x80, 0xBF)
    else if ltb c 0xC2
    then none
    else if ltb c 0xE0
    then some (1, 0x80, 0xBF)
    else if eqb c 0xE0
    then some (2, 0xA0, 0xBF)
    else if eqb c 0xED
    then some (2, 0x80, 0x9F)
    else if ltb c 0xF0
    then some (2, 0x80, 0xBF)
    else if eqb c 0xF0
    then some (3, 0x90, 0xBF)
    else if ltb c 0xF4
    then some (3, 0x80, 0xBF)
    else if eqb c 0xF4
    then some (3, 0x80, 0x8F)
    else none

-- utf8.ValidString, inside a sequence that wants so many more bytes.
unfoldable pub utf8_from : ℕ → ℕ → ℕ → Text → Bool
unfolding utf8_lead
utf8_from zero low high [] = true
utf8_from (suc n) low high [] = false
utf8_from zero low high (c ∷ s) = elim (utf8_lead c) [
  | none ↦ false
  | some (n, l, h) ↦ utf8_from n l h s
]
utf8_from (suc n) low high (c ∷ s) = leb low c && leb c high && utf8_from n 0x80 0xBF s

-- fs.ValidPath
unfoldable pub valid_path : Text → Bool
unfolding split_slash utf8_from
valid_path name = utf8_from 0 0x80 0xBF name && (name == dot || all is_element (split_slash name))

-- memInfo
pub record MemInfo : Type 0 where
  pub name : Text
  pub size : ℕ
  pub mod_time : ℕ
  pub is_dir : Bool

-- memDir
pub record MemDir : Type 0 where
  pub info : MemInfo
  pub entries : List MemInfo
  pub off : ℕ

-- What Open gives: a memFile with its contents, or a memDir.
pub data Opened : Type 0 where
  file : Text → MemInfo → Opened
  folder : MemDir → Opened

-- fs.ErrInvalid and fs.ErrNotExist
pub data OpenError : Type 0 where
  invalid not_exist : OpenError

-- `dir + "/" + c`, or `c` in the root.
abbrev pub child : CleanPath → Text → CleanPath
child p c = record p { parts = c ∷ p.parts }

unfoldable pub entry_for : MemFs → CleanPath → Text → MemInfo
entry_for m p c = elim (lookup (child p c) m.files) [
  | some d ↦ record { name = c; size = length d; mod_time = m.mod_time; is_dir = false }
  | none ↦ record { name = c; size = 0; mod_time = m.mod_time; is_dir = true }
]

unfoldable pub entries_for : MemFs → CleanPath → List Text → List MemInfo
unfolding entry_for
entries_for m p children = map (entry_for m p) children

unfoldable pub open_path : MemFs → Text → Result OpenError Opened
unfolding valid_path entries_for
open_path m name =
    if not (valid_path name)
    then err invalid
    else (let p = clean name in
        elim (lookup p m.files) [
          | some d ↦ ok (
              file d (record {
                name = base_of p;
                size = length d;
                mod_time = m.mod_time;
                is_dir = false;
              }))
          | none ↦
              if contains p m.is_dir
              then ok (
                  folder (record {
                    info = record {
                      name = base_of p;
                      size = 0;
                      mod_time = m.mod_time;
                      is_dir = true;
                    };
                    entries = entries_for m p (kids_of p m.kids);
                    off = 0;
                  }))
              else err not_exist
        ])

unfoldable pub read_dir : MemFs → Text → Result OpenError (List MemInfo)
unfolding valid_path entries_for
read_dir m name =
    if not (valid_path name)
    then err invalid
    else (let p = clean name in
        if contains p m.is_dir then ok (entries_for m p (kids_of p m.kids)) else err not_exist)

-- Stat of what was opened.
unfoldable pub stat : Opened → MemInfo
stat (file d i) = i
stat (folder d) = d.info

-- The read of an open file; `none` is the error of a directory.
unfoldable pub read_all : Opened → Option Text
read_all (file d i) = some d
read_all (folder d) = none

abbrev pub drop {ℓ} : {A : Type ℓ} → ℕ → List A → List A
drop zero xs = xs
drop (suc n) [] = []
drop (suc n) (x ∷ xs) = drop n xs

abbrev pub min : ℕ → ℕ → ℕ
min a b = if leb a b then a else b

-- memDir.ReadDir for a positive count; `none` is io.EOF.
unfoldable pub read_some : ℕ → MemDir → MemDir × Option (List MemInfo)
read_some n d =
    if leb (length d.entries) d.off
    then (d, none)
    else (let end = min (d.off + n) (length d.entries) in
        (record d { off = end }, some (take (end - d.off) (drop d.off d.entries))))

-- memDir.ReadDir
unfoldable pub read_entries : ℤ → MemDir → MemDir × Option (List MemInfo)
unfolding read_some
read_entries (pos zero) d = (record d { off = length d.entries }, some (drop d.off d.entries))
read_entries (negsuc n) d = (record d { off = length d.entries }, some (drop d.off d.entries))
read_entries (pos (suc n)) d = read_some (suc n) d
