-- ===== src/MemFs/Bounds.antt =====
-- What unpackTar holds in memory: whole bodies only, the first of each path, within the limit.
use crate_html.Prelude.{
  ℕ, ◌+◌, ◌-◌, ◌≤◌, ◌≡◌, Bool, true, false, Option, none, some, List, [], ◌∷◌, Text, text_eq, ◌==◌,
  if◌then◌else◌, ok, lookup, insert, delete, length-take_le, take_of_length-le, length, leb,
  is_some, sum_of, arith, Bool-cases, inl, inr,
}
use crate_html.TarPath.{CleanPath, path_eq, here, dir_of}
use crate_html.MemFs.{
  Typeflag, reg, Body, whole, broken, TarItem, header, bad_header, copy_limited, is_over, MemFs,
  add_kid, mark_dir, add_dir_from, add_dir, add_file, entry_path, unpack_file,
}

files-add_dir_from :
    (rooted : Bool) (ps : List Text) (m : MemFs) → (add_dir_from rooted ps m).files ≡ m.files
unfolding add_dir_from mark_dir
files-add_dir_from rooted [] m = ground arith
files-add_dir_from rooted (b ∷ ps) m =
    ground (
      arith,
      files-add_dir_from rooted ps (mark_dir (record { rooted = rooted; parts = b ∷ ps }) m),
    )

pub files-add_dir : (p : CleanPath) (m : MemFs) → (add_dir p m).files ≡ m.files
unfolding add_dir
files-add_dir p m = files-add_dir_from p.rooted p.parts m

pub files-add_file :
    (p : CleanPath) (d : Text) (m : MemFs)
    → (add_file p d m).files ≡ (if is_some (lookup p m.files) then m.files else insert p d m.files)
unfolding add_file add_kid
files-add_file p d m =
    ground (arith, files-add_dir (dir_of p) (record m { files = insert p d m.files }))

abbrev pub total : List (CleanPath × Text) → ℕ
total = sum_of (λ (e : CleanPath × Text). length e.1)

total-delete-le : (p : CleanPath) (l : List (CleanPath × Text)) → total (delete p l) ≤ total l
unfolding delete
total-delete-le p [] = omega arith
total-delete-le p ((q, d) ∷ l) = ground (arith, total-delete-le p l)

pub total-add_file :
    (p : CleanPath) (d : Text) (m : MemFs) → total (add_file p d m).files ≤ total m.files + length d
unfolding insert
total-add_file p d m = ground (arith, files-add_file p d m, total-delete-le p m.files)

-- A copy that ends within the limit has the whole body.
pub copy_limited-whole :
    (limit written : ℕ) (body : Body)
    → (copy_limited limit written body).1 ≡ true
    → is_over limit (written + length (copy_limited limit written body).0) ≡ false
    → body ≡ whole (copy_limited limit written body).0
unfolding copy_limited
copy_limited-whole limit written (whole d) h k =
    elim (Bool-cases (leb (limit - written + 1) (length d))) [
      | inl long ↦ ground (arith, length-take_le (limit - written + 1) d)
      | inr short ↦ ground (arith, take_of_length-le (limit - written + 1) d)
    ]
copy_limited-whole limit written (broken d) h k =
    ground (arith, length-take_le (limit - written + 1) d)

-- A regular file that is accepted was read whole, and keeps the site within the limit.
pub record Accepted (limit : ℕ) (p : CleanPath) (body : Body) (m : MemFs) (written : ℕ)
    (r : MemFs × ℕ) : Type 0 where
  pub bytes : Text
  pub read : body ≡ whole bytes
  pub filed : r.0 ≡ add_file p bytes m
  pub counted : r.1 ≡ written + length bytes
  pub fits : is_over limit r.1 ≡ false

pub unpack_file-Accepted :
    (limit : ℕ) (p : CleanPath) (body : Body) (m : MemFs) (written : ℕ) (r : MemFs × ℕ)
    → unpack_file limit p body m written ≡ ok r
    → Accepted limit p body m written r
unfolding unpack_file
unpack_file-Accepted limit p body m written r h =
    let d = (copy_limited limit written body).0 in
    record {
      bytes = d;
      read = copy_limited-whole limit written body (ground arith) (ground arith);
      filed = ground arith;
      counted = ground arith;
      fits = ground arith;
    }

abbrev pub first_body : Typeflag → Body → Bool → Option Text → Option Text
first_body reg (whole d) true later = some d
first_body _ _ _ later = later

-- The first regular file with the path, among the entries that unpackTar does not skip.
unfoldable pub first_file : CleanPath → List TarItem → Option Text
first_file p [] = none
first_file p (bad_header ∷ items) = first_file p items
first_file p (header name flag body ∷ items) =
    let later = first_file p items in
    elim (entry_path name) [
      | none ↦ later
      | some q ↦ if q == here then later else first_body flag body (q == p) later
    ]

-- The first of two.
abbrev pub earlier : Option Text → Option Text → Option Text
earlier none later = later
earlier (some d) later = some d

-- What one round of the loop does to the files and to the count.
pub record Round (limit : ℕ) (item : TarItem) (m : MemFs) (written : ℕ) (r : MemFs × ℕ)
    : Type 0 where
  pub files :
      (p : CleanPath) → lookup p r.0.files ≡ earlier (lookup p m.files) (first_file p (item ∷ []))
  pub grown : total r.0.files + written ≤ total m.files + r.1
  pub fits : is_over limit written ≡ false → is_over limit r.1 ≡ false
