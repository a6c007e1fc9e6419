-- ===== src/MemFs.antt =====
-- internal/s3store/memfs.go: an uploaded archive expanded into memory. A tar stream is the list of
-- what the reader's calls of Next return, and of what reading each body gives.
pub mod Bounds
pub mod Files
pub mod Placed
pub mod Tree
pub mod Open
pub mod Keeps
pub mod Known
pub mod Listing
pub mod Paging
use crate_html.Prelude.{
  ℕ, suc, ◌+◌, ◌-◌, Bool, true, false, ◌&&◌, ◌||◌, not, Option, none, some, List, [], ◌∷◌, ◌++◌,
  Text, text_eq, ◌==◌, if◌then◌else◌, Result, ok, err, ◌>>=◌, lookup, insert, length, take, ltb,
  leb, contains, is_some,
}
use crate_html.Sort.{sort_strings}
use crate_html.TarPath.{
  CleanPath, path_eq, here, dir_of, base_of, safe_tar_path, clean, to_text, to_slash,
}

-- hdr.Typeflag: a directory, a regular file (also by its legacy flag), a link, anything else.
pub data Typeflag : Type 0 where
  dir reg link special : Typeflag

-- A body that reads to its end, or fails behind the bytes given.
pub data Body : Type 0 where
  whole : Text → Body
  broken : Text → Body

pub data TarItem : Type 0 where
  header : Text → Typeflag → Body → TarItem
  bad_header : TarItem

pub data UnpackError : Type 0 where
  tar_read unsafe_path site_too_large body_read : UnpackError

-- io.Copy through io.LimitReader(tr, limit-written+1), or with no limiter at limit 0: the bytes, and
-- whether the copy ended without an error.
unfoldable pub copy_limited : ℕ → ℕ → Body → Text × Bool
copy_limited limit written (whole d) =
    if ltb 0 limit then (take (limit - written + 1) d, true) else (d, true)
copy_limited limit written (broken d) =
    if ltb 0 limit && leb (limit - written + 1) (length d)
    then (take (limit - written + 1) d, true)
    else (d, false)

-- `limit > 0 && written > limit`
abbrev pub is_over : ℕ → ℕ → Bool
is_over limit written = ltb 0 limit && ltb limit written

pub record MemFs : Type 0 where
  pub files : List (CleanPath × Text)
  pub is_dir : List CleanPath
  pub kids : List (CleanPath × List Text)
  pub mod_time : ℕ

unfoldable pub new_fs : ℕ → MemFs
new_fs now = record { files = []; is_dir = here ∷ []; kids = (here, []) ∷ []; mod_time = now }

-- `m.kids[dir]`, which is empty for an unknown directory.
abbrev pub kids_of : CleanPath → List (CleanPath × List Text) → List Text
kids_of p m = elim (lookup p m) [ none ↦ [] | some names ↦ names ]

-- `m.kids[dir] = append(m.kids[dir], name)`
unfoldable pub add_kid : CleanPath → Text → MemFs → MemFs
add_kid p name m = record m { kids = insert p (kids_of p m.kids ++ name ∷ []) m.kids }

-- One round of addDir's loop.
unfoldable pub mark_dir : CleanPath → MemFs → MemFs
unfolding add_kid
mark_dir p m = add_kid (dir_of p) (base_of p) (record m { is_dir = p ∷ m.is_dir })

-- addDir: upwards until a known directory. The root "/" is its own parent, so it ends the loop too.
unfoldable pub add_dir_from : Bool → List Text → MemFs → MemFs
add_dir_from rooted [] m =
    if rooted && not (contains (record { rooted = rooted; parts = [] }) m.is_dir)
    then mark_dir (record { rooted = rooted; parts = [] }) m
    else m
add_dir_from rooted (b ∷ ps) m =
    let p : CleanPath = record { rooted = rooted; parts = b ∷ ps } in
    if contains p m.is_dir then m else add_dir_from rooted ps (mark_dir p m)

unfoldable pub add_dir : CleanPath → MemFs → MemFs
unfolding add_dir_from
add_dir p m = add_dir_from p.rooted p.parts m

-- addFile: a path that is there already is left as it is.
unfoldable pub add_file : CleanPath → Text → MemFs → MemFs
add_file p d m =
    if is_some (lookup p m.files)
    then m
    else add_kid (dir_of p) (base_of p)
        (add_dir (dir_of p) (record m { files = insert p d m.files }))

-- The path that unpackTar files an entry under.
unfoldable pub entry_path : Text → Option CleanPath
entry_path name = elim (safe_tar_path name) [
  | none ↦ none
  | some p ↦ some (clean (to_slash (to_text p)))
]

-- The regular-file case of the loop.
unfoldable pub unpack_file : ℕ → CleanPath → Body → MemFs → ℕ → Result UnpackError (MemFs × ℕ)
unpack_file limit p body m written =
    let (d, ended) = copy_limited limit written body in
    let written' = written + length d in
    if not ended
    then err body_read
    else if is_over limit written'
    then err site_too_large
    else ok (add_file p d m, written')

-- The switch on the type flag.
unfoldable pub unpack_flag :
    ℕ → Typeflag → CleanPath → Body → MemFs → ℕ → Result UnpackError (MemFs × ℕ)
unpack_flag limit dir p body m written = ok (add_dir p m, written)
unpack_flag limit reg p body m written = unpack_file limit p body m written
unpack_flag limit link p body m written = ok (m, written)
unpack_flag limit special p body m written = ok (m, written)

-- One round of unpackTar's loop.
unfoldable pub unpack_item : ℕ → TarItem → MemFs → ℕ → Result UnpackError (MemFs × ℕ)
unpack_item limit bad_header m written = err tar_read
unpack_item limit (header name flag body) m written = elim (entry_path name) [
  | none ↦ err unsafe_path
  | some p ↦ if p == here then ok (m, written) else unpack_flag limit flag p body m written
]

unfoldable pub unpack_from : ℕ → List TarItem → MemFs → ℕ → Result UnpackError (MemFs × ℕ)
unpack_from limit [] m written = ok (m, written)
unpack_from limit (item ∷ items) m written =
    unpack_item limit item m written >>= λ r. unpack_from limit items r.0 r.1

-- sortDirs
unfoldable pub sort_kids : List (CleanPath × List Text) → List (CleanPath × List Text)
sort_kids [] = []
sort_kids ((p, names) ∷ m) = (p, sort_strings names) ∷ sort_kids m

unfoldable pub sort_dirs : MemFs → MemFs
unfolding sort_kids
sort_dirs m = record m { kids = sort_kids m.kids }

-- The site, and `stats`: how many files it has and how many bytes were read for it.
pub record Unpacked : Type 0 where
  pub fsys : MemFs
  pub file_count : ℕ
  pub size_bytes : ℕ

unfoldable pub summary : MemFs × ℕ → Unpacked
unfolding sort_dirs
summary r = record { fsys = sort_dirs r.0; file_count = length r.0.files; size_bytes = r.1 }

unfoldable pub unpack_tar : ℕ → ℕ → List TarItem → Result UnpackError Unpacked
unfolding unpack_from summary
unpack_tar now limit items = unpack_from limit items (new_fs now) 0 >>= λ r. ok (summary r)
