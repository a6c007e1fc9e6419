-- ===== src/Disk/Archive.antt =====
-- What extractTar writes: each path holds the body of its last regular file in the archive.
use crate_html.Prelude.{
  ℕ, ◌≡◌, refl, ap, ◌∙◌, Option, none, some, List, [], ◌∷◌, Text, text_eq, ◌==◌, if◌then◌else◌,
  Result, ok, err, arith, Option-cases, inl, inr, lookup, insert, lookup-insert,
}
use crate_html.TarPath.{CleanPath, path_eq, safe_tar_path}
use crate_html.Wire.{StoreError}
use crate_html.MemFs.{
  dir, reg, link, special, Body, whole, TarItem, header, bad_header, copy_limited,
}
use crate_html.MemFs.Bounds.{copy_limited-whole}
use crate_html.Disk.{Tree, Disk, extract_file, extract_flag, extract_item, extract_from}

-- The body that an entry writes to a path.
abbrev pub written_to : CleanPath → TarItem → Option Text
written_to p (header name reg (whole d)) = elim (safe_tar_path name) [
  | none ↦ none
  | some q ↦ if q == p then some d else none
]
written_to p _ = none

abbrev pub or_earlier : Option Text → Option Text → Option Text
or_earlier none earlier = earlier
or_earlier (some d) earlier = some d

-- The last body in the archive for a path, and otherwise what was there.
abbrev pub last_file : CleanPath → List TarItem → Option Text → Option Text
last_file p [] old = old
last_file p (item ∷ items) old = last_file p items (or_earlier (written_to p item) old)

extract_file-ok :
    (limit : ℕ) (p : CleanPath) (body : Body) (t : Tree) (written : ℕ) (d : Disk) (r : Tree × ℕ)
    → (extract_file limit p body t written d).1 ≡ ok r
    → (bytes : Text) × (body ≡ whole bytes) × (r.0 ≡ insert p bytes t)
unfolding extract_file
extract_file-ok limit p body t written d r h = (
  (copy_limited limit written body).0,
  copy_limited-whole limit written body (ground arith) (ground arith),
  ground arith,
)

extract_item-ok :
    (limit : ℕ) (item : TarItem) (t : Tree) (written : ℕ) (d : Disk) (r : Tree × ℕ) (p : CleanPath)
    → (extract_item limit item t written d).1 ≡ ok r
    → lookup p r.0 ≡ or_earlier (written_to p item) (lookup p t)
unfolding extract_item extract_flag
extract_item-ok limit bad_header t written d r p h = ground arith
extract_item-ok limit (header name dir body) t written d r p h = ground arith
extract_item-ok limit (header name link body) t written d r p h = ground arith
extract_item-ok limit (header name special body) t written d r p h = ground arith
extract_item-ok limit (header name reg body) t written d r p h =
    elim (Option-cases (safe_tar_path name)) [
      | inl bad ↦ ground (arith, bad)
      | inr (q, good) ↦
          let (bytes, got, put) =
            extract_file-ok limit q body t written d r (ground (arith, good)) in
          ground (arith, good, got, put, lookup-insert q p bytes t)
    ]

-- When extractTar into an empty directory succeeds, every path holds the whole body of its last
-- regular file in the archive, and nothing else was written.
pub extract_from-last_file :
    (limit : ℕ) (items : List TarItem) (t : Tree) (written : ℕ) (d : Disk) (u : Tree)
    (p : CleanPath)
    → (extract_from limit items t written d).1 ≡ ok u
    → lookup p u ≡ last_file p items (lookup p t)
unfolding extract_from
extract_from-last_file limit [] t written d u p h = ground arith
extract_from-last_file limit (item ∷ items) t written d u p h =
    go (λ r d' k. extract_from-last_file limit items r.0 r.1 d' u p k)
      (extract_item limit item t written d).1 refl h
  where
    go :
        ((r : Tree × ℕ) (d' : Disk)
          → (extract_from limit items r.0 r.1 d').1 ≡ ok u
          → lookup p u ≡ last_file p items (lookup p r.0))
        → (o : Result StoreError (Tree × ℕ)) → (extract_item limit item t written d).1 ≡ o
        → (extract_from limit (item ∷ items) t written d).1 ≡ ok u
        → lookup p u ≡ last_file p (item ∷ items) (lookup p t)
    go ih (err e) k l = ground (arith, k)
    go ih (ok r) k l =
        ih r (extract_item limit item t written d).0 (ground (arith, k))
        ∙ ap (last_file p items) (extract_item-ok limit item t written d r p k)
