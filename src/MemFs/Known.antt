-- ===== src/MemFs/Known.antt =====
-- What a directory of an unpacked site lists is there: as a file or as a directory.
use crate_html.Prelude.{
  ℕ, ◌≡◌, Bool, true, false, ◌||◌, List, [], ◌∷◌, Text, text_eq, text_beq_iff, ◌==◌, ok, lookup,
  insert, lookup-insert, contains, is_some, arith, Bool-cases, inl, inr, ap, eq_refl,
}
use mathlib.Core.Path.{subst}
use crate_html.TarPath.{CleanPath, path_eq, path_beq_iff, here, dir_of, base_of}
use crate_html.MemFs.{
  TarItem, MemFs, new_fs, add_kid, mark_dir, add_dir_from, add_dir, add_file, sort_dirs, Unpacked,
  unpack_tar,
}
use crate_html.MemFs.Bounds.{files-add_dir}
use crate_html.MemFs.Keeps.{unpack_tar-keeps}
use crate_html.MemFs.Tree.{is_listed-sort_kids}
use crate_html.MemFs.Placed.{is_listed, is_listed-add_kid}

-- There is something at the path.
abbrev pub is_there : CleanPath → MemFs → Bool
is_there p m = is_some (lookup p m.files) || contains p m.is_dir

abbrev pub at : Text → List Text → CleanPath
at c ps = record { rooted = false; parts = c ∷ ps }

abbrev pub IsKnown : MemFs → Type 0
IsKnown m = (c : Text) (ps : List Text) → is_listed (at c ps) m ≡ true → is_there (at c ps) m ≡ true

-- A path but the root is fixed by its directory and its last component.
same_place :
    (rooted : Bool) (parts : List Text) (c : Text) (ps : List Text)
    → (record { rooted = rooted; parts = parts } == here) ≡ false
    → dir_of (record { rooted = rooted; parts = parts }) ≡ dir_of (at c ps)
    → base_of (record { rooted = rooted; parts = parts }) ≡ c
    → record { rooted = rooted; parts = parts } ≡ at c ps
same_place false [] c ps n d b = absurd (ground (arith, n, eq_refl here))
same_place true [] c ps n d b = ground (arith, ap CleanPath.rooted d)
same_place rooted (x ∷ xs) c ps n d b = ground arith

-- The listing of a path that is there.
add_kid-IsKnown :
    (q : CleanPath) (m : MemFs)
    → (q == here) ≡ false
    → IsKnown m
    → is_there q m ≡ true
    → IsKnown (add_kid (dir_of q) (base_of q) m)
unfolding add_kid
add_kid-IsKnown q m n k t c ps h = elim (Bool-cases (is_listed (at c ps) m)) [
  | inl old ↦ k c ps old
  | inr new ↦
      let e = is_listed-add_kid (dir_of q) (base_of q) (at c ps) m in
      subst (λ (x : CleanPath). is_there x m ≡ true)
        (same_place q.rooted q.parts c ps n
          ((path_beq_iff (dir_of q) (dir_of (at c ps))).0 (ground (arith, e, h, new)))
          ((text_beq_iff (base_of q) c).0 (ground (arith, e, h, new))))
        t
]

mark_dir-IsKnown :
    (q : CleanPath) (m : MemFs) → (q == here) ≡ false → IsKnown m → IsKnown (mark_dir q m)
unfolding mark_dir
mark_dir-IsKnown q m n k =
    add_kid-IsKnown q (record m { is_dir = q ∷ m.is_dir }) n (λ c ps h. ground (arith, k c ps h))
      (ground (arith, eq_refl q))

add_dir_from-IsKnown :
    (rooted : Bool) (ps : List Text) (m : MemFs) → IsKnown m → IsKnown (add_dir_from rooted ps m)
unfolding add_dir_from
add_dir_from-IsKnown false [] m k = k
add_dir_from-IsKnown true [] m k =
    let root : CleanPath = record { rooted = true; parts = [] } in
    elim (Bool-cases (contains root m.is_dir)) [
      | inl known ↦ rw known k
      | inr new ↦ rw new (mark_dir-IsKnown root m (ground (arith, path_beq_iff root here)) k)
    ]
add_dir_from-IsKnown rooted (b ∷ ps) m k =
    let q : CleanPath = record { rooted = rooted; parts = b ∷ ps } in
    elim (Bool-cases (contains q m.is_dir)) [
      | inl known ↦ rw known k
      | inr new ↦ rw new (
          add_dir_from-IsKnown rooted ps (mark_dir q m)
            (mark_dir-IsKnown q m (ground (arith, path_beq_iff q here)) k))
    ]

add_dir-IsKnown : (q : CleanPath) (m : MemFs) → IsKnown m → IsKnown (add_dir q m)
unfolding add_dir
add_dir-IsKnown q m k = add_dir_from-IsKnown q.rooted q.parts m k

add_file-IsKnown :
    (q : CleanPath) (d : Text) (m : MemFs)
    → (q == here) ≡ false
    → IsKnown m
    → IsKnown (add_file q d m)
unfolding add_file
add_file-IsKnown q d m n k = elim (Bool-cases (is_some (lookup q m.files))) [
  | inl there ↦ rw there k
  | inr new ↦
      let m' : MemFs = record m { files = insert q d m.files } in
      let k' : IsKnown m' =
        λ c ps h. ground (arith, k c ps h, lookup-insert q (at c ps) d m.files) in
      rw new (
        add_kid-IsKnown q (add_dir (dir_of q) m') n (add_dir-IsKnown (dir_of q) m' k')
          (ground (arith, files-add_dir (dir_of q) m', lookup-insert q q d m.files, eq_refl q)))
]

sort_dirs-IsKnown : (m : MemFs) → IsKnown m → IsKnown (sort_dirs m)
unfolding sort_dirs
sort_dirs-IsKnown m k c ps h =
    k c ps (ground (arith, h, is_listed-sort_kids c (dir_of (at c ps)) m.kids))

new_fs-IsKnown : (now : ℕ) → IsKnown (new_fs now)
unfolding new_fs lookup
new_fs-IsKnown now c ps h = ground arith

-- What unpackTar lists in a directory is there.
pub unpack_tar-IsKnown :
    (now limit : ℕ) (items : List TarItem) (u : Unpacked)
    → unpack_tar now limit items ≡ ok u
    → IsKnown u.fsys
unpack_tar-IsKnown now limit items u h =
    unpack_tar-keeps IsKnown add_dir-IsKnown add_file-IsKnown now limit items u (new_fs-IsKnown now)
      sort_dirs-IsKnown h
