-- ===== src/MemFs/Tree.antt =====
-- The tree of an unpacked site: whatever the order of the entries, every file and every directory
-- is listed in its parent, and every ancestor is a known directory.
use crate_html.Prelude.{
  ℕ, ◌≡◌, refl, sym, Bool, true, false, ◌&&◌, List, [], ◌∷◌, Text, text_eq, ◌==◌, ok, lookup,
  insert, lookup-insert, contains, is_some, arith, Bool-cases, inl, inr, ap, ◌∙◌, eq_refl,
}
use mathlib.Core.Path.{subst}
use crate_html.TarPath.{CleanPath, path_eq, path_beq_iff, here, dir_of, base_of}
use crate_html.Sort.Laws.{contains-sort_strings}
use crate_html.MemFs.{
  TarItem, MemFs, new_fs, kids_of, add_kid, mark_dir, add_dir_from, add_dir, add_file, sort_kids,
  sort_dirs, Unpacked, unpack_tar,
}
use crate_html.MemFs.Bounds.{files-add_dir}
use crate_html.MemFs.Keeps.{unpack_tar-keeps}
use crate_html.MemFs.Placed.{
  is_listed, IsTree, add_dir-Added, add_dir-IsTree, IsTree-IsTreeBut, is_listed-add_kid,
}

-- addDir does not look at the files.
with_files : List (CleanPath × Text) → MemFs → MemFs
with_files f m = record m { files = f }

add_dir_from-with_files :
    (f : List (CleanPath × Text)) (rooted : Bool) (ps : List Text) (m : MemFs)
    → add_dir_from rooted ps (with_files f m) ≡ with_files f (add_dir_from rooted ps m)
unfolding add_dir_from mark_dir add_kid with_files
add_dir_from-with_files f false [] m = refl
add_dir_from-with_files f true [] m =
    elim (Bool-cases (contains (record { rooted = true; parts = [] }) m.is_dir)) [
      | inl known ↦ rw known refl
      | inr new ↦ rw new refl
    ]
add_dir_from-with_files f rooted (b ∷ ps) m =
    let q : CleanPath = record { rooted = rooted; parts = b ∷ ps } in
    elim (Bool-cases (contains q m.is_dir)) [
      | inl known ↦ rw known refl
      | inr new ↦ rw new (add_dir_from-with_files f rooted ps (mark_dir q m))
    ]

-- A file listed in its parent, which is a known directory.
list_file-IsTree :
    (q : CleanPath) (d : Text) (m : MemFs)
    → IsTree m
    → contains (dir_of q) m.is_dir ≡ true
    → IsTree (add_kid (dir_of q) (base_of q) (with_files (insert q d m.files) m))
unfolding add_kid with_files
list_file-IsTree q d m t k =
    let m' : MemFs = record m { files = insert q d m.files } in
    record {
      root = t.root;
      dirs = λ p h n. ground (arith, t.dirs p h n, is_listed-add_kid (dir_of q) (base_of q) p m');
      files = λ p c h. elim (Bool-cases (q == p)) [
        | inl same ↦
            subst
              (λ (x : CleanPath).
                (is_listed x (add_kid (dir_of q) (base_of q) m') && contains (dir_of x) m.is_dir)
                ≡ true)
              ((path_beq_iff q p).0 same)
              (ground (
                arith,
                k,
                is_listed-add_kid (dir_of q) (base_of q) q m',
                eq_refl (dir_of q),
                eq_refl (base_of q),
              ))
        | inr other ↦ ground (
          arith,
          t.files p c,
          is_listed-add_kid (dir_of q) (base_of q) p m',
          h,
          lookup-insert q p d m.files,
          other,
        )
      ];
    }

-- A file that is new to the site: its directory is made, then it is listed there.
add_file-IsTree : (q : CleanPath) (d : Text) (m : MemFs) → IsTree m → IsTree (add_file q d m)
unfolding add_file add_dir with_files
add_file-IsTree q d m t = elim (Bool-cases (is_some (lookup q m.files))) [
  | inl there ↦ rw there t
  | inr new ↦
      let a = add_dir-Added (dir_of q) m (IsTree-IsTreeBut (dir_of q) m t) in
      let f = insert q d m.files in
      rw new (
        subst (λ (x : MemFs). IsTree (add_kid (dir_of q) (base_of q) x))
          (ap (λ (g : List (CleanPath × Text)). with_files (insert q d g) (add_dir (dir_of q) m))
              (files-add_dir (dir_of q) m)
            ∙ sym (add_dir_from-with_files f (dir_of q).rooted (dir_of q).parts m))
          (list_file-IsTree q d (add_dir (dir_of q) m) a.tree a.known))
]

pub is_listed-sort_kids :
    (b : Text) (p : CleanPath) (l : List (CleanPath × List Text))
    → contains b (kids_of p (sort_kids l)) ≡ contains b (kids_of p l)
unfolding sort_kids lookup
is_listed-sort_kids b p [] = refl
is_listed-sort_kids b p ((q, names) ∷ l) = elim (Bool-cases (q == p)) [
  | inl same ↦ ground (arith, same, contains-sort_strings b names)
  | inr other ↦ ground (arith, other, is_listed-sort_kids b p l)
]

sort_dirs-IsTree : (m : MemFs) → IsTree m → IsTree (sort_dirs m)
unfolding sort_dirs
sort_dirs-IsTree m t = record {
  root = t.root;
  dirs = λ p h n. rw (is_listed-sort_kids (base_of p) (dir_of p) m.kids) (t.dirs p h n);
  files = λ p d h. rw (is_listed-sort_kids (base_of p) (dir_of p) m.kids) (t.files p d h);
}

new_fs-IsTree : (now : ℕ) → IsTree (new_fs now)
unfolding new_fs lookup
new_fs-IsTree now = record {
  root = ground (arith, eq_refl here);
  dirs = λ p h n. ground (arith, path_beq_iff here p, path_beq_iff p here);
  files = λ p d h. ground arith;
}

-- Whatever the order of the entries, unpackTar gives a tree: every file and every directory but the
-- root is listed in its parent directory, and its parent is a known directory.
pub unpack_tar-IsTree :
    (now limit : ℕ) (items : List TarItem) (u : Unpacked)
    → unpack_tar now limit items ≡ ok u
    → IsTree u.fsys
unpack_tar-IsTree now limit items u h =
    unpack_tar-keeps IsTree add_dir-IsTree (λ q d m n t. add_file-IsTree q d m t) now limit items u
      (new_fs-IsTree now) sort_dirs-IsTree h
