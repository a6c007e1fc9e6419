-- ===== src/Tests/Sites.antt =====
-- Archives with a good name, a bad one and a repeated one.
use crate_html.Prelude.{
  ◌≡◌, refl, false, ◌&&◌, not, none, some, List, [], ◌∷◌, text_beq, codes, ok, err, lookup, insert,
  delete, is_some,
}
use crate_html.TarPath.{
  CleanPath, path_eq, put_front, split_slash, step_up, clean_from, clean, is_rooted, safe_tar_path,
  path_beq, join_from, to_text, to_slash,
}
use crate_html.TarPath.Safety
use crate_html.TarPath.Safety.{AllPlain, stays_inside}
use crate_html.Sort.{text_leb, insert_by, sort_by, sort_strings}
use crate_html.MemFs.{
  header, dir, reg, link, whole, TarItem, Unpacked, copy_limited, new_fs, add_kid, mark_dir,
  add_dir_from, add_dir, add_file, entry_path, unpack_file, unpack_flag, unpack_item, unpack_from,
  sort_kids, sort_dirs, summary, unpack_tar,
}
use crate_html.MemFs.Bounds.{first_file}
use crate_html.MemFs.Files
use crate_html.MemFs.Tree
use crate_html.MemFs.Placed.{IsTree}

program : Unit {0}
unfolding text_beq lookup insert delete put_front split_slash step_up clean_from clean safe_tar_path
    path_beq join_from to_text to_slash text_leb insert_by sort_by sort_strings copy_limited new_fs
    add_kid mark_dir add_dir_from add_dir add_file entry_path unpack_file unpack_flag unpack_item
    unpack_from sort_kids sort_dirs summary unpack_tar first_file
program = tt

safe_tar_path_iff_example :
    (is_some (safe_tar_path (codes "a/../b"))
      ≡ (not (is_rooted (codes "a/../b")) && stays_inside 0 (split_slash (codes "a/../b"))))
    × ((p : CleanPath)
        → safe_tar_path (codes "a/../b") ≡ some p
        → (p.rooted ≡ false) × AllPlain p.parts)
safe_tar_path_iff_example = Safety.safe_tar_path_iff (codes "a/../b")

kept : safe_tar_path (codes "./css//x/../site.css") ≡ some (clean (codes "css/site.css"))
unfolding program
kept = refl

climbing : safe_tar_path (codes "a/../../b") ≡ none
unfolding program
climbing = refl

-- The check passes a backslash, which the in-memory site then reads as a slash.
escaping : entry_path (b'.' ∷ b'.' ∷ 92 ∷ codes "x") ≡ some (clean (codes "../x"))
unfolding program
escaping = refl

abbrev archive : List TarItem
archive =
    header (codes "index.html") reg (whole (codes "one"))
    ∷ header (codes "css/site.css") reg (whole (codes "two"))
    ∷ header (codes "./index.html") reg (whole (codes "three"))
    ∷ header (codes "img") dir (whole [])
    ∷ header (codes "up") link (whole [])
    ∷ []

abbrev site : Unpacked
site = elim (unpack_tar 1000 100 archive) [
  | ok u ↦ u
  | err e ↦ record { fsys = new_fs 0; file_count = 0; size_bytes = 0 }
]

unpacks : unpack_tar 1000 100 archive ≡ ok site
unfolding program
unpacks = refl

unpack_tar-IsTree_example : IsTree site.fsys
unpack_tar-IsTree_example = Tree.unpack_tar-IsTree 1000 100 archive site unpacks

first_kept : lookup (clean (codes "index.html")) site.fsys.files ≡ some (codes "one")
unfolding program
first_kept = refl
