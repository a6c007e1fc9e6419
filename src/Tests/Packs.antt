-- ===== src/Tests/Packs.antt =====
-- A directory that is packed, unpacked in memory and listed.
use crate_html.Prelude.{
  ◌≡◌, refl, true, false, none, some, List, [], ◌∷◌, ◌++◌, arith, text_eq, text_beq, codes, ok, err,
  lookup, insert, delete, map, contains, is_some, All, pos, trim_slashes,
}
use crate_html.TarPath.{
  path_eq, put_front, split_slash, step_up, clean_from, clean, safe_tar_path, path_beq, parts_beq,
  join_from, to_text, to_slash,
}
use crate_html.Sort.{text_leb, insert_by, sort_by, sort_strings}
use crate_html.MemFs.{
  header, reg, dir, whole, Unpacked, copy_limited, new_fs, add_kid, mark_dir, add_dir_from, add_dir,
  add_file, entry_path, unpack_file, unpack_flag, unpack_item, unpack_from, sort_kids, sort_dirs,
  summary, unpack_tar,
}
use crate_html.MemFs.Bounds.{first_file}
use crate_html.MemFs.Open.{
  utf8_lead, utf8_from, valid_path, MemInfo, MemDir, entry_for, entries_for, open_path, read_dir,
  stat, read_all, read_some, read_entries,
}
use crate_html.MemFs.Paging
use crate_html.MemFs.Paging.{pages}
use crate_html.MemFs.Listing
use crate_html.MemFs.Listing.{info_of, path_in}
use crate_html.Pack.{
  file, link, folder, Nodes, nil, cons, direct, linked, Writer, call, put, arch_name, dir_name,
  copy_file, walk_node, walk_root, is_dir, walk_source, write_dir_as_tar, stream,
}
use crate_html.Pack.Tree.{find_node, is_good_node, size_node, size}
use crate_html.Pack.Unpacking

program : Unit {0}
unfolding text_beq lookup insert delete trim_slashes put_front split_slash step_up clean_from clean
    safe_tar_path path_beq parts_beq join_from to_text to_slash text_leb insert_by sort_by
    sort_strings copy_limited new_fs add_kid mark_dir add_dir_from add_dir add_file entry_path
    unpack_file unpack_flag unpack_item unpack_from sort_kids sort_dirs summary unpack_tar
    first_file utf8_lead utf8_from valid_path entry_for entries_for open_path read_dir stat read_all
    read_some read_entries call put arch_name dir_name copy_file walk_node walk_root is_dir
    walk_source write_dir_as_tar stream find_node is_good_node size_node
program = tt

abbrev page : Nodes
page =
    cons (codes "css") (folder (cons (codes "site.css") (file (whole (codes "two"))) nil))
      (cons (codes "index.html") (file (whole (codes "one"))) (cons (codes "latest") link nil))

abbrev start : Writer
start = record { items = []; answers = [] }

packed :
    (write_dir_as_tar (direct (folder page)) start).0.items
    ≡ header (codes "css/") dir (whole [])
      ∷ header (codes "css/site.css") reg (whole (codes "two"))
      ∷ header (codes "index.html") reg (whole (codes "one"))
      ∷ []
unfolding program
packed = refl

-- A source that is a symbolic link to a directory gives an empty archive, and no error.
packed_link : write_dir_as_tar (linked (folder page)) start ≡ (start, true)
unfolding program
packed_link = refl

abbrev site : Unpacked
site = elim (unpack_tar 1000 6 (write_dir_as_tar (direct (folder page)) start).0.items) [
  | ok u ↦ u
  | err e ↦ record { fsys = new_fs 0; file_count = 0; size_bytes = 0 }
]

abbrev in_css : List MemInfo
in_css = record { name = codes "site.css"; size = 3; mod_time = 1000; is_dir = false } ∷ []

read_dir-open_path_example :
    (contains (codes "site.css") (map MemInfo.name in_css)
      ≡ is_some (info_of (open_path site.fsys (path_in (codes "css") (codes "site.css")))))
    × All
        (λ e.
          e.name ≡ codes "site.css"
          → info_of (open_path site.fsys (path_in (codes "css") (codes "site.css"))) ≡ some e)
        in_css
read_dir-open_path_example =
    Listing.read_dir-open_path 1000 6 (write_dir_as_tar (direct (folder page)) start).0.items site
      (codes "css") (codes "site.css") in_css (unfold program in refl) (unfold program in refl)
      (unfold program in refl) (unfold program in refl) (unfold program in refl)

abbrev listing : MemDir
listing = record {
  info = record { name = codes "."; size = 0; mod_time = 1000; is_dir = true };
  entries = in_css ++ in_css ++ in_css;
  off = 0;
}

read_entries-pages_example :
    ((pages 2 2 listing).0 ≡ listing.entries)
    × ((read_entries (pos 2) (pages 2 2 listing).1).1 ≡ none)
read_entries-pages_example = Paging.read_entries-pages 2 1 listing refl (omega arith)
