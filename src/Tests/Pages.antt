-- ===== src/Tests/Pages.antt =====
-- Pages of the public surface over the same store.
use crate_html.Prelude.{
  ℕ, ◌^◌, ◌<◌, ◌≡◌, ◌↔◌, ◌||◌, ◌==◌, refl, true, false, Option, none, some, List, [], ◌∷◌, map,
  Text, text_eq, text_beq, codes, lookup, insert, delete, cut_prefix, cut, has_prefix, trim_prefix,
  All, arith, if◌then◌else◌, is_empty, distinct,
}
use mathlib.Core.List.{Perm}
use crate_html.Name.{validate_site}
use crate_html.TarPath.{put_front, split_slash, step_up, clean_from, clean, join_from, to_text}
use crate_html.TarPath.Safety.{AllPlain}
use crate_html.Wire.{Site}
use crate_html.Server.Index.{
  expired, unexpired_sites, scale_size, human_size, rel_time, human_duration, SiteGroup, href_of,
  disk_row, prefix_of, add_to, by_prefix, label_in, group_of, group_disk_sites,
}
use crate_html.Server.Public.{
  Builtin, missing, redirect, served, first_segment, with_index, file_path, serve_site,
  find_builtin, builtin_group, index_view, child_rows, group_view, has_group_children, render_index,
  render_group_index, serve_stored, serve_group, serve_fallback, serve_name, handle_public,
}
use crate_html.Server.Serving
use crate_html.Server.Origin
use crate_html.Server.Origin.{IsFile}
use crate_html.Server.Sizes
use crate_html.Server.Sizes.{IsReadable}
use crate_html.Server.Groups
use crate_html.Server.Groups.{listed, names_of, IsOwn}
use crate_html.Tests.Requests.{memory}

program : Unit {0}
unfolding text_beq lookup insert delete cut_prefix cut has_prefix trim_prefix validate_site
    put_front split_slash step_up clean_from clean join_from to_text expired unexpired_sites
    scale_size human_size rel_time human_duration href_of disk_row prefix_of add_to by_prefix
    label_in group_of group_disk_sites first_segment with_index file_path serve_site find_builtin
    builtin_group index_view child_rows group_view has_group_children render_index
    render_group_index serve_stored serve_group serve_fallback serve_name handle_public memory
program = tt

abbrev site_at : Text → Option ℕ → Site
site_at name deadline = record {
  name = name;
  updated_at = 5;
  size_bytes = 2048;
  file_count = 2;
  expires_at = deadline;
}

abbrev store : memory.State
unfolding memory
store =
    (codes "docs", (site_at (codes "docs") (some 50), codes "docs' files"))
    ∷ (codes "team.plan", (site_at (codes "team.plan") none, codes "plan's files"))
    ∷ []

abbrev builtins : List (Builtin memory.Fs)
unfolding memory
builtins =
    record { name = codes "docs"; fs = codes "embedded"; file_count = 1; size_bytes = 3 } ∷ []

abbrev docs_files : memory.Fs
unfolding memory
docs_files = codes "docs' files"

before :
    (handle_public memory 49 builtins (codes "/docs/a/../") store).1
    ≡ served docs_files (codes "index.html")
unfolding program
before = refl

-- From the present of the deadline on, neither the stored site nor the embedded one is served.
behind : (handle_public memory 50 builtins (codes "/docs/index.html") store).1 ≡ missing
unfolding program
behind = refl

handle_public_iff_example :
    (handle_public memory 49 builtins (codes "/docs/a/../") store).1
      ≡ served docs_files (codes "index.html")
    ↔ ((has_prefix (codes "/docs/a/../") (codes "/api/") || codes "/docs/a/../" == codes "/api")
        ≡ false)
      × ((codes "/docs/a/../" == codes "/") ≡ false)
      × (validate_site (first_segment (trim_prefix (codes "/docs/a/../") (codes "/"))).0 ≡ true)
      × IsFile memory 49 builtins
          (first_segment (trim_prefix (codes "/docs/a/../") (codes "/"))).0
          (first_segment (trim_prefix (codes "/docs/a/../") (codes "/"))).1
          store
          docs_files
          (codes "index.html")
handle_public_iff_example =
    Origin.handle_public_iff memory 49 builtins (codes "/docs/a/../") store docs_files
      (codes "index.html")

grouped : (handle_public memory 49 builtins (codes "/team") store).1 ≡ redirect (codes "/team/")
unfolding program
grouped = refl

file_path-AllPlain_example :
    (parts : List Text) × AllPlain parts
    × (file_path (codes "../../etc/passwd")
        ≡ (if is_empty parts then [] else to_text (record { rooted = false; parts = parts })))
file_path-AllPlain_example = Serving.file_path-AllPlain (codes "../../etc/passwd")

small : 1536 < 2 ^ 63
small = omega arith

human_size-IsReadable_example : IsReadable 1536 (human_size 1536)
human_size-IsReadable_example = Sizes.human_size-IsReadable 1536 small

abbrev shown : List Site
shown =
    site_at (codes "docs") none
    ∷ site_at (codes "team.plan") none
    ∷ site_at (codes "team.todo") none
    ∷ []

group_disk_sites_lem_example :
    Perm (listed (group_disk_sites 10 shown)) (names_of shown)
    × (distinct (map (λ (g : SiteGroup). g.name) (group_disk_sites 10 shown)) ≡ true)
    × All IsOwn (group_disk_sites 10 shown)
group_disk_sites_lem_example = Groups.group_disk_sites_lem 10 shown
