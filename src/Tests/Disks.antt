-- ===== src/Tests/Disks.antt =====
-- Replacements on a disk that works, and on one whose calls fail at the end.
use crate_html.Prelude.{
  ◌≡◌, ◌⊎◌, refl, ℕ, Option, true, false, Bool, none, some, List, [], ◌∷◌, text_eq, text_beq, codes,
  err, lookup, insert, delete, Result, Text, if◌then◌else◌,
}
use crate_html.Name.{validate_site}
use crate_html.TarPath.{
  CleanPath, path_eq, put_front, split_slash, step_up, clean_from, clean, safe_tar_path, path_beq,
}
use crate_html.Wire.{Site, StoreError, failed}
use crate_html.MemFs.{header, reg, whole, TarItem, copy_limited}
use crate_html.Disk.{
  Tree, Disk, ask, rename_dir, remove_dir, stat_dir, extract_file, extract_flag, extract_item,
  extract_from, ask_all, set_expiry, backup_name, roll_back, conclude, install, swap, replace_dir,
}
use crate_html.Disk.Install
use crate_html.Disk.Install.{IsReplaced}
use crate_html.Disk.Rollback
use crate_html.Disk.Rollback.{Kept}
use crate_html.Disk.Sites.{
  delete_expired, replace_from_tar, call, path, look, read_expiry, add_file, walk_files, stat,
}
use crate_html.Disk.Reaper
use crate_html.Disk.Reaper.{AreGone}

program : Unit {0}
unfolding text_beq lookup insert delete validate_site put_front split_slash step_up clean_from clean
    safe_tar_path path_beq copy_limited ask rename_dir remove_dir stat_dir extract_file extract_flag
    extract_item extract_from ask_all set_expiry roll_back conclude install swap replace_dir
    replace_from_tar call path look read_expiry add_file walk_files stat
program = tt

abbrev old_files : Tree
old_files = (clean (codes "index.html"), codes "old") ∷ []

abbrev disk : List Bool → Disk
disk answers = record {
  sites = (codes "docs", old_files) ∷ [];
  deadlines = [];
  answers = answers;
  spared = λ more path. false;
}

abbrev archive : List TarItem
archive =
    header (codes "index.html") reg (whole (codes "one"))
    ∷ header (codes "./index.html") reg (whole (codes "two"))
    ∷ []

abbrev modified : Text → Option CleanPath → ℕ
modified name path = 7

abbrev replace : Disk → Disk × Result StoreError Site
replace =
    replace_from_tar modified (codes "docs") archive 100 (some (some 500)) (codes "1") (codes "2")

abbrev replace_dir_of : Disk → Disk × Result StoreError (Unit {0})
replace_dir_of = replace_dir (codes "docs") archive 100 (some (some 500)) (codes "1") (codes "2")

-- What Stat says of the site then.
abbrev placed : Site
placed = record {
  name = codes "docs";
  updated_at = 7;
  size_bytes = 3;
  file_count = 1;
  expires_at = some 500;
}

-- The deadline cannot be written: the tenth answer behind the staging and the two files.
abbrev stuck : Disk
stuck = disk (true ∷ true ∷ true ∷ true ∷ true ∷ true ∷ true ∷ true ∷ true ∷ true ∷ false ∷ [])

fails : (replace stuck).1 ≡ err failed
unfolding program
fails = refl

there : lookup (codes "docs") stuck.sites ≡ some old_files
unfolding program
there = refl

replace_from_tar-Kept_example :
    Kept (codes "docs") (backup_name (codes "docs") (codes "2")) old_files (replace stuck).0
    ⊎ (((stat modified (codes "docs") (replace_dir_of stuck).0).1 ≡ err failed)
        × IsReplaced (codes "docs") archive (some (some 500)) (replace stuck).0)
replace_from_tar-Kept_example =
    Rollback.replace_from_tar-Kept modified (codes "docs") archive 100 (some (some 500)) (codes "1")
      (codes "2") old_files stuck failed there fails

restored : lookup (codes "docs") (replace stuck).0.sites ≡ some old_files
unfolding program
restored = refl

-- When only the Stat at the end fails, the error comes behind the removal of the old content.
abbrev unseen : Disk
unseen = disk (
    true ∷ true ∷ true ∷ true ∷ true ∷ true ∷ true ∷ true ∷ true ∷ true ∷ true ∷ true ∷ true ∷ true
    ∷ true ∷ true ∷ false ∷ [])

unseen_err :
    ((replace unseen).1 ≡ err failed) × ((replace unseen).0.sites ≡ (replace (disk [])).0.sites)
unfolding program
unseen_err = (refl, refl)

-- Sites with a deadline at 40 and without one, on a disk whose calls fail behind the given answers.
abbrev dated : List Bool → Disk
dated answers = record {
  sites = (codes "docs", old_files) ∷ (codes "team", []) ∷ [];
  deadlines = (codes "docs", 40) ∷ [];
  answers = answers;
  spared = λ more path. false;
}

abbrev pass : ℕ → List Bool → Disk × (List Text × Bool)
pass now answers = delete_expired modified now (dated answers)

old_docs : lookup (codes "docs") (dated []).sites ≡ some old_files
unfolding program
old_docs = refl

valid_docs : validate_site (codes "docs") ≡ true
unfolding program
valid_docs = refl

no_deadline : Reaper.due_at 40 (lookup (codes "team") (dated (true ∷ false ∷ [])).deadlines) ≡ false
unfolding program
no_deadline = refl

lookup-delete_expired_example :
    (lookup (codes "docs") (pass 40 []).0.sites ≡ (
      if Reaper.due_at 40 (lookup (codes "docs") (dated []).deadlines)
      then none
      else some old_files))
    × ((pass 40 []).1.1 ≡ false)
lookup-delete_expired_example =
    Reaper.lookup-delete_expired modified 40 (dated []) (codes "docs") old_files refl valid_docs
      old_docs

delete_expired-kept_example :
    (lookup (codes "team") (pass 40 (true ∷ false ∷ [])).0.sites
      ≡ lookup (codes "team") (dated (true ∷ false ∷ [])).sites)
    × AreGone (pass 40 (true ∷ false ∷ [])).0 (pass 40 (true ∷ false ∷ [])).1.0
delete_expired-kept_example =
    Reaper.delete_expired-kept modified 40 (dated (true ∷ false ∷ [])) (codes "team") no_deadline
