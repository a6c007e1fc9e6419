-- ===== src/Disk.antt =====
-- internal/storage/storage.go: sites in directories, replaced by renames. The state is the sites
-- directory, the deadlines in its `.expiry`, and what the file system answers to the next calls,
-- `true` for success; an answer stands for every reason of failure, a file where a directory is
-- wanted included. A RemoveAll that fails has removed any part of the files: `spared` says which
-- files the failure before the given answers leaves. The temporary name and the time in the backup's
-- name are arguments.
pub mod Names
pub mod Effects
pub mod Rollback
pub mod Archive
pub mod Sites
pub mod Reads
pub mod Listing
pub mod Deletion
pub mod Reaper
pub mod Install
use crate_html.Prelude.{
  ℕ, ◌+◌, Bool, true, false, ◌&&◌, not, Option, none, some, List, [], ◌∷◌, ◌++◌, Text, text_eq,
  ◌==◌, codes, if◌then◌else◌, Result, ok, err, lookup, insert, delete, length, is_some, keep,
}
use crate_html.Name.{validate_site}
use crate_html.TarPath.{CleanPath, path_eq, safe_tar_path}
use crate_html.Wire.{StoreError, invalid_name, not_found, unsafe_path, site_too_large, failed}
use crate_html.MemFs.{
  Typeflag, dir, reg, link, special, Body, TarItem, header, bad_header, copy_limited, is_over,
}

-- The files of a directory.
abbrev pub Tree : Type 0
Tree = List (CleanPath × Text)

pub record Disk : Type 0 where
  pub sites : List (Text × Tree)
  pub deadlines : List (Text × ℕ)
  pub answers : List Bool
  pub spared : List Bool → CleanPath → Bool

-- One call of the file system.
unfoldable pub ask : Disk → Disk × Bool
ask d = elim d.answers [ [] ↦ (d, true) | a ∷ more ↦ (record d { answers = more }, a) ]

-- os.Rename of a directory, which fails if there is none, or one at the new name.
unfoldable pub rename_dir : Text → Text → Disk → Disk × Bool
unfolding ask
rename_dir old new d =
    let (d', done) = ask d in
    elim (lookup old d'.sites) [
      | none ↦ (d', false)
      | some t ↦
          if done && not (is_some (lookup new d'.sites))
          then (record d' { sites = insert new t (delete old d'.sites) }, true)
          else (d', false)
    ]

-- A directory of which some files are removed.
unfoldable pub reduce : Text → (CleanPath → Bool) → List (Text × Tree) → List (Text × Tree)
reduce name spares sites = elim (lookup name sites) [
  | none ↦ sites
  | some t ↦ insert name (keep (λ (e : CleanPath × Text). spares e.0) t) sites
]

-- os.RemoveAll
unfoldable pub remove_dir : Text → Disk → Disk × Bool
unfolding ask reduce
remove_dir name d =
    let (d', done) = ask d in
    if done
    then (record d' { sites = delete name d'.sites }, true)
    else (record d' { sites = reduce name (d'.spared d'.answers) d'.sites }, false)

-- os.Stat of a site: what stands there, if the call succeeds.
unfoldable pub stat_dir : Text → Disk → Disk × Option Tree
unfolding ask
stat_dir name d = let (d', done) = ask d in (d', if done then lookup name d'.sites else none)

-- One entry of extractTar.
unfoldable pub extract_file :
    ℕ → CleanPath → Body → Tree → ℕ → Disk → Disk × Result StoreError (Tree × ℕ)
unfolding ask copy_limited
extract_file limit p body t written d =
    let (d, made) = ask d in
    if not made
    then (d, err failed)
    else (let (d, opened) = ask d in
        if not opened
        then (d, err failed)
        else (let (bytes, ended) = copy_limited limit written body in
            let written' = written + length bytes in
            if not ended
            then (d, err failed)
            else if is_over limit written'
            then (d, err site_too_large)
            else (let (d, closed) = ask d in
                if closed then (d, ok (insert p bytes t, written')) else (d, err failed))))

unfoldable pub extract_flag :
    ℕ → Typeflag → CleanPath → Body → Tree → ℕ → Disk → Disk × Result StoreError (Tree × ℕ)
unfolding ask extract_file
extract_flag limit dir p body t written d =
    let (d, made) = ask d in if made then (d, ok (t, written)) else (d, err failed)
extract_flag limit reg p body t written d = extract_file limit p body t written d
extract_flag limit link p body t written d = (d, ok (t, written))
extract_flag limit special p body t written d = (d, ok (t, written))

unfoldable pub extract_item : ℕ → TarItem → Tree → ℕ → Disk → Disk × Result StoreError (Tree × ℕ)
unfolding safe_tar_path extract_flag
extract_item limit bad_header t written d = (d, err failed)
extract_item limit (header name flag body) t written d = elim (safe_tar_path name) [
  | none ↦ (d, err unsafe_path)
  | some p ↦ extract_flag limit flag p body t written d
]

-- extractTar into an empty directory.
unfoldable pub extract_from : ℕ → List TarItem → Tree → ℕ → Disk → Disk × Result StoreError Tree
unfolding extract_item
extract_from limit [] t written d = (d, ok t)
extract_from limit (item ∷ items) t written d =
    let (d', answer) = extract_item limit item t written d in
    elim answer [ err e ↦ (d', err e) | ok r ↦ extract_from limit items r.0 r.1 d' ]

-- SetExpiry: `none` removes the deadline; a new one is written aside and renamed into place.
unfoldable pub ask_all : ℕ → Disk → Disk × Bool
unfolding ask
ask_all ℕ.zero d = (d, true)
ask_all (ℕ.suc n) d =
    let (d', done) = ask d in elim done [ true ↦ ask_all n d' | false ↦ (d', false) ]

unfoldable pub set_expiry : Text → Option ℕ → Disk → Disk × Bool
unfolding ask ask_all
set_expiry name none d =
    let (d', done) = ask d in
    if done then (record d' { deadlines = delete name d'.deadlines }, true) else (d', false)
set_expiry name (some t) d =
    let (d', done) = ask_all 5 d in
    if done then (record d' { deadlines = insert name t d'.deadlines }, true) else (d', false)

-- The names of the staging directory and of the backup.
abbrev pub stage_name : Text → Text → Text
stage_name name suffix = codes "." ++ (name ++ (codes ".stage-" ++ suffix))

abbrev pub backup_name : Text → Text → Text
backup_name name nanos = name ++ (codes ".old-" ++ nanos)

-- `if backup != "" { os.Rename(backup, p) }`
unfoldable pub roll_back : Bool → Text → Text → Disk → Disk
unfolding rename_dir
roll_back moved backup name d = if moved then (rename_dir backup name d).0 else d

-- replaceFromTar behind the installation: afterInstall, and the end of the backup.
unfoldable pub conclude :
    Text → Text → Bool → Option (Option ℕ) → Disk → Disk × Result StoreError (Unit {0})
unfolding set_expiry remove_dir roll_back
conclude name backup moved none d = (if moved then (remove_dir backup d).0 else d, ok tt)
conclude name backup moved (some deadline) d =
    let (d', done) = set_expiry name deadline d in
    if done
    then (if moved then (remove_dir backup d').0 else d', ok tt)
    else (roll_back moved backup name (remove_dir name d').0, err failed)

-- The installation of the staging directory.
unfoldable pub install :
    Text → Text → Text → Bool → Option (Option ℕ) → Disk → Disk × Result StoreError (Unit {0})
unfolding rename_dir remove_dir roll_back conclude
install name stage backup moved after d =
    let (d', done) = rename_dir stage name d in
    if done
    then conclude name backup moved after d'
    else ((remove_dir stage (roll_back moved backup name d')).0, err failed)

-- The swap: the site that is there is moved aside first.
unfoldable pub swap :
    Text → Text → Text → Option (Option ℕ) → Disk → Disk × Result StoreError (Unit {0})
unfolding stat_dir rename_dir remove_dir install
swap name stage backup after d =
    let (d, there) = stat_dir name d in
    if is_some there
    then (let (d', moved) = rename_dir name backup d in
        if moved
        then install name stage backup true after d'
        else ((remove_dir stage d').0, err failed))
    else install name stage backup false after d

-- replaceFromTar up to its return, which asks Stat. `after` is the deadline that afterInstall
-- records, `none` where there is no afterInstall.
unfoldable pub replace_dir :
    Text
    → List TarItem
    → ℕ
    → Option (Option ℕ)
    → Text
    → Text
    → Disk
    → Disk × Result StoreError (Unit {0})
unfolding ask extract_from remove_dir swap
replace_dir name items limit after suffix nanos d =
    if validate_site name
    then (let (d, made) = ask d in
        if not made
        then (d, err failed)
        else (let stage = stage_name name suffix in
            let (d, extracted) =
              extract_from limit items [] 0 (record d { sites = insert stage [] d.sites }) in
            elim extracted [
              | err e ↦ ((remove_dir stage d).0, err e)
              | ok t ↦
                  swap name stage (backup_name name nanos) after
                    (record d { sites = insert stage t d.sites })
            ]))
    else (d, err invalid_name)
