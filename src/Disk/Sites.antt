-- ===== src/Disk/Sites.antt =====
-- The reads and deletions of internal/storage/storage.go. The times that the file system reports are
-- an argument, for the directory of a site and for a file in it. The sites directory is there, and
-- what stands in it beside directories is skipped by every operation and left out. A deadline that is
-- recorded was written by SetExpiry and is read back.
use crate_html.Prelude.{
  ℕ, ◌+◌, Bool, true, false, Option, none, some, List, [], ◌∷◌, ◌++◌, map, Text, text_eq, ltb, leb,
  if◌then◌else◌, Result, ok, err, lookup, delete, length, is_some, keep,
}
use crate_html.Name.{validate_site}
use crate_html.Sort.{sort_by, sort_strings}
use crate_html.TarPath.{CleanPath}
use crate_html.Wire.{Site, StoreError, Backend, invalid_name, not_found, failed}
use crate_html.MemFs.{TarItem}
use crate_html.Disk.{Tree, Disk, ask, remove_dir, replace_dir}

-- A method that returns `(value, error)`: an error ends it.
abbrev pub M : Type 0 → Type 0
M A = Disk → Disk × Result StoreError A

abbrev pub next :
    {A B : Type 0} → Disk × Result StoreError A → (A → M B) → Disk × Result StoreError B
next (d, ok a) k = k a d
next (d, err e) k = (d, err e)

infixl 5 ◌>>=◌ ◌>>◌
abbrev pub ◌>>=◌ : {A B : Type 0} → M A → (A → M B) → M B
◌>>=◌ m k d = next (m d) k

abbrev pub ◌>>◌ : {A : Type 0} → M (Unit {0}) → M A → M A
m >> k = m >>= λ _. k

abbrev pub pure : {A : Type 0} → A → M A
pure a d = (d, ok a)

-- A call of the file system, and Path, which only checks the name.
unfoldable pub call : M (Unit {0})
unfolding ask
call d = let (d', done) = ask d in (d', if done then ok tt else err failed)

unfoldable pub path : Text → M (Unit {0})
path name d = (d, if validate_site name then ok tt else err invalid_name)

-- os.Stat of a site, where a missing one is ErrNotFound.
unfoldable pub look : Text → M Tree
unfolding call
look name = call >> λ d. (d, elim (lookup name d.sites) [ none ↦ err not_found | some t ↦ ok t ])

-- Open
unfoldable pub open_site : Text → M Tree
unfolding path look
open_site name = do path name; look name

-- Exists
unfoldable pub exists : Text → M Bool
unfolding path call
exists name = do path name; call; λ d. (d, ok (is_some (lookup name d.sites)))

-- Delete behind os.Stat; an expiry that cannot be removed stays.
unfoldable pub delete_found : Text → M (Unit {0})
delete_found name d =
    let (d, removed) = remove_dir name d in
    if removed
    then (let (d, done) = ask d in
        (if done then record d { deadlines = delete name d.deadlines } else d, ok tt))
    else (d, err failed)

-- Delete
unfoldable pub delete_site : Text → M (Unit {0})
delete_site name = do path name; files ← look name; delete_found name

-- expiry
unfoldable pub read_expiry : Text → M (Option ℕ)
unfolding call
read_expiry name = call >> λ d. (d, ok (lookup name d.deadlines))

-- What the walk of Stat adds up.
pub record Totals : Type 0 where
  pub size : ℕ
  pub count : ℕ
  pub updated : ℕ

abbrev later : ℕ → ℕ → ℕ
later a b = if ltb b a then a else b

unfoldable pub add_file : ℕ → Text → Totals → Totals
add_file modified bytes t = record {
  size = t.size + length bytes;
  count = t.count + 1;
  updated = later modified t.updated;
}

-- `time.Now().Add(*expiry)`, if there is one.
abbrev pub deadline : ℕ → Option ℕ → Option ℕ
deadline now none = none
deadline now (some t) = some (now + t)

abbrev pub or_skip : Result StoreError Site → List Site → List Site
or_skip (ok s) sites = s ∷ sites
or_skip (err e) sites = sites

-- os.ReadDir gives the entries in the order of their names.
unfoldable pub entry_names : Disk → List Text
entry_names d = keep validate_site (sort_strings (map (λ (e : Text × Tree). e.0) d.sites))

-- Names
unfoldable pub site_names : M (List Text)
unfolding call entry_names
site_names = call >> λ d. (d, ok (entry_names d))

-- `site.ExpiresAt == nil || site.ExpiresAt.After(now)` keeps a site.
unfoldable pub is_due : ℕ → Site → Bool
is_due now s = elim s.expires_at [ none ↦ false | some t ↦ leb t now ]

-- What a Delete of the loop leaves to do: a site that is gone meanwhile counts as deleted.
abbrev pub counts : Result StoreError (Unit {0}) → Bool
counts (ok _) = true
counts (err not_found) = true
counts (err _) = false

-- The loop of DeleteExpired: the names, and whether it failed.
unfoldable pub delete_due : ℕ → List Site → List Text → Disk → Disk × (List Text × Bool)
delete_due now [] deleted d = (d, (deleted, false))
delete_due now (s ∷ sites) deleted d = elim (is_due now s) [
  | false ↦ delete_due now sites deleted d
  | true ↦
      let (d', answer) = delete_site s.name d in
      elim (counts answer) [
        | true ↦ delete_due now sites (deleted ++ s.name ∷ []) d'
        | false ↦ (d', (deleted, true))
      ]
]

module _ (mtime : Text → Option CleanPath → ℕ) where
  -- filepath.WalkDir in Stat, which fails where an Info does.
  unfoldable pub walk_files : Text → Tree → Totals → M Totals
  unfolding call add_file
  walk_files name [] t = pure t
  walk_files name ((p, bytes) ∷ files) t =
      call >> walk_files name files (add_file (mtime name (some p)) bytes t)

  -- Stat
  unfoldable pub stat : Text → M Site
  unfolding path look walk_files read_expiry
  stat name = do
    path name
    files ← look name
    t ← walk_files name files (record { size = 0; count = 0; updated = mtime name none })
    expires_at ← read_expiry name
    pure (record {
      name = name;
      updated_at = t.updated;
      size_bytes = t.size;
      file_count = t.count;
      expires_at = expires_at;
    })

  -- The loop of List: what cannot be read is passed over.
  unfoldable pub stat_all : List Text → Disk → Disk × List Site
  stat_all [] d = (d, [])
  stat_all (name ∷ names) d =
      let (d, site) = stat name d in let (d, sites) = stat_all names d in (d, or_skip site sites)

  -- List
  unfoldable pub list_sites : M (List Site)
  unfolding call entry_names
  list_sites = do
    call
    λ d. let (d', sites) = stat_all (entry_names d) d in (d', ok (sort_by Site.name sites))

  -- DeleteExpired
  unfoldable pub delete_expired : ℕ → Disk → Disk × (List Text × Bool)
  delete_expired now d =
      let (d', answer) = list_sites d in
      elim answer [ err e ↦ (d', ([], true)) | ok sites ↦ delete_due now sites [] d' ]

  -- replaceFromTar: its return asks Stat, and an error there is the error of the whole.
  unfoldable pub replace_from_tar :
      Text → List TarItem → ℕ → Option (Option ℕ) → Text → Text → M Site
  unfolding replace_dir stat
  replace_from_tar name items limit after suffix nanos = do
    replace_dir name items limit after suffix nanos
    stat name

  -- ReplaceFromTarWithExpiry: the deadline counts from the present behind the extraction.
  unfoldable pub replace_with_expiry : Text → List TarItem → ℕ → Option ℕ → ℕ → Text → Text → M Site
  unfolding replace_from_tar
  replace_with_expiry name items limit lifetime now suffix nanos =
      replace_from_tar name items limit (some (deadline now lifetime)) suffix nanos

  -- The store behind the HTTP layer. How a body is read as a tar stream, the temporary name and the
  -- time in the backup's name are arguments.
  abbrev pub disk_backend : (Text → List TarItem) → ℕ → Text → Text → Backend
  disk_backend read_tar limit suffix nanos = record {
    State = Disk;
    Fs = Tree;
    list = list_sites;
    names = site_names;
    exists = exists;
    stat = stat;
    open_site = open_site;
    replace = λ name archive lifetime now.
        replace_with_expiry name (read_tar archive) limit lifetime now suffix nanos;
    delete = delete_site;
    delete_expired = delete_expired;
  }
