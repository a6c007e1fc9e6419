-- ===== src/Disk/Rollback.antt =====
-- Where the old content of a site is when a replacement fails.
use crate_html.Prelude.{
  ℕ, ◌≡◌, refl, ap, ◌∙◌, true, false, Option, none, some, List, [], Text, text_eq, ◌==◌, Result, ok,
  err, arith, Bool-cases, inl, inr, ◌⊎◌, lookup, insert, lookup-insert, is_some,
}
use crate_html.Name.{validate_site}
use crate_html.TarPath.{CleanPath, path_eq}
use crate_html.Wire.{StoreError}
use crate_html.MemFs.{TarItem}
use crate_html.Disk.{
  Tree, Disk, ask, rename_dir, remove_dir, stat_dir, extract_from, set_expiry, stage_name,
  backup_name, roll_back, conclude, install, swap, replace_dir,
}
use crate_html.Disk.Sites.{next, replace_from_tar, stat}
use crate_html.Disk.Reads.{next_err}
use crate_html.Disk.Install.{IsReplaced, replace_from_tar-IsReplaced}
use crate_html.Disk.Names.{stage_name-ne, stage_name-backup_name, name-backup_name}
use crate_html.Disk.Effects.{
  sites-ask, rename_dir-done, sites-rename_dir_failed, lookup-rename_dir_other,
  lookup-remove_dir_other, sites-set_expiry, sites-extract_from, rename_dir-free, sites-stat_dir,
}

-- The site's old content is at its place, or under the backup's name.
abbrev pub Kept : Text → Text → Tree → Disk → Type 0
Kept name backup t d = (lookup name d.sites ≡ some t) ⊎ (lookup backup d.sites ≡ some t)

-- Removing a third directory loses neither.
remove_dir-Kept :
    (k name backup : Text) (t : Tree) (d : Disk)
    → (k == name) ≡ false
    → (k == backup) ≡ false
    → Kept name backup t d
    → Kept name backup t (remove_dir k d).0
remove_dir-Kept k name backup t d n m (inl here) = inl (lookup-remove_dir_other k name d n ∙ here)
remove_dir-Kept k name backup t d n m (inr aside) =
    inr (lookup-remove_dir_other k backup d m ∙ aside)

roll_back-Kept :
    (name backup : Text) (t : Tree) (d : Disk)
    → lookup backup d.sites ≡ some t
    → Kept name backup t (roll_back true backup name d)
unfolding roll_back
roll_back-Kept name backup t d h = elim (Bool-cases (rename_dir backup name d).1) [
  | inl done ↦ inl (rename_dir-done backup name d t done h).0
  | inr stuck ↦ inr (ap (lookup backup) (sites-rename_dir_failed backup name d stuck) ∙ h)
]

conclude-Kept :
    (name backup : Text) (after : Option (Option ℕ)) (t : Tree) (d : Disk) (e : StoreError)
    → (name == backup) ≡ false
    → lookup backup d.sites ≡ some t
    → (conclude name backup true after d).1 ≡ err e
    → Kept name backup t (conclude name backup true after d).0
unfolding conclude
conclude-Kept name backup none t d e n k h = ground arith
conclude-Kept name backup (some deadline) t d e n k h =
    let d' = (set_expiry name deadline d).0 in
    let aside : lookup backup (remove_dir name d').0.sites ≡ some t =
      lookup-remove_dir_other name backup d' n
      ∙ ap (lookup backup) (sites-set_expiry name deadline d)
      ∙ k in
    elim (Bool-cases (set_expiry name deadline d).1) [
      | inl done ↦ ground (arith, done)
      | inr stuck ↦ rw stuck (roll_back-Kept name backup t (remove_dir name d').0 aside)
    ]

-- Behind the move of the site to its backup.
install-Kept :
    (name stage backup : Text) (after : Option (Option ℕ)) (t : Tree) (d : Disk) (e : StoreError)
    → (name == backup) ≡ false
    → (stage == name) ≡ false
    → (stage == backup) ≡ false
    → lookup backup d.sites ≡ some t
    → (install name stage backup true after d).1 ≡ err e
    → Kept name backup t (install name stage backup true after d).0
unfolding install
install-Kept name stage backup after t d e n m o k h =
    elim (Bool-cases (rename_dir stage name d).1) [
      | inl done ↦
          rw (install, done)
            (conclude-Kept name backup after t (rename_dir stage name d).0 e n
              (lookup-rename_dir_other stage name backup d o n ∙ k) (ground (arith, done)))
      | inr stuck ↦
          rw (install, stuck)
            (remove_dir-Kept stage name backup t
              (roll_back true backup name (rename_dir stage name d).0) m o
              (roll_back-Kept name backup t (rename_dir stage name d).0
                (ap (lookup backup) (sites-rename_dir_failed stage name d stuck) ∙ k)))
    ]

-- Where the site was not seen, although it is there, the installation fails and leaves it.
install-unseen :
    (name stage backup : Text) (after : Option (Option ℕ)) (t : Tree) (d : Disk) (e : StoreError)
    → (stage == name) ≡ false
    → lookup name d.sites ≡ some t
    → (install name stage backup false after d).1 ≡ err e
    → lookup name (install name stage backup false after d).0.sites ≡ some t
unfolding install roll_back
install-unseen name stage backup after t d e m k h = elim (Bool-cases (rename_dir stage name d).1) [
  | inl done ↦ ground (arith, k, rename_dir-free stage name d done)
  | inr stuck ↦
      rw (install, stuck)
        (lookup-remove_dir_other stage name (rename_dir stage name d).0 m
          ∙ ap (lookup name) (sites-rename_dir_failed stage name d stuck)
          ∙ k)
]

swap-Kept :
    (name stage backup : Text) (after : Option (Option ℕ)) (t : Tree) (d : Disk) (e : StoreError)
    → (name == backup) ≡ false
    → (stage == name) ≡ false
    → (stage == backup) ≡ false
    → lookup name d.sites ≡ some t
    → (swap name stage backup after d).1 ≡ err e
    → Kept name backup t (swap name stage backup after d).0
unfolding swap
swap-Kept name stage backup after t d e n m o k h =
    let d' = (stat_dir name d).0 in
    let here : lookup name d'.sites ≡ some t = ap (lookup name) (sites-stat_dir name d) ∙ k in
    elim (Bool-cases (is_some (stat_dir name d).1)) [
      | inr unseen ↦ inl (
          rw (swap, unseen)
            (install-unseen name stage backup after t d' e m here (ground (arith, unseen))))
      | inl seen ↦ elim (Bool-cases (rename_dir name backup d').1) [
        | inl moved ↦
            rw (swap, seen, moved)
              (install-Kept name stage backup after t (rename_dir name backup d').0 e n m o
                (rename_dir-done name backup d' t moved here).0 (ground (arith, seen, moved)))
        | inr stuck ↦
            rw (swap, seen, stuck)
              (remove_dir-Kept stage name backup t (rename_dir name backup d').0 m o
                (inl (ap (lookup name) (sites-rename_dir_failed name backup d' stuck) ∙ here)))
      ]
    ]

-- Up to the final Stat.
replace_dir-Kept :
    (name : Text) (items : List TarItem) (limit : ℕ) (after : Option (Option ℕ))
    (suffix nanos : Text) (t : Tree) (d : Disk) (e : StoreError)
    → lookup name d.sites ≡ some t
    → (replace_dir name items limit after suffix nanos d).1 ≡ err e
    → Kept name (backup_name name nanos) t (replace_dir name items limit after suffix nanos d).0
unfolding replace_dir
replace_dir-Kept name items limit after suffix nanos t d e k h =
    elim (Bool-cases (validate_site name)) [
      | inr bad ↦ ground (arith, bad, k)
      | inl named ↦ elim (Bool-cases (ask d).1) [
        | inr unmade ↦ ground (arith, named, unmade, sites-ask d, k)
        | inl made ↦ extracted named made (extract_from limit items [] 0 staged).1 refl h
      ]
    ]
  where
    staged : Disk
    staged = record (ask d).0 { sites = insert (stage_name name suffix) [] (ask d).0.sites }

    beside :
        validate_site name ≡ true
        → (u : Tree) (x : List (Text × Tree)) → lookup name x ≡ some t
        → lookup name (insert (stage_name name suffix) u x) ≡ some t
    beside named u x there =
        ground
          (arith, lookup-insert (stage_name name suffix) name u x, stage_name-ne name suffix named)

    unpacked : Disk
    unpacked = (extract_from limit items [] 0 staged).0

    there : validate_site name ≡ true → lookup name unpacked.sites ≡ some t
    there named =
        ap (lookup name) (sites-extract_from limit items [] 0 staged)
        ∙ beside named [] (ask d).0.sites (ap (lookup name) (sites-ask d) ∙ k)

    extracted :
        validate_site name ≡ true
        → (ask d).1 ≡ true
        → (o : Result StoreError Tree) → (extract_from limit items [] 0 staged).1 ≡ o
        → (replace_dir name items limit after suffix nanos d).1 ≡ err e
        → Kept name (backup_name name nanos) t (replace_dir name items limit after suffix nanos d).0
    extracted named made (err x) f l =
        rw (replace_dir, named, made, f)
          (remove_dir-Kept (stage_name name suffix) name (backup_name name nanos) t unpacked
            (stage_name-ne name suffix named) (stage_name-backup_name name suffix nanos named)
            (inl (there named)))
    extracted named made (ok u) f l =
        rw (replace_dir, named, made, f)
          (swap-Kept name (stage_name name suffix) (backup_name name nanos) after t
            (record unpacked { sites = insert (stage_name name suffix) u unpacked.sites }) e
            (name-backup_name name nanos) (stage_name-ne name suffix named)
            (stage_name-backup_name name suffix nanos named)
            (beside named u unpacked.sites (there named)) (ground (arith, named, made, f)))

-- A replacement that reports an error, whichever calls of the file system fail: either the old content
-- stands at its place as it was, or under the backup's name, or the error is that of the Stat at the
-- end, and the archive stands in the site's place, with its deadline.
pub replace_from_tar-Kept :
    (mtime : Text → Option CleanPath → ℕ) (name : Text) (items : List TarItem) (limit : ℕ)
    (after : Option (Option ℕ)) (suffix nanos : Text) (t : Tree) (d : Disk) (e : StoreError)
    → lookup name d.sites ≡ some t
    → (replace_from_tar mtime name items limit after suffix nanos d).1 ≡ err e
    → Kept name
        (backup_name name nanos)
        t
        (replace_from_tar mtime name items limit after suffix nanos d).0
      ⊎ (((stat mtime name (replace_dir name items limit after suffix nanos d).0).1 ≡ err e)
          × IsReplaced name items after
              (replace_from_tar mtime name items limit after suffix nanos d).0)
unfolding replace_from_tar
replace_from_tar-Kept mtime name items limit after suffix nanos t d e k h =
    go (replace_dir name items limit after suffix nanos d).1 refl h
  where
    go :
        (o : Result StoreError (Unit {0}))
        → (replace_dir name items limit after suffix nanos d).1 ≡ o
        → (next ((replace_dir name items limit after suffix nanos d).0, o) (λ _. stat mtime name)).1
          ≡ err e
        → Kept name
            (backup_name name nanos)
            t
            (replace_from_tar mtime name items limit after suffix nanos d).0
          ⊎ (((stat mtime name (replace_dir name items limit after suffix nanos d).0).1 ≡ err e)
              × IsReplaced name items after
                  (replace_from_tar mtime name items limit after suffix nanos d).0)
    go (ok _) f l =
        inr (l, replace_from_tar-IsReplaced mtime name items limit after suffix nanos d f)
    go (err x) f l = inl (
        rw (next_err (replace_dir name items limit after suffix nanos d) (λ _. stat mtime name) x f)
          (replace_dir-Kept name items limit after suffix nanos t d x k f))
