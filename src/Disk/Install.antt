-- ===== src/Disk/Install.antt =====
-- A replacement that succeeds: the archive's files stand in the site's place, with their deadline.
use crate_html.Prelude.{
  ℕ, ◌≡◌, refl, ap, ◌∙◌, Bool, true, false, Option, none, some, List, [], Text, text_eq,
  text_beq_iff, ◌==◌, Result, ok, err, arith, Bool-cases, inl, inr, lookup, insert, lookup-insert,
  lookup-delete, is_some, eq_refl,
}
use crate_html.Name.{validate_site}
use crate_html.TarPath.{CleanPath, path_eq}
use crate_html.Wire.{StoreError}
use crate_html.MemFs.{TarItem}
use crate_html.Disk.{
  Tree, Disk, ask, rename_dir, remove_dir, stat_dir, extract_from, ask_all, set_expiry, stage_name,
  backup_name, conclude, install, swap, replace_dir,
}
use crate_html.Disk.Names.{stage_name-ne, stage_name-backup_name, name-backup_name}
use crate_html.Disk.Effects.{
  rename_dir-done, lookup-rename_dir_other, lookup-remove_dir_other, sites-set_expiry,
  sites-stat_dir,
}
use crate_html.Disk.Sites.{replace_from_tar, stat}
use crate_html.Disk.Reads.{Same, next_ok, stat-Same}
use crate_html.Disk.Archive.{last_file, extract_from-last_file}

-- The deadline that afterInstall records, or the one from before where there is none.
abbrev pub Recorded : Text → Option (Option ℕ) → Disk → Type 0
Recorded name none d = Unit
Recorded name (some deadline) d = lookup name d.deadlines ≡ deadline

deadlines-set_expiry :
    (name : Text) (deadline : Option ℕ) (d : Disk)
    → (set_expiry name deadline d).1 ≡ true
    → lookup name (set_expiry name deadline d).0.deadlines ≡ deadline
unfolding set_expiry
deadlines-set_expiry name none d h =
    ground (arith, lookup-delete name name (ask d).0.deadlines, eq_refl name)
deadlines-set_expiry name (some t) d h =
    ground (arith, lookup-insert name name t (ask_all 5 d).0.deadlines, eq_refl name)

deadlines-remove_dir : (k : Text) (d : Disk) → (remove_dir k d).0.deadlines ≡ d.deadlines
unfolding remove_dir ask
deadlines-remove_dir k d = ground arith

-- The archive stands in the site's place: every path holds the body of its last regular file, nothing
-- else is there, and the deadline that was asked for is recorded.
abbrev pub IsReplaced : Text → List TarItem → Option (Option ℕ) → Disk → Type 0
IsReplaced name items after d =
    (u : Tree) × (lookup name d.sites ≡ some u)
    × ((p : CleanPath) → lookup p u ≡ last_file p items none)
    × Recorded name after d

-- What holds when the site stands in its place.
record Installed (name : Text) (after : Option (Option ℕ)) (u : Tree) (d : Disk) : Type 0 where
  placed : lookup name d.sites ≡ some u
  recorded : Recorded name after d

conclude-Installed :
    (name backup : Text) (moved : Bool) (after : Option (Option ℕ)) (u : Tree) (d : Disk)
    → (backup == name) ≡ false
    → lookup name d.sites ≡ some u
    → (conclude name backup moved after d).1 ≡ ok tt
    → Installed name after u (conclude name backup moved after d).0
unfolding conclude
conclude-Installed name backup true none u d n k h = record {
  placed = lookup-remove_dir_other backup name d n ∙ k;
  recorded = tt;
}
conclude-Installed name backup false none u d n k h = record { placed = k; recorded = tt }
conclude-Installed name backup moved (some deadline) u d n k h =
    elim (Bool-cases (set_expiry name deadline d).1) [
      | inr stuck ↦ ground (arith, stuck)
      | inl done ↦
          let d' = (set_expiry name deadline d).0 in
          record {
            placed = ground (
              arith,
              done,
              k,
              sites-set_expiry name deadline d,
              lookup-remove_dir_other backup name d' n,
            );
            recorded = ground (
              arith,
              done,
              deadlines-set_expiry name deadline d done,
              deadlines-remove_dir backup d',
            );
          }
    ]

install-Installed :
    (name stage backup : Text) (moved : Bool) (after : Option (Option ℕ)) (u : Tree) (d : Disk)
    → (backup == name) ≡ false
    → lookup stage d.sites ≡ some u
    → (install name stage backup moved after d).1 ≡ ok tt
    → Installed name after u (install name stage backup moved after d).0
unfolding install
install-Installed name stage backup moved after u d n k h =
    elim (Bool-cases (rename_dir stage name d).1) [
      | inr stuck ↦ ground (arith, stuck)
      | inl done ↦
          rw (install, done)
            (conclude-Installed name backup moved after u (rename_dir stage name d).0 n
              (rename_dir-done stage name d u done k).0 (ground (arith, done)))
    ]

swap-Installed :
    (name stage backup : Text) (after : Option (Option ℕ)) (u : Tree) (d : Disk)
    → (backup == name) ≡ false
    → (name == stage) ≡ false
    → (backup == stage) ≡ false
    → lookup stage d.sites ≡ some u
    → (swap name stage backup after d).1 ≡ ok tt
    → Installed name after u (swap name stage backup after d).0
unfolding swap
swap-Installed name stage backup after u d n m o k h =
    let d' = (stat_dir name d).0 in
    let here : lookup stage d'.sites ≡ some u = ap (lookup stage) (sites-stat_dir name d) ∙ k in
    elim (Bool-cases (is_some (stat_dir name d).1)) [
      | inr unseen ↦
          rw (swap, unseen)
            (install-Installed name stage backup false after u d' n here (ground (arith, unseen)))
      | inl seen ↦ elim (Bool-cases (rename_dir name backup d').1) [
        | inr stuck ↦ ground (arith, seen, stuck)
        | inl moved ↦
            rw (swap, seen, moved)
              (install-Installed name stage backup true after u (rename_dir name backup d').0 n
                (lookup-rename_dir_other name backup stage d' m o ∙ here)
                (ground (arith, seen, moved)))
      ]
    ]

pub replace_dir-ok :
    (name : Text) (items : List TarItem) (limit : ℕ) (after : Option (Option ℕ))
    (suffix nanos : Text) (d : Disk)
    → (replace_dir name items limit after suffix nanos d).1 ≡ ok tt
    → IsReplaced name items after (replace_dir name items limit after suffix nanos d).0
unfolding replace_dir lookup
replace_dir-ok name items limit after suffix nanos d h = elim (Bool-cases (validate_site name)) [
  | inr bad ↦ ground (arith, bad)
  | inl named ↦ elim (Bool-cases (ask d).1) [
    | inr unmade ↦ ground (arith, named, unmade)
    | inl made ↦ extracted named made (extract_from limit items [] 0 staged).1 refl h
  ]
]
  where
    staged : Disk
    staged = record (ask d).0 { sites = insert (stage_name name suffix) [] (ask d).0.sites }

    extracted :
        validate_site name ≡ true
        → (ask d).1 ≡ true
        → (o : Result StoreError Tree) → (extract_from limit items [] 0 staged).1 ≡ o
        → (replace_dir name items limit after suffix nanos d).1 ≡ ok tt
        → IsReplaced name items after (replace_dir name items limit after suffix nanos d).0
    extracted named made (err x) f l = ground (arith, named, made, f)
    extracted named made (ok u) f l =
        let unpacked = (extract_from limit items [] 0 staged).0 in
        let stage = stage_name name suffix in
        let i : Installed name after u (replace_dir name items limit after suffix nanos d).0 =
          rw (replace_dir, named, made, f)
            (swap-Installed name stage (backup_name name nanos) after u
              (record unpacked { sites = insert stage u unpacked.sites })
              (ground (
                arith,
                name-backup_name name nanos,
                text_beq_iff (backup_name name nanos) name,
                text_beq_iff name (backup_name name nanos),
              ))
              (ground (
                arith,
                stage_name-ne name suffix named,
                text_beq_iff name stage,
                text_beq_iff stage name,
              ))
              (ground (
                arith,
                stage_name-backup_name name suffix nanos named,
                text_beq_iff (backup_name name nanos) stage,
                text_beq_iff stage (backup_name name nanos),
              ))
              (ground (arith, lookup-insert stage stage u unpacked.sites, eq_refl stage))
              (ground (arith, named, made, f))) in
        (u, i.placed, λ p. extract_from-last_file limit items [] 0 staged u p f, i.recorded)

IsReplaced-Same :
    (name : Text) (items : List TarItem) (after : Option (Option ℕ)) (d d' : Disk)
    → Same d d'
    → IsReplaced name items after d
    → IsReplaced name items after d'
IsReplaced-Same name items none d d' s (u, placed, files, r) =
    (u, ap (lookup name) s.sites ∙ placed, files, tt)
IsReplaced-Same name items (some deadline) d d' s (u, placed, files, r) =
    (u, ap (lookup name) s.sites ∙ placed, files, ap (lookup name) s.deadlines ∙ r)

module _ (mtime : Text → Option CleanPath → ℕ) where
  -- What is in place stays there while the final Stat looks at it.
  pub replace_from_tar-IsReplaced :
      (name : Text) (items : List TarItem) (limit : ℕ) (after : Option (Option ℕ))
      (suffix nanos : Text) (d : Disk)
      → (replace_dir name items limit after suffix nanos d).1 ≡ ok tt
      → IsReplaced name items after (replace_from_tar mtime name items limit after suffix nanos d).0
  unfolding replace_from_tar
  replace_from_tar-IsReplaced name items limit after suffix nanos d h =
      let r = replace_dir name items limit after suffix nanos d in
      rw (next_ok r (λ _. stat mtime name) tt h) (
        IsReplaced-Same name items after r.0 (stat mtime name r.0).0 (stat-Same mtime name r.0)
          (replace_dir-ok name items limit after suffix nanos d h))
