-- ===== src/Disk/Effects.antt =====
-- What the calls of the file system and the extraction of an archive do to the sites directory.
use crate_html.Prelude.{
  ℕ, ◌≡◌, refl, ap, ◌∙◌, Bool, Bool-cases, true, false, Option, none, some, List, [], ◌∷◌, Text,
  text_eq, ◌==◌, Result, ok, err, arith, Option-cases, inl, inr, lookup, delete, lookup-insert,
  lookup-delete, eq_refl,
}
use crate_html.TarPath.{CleanPath, path_eq, safe_tar_path}
use crate_html.Wire.{StoreError}
use crate_html.MemFs.{Typeflag, dir, reg, link, special, Body, TarItem, header, bad_header}
use crate_html.Disk.{
  Tree, Disk, ask, rename_dir, reduce, remove_dir, stat_dir, extract_file, extract_flag,
  extract_item, extract_from, ask_all, set_expiry,
}

pub sites-ask : (d : Disk) → (ask d).0.sites ≡ d.sites
unfolding ask
sites-ask d = ground arith

-- A rename that is done moved the directory; one that is not changed nothing.
pub rename_dir-done :
    (old new : Text) (d : Disk) (t : Tree)
    → (rename_dir old new d).1 ≡ true
    → lookup old d.sites ≡ some t
    → (lookup new (rename_dir old new d).0.sites ≡ some t) × (lookup new d.sites ≡ none)
unfolding rename_dir
rename_dir-done old new d t h k = elim (Option-cases (lookup new d.sites)) [
  | inl free ↦
      ground
        (arith, sites-ask d, k, free, lookup-insert new new t (delete old d.sites), eq_refl new)
  | inr (u, taken) ↦ ground (arith, sites-ask d, k, taken)
]

pub sites-rename_dir_failed :
    (old new : Text) (d : Disk)
    → (rename_dir old new d).1 ≡ false
    → (rename_dir old new d).0.sites ≡ d.sites
unfolding rename_dir
sites-rename_dir_failed old new d h = elim (Option-cases (lookup old d.sites)) [
  | inl gone ↦ ground (arith, sites-ask d, gone)
  | inr (t, there) ↦ ground (arith, sites-ask d, there)
]

pub lookup-rename_dir_other :
    (old new j : Text) (d : Disk)
    → (old == j) ≡ false
    → (new == j) ≡ false
    → lookup j (rename_dir old new d).0.sites ≡ lookup j d.sites
unfolding rename_dir
lookup-rename_dir_other old new j d n m = elim (Option-cases (lookup old d.sites)) [
  | inl gone ↦ ground (arith, sites-ask d, gone)
  | inr (t, there) ↦ ground (
    arith,
    sites-ask d,
    there,
    n,
    m,
    lookup-insert new j t (delete old d.sites),
    lookup-delete old j d.sites,
  )
]

pub lookup-reduce :
    (k j : Text) (spares : CleanPath → Bool) (sites : List (Text × Tree))
    → (k == j) ≡ false
    → lookup j (reduce k spares sites) ≡ lookup j sites
unfolding reduce
lookup-reduce k j spares sites n = elim (Option-cases (lookup k sites)) [
  | inl gone ↦ rw (gone, reduce) refl
  | inr (t, there) ↦ rw (there, reduce, lookup-insert k j _ sites, n) refl
]

pub reduce_absent :
    (k : Text) (spares : CleanPath → Bool) (sites : List (Text × Tree))
    → lookup k sites ≡ none
    → reduce k spares sites ≡ sites
unfolding reduce
reduce_absent k spares sites h = rw (h, reduce) refl

pub lookup-remove_dir_other :
    (k j : Text) (d : Disk)
    → (k == j) ≡ false
    → lookup j (remove_dir k d).0.sites ≡ lookup j d.sites
unfolding remove_dir
lookup-remove_dir_other k j d n = elim (Bool-cases (ask d).1) [
  | inl done ↦ ground (arith, done, sites-ask d, n, lookup-delete k j d.sites)
  | inr stuck ↦
      let d' = (ask d).0 in
      rw (remove_dir, stuck)
        (lookup-reduce k j (d'.spared d'.answers) d'.sites n ∙ ap (lookup j) (sites-ask d))
]

pub sites-ask_all : (n : ℕ) (d : Disk) → (ask_all n d).0.sites ≡ d.sites
unfolding ask_all
sites-ask_all ℕ.zero d = refl
sites-ask_all (ℕ.suc n) d = ground (arith, sites-ask d, sites-ask_all n (ask d).0)

pub sites-set_expiry :
    (name : Text) (deadline : Option ℕ) (d : Disk) → (set_expiry name deadline d).0.sites ≡ d.sites
unfolding set_expiry
sites-set_expiry name none d = ground (arith, sites-ask d)
sites-set_expiry name (some t) d = ground (arith, sites-ask_all 5 d)

pub sites-extract_file :
    (limit : ℕ) (p : CleanPath) (body : Body) (t : Tree) (written : ℕ) (d : Disk)
    → (extract_file limit p body t written d).0.sites ≡ d.sites
unfolding extract_file
sites-extract_file limit p body t written d =
    ground (arith, sites-ask d, sites-ask (ask d).0, sites-ask (ask (ask d).0).0)

pub sites-extract_item :
    (limit : ℕ) (item : TarItem) (t : Tree) (written : ℕ) (d : Disk)
    → (extract_item limit item t written d).0.sites ≡ d.sites
unfolding extract_item extract_flag
sites-extract_item limit bad_header t written d = refl
sites-extract_item limit (header name flag body) t written d =
    elim (Option-cases (safe_tar_path name)) [
      | inl bad ↦ ground (arith, bad)
      | inr (p, good) ↦ ground (arith, good, go flag p)
    ]
  where
    go :
        (f : Typeflag) (p : CleanPath) → (extract_flag limit f p body t written d).0.sites ≡ d.sites
    go dir p = ground (arith, sites-ask d)
    go reg p = sites-extract_file limit p body t written d
    go link p = refl
    go special p = refl

pub sites-extract_from :
    (limit : ℕ) (items : List TarItem) (t : Tree) (written : ℕ) (d : Disk)
    → (extract_from limit items t written d).0.sites ≡ d.sites
unfolding extract_from
sites-extract_from limit [] t written d = refl
sites-extract_from limit (item ∷ items) t written d =
    go (λ r d'. sites-extract_from limit items r.0 r.1 d') (extract_item limit item t written d).1
      refl
  where
    go :
        ((r : Tree × ℕ) (d' : Disk) → (extract_from limit items r.0 r.1 d').0.sites ≡ d'.sites)
        → (o : Result StoreError (Tree × ℕ)) → (extract_item limit item t written d).1 ≡ o
        → (extract_from limit (item ∷ items) t written d).0.sites ≡ d.sites
    go ih (err e) k = ground (arith, k, sites-extract_item limit item t written d)
    go ih (ok r) k = ground (
      arith,
      k,
      sites-extract_item limit item t written d,
      ih r (extract_item limit item t written d).0,
    )

pub rename_dir-free :
    (old new : Text) (d : Disk) → (rename_dir old new d).1 ≡ true → lookup new d.sites ≡ none
unfolding rename_dir
rename_dir-free old new d h = elim (Option-cases (lookup old d.sites)) [
  | inl gone ↦ ground (arith, sites-ask d, gone)
  | inr (t, there) ↦ elim (Option-cases (lookup new d.sites)) [
    | inl free ↦ free
    | inr (u, taken) ↦ ground (arith, sites-ask d, there, taken)
  ]
]

pub sites-stat_dir : (name : Text) (d : Disk) → (stat_dir name d).0.sites ≡ d.sites
unfolding stat_dir
sites-stat_dir name d = sites-ask d
