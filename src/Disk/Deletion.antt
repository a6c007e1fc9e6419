-- ===== src/Disk/Deletion.antt =====
-- Store.Delete of internal/storage/storage.go, on every branch.
use crate_html.Prelude.{
  ◌≡◌, refl, sym, ap, ◌∙◌, true, false, none, [], Text, text_eq, text_beq_iff, ◌==◌, Result, ok,
  err, arith, Bool-cases, inl, inr, lookup, lookup-delete, eq_refl, if◌then◌else◌,
}
use crate_html.Name.{validate_site}
use crate_html.Wire.{StoreError, not_found, invalid_name}
use crate_html.Disk.{Tree, Disk, ask, remove_dir}
use crate_html.Disk.Sites.{next, path, look, delete_found, delete_site, counts}
use crate_html.Disk.Effects.{lookup-remove_dir_other, reduce_absent}
use crate_html.Disk.Reads.{
  Same, Same-refl, ask-Same, ask-silent, look-Same, look-not_found, look-err,
}

-- What Delete does to the sites, on every branch.
pub record Deleted (name : Text) (d : Disk) (r : Disk × Result StoreError (Unit {0})) : Type 0 where
  pub others : (m : Text) → (name == m) ≡ false → lookup m r.0.sites ≡ lookup m d.sites
  pub gone : counts r.1 ≡ true → lookup name r.0.sites ≡ none
  pub absent : (m : Text) → lookup m d.sites ≡ none → lookup m r.0.sites ≡ none

counted : (e : StoreError) → counts (err e) ≡ true → e ≡ not_found
counted StoreError.not_found h = refl
counted StoreError.invalid_name h = cc
counted StoreError.unsafe_path h = cc
counted StoreError.site_too_large h = cc
counted StoreError.failed h = cc

remove_dir-done : (name : Text) (d : Disk) → (remove_dir name d).1 ≡ (ask d).1
unfolding remove_dir
remove_dir-done name d = elim (Bool-cases (ask d).1) [
  | inl h ↦ rw (h, remove_dir) refl
  | inr h ↦ rw (h, remove_dir) refl
]

lookup-remove_dir :
    (name m : Text) (d : Disk)
    → (ask d).1 ≡ true
    → lookup m (remove_dir name d).0.sites ≡ (if name == m then none else lookup m d.sites)
unfolding remove_dir
lookup-remove_dir name m d h = ground (arith, h, (ask-Same d).sites, lookup-delete name m d.sites)

-- What is not there is not there behind a removal either.
remove_dir-absent :
    (name m : Text) (d : Disk)
    → lookup m d.sites ≡ none
    → lookup m (remove_dir name d).0.sites ≡ none
remove_dir-absent name m d h = elim (Bool-cases (name == m)) [
  | inr other ↦ lookup-remove_dir_other name m d other ∙ h
  | inl same ↦ elim (Bool-cases (ask d).1) [
    | inl done ↦ ground (arith, lookup-remove_dir name m d done, h)
    | inr stuck ↦
        let d' = (ask d).0 in
        let gone : lookup name d'.sites ≡ none =
          ground (arith, h, same, text_beq_iff name m, (ask-Same d).sites) in
        unfold remove_dir in
        rw (stuck, reduce_absent name (d'.spared d'.answers) d'.sites gone)
          (ap (lookup m) (ask-Same d).sites ∙ h)
  ]
]

-- Delete behind os.Stat changes the sites as its RemoveAll does.
delete_found_lem :
    (name : Text) (d : Disk)
    → ((delete_found name d).0.sites ≡ (remove_dir name d).0.sites)
      × (counts (delete_found name d).1 ≡ (ask d).1)
unfolding delete_found
delete_found_lem name d =
    let s = (ask-Same (remove_dir name d).0).sites in
    let r = remove_dir-done name d in
    elim (Bool-cases (ask d).1) [
      | inl done ↦ (ground (arith, s, r, done), ground (arith, r, done))
      | inr stop ↦ (ground (arith, s, r, stop), ground (arith, r, stop))
    ]

delete_found-Deleted : (name : Text) (d : Disk) → Deleted name d (delete_found name d)
delete_found-Deleted name d = record {
  others = λ m n. ap (lookup m) (delete_found_lem name d).0 ∙ lookup-remove_dir_other name m d n;
  gone = λ h.
      let done : (ask d).1 ≡ true = sym (delete_found_lem name d).1 ∙ h in
      ap (lookup name) (delete_found_lem name d).0
      ∙ ground (arith, lookup-remove_dir name name d done, eq_refl name);
  absent = λ m h. ap (lookup m) (delete_found_lem name d).0 ∙ remove_dir-absent name m d h;
}

Deleted-Same :
    (name : Text) (d d' : Disk) (r : Disk × Result StoreError (Unit {0}))
    → Same d d'
    → Deleted name d' r
    → Deleted name d r
Deleted-Same name d d' r s t = record {
  others = λ m n. t.others m n ∙ ap (lookup m) s.sites;
  gone = t.gone;
  absent = λ m h. t.absent m (ap (lookup m) s.sites ∙ h);
}

-- An answer that does not go on to the removal.
Deleted-stop :
    (name : Text) (d d' : Disk) (e : StoreError)
    → Same d d'
    → (e ≡ not_found → lookup name d.sites ≡ none)
    → Deleted name d (d', err e)
Deleted-stop name d d' e s f = record {
  others = λ m n. ap (lookup m) s.sites;
  gone = λ h. ap (lookup name) s.sites ∙ f (counted e h);
  absent = λ m h. ap (lookup m) s.sites ∙ h;
}

pub delete_site-Deleted : (name : Text) (d : Disk) → Deleted name d (delete_site name d)
unfolding delete_site path
delete_site-Deleted name d = elim (Bool-cases (validate_site name)) [
  | inr bad ↦ rw bad (Deleted-stop name d d invalid_name (Same-refl d) (λ h. cc))
  | inl good ↦ rw good (go (look name d).1 refl)
]
  where
    go :
        (o : Result StoreError Tree)
        → (look name d).1 ≡ o
        → Deleted name d (next ((look name d).0, o) (λ _. delete_found name))
    go (ok t) h =
        Deleted-Same name d (look name d).0 _ (look-Same name d)
          (delete_found-Deleted name (look name d).0)
    go (err e) h =
        Deleted-stop name d (look name d).0 e (look-Same name d)
          (λ k. look-not_found name d (h ∙ ap (λ (x : StoreError). err x) k))

answers-remove_dir : (name : Text) (d : Disk) → (remove_dir name d).0.answers ≡ (ask d).0.answers
unfolding remove_dir
answers-remove_dir name d = ground arith

answers-delete_found :
    (name : Text) (d : Disk) → d.answers ≡ [] → (delete_found name d).0.answers ≡ []
unfolding delete_found
answers-delete_found name d h =
    let a = answers-remove_dir name d ∙ (ask-Same d).silent h in
    ground (arith, a, (ask-Same (remove_dir name d).0).silent a)

-- Where no call is going to fail, a site that is there is removed, and still no call fails.
pub delete_site-silent :
    (name : Text) (d : Disk)
    → d.answers ≡ []
    → validate_site name ≡ true
    → (counts (delete_site name d).1 ≡ true) × ((delete_site name d).0.answers ≡ [])
unfolding delete_site path
delete_site-silent name d h v = rw v (go (look name d).1 refl)
  where
    go :
        (o : Result StoreError Tree)
        → (look name d).1 ≡ o
        → (counts (next ((look name d).0, o) (λ _. delete_found name)).1 ≡ true)
          × ((next ((look name d).0, o) (λ _. delete_found name)).0.answers ≡ [])
    go (ok t) e =
        let d' = (look name d).0 in
        let h' = (look-Same name d).silent h in
        ((delete_found_lem name d').1 ∙ ask-silent d' h', answers-delete_found name d' h')
    go (err x) e = (
      ap (λ (y : StoreError). counts (err y)) (look-err name d x h e),
      (look-Same name d).silent h,
    )
