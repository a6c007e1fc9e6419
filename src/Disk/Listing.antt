-- ===== src/Disk/Listing.antt =====
-- List of the disk store: what it reports of each site, and that no site is passed over where no call
-- fails.
use crate_html.Prelude.{
  ℕ, ◌≡◌, refl, sym, ap, ◌∙◌, Bool, true, ◌||◌, Option, some, List, [], ◌∷◌, map, Text, text_eq,
  text_beq_iff, ◌==◌, Result, ok, err, arith, Bool-cases, inl, inr, lookup, All, any, contains,
  keep,
}
use mathlib.Core.Path.{subst}
use crate_html.Name.{validate_site}
use crate_html.TarPath.{CleanPath}
use crate_html.Sort.{text_leb, insert_by, sort_by}
use crate_html.Sort.Laws.{contains-sort_strings}
use crate_html.Wire.{Site, StoreError}
use crate_html.Disk.{Tree, Disk}
use crate_html.Disk.Sites.{call, stat, stat_all, or_skip, entry_names, list_sites}
use crate_html.Disk.Reads.{
  Same, Same-refl, Same-trans, next-Same, next-eq_ok, next_ok, call-Same, call-silent, stat-Same,
  stat-Reported, stat-silent,
}

any-insert_by {ℓ} :
    {A : Type ℓ} (key : A → Text) (p : A → Bool) (a : A) (l : List A)
    → any p (insert_by key a l) ≡ (p a || any p l)
unfolding insert_by
any-insert_by key p a [] = refl
any-insert_by key p a (b ∷ l) = ground (arith, any-insert_by key p a l)

pub any-sort_by {ℓ} :
    {A : Type ℓ} (key : A → Text) (p : A → Bool) (l : List A) → any p (sort_by key l) ≡ any p l
unfolding sort_by
any-sort_by key p [] = refl
any-sort_by key p (a ∷ l) =
    ground (arith, any-insert_by key p a (sort_by key l), any-sort_by key p l)

All-insert_by {ℓ κ} :
    {A : Type ℓ} (key : A → Text) (P : A → Type κ) (a : A) (l : List A)
    → P a
    → All P l
    → All P (insert_by key a l)
unfolding insert_by
All-insert_by key P a [] h k = (h, tt)
All-insert_by key P a (b ∷ l) h k = elim (Bool-cases (text_leb (key a) (key b))) [
  | inl before ↦ rw before (h, k)
  | inr after ↦ rw after (k.0, All-insert_by key P a l h k.1)
]

pub All-sort_by {ℓ κ} :
    {A : Type ℓ} (key : A → Text) (P : A → Type κ) (l : List A) → All P l → All P (sort_by key l)
unfolding sort_by
All-sort_by key P [] h = tt
All-sort_by key P (a ∷ l) h = All-insert_by key P a (sort_by key l) h.0 (All-sort_by key P l h.1)

module _ (mtime : Text → Option CleanPath → ℕ) where
  -- A site of the listing carries the deadline that is recorded for its name, which is valid.
  abbrev pub IsDated : Disk → Site → Type 0
  IsDated d s = (s.expires_at ≡ lookup s.name d.deadlines) × (validate_site s.name ≡ true)

  stat_all-Same : (names : List Text) (d : Disk) → Same d (stat_all mtime names d).0
  unfolding stat_all
  stat_all-Same [] d = Same-refl d
  stat_all-Same (name ∷ names) d =
      Same-trans d (stat mtime name d).0 _ (stat-Same mtime name d)
        (stat_all-Same names (stat mtime name d).0)

  stat-IsDated : (name : Text) (d : Disk) (s : Site) → (stat mtime name d).1 ≡ ok s → IsDated d s
  stat-IsDated name d s h =
      let r = stat-Reported mtime name d s h in
      (
        r.dated ∙ ap (λ (n : Text). lookup n d.deadlines) (sym r.named),
        ap validate_site r.named ∙ r.valid,
      )

  any-or_skip :
      (o : Result StoreError Site) (sites : List Site) (m : Text)
      → any (λ s. s.name == m) sites ≡ true
      → any (λ s. s.name == m) (or_skip o sites) ≡ true
  any-or_skip (ok s) sites m h = ground (arith, h)
  any-or_skip (err e) sites m h = h

  All-or_skip :
      (o : Result StoreError Site) (sites : List Site) (d : Disk)
      → ((s : Site) → o ≡ ok s → IsDated d s)
      → All (IsDated d) sites
      → All (IsDated d) (or_skip o sites)
  All-or_skip (ok s) sites d f h = (f s refl, h)
  All-or_skip (err e) sites d f h = h

  stat_all-IsDated :
      (names : List Text) (d d' : Disk) → Same d' d → All (IsDated d') (stat_all mtime names d).1
  unfolding stat_all
  stat_all-IsDated [] d d' e = tt
  stat_all-IsDated (name ∷ names) d d' e =
      All-or_skip (stat mtime name d).1 (stat_all mtime names (stat mtime name d).0).1 d'
        (λ s k.
          let (dated, valid) = stat-IsDated name d s k in
          (dated ∙ ap (lookup s.name) e.deadlines, valid))
        (stat_all-IsDated names (stat mtime name d).0 d'
          (Same-trans d' d (stat mtime name d).0 e (stat-Same mtime name d)))

  -- A name in the list has a site in the listing.
  stat_all-any :
      (names : List Text) (d : Disk) (m : Text) (files : Tree)
      → d.answers ≡ []
      → validate_site m ≡ true
      → lookup m d.sites ≡ some files
      → contains m names ≡ true
      → any (λ s. s.name == m) (stat_all mtime names d).1 ≡ true
  unfolding stat_all
  stat_all-any [] d m files h v l k = cc
  stat_all-any (name ∷ names) d m files h v l k = elim (Bool-cases (name == m)) [
    | inl same ↦
        let e = (text_beq_iff name m).0 same in
        let (s, got) =
          stat-silent mtime name d files h (ap validate_site e ∙ v)
            (ap (λ (n : Text). lookup n d.sites) e ∙ l) in
        rw got (ground (arith, (stat-Reported mtime name d s got).named, same))
    | inr other ↦
        let next = stat mtime name d in
        let same = stat-Same mtime name d in
        any-or_skip next.1 (stat_all mtime names next.0).1 m (
          stat_all-any names next.0 m files (same.silent h) v (ap (lookup m) same.sites ∙ l)
            (ground (arith, k, other)))
  ]

contains-keep :
    (p : Text → Bool) (m : Text) (l : List Text)
    → p m ≡ true
    → contains m l ≡ true
    → contains m (keep p l) ≡ true
contains-keep p m [] h k = k
contains-keep p m (n ∷ l) h k = ground (arith, contains-keep p m l, text_beq_iff n m, h, k)

contains-names :
    (m : Text) (files : Tree) (sites : List (Text × Tree))
    → lookup m sites ≡ some files
    → contains m (map (λ (e : Text × Tree). e.0) sites) ≡ true
unfolding lookup
contains-names m files [] h = cc
contains-names m files ((n, t) ∷ sites) h = ground (arith, contains-names m files sites)

entry_names-contains :
    (d : Disk) (m : Text) (files : Tree)
    → validate_site m ≡ true
    → lookup m d.sites ≡ some files
    → contains m (entry_names d) ≡ true
unfolding entry_names
entry_names-contains d m files v l = contains-keep validate_site m _ v (
    contains-sort_strings m (map (λ (e : Text × Tree). e.0) d.sites)
    ∙ contains-names m files d.sites l)

module _ (mtime : Text → Option CleanPath → ℕ) where
  pub list_sites-Same : (d : Disk) → Same d (list_sites mtime d).0
  unfolding list_sites
  list_sites-Same d =
      next-Same (call d) _ d (call-Same d)
        λ _. stat_all-Same mtime (entry_names (call d).0) (call d).0

  -- Each site of the listing carries the deadline that is recorded for its name.
  pub list_sites-IsDated :
      (d : Disk) (sites : List Site)
      → (list_sites mtime d).1 ≡ ok sites
      → All (IsDated mtime d) sites
  unfolding list_sites
  list_sites-IsDated d sites h =
      let (_, _, k) = next-eq_ok (call d) _ sites h in
      subst (All (IsDated mtime d)) (ground (arith, k)) (
        All-sort_by Site.name (IsDated mtime d)
          (stat_all mtime (entry_names (call d).0) (call d).0).1
          (stat_all-IsDated mtime (entry_names (call d).0) (call d).0 d (call-Same d)))

  -- Where no call fails, every site with a valid name is in the listing.
  pub list_sites-any :
      (d : Disk) (m : Text) (files : Tree)
      → d.answers ≡ []
      → validate_site m ≡ true
      → lookup m d.sites ≡ some files
      → (sites : List Site) × ((list_sites mtime d).1 ≡ ok sites)
        × (any (λ s. s.name == m) sites ≡ true)
  unfolding list_sites
  list_sites-any d m files h v l =
      let same = call-Same d in
      let l' = ap (lookup m) same.sites ∙ l in
      (
        _,
        ap (λ (x : Disk × Result StoreError (List Site)). x.1)
            (next_ok (call d) _ tt (call-silent d h)),
        any-sort_by Site.name (λ s. s.name == m) _
            ∙ stat_all-any mtime (entry_names (call d).0) (call d).0 m files (same.silent h) v l'
                (entry_names-contains (call d).0 m files v l'),
      )
