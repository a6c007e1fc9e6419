-- ===== src/Disk/Reaper.antt =====
-- Store.DeleteExpired of internal/storage/storage.go.
use crate_html.Prelude.{
  ℕ, ◌≡◌, refl, ap, ◌∙◌, Bool, true, false, ◌&&◌, Option, none, some, List, [], ◌∷◌, ◌++◌, Text,
  text_eq, text_beq_iff, ◌==◌, Result, ok, err, arith, Bool-cases, inl, inr, lookup, All, any, leb,
  if◌then◌else◌,
}
use mathlib.Core.Path.{subst}
use crate_html.Name.{validate_site}
use crate_html.TarPath.{CleanPath}
use crate_html.Wire.{Site, StoreError}
use crate_html.Disk.{Tree, Disk}
use crate_html.Disk.Sites.{delete_site, is_due, counts, delete_due, list_sites, delete_expired}
use crate_html.Disk.Listing.{IsDated, list_sites-Same, list_sites-IsDated, list_sites-any}
use crate_html.Disk.Deletion.{delete_site-Deleted, delete_site-silent}

-- The site is in the list, with a deadline at or before the present.
abbrev pub is_listed_due : ℕ → Text → List Site → Bool
is_listed_due now m sites = any (λ s. s.name == m && is_due now s) sites

-- One round of the loop.
module _ (now : ℕ) (s : Site) (sites : List Site) (deleted : List Text) (d : Disk) where
  delete_due-later :
      is_due now s ≡ false → delete_due now (s ∷ sites) deleted d ≡ delete_due now sites deleted d
  unfolding delete_due
  delete_due-later h = rw (h, delete_due) refl

  delete_due-goes :
      is_due now s ≡ true
      → counts (delete_site s.name d).1 ≡ true
      → delete_due now (s ∷ sites) deleted d
        ≡ delete_due now sites (deleted ++ s.name ∷ []) (delete_site s.name d).0
  unfolding delete_due
  delete_due-goes h k = rw (h, delete_due, k) refl

  delete_due-ends :
      is_due now s ≡ true
      → counts (delete_site s.name d).1 ≡ false
      → delete_due now (s ∷ sites) deleted d ≡ ((delete_site s.name d).0, (deleted, true))
  unfolding delete_due
  delete_due-ends h k = rw (h, delete_due, k) refl

lookup-delete_due_other :
    (now : ℕ) (sites : List Site) (deleted : List Text) (d : Disk) (m : Text)
    → is_listed_due now m sites ≡ false
    → lookup m (delete_due now sites deleted d).0.sites ≡ lookup m d.sites
lookup-delete_due_other now [] deleted d m h = unfold delete_due in refl
lookup-delete_due_other now (s ∷ sites) deleted d m h = elim (Bool-cases (is_due now s)) [
  | inr later ↦
      rw (delete_due-later now s sites deleted d later)
        (lookup-delete_due_other now sites deleted d m (ground (arith, h)))
  | inl due ↦
      let r = delete_site s.name d in
      let o = (delete_site-Deleted s.name d).others m (ground (arith, h, due)) in
      elim (Bool-cases (counts r.1)) [
        | inl goes ↦ rw (delete_due-goes now s sites deleted d due goes) (
            lookup-delete_due_other now sites (deleted ++ s.name ∷ []) r.0 m (ground (arith, h))
            ∙ o)
        | inr ends ↦ rw (delete_due-ends now s sites deleted d due ends) o
      ]
]

abbrev pub AreGone : Disk → List Text → Type 0
AreGone d names = All (λ n. lookup n d.sites ≡ none) names

AreGone-mono :
    (d d' : Disk) (names : List Text)
    → ((m : Text) → lookup m d.sites ≡ none → lookup m d'.sites ≡ none)
    → AreGone d names
    → AreGone d' names
AreGone-mono d d' [] f h = tt
AreGone-mono d d' (n ∷ names) f h = (f n h.0, AreGone-mono d d' names f h.1)

AreGone-append :
    (d : Disk) (names : List Text) (n : Text)
    → AreGone d names
    → lookup n d.sites ≡ none
    → AreGone d (names ++ n ∷ [])
AreGone-append d [] n h k = (k, tt)
AreGone-append d (m ∷ names) n h k = (h.0, AreGone-append d names n h.1 k)

delete_due-AreGone :
    (now : ℕ) (sites : List Site) (deleted : List Text) (d : Disk)
    → AreGone d deleted
    → AreGone (delete_due now sites deleted d).0 (delete_due now sites deleted d).1.0
delete_due-AreGone now [] deleted d h = unfold delete_due in h
delete_due-AreGone now (s ∷ sites) deleted d h = elim (Bool-cases (is_due now s)) [
  | inr later ↦
      rw (delete_due-later now s sites deleted d later) (delete_due-AreGone now sites deleted d h)
  | inl due ↦
      let r = delete_site s.name d in
      let t = delete_site-Deleted s.name d in
      let still = AreGone-mono d r.0 deleted t.absent h in
      elim (Bool-cases (counts r.1)) [
        | inl goes ↦ rw (delete_due-goes now s sites deleted d due goes) (
            delete_due-AreGone now sites (deleted ++ s.name ∷ []) r.0
              (AreGone-append r.0 deleted s.name still (t.gone goes)))
        | inr ends ↦ rw (delete_due-ends now s sites deleted d due ends) still
      ]
]

-- A site that is gone does not come back.
lookup-delete_due_absent :
    (now : ℕ) (sites : List Site) (deleted : List Text) (d : Disk) (m : Text)
    → lookup m d.sites ≡ none
    → lookup m (delete_due now sites deleted d).0.sites ≡ none
lookup-delete_due_absent now [] deleted d m h = unfold delete_due in h
lookup-delete_due_absent now (s ∷ sites) deleted d m h = elim (Bool-cases (is_due now s)) [
  | inr later ↦
      rw (delete_due-later now s sites deleted d later)
        (lookup-delete_due_absent now sites deleted d m h)
  | inl due ↦
      let r = delete_site s.name d in
      let k = (delete_site-Deleted s.name d).absent m h in
      elim (Bool-cases (counts r.1)) [
        | inl goes ↦
            rw (delete_due-goes now s sites deleted d due goes)
              (lookup-delete_due_absent now sites (deleted ++ s.name ∷ []) r.0 m k)
        | inr ends ↦ rw (delete_due-ends now s sites deleted d due ends) k
      ]
]

-- Where no call fails, every site of the list that is due is removed, and the pass does not fail.
delete_due-silent :
    (now : ℕ) (sites : List Site) (deleted : List Text) (d : Disk) (m : Text)
    → d.answers ≡ []
    → All (λ s. validate_site s.name ≡ true) sites
    → (is_listed_due now m sites ≡ true → lookup m (delete_due now sites deleted d).0.sites ≡ none)
      × ((delete_due now sites deleted d).1.1 ≡ false)
delete_due-silent now [] deleted d m h v = (λ k. cc, unfold delete_due in refl)
delete_due-silent now (s ∷ sites) deleted d m h v = elim (Bool-cases (is_due now s)) [
  | inr later ↦
      let (gone, fine) = delete_due-silent now sites deleted d m h v.1 in
      rw (delete_due-later now s sites deleted d later) (λ k. gone (ground (arith, k, later)), fine)
  | inl due ↦
      let r = delete_site s.name d in
      let (goes, h') = delete_site-silent s.name d h v.0 in
      let (gone, fine) = delete_due-silent now sites (deleted ++ s.name ∷ []) r.0 m h' v.1 in
      rw (delete_due-goes now s sites deleted d due goes) (
        λ k. elim (Bool-cases (s.name == m)) [
          | inl same ↦ lookup-delete_due_absent now sites (deleted ++ s.name ∷ []) r.0 m (
              subst (λ (n : Text). lookup n r.0.sites ≡ none) ((text_beq_iff s.name m).0 same)
                ((delete_site-Deleted s.name d).gone goes))
          | inr other ↦ gone (ground (arith, k, other))
        ],
        fine,
      )
]

-- A deadline at or before the present.
abbrev pub due_at : ℕ → Option ℕ → Bool
due_at now none = false
due_at now (some t) = leb t now

is_due-due_at : (now : ℕ) (s : Site) → is_due now s ≡ due_at now s.expires_at
unfolding is_due
is_due-due_at now s = ground arith

module _ (mtime : Text → Option CleanPath → ℕ) (now : ℕ) (d : Disk) (m : Text) where
  -- What the list says of a site, against the deadline that is recorded for it.
  listed_due-due_at :
      (sites : List Site)
      → All (IsDated mtime d) sites
      → is_listed_due now m sites
        ≡ (any (λ s. s.name == m) sites && due_at now (lookup m d.deadlines))
  listed_due-due_at [] h = refl
  listed_due-due_at (s ∷ sites) h = elim (Bool-cases (s.name == m)) [
    | inl same ↦
        let e : is_due now s ≡ due_at now (lookup m d.deadlines) =
          is_due-due_at now s
          ∙ ap (due_at now)
              (h.0.0 ∙ ap (λ (n : Text). lookup n d.deadlines) ((text_beq_iff s.name m).0 same)) in
        ground (arith, e, same, listed_due-due_at sites h.1)
    | inr other ↦ ground (arith, other, listed_due-due_at sites h.1)
  ]

  All-valid :
      (sites : List Site)
      → All (IsDated mtime d) sites
      → All (λ s. validate_site s.name ≡ true) sites
  All-valid [] h = tt
  All-valid (s ∷ sites) h = (h.0.1, All-valid sites h.1)

  -- Whatever calls fail: a pass leaves every site alone that has no deadline, or one behind the
  -- present; and every site that it reports is gone.
  pub delete_expired-kept :
      due_at now (lookup m d.deadlines) ≡ false
      → (lookup m (delete_expired mtime now d).0.sites ≡ lookup m d.sites)
        × AreGone (delete_expired mtime now d).0 (delete_expired mtime now d).1.0
  unfolding delete_expired
  delete_expired-kept h = go (list_sites mtime d).1 refl
    where
      go :
          (o : Result StoreError (List Site))
          → (list_sites mtime d).1 ≡ o
          → (lookup m (delete_expired mtime now d).0.sites ≡ lookup m d.sites)
            × AreGone (delete_expired mtime now d).0 (delete_expired mtime now d).1.0
      go (err e) k = rw (k, delete_expired) (ap (lookup m) (list_sites-Same mtime d).sites, tt)
      go (ok sites) k =
          let s = listed_due-due_at sites (list_sites-IsDated mtime d sites k) in
          rw (k, delete_expired)
            (
              lookup-delete_due_other now sites [] (list_sites mtime d).0 m (ground (arith, s, h))
                  ∙ ap (lookup m) (list_sites-Same mtime d).sites,
              delete_due-AreGone now sites [] (list_sites mtime d).0 tt,
            )

  -- Where no call fails, a pass removes just the sites whose deadline is at or before the present,
  -- and does not fail.
  pub lookup-delete_expired :
      (files : Tree)
      → d.answers ≡ []
      → validate_site m ≡ true
      → lookup m d.sites ≡ some files
      → (lookup m (delete_expired mtime now d).0.sites
          ≡ (if due_at now (lookup m d.deadlines) then none else some files))
        × ((delete_expired mtime now d).1.1 ≡ false)
  unfolding delete_expired
  lookup-delete_expired files h v l =
      let (sites, k, found) = list_sites-any mtime d m files h v l in
      let dated = list_sites-IsDated mtime d sites k in
      let (gone, fine) =
        delete_due-silent now sites [] (list_sites mtime d).0 m ((list_sites-Same mtime d).silent h)
          (All-valid sites dated) in
      let s = listed_due-due_at sites dated in
      (
        elim (Bool-cases (due_at now (lookup m d.deadlines))) [
          | inl due ↦ rw (due, k, delete_expired) (gone (ground (arith, s, found, due)))
          | inr later ↦ rw later ((delete_expired-kept later).0 ∙ l)
        ],
        rw (k, delete_expired) fine,
      )
