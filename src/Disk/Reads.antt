-- ===== src/Disk/Reads.antt =====
-- What the listing of the disk store reports, and that it changes no site and no deadline.
use crate_html.Prelude.{
  ℕ, ◌≡◌, refl, sym, ap, ◌∙◌, true, Option, none, some, [], ◌∷◌, Text, text_eq, Result, ok, err,
  arith, Bool-cases, inl, inr, lookup,
}
use crate_html.Name.{validate_site}
use crate_html.TarPath.{CleanPath}
use crate_html.Wire.{Site, StoreError, failed, not_found}
use crate_html.Disk.{Tree, Disk, ask}
use crate_html.Disk.Sites.{
  M, next, call, path, look, read_expiry, Totals, walk_files, stat, add_file,
}

-- Nothing but the answers was used up.
pub record Same (d d' : Disk) : Type 0 where
  pub sites : d'.sites ≡ d.sites
  pub deadlines : d'.deadlines ≡ d.deadlines
  pub silent : d.answers ≡ [] → d'.answers ≡ []

pub Same-refl : (d : Disk) → Same d d
Same-refl d = record { sites = refl; deadlines = refl; silent = λ h. h }

pub Same-trans : (a b c : Disk) → Same a b → Same b c → Same a c
Same-trans a b c r s = record {
  sites = s.sites ∙ r.sites;
  deadlines = s.deadlines ∙ r.deadlines;
  silent = λ h. s.silent (r.silent h);
}

pub ask-Same : (d : Disk) → Same d (ask d).0
unfolding ask
ask-Same d = record {
  sites = ground arith;
  deadlines = ground arith;
  silent = λ h. ground (arith, h);
}

-- Where no call is going to fail, none does.
pub ask-silent : (d : Disk) → d.answers ≡ [] → (ask d).1 ≡ true
unfolding ask
ask-silent d h = ground (arith, h)

-- The rules for a chain of calls.
module _ {A B : Type 0} (r : Disk × Result StoreError A) (k : A → M B) where
  pub next-Same : (d : Disk) → Same d r.0 → ((a : A) → Same r.0 (k a r.0).0) → Same d (next r k).0
  next-Same d s f = go r.1 refl
    where
      go : (o : Result StoreError A) → r.1 ≡ o → Same d (next (r.0, o) k).0
      go (ok a) e = Same-trans d r.0 (k a r.0).0 s (f a)
      go (err e) h = s

  pub next-eq_ok : (b : B) → (next r k).1 ≡ ok b → (a : A) × (r.1 ≡ ok a) × ((k a r.0).1 ≡ ok b)
  next-eq_ok b h = go r.1 refl h
    where
      go :
          (o : Result StoreError A)
          → r.1 ≡ o
          → (next (r.0, o) k).1 ≡ ok b
          → (a : A) × (r.1 ≡ ok a) × ((k a r.0).1 ≡ ok b)
      go (ok a) e h = (a, e, h)
      go (err x) e h = cc

  pub next_ok : (a : A) → r.1 ≡ ok a → next r k ≡ k a r.0
  next_ok a h = ap (λ (o : Result StoreError A). next (r.0, o) k) h

  pub next_err : (e : StoreError) → r.1 ≡ err e → next r k ≡ (r.0, err e)
  next_err e h = ap (λ (o : Result StoreError A). next (r.0, o) k) h

pub call-Same : (d : Disk) → Same d (call d).0
unfolding call
call-Same d = ask-Same d

pub call-silent : (d : Disk) → d.answers ≡ [] → (call d).1 ≡ ok tt
unfolding call
call-silent d h = rw (ask-silent d h) refl

pub look-Same : (name : Text) (d : Disk) → Same d (look name d).0
unfolding look
look-Same name d = next-Same (call d) _ d (call-Same d) (λ _. Same-refl (call d).0)

pub look-silent :
    (name : Text) (d : Disk) (t : Tree)
    → d.answers ≡ []
    → lookup name d.sites ≡ some t
    → (look name d).1 ≡ ok t
unfolding look
look-silent name d t h k =
    ap (λ (x : Disk × Result StoreError Tree). x.1) (next_ok (call d) _ tt (call-silent d h))
    ∙ rw ((call-Same d).sites, k) refl

-- Where no call fails, the only error is that the site is not there.
pub look-err :
    (name : Text) (d : Disk) (e : StoreError)
    → d.answers ≡ []
    → (look name d).1 ≡ err e
    → e ≡ not_found
unfolding look
look-err name d e h k =
    let l =
      ap (λ (x : Disk × Result StoreError Tree). x.1)
        (sym (next_ok (call d) _ tt (call-silent d h)))
      ∙ k in
    ground (arith, l)

pub look-not_found :
    (name : Text) (d : Disk) → (look name d).1 ≡ err not_found → lookup name d.sites ≡ none
unfolding look
look-not_found name d h = elim (Bool-cases (ask d).1) [
  | inl done ↦
      let c : (call d).1 ≡ ok tt = unfold call in rw done refl in
      let k = ap (λ (x : Disk × Result StoreError Tree). x.1) (sym (next_ok (call d) _ tt c)) ∙ h in
      rw (sym (call-Same d).sites) (ground (arith, k))
  | inr stop ↦ let c : (call d).1 ≡ err failed = unfold call in rw stop refl in ground (arith, c, h)
]

path-Same : (name : Text) (d : Disk) → Same d (path name d).0
unfolding path
path-Same name d = Same-refl d

pub path-silent : (name : Text) (d : Disk) → validate_site name ≡ true → (path name d).1 ≡ ok tt
unfolding path
path-silent name d h = rw h refl

path-ok : (name : Text) (d : Disk) → (path name d).1 ≡ ok tt → validate_site name ≡ true
unfolding path
path-ok name d h = ground arith

read_expiry-Same : (name : Text) (d : Disk) → Same d (read_expiry name d).0
unfolding read_expiry
read_expiry-Same name d = next-Same (call d) _ d (call-Same d) (λ _. Same-refl (call d).0)

read_expiry-silent :
    (name : Text) (d : Disk)
    → d.answers ≡ []
    → (read_expiry name d).1 ≡ ok (lookup name (call d).0.deadlines)
unfolding read_expiry
read_expiry-silent name d h =
    ap (λ (x : Disk × Result StoreError (Option ℕ)). x.1) (next_ok (call d) _ tt (call-silent d h))

read_expiry-ok :
    (name : Text) (d : Disk) (o : Option ℕ)
    → (read_expiry name d).1 ≡ ok o
    → o ≡ lookup name d.deadlines
unfolding read_expiry
read_expiry-ok name d o h =
    let (a, e, k) = next-eq_ok (call d) _ o h in
    rw (sym (call-Same d).deadlines) (ground (arith, k))

module _ (mtime : Text → Option CleanPath → ℕ) where
  walk_files-Same :
      (name : Text) (files : Tree) (t : Totals) (d : Disk)
      → Same d (walk_files mtime name files t d).0
  unfolding walk_files
  walk_files-Same name [] t d = Same-refl d
  walk_files-Same name ((p, bytes) ∷ files) t d =
      next-Same (call d) _ d (call-Same d) (λ _. walk_files-Same name files _ (call d).0)

  walk_files-silent :
      (name : Text) (files : Tree) (t : Totals) (d : Disk)
      → d.answers ≡ []
      → (t' : Totals) × ((walk_files mtime name files t d).1 ≡ ok t')
  unfolding walk_files
  walk_files-silent name [] t d h = (t, refl)
  walk_files-silent name ((p, bytes) ∷ files) t d h =
      let (t', e) =
        walk_files-silent name files (add_file (mtime name (some p)) bytes t) (call d).0
          ((call-Same d).silent h) in
      (
        t',
        ap (λ (x : Disk × Result StoreError Totals). x.1) (next_ok (call d) _ tt (call-silent d h))
            ∙ e,
      )

  -- What Stat reports of a site: its name and the deadline that is recorded for it.
  pub record Reported (name : Text) (d : Disk) (s : Site) : Type 0 where
    pub named : s.name ≡ name
    pub dated : s.expires_at ≡ lookup name d.deadlines
    pub valid : validate_site name ≡ true

  abbrev start : Text → Totals
  start name = record { size = 0; count = 0; updated = mtime name none }

  pub stat-Same : (name : Text) (d : Disk) → Same d (stat mtime name d).0
  unfolding stat
  stat-Same name d = next-Same (path name d) _ d (path-Same name d) λ _.
      next-Same (look name d) _ d (look-Same name d) λ files.
        let d' = (look name d).0 in
        let w = walk_files mtime name files (start name) d' in
        next-Same w _ d' (walk_files-Same name files (start name) d') λ t.
          next-Same (read_expiry name w.0) _ w.0 (read_expiry-Same name w.0)
            λ o. Same-refl (read_expiry name w.0).0

  pub stat-Reported :
      (name : Text) (d : Disk) (s : Site) → (stat mtime name d).1 ≡ ok s → Reported name d s
  unfolding stat
  stat-Reported name d s h =
      let (_, v, h1) = next-eq_ok (path name d) _ s h in
      let (files, _, h2) = next-eq_ok (look name d) _ s h1 in
      let d' = (look name d).0 in
      let w = walk_files mtime name files (start name) d' in
      let (t, _, h3) = next-eq_ok w _ s h2 in
      let (o, e, h4) = next-eq_ok (read_expiry name w.0) _ s h3 in
      let same : w.0.deadlines ≡ d.deadlines =
        (walk_files-Same name files (start name) d').deadlines ∙ (look-Same name d).deadlines in
      record {
        named = ground (arith, h4);
        dated = sym (ground (arith, h4)) ∙ read_expiry-ok name w.0 o e ∙ ap (lookup name) same;
        valid = path-ok name d v;
      }

  pub stat-silent :
      (name : Text) (d : Disk) (files : Tree)
      → d.answers ≡ []
      → validate_site name ≡ true
      → lookup name d.sites ≡ some files
      → (s : Site) × ((stat mtime name d).1 ≡ ok s)
  unfolding stat
  stat-silent name d files h v l =
      let d' = (look name d).0 in
      let h' = (look-Same name d).silent h in
      let (t, e) = walk_files-silent name files (start name) d' h' in
      let w = walk_files mtime name files (start name) d' in
      let h'' = (walk_files-Same name files (start name) d').silent h' in
      (
        _,
        ap (λ (x : Disk × Result StoreError Site). x.1)
            (next_ok (path name d) _ tt (path-silent name d v)
              ∙ next_ok (look name d) _ files (look-silent name d files h l)
              ∙ next_ok w _ t e
              ∙ next_ok (read_expiry name w.0) _ _ (read_expiry-silent name w.0 h'')),
      )
