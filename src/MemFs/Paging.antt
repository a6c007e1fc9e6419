-- ===== src/MemFs/Paging.antt =====
-- Reading an open directory of internal/s3store/memfs.go page by page.
use crate_html.Prelude.{
  ℕ, zero, suc, ◌+◌, ◌-◌, ◌*◌, ◌≤◌, ◌<◌, ◌⊎◌, le→leb_false, le→leb, ◌≡◌, refl, none, some, List, [],
  ◌∷◌, ◌++◌, pos, length, take, arith, true, ap, sym, ◌∙◌, Option, leb, Bool-cases, inl, inr,
}
use crate_html.MemFs.Open.{MemInfo, MemDir, read_some, read_entries, drop, min}

abbrev and_then :
    (MemDir → List MemInfo × MemDir) → MemDir × Option (List MemInfo) → List MemInfo × MemDir
and_then rest (d, none) = ([], d)
and_then rest (d, some es) = (es ++ (rest d).0, (rest d).1)

-- What so many calls of ReadDir with the same count give together, up to the first io.EOF.
abbrev pub pages : ℕ → ℕ → MemDir → List MemInfo × MemDir
pages zero n d = ([], d)
pages (suc k) n d = and_then (pages k n) (read_entries (pos n) d)

drop_all {ℓ} : {A : Type ℓ} (n : ℕ) (xs : List A) → length xs ≤ n → drop n xs ≡ []
drop_all zero [] h = refl
drop_all zero (x ∷ xs) h = elim h [ ]
drop_all (suc n) [] h = refl
drop_all (suc n) (x ∷ xs) h = drop_all n xs (omega arith)

-- A page, and what comes behind it.
take-append-drop {ℓ} :
    {A : Type ℓ} (a k : ℕ) (xs : List A) → take k (drop a xs) ++ drop (a + k) xs ≡ drop a xs
take-append-drop zero zero xs = refl
take-append-drop zero (suc k) [] = let e : 0 + suc k ≡ suc k = omega arith in rw e refl
take-append-drop zero (suc k) (x ∷ xs) =
    let e : 0 + suc k ≡ suc k = omega arith in
    let z : 0 + k ≡ k = omega arith in rw e (ap (◌∷◌ x) (rw z at (take-append-drop zero k xs)))
take-append-drop (suc a) zero [] = let e : suc a + 0 ≡ suc a = omega arith in rw e refl
take-append-drop (suc a) (suc k) [] =
    let e : suc a + suc k ≡ suc (a + suc k) = omega arith in rw e refl
take-append-drop (suc a) k (x ∷ xs) =
    let e : suc a + k ≡ suc (a + k) = omega arith in rw e (take-append-drop a k xs)

-- One call inside the directory: a page that is not empty, in front of what is left.
record Page (n : ℕ) (d d' : MemDir) (es : List MemInfo) : Type 0 where
  same : d'.entries ≡ d.entries
  split : es ++ drop d'.off d'.entries ≡ drop d.off d.entries
  grown : (length d'.entries ≤ d'.off) ⊎ (d'.off ≡ d.off + n)

read_some-Page :
    (n : ℕ) (d : MemDir)
    → d.off < length d.entries
    → (d' : MemDir) × (es : List MemInfo) × (read_some n d ≡ (d', some es)) × Page n d d' es
unfolding read_some
read_some-Page n d h =
    let end = min (d.off + n) (length d.entries) in
    let below : d.off ≤ end = ground arith in
    let e : d.off + (end - d.off) ≡ end = omega (arith, below) in
    (
      record d { off = end },
      take (end - d.off) (drop d.off d.entries),
      rw (le→leb_false (length d.entries) d.off h) refl,
      record {
        same = refl;
        split = rw e at (take-append-drop d.off (end - d.off) d.entries);
        grown = elim (Bool-cases (leb (d.off + n) (length d.entries))) [
          | inl fits ↦ inr (rw fits refl)
          | inr last ↦ inl (rw last (omega arith))
        ];
      },
    )

-- What the pages add up to, and where they end.
record Read (d d' : MemDir) (es : List MemInfo) : Type 0 where
  same : d'.entries ≡ d.entries
  got : es ≡ drop d.off d.entries
  over : length d'.entries ≤ d'.off

Read-over : (d : MemDir) → length d.entries ≤ d.off → Read d d []
Read-over d h = record { same = refl; got = sym (drop_all d.off d.entries h); over = h }

Read-page :
    (n : ℕ) (d d' d'' : MemDir) (es more : List MemInfo)
    → Page n d d' es
    → Read d' d'' more
    → Read d d'' (es ++ more)
Read-page n d d' d'' es more p r = record {
  same = r.same ∙ p.same;
  got = rw r.got p.split;
  over = r.over;
}

read_entries-over :
    (n : ℕ) (d : MemDir)
    → leb (length d.entries) d.off ≡ true
    → read_entries (pos (suc n)) d ≡ (d, none)
unfolding read_entries
read_entries-over n d h = rw h refl

read_entries-some : (n : ℕ) (d : MemDir) → read_entries (pos (suc n)) d ≡ read_some (suc n) d
unfolding read_entries
read_entries-some n d = refl

pages-Read :
    (k n : ℕ) (d : MemDir)
    → length d.entries ≤ d.off + k * suc n
    → Read d (pages k (suc n) d).1 (pages k (suc n) d).0
pages-Read zero n d h = Read-over d (grind arith)
pages-Read (suc k) n d h = elim (Bool-cases (leb (length d.entries) d.off)) [
  | inl end ↦ rw (read_entries-over n d end) (Read-over d (ground arith))
  | inr more ↦
      let (d', es, e, p) = read_some-Page (suc n) d (ground arith) in
      rw (read_entries-some n d, e)
        (Read-page (suc n) d d' (pages k (suc n) d').1 es (pages k (suc n) d').0 p (
          pages-Read k n d' (elim p.grown [
            | inl end ↦ omega (arith, end)
            | inr on ↦ grind (arith, on, ap (λ (l : List MemInfo). length l) p.same, h)
          ])))
]

-- A directory that is read from its start with a positive count, page by page, ends: once there are
-- as many calls as the entries need, the pages together are all the entries in order, and the next
-- call is answered by io.EOF.
pub read_entries-pages :
    (k n : ℕ) (d : MemDir)
    → d.off ≡ 0
    → length d.entries ≤ k * suc n
    → ((pages k (suc n) d).0 ≡ d.entries)
      × ((read_entries (pos (suc n)) (pages k (suc n) d).1).1 ≡ none)
read_entries-pages k n d h f =
    let r = pages-Read k n d (omega (arith, f)) in
    (
      r.got ∙ ap (λ (o : ℕ). drop o d.entries) h,
      ap (λ (x : MemDir × Option (List MemInfo)). x.1)
          (read_entries-over n (pages k (suc n) d).1 (le→leb _ _ r.over)),
    )
