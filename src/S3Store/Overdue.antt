-- ===== src/S3Store/Overdue.antt =====
-- A pass of DeleteExpired over the bucket reaches every site that is overdue, and takes its metadata
-- away.
use crate_html.Prelude.{
  ℕ, ◌≡◌, refl, ◌∙◌, true, false, Option, none, some, List, [], ◌∷◌, map, Text, text_eq,
  text_beq_iff, ◌==◌, arith, Bool-cases, Option-cases, inl, inr, lookup, contains, ◌<◌, ◌≤◌,
}
use mathlib.Core.Path.{subst}
use crate_html.Name.{validate_site}
use crate_html.Sort.{sort_strings}
use crate_html.Sort.Laws.{contains-sort_strings}
use crate_html.Objects.{Objects, IsObjects, ListsAll}
use crate_html.S3Store.{SiteMeta, Settings, Store, Formats, meta_key, refresh}
use crate_html.S3Store.Commit.{is_due, ends_pass, delete_site, delete_due, delete_expired}
use crate_html.S3Store.Collected.{contains-lookup, refresh-contains}
use crate_html.S3Store.Reaper.{IsStored, refresh-AreStored, is_due-over}
use crate_html.S3Store.Tracking.{Tracks, refresh-Tracks, delete_due-none, delete_site-Tracks}

module _ (O : Objects) (F : Formats) (c : Settings) where
  module _ (L : IsObjects O) where
    delete_due-removes :
        (now : ℕ) (snap : List (Text × SiteMeta)) (names : List Text) (s : Store O.Bucket)
        (n : Text)
        → Tracks O F c L now snap s
        → (delete_due O F c now snap names s).1.1 ≡ false
        → contains n names ≡ true
        → is_due O F c now (lookup n snap) ≡ true
        → (contains n (delete_due O F c now snap names s).1.0 ≡ true)
          × (O.peek (meta_key c n) (delete_due O F c now snap names s).0.bucket ≡ none)
    unfolding delete_due
    delete_due-removes now snap [] s n t f h d = cc
    delete_due-removes now snap (x ∷ names) s n t f h d =
        elim (Bool-cases (is_due O F c now (lookup x snap))) [
          | inr later ↦
              let other : (x == n) ≡ false = elim (Bool-cases (x == n)) [
                | inr apart ↦ apart
                | inl same ↦ ground (arith, later, d, text_beq_iff x n)
              ] in
              rw (delete_due, later)
                (delete_due-removes now snap names s n t (ground (arith, later, f))
                  (ground (arith, h, other)) d)
          | inl due ↦
              let s' = (delete_site O F c x now s).0 in
              elim (Bool-cases (ends_pass O F c (delete_site O F c x now s).1)) [
                | inl ends ↦ ground (arith, due, ends, f)
                | inr goes ↦
                    let (m, _, there, _, _) = is_due-over O F c now (lookup x snap) due in
                    let (gone, t') =
                      delete_site-Tracks O F c L x now snap s t (rw there refl) goes in
                    rw (delete_due, due, goes)
                      (elim (Bool-cases (x == n)) [
                        | inl same ↦ (
                          rw same refl,
                          delete_due-none O F c L now snap names s' n (
                              subst (λ (y : Text). O.peek (meta_key c y) s'.bucket ≡ none)
                                ((text_beq_iff x n).0 same) gone),
                        )
                        | inr other ↦
                            let (reported, removed) =
                              delete_due-removes now snap names s' n t'
                                (ground (arith, due, goes, f)) (ground (arith, h, other)) d in
                            (ground (arith, other, reported), removed)
                      ])
              ]
        ]

    -- On a server that keeps its laws and lists every key, and with a lifetime for the cached metadata:
    -- a pass that reports no failure reports every site whose metadata object, the only one that names
    -- it, has a deadline at or before the present, and takes that object away.
    pub delete_expired-removes :
        (W : ListsAll O) (now t : ℕ) (s : Store O.Bucket) (m : SiteMeta) (body tag : Text)
        → 0 < c.meta_ttl
        → validate_site m.name ≡ true
        → O.peek (meta_key c m.name) s.bucket ≡ some (body, tag)
        → F.decode body ≡ some m
        → ((m' : SiteMeta) → IsStored O F c s.bucket m' → m'.name ≡ m.name → m' ≡ m)
        → m.expires_at ≡ some t
        → t ≤ now
        → (delete_expired O F c now s).1.1 ≡ false
        → (contains m.name (delete_expired O F c now s).1.0 ≡ true)
          × (O.peek (meta_key c m.name) (delete_expired O F c now s).0.bucket ≡ none)
    unfolding delete_expired
    delete_expired-removes W now t s m body tag pos v p d only dated past f =
        go (refresh O F c now s).1 refl f
      where
        go :
            (o : Option (List (Text × SiteMeta)))
            → (refresh O F c now s).1 ≡ o
            → (delete_expired O F c now s).1.1 ≡ false
            → (contains m.name (delete_expired O F c now s).1.0 ≡ true)
              × (O.peek (meta_key c m.name) (delete_expired O F c now s).0.bucket ≡ none)
        go none e l = ground (arith, e, l)
        go (some snap) e l =
            let s' = (refresh O F c now s).0 in
            let known = refresh-contains O F c L W now s snap body tag m e p d v in
            let names = sort_strings (map (λ (x : Text × SiteMeta). x.0) snap) in
            elim (Option-cases (lookup m.name snap)) [
              | inl lost ↦ ground (arith, known, lost)
              | inr (m', there) ↦
                  let (from, named) = refresh-AreStored O F c L now s snap e m.name m' there in
                  let due : is_due O F c now (lookup m.name snap) ≡ true =
                    rw (there, only m' from named, dated) (ground (arith, past)) in
                  rw (delete_expired, e)
                    (delete_due-removes now snap names s' m.name
                      (refresh-Tracks O F c L now s snap pos e) (ground (arith, e, l))
                      (contains-sort_strings m.name (map (λ (x : Text × SiteMeta). x.0) snap)
                        ∙ contains-lookup m.name snap known)
                      due)
            ]
