-- ===== src/S3Store/Tracking.antt =====
-- The cached map of a store while DeleteExpired runs: what is missing there is gone from the bucket.
use crate_html.Prelude.{
  ℕ, ◌≡◌, refl, sym, ap, ◌∙◌, true, false, Option, none, some, List, [], ◌∷◌, keep, Text, text_eq,
  text_beq_iff, ◌==◌, codes, Result, ok, err, arith, Bool-cases, inl, inr, ◌⊎◌, lookup, delete,
  lookup-delete, is_some, ◌<◌,
}
use mathlib.Core.Path.{subst}
use crate_html.Name.{validate_site}
use crate_html.Wire.{StoreError}
use crate_html.Objects.{Objects, IsObjects}
use crate_html.S3Store.{
  SiteMeta, Settings, Store, Formats, meta_key, meta_prefix, refresh, collect, get_metas,
  has_suffix, is_fresh, find_meta, snapshot, site_prefix,
}
use crate_html.S3Store.Commit.{
  is_due, ends_pass, forget_local, sweep_site, delete_found, delete_site, delete_due,
}
use crate_html.S3Store.Keys.{meta_key-ne}
use crate_html.S3Store.Frame.{peek-delete_site, peek-sweep_site, peek-find_meta}

module _ (O : Objects) (F : Formats) (c : Settings) where
  snapshot-fresh :
      (now : ℕ) (s : Store O.Bucket)
      → is_fresh O F c now s ≡ true
      → snapshot O F c now s ≡ (s, some s.meta)
  unfolding snapshot
  snapshot-fresh now s h = rw (snapshot, h) refl

  find_meta-fresh :
      (name : Text) (now : ℕ) (s : Store O.Bucket)
      → is_fresh O F c now s ≡ true
      → find_meta O F c name now s ≡ (s, ok (lookup name s.meta))
  unfolding find_meta
  find_meta-fresh name now s h =
      let e = snapshot-fresh now s h in
      rw (find_meta, e)
        (ap
          (λ (x : Store O.Bucket × Option (List (Text × SiteMeta))). (x.0, ok (lookup name s.meta)))
          e)

  -- What a sweep does to the cached map.
  record Swept (name : Text) (s s' : Store O.Bucket) : Type 0 where
    map_left : s'.meta ≡ delete name s.meta
    time_left : s'.meta_at ≡ s.meta_at
    valid_left : s'.meta_valid ≡ s.meta_valid

  sweep_site-Swept : (name : Text) (s : Store O.Bucket) → Swept name s (sweep_site O F c name s).0
  unfolding sweep_site forget_local
  sweep_site-Swept name s = go (O.list_objects (site_prefix c name) s.bucket).1 refl
    where
      go :
          (o : Option (List Text))
          → (O.list_objects (site_prefix c name) s.bucket).1 ≡ o
          → Swept name s (sweep_site O F c name s).0
      go none e =
          rw (sweep_site, forget_local, e)
            (record { map_left = refl; time_left = refl; valid_left = refl })
      go (some keys) e =
          rw (sweep_site, forget_local, e)
            (record { map_left = refl; time_left = refl; valid_left = refl })

  module _ (L : IsObjects O) where
    -- The cached map of a pass against the map that it read: what is missing is gone from the bucket.
    pub record Tracks (now : ℕ) (snap : List (Text × SiteMeta)) (s : Store O.Bucket) : Type 0 where
      fresh : is_fresh O F c now s ≡ true
      seen :
          (n : Text) → (lookup n s.meta ≡ lookup n snap) ⊎ (O.peek (meta_key c n) s.bucket ≡ none)

    pub refresh-Tracks :
        (now : ℕ) (s : Store O.Bucket) (snap : List (Text × SiteMeta))
        → 0 < c.meta_ttl
        → (refresh O F c now s).1 ≡ some snap
        → Tracks now snap (refresh O F c now s).0
    unfolding refresh
    refresh-Tracks now s snap pos h = go (O.list_objects (meta_prefix c) s.bucket).1 refl h
      where
        go :
            (o : Option (List Text))
            → (O.list_objects (meta_prefix c) s.bucket).1 ≡ o
            → (refresh O F c now s).1 ≡ some snap
            → Tracks now snap (refresh O F c now s).0
        go none e l = ground (arith, e, l)
        go (some keys) e l =
            let b = (O.list_objects (meta_prefix c) s.bucket).0 in
            let picked = keep (λ (k : Text). has_suffix k (codes ".json")) keys in
            let whole : collect (get_metas O F c picked b).1 [] ≡ some snap =
              ground (arith, e, l) in
            rw (refresh, e, whole) (record { fresh = ground (arith, pos); seen = λ n. inl refl })

    -- What is gone stays gone.
    delete_found-none :
        (name : Text) (answer : Result StoreError (Option SiteMeta)) (s : Store O.Bucket)
        → O.peek (meta_key c name) s.bucket ≡ none
        → O.peek (meta_key c name) (delete_found O F c name answer s).0.bucket ≡ none
    unfolding delete_found
    delete_found-none name (err e) s h = h
    delete_found-none name (ok none) s h = h
    delete_found-none name (ok (some m)) s h =
        let key = meta_key c name in
        let b = (O.remove_object key s.bucket).0 in
        let gone : O.peek key b ≡ none = elim (L.remove-whole key s.bucket) [
          | inl same ↦ same ∙ h
          | inr removed ↦ removed
        ] in
        elim (Bool-cases (O.remove_object key s.bucket).1) [
          | inl done ↦
              rw (delete_found, done)
                (peek-sweep_site O F c L name name (record s { bucket = b }) ∙ gone)
          | inr stuck ↦ rw (delete_found, stuck) gone
        ]

    delete_site-none :
        (name n : Text) (now : ℕ) (s : Store O.Bucket)
        → O.peek (meta_key c n) s.bucket ≡ none
        → O.peek (meta_key c n) (delete_site O F c name now s).0.bucket ≡ none
    unfolding delete_site
    delete_site-none name n now s h = elim (Bool-cases (name == n)) [
      | inr other ↦ peek-delete_site O F c L name n now s other ∙ h
      | inl same ↦ elim (Bool-cases (validate_site name)) [
        | inr bad ↦ rw (delete_site, bad) h
        | inl good ↦
            let e = (text_beq_iff name n).0 same in
            let r = find_meta O F c name now s in
            rw (delete_site, good)
              (subst
                (λ (x : Text).
                  O.peek (meta_key c x) (delete_found O F c name r.1 r.0).0.bucket ≡ none)
                e
                (delete_found-none name r.1 r.0 (
                  peek-find_meta O F c L (meta_key c name) name now s
                  ∙ ap (λ (x : Text). O.peek (meta_key c x) s.bucket) e
                  ∙ h)))
      ]
    ]

    pub delete_due-none :
        (now : ℕ) (snap : List (Text × SiteMeta)) (names : List Text) (s : Store O.Bucket)
        (n : Text)
        → O.peek (meta_key c n) s.bucket ≡ none
        → O.peek (meta_key c n) (delete_due O F c now snap names s).0.bucket ≡ none
    unfolding delete_due
    delete_due-none now snap [] s n h = h
    delete_due-none now snap (x ∷ names) s n h =
        elim (Bool-cases (is_due O F c now (lookup x snap))) [
          | inr later ↦ rw (delete_due, later) (delete_due-none now snap names s n h)
          | inl due ↦
              let still = delete_site-none x n now s h in
              elim (Bool-cases (ends_pass O F c (delete_site O F c x now s).1)) [
                | inl ends ↦ rw (delete_due, due, ends) still
                | inr goes ↦
                    rw (delete_due, due, goes)
                      (delete_due-none now snap names (delete_site O F c x now s).0 n still)
              ]
        ]

    -- Deleting a site of the map that the pass read, where it does not end the pass.
    pub delete_site-Tracks :
        (name : Text) (now : ℕ) (snap : List (Text × SiteMeta)) (s : Store O.Bucket)
        → Tracks now snap s
        → is_some (lookup name snap) ≡ true
        → ends_pass O F c (delete_site O F c name now s).1 ≡ false
        → (O.peek (meta_key c name) (delete_site O F c name now s).0.bucket ≡ none)
          × Tracks now snap (delete_site O F c name now s).0
    unfolding delete_site delete_found
    delete_site-Tracks name now snap s t k h = elim (Bool-cases (validate_site name)) [
      | inr bad ↦ ground (arith, bad, h)
      | inl good ↦
          let e = find_meta-fresh name now s t.fresh in
          let r : delete_site O F c name now s
              ≡ delete_found O F c name (ok (lookup name s.meta)) s =
            rw (delete_site, good)
              (ap
                (λ (x : Store O.Bucket × Result StoreError (Option SiteMeta)).
                  delete_found O F c name x.1 x.0)
                e) in
          rw r (go (lookup name s.meta) refl (ground (arith, sym r, h)))
    ]
      where
        key : Text
        key = meta_key c name

        go :
            (o : Option SiteMeta)
            → lookup name s.meta ≡ o
            → ends_pass O F c (delete_found O F c name (ok o) s).1 ≡ false
            → (O.peek key (delete_found O F c name (ok o) s).0.bucket ≡ none)
              × Tracks now snap (delete_found O F c name (ok o) s).0
        go none e l =
            (elim (t.seen name) [ inl same ↦ ground (arith, same, e, k) | inr gone ↦ gone ], t)
        go (some m) e l = elim (Bool-cases (O.remove_object key s.bucket).1) [
          | inr stuck ↦ ground (arith, stuck, l)
          | inl done ↦
              let s1 : Store O.Bucket = record s { bucket = (O.remove_object key s.bucket).0 } in
              let w = sweep_site-Swept name s1 in
              let gone : O.peek key (sweep_site O F c name s1).0.bucket ≡ none =
                peek-sweep_site O F c L name name s1 ∙ L.remove-removed key s.bucket done in
              rw (delete_found, done)
                (
                  gone,
                  record {
                    fresh = ground (arith, t.fresh, w.time_left, w.valid_left);
                    seen = λ n. elim (Bool-cases (name == n)) [
                      | inl same ↦ inr (
                          subst
                            (λ (x : Text).
                              O.peek (meta_key c x) (sweep_site O F c name s1).0.bucket ≡ none)
                            ((text_beq_iff name n).0 same) gone)
                      | inr other ↦ elim (t.seen n) [
                        | inl same ↦ inl (
                            ap (lookup n) w.map_left
                            ∙ ground (arith, lookup-delete name n s.meta, other, same))
                        | inr none_n ↦ inr (
                            peek-sweep_site O F c L name n s1
                            ∙ L.remove-other key (meta_key c n) s.bucket
                                (meta_key-ne c name n other)
                            ∙ none_n)
                      ]
                    ];
                  },
                )
        ]
