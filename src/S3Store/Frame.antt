-- ===== src/S3Store/Frame.antt =====
-- What the operations of the bucket store leave alone: reads change no object, and the writes of one
-- site touch no metadata object of another.
use crate_html.Prelude.{
  ℕ, ◌≡◌, refl, ◌∙◌, true, false, Option, none, some, List, [], ◌∷◌, keep, Text, text_eq, ◌==◌,
  codes, Result, ok, err, arith, Bool-cases, Option-cases, inl, inr, ◌⊎◌, All, has_prefix,
}
use crate_html.Wire.{StoreError}
use crate_html.Objects.{Objects, IsObjects, Put, stored, refused, unwritten, always}
use crate_html.S3Store.{
  SiteMeta, Settings, Store, Formats, meta_prefix, meta_key, site_prefix, collect, get_metas,
  has_suffix, refresh, snapshot, find_meta,
}
use crate_html.S3Store.Keys.{meta_key-ne, site_prefix-meta_key}
use crate_html.S3Store.Commit.{
  put_always, remove_all, forget_local, sweep_site, delete_found, delete_site,
}

module _ (O : Objects) (F : Formats) (c : Settings) (L : IsObjects O) where
  peek-get_metas :
      (j : Text) (keys : List Text) (b : O.Bucket)
      → O.peek j (get_metas O F c keys b).0 ≡ O.peek j b
  unfolding get_metas
  peek-get_metas j [] b = refl
  peek-get_metas j (k ∷ keys) b = peek-get_metas j keys (O.get_object k b).0 ∙ L.peek-get k j b

  pub peek-refresh :
      (j : Text) (now : ℕ) (s : Store O.Bucket)
      → O.peek j (refresh O F c now s).0.bucket ≡ O.peek j s.bucket
  unfolding refresh
  peek-refresh j now s = elim (Option-cases (O.list_objects (meta_prefix c) s.bucket).1) [
    | inl bad ↦ ground (arith, bad, L.peek-list_objects j (meta_prefix c) s.bucket)
    | inr (keys, listed) ↦
        let b = (O.list_objects (meta_prefix c) s.bucket).0 in
        let picked = keep (λ (k : Text). has_suffix k (codes ".json")) keys in
        elim (Option-cases (collect (get_metas O F c picked b).1 [])) [
          | inl broken ↦ ground (
            arith,
            listed,
            broken,
            peek-get_metas j picked b,
            L.peek-list_objects j (meta_prefix c) s.bucket,
          )
          | inr (next, whole) ↦ ground (
            arith,
            listed,
            whole,
            peek-get_metas j picked b,
            L.peek-list_objects j (meta_prefix c) s.bucket,
          )
        ]
  ]

  pub peek-find_meta :
      (j name : Text) (now : ℕ) (s : Store O.Bucket)
      → O.peek j (find_meta O F c name now s).0.bucket ≡ O.peek j s.bucket
  unfolding find_meta snapshot
  peek-find_meta j name now s = ground (arith, peek-refresh j now s)

  -- A write that is done puts the body there.
  pub peek-put_always :
      (k body : Text) (b : O.Bucket)
      → (put_always O F c k body b).1 ≡ true
      → (tag : Text) × (O.peek k (put_always O F c k body b).0 ≡ some (body, tag))
  unfolding put_always
  peek-put_always k body b = go (O.put_object k always body b).1 refl
    where
      go :
          (p : Put)
          → (O.put_object k always body b).1 ≡ p
          → (put_always O F c k body b).1 ≡ true
          → (tag : Text) × (O.peek k (put_always O F c k body b).0 ≡ some (body, tag))
      go (stored tag) e h = (tag, (L.put-stored k body tag always b e).0)
      go refused e h = ground (arith, e)
      go unwritten e h = ground (arith, e)

  -- Whatever it answers, it leaves the object as it was, or puts the body there.
  pub peek-put_always_whole :
      (k body : Text) (b : O.Bucket)
      → (O.peek k (put_always O F c k body b).0 ≡ O.peek k b)
        ⊎ ((tag : Text) × (O.peek k (put_always O F c k body b).0 ≡ some (body, tag)))
  unfolding put_always
  peek-put_always_whole k body b = elim (L.put-whole k body always b) [
    | inl same ↦ inl same
    | inr (tag, there, met) ↦ inr (tag, there)
  ]

  pub peek-put_always_other :
      (k j body : Text) (b : O.Bucket)
      → (k == j) ≡ false
      → O.peek j (put_always O F c k body b).0 ≡ O.peek j b
  unfolding put_always
  peek-put_always_other k j body b n = L.put-other k j body always b n

  peek-remove_all :
      (name other : Text) (keys : List Text) (b : O.Bucket)
      → All (λ (k : Text). has_prefix k (site_prefix c name) ≡ true) keys
      → O.peek (meta_key c other) (remove_all O F c keys b) ≡ O.peek (meta_key c other) b
  unfolding remove_all
  peek-remove_all name other [] b h = refl
  peek-remove_all name other (k ∷ keys) b h =
      peek-remove_all name other keys (O.remove_object k b).0 h.1
      ∙ L.remove-other k (meta_key c other) b (site_prefix-meta_key c k name other h.0)

  pub peek-sweep_site :
      (name other : Text) (s : Store O.Bucket)
      → O.peek (meta_key c other) (sweep_site O F c name s).0.bucket
        ≡ O.peek (meta_key c other) s.bucket
  unfolding sweep_site forget_local
  peek-sweep_site name other s =
      elim (Option-cases (O.list_objects (site_prefix c name) s.bucket).1) [
        | inl bad ↦
            ground
              (arith, bad, L.peek-list_objects (meta_key c other) (site_prefix c name) s.bucket)
        | inr (keys, listed) ↦
            let b = (O.list_objects (site_prefix c name) s.bucket).0 in
            ground (
              arith,
              listed,
              L.peek-list_objects (meta_key c other) (site_prefix c name) s.bucket,
              peek-remove_all name other keys b
                  (L.list_objects-prefixed (site_prefix c name) s.bucket keys listed),
            )
      ]

  peek-delete_found :
      (name other : Text) (answer : Result StoreError (Option SiteMeta)) (s : Store O.Bucket)
      → (name == other) ≡ false
      → O.peek (meta_key c other) (delete_found O F c name answer s).0.bucket
        ≡ O.peek (meta_key c other) s.bucket
  unfolding delete_found
  peek-delete_found name other (err e) s n = refl
  peek-delete_found name other (ok none) s n = refl
  peek-delete_found name other (ok (some m)) s n =
      let b = (O.remove_object (meta_key c name) s.bucket).0 in
      elim (Bool-cases (O.remove_object (meta_key c name) s.bucket).1) [
        | inl done ↦ ground (
          arith,
          done,
          peek-sweep_site name other (record s { bucket = b }),
          L.remove-other (meta_key c name) (meta_key c other) s.bucket (meta_key-ne c name other n),
        )
        | inr stuck ↦ ground (
          arith,
          stuck,
          L.remove-other (meta_key c name) (meta_key c other) s.bucket (meta_key-ne c name other n),
        )
      ]

  -- Deleting a site touches no other site's metadata.
  pub peek-delete_site :
      (name other : Text) (now : ℕ) (s : Store O.Bucket)
      → (name == other) ≡ false
      → O.peek (meta_key c other) (delete_site O F c name now s).0.bucket
        ≡ O.peek (meta_key c other) s.bucket
  unfolding delete_site
  peek-delete_site name other now s n = ground (
    arith,
    peek-find_meta (meta_key c other) name now s,
    peek-delete_found name other (find_meta O F c name now s).1 (find_meta O F c name now s).0 n,
  )
