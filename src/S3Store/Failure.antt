-- ===== src/S3Store/Failure.antt =====
-- What a push to the bucket that fails leaves, at whatever step.
use crate_html.Prelude.{
  ℕ, ◌≡◌, refl, ◌∙◌, true, false, Option, none, some, Text, text_eq, ◌==◌, Result, ok, err, arith,
  Bool-cases, Option-cases, inl, inr, ◌⊎◌,
}
use crate_html.Name.{validate_site}
use crate_html.Wire.{StoreError}
use crate_html.MemFs.{UnpackError, Unpacked, unpack_tar}
use crate_html.Objects.{Objects, IsObjects}
use crate_html.S3Store.{SiteMeta, Settings, Store, Formats, meta_key, version_key, find_meta}
use crate_html.S3Store.Keys.{version_key-meta_key}
use crate_html.S3Store.Commit.{
  put_always, put_meta, previous, finish_push, commit, meta_of, push_archive, replace_site,
}
use crate_html.S3Store.Frame.{peek-find_meta, peek-put_always_whole, peek-put_always_other}

module _ (O : Objects) (F : Formats) (c : Settings) where
  -- The metadata object of a site is the one from before, or it is new and says what is given.
  abbrev pub IsOldOr : SiteMeta → O.Bucket → O.Bucket → Type 0
  IsOldOr m b b' =
      (O.peek (meta_key c m.name) b' ≡ O.peek (meta_key c m.name) b)
      ⊎ ((body tag : Text) × (F.encode m ≡ some body)
          × (O.peek (meta_key c m.name) b' ≡ some (body, tag)))

  -- Behind a push: every object is as it was, but for the archive under the version of the push and
  -- the metadata object of the site; and that one is as it was, or holds the metadata of the push.
  abbrev pub LeftBehind :
      Text → Text → Option ℕ → ℕ → Option Text → Store O.Bucket → Store O.Bucket → Type 0
  LeftBehind name archive expiry now version s s' =
      ((key : Text)
        → ((v : Text) → version ≡ some v → (version_key c name v == key) ≡ false)
        → (meta_key c name == key) ≡ false
        → O.peek key s'.bucket ≡ O.peek key s.bucket)
      × ((O.peek (meta_key c name) s'.bucket ≡ O.peek (meta_key c name) s.bucket)
          ⊎ ((v body tag : Text) × (u : Unpacked) × (version ≡ some v)
              × (unpack_tar now c.max_site_bytes (F.read_tar archive) ≡ ok u)
              × (F.encode (meta_of O F c name v u expiry now) ≡ some body)
              × (O.peek (meta_key c name) s'.bucket ≡ some (body, tag))))

  -- Between two buckets, only the archive of one push and its metadata differ.
  record Undone (m : SiteMeta) (b b' : O.Bucket) : Type 0 where
    others :
        (key : Text)
        → (version_key c m.name m.version == key) ≡ false
        → (meta_key c m.name == key) ≡ false
        → O.peek key b' ≡ O.peek key b
    own : IsOldOr m b b'

  module _ (L : IsObjects O) where
    put_meta-Undone : (m : SiteMeta) (b : O.Bucket) → Undone m b (put_meta O F c m b).0
    unfolding put_meta
    put_meta-Undone m b = elim (Option-cases (F.encode m)) [
      | inl bad ↦ rw (bad, put_meta) (record { others = λ key n o. refl; own = inl refl })
      | inr (body, good) ↦
          rw (good, put_meta)
            (record {
              others = λ key n o. peek-put_always_other O F c L (meta_key c m.name) key body b o;
              own = elim (peek-put_always_whole O F c L (meta_key c m.name) body b) [
                | inl same ↦ inl same
                | inr (tag, there) ↦ inr (body, tag, good, there)
              ];
            })
    ]

    -- The removal of the archive behind a commit that failed.
    removed-Undone :
        (m : SiteMeta) (b b' : O.Bucket)
        → Undone m b b'
        → Undone m b (O.remove_object (version_key c m.name m.version) b').0
    removed-Undone m b b' u =
        let key = version_key c m.name m.version in
        let same =
          L.remove-other key (meta_key c m.name) b'
            (version_key-meta_key c m.name m.version m.name) in
        record {
          others = λ j n o. L.remove-other key j b' n ∙ u.others j n o;
          own = elim u.own [
            | inl old ↦ inl (same ∙ old)
            | inr (body, tag, good, there) ↦ inr (body, tag, good, same ∙ there)
          ];
        }

    commit-Undone :
        (u : Unpacked) (m : SiteMeta) (prev : Option SiteMeta) (s : Store O.Bucket) (e : StoreError)
        → (commit O F c u m prev s).1 ≡ err e
        → Undone m s.bucket (commit O F c u m prev s).0.bucket
    unfolding commit finish_push
    commit-Undone u m prev s e h = elim (Bool-cases (put_meta O F c m s.bucket).1) [
      | inl done ↦ ground (arith, done)
      | inr stuck ↦
          rw (commit, stuck)
            (removed-Undone m s.bucket (put_meta O F c m s.bucket).0 (put_meta-Undone m s.bucket))
    ]

    -- What came before, where it touched no object but the archive.
    Undone-behind :
        (m : SiteMeta) (a b b' : O.Bucket)
        → ((key : Text)
            → (version_key c m.name m.version == key) ≡ false
            → O.peek key b ≡ O.peek key a)
        → Undone m b b'
        → Undone m a b'
    Undone-behind m a b b' f u = record {
      others = λ key n o. u.others key n o ∙ f key n;
      own = elim u.own [
        | inl old ↦
            inl (old ∙ f (meta_key c m.name) (version_key-meta_key c m.name m.version m.name))
        | inr new ↦ inr new
      ];
    }

    push_archive-Undone :
        (name archive : Text) (u : Unpacked) (expiry : Option ℕ) (now : ℕ) (v : Text)
        (s : Store O.Bucket) (e : StoreError)
        → (push_archive O F c name archive u expiry now v s).1 ≡ err e
        → Undone
            (meta_of O F c name v u expiry now)
            s.bucket
            (push_archive O F c name archive u expiry now v s).0.bucket
    unfolding push_archive
    push_archive-Undone name archive u expiry now v s e h =
        let key = version_key c name v in
        let m = meta_of O F c name v u expiry now in
        let b = (put_always O F c key archive s.bucket).0 in
        let found = find_meta O F c name now (record s { bucket = b }) in
        elim (Bool-cases (put_always O F c key archive s.bucket).1) [
          | inl done ↦
              rw (push_archive, done)
                (Undone-behind m s.bucket found.0.bucket
                  (commit O F c u m (previous O F c found.1) found.0).0.bucket
                  (λ j n.
                    peek-find_meta O F c L j name now (record s { bucket = b })
                    ∙ peek-put_always_other O F c L key j archive s.bucket n)
                  (commit-Undone u m (previous O F c found.1) found.0 e (ground (arith, done, h))))
          | inr stuck ↦
              rw (push_archive, stuck)
                (record {
                  others = λ j n o. peek-put_always_other O F c L key j archive s.bucket n;
                  own = inl (
                      peek-put_always_other O F c L key (meta_key c name) archive s.bucket
                        (version_key-meta_key c name v name));
                })
        ]

    -- On a server that keeps its laws, a push that is reported as failed leaves every object as it was,
    -- but for the archive under the version that it drew and the metadata object of its site; and that
    -- one is as it was too, or it holds the new metadata in full, for the commit may have been done
    -- although its answer was lost.
    pub peek-replace_site_err :
        (name archive : Text) (expiry : Option ℕ) (now : ℕ) (version : Option Text)
        (s : Store O.Bucket) (e : StoreError)
        → (replace_site O F c name archive expiry now version s).1 ≡ err e
        → LeftBehind name archive expiry now version s
            (replace_site O F c name archive expiry now version s).0
    unfolding replace_site
    peek-replace_site_err name archive expiry now version s e h =
        elim (Bool-cases (validate_site name)) [
          | inr bad ↦ rw (replace_site, bad) (λ key n o. refl, inl refl)
          | inl named ↦
              go named (unpack_tar now c.max_site_bytes (F.read_tar archive)) refl version h
        ]
      where
        go :
            validate_site name ≡ true
            → (o : Result UnpackError Unpacked)
            → unpack_tar now c.max_site_bytes (F.read_tar archive) ≡ o
            → (v : Option Text) → (replace_site O F c name archive expiry now v s).1 ≡ err e
            → LeftBehind name archive expiry now v s
                (replace_site O F c name archive expiry now v s).0
        go named (err x) k v l = rw (replace_site, named, k) (λ key n o. refl, inl refl)
        go named (ok u) k none l = rw (replace_site, named, k) (λ key n o. refl, inl refl)
        go named (ok u) k (some v) l =
            let r =
              push_archive-Undone name archive u expiry now v s e (ground (arith, named, k, l)) in
            rw (replace_site, named, k)
              (
                λ key n o. r.others key (n v refl) o,
                elim r.own [
                  | inl old ↦ inl old
                  | inr (body, tag, good, there) ↦ inr (v, body, tag, u, refl, refl, good, there)
                ],
              )
