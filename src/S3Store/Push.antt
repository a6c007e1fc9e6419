-- ===== src/S3Store/Push.antt =====
-- A push to the bucket that succeeds: the metadata names an archive that is there.
use crate_html.Prelude.{
  ℕ, ◌≡◌, refl, ◌∙◌, true, false, Option, none, some, Text, text_eq, ◌==◌, Result, ok, err, arith,
  Bool-cases, Option-cases, inl, inr, lookup, lookup-insert, eq_refl,
}
use crate_html.Name.{validate_site}
use crate_html.Wire.{Site}
use crate_html.MemFs.{UnpackError, Unpacked, unpack_tar}
use crate_html.Objects.{Objects, IsObjects}
use crate_html.S3Store.{
  SiteMeta, to_wire, Settings, Store, Formats, meta_key, version_key, find_meta,
}
use crate_html.S3Store.Keys.{
  version_key-meta_key, meta_key-version_key, meta_key-ne, version_key-ne,
}
use crate_html.S3Store.Commit.{
  put_always, put_meta, apply_local, previous, sweep_previous, finish_push, commit, meta_of,
  push_archive, replace_site,
}
use crate_html.S3Store.Frame.{peek-find_meta, peek-put_always, peek-put_always_other}

module _ (O : Objects) (F : Formats) (c : Settings) where
  -- What a push that succeeds leaves in the bucket, and in the copy of the metadata in memory.
  pub record Pushed (name archive : Text) (site : Site) (s s' : Store O.Bucket) : Type 0 where
    pub meta : SiteMeta
    pub told : site ≡ to_wire meta
    pub named : meta.name ≡ name
    pub body : Text
    pub encoded : F.encode meta ≡ some body
    pub committed : (tag : Text) × (O.peek (meta_key c name) s'.bucket ≡ some (body, tag))
    pub archived :
        (tag : Text) × (O.peek (version_key c name meta.version) s'.bucket ≡ some (archive, tag))
    pub others :
        (other : Text)
        → (name == other) ≡ false
        → O.peek (meta_key c other) s'.bucket ≡ O.peek (meta_key c other) s.bucket
    pub known : lookup name s'.meta ≡ some meta

  module _ (L : IsObjects O) where
    sweep_previous-other :
        (prev : Option SiteMeta) (m : SiteMeta) (j : Text) (b : O.Bucket)
        → ((v : Text) → (v == m.version) ≡ false → (version_key c m.name v == j) ≡ false)
        → O.peek j (sweep_previous O F c prev m b) ≡ O.peek j b
    unfolding sweep_previous
    sweep_previous-other none m j b k = refl
    sweep_previous-other (some p) m j b k = elim (Bool-cases (p.version == m.version)) [
      | inl same ↦ ground (arith, same)
      | inr apart ↦
          ground
            (arith, apart, L.remove-other (version_key c m.name p.version) j b (k p.version apart))
    ]

    commit-Pushed :
        (archive tag : Text) (u : Unpacked) (m : SiteMeta) (prev : Option SiteMeta)
        (s : Store O.Bucket) (site : Site)
        → O.peek (version_key c m.name m.version) s.bucket ≡ some (archive, tag)
        → (commit O F c u m prev s).1 ≡ ok site
        → Pushed m.name archive site s (commit O F c u m prev s).0
    unfolding commit finish_push apply_local put_meta
    commit-Pushed archive tag u m prev s site there h = elim (Option-cases (F.encode m)) [
      | inl bad ↦ ground (arith, bad)
      | inr (body, good) ↦
          let b = (put_always O F c (meta_key c m.name) body s.bucket).0 in
          elim (Bool-cases (put_always O F c (meta_key c m.name) body s.bucket).1) [
            | inr stuck ↦ ground (arith, good, stuck)
            | inl done ↦
                let (t, put_there) =
                  peek-put_always O F c L (meta_key c m.name) body s.bucket done in
                record {
                  meta = m;
                  told = ground (arith, good, done);
                  named = refl;
                  body = body;
                  encoded = good;
                  committed = (
                    t,
                    ground (
                      arith,
                      good,
                      done,
                      put_there,
                      sweep_previous-other prev m (meta_key c m.name) b
                          (λ v n. version_key-meta_key c m.name v m.name),
                    ),
                  );
                  archived = (
                    tag,
                    ground (
                      arith,
                      good,
                      done,
                      there,
                      sweep_previous-other prev m (version_key c m.name m.version) b
                          (λ v n. version_key-ne c m.name v m.version n),
                      peek-put_always_other O F c L (meta_key c m.name)
                          (version_key c m.name m.version) body s.bucket
                          (meta_key-version_key c m.name m.version m.name),
                    ),
                  );
                  others = λ other n. ground (
                    arith,
                    good,
                    done,
                    sweep_previous-other prev m (meta_key c other) b
                        (λ v k. version_key-meta_key c m.name v other),
                    peek-put_always_other O F c L (meta_key c m.name) (meta_key c other) body
                        s.bucket (meta_key-ne c m.name other n),
                  );
                  known =
                      ground
                        (arith, good, done, lookup-insert m.name m.name m s.meta, eq_refl m.name);
                }
          ]
    ]

    push_archive-Pushed :
        (name archive : Text) (u : Unpacked) (expiry : Option ℕ) (now : ℕ) (v : Text)
        (s : Store O.Bucket) (site : Site)
        → (push_archive O F c name archive u expiry now v s).1 ≡ ok site
        → Pushed name archive site s (push_archive O F c name archive u expiry now v s).0
    unfolding push_archive
    push_archive-Pushed name archive u expiry now v s site h =
        let key = version_key c name v in
        let b = (put_always O F c key archive s.bucket).0 in
        let found = find_meta O F c name now (record s { bucket = b }) in
        let m = meta_of O F c name v u expiry now in
        elim (Bool-cases (put_always O F c key archive s.bucket).1) [
          | inr stuck ↦ ground (arith, stuck)
          | inl done ↦
              let (tag, there) = peek-put_always O F c L key archive s.bucket done in
              let p : Pushed name archive site found.0
                  (commit O F c u m (previous O F c found.1) found.0).0 =
                commit-Pushed archive tag u m (previous O F c found.1) found.0 site
                  (peek-find_meta O F c L key name now (record s { bucket = b }) ∙ there)
                  (ground (arith, done)) in
              rw done (record {
                meta = p.meta;
                told = p.told;
                named = p.named;
                body = p.body;
                encoded = p.encoded;
                committed = p.committed;
                archived = p.archived;
                others = λ other n.
                    p.others other n
                    ∙ peek-find_meta O F c L (meta_key c other) name now (record s { bucket = b })
                    ∙ peek-put_always_other O F c L key (meta_key c other) archive s.bucket
                        (version_key-meta_key c name v other);
                known = p.known;
              })
        ]

    -- On a server that keeps its laws, a push that succeeds ends with metadata in the bucket that
    -- names an archive in the bucket, which is the one that was sent, changes no other site's metadata
    -- object, and is known to this process at once.
    pub replace_site-Pushed :
        (name archive : Text) (expiry : Option ℕ) (now : ℕ) (version : Option Text)
        (s : Store O.Bucket) (site : Site)
        → (replace_site O F c name archive expiry now version s).1 ≡ ok site
        → Pushed name archive site s (replace_site O F c name archive expiry now version s).0
    unfolding replace_site
    replace_site-Pushed name archive expiry now version s site h =
        elim (Bool-cases (validate_site name)) [
          | inr bad ↦ ground (arith, bad)
          | inl named ↦
              go named (unpack_tar now c.max_site_bytes (F.read_tar archive)) refl version h
        ]
      where
        go :
            validate_site name ≡ true
            → (o : Result UnpackError Unpacked)
            → unpack_tar now c.max_site_bytes (F.read_tar archive) ≡ o
            → (v : Option Text) → (replace_site O F c name archive expiry now v s).1 ≡ ok site
            → Pushed name archive site s (replace_site O F c name archive expiry now v s).0
        go named (err x) k v l = ground (arith, named, k)
        go named (ok u) k none l = ground (arith, named, k)
        go named (ok u) k (some v) l =
            rw (replace_site, named, k)
              (push_archive-Pushed name archive u expiry now v s site (ground (arith, named, k)))
