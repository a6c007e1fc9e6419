-- ===== src/S3Store/Commit.antt =====
-- The writes of internal/s3store/s3store.go: a push writes a new archive and then the metadata that
-- names it; a deletion takes the metadata away first.
use crate_html.Prelude.{
  ℕ, ◌+◌, Bool, true, false, Option, none, some, List, [], ◌∷◌, map, Text, text_eq, ◌==◌,
  if◌then◌else◌, Result, ok, err, lookup, insert, delete, leb,
}
use crate_html.Name.{validate_site}
use crate_html.Sort.{sort_strings}
use crate_html.Wire.{Site, StoreError, invalid_name, not_found, unsafe_path, site_too_large, failed}
use crate_html.Cache.{put, drop_all}
use crate_html.MemFs.{UnpackError, Unpacked, unpack_tar}
use crate_html.Objects.{Objects, Put, stored, refused, unwritten, always}
use crate_html.S3Store.{
  SiteMeta, to_wire, Settings, Store, Formats, meta_key, version_key, site_prefix, find_meta,
  refresh,
}

-- The errors of unpackTar, as the HTTP layer tells them apart.
abbrev pub unpack_failed : UnpackError → StoreError
unpack_failed UnpackError.unsafe_path = unsafe_path
unpack_failed UnpackError.site_too_large = site_too_large
unpack_failed UnpackError.tar_read = failed
unpack_failed UnpackError.body_read = failed

-- `t := time.Now().UTC().Add(*expiry)`
abbrev pub deadline : Option ℕ → ℕ → Option ℕ
deadline none now = none
deadline (some d) now = some (now + d)

abbrev pub is_stored : Put → Bool
is_stored (stored tag) = true
is_stored refused = false
is_stored unwritten = false

module _ (O : Objects) (F : Formats) (c : Settings) where
  -- client.PutObject without a condition
  unfoldable pub put_always : Text → Text → O.Bucket → O.Bucket × Bool
  put_always key body b =
      let (b', answer) = O.put_object key always body b in (b', is_stored answer)

  unfoldable pub put_meta : SiteMeta → O.Bucket → O.Bucket × Bool
  unfolding put_always
  put_meta m b = elim (F.encode m) [
    | none ↦ (b, false)
    | some body ↦ put_always (meta_key c m.name) body b
  ]

  -- applyLocal and forgetLocal
  unfoldable pub apply_local : Text → SiteMeta → Store O.Bucket → Store O.Bucket
  apply_local name m s = record s { meta = insert name m s.meta }

  unfoldable pub forget_local : Text → Store O.Bucket → Store O.Bucket
  forget_local name s = record s { meta = delete name s.meta }

  -- The previous version, if lookup found one; its error is ignored.
  abbrev pub previous : Result StoreError (Option SiteMeta) → Option SiteMeta
  previous (err e) = none
  previous (ok m) = m

  -- Step 3: the archive that is no longer referenced is removed, if it can be.
  unfoldable pub sweep_previous : Option SiteMeta → SiteMeta → O.Bucket → O.Bucket
  sweep_previous none m b = b
  sweep_previous (some prev) m b =
      if prev.version == m.version
      then b
      else (O.remove_object (version_key c m.name prev.version) b).0

  -- Behind the commit.
  unfoldable pub finish_push :
      Unpacked
      → SiteMeta
      → Option SiteMeta
      → Store O.Bucket
      → Store O.Bucket × Result StoreError Site
  unfolding apply_local sweep_previous put to_wire
  finish_push u m prev s =
      let s' = apply_local m.name m s in
      (
        record s' {
          content = put s'.content m.name m.version u.fsys u.size_bytes;
          bucket = sweep_previous prev m s'.bucket;
        },
        ok (to_wire m),
      )

  -- Step 2: the commit, or the removal of the archive that nothing references.
  unfoldable pub commit :
      Unpacked
      → SiteMeta
      → Option SiteMeta
      → Store O.Bucket
      → Store O.Bucket × Result StoreError Site
  unfolding put_meta finish_push
  commit u m prev s =
      let (b, done) = put_meta m s.bucket in
      if done then finish_push u m prev (record s { bucket = b }) else (
        record s { bucket = (O.remove_object (version_key c m.name m.version) b).0 },
        err failed,
      )

  -- The metadata of a push.
  abbrev pub meta_of : Text → Text → Unpacked → Option ℕ → ℕ → SiteMeta
  meta_of name version u expiry now = record {
    name = name;
    version = version;
    file_count = u.file_count;
    size_bytes = u.size_bytes;
    updated_at = now;
    expires_at = deadline expiry now;
  }

  -- Step 1: the archive, under a key that nothing references.
  unfoldable pub push_archive :
      Text
      → Text
      → Unpacked
      → Option ℕ
      → ℕ
      → Text
      → Store O.Bucket
      → Store O.Bucket × Result StoreError Site
  unfolding put_always find_meta commit
  push_archive name archive u expiry now version s =
      let (b, done) = put_always (version_key c name version) archive s.bucket in
      if done
      then (let (s', prev) = find_meta O F c name now (record s { bucket = b }) in
          commit u (meta_of name version u expiry now) (previous prev) s')
      else (record s { bucket = b }, err failed)

  -- ReplaceFromTarWithExpiry; `version` is what newVersion gives, `none` for an error.
  unfoldable pub replace_site :
      Text
      → Text
      → Option ℕ
      → ℕ
      → Option Text
      → Store O.Bucket
      → Store O.Bucket × Result StoreError Site
  unfolding push_archive unpack_tar
  replace_site name archive expiry now version s =
      if validate_site name
      then elim (unpack_tar now c.max_site_bytes (F.read_tar archive)) [
        | err e ↦ (s, err (unpack_failed e))
        | ok u ↦ elim version [
          | none ↦ (s, err failed)
          | some v ↦ push_archive name archive u expiry now v s
        ]
      ]
      else (s, err invalid_name)

  -- The sweep of Delete: failures to remove are ignored.
  unfoldable pub remove_all : List Text → O.Bucket → O.Bucket
  remove_all [] b = b
  remove_all (key ∷ keys) b = remove_all keys (O.remove_object key b).0

  -- Delete behind the removal of the metadata.
  unfoldable pub sweep_site : Text → Store O.Bucket → Store O.Bucket × Result StoreError (Unit {0})
  unfolding forget_local remove_all drop_all
  sweep_site name s =
      let s' = forget_local name s in
      let (b, listing) = O.list_objects (site_prefix c name) s'.bucket in
      elim listing [
        | none ↦ (record s' { bucket = b; content = drop_all s'.content name }, err failed)
        | some keys ↦
            (record s' { bucket = remove_all keys b; content = drop_all s'.content name }, ok tt)
      ]

  -- Delete behind lookup.
  unfoldable pub delete_found :
      Text
      → Result StoreError (Option SiteMeta)
      → Store O.Bucket
      → Store O.Bucket × Result StoreError (Unit {0})
  unfolding sweep_site
  delete_found name (err e) s = (s, err e)
  delete_found name (ok none) s = (s, err not_found)
  delete_found name (ok (some m)) s =
      let (b, done) = O.remove_object (meta_key c name) s.bucket in
      if done
      then sweep_site name (record s { bucket = b })
      else (record s { bucket = b }, err failed)

  unfoldable pub delete_site :
      Text → ℕ → Store O.Bucket → Store O.Bucket × Result StoreError (Unit {0})
  unfolding find_meta delete_found
  delete_site name now s =
      if validate_site name
      then (let (s', answer) = find_meta O F c name now s in delete_found name answer s')
      else (s, err invalid_name)

  -- `m.ExpiresAt == nil || m.ExpiresAt.After(now)` is the other case.
  abbrev pub is_due : ℕ → Option SiteMeta → Bool
  is_due now none = false
  is_due now (some m) = elim m.expires_at [ none ↦ false | some t ↦ leb t now ]

  -- An error of Delete that ends the pass.
  abbrev pub ends_pass : Result StoreError (Unit {0}) → Bool
  ends_pass (ok _) = false
  ends_pass (err StoreError.not_found) = false
  ends_pass (err _) = true

  -- The loop of DeleteExpired over the sorted names, with the names deleted.
  unfoldable pub delete_due :
      ℕ → List (Text × SiteMeta) → List Text → Store O.Bucket → Store O.Bucket × (List Text × Bool)
  unfolding delete_site
  delete_due now snap [] s = (s, ([], false))
  delete_due now snap (name ∷ names) s = elim (is_due now (lookup name snap)) [
    | false ↦ delete_due now snap names s
    | true ↦
        let (s', answer) = delete_site name now s in
        elim (ends_pass answer) [
          | true ↦ (s', ([], true))
          | false ↦
              let (s'', (deleted, stopped)) = delete_due now snap names s' in
              (s'', (name ∷ deleted, stopped))
        ]
  ]

  unfoldable pub delete_expired : ℕ → Store O.Bucket → Store O.Bucket × (List Text × Bool)
  unfolding refresh delete_due sort_strings
  delete_expired now s =
      let (s', listing) = refresh O F c now s in
      elim listing [
        | none ↦ (s', ([], true))
        | some snap ↦
            delete_due now snap (sort_strings (map (λ (e : Text × SiteMeta). e.0) snap)) s'
      ]
