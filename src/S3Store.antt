-- ===== src/S3Store.antt =====
-- internal/s3store/s3store.go: sites in a bucket. The mutexes make each method one step, and the
-- fetches of refresh, which run side by side, are done in the order of their results. The present
-- and the random version are arguments; JSON and the tar reader are parameters.
pub mod Keys
pub mod Commit
pub mod Frame
pub mod Failure
pub mod Push
pub mod Reaper
pub mod Collected
pub mod Tracking
pub mod Overdue
use crate_html.Prelude.{
  ℕ, ◌+◌, ◌-◌, Bool, true, false, ◌&&◌, ◌||◌, not, Option, none, some, List, [], ◌∷◌, ◌++◌, map,
  keep, Text, text_eq, ◌==◌, codes, if◌then◌else◌, Result, ok, err, lookup, insert, delete, leb,
  ltb, is_some,
}
use crate_html.Name.{validate_site}
use crate_html.Sort.{sort_by, sort_strings}
use crate_html.Wire.{Site, StoreError, invalid_name, not_found, unsafe_path, site_too_large, failed}
use crate_html.Cache.{Cache, get, put, drop_all}
use crate_html.MemFs.{MemFs, TarItem, UnpackError, Unpacked, unpack_tar}
use crate_html.Objects.{
  Objects, Fetch, fetched, absent, unreachable, Put, stored, refused, unwritten, always,
}

pub record SiteMeta : Type 0 where
  pub name : Text
  pub version : Text
  pub file_count : ℕ
  pub size_bytes : ℕ
  pub updated_at : ℕ
  pub expires_at : Option ℕ

unfoldable pub to_wire : SiteMeta → Site
to_wire m = record {
  name = m.name;
  updated_at = m.updated_at;
  size_bytes = m.size_bytes;
  file_count = m.file_count;
  expires_at = m.expires_at;
}

-- Store, and what does not change: the prefix, `maxSiteBytes` and `metaTTL`.
pub record Settings : Type 0 where
  pub prefix : Text
  pub max_site_bytes : ℕ
  pub meta_ttl : ℕ

pub record Store (B : Type 0) : Type 0 where
  pub bucket : B
  pub content : Cache MemFs
  pub meta : List (Text × SiteMeta)
  pub meta_at : ℕ
  pub meta_valid : Bool

-- encoding/json on metadata, and archive/tar.
pub record Formats : Type 0 where
  pub encode : SiteMeta → Option Text
  pub decode : Text → Option SiteMeta
  pub read_tar : Text → List TarItem

-- strings.HasSuffix
unfoldable pub has_suffix : Text → Text → Bool
has_suffix [] p = [] == p
has_suffix (c ∷ s) p = (c ∷ s) == p || has_suffix s p

-- metaPrefix, metaKey, sitePrefix and versionKey
abbrev pub meta_prefix : Settings → Text
meta_prefix c = c.prefix ++ codes "meta/"

abbrev pub meta_key : Settings → Text → Text
meta_key c name = c.prefix ++ (codes "meta/" ++ (name ++ codes ".json"))

abbrev pub site_prefix : Settings → Text → Text
site_prefix c name = c.prefix ++ (codes "sites/" ++ (name ++ codes "/"))

abbrev pub version_key : Settings → Text → Text → Text
version_key c name version =
    c.prefix ++ (codes "sites/" ++ (name ++ (codes "/" ++ (version ++ codes ".tar"))))

-- What getMeta gives: a metadata object, one that has vanished, or a failure.
pub data MetaAnswer : Type 0 where
  found : SiteMeta → MetaAnswer
  vanished : MetaAnswer
  unusable : MetaAnswer

-- The loop over the results of refresh.
unfoldable pub collect : List MetaAnswer → List (Text × SiteMeta) → Option (List (Text × SiteMeta))
collect [] next = some next
collect (found m ∷ results) next =
    collect results (if validate_site m.name then insert m.name m next else next)
collect (vanished ∷ results) next = collect results next
collect (unusable ∷ results) next = none

module _ (O : Objects) (F : Formats) (c : Settings) where
  abbrev pub decoded : Option SiteMeta → MetaAnswer
  decoded none = unusable
  decoded (some m) = found m

  abbrev pub meta_answer : Fetch → MetaAnswer
  meta_answer (fetched body tag) = decoded (F.decode body)
  meta_answer absent = vanished
  meta_answer unreachable = unusable

  unfoldable pub get_metas : List Text → O.Bucket → O.Bucket × List MetaAnswer
  get_metas [] b = (b, [])
  get_metas (key ∷ keys) b =
      let (b', answer) = O.get_object key b in
      let (b'', answers) = get_metas keys b' in (b'', meta_answer answer ∷ answers)

  abbrev pub refreshed :
      ℕ
      → Store O.Bucket
      → Option (List (Text × SiteMeta))
      → Store O.Bucket × Option (List (Text × SiteMeta))
  refreshed now s none = (s, none)
  refreshed now s (some next) =
      (record s { meta = next; meta_at = now; meta_valid = true }, some next)

  unfoldable pub refresh : ℕ → Store O.Bucket → Store O.Bucket × Option (List (Text × SiteMeta))
  unfolding get_metas collect has_suffix
  refresh now s =
      let (b, listing) = O.list_objects (meta_prefix c) s.bucket in
      elim listing [
        | none ↦ (record s { bucket = b }, none)
        | some keys ↦
            let (b', answers) =
              get_metas (keep (λ (k : Text). has_suffix k (codes ".json")) keys) b in
            refreshed now (record s { bucket = b' }) (collect answers [])
      ]

  abbrev pub is_fresh : ℕ → Store O.Bucket → Bool
  is_fresh now s = s.meta_valid && ltb (now - s.meta_at) c.meta_ttl

  unfoldable pub snapshot : ℕ → Store O.Bucket → Store O.Bucket × Option (List (Text × SiteMeta))
  unfolding refresh
  snapshot now s = if is_fresh now s then (s, some s.meta) else refresh now s

  -- lookup: `err` for a failure, then whether the site is there.
  unfoldable pub find_meta :
      Text → ℕ → Store O.Bucket → Store O.Bucket × Result StoreError (Option SiteMeta)
  unfolding snapshot
  find_meta name now s =
      let (s', snap) = snapshot now s in
      elim snap [ none ↦ (s', err failed) | some m ↦ (s', ok (lookup name m)) ]

  unfoldable pub list_sites : ℕ → Store O.Bucket → Store O.Bucket × Result StoreError (List Site)
  unfolding snapshot to_wire sort_by
  list_sites now s =
      let (s', snap) = snapshot now s in
      elim snap [
        | none ↦ (s', err failed)
        | some m ↦
            (s', ok (sort_by (λ (x : Site). x.name) (map (λ (e : Text × SiteMeta). to_wire e.1) m)))
      ]

  unfoldable pub site_names : ℕ → Store O.Bucket → Store O.Bucket × Result StoreError (List Text)
  unfolding snapshot sort_strings
  site_names now s =
      let (s', snap) = snapshot now s in
      elim snap [
        | none ↦ (s', err failed)
        | some m ↦ (s', ok (sort_strings (map (λ (e : Text × SiteMeta). e.0) m)))
      ]

  unfoldable pub exists : Text → ℕ → Store O.Bucket → Store O.Bucket × Result StoreError Bool
  unfolding find_meta
  exists name now s =
      if validate_site name
      then (let (s', answer) = find_meta name now s in
          elim answer [ err e ↦ (s', err e) | ok m ↦ (s', ok (is_some m)) ])
      else (s, err invalid_name)

  abbrev pub wired : Result StoreError (Option SiteMeta) → Result StoreError Site
  wired (err e) = err e
  wired (ok none) = err not_found
  wired (ok (some m)) = ok (to_wire m)

  unfoldable pub stat : Text → ℕ → Store O.Bucket → Store O.Bucket × Result StoreError Site
  unfolding find_meta to_wire
  stat name now s =
      if validate_site name
      then (let (s', answer) = find_meta name now s in (s', wired answer))
      else (s, err invalid_name)

  -- Open behind the fetch of the archive.
  unfoldable pub expand :
      Text → SiteMeta → ℕ → Fetch → Store O.Bucket → Store O.Bucket × Result StoreError MemFs
  unfolding unpack_tar put
  expand name m now absent s = (s, err not_found)
  expand name m now unreachable s = (s, err failed)
  expand name m now (fetched body tag) s =
      elim (unpack_tar now c.max_site_bytes (F.read_tar body)) [
        | err e ↦ (s, err failed)
        | ok u ↦
            (record s { content = put s.content name m.version u.fsys u.size_bytes }, ok u.fsys)
      ]

  -- Open behind lookup.
  unfoldable pub open_found :
      Text
      → ℕ
      → Result StoreError (Option SiteMeta)
      → Store O.Bucket
      → Store O.Bucket × Result StoreError MemFs
  unfolding expand get
  open_found name now (err e) s = (s, err e)
  open_found name now (ok none) s = (s, err not_found)
  open_found name now (ok (some m)) s =
      let (content, hit) = get s.content name m.version in
      elim hit [
        | some fsys ↦ (record s { content = content }, ok fsys)
        | none ↦
            let (b, answer) = O.get_object (version_key c name m.version) s.bucket in
            expand name m now answer (record s { bucket = b; content = content })
      ]

  unfoldable pub open_site : Text → ℕ → Store O.Bucket → Store O.Bucket × Result StoreError MemFs
  unfolding find_meta open_found
  open_site name now s =
      if validate_site name
      then (let (s', answer) = find_meta name now s in open_found name now answer s')
      else (s, err invalid_name)
