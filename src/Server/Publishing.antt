-- ===== src/Server/Publishing.antt =====
-- When a site is published: what an upload has gone through.
use crate_html.Prelude.{
  ℕ, suc, ◌<◌, ◌≡◌, ◌↔◌, refl, Bool, true, false, Option, none, some, [], ◌∷◌, Text, text_eq, leb,
  ℤ, pos, negsuc, arith, Bool-cases, inl, inr, Result, ok, err, length,
}
use crate_html.Name.{validate_site}
use crate_html.Token.Persistence.{Persistence}
use crate_html.Token.Store.{Codec}
use crate_html.Config.{Config, effective_public_url}
use crate_html.Wire.{Site, StoreError, Backend}
use crate_html.Server.{Audit, Upload, whole, broken, Request, World, stored, write_json}
use crate_html.Server.Expiry.{positive, parse_expiry}
use crate_html.Server.Handlers.{read_upload, site_url, store_site, stage_site, handle_put_site}

-- The lifetimes that the two parsers accept are positive.
positive-eq-ok : (d : Option ℤ) (n : ℕ) → positive d ≡ ok (some n) → (0 < n) × (d ≡ some (pos n))
unfolding positive
positive-eq-ok none n h = ground arith
positive-eq-ok (some (pos ℕ.zero)) n h = ground arith
positive-eq-ok (some (pos (suc k))) n h = ground arith
positive-eq-ok (some (negsuc k)) n h = ground arith

-- A size that http.MaxBytesReader lets through.
abbrev pub fits : ℤ → ℕ → Bool
fits (pos n) size = leb size n
fits (negsuc n) size = leb size 0

-- A body that was read fits the limit and is the whole body.
read_upload-eq-ok :
    (limit : ℤ) (body : Upload) (d : Text)
    → read_upload limit body ≡ ok d
    → (body ≡ whole d) × (fits limit (length d) ≡ true)
unfolding read_upload
read_upload-eq-ok (negsuc n) (whole []) d h = ground arith
read_upload-eq-ok (negsuc n) (whole (c ∷ e)) d h = ground arith
read_upload-eq-ok (negsuc n) (broken []) d h = ground arith
read_upload-eq-ok (negsuc n) (broken (c ∷ e)) d h = ground arith
read_upload-eq-ok (pos n) (whole e) d h = ground arith
read_upload-eq-ok (pos n) (broken e) d h = ground arith

read_upload-whole :
    (limit : ℤ) (d : Text) → fits limit (length d) ≡ true → read_upload limit (whole d) ≡ ok d
unfolding read_upload
read_upload-whole (negsuc n) [] h = refl
read_upload-whole (negsuc n) (c ∷ d) h = ground arith
read_upload-whole (pos n) d h = ground arith

module _ (C : Codec) (P : Persistence) (B : Backend) (parse_duration : Text → Option ℤ)
    (cfg : Config) where
  open P use {Medium}

  -- What a published site went through.
  pub record Published (name : Text) (r : Request) (w : World B.State Medium) : Type 0 where
    pub archive : Text
    pub expiry : Option ℕ
    pub site : Site
    pub named : validate_site name ≡ true
    pub lifetime : parse_expiry parse_duration r.expires ≡ ok expiry
    pub received : r.body ≡ whole archive
    pub bounded : fits cfg.max_upload_bytes (length archive) ≡ true
    pub replaced : (B.replace name archive expiry r.now w.sites).1 ≡ ok site

  store_site-ok :
      (name archive : Text) (expiry : Option ℕ) (r : Request) (w : World B.State Medium) (a : Audit)
      → (store_site C P B parse_duration cfg name archive expiry r w a).2.status ≡ 200
      → (site : Site) × ((B.replace name archive expiry r.now w.sites).1 ≡ ok site)
  unfolding store_site
  store_site-ok name archive expiry r w a h =
      go (B.replace name archive expiry r.now w.sites).1 refl h
    where
      go :
          (o : Result StoreError Site)
          → (B.replace name archive expiry r.now w.sites).1 ≡ o
          → (store_site C P B parse_duration cfg name archive expiry r w a).2.status ≡ 200
          → (site : Site) × ((B.replace name archive expiry r.now w.sites).1 ≡ ok site)
      go (ok site) e k = (site, e)
      go (err StoreError.invalid_name) e k = ground (arith, e)
      go (err StoreError.not_found) e k = ground (arith, e)
      go (err StoreError.unsafe_path) e k = ground (arith, e)
      go (err StoreError.site_too_large) e k = ground (arith, e)
      go (err StoreError.failed) e k = ground (arith, e)

  -- A site is published, with status 200, exactly when the name is valid, the lifetime parses, the
  -- whole body arrives within the limit, the staging file can be made and rewound, and the store
  -- replaces the site with that body and that lifetime.
  pub handle_put_site_iff :
      (name : Text) (r : Request) (w : World B.State Medium) (a : Audit)
      → ((handle_put_site C P B parse_duration cfg name r w a).2.status ≡ 200)
        ↔ (Published name r w × (r.can_stage ≡ true) × (r.can_rewind ≡ true))
  unfolding handle_put_site stage_site store_site
  handle_put_site_iff name r w a = (
    λ h. elim (Bool-cases (validate_site name)) [
      | inr bad ↦ ground (arith, bad)
      | inl named ↦ lifetimes h named (parse_expiry parse_duration r.expires) refl
    ],
    λ p. ground (
      arith,
      p.0.named,
      p.0.lifetime,
      p.0.received,
      p.0.replaced,
      p.1,
      p.2,
      read_upload-whole cfg.max_upload_bytes p.0.archive p.0.bounded,
    ),
  )
    where
      uploads :
          (handle_put_site C P B parse_duration cfg name r w a).2.status ≡ 200
          → validate_site name ≡ true
          → (expiry : Option ℕ) → parse_expiry parse_duration r.expires ≡ ok expiry
          → r.can_stage ≡ true
          → (u : Result Bool Text) → read_upload cfg.max_upload_bytes r.body ≡ u
          → Published name r w × (r.can_stage ≡ true) × (r.can_rewind ≡ true)
      uploads h named expiry e staged (err true) u = ground (arith, named, e, staged, u)
      uploads h named expiry e staged (err false) u = ground (arith, named, e, staged, u)
      uploads h named expiry e staged (ok d) u = elim (Bool-cases r.can_rewind) [
        | inr stuck ↦ ground (arith, named, e, staged, u, stuck)
        | inl can ↦
            let (site, done) =
              store_site-ok name d expiry r w a (ground (arith, named, e, staged, u, can)) in
            let (got, within) = read_upload-eq-ok cfg.max_upload_bytes r.body d u in
            (
              record {
                archive = d;
                expiry = expiry;
                site = site;
                named = named;
                lifetime = e;
                received = got;
                bounded = within;
                replaced = done;
              },
              staged,
              can,
            )
      ]

      lifetimes :
          (handle_put_site C P B parse_duration cfg name r w a).2.status ≡ 200
          → validate_site name ≡ true
          → (x : Result (Unit {0}) (Option ℕ)) → parse_expiry parse_duration r.expires ≡ x
          → Published name r w × (r.can_stage ≡ true) × (r.can_rewind ≡ true)
      lifetimes h named (err t) e = ground (arith, named, e)
      lifetimes h named (ok expiry) e = elim (Bool-cases r.can_stage) [
        | inr stuck ↦ ground (arith, named, e, stuck)
        | inl staged ↦
            uploads h named expiry e staged (read_upload cfg.max_upload_bytes r.body) refl
      ]

  -- What a site is published as: the answer of the store, under the public address.
  pub handle_put_site-Published :
      (name : Text) (r : Request) (w : World B.State Medium) (a : Audit) (p : Published name r w)
      → r.can_stage ≡ true
      → r.can_rewind ≡ true
      → (handle_put_site C P B parse_duration cfg name r w a).2
        ≡ write_json 200 (stored p.site (site_url (effective_public_url cfg) name))
  unfolding handle_put_site stage_site store_site
  handle_put_site-Published name r w a p staged can = ground (
    arith,
    p.named,
    p.lifetime,
    p.received,
    p.replaced,
    read_upload-whole cfg.max_upload_bytes p.archive p.bounded,
  )
