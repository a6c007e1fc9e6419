-- ===== src/Daemon/Starting.antt =====
-- What a daemon that has started was given.
use crate_html.Prelude.{
  ok-injective, ◌≡◌, refl, sym, ap, ◌∙◌, ◌||◌, is_empty, true, Option, none, some, Text, ℤ, arith,
  Bool-cases, inl, inr, Result, ok, err, ◌>>=◌,
}
use crate_html.Token.Persistence.{Persistence}
use crate_html.Token.Store.{Store, Codec}
use crate_html.Config.{Config, ConfigCodec, ConfigFile, validate_storage}
use crate_html.Wire.{Backend}
use crate_html.Server.Surface.{Role}
use crate_html.Server.Surface.Cases.{is_web}
use crate_html.Daemon.{
  Outset, Daemon, StartError, storage, no_telemetry, bad_template, is_broker, need, or_error, found,
  open_tokens, new_server, boot_with, boot, load_config,
}

-- A chain that succeeds has a first step that does.
bind-eq-ok :
    {E A B : Type 0} (m : Result E A) (k : A → Result E B) (b : B)
    → (m >>= k) ≡ ok b
    → (a : A) × (m ≡ ok a) × (k a ≡ ok b)
bind-eq-ok (ok a) k b h = (a, refl, h)
bind-eq-ok (err e) k b h = cc

or_error-eq-ok :
    {E A : Type 0} (f : E → StartError) (r : Result E A) (a : A) → or_error f r ≡ ok a → r ≡ ok a
or_error-eq-ok f (ok b) a h = cc
or_error-eq-ok f (err e) a h = cc

found-eq-ok : {A : Type 0} (o : Option A) (a : A) → found o ≡ ok a → o ≡ some a
found-eq-ok none a h = cc
found-eq-ok (some b) a h = cc

module _ (C : Codec) (P : Persistence) (B : Backend) (Y : ConfigCodec)
    (parse_duration : Text → Option ℤ) (role : Role) (o : Outset B.State P.Medium B.Fs) where
  open P use {Medium}

  pub record Booted (d : Daemon B.State Medium B.Fs) : Type 0 where
    pub cfg : Config
    pub sites : B.State
    pub minted : Option (Store Medium)
    pub opened : o.store ≡ some sites
    pub loaded : open_tokens C P B Y parse_duration role o.medium ≡ ok minted
    pub served : d.world ≡ new_server C P B Y parse_duration role cfg sites minted

  boot_with-Booted :
      (cfg : Config) (d : Daemon B.State Medium B.Fs)
      → boot_with C P B Y parse_duration role o cfg ≡ ok d
      → Booted d
  unfolding boot_with
  boot_with-Booted cfg d h =
      let (u, a, h1) = bind-eq-ok (or_error storage (validate_storage parse_duration cfg)) _ d h in
      let (u, b, h2) = bind-eq-ok (need (is_web role || o.has_telemetry) no_telemetry) _ d h1 in
      let (st, c, h3) = bind-eq-ok (found o.store) _ d h2 in
      let (ts, t, h4) =
        bind-eq-ok (or_error StartError.tokens (open_tokens C P B Y parse_duration role o.medium)) _
          d h3 in
      let (u, e, h5) =
        bind-eq-ok
          (need (is_broker role || (is_empty cfg.index_template || o.has_template)) bad_template) _
          d h4 in
      record {
        cfg = cfg;
        sites = st;
        minted = ts;
        opened = found-eq-ok o.store st c;
        loaded = or_error-eq-ok _ _ ts t;
        served = sym (ap Daemon.world (ok-injective h5));
      }

  boot-boot_with :
      (f : ConfigFile)
      → o.has_paths ≡ true
      → (boot C P B Y parse_duration role o f).1 ≡ (
          or_error StartError.config (load_config C P B Y parse_duration role o.env o.raw f).1
          >>= λ cfg. boot_with C P B Y parse_duration role o cfg)
  unfolding boot
  boot-boot_with f h = rw (boot, h) refl

  pub boot-Booted :
      (f : ConfigFile) (d : Daemon B.State Medium B.Fs)
      → (boot C P B Y parse_duration role o f).1 ≡ ok d
      → Booted d
  unfolding boot
  boot-Booted f d h = elim (Bool-cases o.has_paths) [
    | inr without ↦ ground (arith, without)
    | inl paths ↦
        let (cfg, a, k) =
          bind-eq-ok
            (or_error StartError.config (load_config C P B Y parse_duration role o.env o.raw f).1) _
            d (sym (boot-boot_with f paths) ∙ h) in
        boot_with-Booted cfg d k
  ]
