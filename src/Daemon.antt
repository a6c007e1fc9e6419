-- ===== src/Daemon.antt =====
-- cmd/crated/main.go: how the daemon starts in each role, and what happens to its world from then on.
-- The answers of the outside are arguments: the directories, the telemetry, the store that openStore
-- opens, and the index template. The Backend and the Persistence are those that the configuration
-- chooses.
pub mod Starting
pub mod Tokens
pub mod Web
pub mod Unprivileged
use crate_html.Prelude.{
  ℕ, ◌≡◌, Bool, true, false, ◌||◌, ◌&&◌, not, Option, none, some, List, [], Text, is_empty, ℤ,
  if◌then◌else◌, Result, ok, err, ◌>>=◌,
}
use crate_html.Token.Persistence.{Persistence}
use crate_html.Token.Store.{Store, Codec, TokenError, load_from}
use crate_html.Config.{
  Config, ConfigCodec, ConfigFile, ConfigError, StorageError, Env, load_or_init, load_read_only,
  validate_storage,
}
use crate_html.Wire.{Backend}
use crate_html.Server.{Request, World}
use crate_html.Server.Handlers.{refresh_site_count, delete_expired}
use crate_html.Server.Public.{Builtin}
use crate_html.Server.Surface.{Role, all, web, broker, serve}
use crate_html.Server.Surface.Cases.{is_web}

abbrev pub is_broker : Role → Bool
is_broker broker = true
is_broker all = false
is_broker web = false

pub data StartError : Type 0 where
  no_paths no_telemetry no_store bad_template : StartError
  config : ConfigError → StartError
  storage : StorageError → StartError
  tokens : TokenError → StartError

-- What a start finds.
pub record Outset (S M F : Type 0) : Type 0 where
  pub has_paths : Bool
  pub env : Env
  pub raw : Option (List ℕ)
  pub has_telemetry : Bool
  pub store : Option S
  pub medium : M
  pub embedded : List (Builtin F)
  pub has_template : Bool

-- A daemon that runs.
pub record Daemon (S M F : Type 0) : Type 0 where
  pub cfg : Config
  pub world : World S M
  pub builtins : List (Builtin F)

-- An error of the outside.
abbrev pub need : Bool → StartError → Result StartError (Unit {0})
need true e = ok tt
need false e = err e

abbrev pub or_error {ℓ κ} :
    {E : Type ℓ} {A : Type κ} → (E → StartError) → Result E A → Result StartError A
or_error f (ok a) = ok a
or_error f (err e) = err (f e)

abbrev pub found : {A : Type 0} → Option A → Result StartError A
found none = err no_store
found (some a) = ok a

abbrev pub kept : {M : Type 0} → Result TokenError (Store M) → Result TokenError (Option (Store M))
kept (ok s) = ok (some s)
kept (err e) = err e

module _ (C : Codec) (P : Persistence) (B : Backend) (Y : ConfigCodec)
    (parse_duration : Text → Option ℤ) where
  open P use {Medium}

  -- The configuration of a role, and the file that it leaves.
  unfoldable pub load_config :
      Role → Env → Option (List ℕ) → ConfigFile → ConfigFile × Result ConfigError Config
  load_config web e raw f = (f, load_read_only Y e f)
  load_config all e raw f = load_or_init Y e raw f
  load_config broker e raw f = load_or_init Y e raw f

  -- token.LoadFrom, for the roles that have tokens.
  unfoldable pub open_tokens : Role → Medium → Result TokenError (Option (Store Medium))
  open_tokens web m = ok none
  open_tokens all m = kept (load_from C P m)
  open_tokens broker m = kept (load_from C P m)

  abbrev pub Started : Type 0
  Started = Daemon B.State Medium B.Fs

  -- server.NewReadOnly, or NewWithMetrics and the first count of the sites.
  unfoldable pub new_server : Role → Config → B.State → Option (Store Medium) → World B.State Medium
  unfolding refresh_site_count
  new_server role cfg st minted =
      let w : World B.State Medium = record { sites = st; tokens = minted; site_count = 0 } in
      if is_web role then w else refresh_site_count C P B parse_duration cfg w

  -- run behind the configuration, up to the listener.
  unfoldable pub boot_with : Role → Outset B.State Medium B.Fs → Config → Result StartError Started
  unfolding open_tokens new_server
  boot_with role o cfg = do
    ready ← or_error storage (validate_storage parse_duration cfg)
    ready ← need (is_web role || o.has_telemetry) no_telemetry
    st ← found o.store
    minted ← or_error tokens (open_tokens role o.medium)
    ready ← need (is_broker role || (is_empty cfg.index_template || o.has_template)) bad_template
    ok (record {
      cfg = cfg;
      world = new_server role cfg st minted;
      builtins = if is_broker role then [] else o.embedded;
    })

  -- run
  unfoldable pub boot :
      Role → Outset B.State Medium B.Fs → ConfigFile → ConfigFile × Result StartError Started
  unfolding load_config boot_with
  boot role o f =
      if o.has_paths
      then (let (f', answer) = load_config role o.env o.raw f in
          (f', or_error config answer >>= λ cfg. boot_with role o cfg))
      else (f, err no_paths)

  -- What a daemon does while it runs: requests and, in the roles of the broker, rounds of
  -- watchExpiries, in any order. The requests are those that are allowed.
  module _ (role : Role) (d : Started) (Allowed : Request → Type 0) where
    pub data Reaches (w : World B.State Medium) : World B.State Medium → Type 0 where
      here : Reaches w w
      request :
          {v : World B.State Medium} (method : Text) (segments : List Text) (r : Request)
          → Allowed r
          → Reaches w v
          → Reaches w (serve C P B parse_duration d.cfg d.builtins role method segments r v).0
      sweep :
          {v : World B.State Medium} (now : ℕ)
          → is_web role ≡ false
          → Reaches w v
          → Reaches w (delete_expired C P B parse_duration d.cfg now v).0
