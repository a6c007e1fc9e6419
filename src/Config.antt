-- ===== src/Config.antt =====
-- internal/config/config.go: the configuration and its sources, which are the file, the defaults and
-- the environment. The file is the text that a read finds, `none` where there is none. YAML (a
-- third-party package) and time.ParseDuration are parameters.
pub mod Laws
use crate_html.Prelude.{
  ℕ, Bool, true, false, ◌||◌, Option, none, some, List, [], ◌∷◌, ◌++◌, Text, text_eq, ◌==◌, codes,
  if◌then◌else◌, Result, ok, err, is_empty, ℤ, pos, negsuc, is_nonpos, is_zero, format_int,
  parse_int64,
}
use crate_html.Token.{hex}

pub record S3Config : Type 0 where
  pub endpoint : Text
  pub bucket : Text
  pub region : Text
  pub access_key : Text
  pub secret_key : Text
  pub prefix : Text
  pub cache_bytes : ℤ
  pub meta_ttl : Text

pub record Config : Type 0 where
  pub base_url : Text
  pub api_url : Text
  pub public_url : Text
  pub listen_addr : Text
  pub port : ℤ
  pub token : Text
  pub max_upload_bytes : ℤ
  pub index_template : Text
  pub storage_backend : Text
  pub s3 : S3Config

-- The zero values.
abbrev pub zero_config : Config
zero_config = record {
  base_url = [];
  api_url = [];
  public_url = [];
  listen_addr = [];
  port = pos 0;
  token = [];
  max_upload_bytes = pos 0;
  index_template = [];
  storage_backend = [];
  s3 = record {
    endpoint = [];
    bucket = [];
    region = [];
    access_key = [];
    secret_key = [];
    prefix = [];
    cache_bytes = pos 0;
    meta_ttl = [];
  };
}

-- The variables that override fields, as os.Getenv gives them: the empty text if one is not set.
pub record Env : Type 0 where
  pub listen_addr : Text
  pub base_url : Text
  pub api_url : Text
  pub public_url : Text
  pub token : Text
  pub index_template : Text
  pub storage_backend : Text
  pub s3_endpoint : Text
  pub s3_bucket : Text
  pub s3_region : Text
  pub s3_access_key : Text
  pub s3_secret_key : Text
  pub s3_prefix : Text
  pub s3_cache_bytes : Text
  pub s3_meta_ttl : Text

abbrev pub default_port : ℤ
default_port = pos 7777

-- 100 << 20
abbrev pub default_max_upload_bytes : ℤ
default_max_upload_bytes = pos 104857600

abbrev pub token_bytes : ℕ
token_bytes = 32

abbrev pub backend_local : Text
backend_local = codes "local"

abbrev pub backend_s3 : Text
backend_s3 = codes "s3"

-- `if v != "" { field = v }`
abbrev pub or_else : Text → Text → Text
or_else v field = if is_empty v then field else v

-- EffectiveAPIURL and EffectivePublicURL
unfoldable pub effective_api_url : Config → Text
effective_api_url c = or_else c.api_url c.base_url

unfoldable pub effective_public_url : Config → Text
effective_public_url c = or_else c.public_url c.base_url

unfoldable pub apply_defaults : Config → Config
unfolding format_int
apply_defaults c =
    let port = if is_zero c.port then default_port else c.port in
    record c {
      port = port;
      listen_addr = or_else c.listen_addr (codes "127.0.0.1:" ++ format_int port);
      base_url = or_else c.base_url (codes "http://localhost:" ++ format_int port);
      max_upload_bytes =
          if is_nonpos c.max_upload_bytes then default_max_upload_bytes else c.max_upload_bytes;
      storage_backend = or_else c.storage_backend backend_local;
    }

-- A value that does not parse is ignored.
abbrev pub int_or_else : Option ℤ → ℤ → ℤ
int_or_else none field = field
int_or_else (some n) field = n

unfoldable pub apply_env : Env → Config → Config
unfolding parse_int64
apply_env e c = record c {
  listen_addr = or_else e.listen_addr c.listen_addr;
  base_url = or_else e.base_url c.base_url;
  api_url = or_else e.api_url c.api_url;
  public_url = or_else e.public_url c.public_url;
  token = or_else e.token c.token;
  index_template = or_else e.index_template c.index_template;
  storage_backend = or_else e.storage_backend c.storage_backend;
  s3 = record c.s3 {
    endpoint = or_else e.s3_endpoint c.s3.endpoint;
    bucket = or_else e.s3_bucket c.s3.bucket;
    region = or_else e.s3_region c.s3.region;
    access_key = or_else e.s3_access_key c.s3.access_key;
    secret_key = or_else e.s3_secret_key c.s3.secret_key;
    prefix = or_else e.s3_prefix c.s3.prefix;
    cache_bytes =
        if is_empty e.s3_cache_bytes
        then c.s3.cache_bytes
        else int_or_else (parse_int64 e.s3_cache_bytes) c.s3.cache_bytes;
    meta_ttl = or_else e.s3_meta_ttl c.s3.meta_ttl;
  };
}

pub data ConfigError : Type 0 where
  random_failed read_failed parse_failed save_failed : ConfigError

pub data StorageError : Type 0 where
  missing_s3 : Bool → Bool → StorageError
  bad_meta_ttl : StorageError
  unknown_backend : StorageError

-- defaultConfig, where `raw` is what rand.Read gave generateToken.
unfoldable pub default_config : Option (List ℕ) → Result ConfigError Config
unfolding apply_defaults
default_config none = err random_failed
default_config (some raw) =
    ok (apply_defaults (record zero_config { port = default_port; token = hex raw }))

-- yaml.Marshal and yaml.Unmarshal of a Config, the latter into the zero value.
pub record ConfigCodec : Type 0 where
  pub marshal : Config → Option Text
  pub unmarshal : Text → Option Config

-- The config file and the answers of the file system: whether it can be read, and written.
pub record ConfigFile : Type 0 where
  pub text : Option Text
  pub readable : Bool
  pub writable : Bool

module _ (Y : ConfigCodec) where
  -- Save
  unfoldable pub save_config : Config → ConfigFile → ConfigFile × Bool
  save_config c f = elim (Y.marshal c) [
    | none ↦ (f, false)
    | some out ↦ if f.writable then (record f { text = some out }, true) else (f, false)
  ]

  -- The branch of LoadOrInit for a file that does not exist.
  unfoldable pub init_config :
      Env → Result ConfigError Config → ConfigFile → ConfigFile × Result ConfigError Config
  unfolding save_config apply_env
  init_config e (err x) f = (f, err x)
  init_config e (ok c) f =
      let (f', saved) = save_config c f in
      if saved then (f', ok (apply_env e c)) else (f', err save_failed)

  abbrev pub parsed : Env → Option Config → Result ConfigError Config
  parsed e none = err parse_failed
  parsed e (some c) = ok (apply_env e (apply_defaults c))

  unfoldable pub load_or_init :
      Env → Option (List ℕ) → ConfigFile → ConfigFile × Result ConfigError Config
  unfolding init_config
  load_or_init e raw f = elim f.text [
    | none ↦ init_config e (default_config raw) f
    | some d ↦ (f, if f.readable then parsed e (Y.unmarshal d) else err read_failed)
  ]

  abbrev pub without_token : Result ConfigError Config → Result ConfigError Config
  without_token (err x) = err x
  without_token (ok c) = ok (record c { token = [] })

  unfoldable pub load_read_only : Env → ConfigFile → Result ConfigError Config
  load_read_only e f = elim f.text [
    | none ↦ without_token (ok (apply_env e (apply_defaults zero_config)))
    | some d ↦ if f.readable then without_token (parsed e (Y.unmarshal d)) else err read_failed
  ]

module _ (parse_duration : Text → Option ℤ) where
  -- MetaTTLDuration: the empty text is zero.
  unfoldable pub meta_ttl_duration : S3Config → Option ℤ
  meta_ttl_duration c = if is_empty c.meta_ttl then some (pos 0) else parse_duration c.meta_ttl

  unfoldable pub validate_storage : Config → Result StorageError (Unit {0})
  unfolding meta_ttl_duration
  validate_storage c =
      if c.storage_backend == backend_local
      then ok tt
      else if c.storage_backend == backend_s3
      then (if is_empty c.s3.endpoint || is_empty c.s3.bucket
          then err (missing_s3 (is_empty c.s3.endpoint) (is_empty c.s3.bucket))
          else elim (meta_ttl_duration c.s3) [ none ↦ err bad_meta_ttl | some d ↦ ok tt ])
      else err unknown_backend
