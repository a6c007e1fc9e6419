-- ===== src/Tests/Configs.antt =====
-- Configurations in a small document format, through a first start and the ones behind it.
use crate_html.Prelude.{
  ℕ, zero, suc, ◌≡◌, refl, ◌↔◌, ◌⊎◌, false, true, ◌||◌, is_some, Option, none, some, List, [], ◌∷◌,
  Text, text_eq, text_beq, codes, arith, is_empty, ok, ℤ, pos, negsuc, digits, format_nat,
  format_int, parse_digits, parse_nat, signed_int64, parse_int64,
}
use crate_html.Tests.Yaml.{◌>>=◌, put_text, get_text, split_at, split_at-append}
use crate_html.Token.{hex, hex_digit}
use crate_html.Config.{
  Config, zero_config, Env, backend_local, backend_s3, apply_defaults, apply_env, default_config,
  ConfigCodec, ConfigFile, save_config, init_config, load_or_init, load_read_only, without_token,
  meta_ttl_duration, validate_storage,
}
use crate_html.Config.Laws
use crate_html.Config.Laws.{IsConfigCodec}

abbrev put_int : ℤ → Text → Text
put_int (pos n) rest = 0 ∷ n ∷ rest
put_int (negsuc n) rest = 1 ∷ n ∷ rest

get_int : Text → Option (ℤ × Text)
get_int [] = none
get_int (k ∷ []) = none
get_int (zero ∷ n ∷ s) = some (pos n, s)
get_int (suc k ∷ n ∷ s) = some (negsuc n, s)

put_config : Config → Text
put_config c = put_int c.port (
    put_int c.max_upload_bytes (
      put_int c.s3.cache_bytes (
        put_text c.base_url (
          put_text c.api_url (
            put_text c.public_url (
              put_text c.listen_addr (
                put_text c.token (
                  put_text c.index_template (
                    put_text c.storage_backend (
                      put_text c.s3.endpoint (
                        put_text c.s3.bucket (
                          put_text c.s3.region (
                            put_text c.s3.access_key (
                              put_text c.s3.secret_key
                                (put_text c.s3.prefix (put_text c.s3.meta_ttl []))))))))))))))))

get_config : Text → Option Config
unfolding get_text get_int
get_config s = do
  (port, s) ← get_int s
  (max_upload_bytes, s) ← get_int s
  (cache_bytes, s) ← get_int s
  (base_url, s) ← get_text s
  (api_url, s) ← get_text s
  (public_url, s) ← get_text s
  (listen_addr, s) ← get_text s
  (token, s) ← get_text s
  (index_template, s) ← get_text s
  (storage_backend, s) ← get_text s
  (endpoint, s) ← get_text s
  (bucket, s) ← get_text s
  (region, s) ← get_text s
  (access_key, s) ← get_text s
  (secret_key, s) ← get_text s
  (prefix, s) ← get_text s
  (meta_ttl, s) ← get_text s
  some (record {
    base_url = base_url;
    api_url = api_url;
    public_url = public_url;
    listen_addr = listen_addr;
    port = port;
    token = token;
    max_upload_bytes = max_upload_bytes;
    index_template = index_template;
    storage_backend = storage_backend;
    s3 = record {
      endpoint = endpoint;
      bucket = bucket;
      region = region;
      access_key = access_key;
      secret_key = secret_key;
      prefix = prefix;
      cache_bytes = cache_bytes;
      meta_ttl = meta_ttl;
    };
  })

get_int-put_int : (n : ℤ) (rest : Text) → get_int (put_int n rest) ≡ some (n, rest)
unfolding get_int
get_int-put_int (pos n) rest = refl
get_int-put_int (negsuc n) rest = refl

get_config-put_config : (c : Config) → get_config (put_config c) ≡ some c
unfolding get_config put_config
get_config-put_config c = rw (get_int-put_int c.port) (
    rw (get_int-put_int c.max_upload_bytes)
      (rw (get_int-put_int c.s3.cache_bytes) (simp (split_at-append) refl)))

unfoldable pub toy_config : ConfigCodec
unfolding put_config get_config split_at
toy_config = record { marshal = λ c. some (put_config c); unmarshal = get_config }

toy_back : (c : Config) (d : Text) → toy_config.marshal c ≡ some d → toy_config.unmarshal d ≡ some c
unfolding toy_config
toy_back c d h = ground (arith, get_config-put_config c)

toy_config-IsConfigCodec : IsConfigCodec toy_config
toy_config-IsConfigCodec = record { unmarshal-marshal = toy_back }

program : Unit {0}
unfolding text_beq digits format_nat format_int parse_digits parse_nat signed_int64 parse_int64 hex
    hex_digit apply_defaults apply_env default_config save_config init_config load_or_init
    load_read_only meta_ttl_duration validate_storage toy_config put_config get_config get_text
    get_int split_at
program = tt

-- A first start, with an address from the environment.
abbrev pub env : Env
env = record {
  listen_addr = codes "0.0.0.0:80";
  base_url = [];
  api_url = [];
  public_url = codes "https://pages.example/";
  token = [];
  index_template = [];
  storage_backend = [];
  s3_endpoint = [];
  s3_bucket = [];
  s3_region = [];
  s3_access_key = [];
  s3_secret_key = [];
  s3_prefix = [];
  s3_cache_bytes = codes "-1";
  s3_meta_ttl = [];
}

abbrev pub new_file : ConfigFile
new_file = record { text = none; readable = true; writable = true }

abbrev pub raw : Option (List ℕ)
raw = some (0xab ∷ 0xcd ∷ [])

abbrev pub started : Config
started = record zero_config {
  base_url = codes "http://localhost:7777";
  public_url = codes "https://pages.example/";
  listen_addr = codes "0.0.0.0:80";
  port = pos 7777;
  token = codes "abcd";
  max_upload_bytes = pos 104857600;
  storage_backend = codes "local";
  s3 = record zero_config.s3 { cache_bytes = negsuc 0 };
}

starts : (load_or_init toy_config env raw new_file).1 ≡ ok started
unfolding program
starts = refl

load_or_init_again_example :
    load_or_init toy_config env none (load_or_init toy_config env raw new_file).0
    ≡ ((load_or_init toy_config env raw new_file).0, ok started)
load_or_init_again_example =
    Laws.load_or_init_again toy_config toy_config-IsConfigCodec env raw none new_file started refl
      starts

abbrev old_file : ConfigFile
old_file = (load_or_init toy_config env raw new_file).0

load_read_only_lem_example :
    ((c : Config) → load_read_only toy_config env old_file ≡ ok c → c.token ≡ [])
    × ((d : Text)
        → old_file.text ≡ some d
        → load_read_only toy_config env old_file
          ≡ without_token toy_config (load_or_init toy_config env raw old_file).1)
load_read_only_lem_example = Laws.load_read_only_lem toy_config env raw old_file

read_only : load_read_only toy_config env old_file ≡ ok (record started { token = [] })
unfolding program
read_only = refl

pub no_durations : Text → Option ℤ
no_durations s = none

abbrev on_s3 : Config
on_s3 = record started {
  storage_backend = codes "s3";
  s3 = record started.s3 { endpoint = codes "localhost:9000"; bucket = codes "sites" };
}

validate_storage_iff_example : (validate_storage no_durations on_s3 ≡ ok tt) ↔ (
    (on_s3.storage_backend ≡ backend_local)
    ⊎ ((on_s3.storage_backend ≡ backend_s3)
        × (is_empty on_s3.s3.endpoint ≡ false)
        × (is_empty on_s3.s3.bucket ≡ false)
        × ((is_empty on_s3.s3.meta_ttl || is_some (no_durations on_s3.s3.meta_ttl)) ≡ true)))
validate_storage_iff_example = Laws.validate_storage_iff no_durations on_s3
