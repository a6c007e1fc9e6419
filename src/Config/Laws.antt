-- ===== src/Config/Laws.antt =====
-- What the sources of the configuration give together.
use crate_html.Prelude.{
  ℕ, ◌≡◌, ◌↔◌, sym, true, false, ◌||◌, Option, none, some, List, [], Text, text_eq, Result, ok, err,
  is_empty, ℤ, arith, text_beq, text_beq_iff, is_some, ◌⊎◌, Bool-cases, Option-cases, inl, inr,
}
use mathlib.Core.Path.{subst}
use crate_html.Token.{hex}
use crate_html.Config.{
  Config, zero_config, Env, default_port, backend_local, backend_s3, apply_defaults, apply_env,
  ConfigError, default_config, ConfigCodec, ConfigFile, save_config, init_config, parsed,
  load_or_init, without_token, load_read_only, meta_ttl_duration, validate_storage,
}

-- Applying the defaults twice is applying them once.
pub apply_defaults_idem : (c : Config) → apply_defaults (apply_defaults c) ≡ apply_defaults c
unfolding apply_defaults
apply_defaults_idem c = ground arith

-- What was written is read back.
pub record IsConfigCodec (Y : ConfigCodec) : Type 0 where
  pub unmarshal-marshal :
      (c : Config) (out : Text) → Y.marshal c ≡ some out → Y.unmarshal out ≡ some c

module _ (Y : ConfigCodec) where
  -- The configuration of a first start is the one that the saved file gives.
  saved-unmarshal :
      IsConfigCodec Y
      → (c : Config) (f : ConfigFile) → (save_config Y c f).1 ≡ true
      → (out : Text) × ((save_config Y c f).0.text ≡ some out)
        × (Y.unmarshal out ≡ some c)
        × ((save_config Y c f).0.readable ≡ f.readable)
  unfolding save_config
  saved-unmarshal y c f h = elim (Option-cases (Y.marshal c)) [
    | inl bad ↦ ground arith
    | inr (out, e) ↦ (out, ground arith, y.unmarshal-marshal c out e, ground arith)
  ]

  init_config_again :
      IsConfigCodec Y
      → (e : Env) (raw raw' : Option (List ℕ)) (f : ConfigFile) (c : Config) → f.readable ≡ true
      → (init_config Y e (default_config raw) f).1 ≡ ok c
      → load_or_init Y e raw' (init_config Y e (default_config raw) f).0
        ≡ ((init_config Y e (default_config raw) f).0, ok c)
  unfolding init_config load_or_init default_config
  init_config_again y e none raw' f c r h = ground arith
  init_config_again y e (some raw) raw' f c r h =
      let d = apply_defaults (record zero_config { port = default_port; token = hex raw }) in
      elim (Bool-cases (save_config Y d f).1) [
        | inl done ↦
            let (out, text, back, can) = saved-unmarshal y d f done in
            ground (
              arith,
              text,
              back,
              can,
              apply_defaults_idem (record zero_config { port = default_port; token = hex raw }),
            )
        | inr failed ↦ ground arith
      ]

  load_or_init-none :
      (e : Env) (raw : Option (List ℕ)) (f : ConfigFile)
      → f.text ≡ none
      → load_or_init Y e raw f ≡ init_config Y e (default_config raw) f
  unfolding load_or_init
  load_or_init-none e raw f h = ground (arith, h)

  -- With a file that can be read once it is there and a codec that reads back what it wrote, every
  -- start behind a successful one, in the same environment and whatever the random source gives,
  -- changes no file and ends with the same configuration, the generated token included.
  pub load_or_init_again :
      IsConfigCodec Y
      → (e : Env) (raw raw' : Option (List ℕ)) (f : ConfigFile) (c : Config) → f.readable ≡ true
      → (load_or_init Y e raw f).1 ≡ ok c
      → load_or_init Y e raw' (load_or_init Y e raw f).0 ≡ ((load_or_init Y e raw f).0, ok c)
  unfolding load_or_init
  load_or_init_again y e raw raw' f c r h = elim (Option-cases f.text) [
    | inl none_yet ↦
        subst
          (λ (x : ConfigFile × Result ConfigError Config). load_or_init Y e raw' x.0 ≡ (x.0, ok c))
          (sym (load_or_init-none e raw f none_yet))
          (init_config_again y e raw raw' f c r (ground (arith, none_yet)))
    | inr (d, there) ↦ ground (arith, there)
  ]

  without_token-token :
      (r : Result ConfigError Config) (c : Config) → without_token Y r ≡ ok c → c.token ≡ []
  without_token-token (err x) c h = ground arith
  without_token-token (ok d) c h = ground arith

  read_only-token :
      (e : Env) (f : ConfigFile) (c : Config) → load_read_only Y e f ≡ ok c → c.token ≡ []
  unfolding load_read_only
  read_only-token e f c h = elim (Option-cases f.text) [
    | inl absent ↦
        without_token-token (ok (apply_env e (apply_defaults zero_config))) c
          (ground (arith, absent))
    | inr (d, there) ↦ elim (Bool-cases f.readable) [
      | inl can ↦ without_token-token (parsed Y e (Y.unmarshal d)) c (ground (arith, there, can))
      | inr cannot ↦ ground (arith, there, cannot)
    ]
  ]

  -- The read-only start never holds a root token. Where a config file exists, it fails exactly when
  -- the broker's start fails, and otherwise differs from the broker's configuration in the token
  -- alone.
  pub load_read_only_lem :
      (e : Env) (raw : Option (List ℕ)) (f : ConfigFile)
      → ((c : Config) → load_read_only Y e f ≡ ok c → c.token ≡ [])
        × ((d : Text)
            → f.text ≡ some d
            → load_read_only Y e f ≡ without_token Y (load_or_init Y e raw f).1)
  unfolding load_read_only load_or_init
  load_read_only_lem e raw f = (read_only-token e f, λ d h. ground (arith, h))

module _ (parse_duration : Text → Option ℤ) where
  -- The storage settings are accepted exactly for the local backend, and for the S3 backend with an
  -- endpoint, a bucket, and a meta_ttl that is empty or parses.
  pub validate_storage_iff :
      (c : Config)
      → (validate_storage parse_duration c ≡ ok tt) ↔ (
          (c.storage_backend ≡ backend_local)
          ⊎ ((c.storage_backend ≡ backend_s3)
              × (is_empty c.s3.endpoint ≡ false)
              × (is_empty c.s3.bucket ≡ false)
              × ((is_empty c.s3.meta_ttl || is_some (parse_duration c.s3.meta_ttl)) ≡ true)))
  unfolding validate_storage meta_ttl_duration text_beq
  validate_storage_iff c = ground (
    arith,
    text_beq_iff c.storage_backend backend_local,
    text_beq_iff c.storage_backend backend_s3,
  )
