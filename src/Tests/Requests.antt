-- ===== src/Tests/Requests.antt =====
-- Requests to the control plane over a store of sites in memory.
use crate_html.Prelude.{
  ◌+◌, ◌≡◌, ◌↔◌, ◌⊎◌, refl, true, false, Option, none, some, List, [], ◌∷◌, ◌++◌, map, Text,
  text_eq, text_beq, codes, ok, err, lookup, insert, delete, cut_prefix, cut, has_prefix,
  trim_prefix, is_some, length, ℤ, pos, Result, trim_slashes,
}
use crate_html.Name.{validate_site, validate_token}
use crate_html.Config.{Config, zero_config, effective_public_url}
use crate_html.Token.{hex, hex_digit, plaintext}
use crate_html.Token.Persistence.{Files, file_store, file_load, file_save, write_tmp, install_tmp}
use crate_html.Token.Store.{
  saved_uses, fresh_id, index_of, remove_at, id_at, find_id, mark_used, split_bearer, save_locked,
  load_from, new_record, mint, create, list, revoke, touch, verify,
}
use crate_html.Wire.{Site, TokenInfo, StoreError, not_found, Backend}
use crate_html.Server.{whole, Request, minted, World, new_audit, write_error, write_json}
use crate_html.Server.Auth.{bearer, mark_rejection, verify_token, require_auth, require_root}
use crate_html.Server.Expiry.{positive, parse_expiry, parse_token_expiry}
use crate_html.Server.Handlers.{
  token_info, read_upload, site_url, refresh_site_count, store_site, stage_site, handle_put_site,
  create_token, handle_create_token,
}
use crate_html.Server.Routes.{put_site, post_tokens, broker_route, serve_broker}
use crate_html.Server.Guards
use crate_html.Server.Guards.{is_admitted, holds_root}
use crate_html.Server.Privileges.{manages_tokens, tokens_of}
use crate_html.Server.Privileges
use crate_html.Server.Publishing
use crate_html.Server.Minting
use crate_html.Token.Store.{index_of, remove_at, id_at, revoke}
use crate_html.Server.Publishing.{Published}
use crate_html.Tests.Yaml.{toy}
use crate_html.Tests.Tokens.{raw, one, bearer as bearer_text}

-- Sites by name, each with its archive as its content.
abbrev pub Sites : Type 0
Sites = List (Text × (Site × Text))

abbrev pub found : Option (Site × Text) → Result StoreError (Site × Text)
found none = err not_found
found (some e) = ok e

unfoldable pub memory : Backend
unfolding insert delete lookup
memory = record {
  State = Sites;
  Fs = Text;
  list = λ s. (s, ok (map (λ (e : Text × (Site × Text)). e.1.0) s));
  names = λ s. (s, ok (map (λ (e : Text × (Site × Text)). e.0) s));
  exists = λ name s. (s, ok (is_some (lookup name s)));
  stat = λ name s. (s, elim (lookup name s) [ none ↦ err not_found | some e ↦ ok e.0 ]);
  open_site = λ name s. (s, elim (lookup name s) [ none ↦ err not_found | some e ↦ ok e.1 ]);
  replace = λ name archive ttl now s.
      let site : Site = record {
        name = name;
        updated_at = now;
        size_bytes = length archive;
        file_count = 1;
        expires_at = elim ttl [ none ↦ none | some d ↦ some (now + d) ];
      } in
      (insert name (site, archive) s, ok site);
  delete =
      λ name s. (delete name s, elim (lookup name s) [ none ↦ err not_found | some e ↦ ok tt ]);
  delete_expired = λ now s. (s, ([], false));
}

-- Every duration is an hour.
abbrev pub an_hour : Text → Option ℤ
an_hour s = some (pos 3600)

abbrev pub config : Config
config = record zero_config {
  token = codes "root";
  max_upload_bytes = pos 10;
  base_url = codes "http://h/";
}

program : Unit {0}
unfolding text_beq lookup insert delete cut_prefix cut has_prefix trim_prefix validate_site
    validate_token effective_public_url hex hex_digit plaintext file_load file_save write_tmp
    install_tmp saved_uses fresh_id index_of remove_at id_at find_id mark_used split_bearer
    save_locked load_from new_record mint create list revoke touch verify bearer mark_rejection
    verify_token require_auth require_root positive parse_expiry parse_token_expiry token_info
    read_upload trim_slashes site_url refresh_site_count store_site stage_site handle_put_site
    create_token handle_create_token broker_route serve_broker is_admitted memory toy
program = tt

abbrev pub world : World memory.State Files
unfolding memory
world = record { sites = []; tokens = some one; site_count = 0 }

abbrev pub request : Text → Request
request auth = record {
  auth = auth;
  expires = codes "1h";
  body = whole (codes "archive");
  form = some (record { name = codes "ci"; expires = [] });
  now = 1200;
  can_stage = true;
  can_rewind = true;
  draws = some (0xbe ∷ 0xef ∷ 0 ∷ 1 ∷ []) ∷ [];
  raw = raw;
}

pub nobody :
    is_admitted toy file_store memory.State config.token (request (codes "Bearer wrong")) world
    ≡ false
unfolding program
nobody = refl

serve_broker-denied_example :
    ((serve_broker toy file_store memory an_hour config
        (put_site (codes "docs"))
        (request (codes "Bearer wrong"))
        world).0
      ≡ world)
    × ((serve_broker toy file_store memory an_hour config
          (put_site (codes "docs"))
          (request (codes "Bearer wrong"))
          world).2
        ≡ write_error 401)
serve_broker-denied_example =
    Guards.serve_broker-denied toy file_store memory an_hour config (put_site (codes "docs"))
      (request (codes "Bearer wrong")) world refl nobody

-- A minted token at the token management.
abbrev pub with_token : Request
with_token = request (codes "Bearer " ++ bearer_text)

no_root : holds_root config.token with_token ≡ false
unfolding program
no_root = refl

serve_broker-unprivileged_example :
    (tokens_of (serve_broker toy file_store memory an_hour config post_tokens with_token world).0
      ≡ tokens_of world)
    × (manages_tokens post_tokens ≡ true
        → ((serve_broker toy file_store memory an_hour config post_tokens with_token world).0.sites
            ≡ world.sites)
          × (((serve_broker toy file_store memory an_hour config post_tokens with_token world).2
                ≡ write_error 401)
              ⊎ ((serve_broker toy file_store memory an_hour config post_tokens with_token world).2
                  ≡ write_error 403)))
serve_broker-unprivileged_example =
    Privileges.serve_broker-unprivileged toy file_store memory an_hour config post_tokens with_token
      world no_root

forbidden :
    (serve_broker toy file_store memory an_hour config post_tokens with_token world).2
    ≡ write_error 403
unfolding program
forbidden = refl

handle_put_site_iff_example :
    ((handle_put_site toy file_store memory an_hour config
        (codes "docs")
        with_token
        world
        new_audit).2.status
      ≡ 200)
    ↔ (Published toy file_store memory an_hour config (codes "docs") with_token world
        × (with_token.can_stage ≡ true)
        × (with_token.can_rewind ≡ true))
handle_put_site_iff_example =
    Publishing.handle_put_site_iff toy file_store memory an_hour config (codes "docs") with_token
      world new_audit

published :
    (handle_put_site toy file_store memory an_hour config
      (codes "docs")
      with_token
      world
      new_audit).2.status
    ≡ 200
unfolding program
published = refl

too_large :
    (handle_put_site toy file_store memory an_hour config
      (codes "docs")
      (record with_token { body = whole (codes "elevenbytes") })
      world
      new_audit).2.status
    ≡ 413
unfolding program
too_large = refl

-- A token minted over the API, and its first use.
abbrev pub by_root : Request
by_root = request (codes "Bearer root")

abbrev new_token : Text
new_token = codes "crate_beef0001_000102030405060708090a0b0c0d0e0f101112131415161718191a1b1c1d1e1f"

abbrev info : TokenInfo
info = record {
  id = codes "beef0001";
  name = codes "ci";
  created_at = 1200;
  expires_at = none;
  last_used_at = none;
}

mints :
    (serve_broker toy file_store memory an_hour config post_tokens by_root world).2
    ≡ write_json 201 (minted new_token info)
unfolding program
mints = refl

is_admitted-post_tokens_example :
    is_admitted toy file_store memory.State config.token
      (request (codes "Bearer " ++ new_token))
      (serve_broker toy file_store memory an_hour config post_tokens by_root world).0
    ≡ true
is_admitted-post_tokens_example =
    Minting.is_admitted-post_tokens toy file_store memory an_hour config by_root
      (request (codes "Bearer " ++ new_token)) world new_token info (refl, tt) refl mints refl refl
