-- ===== src/Tests/Revocations.antt =====
-- A token revoked over the control plane, and its next use.
use crate_html.Prelude.{
  ◌≡◌, refl, true, false, some, [], text_eq, text_beq, codes, lookup, insert, delete, cut_prefix,
  cut, has_prefix, trim_prefix, trim_slashes,
}
use crate_html.Name.{validate_site, validate_token}
use crate_html.Config.{effective_public_url}
use crate_html.Token.{hex, hex_digit, plaintext}
use crate_html.Token.Persistence.{Files, file_store, file_load, file_save, write_tmp, install_tmp}
use crate_html.Token.Store.{
  saved_uses, fresh_id, index_of, remove_at, id_at, find_id, mark_used, split_bearer, save_locked,
  load_from, new_record, mint, create, list, revoke, touch, verify,
}
use crate_html.Server.{World, write_json}
use crate_html.Server.Auth.{bearer, mark_rejection, verify_token, require_auth, require_root}
use crate_html.Server.Expiry.{positive, parse_expiry, parse_token_expiry}
use crate_html.Server.Handlers.{
  token_info, read_upload, site_url, refresh_site_count, store_site, stage_site, handle_put_site,
  create_token, handle_create_token,
}
use crate_html.Server.Routes.{broker_route, serve_broker}
use crate_html.Server.Guards.{is_admitted}
use crate_html.Server.Revoking
use crate_html.Server.Auth.{is_root}
use crate_html.Server.Routes.{delete_token}
use crate_html.Server.{nothing}
use crate_html.Token.Store.{id_taken, index_of, remove_at, id_at, revoke}
use crate_html.Token.Invariant.{IsValid}
use crate_html.Tests.Yaml.{toy}
use crate_html.Tests.Tokens.{one}
use crate_html.Tests.Tokens.{secret}
use crate_html.Tests.Requests.{memory, an_hour, config, with_token, by_root}

program : Unit {0}
unfolding text_beq lookup insert delete cut_prefix cut has_prefix trim_prefix validate_site
    validate_token effective_public_url hex hex_digit plaintext file_load file_save write_tmp
    install_tmp saved_uses fresh_id index_of remove_at id_at find_id mark_used split_bearer
    save_locked load_from new_record mint create list revoke touch verify bearer mark_rejection
    verify_token require_auth require_root positive parse_expiry parse_token_expiry token_info
    read_upload trim_slashes site_url refresh_site_count store_site stage_site handle_put_site
    create_token handle_create_token broker_route serve_broker is_admitted memory toy
program = tt

abbrev world : World memory.State Files
unfolding memory
world = record { sites = []; tokens = some one; site_count = 0 }

-- The token of the world is revoked over the API.
one-IsValid : IsValid one.recs
unfolding program
one-IsValid = record { ids = (refl, tt); names = (refl, tt) }

holds_one : world.tokens ≡ some one
unfolding world
holds_one = refl

in_use : id_taken (codes "deadbeef") one.recs ≡ true
unfolding program
in_use = refl

revokes :
    (serve_broker toy file_store memory an_hour config
      (delete_token (codes "deadbeef"))
      by_root
      world).2
    ≡ write_json 204 nothing
unfolding program
revokes = refl

revoked_parts : split_bearer (bearer with_token.auth) ≡ some (codes "deadbeef", secret)
unfolding program
revoked_parts = refl

not_root : is_root config.token (bearer with_token.auth) ≡ false
unfolding program
not_root = refl

is_admitted-delete_token_example :
    is_admitted toy file_store memory.State config.token with_token
      (serve_broker toy file_store memory an_hour config
        (delete_token (codes "deadbeef"))
        by_root
        world).0
    ≡ false
is_admitted-delete_token_example =
    Revoking.is_admitted-delete_token toy file_store memory an_hour config (codes "deadbeef") secret
      one by_root with_token world holds_one one-IsValid in_use revokes revoked_parts not_root
