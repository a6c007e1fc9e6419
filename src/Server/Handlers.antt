-- ===== src/Server/Handlers.antt =====
-- The handlers of the control plane. Each helper is the part of its handler behind one call.
use crate_html.Prelude.{
  ℕ, Bool, true, false, Option, none, some, List, [], ◌∷◌, ◌++◌, map, Text, text_eq, trim_slashes,
  length, ltb, if◌then◌else◌, Result, ok, err, ℤ, pos, negsuc,
}
use crate_html.Name.{validate_site}
use crate_html.Token.{Record}
use crate_html.Token.Persistence.{Persistence}
use crate_html.Token.Store.{Store, Codec, create, revoke, list, TokenError}
use crate_html.Config.{Config, effective_public_url}
use crate_html.Wire.{TokenInfo, StoreError, Backend}
use crate_html.Server.{
  invalid_site_name, invalid_expiry, upload_too_large, upload_read_failed, unsafe_archive_path,
  invalid_json, invalid_token_expiry, duplicate_token_name, invalid_token_request, site_not_found,
  token_not_found, Audit, Upload, whole, broken, status_info, site_list, stored, minted, token_list,
  nothing, Response, World, write_error, write_json,
}
use crate_html.Server.Auth.{mark_rejection, Handler}
use crate_html.Server.Expiry.{parse_expiry, parse_token_expiry}

unfoldable pub token_info : Record → TokenInfo
token_info r = record {
  id = r.id;
  name = r.name;
  created_at = r.created_at;
  expires_at = r.expires_at;
  last_used_at = r.last_used_at;
}

-- io.Copy from http.MaxBytesReader: the bytes, `err true` for a body above the limit and `err false`
-- for one that fails.
unfoldable pub read_upload : ℤ → Upload → Result Bool Text
read_upload (negsuc n) (whole []) = ok []
read_upload (negsuc n) (whole (c ∷ d)) = err true
read_upload (negsuc n) (broken []) = err false
read_upload (negsuc n) (broken (c ∷ d)) = err true
read_upload (pos n) (whole d) = if ltb n (length d) then err true else ok d
read_upload (pos n) (broken d) = if ltb n (length d) then err true else err false

unfoldable pub site_url : Text → Text → Text
unfolding trim_slashes
site_url public_url name = trim_slashes public_url ++ b'/' ∷ (name ++ b'/' ∷ [])

module _ (C : Codec) (P : Persistence) (B : Backend) (parse_duration : Text → Option ℤ)
    (cfg : Config) where
  open P use {Medium}

  -- s.store.List() behind a handler: the gauge is set when it succeeds.
  unfoldable pub refresh_site_count : World B.State Medium → World B.State Medium
  refresh_site_count w =
      let (st, answer) = B.list w.sites in
      elim answer [
        | ok sites ↦ record w { sites = st; site_count = length sites }
        | err e ↦ record w { sites = st }
      ]

  unfoldable pub handle_status : Handler C P B.State
  unfolding effective_public_url
  handle_status r w a =
      let (st, answer) = B.list w.sites in
      elim answer [
        | err e ↦ (record w { sites = st }, a, write_error 500)
        | ok sites ↦ (
          record w { sites = st; site_count = length sites },
          a,
          write_json 200 (status_info (length sites) (effective_public_url cfg)),
        )
      ]

  unfoldable pub handle_list_sites : Handler C P B.State
  handle_list_sites r w a =
      let (st, answer) = B.list w.sites in
      elim answer [
        | err e ↦ (record w { sites = st }, a, write_error 500)
        | ok sites ↦ (
          record w { sites = st; site_count = length sites },
          a,
          write_json 200 (site_list sites),
        )
      ]

  -- The errors of ReplaceFromTarWithExpiry.
  abbrev pub refused_put : StoreError → Audit → Audit × Response
  refused_put StoreError.site_too_large a = (mark_rejection upload_too_large a, write_error 413)
  refused_put StoreError.unsafe_path a = (mark_rejection unsafe_archive_path a, write_error 400)
  refused_put StoreError.invalid_name a = (a, write_error 500)
  refused_put StoreError.not_found a = (a, write_error 500)
  refused_put StoreError.failed a = (a, write_error 500)

  -- handlePutSite behind the staging file.
  unfoldable pub store_site : Text → Text → Option ℕ → Handler C P B.State
  unfolding refresh_site_count site_url mark_rejection
  store_site name archive expiry r w a =
      let (st, answer) = B.replace name archive expiry r.now w.sites in
      elim answer [
        | err e ↦ (record w { sites = st }, (refused_put e a).0, (refused_put e a).1)
        | ok site ↦ (
          refresh_site_count (record w { sites = st }),
          a,
          write_json 200 (stored site (site_url (effective_public_url cfg) name)),
        )
      ]

  -- handlePutSite behind the expiry: the body is staged.
  unfoldable pub stage_site : Text → Option ℕ → Handler C P B.State
  unfolding read_upload store_site mark_rejection
  stage_site name expiry r w a =
      if r.can_stage
      then elim (read_upload cfg.max_upload_bytes r.body) [
        | err true ↦ (w, mark_rejection upload_too_large a, write_error 413)
        | err false ↦ (w, mark_rejection upload_read_failed a, write_error 400)
        | ok archive ↦
            if r.can_rewind then store_site name archive expiry r w a else (w, a, write_error 500)
      ]
      else (w, a, write_error 500)

  unfoldable pub handle_put_site : Text → Handler C P B.State
  unfolding stage_site mark_rejection
  handle_put_site name r w a =
      if validate_site name
      then elim (parse_expiry parse_duration r.expires) [
        | err _ ↦ (w, mark_rejection invalid_expiry a, write_error 400)
        | ok expiry ↦ stage_site name expiry r w a
      ]
      else (w, mark_rejection invalid_site_name a, write_error 400)

  -- The errors of Delete.
  abbrev pub refused_delete : StoreError → Audit → Audit × Response
  refused_delete StoreError.not_found a = (mark_rejection site_not_found a, write_error 404)
  refused_delete StoreError.invalid_name a = (a, write_error 500)
  refused_delete StoreError.unsafe_path a = (a, write_error 500)
  refused_delete StoreError.site_too_large a = (a, write_error 500)
  refused_delete StoreError.failed a = (a, write_error 500)

  unfoldable pub handle_delete_site : Text → Handler C P B.State
  unfolding refresh_site_count mark_rejection
  handle_delete_site name r w a =
      if validate_site name
      then (let (st, answer) = B.delete name w.sites in
          elim answer [
            | err e ↦ (record w { sites = st }, (refused_delete e a).0, (refused_delete e a).1)
            | ok _ ↦ (refresh_site_count (record w { sites = st }), a, write_json 204 nothing)
          ])
      else (w, mark_rejection invalid_site_name a, write_error 400)

  -- DeleteExpired, which the broker calls on a timer.
  unfoldable pub delete_expired :
      ℕ → World B.State Medium → World B.State Medium × (List Text × Bool)
  unfolding refresh_site_count
  delete_expired now w =
      let (st, (deleted, failed)) = B.delete_expired now w.sites in
      let w' : World B.State Medium = record w { sites = st } in
      (if failed then w' else refresh_site_count w', (deleted, failed))

  -- The errors of Create.
  abbrev pub refused_create : TokenError → Audit → Audit × Response
  refused_create TokenError.duplicate_name a =
      (mark_rejection duplicate_token_name a, write_error 409)
  refused_create _ a = (mark_rejection invalid_token_request a, write_error 400)

  -- handleCreateToken behind the checks.
  unfoldable pub create_token : Store Medium → Text → Option ℕ → Handler C P B.State
  unfolding mark_rejection token_info
  create_token s name ttl r w a =
      let (s', answer) = create C P s name ttl r.now r.draws r.raw in
      elim answer [
        | err e ↦ (record w { tokens = some s' }, (refused_create e a).0, (refused_create e a).1)
        | ok (plain, rec) ↦
            (record w { tokens = some s' }, a, write_json 201 (minted plain (token_info rec)))
      ]

  unfoldable pub handle_create_token : Handler C P B.State
  unfolding create_token mark_rejection
  handle_create_token r w a = elim w.tokens [
    | none ↦ (w, a, write_error 500)
    | some s ↦ elim r.form [
      | none ↦ (w, mark_rejection invalid_json a, write_error 400)
      | some form ↦ elim (parse_token_expiry parse_duration form.expires) [
        | err _ ↦ (w, mark_rejection invalid_token_expiry a, write_error 400)
        | ok ttl ↦ create_token s form.name ttl r w a
      ]
    ]
  ]

  unfoldable pub handle_list_tokens : Handler C P B.State
  unfolding token_info list
  handle_list_tokens r w a = elim w.tokens [
    | none ↦ (w, a, write_error 500)
    | some s ↦ (w, a, write_json 200 (token_list (map token_info (list C P s))))
  ]

  -- The errors of Revoke.
  abbrev pub refused_revoke : TokenError → Audit → Audit × Response
  refused_revoke TokenError.not_found a = (mark_rejection token_not_found a, write_error 404)
  refused_revoke _ a = (a, write_error 500)

  unfoldable pub handle_revoke_token : Text → Handler C P B.State
  unfolding mark_rejection
  handle_revoke_token id r w a = elim w.tokens [
    | none ↦ (w, a, write_error 500)
    | some s ↦
        let (s', answer) = revoke C P s id in
        elim answer [
          | err e ↦ (record w { tokens = some s' }, (refused_revoke e a).0, (refused_revoke e a).1)
          | ok _ ↦ (record w { tokens = some s' }, a, write_json 204 nothing)
        ]
  ]
