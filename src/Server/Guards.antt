-- ===== src/Server/Guards.antt =====
-- What the guards keep out: a request with no accepted credential.
use crate_html.Prelude.{
  ℕ, ◌≡◌, Bool, true, false, ◌&&◌, ◌||◌, not, Option, none, Text, text_eq, is_empty, is_some, ℤ,
  arith, Option-cases, inl, inr,
}
use crate_html.Token.Persistence.{Persistence}
use crate_html.Token.Store.{Store, Codec, verify, find_id, split_bearer}
use crate_html.Config.{Config}
use crate_html.Wire.{Backend}
use crate_html.Server.{Audit, Request, World, new_audit, write_error}
use crate_html.Server.Auth.{Handler, bearer, is_root, verify_token, require_auth, require_root}
use crate_html.Server.Handlers.{
  handle_list_sites, handle_put_site, handle_delete_site, handle_create_token, handle_list_tokens,
  handle_revoke_token,
}
use crate_html.Server.Routes.{
  Route, get_status, get_sites, post_tokens, get_tokens, put_site, delete_site, delete_token,
  serve_broker,
}

-- The request carries the root token.
abbrev pub holds_root : Text → Request → Bool
holds_root root r = not (is_empty (bearer r.auth)) && is_root root (bearer r.auth)

module _ (C : Codec) (P : Persistence) where
  open P use {Medium}

  pub verify-none :
      (s : Store Medium) (got : Text) (now : ℕ)
      → (verify C P s got now).1 ≡ none
      → (verify C P s got now).0 ≡ s
  unfolding verify
  verify-none s got now h = elim (Option-cases (split_bearer got)) [
    | inl bad ↦ ground arith
    | inr ((id, secret), parts) ↦ elim (Option-cases (find_id id s.recs)) [
      | inl miss ↦ ground (arith, parts)
      | inr (r, hit) ↦ ground (arith, parts, hit)
    ]
  ]

  module _ (S : Type 0) where
    -- The request carries a credential that requireAuth accepts.
    unfoldable pub is_admitted : Text → Request → World S Medium → Bool
    unfolding bearer verify_token
    is_admitted root r w =
        not (is_empty (bearer r.auth))
        && (is_root root (bearer r.auth) || is_some (verify_token C P S (bearer r.auth) r.now w).1)

    pub verify_token-none :
        (got : Text) (now : ℕ) (w : World S Medium)
        → (verify_token C P S got now w).1 ≡ none
        → (verify_token C P S got now w).0 ≡ w
    unfolding verify_token
    verify_token-none got now w h = elim (Option-cases w.tokens) [
      | inl nil ↦ ground (arith, nil)
      | inr (s, there) ↦ ground (arith, there, verify-none s got now)
    ]

    pub require_auth-denied :
        (root : Text) (next : Handler C P S) (r : Request) (w : World S Medium) (a : Audit)
        → is_admitted root r w ≡ false
        → ((require_auth C P S root next r w a).0 ≡ w)
          × ((require_auth C P S root next r w a).2 ≡ write_error 401)
    unfolding require_auth is_admitted
    require_auth-denied root next r w a h =
        elim (Option-cases (verify_token C P S (bearer r.auth) r.now w).1) [
          | inl miss ↦ ground (arith, miss, verify_token-none (bearer r.auth) r.now w miss)
          | inr (rec, hit) ↦ ground (arith, hit)
        ]

    pub require_root-denied :
        (root : Text) (next : Handler C P S) (r : Request) (w : World S Medium) (a : Audit)
        → is_admitted root r w ≡ false
        → ((require_root C P S root next r w a).0 ≡ w)
          × ((require_root C P S root next r w a).2 ≡ write_error 401)
    unfolding require_root is_admitted
    require_root-denied root next r w a h =
        elim (Option-cases (verify_token C P S (bearer r.auth) r.now w).1) [
          | inl miss ↦ ground (arith, miss, verify_token-none (bearer r.auth) r.now w miss)
          | inr (rec, hit) ↦ ground (arith, hit)
        ]

-- The one route of the broker without a guard.
abbrev pub is_status : Route → Bool
is_status get_status = true
is_status _ = false

module _ (C : Codec) (P : Persistence) (B : Backend) (parse_duration : Text → Option ℤ)
    (cfg : Config) where
  open P use {Medium}

  -- On every route but the status, a request without the root token and without a token that Verify
  -- admits is answered 401, and changes nothing: neither the sites nor the tokens.
  pub serve_broker-denied :
      (route : Route) (r : Request) (w : World B.State Medium)
      → is_status route ≡ false
      → is_admitted C P B.State cfg.token r w ≡ false
      → ((serve_broker C P B parse_duration cfg route r w).0 ≡ w)
        × ((serve_broker C P B parse_duration cfg route r w).2 ≡ write_error 401)
  unfolding serve_broker
  serve_broker-denied get_status r w n h = ground arith
  serve_broker-denied get_sites r w n h =
      require_auth-denied C P B.State cfg.token (handle_list_sites C P B parse_duration cfg) r w
        new_audit h
  serve_broker-denied (put_site name) r w n h =
      require_auth-denied C P B.State cfg.token (handle_put_site C P B parse_duration cfg name) r w
        new_audit h
  serve_broker-denied (delete_site name) r w n h =
      require_auth-denied C P B.State cfg.token (handle_delete_site C P B parse_duration cfg name) r
        w new_audit h
  serve_broker-denied post_tokens r w n h =
      require_root-denied C P B.State cfg.token (handle_create_token C P B parse_duration cfg) r w
        new_audit h
  serve_broker-denied get_tokens r w n h =
      require_root-denied C P B.State cfg.token (handle_list_tokens C P B parse_duration cfg) r w
        new_audit h
  serve_broker-denied (delete_token id) r w n h =
      require_root-denied C P B.State cfg.token (handle_revoke_token C P B parse_duration cfg id) r
        w new_audit h
