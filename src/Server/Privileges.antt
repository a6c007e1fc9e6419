-- ===== src/Server/Privileges.antt =====
-- What a minted token cannot do: change the set of tokens, or anything at the routes of the token
-- management.
use crate_html.Prelude.{
  ℕ, ◌≡◌, ap, Bool, true, false, Option, none, some, List, map, Text, text_eq, ℤ, arith,
  Option-cases, inl, inr, ◌⊎◌,
}
use crate_html.Token.{Record}
use crate_html.Token.Lookup.{strip, strip-mark_used}
use crate_html.Token.Persistence.{Persistence}
use crate_html.Token.Store.{Store, Codec, verify}
use crate_html.Token.Verify.{recs-verify}
use crate_html.Config.{Config}
use crate_html.Wire.{Backend}
use crate_html.Server.{Audit, Request, World, by_root, new_audit, write_error}
use crate_html.Server.Auth.{Handler, bearer, as_token, verify_token, require_auth, require_root}
use crate_html.Server.Handlers.{
  refresh_site_count, handle_status, handle_list_sites, handle_put_site, handle_delete_site,
  handle_create_token, handle_list_tokens, handle_revoke_token,
}
use crate_html.Server.Routes.{
  Route, get_status, get_sites, post_tokens, get_tokens, put_site, delete_site, delete_token,
  serve_broker,
}
use crate_html.Server.Guards.{holds_root, verify-none}

-- The routes of the token management.
abbrev pub manages_tokens : Route → Bool
manages_tokens post_tokens = true
manages_tokens get_tokens = true
manages_tokens (delete_token id) = true
manages_tokens _ = false

-- The tokens, up to when they were last used.
abbrev pub tokens_of : {S M : Type 0} → World S M → Option (List Record)
tokens_of w = elim w.tokens [ none ↦ none | some s ↦ some (map strip s.recs) ]

module _ (C : Codec) (P : Persistence) (B : Backend) (parse_duration : Text → Option ℤ)
    (cfg : Config) where
  open P use {Medium}

  -- Handlers that leave the token store alone.
  unfoldable pub KeepsTokens : Handler C P B.State → Type 0
  KeepsTokens next =
      (r : Request) (w : World B.State Medium) (a : Audit) → (next r w a).0.tokens ≡ w.tokens

  strip-verify :
      (s : Store Medium) (got : Text) (now : ℕ)
      → map strip (verify C P s got now).0.recs ≡ map strip s.recs
  strip-verify s got now = elim (Option-cases (verify C P s got now).1) [
    | inl miss ↦ ap (λ (x : Store Medium). map strip x.recs) (verify-none C P s got now miss)
    | inr (rec, hit) ↦
        ground (arith, hit, recs-verify C P s got now, strip-mark_used rec.id now s.recs)
  ]

  tokens_of-verify_token :
      (got : Text) (now : ℕ) (w : World B.State Medium)
      → tokens_of (verify_token C P B.State got now w).0 ≡ tokens_of w
  unfolding verify_token
  tokens_of-verify_token got now w = elim (Option-cases w.tokens) [
    | inl nil ↦ ground (arith, nil)
    | inr (s, there) ↦ ground (arith, there, strip-verify s got now)
  ]

  sites-verify_token :
      (got : Text) (now : ℕ) (w : World B.State Medium)
      → (verify_token C P B.State got now w).0.sites ≡ w.sites
  unfolding verify_token
  sites-verify_token got now w = ground arith

  pub tokens_cong :
      (w w' : World B.State Medium) → w'.tokens ≡ w.tokens → tokens_of w' ≡ tokens_of w
  tokens_cong w w' e =
      ap
        (λ (t : Option (Store Medium)). elim t as (λ _. Option (List Record)) [
          | none ↦ none
          | some s ↦ some (map strip s.recs)
        ])
        e

  tokens_of-require_auth :
      (next : Handler C P B.State)
      → KeepsTokens next
      → (r : Request) (w : World B.State Medium) (a : Audit)
      → tokens_of (require_auth C P B.State cfg.token next r w a).0 ≡ tokens_of w
  unfolding require_auth KeepsTokens
  tokens_of-require_auth next k r w a =
      let got = bearer r.auth in
      let w' = (verify_token C P B.State got r.now w).0 in
      elim (Option-cases (verify_token C P B.State got r.now w).1) [
        | inl miss ↦ ground (
          arith,
          miss,
          tokens_of-verify_token got r.now w,
          tokens_cong w (next r w (record a { auth_kind = by_root })).0
              (k r w (record a { auth_kind = by_root })),
        )
        | inr (rec, hit) ↦ ground (
          arith,
          hit,
          tokens_of-verify_token got r.now w,
          tokens_cong w (next r w (record a { auth_kind = by_root })).0
              (k r w (record a { auth_kind = by_root })),
          tokens_cong w' (next r w' (as_token rec a)).0 (k r w' (as_token rec a)),
        )
      ]

  tokens_of-require_root :
      (next : Handler C P B.State) (r : Request) (w : World B.State Medium) (a : Audit)
      → holds_root cfg.token r ≡ false
      → (tokens_of (require_root C P B.State cfg.token next r w a).0 ≡ tokens_of w)
        × ((require_root C P B.State cfg.token next r w a).0.sites ≡ w.sites)
        × (((require_root C P B.State cfg.token next r w a).2 ≡ write_error 401)
            ⊎ ((require_root C P B.State cfg.token next r w a).2 ≡ write_error 403))
  unfolding require_root
  tokens_of-require_root next r w a h =
      let got = bearer r.auth in
      elim (Option-cases (verify_token C P B.State got r.now w).1) [
        | inl miss ↦
            ground (arith, miss, tokens_of-verify_token got r.now w, sites-verify_token got r.now w)
        | inr (rec, hit) ↦
            ground (arith, hit, tokens_of-verify_token got r.now w, sites-verify_token got r.now w)
      ]

  pub tokens-refresh_site_count :
      (w : World B.State Medium) → (refresh_site_count C P B parse_duration cfg w).tokens ≡ w.tokens
  unfolding refresh_site_count
  tokens-refresh_site_count w = ground arith

  pub tokens-handle_put_site :
      (name : Text) → KeepsTokens (handle_put_site C P B parse_duration cfg name)
  unfolding handle_put_site KeepsTokens
  tokens-handle_put_site name r w a = ground arith

  pub tokens-handle_delete_site :
      (name : Text) → KeepsTokens (handle_delete_site C P B parse_duration cfg name)
  unfolding handle_delete_site KeepsTokens
  tokens-handle_delete_site name r w a = ground arith

  pub tokens-handle_list_sites : KeepsTokens (handle_list_sites C P B parse_duration cfg)
  unfolding handle_list_sites KeepsTokens
  tokens-handle_list_sites r w a = ground arith

  pub tokens-handle_status : KeepsTokens (handle_status C P B parse_duration cfg)
  unfolding handle_status KeepsTokens
  tokens-handle_status r w a = ground arith

  -- Without the root token no request, admitted or not, changes the set of tokens but for when one
  -- was last used; and at the routes of the token management it leaves the sites as they are and is
  -- answered 401 or 403.
  pub serve_broker-unprivileged :
      (route : Route) (r : Request) (w : World B.State Medium)
      → holds_root cfg.token r ≡ false
      → (tokens_of (serve_broker C P B parse_duration cfg route r w).0 ≡ tokens_of w)
        × (manages_tokens route ≡ true
            → ((serve_broker C P B parse_duration cfg route r w).0.sites ≡ w.sites)
              × (((serve_broker C P B parse_duration cfg route r w).2 ≡ write_error 401)
                  ⊎ ((serve_broker C P B parse_duration cfg route r w).2 ≡ write_error 403)))
  unfolding serve_broker KeepsTokens
  serve_broker-unprivileged get_status r w h = (
    tokens_cong w (handle_status C P B parse_duration cfg r w new_audit).0
        (tokens-handle_status r w new_audit),
    λ m. ground arith,
  )
  serve_broker-unprivileged get_sites r w h = (
    tokens_of-require_auth (handle_list_sites C P B parse_duration cfg) tokens-handle_list_sites r w
        new_audit,
    λ m. ground arith,
  )
  serve_broker-unprivileged (put_site name) r w h = (
    tokens_of-require_auth (handle_put_site C P B parse_duration cfg name)
        (tokens-handle_put_site name) r w new_audit,
    λ m. ground arith,
  )
  serve_broker-unprivileged (delete_site name) r w h = (
    tokens_of-require_auth (handle_delete_site C P B parse_duration cfg name)
        (tokens-handle_delete_site name) r w new_audit,
    λ m. ground arith,
  )
  serve_broker-unprivileged post_tokens r w h =
      let g =
        tokens_of-require_root (handle_create_token C P B parse_duration cfg) r w new_audit h in
      (g.0, λ m. (g.1, g.2))
  serve_broker-unprivileged get_tokens r w h =
      let g =
        tokens_of-require_root (handle_list_tokens C P B parse_duration cfg) r w new_audit h in
      (g.0, λ m. (g.1, g.2))
  serve_broker-unprivileged (delete_token id) r w h =
      let g =
        tokens_of-require_root (handle_revoke_token C P B parse_duration cfg id) r w new_audit h in
      (g.0, λ m. (g.1, g.2))
