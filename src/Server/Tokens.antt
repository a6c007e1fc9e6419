-- ===== src/Server/Tokens.antt =====
-- Every request keeps the token store good: its ids and names distinct, and the stored document the
-- tokens in memory.
use crate_html.Prelude.{
  ℕ, ◌≡◌, refl, sym, Option, none, some, Text, ℤ, arith, Bool-cases, Option-cases, inl, inr, All,
  Result, ok, err, is_empty, text_eq,
}
use mathlib.Core.Path.{subst}
use crate_html.Token.{id_bytes, secret_bytes}
use crate_html.Token.Persistence.{Persistence}
use crate_html.Token.Store.{Store, Codec, create, revoke}
use crate_html.Token.Invariant.{Full}
use crate_html.Token.Durable.{IsCodec}
use crate_html.Token.Runs.{IsGood, apply, apply-IsGood, mint_op, revoke_op, verify_op}
use crate_html.Config.{Config}
use crate_html.Wire.{Backend, CreateTokenRequest}
use crate_html.Server.{Audit, Request, World, by_root, new_audit}
use crate_html.Server.Auth.{
  Handler, bearer, is_root, as_token, verify_token, require_auth, require_root,
}
use crate_html.Server.Expiry.{parse_token_expiry}
use crate_html.Server.Handlers.{
  create_token, handle_status, handle_list_sites, handle_put_site, handle_delete_site,
  handle_create_token, handle_list_tokens, handle_revoke_token,
}
use crate_html.Server.Routes.{
  Route, get_status, get_sites, post_tokens, get_tokens, put_site, delete_site, delete_token,
  serve_broker,
}
use crate_html.Server.Privileges.{
  KeepsTokens, tokens-handle_status, tokens-handle_list_sites, tokens-handle_put_site,
  tokens-handle_delete_site,
}

-- rand.Read fills the slices of a request that mints.
abbrev pub Fed : Request → Type 0
Fed r = All (Full id_bytes) r.draws × Full secret_bytes r.raw

module _ (C : Codec) (P : Persistence) where
  open P use {Medium}

  -- The token store, where there is one.
  abbrev pub AreGood : Option (Store Medium) → Type 0
  AreGood none = Unit
  AreGood (some s) = IsGood C P s

  module _ (B : Backend) (parse_duration : Text → Option ℤ) (cfg : Config) (Y : IsCodec C) where
    verify_token-AreGood :
        (got : Text) (now : ℕ) (w : World B.State Medium)
        → AreGood w.tokens
        → AreGood (verify_token C P B.State got now w).0.tokens
    unfolding verify_token apply
    verify_token-AreGood got now w g = elim (Option-cases w.tokens) [
      | inl nil ↦ subst AreGood (sym (ground (arith, nil))) g
      | inr (s, e) ↦
          rw (verify_token, e) (apply-IsGood C P Y s (verify_op got now) tt (subst AreGood e g))
    ]

    -- A handler that keeps the store good.
    Keeps : Handler C P B.State → Request → Type 0
    Keeps next r =
        (w : World B.State Medium) (a : Audit) → AreGood w.tokens → AreGood (next r w a).0.tokens

    keeps :
        (next : Handler C P B.State) (r : Request)
        → KeepsTokens C P B parse_duration cfg next
        → Keeps next r
    unfolding Keeps KeepsTokens
    keeps next r k w a g = subst AreGood (sym (k r w a)) g

    require_auth-Keeps :
        (next : Handler C P B.State) (r : Request)
        → Keeps next r
        → Keeps (require_auth C P B.State cfg.token next) r
    unfolding Keeps require_auth
    require_auth-Keeps next r k w a g =
        let got = bearer r.auth in
        let v = verify_token-AreGood got r.now w g in
        elim (Bool-cases (is_empty got)) [
          | inl bare ↦ rw (require_auth, bare) g
          | inr some_bearer ↦ elim (Bool-cases (is_root cfg.token got)) [
            | inl root ↦
                rw (require_auth, some_bearer, root) (k w (record a { auth_kind = by_root }) g)
            | inr other ↦ elim (Option-cases (verify_token C P B.State got r.now w).1) [
              | inl miss ↦ rw (require_auth, some_bearer, other, miss) v
              | inr (rec, hit) ↦
                  rw (require_auth, some_bearer, other, hit)
                    (k (verify_token C P B.State got r.now w).0 (as_token rec a) v)
            ]
          ]
        ]

    require_root-Keeps :
        (next : Handler C P B.State) (r : Request)
        → Keeps next r
        → Keeps (require_root C P B.State cfg.token next) r
    unfolding Keeps require_root
    require_root-Keeps next r k w a g =
        let got = bearer r.auth in
        let v = verify_token-AreGood got r.now w g in
        elim (Bool-cases (is_empty got)) [
          | inl bare ↦ rw (require_root, bare) g
          | inr some_bearer ↦ elim (Bool-cases (is_root cfg.token got)) [
            | inl root ↦
                rw (require_root, some_bearer, root) (k w (record a { auth_kind = by_root }) g)
            | inr other ↦ elim (Option-cases (verify_token C P B.State got r.now w).1) [
              | inl miss ↦ rw (require_root, some_bearer, other, miss) v
              | inr (rec, hit) ↦ rw (require_root, some_bearer, other, hit) v
            ]
          ]
        ]

    -- Where the two handlers that change the tokens leave them.
    tokens-create_token :
        (s : Store Medium) (name : Text) (ttl : Option ℕ) (r : Request) (w : World B.State Medium)
        (a : Audit)
        → (create_token C P B parse_duration cfg s name ttl r w a).0.tokens
          ≡ some (create C P s name ttl r.now r.draws r.raw).0
    unfolding create_token
    tokens-create_token s name ttl r w a = ground arith

    handle_create_token-Keeps :
        (r : Request) → Fed r → Keeps (handle_create_token C P B parse_duration cfg) r
    unfolding Keeps handle_create_token apply
    handle_create_token-Keeps r f w a g = elim (Option-cases w.tokens) [
      | inl nil ↦ rw (handle_create_token, nil) g
      | inr (s, e) ↦ elim (Option-cases r.form) [
        | inl bad ↦ rw (handle_create_token, e, bad) g
        | inr (form, read) ↦ go s form e read (parse_token_expiry parse_duration form.expires) refl
      ]
    ]
      where
        go :
            (s : Store Medium) (form : CreateTokenRequest)
            → w.tokens ≡ some s
            → r.form ≡ some form
            → (t : Result (Unit {0}) (Option ℕ))
            → parse_token_expiry parse_duration form.expires ≡ t
            → AreGood (handle_create_token C P B parse_duration cfg r w a).0.tokens
        go s form e read (err x) t = rw (handle_create_token, e, read, t) g
        go s form e read (ok ttl) t =
            rw (handle_create_token, e, read, t, tokens-create_token s form.name ttl r w a)
              (apply-IsGood C P Y s (mint_op form.name ttl r.now r.draws r.raw) f
                (subst AreGood e g))

    tokens-handle_revoke_token :
        (id : Text) (s : Store Medium) (r : Request) (w : World B.State Medium) (a : Audit)
        → w.tokens ≡ some s
        → (handle_revoke_token C P B parse_duration cfg id r w a).0.tokens
          ≡ some (revoke C P s id).0
    unfolding handle_revoke_token
    tokens-handle_revoke_token id s r w a e = ground (arith, e)

    handle_revoke_token-Keeps :
        (id : Text) (r : Request) → Keeps (handle_revoke_token C P B parse_duration cfg id) r
    unfolding Keeps handle_revoke_token apply
    handle_revoke_token-Keeps id r w a g = elim (Option-cases w.tokens) [
      | inl nil ↦ rw (handle_revoke_token, nil) g
      | inr (s, e) ↦
          subst AreGood (sym (tokens-handle_revoke_token id s r w a e))
            (apply-IsGood C P Y s (revoke_op id) tt (subst AreGood e g))
    ]

    handle_list_tokens-Keeps : (r : Request) → Keeps (handle_list_tokens C P B parse_duration cfg) r
    unfolding Keeps handle_list_tokens
    handle_list_tokens-Keeps r w a g = elim (Option-cases w.tokens) [
      | inl nil ↦ rw (handle_list_tokens, nil) g
      | inr (s, e) ↦ rw (handle_list_tokens, e) g
    ]

    pub serve_broker-AreGood :
        (route : Route) (r : Request) (w : World B.State Medium)
        → Fed r
        → AreGood w.tokens
        → AreGood (serve_broker C P B parse_duration cfg route r w).0.tokens
    unfolding serve_broker Keeps
    serve_broker-AreGood get_status r w f g =
        keeps (handle_status C P B parse_duration cfg) r
          (tokens-handle_status C P B parse_duration cfg) w new_audit g
    serve_broker-AreGood get_sites r w f g =
        require_auth-Keeps (handle_list_sites C P B parse_duration cfg) r
          (keeps _ r (tokens-handle_list_sites C P B parse_duration cfg)) w new_audit g
    serve_broker-AreGood (put_site name) r w f g =
        require_auth-Keeps (handle_put_site C P B parse_duration cfg name) r
          (keeps _ r (tokens-handle_put_site C P B parse_duration cfg name)) w new_audit g
    serve_broker-AreGood (delete_site name) r w f g =
        require_auth-Keeps (handle_delete_site C P B parse_duration cfg name) r
          (keeps _ r (tokens-handle_delete_site C P B parse_duration cfg name)) w new_audit g
    serve_broker-AreGood post_tokens r w f g =
        require_root-Keeps (handle_create_token C P B parse_duration cfg) r
          (handle_create_token-Keeps r f) w new_audit g
    serve_broker-AreGood get_tokens r w f g =
        require_root-Keeps (handle_list_tokens C P B parse_duration cfg) r
          (handle_list_tokens-Keeps r) w new_audit g
    serve_broker-AreGood (delete_token id) r w f g =
        require_root-Keeps (handle_revoke_token C P B parse_duration cfg id) r
          (handle_revoke_token-Keeps id r) w new_audit g
