-- ===== src/Server/Minting.antt =====
-- A token from the control plane and its first use there.
use crate_html.Prelude.{
  ℕ, ◌≡◌, refl, sym, ap, ◌∙◌, true, false, Option, none, some, [], ◌++◌, Text, text_eq, codes,
  is_empty, ℤ, arith, Bool-cases, Option-cases, inl, inr, Result, ok, err, All, cut_prefix-append,
  cut_prefix,
}
use crate_html.Token.{Record, id_bytes, secret_bytes}
use crate_html.Token.Persistence.{Persistence}
use crate_html.Token.Store.{Store, Codec, create, verify, is_past, TokenError, split_bearer}
use crate_html.Token.Invariant.{Full}
use crate_html.Token.Verdicts.{verify-create}
use crate_html.Config.{Config}
use mathlib.Core.Path.{subst}
use crate_html.Wire.{CreateTokenRequest, TokenInfo, Backend}
use crate_html.Server.{Audit, Request, minted, World, new_audit, write_json, by_root}
use crate_html.Server.Auth.{Outcome, bearer, is_root, verify_token, require_root}
use crate_html.Server.Expiry.{parse_token_expiry}
use crate_html.Server.Handlers.{token_info, create_token, handle_create_token}
use crate_html.Server.Routes.{post_tokens, serve_broker}
use crate_html.Server.Guards.{is_admitted}

module _ (C : Codec) (P : Persistence) (B : Backend) (parse_duration : Text → Option ℤ)
    (cfg : Config) where
  open P use {Medium}

  -- What POST /api/tokens did when it answered with a token.
  record Minted (r : Request) (w w' : World B.State Medium) (plain : Text) (info : TokenInfo)
      : Type 0 where
    store : Store Medium
    name : Text
    ttl : Option ℕ
    rec : Record
    made : (create C P store name ttl r.now r.draws r.raw).1 ≡ ok (plain, rec)
    told : info ≡ token_info rec
    kept : w'.tokens ≡ some (create C P store name ttl r.now r.draws r.raw).0

  create_token-Minted :
      (s : Store Medium) (name : Text) (ttl : Option ℕ) (r : Request) (w : World B.State Medium)
      (a : Audit) (plain : Text) (info : TokenInfo)
      → (create_token C P B parse_duration cfg s name ttl r w a).2
        ≡ write_json 201 (minted plain info)
      → Minted r w (create_token C P B parse_duration cfg s name ttl r w a).0 plain info
  unfolding create_token
  create_token-Minted s name ttl r w a plain info h =
      go (create C P s name ttl r.now r.draws r.raw).1 refl h
    where
      go :
          (o : Result TokenError (Text × Record))
          → (create C P s name ttl r.now r.draws r.raw).1 ≡ o
          → (create_token C P B parse_duration cfg s name ttl r w a).2
            ≡ write_json 201 (minted plain info)
          → Minted r w (create_token C P B parse_duration cfg s name ttl r w a).0 plain info
      go (ok (p, rec)) e k = record {
        store = s;
        name = name;
        ttl = ttl;
        rec = rec;
        made = ground (arith, e);
        told = ground (arith, e);
        kept = ground (arith, e);
      }
      go (err TokenError.read_failed) e k = ground (arith, e)
      go (err TokenError.parse_failed) e k = ground (arith, e)
      go (err TokenError.invalid_name) e k = ground (arith, e)
      go (err TokenError.duplicate_name) e k = ground (arith, e)
      go (err TokenError.no_unique_id) e k = ground (arith, e)
      go (err TokenError.random_failed) e k = ground (arith, e)
      go (err TokenError.save_failed) e k = ground (arith, e)
      go (err TokenError.not_found) e k = ground (arith, e)

  handle_create_token-Minted :
      (r : Request) (w : World B.State Medium) (a : Audit) (plain : Text) (info : TokenInfo)
      → (handle_create_token C P B parse_duration cfg r w a).2 ≡ write_json 201 (minted plain info)
      → Minted r w (handle_create_token C P B parse_duration cfg r w a).0 plain info
  unfolding handle_create_token
  handle_create_token-Minted r w a plain info h = elim (Option-cases w.tokens) [
    | inl nil ↦ ground (arith, nil)
    | inr (s, there) ↦ elim (Option-cases r.form) [
      | inl bad ↦ ground (arith, there, bad)
      | inr (form, sent) ↦
          go s there form sent (parse_token_expiry parse_duration form.expires) refl h
    ]
  ]
    where
      go :
          (s : Store Medium)
          → w.tokens ≡ some s
          → (form : CreateTokenRequest) → r.form ≡ some form
          → (x : Result (Unit {0}) (Option ℕ)) → parse_token_expiry parse_duration form.expires ≡ x
          → (handle_create_token C P B parse_duration cfg r w a).2
            ≡ write_json 201 (minted plain info)
          → Minted r w (handle_create_token C P B parse_duration cfg r w a).0 plain info
      go s there form sent (err t) e k = ground (arith, there, sent, e)
      go s there form sent (ok ttl) e k =
          let same : handle_create_token C P B parse_duration cfg r w a
              ≡ create_token C P B parse_duration cfg s form.name ttl r w a =
            ground (arith, there, sent, e) in
          subst (λ (o : Outcome C P B.State). Minted r w o.0 plain info) (sym same)
            (create_token-Minted s form.name ttl r w a plain info
              (ap (λ (o : Outcome C P B.State). o.2) (sym same) ∙ k))

  post_tokens-Minted :
      (r : Request) (w : World B.State Medium) (plain : Text) (info : TokenInfo)
      → (serve_broker C P B parse_duration cfg post_tokens r w).2
        ≡ write_json 201 (minted plain info)
      → Minted r w (serve_broker C P B parse_duration cfg post_tokens r w).0 plain info
  unfolding serve_broker require_root
  post_tokens-Minted r w plain info h =
      let a : Audit = record new_audit { auth_kind = by_root } in
      let got = bearer r.auth in
      elim (Bool-cases (is_empty got)) [
        | inl missing ↦ ground (arith, missing)
        | inr given ↦ elim (Bool-cases (is_root cfg.token got)) [
          | inl root ↦
              let same : serve_broker C P B parse_duration cfg post_tokens r w
                  ≡ handle_create_token C P B parse_duration cfg r w a =
                ground (arith, given, root) in
              subst (λ (o : Outcome C P B.State). Minted r w o.0 plain info) (sym same)
                (handle_create_token-Minted r w a plain info
                  (ap (λ (o : Outcome C P B.State). o.2) (sym same) ∙ h))
          | inr other ↦ elim (Option-cases (verify_token C P B.State got r.now w).1) [
            | inl miss ↦ ground (arith, given, other, miss)
            | inr (rec, hit) ↦ ground (arith, given, other, hit)
          ]
        ]
      ]

  bearer-append : (plain : Text) → bearer (codes "Bearer " ++ plain) ≡ plain
  unfolding bearer
  bearer-append plain = ground (arith, cut_prefix-append (codes "Bearer ") plain)

  verify-empty : (s : Store Medium) (now : ℕ) → (verify C P s [] now).1 ≡ none
  unfolding verify split_bearer cut_prefix
  verify-empty s now = refl

  -- The token that POST /api/tokens returns to the holder of the root token is accepted by a request
  -- to the world that this POST leaves, at every time that is not past its deadline, given random
  -- bytes of the right lengths.
  pub is_admitted-post_tokens :
      (r later : Request) (w : World B.State Medium) (plain : Text) (info : TokenInfo)
      → All (Full id_bytes) r.draws
      → Full secret_bytes r.raw
      → (serve_broker C P B parse_duration cfg post_tokens r w).2
        ≡ write_json 201 (minted plain info)
      → later.auth ≡ codes "Bearer " ++ plain
      → is_past info.expires_at later.now ≡ false
      → is_admitted C P B.State cfg.token later
          (serve_broker C P B parse_duration cfg post_tokens r w).0
        ≡ true
  unfolding is_admitted verify_token token_info
  is_admitted-post_tokens r later w plain info f g h bears alive =
      let m = post_tokens-Minted r w plain info h in
      let s' = (create C P m.store m.name m.ttl r.now r.draws r.raw).0 in
      ground (
        arith,
        m.kept,
        m.told,
        bearer-append plain,
        bears,
        verify-empty s' later.now,
        verify-create C P m.store m.name m.ttl r.now r.draws r.raw plain m.rec later.now f g m.made
            (ground (arith, m.told)),
      )
