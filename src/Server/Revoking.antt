-- ===== src/Server/Revoking.antt =====
-- A token that the control plane has revoked, and its next use there.
use crate_html.Prelude.{
  ◌≡◌, refl, sym, ap, ◌∙◌, true, false, Option, none, some, Text, text_eq, text_beq_iff, is_empty,
  ℤ, arith, Bool-cases, Option-cases, inl, inr, Result, ok, err,
}
use mathlib.Core.Path.{subst}
use crate_html.Token.Persistence.{Persistence}
use crate_html.Token.Store.{Store, Codec, TokenError, revoke, verify, split_bearer, id_taken}
use crate_html.Token.Invariant.{IsValid}
use crate_html.Token.Verdicts.{verify-revoke}
use crate_html.Config.{Config}
use crate_html.Wire.{Backend}
use crate_html.Server.{Audit, Request, nothing, World, new_audit, by_root, write_json}
use crate_html.Server.Auth.{Outcome, bearer, is_root, verify_token, require_root}
use crate_html.Server.Handlers.{handle_revoke_token}
use crate_html.Server.Routes.{delete_token, serve_broker}
use crate_html.Server.Guards.{is_admitted}

module _ (C : Codec) (P : Persistence) (B : Backend) (parse_duration : Text → Option ℤ)
    (cfg : Config) where
  open P use {Medium}

  -- What DELETE /api/tokens/{id} did when it answered 204.
  Revoked : Text → Store Medium → World B.State Medium → Type 0
  Revoked id s w' = ((revoke C P s id).1 ≡ ok tt) × (w'.tokens ≡ some (revoke C P s id).0)

  handle_revoke_token-Revoked :
      (id : Text) (s : Store Medium) (r : Request) (w : World B.State Medium) (a : Audit)
      → w.tokens ≡ some s
      → (handle_revoke_token C P B parse_duration cfg id r w a).2 ≡ write_json 204 nothing
      → Revoked id s (handle_revoke_token C P B parse_duration cfg id r w a).0
  unfolding handle_revoke_token Revoked
  handle_revoke_token-Revoked id s r w a there h = go (revoke C P s id).1 refl h
    where
      go :
          (o : Result TokenError (Unit {0}))
          → (revoke C P s id).1 ≡ o
          → (handle_revoke_token C P B parse_duration cfg id r w a).2 ≡ write_json 204 nothing
          → Revoked id s (handle_revoke_token C P B parse_duration cfg id r w a).0
      go (ok tt) e k = (e, ground (arith, there, e))
      go (err TokenError.read_failed) e k = ground (arith, there, e)
      go (err TokenError.parse_failed) e k = ground (arith, there, e)
      go (err TokenError.invalid_name) e k = ground (arith, there, e)
      go (err TokenError.duplicate_name) e k = ground (arith, there, e)
      go (err TokenError.no_unique_id) e k = ground (arith, there, e)
      go (err TokenError.random_failed) e k = ground (arith, there, e)
      go (err TokenError.save_failed) e k = ground (arith, there, e)
      go (err TokenError.not_found) e k = ground (arith, there, e)

  delete_token-Revoked :
      (id : Text) (s : Store Medium) (r : Request) (w : World B.State Medium)
      → w.tokens ≡ some s
      → (serve_broker C P B parse_duration cfg (delete_token id) r w).2 ≡ write_json 204 nothing
      → Revoked id s (serve_broker C P B parse_duration cfg (delete_token id) r w).0
  unfolding serve_broker require_root
  delete_token-Revoked id s r w there h =
      let a : Audit = record new_audit { auth_kind = by_root } in
      let got = bearer r.auth in
      elim (Bool-cases (is_empty got)) [
        | inl missing ↦ ground (arith, missing)
        | inr given ↦ elim (Bool-cases (is_root cfg.token got)) [
          | inl root ↦
              let same : serve_broker C P B parse_duration cfg (delete_token id) r w
                  ≡ handle_revoke_token C P B parse_duration cfg id r w a =
                ground (arith, given, root) in
              subst (λ (o : Outcome C P B.State). Revoked id s o.0) (sym same)
                (handle_revoke_token-Revoked id s r w a there
                  (ap (λ (o : Outcome C P B.State). o.2) (sym same) ∙ h))
          | inr other ↦ elim (Option-cases (verify_token C P B.State got r.now w).1) [
            | inl miss ↦ ground (arith, given, other, miss)
            | inr (rec, hit) ↦ ground (arith, given, other, hit)
          ]
        ]
      ]

  -- From distinct ids and names: once DELETE /api/tokens/{id} has answered 204 for an id that was in
  -- use, no request with a well-formed token of that id is admitted, unless it is the root token.
  pub is_admitted-delete_token :
      (id secret : Text) (s : Store Medium) (r later : Request) (w : World B.State Medium)
      → w.tokens ≡ some s
      → IsValid s.recs
      → id_taken id s.recs ≡ true
      → (serve_broker C P B parse_duration cfg (delete_token id) r w).2 ≡ write_json 204 nothing
      → split_bearer (bearer later.auth) ≡ some (id, secret)
      → is_root cfg.token (bearer later.auth) ≡ false
      → is_admitted C P B.State cfg.token later
          (serve_broker C P B parse_duration cfg (delete_token id) r w).0
        ≡ false
  unfolding is_admitted verify_token Revoked
  is_admitted-delete_token id secret s r later w there v used h shape other =
      let (done, kept) = delete_token-Revoked id s r w there h in
      let (gone, is_id, verdict) = verify-revoke C P s id v done in
      let same : gone.id ≡ id = elim is_id.named [
        | inl e ↦ e
        | inr (free, n) ↦ ground (arith, free, used)
      ] in
      let ended : (verify C P (revoke C P s id).0 (bearer later.auth) later.now).1 ≡ none =
        verdict (bearer later.auth) id secret later.now shape
        ∙ rw ((text_beq_iff gone.id id).1 same) refl in
      ground (arith, kept, ended, other)
