-- ===== src/Daemon/Unprivileged.antt =====
-- The daemon under requests that lack the root token.
use crate_html.Prelude.{ℕ, ◌≡◌, refl, ◌∙◌, false, Option, Text, ℤ, arith}
use crate_html.Token.Persistence.{Persistence}
use crate_html.Token.Store.{Codec}
use crate_html.Config.{Config, ConfigCodec}
use crate_html.Wire.{Backend}
use crate_html.Server.{World}
use crate_html.Server.Handlers.{delete_expired}
use crate_html.Server.Guards.{holds_root}
use crate_html.Server.Privileges.{tokens_of, tokens_cong, serve_broker-unprivileged}
use crate_html.Server.Surface.{Role}
use crate_html.Server.Surface.Cases.{serve-cases}
use crate_html.Daemon.{Daemon, Reaches, here, request, sweep}

module _ (C : Codec) (P : Persistence) (B : Backend) (Y : ConfigCodec)
    (parse_duration : Text → Option ℤ) where
  open P use {Medium}

  pub tokens-delete_expired :
      (cfg : Config) (now : ℕ) (w : World B.State Medium)
      → (delete_expired C P B parse_duration cfg now w).0.tokens ≡ w.tokens
  unfolding delete_expired
  tokens-delete_expired cfg now w = ground arith

  -- In every role: whatever requests without the root token and rounds of the expiry watch a daemon
  -- goes through, and whatever minted tokens those requests carry, its set of tokens stays the same
  -- but for when a token was last used.
  pub tokens_of-Reaches :
      (role : Role) (d : Daemon B.State Medium B.Fs) (w v : World B.State Medium)
      → Reaches C P B Y parse_duration role d (λ r. holds_root d.cfg.token r ≡ false) w v
      → tokens_of v ≡ tokens_of w
  tokens_of-Reaches role d w v here = refl
  tokens_of-Reaches role d w v (request {v = u} method segments r lacks reached) =
      serve-cases C P B parse_duration d.cfg d.builtins method segments r u
        (λ x. tokens_of x ≡ tokens_of u) refl refl role
        (λ n route. (serve_broker-unprivileged C P B parse_duration d.cfg route r u lacks).0)
      ∙ tokens_of-Reaches role d w u reached
  tokens_of-Reaches role d w v (sweep {v = u} now n reached) =
      tokens_cong C P B parse_duration d.cfg u (delete_expired C P B parse_duration d.cfg now u).0
        (tokens-delete_expired d.cfg now u)
      ∙ tokens_of-Reaches role d w u reached
