-- ===== src/Daemon/Tokens.antt =====
-- The tokens of a daemon over its whole life.
use crate_html.Prelude.{
  ok-injective, ◌≡◌, refl, sym, ap, ◌∙◌, true, Option, Text, ℤ, is_empty, Result, ok, err,
}
use mathlib.Core.Path.{subst}
use crate_html.Token.Persistence.{Persistence}
use crate_html.Token.Store.{Store, Codec, TokenError, load_from}
use crate_html.Token.Durable.{IsCodec}
use crate_html.Token.Runs.{load_from-IsGood}
use crate_html.Config.{Config, ConfigCodec, ConfigFile}
use crate_html.Wire.{Backend}
use crate_html.Server.{World}
use crate_html.Server.Privileges.{tokens-refresh_site_count}
use crate_html.Server.Tokens.{Fed, AreGood, serve_broker-AreGood}
use crate_html.Server.Surface.{Role, all, web, broker}
use crate_html.Server.Surface.Cases.{serve-cases}
use crate_html.Daemon.{
  kept, Outset, Daemon, boot, new_server, open_tokens, Reaches, here, request, sweep,
}
use crate_html.Daemon.Starting.{boot-Booted}
use crate_html.Daemon.Unprivileged.{tokens-delete_expired}

module _ (C : Codec) (P : Persistence) (B : Backend) (Y : ConfigCodec)
    (parse_duration : Text → Option ℤ) where
  open P use {Medium}

  tokens-new_server :
      (role : Role) (cfg : Config) (st : B.State) (minted : Option (Store Medium))
      → (new_server C P B Y parse_duration role cfg st minted).tokens ≡ minted
  unfolding new_server
  tokens-new_server all cfg st minted = tokens-refresh_site_count C P B parse_duration cfg _
  tokens-new_server broker cfg st minted = tokens-refresh_site_count C P B parse_duration cfg _
  tokens-new_server web cfg st minted = refl

  kept-AreGood :
      (m : Medium) (minted : Option (Store Medium))
      → is_empty (P.content m) ≡ true
      → (o : Result TokenError (Store Medium)) → load_from C P m ≡ o
      → kept o ≡ ok minted
      → AreGood C P minted
  kept-AreGood m minted e (ok s) k h =
      subst (AreGood C P) (ok-injective h) (load_from-IsGood C P m s e k)
  kept-AreGood m minted e (err x) k h = cc

  open_tokens-AreGood :
      (role : Role) (m : Medium) (minted : Option (Store Medium))
      → is_empty (P.content m) ≡ true
      → open_tokens C P B Y parse_duration role m ≡ ok minted
      → AreGood C P minted
  unfolding open_tokens
  open_tokens-AreGood web m minted e h = subst (AreGood C P) (ok-injective h) tt
  open_tokens-AreGood all m minted e h = kept-AreGood m minted e (load_from C P m) refl h
  open_tokens-AreGood broker m minted e h = kept-AreGood m minted e (load_from C P m) refl h

  Reaches-AreGood :
      (Z : IsCodec C) (role : Role) (d : Daemon B.State Medium B.Fs) (w v : World B.State Medium)
      → AreGood C P w.tokens
      → Reaches C P B Y parse_duration role d Fed w v
      → AreGood C P v.tokens
  Reaches-AreGood Z role d w v g here = g
  Reaches-AreGood Z role d w v g (request {v = u} method segments r f reached) =
      let k = Reaches-AreGood Z role d w u g reached in
      serve-cases C P B parse_duration d.cfg d.builtins method segments r u
        (λ x. AreGood C P x.tokens) k k role
        (λ n route. serve_broker-AreGood C P B parse_duration d.cfg Z route r u f k)
  Reaches-AreGood Z role d w v g (sweep {v = u} now n reached) =
      subst (AreGood C P) (sym (tokens-delete_expired C P B Y parse_duration d.cfg now u))
        (Reaches-AreGood Z role d w u g reached)

  -- A daemon that first starts on an empty token document, in any role, goes through any requests
  -- and rounds of the expiry watch, with saves of the document that fail among them, only to worlds
  -- whose tokens have distinct ids and names and are, but for when they were last used, those that
  -- the stored document holds; YAML is taken to read back what it wrote, and rand.Read to fill its slices.
  pub boot-AreGood :
      (Z : IsCodec C) (role : Role) (o : Outset B.State Medium B.Fs) (f : ConfigFile)
      (d : Daemon B.State Medium B.Fs) (w : World B.State Medium)
      → (boot C P B Y parse_duration role o f).1 ≡ ok d
      → is_empty (P.content o.medium) ≡ true
      → Reaches C P B Y parse_duration role d Fed d.world w
      → AreGood C P w.tokens
  boot-AreGood Z role o f d w h e reached =
      let b = boot-Booted C P B Y parse_duration role o f d h in
      Reaches-AreGood Z role d d.world w
        (subst (AreGood C P)
          (sym (ap World.tokens b.served ∙ tokens-new_server role b.cfg b.sites b.minted))
          (open_tokens-AreGood role o.medium b.minted e b.loaded))
        reached
