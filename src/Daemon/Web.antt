-- ===== src/Daemon/Web.antt =====
-- The public role of the daemon over its whole life.
use crate_html.Prelude.{ok-injective, ◌≡◌, refl, sym, ap, ◌∙◌, Option, none, some, Text, ℤ, ok}
use crate_html.Token.Persistence.{Persistence}
use crate_html.Token.Store.{Codec}
use crate_html.Config.{ConfigCodec, ConfigFile}
use crate_html.Wire.{Backend}
use crate_html.Daemon.{Outset, Daemon, boot, Reaches, here, request, sweep, new_server, open_tokens}
use crate_html.Daemon.Starting.{Booted, boot-Booted}
use mathlib.Core.Path.{subst}
use crate_html.Server.{World}
use crate_html.Server.Surface.{web}
use crate_html.Server.Surface.Reads.{Reads, list, names, stat, open_site}
use crate_html.Server.Surface.Harmless.{serve-IsHarmless}

Reads-trans : (B : Backend) {s t u : B.State} → Reads B s t → Reads B t u → Reads B s u
Reads-trans B r Reads.here = r
Reads-trans B r (list q) = list (Reads-trans B r q)
Reads-trans B r (names q) = names (Reads-trans B r q)
Reads-trans B r (stat name q) = stat name (Reads-trans B r q)
Reads-trans B r (open_site name q) = open_site name (Reads-trans B r q)

some-injective : {A : Type 0} {a b : A} → Path (Option A) (some a) (some b) → a ≡ b
some-injective h = cc

module _ (C : Codec) (P : Persistence) (B : Backend) (Y : ConfigCodec)
    (parse_duration : Text → Option ℤ) where
  open P use {Medium}

  -- The world that a web daemon starts with.
  started :
      (o : Outset B.State Medium B.Fs) (d : Daemon B.State Medium B.Fs)
      → Booted C P B Y parse_duration web o d
      → (o.store ≡ some d.world.sites) × (d.world.tokens ≡ none)
  unfolding new_server open_tokens
  started o d b = (
    b.opened ∙ ap (λ (x : World B.State Medium). some x.sites) (sym b.served),
    ap World.tokens b.served ∙ sym (ok-injective b.loaded),
  )

  -- From the store that it opened, a web daemon gets, by any requests at all, only to states that
  -- reads of the store lead to, and it never holds a token store.
  pub boot-Reads :
      (o : Outset B.State Medium B.Fs) (f : ConfigFile) (d : Daemon B.State Medium B.Fs)
      (st : B.State) (w : World B.State Medium)
      → (boot C P B Y parse_duration web o f).1 ≡ ok d
      → o.store ≡ some st
      → Reaches C P B Y parse_duration web d (λ r. Unit) d.world w
      → Reads B st w.sites × (w.tokens ≡ none)
  boot-Reads o f d st w h k here =
      let (opened, bare) = started o d (boot-Booted C P B Y parse_duration web o f d h) in
      (subst (Reads B st) (some-injective (sym k ∙ opened)) Reads.here, bare)
  boot-Reads o f d st w h k (request method segments r fine reached) =
      let (q, n) = boot-Reads o f d st _ h k reached in
      let (more, same) =
        serve-IsHarmless C P B parse_duration d.cfg d.builtins web method segments r _ refl in
      (Reads-trans B q more, same ∙ n)
  boot-Reads o f d st w h k (sweep now n reached) = cc
