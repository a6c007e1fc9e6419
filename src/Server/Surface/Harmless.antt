-- ===== src/Server/Surface/Harmless.antt =====
-- What a request without credentials can do, on every surface.
use crate_html.Prelude.{
  ◌≡◌, refl, Bool, not, true, false, ◌||◌, Option, List, Text, text_eq, ℤ, arith,
}
use mathlib.Core.Path.{subst}
use crate_html.Server.Surface.Cases.{is_web, serve-cases}
use crate_html.Server.Surface.Reads.{Reads, here, list, handle_public-Reads}
use crate_html.Token.Persistence.{Persistence}
use crate_html.Token.Store.{Codec}
use crate_html.Config.{Config}
use crate_html.Wire.{Backend}
use crate_html.Server.{Request, World}
use crate_html.Server.Public.{Builtin}
use crate_html.Server.Guards.{is_admitted, is_status, serve_broker-denied}
use crate_html.Server.Routes.{
  Route, get_status, get_sites, post_tokens, get_tokens, put_site, delete_site, delete_token,
  serve_broker,
}
use crate_html.Server.Surface.{path_of, by_pages, Role, serve}

not-true : (b : Bool) → not b ≡ true → b ≡ false
not-true true h = cc
not-true false h = refl

module _ (C : Codec) (P : Persistence) (B : Backend) (parse_duration : Text → Option ℤ)
    (cfg : Config) (builtins : List (Builtin B.Fs)) where
  open P use {Medium}

  -- The tokens stay, and the sites are only read.
  abbrev pub IsHarmless : World B.State Medium → World B.State Medium → Type 0
  IsHarmless w w' = Reads B w.sites w'.sites × (w'.tokens ≡ w.tokens)

  idle : (w : World B.State Medium) → IsHarmless w w
  idle w = (here, refl)

  handle_status-IsHarmless :
      (r : Request) (w : World B.State Medium)
      → IsHarmless w (serve_broker C P B parse_duration cfg get_status r w).0
  unfolding serve_broker
  handle_status-IsHarmless r w = (subst (Reads B w.sites) (ground arith) (list here), ground arith)

  denied :
      (route : Route) (r : Request) (w : World B.State Medium)
      → is_status route ≡ false
      → is_admitted C P B.State cfg.token r w ≡ false
      → IsHarmless w (serve_broker C P B parse_duration cfg route r w).0
  denied route r w n h =
      rw ((serve_broker-denied C P B parse_duration cfg route r w n h).0) (idle w)

  by_broker-IsHarmless :
      (route : Route) (r : Request) (w : World B.State Medium)
      → is_admitted C P B.State cfg.token r w ≡ false
      → IsHarmless w (serve_broker C P B parse_duration cfg route r w).0
  by_broker-IsHarmless get_status r w h = handle_status-IsHarmless r w
  by_broker-IsHarmless get_sites r w h = denied get_sites r w refl h
  by_broker-IsHarmless (put_site name) r w h = denied (put_site name) r w refl h
  by_broker-IsHarmless (delete_site name) r w h = denied (delete_site name) r w refl h
  by_broker-IsHarmless post_tokens r w h = denied post_tokens r w refl h
  by_broker-IsHarmless get_tokens r w h = denied get_tokens r w refl h
  by_broker-IsHarmless (delete_token id) r w h = denied (delete_token id) r w refl h

  by_pages-IsHarmless :
      (segments : List Text) (r : Request) (w : World B.State Medium)
      → IsHarmless w (by_pages C P B parse_duration cfg builtins segments r w).0
  by_pages-IsHarmless segments r w =
      (handle_public-Reads B r.now builtins (path_of segments) w.sites, refl)

  -- A request without the root token and without a token that Verify admits, whatever its method and
  -- its path, leaves the tokens as they are and only reads the sites, in every role of the daemon; in
  -- the web role no request does more, whatever its credentials.
  pub serve-IsHarmless :
      (role : Role) (method : Text) (segments : List Text) (r : Request) (w : World B.State Medium)
      → (is_web role || not (is_admitted C P B.State cfg.token r w)) ≡ true
      → IsHarmless w (serve C P B parse_duration cfg builtins role method segments r w).0
  serve-IsHarmless role method segments r w h =
      serve-cases C P B parse_duration cfg builtins method segments r w (IsHarmless w) (idle w)
        (by_pages-IsHarmless segments r w) role
        (λ n route. by_broker-IsHarmless route r w (not-true _ (ground (arith, n, h))))
