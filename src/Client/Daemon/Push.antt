-- ===== src/Client/Daemon/Push.antt =====
-- A push of the client against a daemon that serves the broker: PushReaderWithExpiry of
-- internal/cliclient/client.go behind logBrokerRequest and handlePutSite of internal/server/server.go.
use crate_html.Prelude.{
  ok-injective, ◌≡◌, ◌↔◌, refl, sym, ap, ◌∙◌, Bool, true, false, Option, none, some, List, ◌∷◌,
  ◌++◌, Text, text_eq, codes, is_empty, ℤ, arith, Result, ok,
}
use crate_html.Name.{validate_site}
use crate_html.Token.Persistence.{Persistence}
use crate_html.Token.Store.{Codec}
use crate_html.Config.{Config, effective_public_url}
use crate_html.Wire.{Site, Backend}
use crate_html.Server.{Request, Response, World, Upload, by_root, new_audit, stored}
use crate_html.Server.Handlers.{handle_put_site, site_url}
use crate_html.Server.Publishing.{Published, handle_put_site_iff, handle_put_site-Published}
use crate_html.Server.Public.{Builtin}
use crate_html.Server.Surface.{Role, api}
use crate_html.Server.Surface.Cases.{is_web}
use crate_html.Client.Daemon.Routing.{segments_of-put, serve_broker-root, serve-put}
use crate_html.Client.Daemon.{request_of, reply_of, call_daemon}
use crate_html.Client.{
  Client, Call, Reply, Json, ClientError, path_sites, put_req, new_req, push_reader, do_call,
  expect, decoded,
}

-- The client takes no other status for a site.
expect-status :
    (J : Json) (parses : Text → Bool) {S : Type 0} (send : Call → S → S × Option Reply)
    (r : Response) (z : Site × Text)
    → expect J parses send 200
        (λ b. decoded (J.stored_of b))
        (some (record { status = r.status; body = J.encode r.payload }))
      ≡ ok z
    → r.status ≡ 200
expect-status J parses send r z h = ground arith

pair-injective :
    {A B : Type 0} {a a' : A} {b b' : B} → Path (A × B) (a, b) (a', b') → (a ≡ a') × (b ≡ b')
pair-injective h = (cc, cc)

module _ (C : Codec) (P : Persistence) (B : Backend) (parse_duration : Text → Option ℤ)
    (cfg : Config) (builtins : List (Builtin B.Fs)) where
  open P use {Medium}

  -- What the daemon reads of a push.
  abbrev pub received : Client → Upload → Text → Request → Request
  received c body expiry env = record env {
    auth = codes "Bearer " ++ c.token;
    expires = expiry;
    body = body;
    form = none;
  }

  -- The push of an archive to the daemon: what it leaves, and what the client reports.
  abbrev pub pushed :
      Json
      → (Text → Bool)
      → Role
      → Client
      → Text
      → Upload
      → Text
      → Request
      → World B.State Medium
      → World B.State Medium × Result ClientError (Site × Text)
  pushed J parses role c name body expiry env =
      push_reader J parses (call_daemon J C P B parse_duration cfg builtins role c.base env) c name
        body expiry

  -- The handler of the upload, behind the guard.
  abbrev pub handled : Text → Request → World B.State Medium → World B.State Medium × Response
  handled name r w =
      let (w', _, answer) =
        handle_put_site C P B parse_duration cfg name r w
          (record new_audit { auth_kind = by_root }) in
      (w', answer)

  module _ (J : Json) (role : Role) (c : Client) (name : Text) (body : Upload) (expiry : Text)
      (env : Request) (w : World B.State Medium) (broker_role : is_web role ≡ false)
      (named : validate_site name ≡ true) (set : is_empty cfg.token ≡ false)
      (shared : c.token ≡ cfg.token) where
    call_daemon-put :
        call_daemon J C P B parse_duration cfg builtins role c.base env
          (put_req c name body expiry)
          w
        ≡ (
          (handled name (received c body expiry env) w).0,
          some (reply_of J {F = B.Fs} (api (handled name (received c body expiry env) w).1)),
        )
    unfolding call_daemon put_req request_of
    call_daemon-put =
        rw
          (
            call_daemon,
            segments_of-put c.base name named,
            serve-put C P B parse_duration cfg builtins role name (received c body expiry env) w
                broker_role named,
            serve_broker-root C P B parse_duration cfg builtins name (received c body expiry env) w
                set (ap (λ (t : Text). codes "Bearer " ++ t) shared),
          )
          refl

    module _ (parses : Text → Bool)
        (valid_url : parses (c.base ++ (path_sites ++ b'/' ∷ name)) ≡ true)
        (reads : (s : Site) (u : Text) → J.stored_of (J.encode (stored s u)) ≡ some (s, u)) where
      push_reader-handled :
          ((pushed J parses role c name body expiry env w).0
            ≡ (handled name (received c body expiry env) w).0)
          × ((pushed J parses role c name body expiry env w).1
              ≡ expect J parses
                  (call_daemon J C P B parse_duration cfg builtins role c.base env)
                  200
                  (λ b. decoded (J.stored_of b))
                  (some
                    (reply_of J {F = B.Fs} (api (handled name (received c body expiry env) w).1))))
      unfolding push_reader do_call put_req new_req
      push_reader-handled = rw (push_reader, do_call, valid_url, call_daemon-put) (refl, refl)

      -- A site is reported behind status 200 alone.
      answered-ok :
          (site : Site) (url : Text)
          → (pushed J parses role c name body expiry env w).1 ≡ ok (site, url)
          → (handled name (received c body expiry env) w).1.status ≡ 200
      answered-ok site url h =
          expect-status J parses (call_daemon J C P B parse_duration cfg builtins role c.base env)
            (handled name (received c body expiry env) w).1 (site, url)
            (sym push_reader-handled.1 ∙ h)

      -- What has been published is reported.
      published :
          (p : Published C P B parse_duration cfg name (received c body expiry env) w)
          → env.can_stage ≡ true
          → env.can_rewind ≡ true
          → (pushed J parses role c name body expiry env w).1
            ≡ ok (p.site, site_url (effective_public_url cfg) name)
      published p staged can =
          push_reader-handled.1
          ∙ rw
              (
                handle_put_site-Published C P B parse_duration cfg name (received c body expiry env)
                    w (record new_audit { auth_kind = by_root }) p staged can,
                reads p.site (site_url (effective_public_url cfg) name),
              )
              refl

      -- A push of a site with a valid name, with the root token that client and daemon share, to a
      -- daemon that serves the broker, leaves what the upload's handler leaves, and the client reports
      -- a site and its URL exactly when the daemon has published that site under that URL; the JSON
      -- of that answer is taken to be read back, and the URL of the upload to parse.
      pub push_reader_iff :
          ((pushed J parses role c name body expiry env w).0
            ≡ (handled name (received c body expiry env) w).0)
          × ((site : Site) (url : Text)
              → ((pushed J parses role c name body expiry env w).1 ≡ ok (site, url)) ↔ (
                  (p : Published C P B parse_duration cfg name (received c body expiry env) w)
                  × (env.can_stage ≡ true)
                  × (env.can_rewind ≡ true)
                  × (site ≡ p.site)
                  × (url ≡ site_url (effective_public_url cfg) name)))
      push_reader_iff = (push_reader-handled.0, λ site url. (there site url, back site url))
        where
          r : Request
          r = received c body expiry env

          there :
              (site : Site) (url : Text)
              → (pushed J parses role c name body expiry env w).1 ≡ ok (site, url)
              → (p : Published C P B parse_duration cfg name r w) × (env.can_stage ≡ true)
                × (env.can_rewind ≡ true)
                × (site ≡ p.site)
                × (url ≡ site_url (effective_public_url cfg) name)
          there site url h =
              let (p, staged, can) =
                (handle_put_site_iff C P B parse_duration cfg name r w
                    (record new_audit { auth_kind = by_root })).0
                  (answered-ok site url h) in
              let e = sym h ∙ published p staged can in
              let (a, b) = pair-injective (ok-injective e) in (p, staged, can, a, b)

          back :
              (site : Site) (url : Text)
              → ((p : Published C P B parse_duration cfg name r w) × (env.can_stage ≡ true)
                  × (env.can_rewind ≡ true)
                  × (site ≡ p.site)
                  × (url ≡ site_url (effective_public_url cfg) name))
              → (pushed J parses role c name body expiry env w).1 ≡ ok (site, url)
          back site url (p, staged, can, s, u) = published p staged can ∙ rw (s, u) refl
