-- ===== src/Client/Daemon/Routing.antt =====
-- How an upload's URL is routed, and what the root token opens.
use crate_html.Prelude.{
  ◌≡◌, refl, ap, ◌∙◌, true, false, Option, some, List, [], ◌∷◌, ◌++◌, Text, text_eq, text_beq,
  codes, is_empty, cut_prefix-append, ℤ, arith, eq_refl,
}
use crate_html.Name.{validate_site}
use crate_html.Name.Laws.{validate_site-has_byte}
use crate_html.TarPath.{split_slash, put_front}
use crate_html.TarPath.Components.{split_slash-append, split_slash-single}
use crate_html.Token.Persistence.{Persistence}
use crate_html.Token.Store.{Codec}
use crate_html.Config.{Config}
use crate_html.Wire.{Backend}
use crate_html.Server.{Request, World, by_root, new_audit}
use crate_html.Server.Auth.{bearer, require_auth}
use crate_html.Server.Handlers.{handle_put_site}
use crate_html.Server.Routes.{put_site, serve_broker}
use crate_html.Server.Public.{Builtin}
use crate_html.Server.Surface.{
  Role, all, web, broker, by_broker, api_item, api_path, route_of, matched, handler, broker_handler,
  serve,
}
use crate_html.Server.Surface.Cases.{is_web}
use crate_html.Client.Daemon.{segments_of}
use crate_html.Client.{path_sites}

-- The URL of a site's upload is taken apart into the segments of its route.
pub segments_of-put :
    (base name : Text)
    → validate_site name ≡ true
    → segments_of base (base ++ (path_sites ++ b'/' ∷ name))
      ≡ some (codes "api" ∷ codes "sites" ∷ name ∷ [])
unfolding segments_of split_slash put_front
segments_of-put base name v =
    let e = cut_prefix-append base (path_sites ++ b'/' ∷ name) in
    let f = split_slash-append (codes "api/sites") name in
    let g = split_slash-single name (validate_site-has_byte b'/' name refl v) in
    rw (segments_of, e)
      (ap (λ (ps : List Text). some ps)
        (f ∙ ap (λ (ps : List Text). split_slash (codes "api/sites") ++ ps) g))

bearer-append : (token : Text) → bearer (codes "Bearer " ++ token) ≡ token
unfolding bearer
bearer-append token = ground (arith, cut_prefix-append (codes "Bearer ") token)

validate_site-nil : {A : Type 0} → validate_site [] ≡ true → A
unfolding validate_site
validate_site-nil v = cc

module _ (C : Codec) (P : Persistence) (B : Backend) (parse_duration : Text → Option ℤ)
    (cfg : Config) (builtins : List (Builtin B.Fs)) where
  open P use {Medium}

  -- The root token opens the upload.
  pub serve_broker-root :
      (name : Text) (r : Request) (w : World B.State Medium)
      → is_empty cfg.token ≡ false
      → r.auth ≡ codes "Bearer " ++ cfg.token
      → serve_broker C P B parse_duration cfg (put_site name) r w
        ≡ handle_put_site C P B parse_duration cfg name r w
            (record new_audit { auth_kind = by_root })
  unfolding serve_broker
  serve_broker-root name r w n e =
      let b = ap bearer e ∙ bearer-append cfg.token in
      rw (require_auth, b, n, eq_refl cfg.token) refl

  pub serve-put :
      (role : Role) (name : Text) (r : Request) (w : World B.State Medium)
      → is_web role ≡ false
      → validate_site name ≡ true
      → serve C P B parse_duration cfg builtins role
          (codes "PUT")
          (codes "api" ∷ codes "sites" ∷ name ∷ [])
          r
          w
        ≡ by_broker C P B parse_duration cfg builtins (put_site name) r w
  unfolding text_beq serve handler broker_handler matched api_path api_item route_of
  serve-put all [] r w h v = validate_site-nil v
  serve-put all (c ∷ s) r w h v = refl
  serve-put web name r w h v = cc
  serve-put broker [] r w h v = validate_site-nil v
  serve-put broker (c ∷ s) r w h v = refl
