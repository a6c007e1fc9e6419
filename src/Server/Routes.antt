-- ===== src/Server/Routes.antt =====
-- registerBrokerRoutes: which guard stands before which handler, and what a request through the
-- broker's surface does. A route is what the multiplexer matched, with the path's parts.
use crate_html.Prelude.{ℕ, Option, Text, ℤ, ltb, leb, ◌&&◌, if◌then◌else◌}
use crate_html.Token.Persistence.{Persistence}
use crate_html.Token.Store.{Codec}
use crate_html.Config.{Config}
use crate_html.Wire.{Backend}
use crate_html.Server.{Request, World, new_audit}
use crate_html.Server.Auth.{Handler, Outcome, require_auth, require_root}
use crate_html.Server.Handlers.{
  handle_status, handle_list_sites, handle_put_site, handle_delete_site, handle_create_token,
  handle_list_tokens, handle_revoke_token,
}

pub data Route : Type 0 where
  get_status get_sites post_tokens get_tokens : Route
  put_site delete_site delete_token : Text → Route

module _ (C : Codec) (P : Persistence) (B : Backend) (parse_duration : Text → Option ℤ)
    (cfg : Config) where
  unfoldable pub broker_route : Route → Handler C P B.State
  unfolding require_auth require_root handle_status handle_list_sites handle_put_site
      handle_delete_site handle_create_token handle_list_tokens handle_revoke_token
  broker_route get_status = handle_status C P B parse_duration cfg
  broker_route get_sites =
      require_auth C P B.State cfg.token (handle_list_sites C P B parse_duration cfg)
  broker_route (put_site name) =
      require_auth C P B.State cfg.token (handle_put_site C P B parse_duration cfg name)
  broker_route (delete_site name) =
      require_auth C P B.State cfg.token (handle_delete_site C P B parse_duration cfg name)
  broker_route post_tokens =
      require_root C P B.State cfg.token (handle_create_token C P B parse_duration cfg)
  broker_route get_tokens =
      require_root C P B.State cfg.token (handle_list_tokens C P B parse_duration cfg)
  broker_route (delete_token id) =
      require_root C P B.State cfg.token (handle_revoke_token C P B parse_duration cfg id)

  -- logBrokerRequest: every request is served with a fresh audit record.
  unfoldable pub serve_broker : Route → Request → World B.State P.Medium → Outcome C P B.State
  unfolding broker_route
  serve_broker route r w = broker_route route r w new_audit

-- mutationOutcome
pub data Mutation : Type 0 where
  success rejected error : Mutation

unfoldable pub mutation_outcome : ℕ → Mutation
mutation_outcome status =
    if leb 200 status && ltb status 300
    then success
    else if leb 400 status && ltb status 500
    then rejected
    else error
