-- ===== src/Server/Surface.antt =====
-- Handler, BrokerHandler and PublicHandler: which requests each surface of the daemon serves. A path
-- is given by its segments behind the first slash, as http.ServeMux reads them; paths that it
-- redirects to a cleaner form are left out.
pub mod Cases
pub mod Reads
pub mod Harmless
use crate_html.Prelude.{
  ℕ, Bool, true, false, ◌||◌, Option, none, some, List, [], ◌∷◌, ◌++◌, Text, text_eq, ◌==◌, codes,
  is_empty, ℤ, if◌then◌else◌,
}
use crate_html.Token.Persistence.{Persistence}
use crate_html.Token.Store.{Codec}
use crate_html.Config.{Config}
use crate_html.Wire.{Backend}
use crate_html.Server.{Request, Response, World, health, write_json, write_error}
use crate_html.Server.Public.{Builtin, Page, handle_public}
use crate_html.Server.Routes.{
  Route, get_status, get_sites, post_tokens, get_tokens, put_site, delete_site, delete_token,
  serve_broker,
}

-- The paths of registerBrokerRoutes. A wildcard takes one segment that is not empty.
pub data ApiPath : Type 0 where
  status sites tokens : ApiPath
  site token : Text → ApiPath

unfoldable pub api_collection : Text → Option ApiPath
api_collection s =
    if s == codes "status"
    then some status
    else if s == codes "sites"
    then some sites
    else if s == codes "tokens"
    then some tokens
    else none

unfoldable pub api_item : Text → Text → Option ApiPath
api_item s name =
    if is_empty name
    then none
    else if s == codes "sites"
    then some (site name)
    else if s == codes "tokens"
    then some (token name)
    else none

unfoldable pub api_path : List Text → Option ApiPath
unfolding api_collection api_item
api_path (a ∷ s ∷ []) = if a == codes "api" then api_collection s else none
api_path (a ∷ s ∷ name ∷ []) = if a == codes "api" then api_item s name else none
api_path _ = none

-- A pattern for GET takes HEAD too.
abbrev pub is_get : Text → Bool
is_get method = method == codes "GET" || method == codes "HEAD"

-- The methods of each path.
unfoldable pub route_of : Text → ApiPath → Option Route
route_of method status = if is_get method then some get_status else none
route_of method sites = if is_get method then some get_sites else none
route_of method (site name) =
    if method == codes "PUT"
    then some (put_site name)
    else if method == codes "DELETE"
    then some (delete_site name)
    else none
route_of method tokens =
    if is_get method
    then some get_tokens
    else if method == codes "POST"
    then some post_tokens
    else none
route_of method (token id) = if method == codes "DELETE" then some (delete_token id) else none

unfoldable pub matched : Text → List Text → Option Route
unfolding api_path route_of
matched method segments = elim (api_path segments) [ none ↦ none | some p ↦ route_of method p ]

abbrev pub is_health : List Text → Bool
is_health (a ∷ []) = a == codes "healthz"
is_health _ = false

-- r.URL.Path
unfoldable pub path_of : List Text → Text
path_of [] = []
path_of (s ∷ segments) = b'/' ∷ (s ++ path_of segments)

-- What a request is answered with: by a handler of the broker, by a page, or by the multiplexer.
pub data Answer (F : Type 0) : Type 0 where
  api : Response → Answer F
  page : Page F → Answer F
  not_found not_allowed : Answer F

-- The runtime roles of cmd/crated.
pub data Role : Type 0 where
  all web broker : Role

-- handleHealth
abbrev pub handle_health : Response
handle_health = write_json 200 health

module _ (C : Codec) (P : Persistence) (B : Backend) (parse_duration : Text → Option ℤ)
    (cfg : Config) (builtins : List (Builtin B.Fs)) where
  open P use {Medium}

  abbrev pub Served : Type 0
  Served = World B.State Medium × Answer B.Fs

  abbrev pub by_broker : Route → Request → World B.State Medium → Served
  by_broker route r w =
      let (w', _, response) = serve_broker C P B parse_duration cfg route r w in (w', api response)

  abbrev pub by_pages : List Text → Request → World B.State Medium → Served
  by_pages segments r w =
      let (st, answer) = handle_public B r.now builtins (path_of segments) w.sites in
      (record w { sites = st }, page answer)

  -- BrokerHandler: a path of the broker with another method is 405, any other path 404.
  unfoldable pub broker_handler : Text → List Text → Request → World B.State Medium → Served
  unfolding matched
  broker_handler method segments r w =
      if is_health segments
      then (if is_get method then (w, api handle_health) else (w, not_allowed))
      else elim (api_path segments) [
        | none ↦ (w, not_found)
        | some p ↦ elim (route_of method p) [
          | none ↦ (w, not_allowed)
          | some route ↦ by_broker route r w
        ]
      ]

  -- PublicHandler: what is no GET falls to http.NotFound.
  unfoldable pub public_handler : Text → List Text → Request → World B.State Medium → Served
  unfolding path_of
  public_handler method segments r w =
      if is_get method
      then (if is_health segments then (w, api handle_health) else by_pages segments r w)
      else (w, not_found)

  -- Handler: "GET /" takes every GET that nothing more specific takes.
  unfoldable pub handler : Text → List Text → Request → World B.State Medium → Served
  unfolding matched path_of
  handler method segments r w =
      if is_health segments
      then (if is_get method then (w, api handle_health) else (w, not_allowed))
      else elim (matched method segments) [
        | some route ↦ by_broker route r w
        | none ↦ if is_get method then by_pages segments r w else (w, not_allowed)
      ]

  unfoldable pub serve : Role → Text → List Text → Request → World B.State Medium → Served
  unfolding handler public_handler broker_handler
  serve all = handler
  serve web = public_handler
  serve broker = broker_handler
