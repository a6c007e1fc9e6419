-- ===== src/Server/Surface/Cases.antt =====
-- What every surface does with a request is one of three things: nothing, a page, or a route of the
-- broker.
use crate_html.Prelude.{
  ◌≡◌, refl, Bool, true, false, Option, List, Text, ℤ, Bool-cases, Option-cases, inl, inr,
}
use crate_html.Token.Persistence.{Persistence}
use crate_html.Token.Store.{Codec}
use crate_html.Config.{Config}
use crate_html.Wire.{Backend}
use crate_html.Server.{Request, World}
use crate_html.Server.Public.{Builtin}
use crate_html.Server.Routes.{Route, serve_broker}
use crate_html.Server.Surface.{
  is_health, is_get, api_path, route_of, matched, by_pages, broker_handler, public_handler, handler,
  Role, all, web, broker, serve,
}

abbrev pub is_web : Role → Bool
is_web web = true
is_web all = false
is_web broker = false

module _ (C : Codec) (P : Persistence) (B : Backend) (parse_duration : Text → Option ℤ)
    (cfg : Config) (builtins : List (Builtin B.Fs)) where
  open P use {Medium}

  module _ (method : Text) (segments : List Text) (r : Request) (w : World B.State Medium)
      (Q : World B.State Medium → Type 0) (idle : Q w)
      (pages : Q (by_pages C P B parse_duration cfg builtins segments r w).0) where
    public_handler-cases :
        Q (public_handler C P B parse_duration cfg builtins method segments r w).0
    unfolding public_handler
    public_handler-cases = elim (Bool-cases (is_get method)) [
      | inl get ↦ elim (Bool-cases (is_health segments)) [
        | inl health ↦ rw (get, public_handler, health) idle
        | inr page ↦ rw (get, public_handler, page) pages
      ]
      | inr other ↦ rw (other, public_handler) idle
    ]

    module _
        (routes : (route : Route) → Q (serve_broker C P B parse_duration cfg route r w).0) where
      broker_handler-cases :
          Q (broker_handler C P B parse_duration cfg builtins method segments r w).0
      unfolding broker_handler
      broker_handler-cases = elim (Bool-cases (is_health segments)) [
        | inl health ↦ elim (Bool-cases (is_get method)) [
          | inl get ↦ rw (health, broker_handler, get) idle
          | inr other ↦ rw (health, broker_handler, other) idle
        ]
        | inr else_where ↦ elim (Option-cases (api_path segments)) [
          | inl off ↦ rw (else_where, broker_handler, off) idle
          | inr (p, on) ↦ elim (Option-cases (route_of method p)) [
            | inl wrong ↦ rw (else_where, broker_handler, on, wrong) idle
            | inr (route, e) ↦ rw (else_where, broker_handler, on, e) (routes route)
          ]
        ]
      ]

      handler-cases : Q (handler C P B parse_duration cfg builtins method segments r w).0
      unfolding handler
      handler-cases = elim (Bool-cases (is_health segments)) [
        | inl health ↦ elim (Bool-cases (is_get method)) [
          | inl get ↦ rw (health, handler, get) idle
          | inr other ↦ rw (health, handler, other) idle
        ]
        | inr else_where ↦ elim (Option-cases (matched method segments)) [
          | inr (route, e) ↦ rw (else_where, handler, e) (routes route)
          | inl off ↦ elim (Bool-cases (is_get method)) [
            | inl get ↦ rw (else_where, handler, off, get) pages
            | inr other ↦ rw (else_where, handler, off, other) idle
          ]
        ]
      ]

    -- What holds of the world as it is, behind a page, and behind every route of the broker if the
    -- role has them, holds behind every request.
    pub serve-cases :
        (role : Role)
        → (is_web role ≡ false
            → (route : Route) → Q (serve_broker C P B parse_duration cfg route r w).0)
        → Q (serve C P B parse_duration cfg builtins role method segments r w).0
    unfolding serve
    serve-cases all routes = handler-cases (routes refl)
    serve-cases web routes = public_handler-cases
    serve-cases broker routes = broker_handler-cases (routes refl)
