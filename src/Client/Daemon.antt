-- ===== src/Client/Daemon.antt =====
-- The client against the daemon: http.Client's call of a surface.
pub mod Routing
pub mod Push
use crate_html.Prelude.{Option, none, some, List, [], ◌∷◌, Text, cut_prefix, ℤ}
use crate_html.TarPath.{split_slash}
use crate_html.Token.Persistence.{Persistence}
use crate_html.Token.Store.{Codec}
use crate_html.Config.{Config}
use crate_html.Wire.{Backend, CreateTokenRequest}
use crate_html.Server.{Request, World, Upload, whole}
use crate_html.Server.Public.{Builtin}
use crate_html.Server.Surface.{Answer, api, page, not_found, not_allowed, Role, serve}
use crate_html.Client.{Call, CallBody, form, archive, Reply, Json}

-- The segments of a URL below the address that the daemon listens at.
unfoldable pub segments_of : Text → Text → Option (List Text)
segments_of base url = elim (cut_prefix url base) [
  | none ↦ none
  | some [] ↦ none
  | some (slash ∷ path) ↦ some (split_slash path)
]

abbrev pub upload_in : CallBody → Upload
upload_in (archive u) = u
upload_in _ = whole []

abbrev pub form_in : CallBody → Option CreateTokenRequest
form_in (form f) = some f
form_in _ = none

-- The request that the daemon reads, with what its environment answers meanwhile.
unfoldable pub request_of : Request → Call → Request
request_of env call = record env {
  auth = call.auth;
  expires = call.expires;
  body = upload_in call.body;
  form = form_in call.body;
}

module _ (J : Json) where
  -- The reply on the wire. What a page is rendered to is left out.
  abbrev pub reply_of : {F : Type 0} → Answer F → Reply
  reply_of (api r) = record { status = r.status; body = J.encode r.payload }
  reply_of (page p) = record { status = 200; body = [] }
  reply_of not_found = record { status = 404; body = [] }
  reply_of not_allowed = record { status = 405; body = [] }

  -- A call of the daemon at an address.
  unfoldable pub call_daemon :
      (C : Codec) (P : Persistence) (B : Backend) (parse_duration : Text → Option ℤ) (cfg : Config)
      (builtins : List (Builtin B.Fs))
      → Role
      → Text
      → Request
      → Call
      → World B.State P.Medium
      → World B.State P.Medium × Option Reply
  unfolding segments_of request_of
  call_daemon C P B parse_duration cfg builtins role base env call w =
      elim (segments_of base call.url) [
        | none ↦ (w, none)
        | some segments ↦
            let (w', answer) =
              serve C P B parse_duration cfg builtins role call.method segments
                (request_of env call) w in
            (w', some (reply_of answer))
      ]
