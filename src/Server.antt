-- ===== src/Server.antt =====
-- internal/server/server.go. A handler takes the world (the sites, the tokens, and the gauge of the
-- number of sites), what is recorded of the request, and gives both back with the response. Lines
-- of the log and metrics but the gauge are left out: nothing reads them.
pub mod Auth
pub mod Expiry
pub mod Handlers
pub mod Routes
pub mod Surface
pub mod Guards
pub mod Privileges
pub mod Publishing
pub mod Minting
pub mod Revoking
pub mod Tokens
pub mod Index
pub mod Public
pub mod Serving
pub mod Origin
pub mod Sizes
pub mod Groups
use crate_html.Prelude.{ℕ, Bool, Option, none, some, List, Text, [], codes}
use crate_html.Token.Store.{Store}
use crate_html.Wire.{Site, TokenInfo, CreateTokenRequest}

pub data AuthKind : Type 0 where
  anonymous by_root by_token : AuthKind

pub data Rejection : Type 0 where
  missing_bearer invalid_token root_required invalid_site_name invalid_expiry upload_too_large
        upload_read_failed unsafe_archive_path invalid_json invalid_token_expiry
        duplicate_token_name invalid_token_request site_not_found token_not_found :
      Rejection

-- brokerAudit, without the request id.
pub record Audit : Type 0 where
  pub auth_kind : AuthKind
  pub token_id : Text
  pub token_name : Text
  pub rejection : Option Rejection

abbrev pub new_audit : Audit
new_audit = record { auth_kind = anonymous; token_id = []; token_name = []; rejection = none }

-- The body of an upload: it ends, or fails behind the bytes given.
pub data Upload : Type 0 where
  whole : Text → Upload
  broken : Text → Upload

-- A request as the handlers read it, with what the environment answers while it is served: the
-- present, whether the staging file can be made and rewound, the decoded JSON body, random bytes.
pub record Request : Type 0 where
  pub auth : Text
  pub expires : Text
  pub body : Upload
  pub form : Option CreateTokenRequest
  pub now : ℕ
  pub can_stage : Bool
  pub can_rewind : Bool
  pub draws : List (Option (List ℕ))
  pub raw : Option (List ℕ)

-- The JSON body of a response; `problem` is an ErrorResponse, whose text is left out.
pub data Payload : Type 0 where
  problem : Payload
  status_info : ℕ → Text → Payload
  health : Payload
  site_list : List Site → Payload
  stored : Site → Text → Payload
  minted : Text → TokenInfo → Payload
  token_list : List TokenInfo → Payload
  nothing : Payload

pub record Response : Type 0 where
  pub status : ℕ
  pub payload : Payload

-- `tokens` is nil for a server without a token store.
pub record World (S M : Type 0) : Type 0 where
  pub sites : S
  pub tokens : Option (Store M)
  pub site_count : ℕ

-- writeError and writeJSON
abbrev pub write_error : ℕ → Response
write_error status = record { status = status; payload = problem }

abbrev pub write_json : ℕ → Payload → Response
write_json status payload = record { status = status; payload = payload }
