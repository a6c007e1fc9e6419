-- ===== src/Client.antt =====
-- internal/cliclient/client.go: the client of the daemon's API. How http.Client answers a call is an
-- argument, a transition of what stands behind it; JSON is the record `Json`.
pub mod Commands
pub mod Update
pub mod Daemon
use crate_html.Prelude.{
  ℕ, Bool, true, false, Option, none, some, List, [], ◌∷◌, ◌++◌, Text, codes, is_empty, eqb,
  trim_slashes, if◌then◌else◌, Result, ok, err,
}
use crate_html.Config.{Config, effective_api_url}
use crate_html.Wire.{Site, TokenInfo, CreateTokenRequest}
use crate_html.MemFs.{TarItem}
use crate_html.Pack.{Source, Writer, write_dir_as_tar}
use crate_html.Server.{Upload, whole, broken, Payload}

-- `StatusResponse`
pub record Status : Type 0 where
  pub version : Text
  pub site_count : ℕ
  pub public_url : Text

-- The body of a call.
pub data CallBody : Type 0 where
  empty : CallBody
  form : CreateTokenRequest → CallBody
  archive : Upload → CallBody

pub record Call : Type 0 where
  pub method : Text
  pub url : Text
  pub auth : Text
  pub content_type : Text
  pub expires : Text
  pub body : CallBody

-- resp.StatusCode and resp.Body
pub record Reply : Type 0 where
  pub status : ℕ
  pub body : Text

-- encoding/json, for what is exchanged: how the daemon writes a body and how each type is read, `none`
-- for a text that does not decode. `error_of` is the Error field, empty where nothing decodes.
pub record Json : Type 0 where
  pub encode : Payload → Text
  pub error_of : Text → Text
  pub status_of : Text → Option Status
  pub sites_of : Text → Option (List Site)
  pub stored_of : Text → Option (Site × Text)
  pub minted_of : Text → Option (Text × TokenInfo)
  pub tokens_of : Text → Option (List TokenInfo)

-- NewRequest fails, the call fails, the daemon answers otherwise (with the text of its error, which
-- may be empty), or the body does not decode.
pub data ClientError : Type 0 where
  bad_request unanswered undecoded : ClientError
  refused : ℕ → Text → ClientError

-- `Client`
pub record Client : Type 0 where
  pub base : Text
  pub token : Text

-- New
unfoldable pub new : Config → Client
unfolding trim_slashes effective_api_url
new cfg = record { base = trim_slashes (effective_api_url cfg); token = cfg.token }

abbrev pub path_sites : Text
path_sites = codes "/api/sites"

abbrev pub path_status : Text
path_status = codes "/api/status"

abbrev pub path_tokens : Text
path_tokens = codes "/api/tokens"

-- newReq
unfoldable pub new_req : Client → Text → Text → CallBody → Call
new_req c method path body = record {
  method = method;
  url = c.base ++ path;
  auth = codes "Bearer " ++ c.token;
  content_type = [];
  expires = [];
  body = body;
}

-- `if expiry != "" { req.Header.Set(...) }`, and the type of an upload.
unfoldable pub put_req : Client → Text → Upload → Text → Call
unfolding new_req
put_req c name body expiry =
    record (new_req c (codes "PUT") (path_sites ++ b'/' ∷ name) (archive body)) {
      content_type = codes "application/x-tar";
      expires = expiry;
    }

-- decodeErr
unfoldable pub decode_err : Json → Reply → ClientError
decode_err J reply = refused reply.status (J.error_of reply.body)

-- json.NewDecoder(resp.Body).Decode
abbrev pub decoded {ℓ} : {A : Type ℓ} → Option A → Result ClientError A
decoded none = err undecoded
decoded (some a) = ok a

-- Which URLs http.NewRequest parses, what stands behind http.Client, and its answers, `none` for a
-- transport that fails.
module _ (J : Json) (parses : Text → Bool) {S : Type 0} (send : Call → S → S × Option Reply) where
  -- A method of the client: what it leaves behind, and what it returns.
  abbrev pub Method : Type 0 → Type 0
  Method A = S → S × Result ClientError A

  -- The reply behind the status that is expected.
  abbrev pub expect :
      {A : Type 0} → ℕ → (Text → Result ClientError A) → Option Reply → Result ClientError A
  expect status read none = err unanswered
  expect status read (some reply) =
      if eqb reply.status status then read reply.body else err (decode_err J reply)

  -- What every method does with its request.
  unfoldable pub do_call : {A : Type 0} → Call → ℕ → (Text → Result ClientError A) → Method A
  unfolding decode_err
  do_call call status read s =
      if parses call.url
      then (let (s', reply) = send call s in (s', expect status read reply))
      else (s, err bad_request)

  -- Status
  unfoldable pub get_status : Client → Method Status
  unfolding new_req do_call
  get_status c =
      do_call (new_req c (codes "GET") path_status empty) 200 (λ b. decoded (J.status_of b))

  -- List
  unfoldable pub list : Client → Method (List Site)
  unfolding new_req do_call
  list c = do_call (new_req c (codes "GET") path_sites empty) 200 (λ b. decoded (J.sites_of b))

  -- Delete
  unfoldable pub delete : Client → Text → Method (Unit {0})
  unfolding new_req do_call
  delete c name =
      do_call (new_req c (codes "DELETE") (path_sites ++ b'/' ∷ name) empty) 204 (λ b. ok tt)

  -- CreateToken
  unfoldable pub create_token : Client → Text → Text → Method (Text × TokenInfo)
  unfolding new_req do_call
  create_token c name expires =
      do_call
        (record (new_req c (codes "POST") path_tokens
          (form (record { name = name; expires = expires }))) {
            content_type = codes "application/json";
          })
        201 (λ b. decoded (J.minted_of b))

  -- ListTokens
  unfoldable pub list_tokens : Client → Method (List TokenInfo)
  unfolding new_req do_call
  list_tokens c =
      do_call (new_req c (codes "GET") path_tokens empty) 200 (λ b. decoded (J.tokens_of b))

  -- RevokeToken
  unfoldable pub revoke_token : Client → Text → Method (Unit {0})
  unfolding new_req do_call
  revoke_token c id_or_name =
      do_call (new_req c (codes "DELETE") (path_tokens ++ b'/' ∷ id_or_name) empty) 204 (λ b. ok tt)

  -- PushReaderWithExpiry
  unfoldable pub push_reader : Client → Text → Upload → Text → Method (Site × Text)
  unfolding put_req do_call
  push_reader c name body expiry =
      do_call (put_req c name body expiry) 200 (λ b. decoded (J.stored_of b))

  -- The pipe of PushWithExpiry: the archive, which breaks off with the walk's error.
  abbrev pub piped : (List TarItem → Text) → Writer × Bool → Upload
  piped tar_bytes (w, true) = whole (tar_bytes w.items)
  piped tar_bytes (w, false) = broken (tar_bytes w.items)

  -- PushWithExpiry. How the entries are laid out as bytes is an argument.
  unfoldable pub push_dir :
      (List TarItem → Text) → Client → Text → Source → List Bool → Text → Method (Site × Text)
  unfolding push_reader
  push_dir tar_bytes c name src answers expiry =
      push_reader c name
        (piped tar_bytes (write_dir_as_tar src (record { items = []; answers = answers }))) expiry
