-- ===== src/Tests/Clients.antt =====
-- A push of the client to the daemon, with a small body format in the place of JSON.
use crate_html.Prelude.{
  ◌≡◌, ◌↔◌, refl, Bool, true, Option, none, some, [], ◌∷◌, Text, codes, ok, Result,
}
use crate_html.Name.{validate_site}
use crate_html.Config.{effective_public_url}
use crate_html.Wire.{Site}
use crate_html.Token.Persistence.{Files, file_store}
use crate_html.Server.{World, Request, whole, Payload, stored}
use crate_html.Server.Handlers.{site_url}
use crate_html.Server.Publishing.{Published}
use crate_html.Server.Surface.{all}
use crate_html.Client.{Client, Json, ClientError}
use crate_html.Client.Daemon.Push
use crate_html.Client.Daemon.Push.{pushed, handled, received}
use crate_html.Tests.Requests.{memory, an_hour, config, world, request}
use crate_html.Tests.Yaml.{
  toy, put_text, put_time, get_text, get_time, get_text-put_text, get_time-put_time, ◌>>=◌,
}

put_stored : Payload → Text
put_stored (stored s url) =
    s.updated_at ∷ s.size_bytes ∷ s.file_count ∷ put_time s.expires_at (put_text s.name url)
put_stored _ = []

get_stored : Text → Option (Site × Text)
unfolding get_text get_time
get_stored (updated_at ∷ size_bytes ∷ file_count ∷ s) = do
  (expires_at, s) ← get_time s
  (name, url) ← get_text s
  some (
    record {
      name = name;
      updated_at = updated_at;
      size_bytes = size_bytes;
      file_count = file_count;
      expires_at = expires_at;
    },
    url,
  )
get_stored _ = none

get_stored-put_stored :
    (s : Site) (url : Text) → get_stored (put_stored (stored s url)) ≡ some (s, url)
unfolding get_stored put_stored
get_stored-put_stored s url =
    rw (get_time-put_time s.expires_at (put_text s.name url), get_text-put_text s.name url) refl

abbrev json : Json
json = record {
  encode = put_stored;
  error_of = λ b. b;
  status_of = λ b. none;
  sites_of = λ b. none;
  stored_of = get_stored;
  minted_of = λ b. none;
  tokens_of = λ b. none;
}

abbrev client : Client
client = record { base = codes "http://h"; token = codes "root" }

docs_valid : validate_site (codes "docs") ≡ true
unfolding validate_site
docs_valid = refl

abbrev parses : Text → Bool
parses url = true

-- The upload of seven bytes by the client, to a daemon in one process.
abbrev done : World memory.State Files × Result ClientError (Site × Text)
done =
    pushed toy file_store memory an_hour config [] json parses all client (codes "docs")
      (whole (codes "archive")) (codes "1h") (request []) world

abbrev arrived : Request
arrived =
    received toy file_store memory an_hour config [] client (whole (codes "archive")) (codes "1h")
      (request [])

push_reader_iff_example :
    (done.0 ≡ (handled toy file_store memory an_hour config [] (codes "docs") arrived world).0)
    × ((site : Site) (url : Text)
        → (done.1 ≡ ok (site, url)) ↔ (
            (p : Published toy file_store memory an_hour config (codes "docs") arrived world)
            × ((request []).can_stage ≡ true)
            × ((request []).can_rewind ≡ true)
            × (site ≡ p.site)
            × (url ≡ site_url (effective_public_url config) (codes "docs"))))
push_reader_iff_example =
    Push.push_reader_iff toy file_store memory an_hour config [] json all client (codes "docs")
      (whole (codes "archive")) (codes "1h") (request []) world refl docs_valid refl refl parses
      refl get_stored-put_stored
