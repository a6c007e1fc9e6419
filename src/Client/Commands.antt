-- ===== src/Client/Commands.antt =====
-- cmd/crate/main.go: which archive a push sends, and which URL it prints. Flags, terminal output and
-- the start of a browser are left out; a command gives what it prints.
use crate_html.Prelude.{
  Bool, ◌&&◌, ◌||◌, not, Option, none, some, List, [], ◌∷◌, ◌++◌, Text, text_eq, ◌==◌, codes,
  is_empty, trim_slashes, if◌then◌else◌, Result, ok, err,
}
use crate_html.Config.{Config, effective_public_url}
use crate_html.Wire.{Site}
use crate_html.MemFs.{TarItem, Body, whole, broken}
use crate_html.Pack.{Node, file, link, special, folder, Source, missing, direct, linked}
use crate_html.Server.{Upload}
use crate_html.Client.{
  Client, ClientError, Reply, Call, Json, Status, new, get_status, push_reader, push_dir,
}

-- The name of a site below a URL.
abbrev pub below : Text → Text → Text
below url name = trim_slashes url ++ b'/' ∷ (name ++ b'/' ∷ [])

-- The URL that a push prints.
unfoldable pub push_url : Config → Site → Text → Text
unfolding trim_slashes effective_public_url
push_url cfg site url =
    let own = below (effective_public_url cfg) site.name in
    let chosen = if not (is_empty cfg.public_url) || is_empty cfg.api_url then own else url in
    if is_empty chosen then own else chosen

-- What the status command prints as the public URL.
unfoldable pub status_url : Config → Status → Text
unfolding effective_public_url
status_url cfg st =
    if is_empty cfg.public_url && not (is_empty cfg.api_url) && not (is_empty st.public_url)
    then st.public_url
    else effective_public_url cfg

-- commandNeedsConfig
unfoldable pub command_needs_config : Text → Bool
command_needs_config command = not (command == codes "update") && not (command == codes "version")

-- The errors of a command: of the client, of the file system, of a source of another kind, or of a
-- broker that reports no public URL; and a configuration without a token.
pub data CommandError : Type 0 where
  client : ClientError → CommandError
  no_file not_a_source no_public_url no_token : CommandError

unfoldable pub as_command {ℓ} : {A : Type ℓ} → Result ClientError A → Result CommandError A
as_command (ok a) = ok a
as_command (err e) = err (client e)

-- os.Stat and os.Open of the source, which follow a link.
abbrev pub target : Source → Option Node
target missing = none
target (direct n) = some n
target (linked n) = some n

abbrev pub upload_of : Body → Upload
upload_of (whole d) = Upload.whole d
upload_of (broken d) = Upload.broken d

-- The run of tokenShowCmd
unfoldable pub show_token : Config → Result CommandError Text
show_token cfg = if is_empty cfg.token then err no_token else ok (cfg.token ++ b'\n' ∷ [])

module _ (J : Json) (parses : Text → Bool) {S : Type 0} (send : Call → S → S × Option Reply) where
  -- resolvePublicURL
  unfoldable pub resolve_public_url : Config → S → S × Result CommandError Text
  unfolding effective_public_url new
  resolve_public_url cfg s =
      if not (is_empty cfg.public_url) || is_empty cfg.api_url
      then (s, ok (effective_public_url cfg))
      else (let (s', answer) = get_status J parses send (new cfg) s in
          (
            s',
            elim answer [
              | err e ↦ err (client e)
              | ok st ↦ if is_empty st.public_url then err no_public_url else ok st.public_url
            ],
          ))

  -- The URL of openCmd.
  unfoldable pub open_url : Config → Text → S → S × Result CommandError Text
  unfolding trim_slashes resolve_public_url
  open_url cfg name s =
      let (s', answer) = resolve_public_url cfg s in
      (s', elim answer [ err e ↦ err e | ok url ↦ ok (below url name) ])

  -- pushCmd.push. What stands at the source, what standard input gives, and whether the calls of the
  -- file system succeed are arguments.
  unfoldable pub push_source :
      (List TarItem → Text)
      → Client
      → Text
      → Text
      → Text
      → Source
      → Upload
      → Bool
      → Bool
      → List Bool
      → S
      → S × Result CommandError (Site × Text)
  unfolding push_reader push_dir as_command
  push_source tar_bytes c src name expires source stdin can_stat can_open answers s =
      if src == codes "-"
      then (let (s', answer) = push_reader J parses send c name stdin expires s in
          (s', as_command answer))
      else if not can_stat
      then (s, err no_file)
      else elim (target source) [
        | none ↦ (s, err no_file)
        | some (folder ns) ↦
            let (s', answer) = push_dir J parses send tar_bytes c name source answers expires s in
            (s', as_command answer)
        | some (file body) ↦
            if can_open
            then (let (s', answer) = push_reader J parses send c name (upload_of body) expires s in
                (s', as_command answer))
            else (s, err no_file)
        | some link ↦ (s, err no_file)
        | some special ↦ (s, err not_a_source)
      ]

  -- pushCmd.Run, with the URL that it prints.
  unfoldable pub push :
      (List TarItem → Text)
      → Config
      → Text
      → Text
      → Text
      → Source
      → Upload
      → Bool
      → Bool
      → List Bool
      → S
      → S × Result CommandError (Site × Text)
  unfolding push_source push_url
  push tar_bytes cfg src name expires source stdin can_stat can_open answers s =
      let (s', answer) =
        push_source tar_bytes (new cfg) src name expires source stdin can_stat can_open answers s in
      (s', elim answer [ err e ↦ err e | ok (site, url) ↦ ok (site, push_url cfg site url) ])
