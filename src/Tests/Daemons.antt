-- ===== src/Tests/Daemons.antt =====
-- Daemons that start for the first time, and what they are asked.
use crate_html.Prelude.{
  ◌≡◌, refl, true, false, none, some, [], ◌∷◌, text_eq, text_beq, signed_int64, codes, ok, is_empty,
}
use crate_html.Token.{hex}
use crate_html.Token.Persistence.{Files, file_store, file_load, contents}
use crate_html.Token.Store.{load_from, saved_uses}
use crate_html.Config.{load_or_init, load_read_only, default_config, validate_storage}
use crate_html.Server.{Request, World}
use crate_html.Server.Guards.{holds_root}
use crate_html.Server.Auth.{bearer}
use crate_html.Server.Handlers.{refresh_site_count, delete_expired}
use crate_html.Server.Privileges.{tokens_of}
use crate_html.Server.Tokens.{AreGood, Fed}
use crate_html.Server.Surface.{all, web, serve}
use crate_html.Server.Surface.Reads.{Reads}
use crate_html.Daemon.{
  Outset, Daemon, boot, boot_with, load_config, open_tokens, new_server, here, request, sweep,
}
use crate_html.Daemon.Tokens
use crate_html.Daemon.Web
use crate_html.Daemon.Unprivileged
use crate_html.Tests.Requests.{memory, an_hour, request as asked}
use crate_html.Tests.Configs.{toy_config, env, new_file, raw, started}
use crate_html.Tests.Tokens.{start}
use crate_html.Tests.Yaml.{toy, toy-IsCodec}

program : Unit {0}
unfolding memory load_from saved_uses file_load boot boot_with load_config open_tokens new_server
    refresh_site_count load_or_init load_read_only text_beq toy_config toy default_config
    validate_storage hex signed_int64 bearer
program = tt

abbrev outset : Outset memory.State Files memory.Fs
unfolding memory
outset = record {
  has_paths = true;
  env = env;
  raw = raw;
  has_telemetry = true;
  store = some [];
  medium = start.medium;
  embedded = [];
  has_template = true;
}

-- A daemon in a role that has tokens, and the public one.
abbrev daemon : Daemon memory.State Files memory.Fs
unfolding memory
daemon = record {
  cfg = started;
  world = record { sites = []; tokens = some start; site_count = 0 };
  builtins = [];
}

boots : (boot toy file_store memory toy_config an_hour all outset new_file).1 ≡ ok daemon
unfolding program
boots = refl

abbrev page_daemon : Daemon memory.State Files memory.Fs
unfolding memory
page_daemon = record {
  cfg = record started { token = [] };
  world = record { sites = []; tokens = none; site_count = 0 };
  builtins = [];
}

boots_pages : (boot toy file_store memory toy_config an_hour web outset new_file).1 ≡ ok page_daemon
unfolding program
boots_pages = refl

-- A page is asked for with a token.
abbrev page_asked : World memory.State Files
page_asked =
    (serve toy file_store memory an_hour page_daemon.cfg page_daemon.builtins web (codes "GET")
      (codes "docs" ∷ []) (asked (codes "Bearer abcd")) page_daemon.world).0

abbrev no_sites : memory.State
unfolding memory
no_sites = []

opened : outset.store ≡ some no_sites
unfolding outset no_sites
opened = refl

boot-Reads_example : Reads memory no_sites page_asked.sites × (page_asked.tokens ≡ none)
boot-Reads_example =
    Web.boot-Reads toy file_store memory toy_config an_hour outset new_file page_daemon no_sites
      page_asked boots_pages opened
      (request (codes "GET") (codes "docs" ∷ []) (asked (codes "Bearer abcd")) tt here)

-- A token is minted with the root token, and a round of the expiry watch follows.
abbrev minting : Request
minting = asked (codes "Bearer abcd")

abbrev minted : World memory.State Files
minted =
    (serve toy file_store memory an_hour daemon.cfg daemon.builtins all (codes "POST")
      (codes "api" ∷ codes "tokens" ∷ []) minting daemon.world).0

abbrev swept : World memory.State Files
swept = (delete_expired toy file_store memory an_hour daemon.cfg 1300 minted).0

minting-Fed : Fed minting
minting-Fed = ((refl, tt), refl)

nothing_stored : is_empty (contents outset.medium.file) ≡ true
unfolding outset
nothing_stored = refl

boot-AreGood_example : AreGood toy file_store swept.tokens
boot-AreGood_example =
    Tokens.boot-AreGood toy file_store memory toy_config an_hour toy-IsCodec all outset new_file
      daemon swept boots nothing_stored
      (sweep 1300 refl
        (request (codes "POST") (codes "api" ∷ codes "tokens" ∷ []) minting minting-Fed here))

-- The same request with another token.
abbrev refused : World memory.State Files
refused =
    (serve toy file_store memory an_hour daemon.cfg daemon.builtins all (codes "POST")
      (codes "api" ∷ codes "tokens" ∷ []) (asked (codes "Bearer wrong")) daemon.world).0

no_root : holds_root daemon.cfg.token (asked (codes "Bearer wrong")) ≡ false
unfolding program
no_root = refl

tokens_of-Reaches_example : tokens_of refused ≡ tokens_of daemon.world
tokens_of-Reaches_example =
    Unprivileged.tokens_of-Reaches toy file_store memory toy_config an_hour all daemon daemon.world
      refused
      (request (codes "POST") (codes "api" ∷ codes "tokens" ∷ []) (asked (codes "Bearer wrong"))
        no_root here)
