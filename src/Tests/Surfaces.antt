-- ===== src/Tests/Surfaces.antt =====
-- A request without credentials to every surface, and an update.
use crate_html.Prelude.{
  ◌≡◌, refl, Bool, true, false, not, ◌||◌, if◌then◌else◌, some, [], ◌∷◌, codes, ok,
}
use crate_html.Token.Persistence.{Files, file_store}
use crate_html.Server.{World}
use crate_html.Server.Surface.{serve, Role, all}
use crate_html.Server.Guards.{is_admitted}
use crate_html.Server.Surface.Harmless
use crate_html.Server.Surface.Harmless.{IsHarmless}
use crate_html.Client.Update
use crate_html.Client.Update.{Outside, Binaries, Release, Version, update, Leaves}
use crate_html.Tests.Requests.{memory, an_hour, config, world, request, nobody}
use crate_html.Tests.Yaml.{toy}

unknown : Role → World memory.State Files
unknown role =
    (serve toy file_store memory an_hour config [] role (codes "DELETE")
      (codes "api" ∷ codes "sites" ∷ codes "docs" ∷ []) (request (codes "Bearer wrong")) world).0

no_more :
    (false
      || not (
          is_admitted toy file_store memory.State config.token
            (request (codes "Bearer wrong"))
            world))
    ≡ true
no_more = rw nobody refl

serve-IsHarmless_example : IsHarmless toy file_store memory an_hour config [] world (unknown all)
unfolding unknown serve
serve-IsHarmless_example =
    Harmless.serve-IsHarmless toy file_store memory an_hour config [] all (codes "DELETE")
      (codes "api" ∷ codes "sites" ∷ codes "docs" ∷ []) (request (codes "Bearer wrong")) world
      no_more

-- One binary, and a release that replaces it.
abbrev outside : Bool → Outside
outside works = record {
  parse = λ v. some (record { text = v; prerelease = false });
  latest = ok (some (record { version = codes "1.2.0"; url = []; notes = [] }));
  is_greater = λ a b. true;
  executable = some (codes "/bin/crate");
  replace_binary = λ r path b. (if works then (λ p. r.version) else b, works);
}

abbrev installed : Binaries
installed p = codes "1.1.0"

update-Leaves_example :
    Leaves
      (outside true)
      (codes "1.1.0")
      installed
      (Update.update (outside true) (codes "1.1.0") installed)
update-Leaves_example = Update.update-Leaves (outside true) (codes "1.1.0") installed

replaced : (update (outside true) (codes "1.1.0") installed).0 (codes "/bin/crate") ≡ codes "1.2.0"
unfolding update
replaced = refl

kept : (update (outside false) (codes "1.1.0") installed).0 (codes "/bin/crate") ≡ codes "1.1.0"
unfolding update
kept = refl
