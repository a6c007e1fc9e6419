-- ===== src/Server/Public.antt =====
-- The public surface: handlePublic, serveSite and the fall-through from stored sites to embedded
-- ones and to the index of a group. A response is what is served, not its bytes: the pages are
-- rendered by html/template.
use crate_html.Prelude.{
  ℕ, Bool, true, false, ◌||◌, not, Option, none, some, List, [], ◌∷◌, ◌++◌, map, keep, any, Text,
  text_eq, ◌==◌, codes, cut, has_prefix, trim_prefix, is_empty, contains, if◌then◌else◌, Result, ok,
  err, eqb,
}
use crate_html.Name.{validate_site}
use crate_html.TarPath.{clean, to_text}
use crate_html.Wire.{Site, StoreError, Backend}
use crate_html.Server.Index.{
  expired, unexpired_sites, SiteGroup, SiteRow, disk_row, href_of, group_disk_sites, human_size,
  no_deadline,
}

-- builtin.Site: a name, its files, and what countEmbedded finds in them.
pub record Builtin (F : Type 0) : Type 0 where
  pub name : Text
  pub fs : F
  pub file_count : ℕ
  pub size_bytes : ℕ

-- `indexView`
pub record IndexView : Type 0 where
  pub title : Text
  pub group : Bool
  pub empty : Bool
  pub groups : List SiteGroup

-- What a GET of the public surface is answered with. `served` is http.ServeFileFS on the path.
pub data Page (F : Type 0) : Type 0 where
  missing : Page F
  failure : Page F
  redirect : Text → Page F
  index : IndexView → Page F
  served : F → Text → Page F

-- strings.SplitN(s, "/", 2)
unfoldable pub first_segment : Text → Text × Option Text
unfolding cut
first_segment s = elim (cut s b'/') [ none ↦ (s, none) | some (a, b) ↦ (a, some b) ]

-- strings.HasSuffix(s, "/")
abbrev pub ends_in_slash : Text → Bool
ends_in_slash [] = false
ends_in_slash (c ∷ []) = eqb c b'/'
ends_in_slash (c ∷ d ∷ s) = ends_in_slash (d ∷ s)

-- path.Join with "index.html" where the path names a directory.
unfoldable pub with_index : Text → Text
with_index rest =
    if is_empty rest
    then codes "index.html"
    else if ends_in_slash rest
    then to_text (clean (rest ++ b'/' ∷ codes "index.html"))
    else rest

-- path.Clean below the root, and the path without its leading slash.
unfoldable pub file_path : Text → Text
unfolding with_index trim_prefix
file_path rest = trim_prefix (to_text (clean (b'/' ∷ with_index rest))) (b'/' ∷ [])

unfoldable pub serve_site : {F : Type 0} → Text → F → Option Text → Page F
serve_site name fs none = redirect (b'/' ∷ (name ++ b'/' ∷ []))
serve_site name fs (some rest) = served fs (file_path rest)

-- findBuiltin
unfoldable pub find_builtin : {F : Type 0} → Text → List (Builtin F) → Option (Builtin F)
find_builtin name [] = none
find_builtin name (b ∷ bs) =
    let later = find_builtin name bs in if b.name == name then some b else later

-- The names of the stored sites: `diskNames`.
abbrev pub names_of : List Site → List Text
names_of = map (λ (s : Site). s.name)

-- The row of an embedded site.
unfoldable pub builtin_group : {F : Type 0} → Builtin F → SiteGroup
unfolding href_of human_size
builtin_group b = record {
  name = [];
  href = [];
  grouped = false;
  rows =
      record {
        name = b.name;
        label = b.name;
        href = href_of b.name;
        is_builtin = true;
        file_count = b.file_count;
        size = human_size b.size_bytes;
        updated = none;
        expiry = no_deadline;
      }
      ∷ [];
}

-- renderIndex behind List.
unfoldable pub index_view : {F : Type 0} → ℕ → List (Builtin F) → List Site → IndexView
unfolding builtin_group unexpired_sites group_disk_sites
index_view now builtins sites =
    let live = unexpired_sites sites now in
    let groups =
      group_disk_sites now live
      ++ map builtin_group (keep (λ b. not (contains b.name (names_of live))) builtins) in
    record { title = codes "crate"; group = false; empty = is_empty groups; groups = groups }

-- The child of a group: its name goes on behind the prefix and a dot.
abbrev pub is_child : Text → Text → Bool
is_child prefix name = has_prefix name (prefix ++ b'.' ∷ [])

-- The rows of renderGroupIndex.
unfoldable pub child_rows : ℕ → Text → List Site → List SiteRow
unfolding unexpired_sites disk_row has_prefix trim_prefix
child_rows now prefix sites =
    map (λ (s : Site). disk_row now s (trim_prefix s.name (prefix ++ b'.' ∷ [])))
      (keep (λ (s : Site). is_child prefix s.name) (unexpired_sites sites now))

unfoldable pub group_view : {F : Type 0} → Text → List SiteRow → Page F
group_view prefix [] = missing
group_view prefix (row ∷ rows) = index (record {
  title = prefix;
  group = true;
  empty = false;
  groups = record { name = []; href = []; grouped = false; rows = row ∷ rows } ∷ [];
})

module _ (B : Backend) where
  -- hasGroupChildren: a failed scan finds none.
  unfoldable pub has_group_children : Text → B.State → B.State × Bool
  unfolding has_prefix
  has_group_children prefix s =
      let (s', answer) = B.names s in
      elim answer [ err e ↦ (s', false) | ok names ↦ (s', any (is_child prefix) names) ]

  unfoldable pub render_index : ℕ → List (Builtin B.Fs) → B.State → B.State × Page B.Fs
  unfolding index_view
  render_index now builtins s =
      let (s', answer) = B.list s in
      elim answer [ err e ↦ (s', failure) | ok sites ↦ (s', index (index_view now builtins sites)) ]

  unfoldable pub render_group_index : ℕ → Text → B.State → B.State × Page B.Fs
  unfolding child_rows group_view
  render_group_index now prefix s =
      let (s', answer) = B.list s in
      elim answer [
        | err e ↦ (s', failure)
        | ok sites ↦ (s', group_view prefix (child_rows now prefix sites))
      ]

  -- The branch for a stored site.
  abbrev pub opened : Text → Option Text → Result StoreError B.Fs → Page B.Fs
  opened name rest (ok fs) = serve_site name fs rest
  opened name rest (err StoreError.not_found) = missing
  opened name rest (err _) = failure

  unfoldable pub serve_stored : ℕ → Text → Option Text → Site → B.State → B.State × Page B.Fs
  unfolding expired serve_site
  serve_stored now name rest site s =
      if expired site now
      then (s, missing)
      else (let (s', answer) = B.open_site name s in (s', opened name rest answer))

  -- The branch for a name with no stored site and no embedded one.
  unfoldable pub serve_group : ℕ → Text → Option Text → B.State → B.State × Page B.Fs
  unfolding has_group_children render_group_index href_of
  serve_group now name rest s =
      let (s', children) = has_group_children name s in
      if children
      then elim rest [
        | none ↦ (s', redirect (href_of name))
        | some r ↦ if is_empty r then render_group_index now name s' else (s', missing)
      ]
      else (s', missing)

  unfoldable pub serve_fallback :
      ℕ → List (Builtin B.Fs) → Text → Option Text → B.State → B.State × Page B.Fs
  unfolding find_builtin serve_site serve_group
  serve_fallback now builtins name rest s = elim (find_builtin name builtins) [
    | some b ↦ (s, serve_site b.name b.fs rest)
    | none ↦ serve_group now name rest s
  ]

  -- handlePublic behind the name: any error of Stat counts as no stored site.
  unfoldable pub serve_name :
      ℕ → List (Builtin B.Fs) → Text → Option Text → B.State → B.State × Page B.Fs
  unfolding serve_stored serve_fallback
  serve_name now builtins name rest s =
      let (s', answer) = B.stat name s in
      elim answer [
        | ok site ↦ serve_stored now name rest site s'
        | err e ↦ serve_fallback now builtins name rest s'
      ]

  unfoldable pub handle_public : ℕ → List (Builtin B.Fs) → Text → B.State → B.State × Page B.Fs
  unfolding has_prefix trim_prefix first_segment serve_name render_index
  handle_public now builtins path s =
      if has_prefix path (codes "/api/") || path == codes "/api"
      then (s, missing)
      else if path == codes "/"
      then render_index now builtins s
      else let (name, rest) = first_segment (trim_prefix path (codes "/")) in
        if validate_site name then serve_name now builtins name rest s else (s, missing)
