-- ===== src/Server/Index.antt =====
-- The index page: expired, unexpiredSites, groupDiskSites and diskRow, with the short texts for
-- sizes and times. A text that Sprintf or Time.Format makes is given by what it is made from.
use crate_html.Prelude.{
  ℕ, zero, suc, ◌+◌, ◌-◌, ◌*◌, ◌/◌, Bool, true, false, not, Option, none, some, List, [], ◌∷◌, ◌++◌,
  map, keep, Text, text_eq, ◌==◌, cut, trim_prefix, has_byte, is_empty, if◌then◌else◌, leb, ltb,
  eqb,
}
use crate_html.Wire.{Site}

-- `expired`: a site has expired at its deadline.
unfoldable pub expired : Site → ℕ → Bool
expired site now = elim site.expires_at [ none ↦ false | some t ↦ leb t now ]

unfoldable pub unexpired_sites : List Site → ℕ → List Site
unfolding expired
unexpired_sites sites now = keep (λ (s : Site). not (expired s now)) sites

-- humanSize: a number of bytes, or a size over 1024 to some power, with the index of its unit.
pub data HumanSize : Type 0 where
  bytes : ℕ → HumanSize
  scaled : ℕ → ℕ → ℕ → HumanSize

-- Its loop, on fuel: `div` and `exp` for what is left.
unfoldable pub scale_size : ℕ → ℕ → ℕ → ℕ → ℕ × ℕ
scale_size zero m div exp = (div, exp)
scale_size (suc fuel) m div exp =
    let again = scale_size fuel (m / 1024) (div * 1024) (exp + 1) in
    if leb 1024 m then again else (div, exp)

unfoldable pub human_size : ℕ → HumanSize
unfolding scale_size
human_size n =
    if ltb n 1024
    then bytes n
    else (let (div, exp) = scale_size 7 (n / 1024) 1024 0 in scaled n div exp)

abbrev pub minute : ℕ
minute = 60000000000

abbrev pub hour : ℕ
hour = 3600000000000

abbrev pub day : ℕ
day = 86400000000000

-- relTime: the date of an instant is given by the instant.
pub data RelTime : Type 0 where
  just_now : RelTime
  minutes_ago hours_ago days_ago on_date : ℕ → RelTime

unfoldable pub rel_time : ℕ → ℕ → RelTime
rel_time t now =
    let d = now - t in
    if ltb now t
    then on_date t
    else if ltb d minute
    then just_now
    else if ltb d hour
    then minutes_ago (d / minute)
    else if ltb d day
    then hours_ago (d / hour)
    else if ltb d (7 * day)
    then days_ago (d / day)
    else on_date t

-- humanDuration
pub data HumanDuration : Type 0 where
  days hours minutes : ℕ → HumanDuration
  under_a_minute : HumanDuration

unfoldable pub human_duration : ℕ → HumanDuration
human_duration d =
    if leb day d
    then days (d / day)
    else if leb hour d
    then hours (d / hour)
    else if leb minute d
    then minutes (d / minute)
    else under_a_minute

pub data ExpiryLabel : Type 0 where
  no_deadline past_deadline : ExpiryLabel
  expires_in : HumanDuration → ExpiryLabel

-- `siteRow`; `updated` is none for the zero time, and gives the relative and the absolute text.
pub record SiteRow : Type 0 where
  pub name : Text
  pub label : Text
  pub href : Text
  pub is_builtin : Bool
  pub file_count : ℕ
  pub size : HumanSize
  pub updated : Option (RelTime × ℕ)
  pub expiry : ExpiryLabel

-- `siteGroup`
pub record SiteGroup : Type 0 where
  pub name : Text
  pub href : Text
  pub grouped : Bool
  pub rows : List SiteRow

-- "/" + name + "/"
unfoldable pub href_of : Text → Text
href_of name = b'/' ∷ (name ++ b'/' ∷ [])

unfoldable pub disk_row : ℕ → Site → Text → SiteRow
unfolding href_of human_size rel_time human_duration
disk_row now site label = record {
  name = site.name;
  label = label;
  href = href_of site.name;
  is_builtin = false;
  file_count = site.file_count;
  size = human_size site.size_bytes;
  updated =
      if eqb site.updated_at 0 then none else some (rel_time site.updated_at now, site.updated_at);
  expiry = elim site.expires_at [
    | none ↦ no_deadline
    | some t ↦ if ltb now t then expires_in (human_duration (t - now)) else past_deadline
  ];
}

-- The name before the first dot.
unfoldable pub prefix_of : Text → Text
unfolding cut
prefix_of name = elim (cut name b'.') [ none ↦ name | some (before, after) ↦ before ]

-- The first loop of groupDiskSites: `order` and `byPrefix` together, as a list in order of first
-- appearance.
unfoldable pub add_to : Text → Site → List (Text × List Site) → List (Text × List Site)
add_to prefix site [] = (prefix, site ∷ []) ∷ []
add_to prefix site ((p, members) ∷ rest) =
    let more = add_to prefix site rest in
    if p == prefix then (p, members ++ site ∷ []) ∷ rest else (p, members) ∷ more

unfoldable pub by_prefix : List Site → List (Text × List Site) → List (Text × List Site)
unfolding add_to prefix_of
by_prefix [] groups = groups
by_prefix (site ∷ sites) groups = by_prefix sites (add_to (prefix_of site.name) site groups)

-- `len(members) > 1 || strings.Contains(members[0].Name, ".")`
abbrev pub is_grouped : List Site → Bool
is_grouped [] = false
is_grouped (site ∷ []) = has_byte b'.' site.name
is_grouped (site ∷ other ∷ more) = true

unfoldable pub label_in : Text → Bool → Text → Text
unfolding trim_prefix
label_in prefix grouped name =
    if grouped
    then (let rest = trim_prefix name (prefix ++ b'.' ∷ []) in if is_empty rest then name else rest)
    else name

-- The second loop.
unfoldable pub group_of : ℕ → Text × List Site → SiteGroup
unfolding disk_row label_in href_of
group_of now g = record {
  name = g.0;
  href = href_of g.0;
  grouped = is_grouped g.1;
  rows = map (λ (s : Site). disk_row now s (label_in g.0 (is_grouped g.1) s.name)) g.1;
}

unfoldable pub group_disk_sites : ℕ → List Site → List SiteGroup
unfolding by_prefix group_of
group_disk_sites now sites = map (group_of now) (by_prefix sites [])
