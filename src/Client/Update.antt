-- ===== src/Client/Update.antt =====
-- internal/updater/updater.go and internal/buildinfo/buildinfo.go: which release replaces the client's
-- binary. The releases that selfupdate finds and semver's order of versions are arguments.
use crate_html.Prelude.{
  sym, ap, ◌∙◌, ok-injective, ℕ, Bool, true, false, ◌&&◌, not, Option, none, some, [], ◌∷◌, ◌++◌,
  Text, text_eq, ◌==◌, codes, has_prefix, is_empty, has_byte, ◌⊎◌, ◌≡◌, refl, arith, Option-cases,
  Bool-cases, inl, inr, if◌then◌else◌, Result, ok, err,
}
use mathlib.Core.Path.{subst}

-- DevelopmentVersion
abbrev pub development_version : Text
development_version = codes "0.1.0-dev"

-- Current: the stamped version, or the one of the module that the toolchain recorded.
unfoldable pub current : Text → Option Text → Text
current version recorded = if not (version == development_version) then version else elim recorded [
  | none ↦ development_version
  | some v ↦ if not (is_empty v) && not (v == codes "(devel)") then v else development_version
]

-- Display
unfoldable pub display : Text → Text
unfolding has_prefix
display version = if has_prefix version (codes "v") then version else b'v' ∷ version

-- What semver reads of a version: its text, and whether it is a prerelease.
pub record Version : Type 0 where
  pub text : Text
  pub prerelease : Bool

-- selfupdate.Release
pub record Release : Type 0 where
  pub version : Text
  pub url : Text
  pub notes : Text

-- `Result`
pub record Outcome : Type 0 where
  pub from : Text
  pub to : Text
  pub updated : Bool
  pub release_url : Text
  pub release_notes : Text

pub data UpdateError : Type 0 where
  invalid_version unavailable unreachable no_release no_executable not_replaced : UpdateError

-- A byte that regexp.QuoteMeta escapes.
abbrev is_meta : ℕ → Bool
is_meta c = has_byte c (codes "\\.+*?()|[]{}^$")

-- regexp.QuoteMeta
unfoldable pub quote_meta : Text → Text
quote_meta [] = []
quote_meta (c ∷ s) = let rest = quote_meta s in if is_meta c then 92 ∷ c ∷ rest else c ∷ rest

-- assetPattern: the pattern of the archive for a platform.
unfoldable pub asset_pattern : Text → Text → Text
unfolding quote_meta
asset_pattern os arch =
    codes "^crate_\\d+\\.\\d+\\.\\d+_"
    ++ (quote_meta os ++ b'_' ∷ (quote_meta arch ++ codes "\\.tar\\.gz$"))

-- The machine's binaries by their paths.
abbrev pub Binaries : Type 0
Binaries = Text → Text

-- The answers of the outside: semver.NewVersion, DetectLatest (`err` for a failure, `none` for no
-- release of the platform), GreaterThan, the path of the executable, and UpdateTo, with whether it
-- succeeds.
pub record Outside : Type 0 where
  pub parse : Text → Option Version
  pub latest : Result (Unit {0}) (Option Release)
  pub is_greater : Text → Text → Bool
  pub executable : Option Text
  pub replace_binary : Release → Text → Binaries → Binaries × Bool

abbrev pub outcome : Version → Release → Bool → Outcome
outcome v r updated = record {
  from = v.text;
  to = r.version;
  updated = updated;
  release_url = r.url;
  release_notes = r.notes;
}

-- Update behind the comparison.
unfoldable pub replace :
    Outside → Version → Release → Binaries → Binaries × Result UpdateError Outcome
replace o v r b = elim o.executable [
  | none ↦ (b, err no_executable)
  | some path ↦
      let (b', done) = o.replace_binary r path b in
      (b', if done then ok (outcome v r true) else err not_replaced)
]

-- Update behind the current version.
unfoldable pub update_to :
    Outside → Version → Release → Binaries → Binaries × Result UpdateError Outcome
unfolding replace
update_to o v r b =
    if o.is_greater r.version v.text then replace o v r b else (b, ok (outcome v r false))

-- Update
unfoldable pub update : Outside → Text → Binaries → Binaries × Result UpdateError Outcome
unfolding update_to
update o version b = elim (o.parse version) [
  | none ↦ (b, err invalid_version)
  | some v ↦ if v.prerelease then (b, err unavailable) else elim o.latest [
    | err _ ↦ (b, err unreachable)
    | ok none ↦ (b, err no_release)
    | ok (some r) ↦ update_to o v r b
  ]
]

-- What Update asks for before it touches a binary: a stable version that parses, a release that is
-- greater, and a path.
pub record IsDue (o : Outside) (running : Text) (r : Release) (path : Text) : Type 0 where
  pub version : Version
  pub parsed : o.parse running ≡ some version
  pub stable : version.prerelease ≡ false
  pub found : o.latest ≡ ok (some r)
  pub greater : o.is_greater r.version version.text ≡ true
  pub placed : o.executable ≡ some path

abbrev pub reports : Result UpdateError Outcome → Bool
reports (err e) = false
reports (ok r) = r.updated

-- Either an update is due, and the executable is replaced once by that release; or none is, and
-- nothing is touched. A report is one of success.
abbrev pub Leaves : Outside → Text → Binaries → Binaries × Result UpdateError Outcome → Type 0
Leaves o version b res =
    ((r : Release) × (path : Text) × IsDue o version r path
      × (res.0 ≡ (o.replace_binary r path b).0)
      × (reports res.1 ≡ (o.replace_binary r path b).1))
    ⊎ (((r : Release) (path : Text) → IsDue o version r path → ⊥)
        × (res.0 ≡ b)
        × (reports res.1 ≡ false))

untouched :
    (o : Outside) (version : Text) (b : Binaries) (res : Binaries × Result UpdateError Outcome)
    → ((r : Release) (path : Text) → IsDue o version r path → ⊥)
    → res.0 ≡ b
    → reports res.1 ≡ false
    → Leaves o version b res
untouched o version b res n e h = inr (n, e, h)

some_injective : {A : Type 0} {a b : A} → Path (Option A) (some a) (some b) → a ≡ b
some_injective h = cc

-- What each condition that fails rules out.
module _ (o : Outside) (version : Text) where
  not_parsed : o.parse version ≡ none → (r : Release) (path : Text) → IsDue o version r path → ⊥
  not_parsed h r path d = cc (sym h ∙ d.parsed)

  not_placed : o.executable ≡ none → (r : Release) (path : Text) → IsDue o version r path → ⊥
  not_placed h r path d = cc (sym h ∙ d.placed)

  not_found :
      ((r : Release) → o.latest ≡ ok (some r) → ⊥)
      → (r : Release) (path : Text) → IsDue o version r path
      → ⊥
  not_found h r path d = h r d.found

  not_stable :
      (v : Version)
      → o.parse version ≡ some v
      → v.prerelease ≡ true
      → (r : Release) (path : Text) → IsDue o version r path
      → ⊥
  not_stable v p h r path d =
      let e = some_injective (sym p ∙ d.parsed) in cc (sym h ∙ ap Version.prerelease e ∙ d.stable)

  not_greater :
      (v : Version) (n : Release)
      → o.parse version ≡ some v
      → o.latest ≡ ok (some n)
      → o.is_greater n.version v.text ≡ false
      → (r : Release) (path : Text) → IsDue o version r path
      → ⊥
  not_greater v n p l h r path d =
      let e = some_injective (sym p ∙ d.parsed) in
      let f = some_injective (ok-injective (sym l ∙ d.found)) in
      cc (
        sym h
        ∙ ap (λ (x : Release). o.is_greater x.version v.text) f
        ∙ ap (λ (x : Version). o.is_greater r.version x.text) e
        ∙ d.greater)

replace-Leaves :
    (o : Outside) (version : Text) (b : Binaries) (v : Version) (r : Release)
    → o.parse version ≡ some v
    → v.prerelease ≡ false
    → o.latest ≡ ok (some r)
    → o.is_greater r.version v.text ≡ true
    → Leaves o version b (replace o v r b)
unfolding replace
replace-Leaves o version b v r p s l g = elim (Option-cases o.executable) [
  | inl nowhere ↦
      untouched o version b (replace o v r b) (not_placed o version nowhere)
        (ground (arith, nowhere)) (ground (arith, nowhere))
  | inr (path, e) ↦ inl (
    r,
    path,
    record { version = v; parsed = p; stable = s; found = l; greater = g; placed = e },
    ground (arith, e),
    ground (arith, e),
  )
]

-- An update is due when the running version parses and is no prerelease, the newest release of the
-- platform is greater, and the executable is found. Where one is due, the executable is replaced once
-- by that release, and success is reported exactly if the replacement succeeded; where none is due,
-- no binary is touched and no success is reported.
pub update-Leaves :
    (o : Outside) (version : Text) (b : Binaries) → Leaves o version b (update o version b)
unfolding update
update-Leaves o version b = elim (Option-cases (o.parse version)) [
  | inl bad ↦
      untouched o version b (update o version b) (not_parsed o version bad) (ground (arith, bad))
        (ground (arith, bad))
  | inr (v, p) ↦ elim (Bool-cases v.prerelease) [
    | inl pre ↦
        untouched o version b (update o version b) (not_stable o version v p pre)
          (ground (arith, p, pre)) (ground (arith, p, pre))
    | inr stable ↦ go v p stable o.latest refl
  ]
]
  where
    go :
        (v : Version)
        → o.parse version ≡ some v
        → v.prerelease ≡ false
        → (l : Result (Unit {0}) (Option Release)) → o.latest ≡ l
        → Leaves o version b (update o version b)
    go v p s (err u) l =
        untouched o version b (update o version b) (not_found o version (λ r h. cc (sym l ∙ h)))
          (ground (arith, p, s, l)) (ground (arith, p, s, l))
    go v p s (ok none) l =
        untouched o version b (update o version b) (not_found o version (λ r h. cc (sym l ∙ h)))
          (ground (arith, p, s, l)) (ground (arith, p, s, l))
    go v p s (ok (some r)) l = elim (Bool-cases (o.is_greater r.version v.text)) [
      | inl greater ↦
          subst (Leaves o version b) {x = replace o v r b} {y = update o version b}
            (ground (arith, p, s, l, greater)) (replace-Leaves o version b v r p s l greater)
      | inr newest ↦
          untouched o version b (update o version b) (not_greater o version v r p l newest)
            (ground (arith, p, s, l, newest)) (ground (arith, p, s, l, newest))
    ]
