-- ===== src/Server/Origin.antt =====
-- Which requests of the public surface are answered with a file, and where its files come from.
use crate_html.Prelude.{
  ℕ, ◌≡◌, refl, true, false, Option, List, [], ◌∷◌, Text, text_eq, ◌==◌, codes, is_empty,
  trim_prefix, arith, Bool-cases, inl, inr, ok, err, Result, has_prefix, ◌||◌, ◌<◌, ◌⊎◌, ◌↔◌, sym,
  ap, Bool, leb, none, some, Option-cases,
}
use crate_html.Name.{validate_site}
use crate_html.Wire.{Site, StoreError, Backend}
use crate_html.Server.Index.{expired, SiteRow}
use crate_html.Server.Public.{
  Builtin, served, first_segment, file_path, serve_site, find_builtin, child_rows, group_view,
  has_group_children, render_index, render_group_index, opened, serve_stored, serve_group,
  serve_fallback, serve_name, handle_public,
}

-- A deadline that is still to come, or none.
abbrev pub IsAhead : ℕ → Option ℕ → Type 0
IsAhead now none = Unit
IsAhead now (some t) = now < t

expired-IsAhead : (site : Site) (now : ℕ) → expired site now ≡ false ↔ IsAhead now site.expires_at
unfolding expired
expired-IsAhead site now = go site.expires_at
  where
    go : (o : Option ℕ) → (elim o [ none ↦ false | some t ↦ leb t now ]) ≡ false ↔ IsAhead now o
    go none = (λ k. tt, λ k. refl)
    go (some t) = (λ k. ground (arith, k), λ k. ground (arith, k))

served_inj : {F : Type 0} (f g : F) (p q : Text) → served f p ≡ served g q → (f ≡ g) × (p ≡ q)
served_inj f g p q h = (cc, cc)

serve_site-served :
    {F : Type 0} (name : Text) (g fs : F) (rest : Option Text) (p : Text)
    → serve_site name g rest ≡ served fs p
    → (r : Text) × (rest ≡ some r) × (p ≡ file_path r) × (g ≡ fs)
unfolding serve_site
serve_site-served name g fs none p h = cc
serve_site-served name g fs (some r) p h =
    let (a, b) = served_inj g fs (file_path r) p h in (r, refl, sym b, a)

group_view-served :
    {F : Type 0} (name : Text) (rows : List SiteRow) (fs : F) (p : Text)
    → ¬ (group_view name rows ≡ served fs p)
unfolding group_view
group_view-served name [] fs p h = cc
group_view-served name (row ∷ rows) fs p h = cc

module _ (B : Backend) where
  -- Where the files come from that stand below a name: a stored site that opens and whose deadline is
  -- still to come, or, where Stat gives no site, the embedded site of that name.
  abbrev pub Origin : ℕ → List (Builtin B.Fs) → Text → B.State → B.Fs → Type 0
  Origin now builtins name s fs =
      ((site : Site) × ((B.stat name s).1 ≡ ok site)
        × IsAhead now site.expires_at
        × ((B.open_site name (B.stat name s).0).1 ≡ ok fs))
      ⊎ ((e : StoreError) × (b : Builtin B.Fs) × ((B.stat name s).1 ≡ err e)
          × (find_builtin name builtins ≡ some b)
          × (b.fs ≡ fs))

  -- The path behind the name of a site, and what is served below it.
  abbrev pub IsFile : ℕ → List (Builtin B.Fs) → Text → Option Text → B.State → B.Fs → Text → Type 0
  IsFile now builtins name rest s fs p =
      (r : Text) × (rest ≡ some r) × (p ≡ file_path r) × Origin now builtins name s fs

  opened-served :
      (name : Text) (rest : Option Text) (o : Result StoreError B.Fs) (fs : B.Fs) (p : Text)
      → opened B name rest o ≡ served fs p
      → (r : Text) × (rest ≡ some r) × (p ≡ file_path r) × (o ≡ ok fs)
  opened-served name rest (ok g) fs p h =
      let (r, a, b, e) = serve_site-served name g fs rest p h in
      (r, a, b, ap (λ (x : B.Fs). ok x) e)
  opened-served name rest (err StoreError.not_found) fs p h = cc
  opened-served name rest (err StoreError.invalid_name) fs p h = cc
  opened-served name rest (err StoreError.unsafe_path) fs p h = cc
  opened-served name rest (err StoreError.site_too_large) fs p h = cc
  opened-served name rest (err StoreError.failed) fs p h = cc

  render_group_index-served :
      (now : ℕ) (name : Text) (s : B.State) (fs : B.Fs) (p : Text)
      → ¬ ((render_group_index B now name s).1 ≡ served fs p)
  unfolding render_group_index
  render_group_index-served now name s fs p h = go (B.list s).1 refl h
    where
      go :
          (o : Result StoreError (List Site))
          → (B.list s).1 ≡ o
          → ¬ ((render_group_index B now name s).1 ≡ served fs p)
      go (err e) k l = ground (arith, k, l)
      go (ok sites) k l =
          group_view-served name (child_rows now name sites) fs p (ground (arith, k, l))

  -- No index and no redirect is a file.
  serve_group-served :
      (now : ℕ) (name : Text) (rest : Option Text) (s : B.State) (fs : B.Fs) (p : Text)
      → ¬ ((serve_group B now name rest s).1 ≡ served fs p)
  unfolding serve_group
  serve_group-served now name rest s fs p h =
      let s' = (has_group_children B name s).0 in
      elim (Bool-cases (has_group_children B name s).1) [
        | inr alone ↦ ground (arith, alone, h)
        | inl children ↦ elim (Option-cases rest) [
          | inl bare ↦ ground (arith, children, bare, h)
          | inr (r, below) ↦ elim (Bool-cases (is_empty r)) [
            | inl root ↦
                render_group_index-served now name s' fs p
                  (ground (arith, children, below, root, h))
            | inr deep ↦ ground (arith, children, below, deep, h)
          ]
        ]
      ]

  render_index-served :
      (now : ℕ) (builtins : List (Builtin B.Fs)) (s : B.State) (fs : B.Fs) (p : Text)
      → ¬ ((render_index B now builtins s).1 ≡ served fs p)
  unfolding render_index
  render_index-served now builtins s fs p h = go (B.list s).1 refl h
    where
      go :
          (o : Result StoreError (List Site))
          → (B.list s).1 ≡ o
          → ¬ ((render_index B now builtins s).1 ≡ served fs p)
      go (err e) k l = ground (arith, k, l)
      go (ok sites) k l = ground (arith, k, l)

  serve_name-IsFile :
      (now : ℕ) (builtins : List (Builtin B.Fs)) (name : Text) (rest : Option Text) (s : B.State)
      (fs : B.Fs) (p : Text)
      → (serve_name B now builtins name rest s).1 ≡ served fs p
      → IsFile now builtins name rest s fs p
  unfolding serve_name serve_stored serve_fallback
  serve_name-IsFile now builtins name rest s fs p h = go (B.stat name s).1 refl h
    where
      go :
          (o : Result StoreError Site)
          → (B.stat name s).1 ≡ o
          → (serve_name B now builtins name rest s).1 ≡ served fs p
          → IsFile now builtins name rest s fs p
      go (ok site) k l = elim (Bool-cases (expired site now)) [
        | inl past ↦ ground (arith, k, past, l)
        | inr ahead ↦
            let answer = (B.open_site name (B.stat name s).0).1 in
            let (r, a, b, e) = opened-served name rest answer fs p (ground (arith, k, ahead, l)) in
            (r, a, b, inl (site, k, (expired-IsAhead site now).0 ahead, e))
      ]
      go (err x) k l = elim (Option-cases (find_builtin name builtins)) [
        | inl other ↦
            absurd (
              serve_group-served now name rest (B.stat name s).0 fs p (ground (arith, k, other, l)))
        | inr (b, own) ↦
            let (r, a, c, e) =
              serve_site-served b.name b.fs fs rest p (ground (arith, k, own, l)) in
            (r, a, c, inr (x, b, k, own, e))
      ]

  IsFile-serve_name :
      (now : ℕ) (builtins : List (Builtin B.Fs)) (name : Text) (rest : Option Text) (s : B.State)
      (fs : B.Fs) (p : Text)
      → IsFile now builtins name rest s fs p
      → (serve_name B now builtins name rest s).1 ≡ served fs p
  unfolding serve_name serve_stored serve_fallback serve_site
  IsFile-serve_name now builtins name rest s fs p (r, a, c, inl (site, k, ahead, e)) =
      ground (arith, k, a, c, e, (expired-IsAhead site now).1 ahead)
  IsFile-serve_name now builtins name rest s fs p (r, a, c, inr (x, b, k, own, e)) =
      ground (arith, k, a, c, own, e)

  -- A request of the public surface is answered with a file just when its path is neither the front
  -- page nor below the API, its first component is a valid name that a slash follows, and the files
  -- come from a stored site of that name that opens and has not expired, or, where Stat gives no site,
  -- from the embedded site of that name; and then the file is the one of the cleaned rest of the path.
  pub handle_public_iff :
      (now : ℕ) (builtins : List (Builtin B.Fs)) (path : Text) (s : B.State) (fs : B.Fs) (p : Text)
      → (handle_public B now builtins path s).1 ≡ served fs p
        ↔ ((has_prefix path (codes "/api/") || path == codes "/api") ≡ false)
          × ((path == codes "/") ≡ false)
          × (validate_site (first_segment (trim_prefix path (codes "/"))).0 ≡ true)
          × IsFile now builtins
              (first_segment (trim_prefix path (codes "/"))).0
              (first_segment (trim_prefix path (codes "/"))).1
              s
              fs
              p
  unfolding handle_public
  handle_public_iff now builtins path s fs p = (to, from)
    where
      name : Text
      name = (first_segment (trim_prefix path (codes "/"))).0

      rest : Option Text
      rest = (first_segment (trim_prefix path (codes "/"))).1

      api : Bool
      api = has_prefix path (codes "/api/") || path == codes "/api"

      to :
          (handle_public B now builtins path s).1 ≡ served fs p
          → (api ≡ false)
            × ((path == codes "/") ≡ false)
            × (validate_site name ≡ true)
            × IsFile now builtins name rest s fs p
      to h = elim (Bool-cases api) [
        | inl hidden ↦ ground (arith, hidden, h)
        | inr outside ↦ elim (Bool-cases (path == codes "/")) [
          | inl front ↦
              absurd (render_index-served now builtins s fs p (ground (arith, outside, front, h)))
          | inr inner ↦ elim (Bool-cases (validate_site name)) [
            | inr bad ↦ ground (arith, outside, inner, bad, h)
            | inl good ↦ (
              outside,
              inner,
              good,
              serve_name-IsFile now builtins name rest s fs p
                  (ground (arith, outside, inner, good, h)),
            )
          ]
        ]
      ]

      from :
          (api ≡ false)
            × ((path == codes "/") ≡ false)
            × (validate_site name ≡ true)
            × IsFile now builtins name rest s fs p
          → (handle_public B now builtins path s).1 ≡ served fs p
      from (outside, inner, good, f) =
          ground (arith, outside, inner, good, IsFile-serve_name now builtins name rest s fs p f)
