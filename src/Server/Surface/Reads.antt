-- ===== src/Server/Surface/Reads.antt =====
-- How the public pages use the store: by reads.
use crate_html.Prelude.{
  ℕ, ◌≡◌, refl, sym, ◌⊎◌, ◌||◌, Option, List, Text, text_eq, ◌==◌, codes, is_empty, arith,
  Bool-cases, Option-cases, inl, inr, Result, ok, err, has_prefix, trim_prefix,
}
use mathlib.Core.Path.{subst}
use crate_html.Name.{validate_site}
use crate_html.Wire.{Backend, Site, StoreError}
use crate_html.Server.Index.{expired}
use crate_html.Server.Public.{
  Builtin, first_segment, has_group_children, render_index, render_group_index, serve_stored,
  serve_group, serve_fallback, serve_name, handle_public, find_builtin,
}

module _ (B : Backend) where
  -- The second state comes from the first by reads of the store.
  pub data Reads (s : B.State) : B.State → Type 0 where
    here : Reads s s
    list : {t : B.State} → Reads s t → Reads s (B.list t).0
    names : {t : B.State} → Reads s t → Reads s (B.names t).0
    stat : {t : B.State} (name : Text) → Reads s t → Reads s (B.stat name t).0
    open_site : {t : B.State} (name : Text) → Reads s t → Reads s (B.open_site name t).0

  -- Where each page leaves the store.
  state-render_index :
      (now : ℕ) (builtins : List (Builtin B.Fs)) (t : B.State)
      → (render_index B now builtins t).0 ≡ (B.list t).0
  unfolding render_index
  state-render_index now builtins t = ground arith

  state-render_group_index :
      (now : ℕ) (prefix : Text) (t : B.State) → (render_group_index B now prefix t).0 ≡ (B.list t).0
  unfolding render_group_index
  state-render_group_index now prefix t = ground arith

  state-has_group_children :
      (prefix : Text) (t : B.State) → (has_group_children B prefix t).0 ≡ (B.names t).0
  unfolding has_group_children
  state-has_group_children prefix t = ground arith

  serve_stored-Reads :
      (now : ℕ) (name : Text) (rest : Option Text) (site : Site) (s t : B.State)
      → Reads s t
      → Reads s (serve_stored B now name rest site t).0
  unfolding serve_stored
  serve_stored-Reads now name rest site s t r = elim (Bool-cases (expired site now)) [
    | inl past ↦ rw (past, serve_stored) r
    | inr fresh ↦ rw (fresh, serve_stored) (open_site name r)
  ]

  state-serve_group :
      (now : ℕ) (name : Text) (rest : Option Text) (t : B.State)
      → ((serve_group B now name rest t).0 ≡ (B.names t).0)
        ⊎ ((serve_group B now name rest t).0 ≡ (B.list (B.names t).0).0)
  unfolding serve_group
  state-serve_group now name rest t =
      let k = state-has_group_children name t in
      elim (Bool-cases (has_group_children B name t).1) [
        | inl some_there ↦ elim (Option-cases rest) [
          | inl none_there ↦ inl (ground (arith, some_there, none_there, k))
          | inr (q, e) ↦ elim (Bool-cases (is_empty q)) [
            | inl empty ↦ inr (
                ground (
                  arith,
                  some_there,
                  e,
                  empty,
                  k,
                  state-render_group_index now name (has_group_children B name t).0,
                ))
            | inr deep ↦ inl (ground (arith, some_there, e, deep, k))
          ]
        ]
        | inr alone ↦ inl (ground (arith, alone, k))
      ]

  serve_group-Reads :
      (now : ℕ) (name : Text) (rest : Option Text) (s t : B.State)
      → Reads s t
      → Reads s (serve_group B now name rest t).0
  serve_group-Reads now name rest s t r = elim (state-serve_group now name rest t) [
    | inl e ↦ subst (Reads s) (sym e) (names r)
    | inr e ↦ subst (Reads s) (sym e) (list (names r))
  ]

  serve_fallback-Reads :
      (now : ℕ) (builtins : List (Builtin B.Fs)) (name : Text) (rest : Option Text) (s t : B.State)
      → Reads s t
      → Reads s (serve_fallback B now builtins name rest t).0
  unfolding serve_fallback
  serve_fallback-Reads now builtins name rest s t r =
      elim (Option-cases (find_builtin name builtins)) [
        | inl none_there ↦ rw (none_there, serve_fallback) (serve_group-Reads now name rest s t r)
        | inr (b, e) ↦ rw (e, serve_fallback) r
      ]

  serve_name-Reads :
      (now : ℕ) (builtins : List (Builtin B.Fs)) (name : Text) (rest : Option Text) (s t : B.State)
      → Reads s t
      → Reads s (serve_name B now builtins name rest t).0
  unfolding serve_name
  serve_name-Reads now builtins name rest s t r = go (B.stat name t).1 refl
    where
      go :
          (o : Result StoreError Site)
          → (B.stat name t).1 ≡ o
          → Reads s (serve_name B now builtins name rest t).0
      go (ok site) e =
          rw (e, serve_name)
            (serve_stored-Reads now name rest site s (B.stat name t).0 (stat name r))
      go (err x) e =
          rw (e, serve_name)
            (serve_fallback-Reads now builtins name rest s (B.stat name t).0 (stat name r))

  -- A page is made by reads alone.
  pub handle_public-Reads :
      (now : ℕ) (builtins : List (Builtin B.Fs)) (path : Text) (s : B.State)
      → Reads s (handle_public B now builtins path s).0
  unfolding handle_public
  handle_public-Reads now builtins path s =
      elim (Bool-cases (has_prefix path (codes "/api/") || path == codes "/api")) [
        | inl api ↦ rw (api, handle_public) here
        | inr other ↦ elim (Bool-cases (path == codes "/")) [
          | inl root ↦
              rw (other, handle_public, root)
                (subst (Reads s) (sym (state-render_index now builtins s)) (list here))
          | inr below ↦
              let (name, rest) = first_segment (trim_prefix path (codes "/")) in
              elim (Bool-cases (validate_site name)) [
                | inl good ↦
                    rw (other, handle_public, below, good)
                      (serve_name-Reads now builtins name rest s s here)
                | inr bad ↦ rw (other, handle_public, below, bad) here
              ]
        ]
      ]
