-- ===== src/Server/Auth.antt =====
-- Who may do what: bearer, isRoot, requireAuth and requireRoot.
use crate_html.Prelude.{
  ℕ, Bool, Option, none, some, Text, text_eq, ◌==◌, codes, has_prefix, trim_prefix, is_empty,
  if◌then◌else◌, [],
}
use crate_html.Token.{Record}
use crate_html.Token.Persistence.{Persistence}
use crate_html.Token.Store.{Codec, verify}
use crate_html.Server.{
  by_root, by_token, Rejection, missing_bearer, invalid_token, root_required, Audit, Request,
  Response, World, write_error,
}

-- The value behind "Bearer ", empty if the header is missing or malformed.
unfoldable pub bearer : Text → Text
unfolding has_prefix trim_prefix
bearer header =
    if has_prefix header (codes "Bearer ") then trim_prefix header (codes "Bearer ") else []

-- isRoot: a comparison in constant time is a comparison.
abbrev pub is_root : Text → Text → Bool
is_root root got = got == root

-- markRejection: the first reason stays.
unfoldable pub mark_rejection : Rejection → Audit → Audit
mark_rejection reason a = elim a.rejection [
  | none ↦ record a { rejection = some reason }
  | some _ ↦ a
]

abbrev pub as_token : Record → Audit → Audit
as_token rec a = record a { auth_kind = by_token; token_id = rec.id; token_name = rec.name }

module _ (C : Codec) (P : Persistence) (S : Type 0) where
  open P use {Medium}

  -- The world and the audit record behind a request, and the response.
  abbrev pub Outcome : Type 0
  Outcome = World S Medium × Audit × Response

  -- An http.HandlerFunc
  abbrev pub Handler : Type 0
  Handler = Request → World S Medium → Audit → Outcome

  -- s.tokens.Verify, with no record for a server without token store.
  unfoldable pub verify_token : Text → ℕ → World S Medium → World S Medium × Option Record
  verify_token got now w = elim w.tokens [
    | none ↦ (w, none)
    | some s ↦ let (s', found) = verify C P s got now in (record w { tokens = some s' }, found)
  ]

  unfoldable pub require_auth : Text → Handler → Handler
  unfolding bearer verify_token
  require_auth root next r w a =
      let got = bearer r.auth in
      if is_empty got
      then (w, record a { rejection = some missing_bearer }, write_error 401)
      else if is_root root got
      then next r w (record a { auth_kind = by_root })
      else let (w', found) = verify_token got r.now w in
        elim found [
          | none ↦ (w', record a { rejection = some invalid_token }, write_error 401)
          | some rec ↦ next r w' (as_token rec a)
        ]

  unfoldable pub require_root : Text → Handler → Handler
  unfolding bearer verify_token
  require_root root next r w a =
      let got = bearer r.auth in
      if is_empty got
      then (w, record a { rejection = some missing_bearer }, write_error 401)
      else if is_root root got
      then next r w (record a { auth_kind = by_root })
      else let (w', found) = verify_token got r.now w in
        elim found [
          | none ↦ (w', record a { rejection = some invalid_token }, write_error 401)
          | some rec ↦
              (w', record (as_token rec a) { rejection = some root_required }, write_error 403)
        ]
