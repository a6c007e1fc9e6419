-- ===== src/Token/Restart.antt =====
-- A restart of the token store: what LoadFrom makes of the stored document, and whom Verify admits then.
use crate_html.Prelude.{
  ℕ, ◌≡◌, refl, sym, List, [], ◌∷◌, Text, text_eq, ◌==◌, arith, Option-cases, Bool-cases, inl, inr,
  ok, ap, ◌∙◌, map, lookup, insert,
}
use mathlib.Core.Path.{subst}
use mathlib.Core.Option
use crate_html.Token.{Record}
use crate_html.Token.Persistence.{Persistence}
use crate_html.Token.Store.{
  Store, Codec, save_locked, verify, touch, find_id, mark_used, load_from, split_bearer, is_past,
  needs_save,
}
use crate_html.Token.Lookup.{
  strip, strip-mark_used, id_taken-strip, name_taken-strip, IdsDistinct, NamesDistinct,
}
use crate_html.Token.Verify.{recs-save_locked}
use crate_html.Token.Invariant.{IsValid}
use crate_html.Token.Durable.{IsCodec, IsDurable, decode, IsDurable-saved, IsDurable-kept}

find_id-strip :
    (id : Text) (rs : List Record) → find_id id (map strip rs) ≡ Option.map strip (find_id id rs)
unfolding find_id
find_id-strip id [] = refl
find_id-strip id (r ∷ rs) = ground (arith, find_id-strip id rs)

IdsDistinct-strip : (rs : List Record) → IdsDistinct rs → IdsDistinct (map strip rs)
IdsDistinct-strip [] d = tt
IdsDistinct-strip (r ∷ rs) d = (id_taken-strip r.id rs ∙ d.0, IdsDistinct-strip rs d.1)

strip-IdsDistinct : (rs : List Record) → IdsDistinct (map strip rs) → IdsDistinct rs
strip-IdsDistinct [] d = tt
strip-IdsDistinct (r ∷ rs) d = (sym (id_taken-strip r.id rs) ∙ d.0, strip-IdsDistinct rs d.1)

NamesDistinct-strip : (rs : List Record) → NamesDistinct rs → NamesDistinct (map strip rs)
NamesDistinct-strip [] d = tt
NamesDistinct-strip (r ∷ rs) d = (name_taken-strip r.name rs ∙ d.0, NamesDistinct-strip rs d.1)

strip-NamesDistinct : (rs : List Record) → NamesDistinct (map strip rs) → NamesDistinct rs
strip-NamesDistinct [] d = tt
strip-NamesDistinct (r ∷ rs) d =
    (sym (name_taken-strip r.name rs) ∙ d.0, strip-NamesDistinct rs d.1)

pub IsValid-strip : (rs qs : List Record) → map strip rs ≡ map strip qs → IsValid qs → IsValid rs
IsValid-strip rs qs e v = record {
  ids = strip-IdsDistinct rs (subst IdsDistinct (sym e) (IdsDistinct-strip qs v.ids));
  names = strip-NamesDistinct rs (subst NamesDistinct (sym e) (NamesDistinct-strip qs v.names));
}

module _ (C : Codec) (P : Persistence) where
  open P use {Medium}

  -- The verdict does not read when a token was last used.
  verdict-strip :
      (s s' : Store Medium) (bearer : Text) (now : ℕ)
      → map strip s'.recs ≡ map strip s.recs
      → (verify C P s' bearer now).1 ≡ (verify C P s bearer now).1
  unfolding verify
  verdict-strip s s' bearer now e = elim (Option-cases (split_bearer bearer)) [
    | inl bad ↦ ground arith
    | inr ((id, secret), parts) ↦
        let same : Option.map strip (find_id id s'.recs) ≡ Option.map strip (find_id id s.recs) =
          sym (find_id-strip id s'.recs) ∙ ap (find_id id) e ∙ find_id-strip id s.recs in
        elim (Option-cases (find_id id s.recs)) [
          | inl unknown ↦ elim (Option-cases (find_id id s'.recs)) [
            | inl unknown' ↦ ground arith
            | inr (r', found') ↦ ground arith
          ]
          | inr (r, found) ↦ elim (Option-cases (find_id id s'.recs)) [
            | inl unknown' ↦ ground arith
            | inr (r', found') ↦ ground arith
          ]
        ]
  ]

  pub load_from-strip :
      (s s' : Store Medium)
      → IsDurable C P s
      → load_from C P s.medium ≡ ok s'
      → (map strip s'.recs ≡ map strip s.recs) × (P.content s'.medium ≡ P.content s.medium)
  unfolding load_from decode
  load_from-strip s s' d h = elim (Option-cases (P.load s.medium).1) [
    | inl bad ↦ ground arith
    | inr (doc, read) ↦
        ground (arith, P.load-content s.medium doc read, P.content-load s.medium, d.decoded, d.same)
  ]

  -- A daemon that restarts from the medium of a durable store admits exactly the same bearer
  -- values, with the same records: no revoked token comes back and no minted one is lost.
  pub verify-load_from :
      (s s' : Store Medium) (bearer : Text) (now : ℕ)
      → IsDurable C P s
      → load_from C P s.medium ≡ ok s'
      → (verify C P s' bearer now).1 ≡ (verify C P s bearer now).1
  verify-load_from s s' bearer now d h = verdict-strip s s' bearer now (load_from-strip s s' d h).0

  module _ (Y : IsCodec C) where
    touch-IsDurable :
        (s : Store Medium) (r : Record) (now : ℕ)
        → IsDurable C P s
        → IsDurable C P (touch C P s r now)
    unfolding touch
    touch-IsDurable s r now d =
        let t : Store Medium = record s { recs = mark_used r.id now s.recs } in
        let kept : map strip t.recs ≡ map strip s.recs = strip-mark_used r.id now s.recs in
        elim (Bool-cases (needs_save (lookup r.id s.last_saved) now)) [
          | inr recent ↦
              rw recent
                (record { stored = d.stored; decoded = d.decoded; same = d.same ∙ sym kept })
          | inl old ↦ elim (Bool-cases (save_locked C P t).1) [
            | inl done ↦
                rw (old, done)
                  (IsDurable-saved C P Y t
                    (record (save_locked C P t).0 {
                      last_saved = insert r.id now (save_locked C P t).0.last_saved;
                    })
                    done refl (recs-save_locked C P t))
            | inr failed ↦
                rw (old, failed)
                  (IsDurable-kept C P Y s t (save_locked C P t).0 d failed refl refl
                    (ap (map strip) (recs-save_locked C P t) ∙ kept))
          ]
        ]

    pub verify-IsDurable :
        (s : Store Medium) (bearer : Text) (now : ℕ)
        → IsDurable C P s
        → IsDurable C P (verify C P s bearer now).0
    unfolding verify
    verify-IsDurable s bearer now d = elim (Option-cases (split_bearer bearer)) [
      | inl bad ↦ rw (bad, verify) d
      | inr ((id, secret), parts) ↦ elim (Option-cases (find_id id s.recs)) [
        | inl unknown ↦ rw (parts, verify, unknown) d
        | inr (r, found) ↦ elim (Bool-cases (C.hash_secret secret == r.sha256)) [
          | inr wrong ↦ rw (parts, verify, found, wrong) d
          | inl right ↦ elim (Bool-cases (is_past r.expires_at now)) [
            | inl late ↦ rw (parts, verify, found, right, late) d
            | inr alive ↦ rw (parts, verify, found, right, alive) (touch-IsDurable s r now d)
          ]
        ]
      ]
    ]
