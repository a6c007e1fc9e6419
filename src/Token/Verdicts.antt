-- ===== src/Token/Verdicts.antt =====
-- How Create and Revoke change whom Verify admits.
use crate_html.Prelude.{
  ℕ, ◌≡◌, refl, sym, false, Option, none, some, List, Text, text_eq, ◌==◌, if◌then◌else◌, arith,
  Option-cases, inl, inr, ok, ap, ◌∙◌, All, Bool-cases,
}
use mathlib.Core.Path.{subst}
use crate_html.Token.{Record, hex, id_bytes, secret_bytes}
use crate_html.Token.Persistence.{Persistence}
use crate_html.Token.Store.{
  index_of, remove_at, Store, Codec, new_record, create, revoke, verify, find_id, id_at,
  split_bearer, is_past, id_taken,
}
use crate_html.Token.Format.{split_bearer-hex}
use crate_html.Token.Lookup.{find_id-append, find_id-append_ne}
use crate_html.Token.Removal.{Named, index_of-Named, index_of-lt, find_id-remove_at}
use crate_html.Token.Verify.{Accepts, verify_iff}
use crate_html.Token.Invariant.{IsValid, Full, Created, create-Created, revoke-ok}

module _ (C : Codec) (P : Persistence) where
  open P use {Medium}

  -- The verdict depends on the record under the id, and on no other part of the store.
  verdict_cong :
      (s s' : Store Medium) (bearer id secret : Text) (now : ℕ)
      → split_bearer bearer ≡ some (id, secret)
      → find_id id s'.recs ≡ find_id id s.recs
      → (verify C P s' bearer now).1 ≡ (verify C P s bearer now).1
  unfolding verify
  verdict_cong s s' bearer id secret now shape same = elim (Option-cases (find_id id s.recs)) [
    | inl unknown ↦ ground arith
    | inr (r, found) ↦ ground arith
  ]

  verdict_none :
      (s : Store Medium) (bearer id secret : Text) (now : ℕ)
      → split_bearer bearer ≡ some (id, secret)
      → find_id id s.recs ≡ none
      → (verify C P s bearer now).1 ≡ none
  unfolding verify
  verdict_none s bearer id secret now shape gone = ground arith

  -- With draws of the right lengths, the plaintext that Create returns is admitted until the deadline
  -- of the record that Create returned, and Verify returns that record with its last use.
  pub verify-create :
      (s : Store Medium) (name : Text) (ttl : Option ℕ) (now : ℕ) (draws : List (Option (List ℕ)))
      (raw : Option (List ℕ)) (plain : Text) (rec : Record) (later : ℕ)
      → All (Full id_bytes) draws
      → Full secret_bytes raw
      → (create C P s name ttl now draws raw).1 ≡ ok (plain, rec)
      → is_past rec.expires_at later ≡ false
      → (verify C P (create C P s name ttl now draws raw).0 plain later).1
        ≡ some (record rec { last_used_at = some later })
  unfolding new_record
  verify-create s name ttl now draws raw plain rec later f g h alive =
      let s' = (create C P s name ttl now draws raw).0 in
      let c : Created C P s s' name ttl now plain rec =
        create-Created C P s name ttl now draws raw plain rec f g h in
      let at_id : rec.id ≡ hex c.raw_id = ap (λ (r : Record). r.id) c.is_new in
      let accepted : Accepts C s'.recs plain later rec = record {
        secret = hex c.raw;
        shape =
            ap split_bearer c.printed
            ∙ split_bearer-hex c.raw_id c.raw (omega (arith, c.full_id)) (omega (arith, c.full_raw))
            ∙ ap (λ (i : Text). some (i, hex c.raw)) (sym at_id);
        stored =
            ap (find_id rec.id) c.recs
            ∙ find_id-append rec.id s.recs rec
                (subst (λ (i : Text). id_taken i s.recs ≡ false) (sym at_id) c.fresh) refl;
        hashed = sym (ap (λ (r : Record). r.sha256) c.is_new);
        alive = alive;
      } in
      (verify_iff C P s' plain later (record rec { last_used_at = some later })).1
        (rec, accepted, refl)

  -- With draws of the right lengths, minting a token changes no verdict on a bearer value of another id.
  pub verify-create_ne :
      (s : Store Medium) (name : Text) (ttl : Option ℕ) (now : ℕ) (draws : List (Option (List ℕ)))
      (raw : Option (List ℕ)) (plain : Text) (rec : Record) (bearer id secret : Text) (later : ℕ)
      → All (Full id_bytes) draws
      → Full secret_bytes raw
      → (create C P s name ttl now draws raw).1 ≡ ok (plain, rec)
      → split_bearer bearer ≡ some (id, secret)
      → (rec.id == id) ≡ false
      → (verify C P (create C P s name ttl now draws raw).0 bearer later).1
        ≡ (verify C P s bearer later).1
  verify-create_ne s name ttl now draws raw plain rec bearer id secret later f g h shape other =
      let s' = (create C P s name ttl now draws raw).0 in
      let c : Created C P s s' name ttl now plain rec =
        create-Created C P s name ttl now draws raw plain rec f g h in
      verdict_cong s s' bearer id secret later shape
        (ap (find_id id) c.recs ∙ find_id-append_ne id s.recs rec other)

  -- From distinct ids and names, a Revoke that succeeds ends the token that the given text names, by
  -- its id or else by its name, and no other: no bearer value of its id is admitted at any time, and
  -- every well-formed one of another id has the verdict from before.
  pub verify-revoke :
      (s : Store Medium) (k : Text)
      → IsValid s.recs
      → (revoke C P s k).1 ≡ ok tt
      → (r : Record) × Named k s.recs r
        × ((bearer id secret : Text) (now : ℕ)
            → split_bearer bearer ≡ some (id, secret)
            → (verify C P (revoke C P s k).0 bearer now).1
              ≡ (if r.id == id then none else (verify C P s bearer now).1))
  verify-revoke s k v h = (r, is_k, verdict)
    where
      s' : Store Medium
      s' = (revoke C P s k).0

      found : (i : ℕ) × (index_of k s.recs ≡ some i) × (s'.recs ≡ remove_at i s.recs)
      found = revoke-ok C P s k h

      named : (r : Record) × (id_at found.0 s.recs ≡ r.id) × Named k s.recs r
      named = index_of-Named k s.recs found.0 v.ids found.1

      r : Record
      r = named.0

      is_k : Named k s.recs r
      is_k = named.2

      verdict :
          (bearer id secret : Text) (now : ℕ)
          → split_bearer bearer ≡ some (id, secret)
          → (verify C P s' bearer now).1
            ≡ (if r.id == id then none else (verify C P s bearer now).1)
      verdict bearer id secret now shape =
          let search_again : find_id id s'.recs ≡ (if r.id == id then none else find_id id s.recs) =
            ap (find_id id) found.2
            ∙ find_id-remove_at id found.0 s.recs (index_of-lt k s.recs found.0 found.1) v.ids
            ∙ ap (λ (x : Text). if x == id then none else find_id id s.recs) named.1 in
          elim (Bool-cases (r.id == id)) [
            | inl hit ↦ rw hit (verdict_none s' bearer id secret now shape (rw hit at search_again))
            | inr miss ↦
                rw miss (verdict_cong s s' bearer id secret now shape (rw miss at search_again))
          ]
