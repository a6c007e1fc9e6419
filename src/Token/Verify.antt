-- ===== src/Token/Verify.antt =====
-- Verify: whom it admits, and what it leaves of the store.
use crate_html.Prelude.{
  ℕ, ◌≡◌, ◌<◌, ◌+◌, ◌-◌, sym, false, none, some, List, Text, text_eq, text_beq_iff, arith,
  Option-cases, inl, inr, lookup, le→leb_false, ◌∙◌, ap, ◌↔◌,
}
use mathlib.Core.Path.{subst}
use crate_html.Token.{Record, touch_interval}
use crate_html.Token.Persistence.{Persistence}
use crate_html.Token.Store.{
  Store, Codec, find_id, mark_used, split_bearer, is_past, save_locked, touch, verify,
}
use crate_html.Token.Lookup.{find_id-id}

-- A bearer value that names an unexpired record and knows its secret.
pub record Accepts (C : Codec) (recs : List Record) (bearer : Text) (now : ℕ) (r : Record)
    : Type 0 where
  pub secret : Text
  pub shape : split_bearer bearer ≡ some (r.id, secret)
  pub stored : find_id r.id recs ≡ some r
  pub hashed : C.hash_secret secret ≡ r.sha256
  pub alive : is_past r.expires_at now ≡ false

module _ (C : Codec) (P : Persistence) where
  open P use {Medium}

  verify-Accepts :
      (s : Store Medium) (bearer : Text) (now : ℕ) (r' : Record)
      → (verify C P s bearer now).1 ≡ some r'
      → (r : Record) × Accepts C s.recs bearer now r × (r' ≡ record r { last_used_at = some now })
  unfolding verify
  verify-Accepts s bearer now r' h = elim (Option-cases (split_bearer bearer)) [
    | inl bad ↦ ground arith
    | inr ((id, secret), parts) ↦ elim (Option-cases (find_id id s.recs)) [
      | inl unknown ↦ ground arith
      | inr (r, found) ↦
          let same : r.id ≡ id = find_id-id id s.recs r found in
          (
            r,
            record {
              secret = secret;
              shape = subst (λ i. split_bearer bearer ≡ some (i, secret)) (sym same) parts;
              stored = ap (λ (i : Text). find_id i s.recs) same ∙ found;
              hashed = ground (arith, text_beq_iff (C.hash_secret secret) r.sha256);
              alive = ground (arith, text_beq_iff (C.hash_secret secret) r.sha256);
            },
            ground arith,
          )
    ]
  ]

  Accepts-verify :
      (s : Store Medium) (bearer : Text) (now : ℕ) (r : Record)
      → Accepts C s.recs bearer now r
      → (verify C P s bearer now).1 ≡ some (record r { last_used_at = some now })
  unfolding verify
  Accepts-verify s bearer now r a =
      ground (
        arith,
        a.shape,
        a.stored,
        text_beq_iff (C.hash_secret a.secret) r.sha256,
        a.hashed,
        a.alive,
      )

  -- Verify admits exactly the bearer values that take apart into the id of a stored record and a
  -- secret with the stored hash, before or at the record's deadline; it returns that record with
  -- the present as its last use.
  pub verify_iff :
      (s : Store Medium) (bearer : Text) (now : ℕ) (r' : Record)
      → ((verify C P s bearer now).1 ≡ some r') ↔ (
          (r : Record) × Accepts C s.recs bearer now r
          × (r' ≡ record r { last_used_at = some now }))
  verify_iff s bearer now r' =
      (verify-Accepts s bearer now r', λ a. Accepts-verify s bearer now a.0 a.1 ∙ ap some (sym a.2))

  pub recs-save_locked : (s : Store Medium) → (save_locked C P s).0.recs ≡ s.recs
  unfolding save_locked
  recs-save_locked s = ground arith

  pub last_saved-save_locked : (s : Store Medium) → (save_locked C P s).0.last_saved ≡ s.last_saved
  unfolding save_locked
  last_saved-save_locked s = ground arith

  pub recs-touch :
      (s : Store Medium) (r : Record) (now : ℕ)
      → (touch C P s r now).recs ≡ mark_used r.id now s.recs
  unfolding touch
  recs-touch s r now =
      ground (arith, recs-save_locked (record s { recs = mark_used r.id now s.recs }))

  -- Whether it admits or not, Verify changes no record but for the last use of the one it admits.
  pub recs-verify :
      (s : Store Medium) (bearer : Text) (now : ℕ)
      → (verify C P s bearer now).0.recs ≡ elim (verify C P s bearer now).1 as (λ _. List Record) [
        | none ↦ s.recs
        | some r ↦ mark_used r.id now s.recs
      ]
  unfolding verify
  recs-verify s bearer now = elim (Option-cases (split_bearer bearer)) [
    | inl bad ↦ ground arith
    | inr ((id, secret), parts) ↦ elim (Option-cases (find_id id s.recs)) [
      | inl unknown ↦ ground arith
      | inr (r, found) ↦ ground (arith, recs-touch s r now)
    ]
  ]

  -- While the last persisted use of the admitted token is less than `touchInterval` old, Verify
  -- writes nothing to the medium.
  pub medium-verify :
      (s : Store Medium) (bearer : Text) (now saved : ℕ) (r : Record)
      → (verify C P s bearer now).1 ≡ some r
      → lookup r.id s.last_saved ≡ some saved
      → now < saved + touch_interval
      → (verify C P s bearer now).0.medium ≡ s.medium
  unfolding verify touch
  medium-verify s bearer now saved r h k l = elim (Option-cases (split_bearer bearer)) [
    | inl bad ↦ ground arith
    | inr ((id, secret), parts) ↦ elim (Option-cases (find_id id s.recs)) [
      | inl unknown ↦ ground arith
      | inr (q, found) ↦ ground (
        arith,
        text_beq_iff (C.hash_secret secret) q.sha256,
        le→leb_false touch_interval (now - saved),
      )
    ]
  ]
