-- ===== src/Token/Durable.antt =====
-- The stored document and the tokens in memory: a restart changes no verdict.
use crate_html.Prelude.{
  ℕ, ◌≡◌, refl, sym, true, false, Option, none, some, List, [], ◌∷◌, ◌++◌, Text, text_eq,
  if◌then◌else◌, arith, Option-cases, Bool-cases, inl, inr, Result, ok, err, ap, ◌∙◌, map, is_empty,
  delete,
}
use crate_html.Name.{validate_token}
use crate_html.Token.{Record, hex}
use crate_html.Token.Persistence.{Persistence}
use crate_html.Token.Store.{
  Store, Codec, TokenError, save_locked, new_record, mint, create, revoke, name_taken, fresh_id,
  index_of, remove_at, id_at,
}
use crate_html.Token.Lookup.{strip}
use crate_html.Token.Verify.{recs-save_locked}

-- What the program relies on of the YAML package.
pub record IsCodec (C : Codec) : Type 0 where
  pub round_trip : (rs : List Record) (d : Text) → C.marshal rs ≡ some d → C.unmarshal d ≡ some rs
  pub not_empty : (rs : List Record) (d : Text) → C.marshal rs ≡ some d → is_empty d ≡ false

-- The records that LoadFrom makes of a document.
unfoldable pub decode : Codec → Text → Option (List Record)
decode C d = if is_empty d then some [] else C.unmarshal d

module _ (C : Codec) (P : Persistence) where
  open P use {Medium}

  -- The document holds the tokens in memory, up to when they were last used.
  pub record IsDurable (s : Store Medium) : Type 0 where
    pub stored : List Record
    pub decoded : decode C (P.content s.medium) ≡ some stored
    pub same : map strip stored ≡ map strip s.recs

  module _ (Y : IsCodec C) where
    -- A save that is reported done stored the records as they are.
    content-save_locked :
        (s : Store Medium)
        → (save_locked C P s).1 ≡ true
        → decode C (P.content (save_locked C P s).0.medium) ≡ some s.recs
    unfolding save_locked decode
    content-save_locked s h = elim (Option-cases (C.marshal s.recs)) [
      | inl bad ↦ ground arith
      | inr (d, good) ↦
          ground (
            arith,
            P.content-save d s.medium,
            Y.round_trip s.recs d good,
            Y.not_empty s.recs d good,
          )
    ]

    content-save_locked_failed :
        (s : Store Medium)
        → (save_locked C P s).1 ≡ false
        → P.content (save_locked C P s).0.medium ≡ P.content s.medium
    unfolding save_locked
    content-save_locked_failed s h = elim (Option-cases (C.marshal s.recs)) [
      | inl bad ↦ ground arith
      | inr (d, good) ↦ ground (arith, P.content-save_failed d s.medium)
    ]

    -- Saved, or not saved and put back: the store is durable.
    pub IsDurable-saved :
        (s s' : Store Medium)
        → (save_locked C P s).1 ≡ true
        → s'.medium ≡ (save_locked C P s).0.medium
        → s'.recs ≡ s.recs
        → IsDurable s'
    IsDurable-saved s s' h m r = record {
      stored = s.recs;
      decoded = ap (λ (x : Medium). decode C (P.content x)) m ∙ content-save_locked s h;
      same = ap (map strip) (sym r);
    }

    pub IsDurable-kept :
        (s t s' : Store Medium)
        → IsDurable s
        → (save_locked C P t).1 ≡ false
        → t.medium ≡ s.medium
        → s'.medium ≡ (save_locked C P t).0.medium
        → map strip s'.recs ≡ map strip s.recs
        → IsDurable s'
    IsDurable-kept s t s' d h same_medium m r = record {
      stored = d.stored;
      decoded =
          ap (λ (x : Medium). decode C (P.content x)) m
          ∙ ap (decode C) (content-save_locked_failed t h)
          ∙ ap (λ (x : Medium). decode C (P.content x)) same_medium
          ∙ d.decoded;
      same = d.same ∙ sym r;
    }

    mint-IsDurable :
        (s : Store Medium) (name : Text) (ttl : Option ℕ) (now : ℕ) (id : Result TokenError Text)
        (raw : Option (List ℕ))
        → IsDurable s
        → IsDurable (mint C P s name ttl now id raw).0
    unfolding mint
    mint-IsDurable s name ttl now (err e) raw d = d
    mint-IsDurable s name ttl now (ok i) none d = d
    mint-IsDurable s name ttl now (ok i) (some r) d =
        let t : Store Medium = record s {
          recs = s.recs ++ new_record C P i name (hex r) ttl now ∷ [];
        } in
        elim (Bool-cases (save_locked C P t).1) [
          | inl done ↦
              rw done (IsDurable-saved t (save_locked C P t).0 done refl (recs-save_locked C P t))
          | inr failed ↦ rw failed (
              IsDurable-kept s t (record (save_locked C P t).0 { recs = s.recs }) d failed refl refl
                refl)
        ]

    pub create-IsDurable :
        (s : Store Medium) (name : Text) (ttl : Option ℕ) (now : ℕ) (draws : List (Option (List ℕ)))
        (raw : Option (List ℕ))
        → IsDurable s
        → IsDurable (create C P s name ttl now draws raw).0
    unfolding create
    create-IsDurable s name ttl now draws raw d = elim (Bool-cases (validate_token name)) [
      | inr bad ↦ rw bad d
      | inl good ↦ elim (Bool-cases (name_taken name s.recs)) [
        | inl taken ↦ rw (good, taken) d
        | inr free ↦
            rw (good, free) (mint-IsDurable s name ttl now (fresh_id 10 draws s.recs) raw d)
      ]
    ]

    pub revoke-IsDurable :
        (s : Store Medium) (k : Text) → IsDurable s → IsDurable (revoke C P s k).0
    unfolding revoke
    revoke-IsDurable s k d = elim (Option-cases (index_of k s.recs)) [
      | inl gone ↦ rw (gone, revoke) d
      | inr (i, found) ↦
          let t : Store Medium = record s { recs = remove_at i s.recs } in
          elim (Bool-cases (save_locked C P t).1) [
            | inl done ↦
                rw (found, revoke, done)
                  (IsDurable-saved t
                    (record (save_locked C P t).0 {
                      last_saved = delete (id_at i s.recs) (save_locked C P t).0.last_saved;
                    })
                    done refl (recs-save_locked C P t))
            | inr failed ↦
                rw (found, revoke, failed)
                  (IsDurable-kept s t (record (save_locked C P t).0 { recs = s.recs }) d failed refl
                    refl refl)
          ]
    ]
