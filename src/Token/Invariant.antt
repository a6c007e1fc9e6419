-- ===== src/Token/Invariant.antt =====
-- What the store keeps in memory, and what Create and Revoke change of it.
use crate_html.Prelude.{
  ℕ, zero, suc, ◌≡◌, refl, sym, true, false, Option, none, some, List, [], ◌∷◌, ◌++◌, Text, text_eq,
  arith, length, Option-cases, Bool-cases, inl, inr, Result, ok, err, ap, ◌∙◌, All,
}
use crate_html.Name.{validate_token}
use mathlib.Core.Path.{subst}
use crate_html.Token.{Record, hex, plaintext, id_bytes, secret_bytes}
use crate_html.Token.Persistence.{Persistence}
use crate_html.Token.Store.{
  Store, Codec, TokenError, new_record, mint, create, revoke, verify, id_taken, name_taken,
  index_of, remove_at, fresh_id, mark_used,
}
use crate_html.Token.Lookup.{
  IdsDistinct, NamesDistinct, append-IdsDistinct, append-NamesDistinct, mark_used-IdsDistinct,
  mark_used-NamesDistinct,
}
use crate_html.Token.Removal.{remove_at-IdsDistinct, remove_at-NamesDistinct}
use crate_html.Token.Verify.{recs-save_locked, recs-verify}

pub record IsValid (recs : List Record) : Type 0 where
  pub ids : IdsDistinct recs
  pub names : NamesDistinct recs

-- rand.Read fills the whole slice that it is given, or fails.
abbrev pub Full : ℕ → Option (List ℕ) → Type 0
Full n none = Unit
Full n (some raw) = length raw ≡ n

-- An id that freshIDLocked returns is in no record, and comes from one of the draws.
pub fresh_id-id_taken :
    (rounds : ℕ) (draws : List (Option (List ℕ))) (recs : List Record) (id : Text)
    → All (Full id_bytes) draws
    → fresh_id rounds draws recs ≡ ok id
    → (raw : List ℕ) × (id ≡ hex raw) × (length raw ≡ id_bytes) × (id_taken id recs ≡ false)
unfolding fresh_id
fresh_id-id_taken zero draws recs id f h = ground arith
fresh_id-id_taken (suc rounds) [] recs id f h = ground arith
fresh_id-id_taken (suc rounds) (none ∷ draws) recs id f h = ground arith
fresh_id-id_taken (suc rounds) (some raw ∷ draws) recs id f h =
    elim (Bool-cases (id_taken (hex raw) recs)) [
      | inl clash ↦ fresh_id-id_taken rounds draws recs id f.1 (rw clash at h)
      | inr free ↦ (raw, ground arith, f.0, ground arith)
    ]

module _ (C : Codec) (P : Persistence) where
  open P use {Medium}

  mint-ok :
      (s : Store Medium) (name : Text) (ttl : Option ℕ) (now : ℕ) (id : Result TokenError Text)
      (raw : Option (List ℕ)) (plain : Text) (rec : Record)
      → (mint C P s name ttl now id raw).1 ≡ ok (plain, rec)
      → (i : Text) × (r : List ℕ) × (id ≡ ok i)
        × (raw ≡ some r)
        × (plain ≡ plaintext i (hex r))
        × (rec ≡ new_record C P i name (hex r) ttl now)
        × ((mint C P s name ttl now id raw).0.recs ≡ s.recs ++ rec ∷ [])
  unfolding mint
  mint-ok s name ttl now (err e) raw plain rec h = ground arith
  mint-ok s name ttl now (ok i) none plain rec h = ground arith
  mint-ok s name ttl now (ok i) (some r) plain rec h =
      let new = new_record C P i name (hex r) ttl now in
      let kept = recs-save_locked C P (record s { recs = s.recs ++ new ∷ [] }) in
      (i, r, refl, refl, ground arith, ground arith, ground (arith, kept))

  mint-err :
      (s : Store Medium) (name : Text) (ttl : Option ℕ) (now : ℕ) (id : Result TokenError Text)
      (raw : Option (List ℕ)) (e : TokenError)
      → (mint C P s name ttl now id raw).1 ≡ err e
      → (mint C P s name ttl now id raw).0.recs ≡ s.recs
  unfolding mint
  mint-err s name ttl now (err d) raw e h = refl
  mint-err s name ttl now (ok i) none e h = refl
  mint-err s name ttl now (ok i) (some r) e h = ground arith

  -- What a successful Create did: the name was valid and free, the id is fresh, and the new record
  -- stands behind the others.
  pub record Created (s s' : Store Medium) (name : Text) (ttl : Option ℕ) (now : ℕ) (plain : Text)
      (rec : Record) : Type 0 where
    pub raw_id : List ℕ
    pub raw : List ℕ
    pub full_id : length raw_id ≡ id_bytes
    pub full_raw : length raw ≡ secret_bytes
    pub valid : validate_token name ≡ true
    pub free : name_taken name s.recs ≡ false
    pub fresh : id_taken (hex raw_id) s.recs ≡ false
    pub printed : plain ≡ plaintext (hex raw_id) (hex raw)
    pub is_new : rec ≡ new_record C P (hex raw_id) name (hex raw) ttl now
    pub recs : s'.recs ≡ s.recs ++ rec ∷ []

  pub create-Created :
      (s : Store Medium) (name : Text) (ttl : Option ℕ) (now : ℕ) (draws : List (Option (List ℕ)))
      (raw : Option (List ℕ)) (plain : Text) (rec : Record)
      → All (Full id_bytes) draws
      → Full secret_bytes raw
      → (create C P s name ttl now draws raw).1 ≡ ok (plain, rec)
      → Created s (create C P s name ttl now draws raw).0 name ttl now plain rec
  unfolding create
  create-Created s name ttl now draws raw plain rec f g h =
      elim (Bool-cases (validate_token name)) [
        | inr bad ↦ ground arith
        | inl good ↦ elim (Bool-cases (name_taken name s.recs)) [
          | inl taken ↦ ground arith
          | inr free ↦
              let minted : (mint C P s name ttl now (fresh_id 10 draws s.recs) raw).1
                  ≡ ok (plain, rec) =
                ground arith in
              let (id, r, drawn, read, printed, new, kept) =
                mint-ok s name ttl now (fresh_id 10 draws s.recs) raw plain rec minted in
              let (raw_id, is_hex, full, fresh) = fresh_id-id_taken 10 draws s.recs id f drawn in
              rw (good, free)
                (record {
                  raw_id = raw_id;
                  raw = r;
                  full_id = full;
                  full_raw = subst (Full secret_bytes) read g;
                  valid = good;
                  free = free;
                  fresh = rw (← is_hex) fresh;
                  printed = printed ∙ ap (λ (i : Text). plaintext i (hex r)) is_hex;
                  is_new = new ∙ ap (λ (i : Text). new_record C P i name (hex r) ttl now) is_hex;
                  recs = kept;
                })
        ]
      ]

  -- A Create that fails, for whatever reason, leaves the set of tokens as it was.
  pub create-err :
      (s : Store Medium) (name : Text) (ttl : Option ℕ) (now : ℕ) (draws : List (Option (List ℕ)))
      (raw : Option (List ℕ)) (e : TokenError)
      → (create C P s name ttl now draws raw).1 ≡ err e
      → (create C P s name ttl now draws raw).0.recs ≡ s.recs
  unfolding create
  create-err s name ttl now draws raw e h =
      ground (arith, mint-err s name ttl now (fresh_id 10 draws s.recs) raw e)

  -- With draws of the length of an id and of a secret, Create keeps ids and names distinct, whether
  -- it fails or not.
  pub create-IsValid :
      (s : Store Medium) (name : Text) (ttl : Option ℕ) (now : ℕ) (draws : List (Option (List ℕ)))
      (raw : Option (List ℕ))
      → All (Full id_bytes) draws
      → Full secret_bytes raw
      → IsValid s.recs
      → IsValid (create C P s name ttl now draws raw).0.recs
  unfolding new_record
  create-IsValid s name ttl now draws raw f g v =
      outcome (create C P s name ttl now draws raw).1 refl
    where
      s' : Store Medium
      s' = (create C P s name ttl now draws raw).0

      outcome :
          (o : Result TokenError (Text × Record))
          → (create C P s name ttl now draws raw).1 ≡ o
          → IsValid s'.recs
      outcome (err e) h = subst IsValid (sym (create-err s name ttl now draws raw e h)) v
      outcome (ok (plain, rec)) h =
          let c = create-Created s name ttl now draws raw plain rec f g h in
          subst IsValid (sym c.recs) (record {
            ids =
                append-IdsDistinct s.recs rec
                  (subst (λ (i : Text). id_taken i s.recs ≡ false)
                    (sym (ap (λ (r : Record). r.id) c.is_new)) c.fresh)
                  v.ids;
            names =
                append-NamesDistinct s.recs rec
                  (subst (λ (n : Text). name_taken n s.recs ≡ false)
                    (sym (ap (λ (r : Record). r.name) c.is_new)) c.free)
                  v.names;
          })

  -- A Revoke that succeeds took off the record at the position that it found.
  pub revoke-ok :
      (s : Store Medium) (k : Text)
      → (revoke C P s k).1 ≡ ok tt
      → (i : ℕ) × (index_of k s.recs ≡ some i) × ((revoke C P s k).0.recs ≡ remove_at i s.recs)
  unfolding revoke
  revoke-ok s k h = elim (Option-cases (index_of k s.recs)) [
    | inl gone ↦ ground arith
    | inr (i, found) ↦
        (i, found, ground (arith, recs-save_locked C P (record s { recs = remove_at i s.recs })))
  ]

  -- A Revoke that fails leaves every token in place.
  pub revoke-err :
      (s : Store Medium) (k : Text) (e : TokenError)
      → (revoke C P s k).1 ≡ err e
      → (revoke C P s k).0.recs ≡ s.recs
  unfolding revoke
  revoke-err s k e h = elim (Option-cases (index_of k s.recs)) [
    | inl gone ↦ ground arith
    | inr (i, found) ↦ ground (arith, recs-save_locked C P (record s { recs = remove_at i s.recs }))
  ]

  -- Revoke keeps ids and names distinct.
  pub revoke-IsValid :
      (s : Store Medium) (k : Text) → IsValid s.recs → IsValid (revoke C P s k).0.recs
  revoke-IsValid s k v = outcome (revoke C P s k).1 refl
    where
      outcome :
          (o : Result TokenError (Unit {0}))
          → (revoke C P s k).1 ≡ o
          → IsValid (revoke C P s k).0.recs
      outcome (err e) h = subst IsValid (sym (revoke-err s k e h)) v
      outcome (ok tt) h =
          let (i, found, kept) = revoke-ok s k h in
          subst IsValid (sym kept) (record {
            ids = remove_at-IdsDistinct i s.recs v.ids;
            names = remove_at-NamesDistinct i s.recs v.names;
          })

  -- Verify keeps ids and names distinct.
  pub verify-IsValid :
      (s : Store Medium) (bearer : Text) (now : ℕ)
      → IsValid s.recs
      → IsValid (verify C P s bearer now).0.recs
  verify-IsValid s bearer now v =
      subst IsValid (sym (recs-verify C P s bearer now)) (outcome (verify C P s bearer now).1)
    where
      outcome :
          (o : Option Record)
          → IsValid
              (elim o as (λ _. List Record) [ none ↦ s.recs | some r ↦ mark_used r.id now s.recs ])
      outcome none = v
      outcome (some r) = record {
        ids = mark_used-IdsDistinct r.id now s.recs v.ids;
        names = mark_used-NamesDistinct r.id now s.recs v.names;
      }
