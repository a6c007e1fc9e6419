-- ===== src/Token/Store.antt =====
-- `Store` of internal/token/token.go over any `Persistence`: LoadFrom, Create, List, Revoke and
-- Verify. The laws are in the modules beside this one.
use crate_html.Prelude.{
  ℕ, zero, suc, ◌+◌, ◌-◌, Bool, true, false, ◌||◌, Option, none, some, List, [], ◌∷◌, ◌++◌, Text,
  text_eq, ◌==◌, ltb, leb, if◌then◌else◌, Result, ok, err, cut_prefix, cut, is_empty, lookup,
  insert, delete,
}
use crate_html.Name.{validate_token}
use crate_html.Token.{Record, prefix, touch_interval, hex, plaintext}
use crate_html.Token.Persistence.{Persistence}

pub data TokenError : Type 0 where
  read_failed parse_failed invalid_name duplicate_name no_unique_id random_failed save_failed
        not_found :
      TokenError

-- `lastSaved` maps an id to the last_used_at value that was persisted most recently.
pub record Store (M : Type 0) : Type 0 where
  pub medium : M
  pub recs : List Record
  pub last_saved : List (Text × ℕ)

-- yaml.Marshal and yaml.Unmarshal of `fileShape`, and hashSecret.
pub record Codec : Type 0 where
  pub marshal : List Record → Option Text
  pub unmarshal : Text → Option (List Record)
  pub hash_secret : Text → Text

-- The loop of LoadFrom that fills `lastSaved`.
unfoldable pub saved_uses : List Record → List (Text × ℕ) → List (Text × ℕ)
saved_uses [] m = m
saved_uses (r ∷ rs) m = saved_uses rs (elim r.last_used_at [ none ↦ m | some t ↦ insert r.id t m ])

-- Whether a record has the name, or the id.
abbrev pub name_taken : Text → List Record → Bool
name_taken name [] = false
name_taken name (r ∷ rs) = r.name == name || name_taken name rs

abbrev pub id_taken : Text → List Record → Bool
id_taken id [] = false
id_taken id (r ∷ rs) = r.id == id || id_taken id rs

-- The rounds of freshIDLocked: `draws` are the results of rand.Read, `none` an error.
unfoldable pub fresh_id : ℕ → List (Option (List ℕ)) → List Record → Result TokenError Text
fresh_id zero draws recs = err no_unique_id
fresh_id (suc rounds) [] recs = err random_failed
fresh_id (suc rounds) (none ∷ draws) recs = err random_failed
fresh_id (suc rounds) (some raw ∷ draws) recs =
    let again = fresh_id rounds draws recs in
    if id_taken (hex raw) recs then again else ok (hex raw)

-- The position of the first record with the id, or the name.
unfoldable pub index_id : Text → List Record → Option ℕ
index_id id [] = none
index_id id (r ∷ rs) =
    let later : Option ℕ = elim (index_id id rs) [ none ↦ none | some i ↦ some (suc i) ] in
    if r.id == id then some 0 else later

unfoldable pub index_name : Text → List Record → Option ℕ
index_name name [] = none
index_name name (r ∷ rs) =
    let later : Option ℕ = elim (index_name name rs) [ none ↦ none | some i ↦ some (suc i) ] in
    if r.name == name then some 0 else later

unfoldable pub index_of : Text → List Record → Option ℕ
unfolding index_id index_name
index_of id_or_name recs = elim (index_id id_or_name recs) [
  | none ↦ index_name id_or_name recs
  | some i ↦ some i
]

-- `recs[:idx]` with `recs[idx+1:]` behind it, and the id of `recs[idx]`.
unfoldable pub remove_at : ℕ → List Record → List Record
remove_at i [] = []
remove_at zero (r ∷ rs) = rs
remove_at (suc i) (r ∷ rs) = r ∷ remove_at i rs

unfoldable pub id_at : ℕ → List Record → Text
id_at i [] = []
id_at zero (r ∷ rs) = r.id
id_at (suc i) (r ∷ rs) = id_at i rs

-- The record that the loop of Verify stops at, and the write of `r.LastUsedAt` through its pointer.
unfoldable pub find_id : Text → List Record → Option Record
find_id id [] = none
find_id id (r ∷ rs) = if r.id == id then some r else find_id id rs

unfoldable pub mark_used : Text → ℕ → List Record → List Record
mark_used id t [] = []
mark_used id t (r ∷ rs) =
    if r.id == id then record r { last_used_at = some t } ∷ rs else r ∷ mark_used id t rs

-- `r.ExpiresAt != nil && now.After(*r.ExpiresAt)`
abbrev pub is_past : Option ℕ → ℕ → Bool
is_past none now = false
is_past (some deadline) now = ltb deadline now

-- `!ok || t.Sub(saved) >= touchInterval`
abbrev pub needs_save : Option ℕ → ℕ → Bool
needs_save none t = true
needs_save (some saved) t = leb touch_interval (t - saved)

-- The parts of a well-formed bearer value.
unfoldable pub split_bearer : Text → Option (Text × Text)
split_bearer bearer = elim (cut_prefix bearer prefix) [
  | none ↦ none
  | some rest ↦ elim (cut rest b'_') [
    | none ↦ none
    | some (id, secret) ↦ if is_empty id || is_empty secret then none else some (id, secret)
  ]
]

module _ (C : Codec) (P : Persistence) where
  open P use {Medium, load, save}

  -- saveLocked
  unfoldable pub save_locked : Store Medium → Store Medium × Bool
  save_locked s = elim (C.marshal s.recs) [
    | none ↦ (s, false)
    | some out ↦ let (m, done) = save out s.medium in (record s { medium = m }, done)
  ]

  -- LoadFrom
  unfoldable pub load_from : Medium → Result TokenError (Store Medium)
  load_from m =
      let (m', answer) = load m in
      elim answer [
        | none ↦ err read_failed
        | some doc ↦
            if is_empty doc
            then ok (record { medium = m'; recs = []; last_saved = [] })
            else elim (C.unmarshal doc) [
              | none ↦ err parse_failed
              | some recs ↦
                  ok (record { medium = m'; recs = recs; last_saved = saved_uses recs [] })
            ]
      ]

  -- Create's record.
  unfoldable pub new_record : Text → Text → Text → Option ℕ → ℕ → Record
  new_record id name secret ttl now = record {
    id = id;
    name = name;
    sha256 = C.hash_secret secret;
    created_at = now;
    expires_at = elim ttl [ none ↦ none | some d ↦ some (now + d) ];
    last_used_at = none;
  }

  -- The part of Create behind the duplicate test: a failed save takes the record off again.
  unfoldable pub mint :
      Store Medium
      → Text
      → Option ℕ
      → ℕ
      → Result TokenError Text
      → Option (List ℕ)
      → Store Medium × Result TokenError (Text × Record)
  unfolding save_locked new_record
  mint s name ttl now (err e) raw = (s, err e)
  mint s name ttl now (ok id) none = (s, err random_failed)
  mint s name ttl now (ok id) (some raw) =
      let rec = new_record id name (hex raw) ttl now in
      let (s', done) = save_locked (record s { recs = s.recs ++ rec ∷ [] }) in
      if done
      then (s', ok (plaintext id (hex raw), rec))
      else (record s' { recs = s.recs }, err save_failed)

  unfoldable pub create :
      Store Medium
      → Text
      → Option ℕ
      → ℕ
      → List (Option (List ℕ))
      → Option (List ℕ)
      → Store Medium × Result TokenError (Text × Record)
  unfolding mint
  create s name ttl now draws raw =
      if validate_token name
      then (if name_taken name s.recs
          then (s, err duplicate_name)
          else mint s name ttl now (fresh_id 10 draws s.recs) raw)
      else (s, err invalid_name)

  -- List: a copy of all records, in creation order.
  unfoldable pub list : Store Medium → List Record
  list s = s.recs

  unfoldable pub revoke : Store Medium → Text → Store Medium × Result TokenError (Unit {0})
  unfolding save_locked
  revoke s id_or_name = elim (index_of id_or_name s.recs) [
    | none ↦ (s, err not_found)
    | some i ↦
        let (s', done) = save_locked (record s { recs = remove_at i s.recs }) in
        if done
        then (record s' { last_saved = delete (id_at i s.recs) s'.last_saved }, ok tt)
        else (record s' { recs = s.recs }, err save_failed)
  ]

  -- The part of Verify behind the checks: the use is marked, and saved if the last save is old.
  unfoldable pub touch : Store Medium → Record → ℕ → Store Medium
  unfolding save_locked
  touch s r now =
      let s' : Store Medium = record s { recs = mark_used r.id now s.recs } in
      if needs_save (lookup r.id s.last_saved) now
      then (let (s'', done) = save_locked s' in
          if done then record s'' { last_saved = insert r.id now s''.last_saved } else s'')
      else s'

  unfoldable pub verify : Store Medium → Text → ℕ → Store Medium × Option Record
  verify s bearer now = elim (split_bearer bearer) [
    | none ↦ (s, none)
    | some (id, secret) ↦ elim (find_id id s.recs) [
      | none ↦ (s, none)
      | some r ↦
          if C.hash_secret secret == r.sha256
          then (if is_past r.expires_at now
              then (s, none)
              else (touch s r now, some (record r { last_used_at = some now })))
          else (s, none)
    ]
  ]
