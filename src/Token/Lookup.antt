-- ===== src/Token/Lookup.antt =====
-- Searching the records by id, and what marking a use, adding and removing change.
use crate_html.Prelude.{
  ℕ, ◌≡◌, refl, false, ◌||◌, none, some, List, [], ◌∷◌, ◌++◌, Text, text_eq, text_beq_iff, ◌==◌,
  if◌then◌else◌, arith, map, Bool-cases, inl, inr,
}
use crate_html.Token.{Record}
use crate_html.Token.Store.{id_taken, name_taken, find_id, mark_used}

-- No id, and no name, stands twice.
abbrev pub IdsDistinct : List Record → Type 0
IdsDistinct [] = Unit
IdsDistinct (r ∷ rs) = (id_taken r.id rs ≡ false) × IdsDistinct rs

abbrev pub NamesDistinct : List Record → Type 0
NamesDistinct [] = Unit
NamesDistinct (r ∷ rs) = (name_taken r.name rs ≡ false) × NamesDistinct rs

-- A record without its last use.
abbrev pub strip : Record → Record
strip r = record r { last_used_at = none }

pub find_id-id : (id : Text) (rs : List Record) (r : Record) → find_id id rs ≡ some r → r.id ≡ id
unfolding find_id
find_id-id id [] r h = ground arith
find_id-id id (q ∷ rs) r h = ground (arith, find_id-id id rs r, text_beq_iff q.id id)

pub find_id-none : (id : Text) (rs : List Record) → id_taken id rs ≡ false → find_id id rs ≡ none
unfolding find_id
find_id-none id [] h = refl
find_id-none id (q ∷ rs) h = ground (arith, find_id-none id rs)

pub find_id-append :
    (id : Text) (rs : List Record) (r : Record)
    → id_taken id rs ≡ false
    → r.id ≡ id
    → find_id id (rs ++ r ∷ []) ≡ some r
unfolding find_id
find_id-append id [] r h e = ground (arith, text_beq_iff r.id id)
find_id-append id (q ∷ rs) r h e = ground (arith, find_id-append id rs r)

pub find_id-append_ne :
    (id : Text) (rs : List Record) (r : Record)
    → (r.id == id) ≡ false
    → find_id id (rs ++ r ∷ []) ≡ find_id id rs
unfolding find_id
find_id-append_ne id [] r e = ground arith
find_id-append_ne id (q ∷ rs) r e = ground (arith, find_id-append_ne id rs r)

pub id_taken-append :
    (id : Text) (rs : List Record) (r : Record)
    → id_taken id (rs ++ r ∷ []) ≡ (id_taken id rs || r.id == id)
id_taken-append id [] r = ground arith
id_taken-append id (q ∷ rs) r = ground (arith, id_taken-append id rs r)

pub name_taken-append :
    (n : Text) (rs : List Record) (r : Record)
    → name_taken n (rs ++ r ∷ []) ≡ (name_taken n rs || r.name == n)
name_taken-append id [] r = ground arith
name_taken-append id (q ∷ rs) r = ground (arith, name_taken-append id rs r)

pub append-IdsDistinct :
    (rs : List Record) (r : Record)
    → id_taken r.id rs ≡ false
    → IdsDistinct rs
    → IdsDistinct (rs ++ r ∷ [])
append-IdsDistinct [] r h d = (refl, tt)
append-IdsDistinct (q ∷ rs) r h d = (
  ground (arith, id_taken-append q.id rs r, text_beq_iff q.id r.id, text_beq_iff r.id q.id, d.0),
  append-IdsDistinct rs r (ground arith) d.1,
)

pub append-NamesDistinct :
    (rs : List Record) (r : Record)
    → name_taken r.name rs ≡ false
    → NamesDistinct rs
    → NamesDistinct (rs ++ r ∷ [])
append-NamesDistinct [] r h d = (refl, tt)
append-NamesDistinct (q ∷ rs) r h d = (
  ground (
    arith,
    name_taken-append q.name rs r,
    text_beq_iff q.name r.name,
    text_beq_iff r.name q.name,
    d.0,
  ),
  append-NamesDistinct rs r (ground arith) d.1,
)

-- Marking a use writes one field of one record.
pub find_id-mark_used :
    (id j : Text) (t : ℕ) (rs : List Record) (r : Record)
    → find_id j rs ≡ some r
    → find_id j (mark_used id t rs)
      ≡ some (if id == j then record r { last_used_at = some t } else r)
unfolding find_id mark_used
find_id-mark_used id j t [] r h = ground arith
find_id-mark_used id j t (q ∷ rs) r h = ground (
  arith,
  find_id-mark_used id j t rs r,
  text_beq_iff q.id id,
  text_beq_iff q.id j,
  text_beq_iff id j,
)

pub strip-mark_used :
    (id : Text) (t : ℕ) (rs : List Record) → map strip (mark_used id t rs) ≡ map strip rs
unfolding mark_used
strip-mark_used id t [] = refl
strip-mark_used id t (q ∷ rs) = ground (arith, strip-mark_used id t rs)

-- Ids and names are read off the stripped records.
pub id_taken-strip : (id : Text) (rs : List Record) → id_taken id (map strip rs) ≡ id_taken id rs
id_taken-strip id [] = refl
id_taken-strip id (q ∷ rs) = ground (arith, id_taken-strip id rs)

pub name_taken-strip : (n : Text) (rs : List Record) → name_taken n (map strip rs) ≡ name_taken n rs
name_taken-strip id [] = refl
name_taken-strip id (q ∷ rs) = ground (arith, name_taken-strip id rs)

pub id_taken-mark_used :
    (id j : Text) (t : ℕ) (rs : List Record) → id_taken j (mark_used id t rs) ≡ id_taken j rs
unfolding mark_used
id_taken-mark_used id j t [] = refl
id_taken-mark_used id j t (q ∷ rs) = ground (arith, id_taken-mark_used id j t rs)

pub name_taken-mark_used :
    (id j : Text) (t : ℕ) (rs : List Record) → name_taken j (mark_used id t rs) ≡ name_taken j rs
unfolding mark_used
name_taken-mark_used id j t [] = refl
name_taken-mark_used id j t (q ∷ rs) = ground (arith, name_taken-mark_used id j t rs)

pub mark_used-IdsDistinct :
    (id : Text) (t : ℕ) (rs : List Record) → IdsDistinct rs → IdsDistinct (mark_used id t rs)
unfolding mark_used
mark_used-IdsDistinct id t [] d = tt
mark_used-IdsDistinct id t (q ∷ rs) d = elim (Bool-cases (q.id == id)) [
  | inl hit ↦ rw hit d
  | inr miss ↦
      rw miss
        (ground (arith, id_taken-mark_used id q.id t rs, d.0), mark_used-IdsDistinct id t rs d.1)
]

pub mark_used-NamesDistinct :
    (id : Text) (t : ℕ) (rs : List Record) → NamesDistinct rs → NamesDistinct (mark_used id t rs)
unfolding mark_used
mark_used-NamesDistinct id t [] d = tt
mark_used-NamesDistinct id t (q ∷ rs) d = elim (Bool-cases (q.id == id)) [
  | inl hit ↦ rw hit d
  | inr miss ↦ rw miss (
    ground (arith, name_taken-mark_used id q.name t rs, d.0),
    mark_used-NamesDistinct id t rs d.1,
  )
]
