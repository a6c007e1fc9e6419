-- ===== src/Token/Removal.antt =====
-- Revoke takes off one record, and puts it back if the save fails.
use crate_html.Prelude.{
  ◌⊎◌, sym, ◌∙◌, ℕ, zero, suc, ◌≡◌, ◌<◌, refl, true, false, none, some, List, [], ◌∷◌, Text,
  text_eq, text_beq_iff, ◌==◌, if◌then◌else◌, arith, length, Option-cases, Bool-cases, inl, inr, ap,
}
use crate_html.Token.{Record}
use crate_html.Token.Store.{
  id_taken, name_taken, find_id, index_id, index_name, index_of, remove_at, id_at,
}
use crate_html.Token.Lookup.{IdsDistinct, NamesDistinct, find_id-none}

index_id-some :
    (id : Text) (rs : List Record) (i : ℕ)
    → index_id id rs ≡ some i
    → (i < length rs) × (id_at i rs ≡ id)
unfolding index_id id_at
index_id-some id [] i h = ground arith
index_id-some id (r ∷ rs) i h = elim (Bool-cases (r.id == id)) [
  | inl hit ↦ first i (ground arith)
  | inr miss ↦ elim (Option-cases (index_id id rs)) [
    | inl gone ↦ ground arith
    | inr (j, found) ↦ later j (index_id-some id rs j found) i (ground arith)
  ]
]
  where
    first :
        (i : ℕ) → (i ≡ 0) × ((r.id == id) ≡ true) → (i < length (r ∷ rs)) × (id_at i (r ∷ rs) ≡ id)
    first zero (e, k) = (omega arith, (text_beq_iff r.id id).0 k)
    first (suc i) (e, k) = absurd (omega arith)

    later :
        (j : ℕ)
        → (j < length rs) × (id_at j rs ≡ id)
        → (i : ℕ) → i ≡ suc j
        → (i < length (r ∷ rs)) × (id_at i (r ∷ rs) ≡ id)
    later j p zero e = absurd (omega arith)
    later j p (suc i) e = ground (arith, p.0, p.1)

index_name-lt : (n : Text) (rs : List Record) (i : ℕ) → index_name n rs ≡ some i → i < length rs
unfolding index_name
index_name-lt n [] i h = ground arith
index_name-lt n (r ∷ rs) i h = elim (Option-cases (index_name n rs)) [
  | inl gone ↦ ground arith
  | inr (j, found) ↦ ground (arith, index_name-lt n rs j found)
]

-- What Revoke finds is in the list.
pub index_of-lt : (k : Text) (rs : List Record) (i : ℕ) → index_of k rs ≡ some i → i < length rs
unfolding index_of
index_of-lt k rs i h = elim (Option-cases (index_id k rs)) [
  | inl gone ↦ index_name-lt k rs i (ground arith)
  | inr (j, found) ↦ ground (arith, index_id-some k rs j found)
]

index_id-taken :
    (id : Text) (rs : List Record) → id_taken id rs ≡ true → (i : ℕ) × (index_id id rs ≡ some i)
unfolding index_id
index_id-taken id [] h = ground arith
index_id-taken id (r ∷ rs) h = elim (Bool-cases (r.id == id)) [
  | inl hit ↦ (0, ground arith)
  | inr miss ↦ let (i, found) = index_id-taken id rs (ground arith) in (suc i, ground arith)
]

-- An id that is in use is preferred over a name.
pub id_at-index_of :
    (id : Text) (rs : List Record)
    → id_taken id rs ≡ true
    → (i : ℕ) × (index_of id rs ≡ some i) × (id_at i rs ≡ id)
unfolding index_of
id_at-index_of id rs h =
    let (i, found) = index_id-taken id rs h in
    (i, rw (found, index_of), (index_id-some id rs i found).1)

id_taken-remove_at :
    (id : Text) (i : ℕ) (rs : List Record)
    → id_taken id rs ≡ false
    → id_taken id (remove_at i rs) ≡ false
unfolding remove_at
id_taken-remove_at id i [] h = refl
id_taken-remove_at id zero (r ∷ rs) h = ground arith
id_taken-remove_at id (suc i) (r ∷ rs) h = ground (arith, id_taken-remove_at id i rs)

name_taken-remove_at :
    (id : Text) (i : ℕ) (rs : List Record)
    → name_taken id rs ≡ false
    → name_taken id (remove_at i rs) ≡ false
unfolding remove_at
name_taken-remove_at id i [] h = refl
name_taken-remove_at id zero (r ∷ rs) h = ground arith
name_taken-remove_at id (suc i) (r ∷ rs) h = ground (arith, name_taken-remove_at id i rs)

pub remove_at-IdsDistinct :
    (i : ℕ) (rs : List Record) → IdsDistinct rs → IdsDistinct (remove_at i rs)
unfolding remove_at
remove_at-IdsDistinct i [] d = tt
remove_at-IdsDistinct zero (r ∷ rs) d = d.1
remove_at-IdsDistinct (suc i) (r ∷ rs) d =
    (id_taken-remove_at r.id i rs d.0, remove_at-IdsDistinct i rs d.1)

pub remove_at-NamesDistinct :
    (i : ℕ) (rs : List Record) → NamesDistinct rs → NamesDistinct (remove_at i rs)
unfolding remove_at
remove_at-NamesDistinct i [] d = tt
remove_at-NamesDistinct zero (r ∷ rs) d = d.1
remove_at-NamesDistinct (suc i) (r ∷ rs) d =
    (name_taken-remove_at r.name i rs d.0, remove_at-NamesDistinct i rs d.1)

id_at-taken : (i : ℕ) (rs : List Record) → i < length rs → id_taken (id_at i rs) rs ≡ true
unfolding id_at
id_at-taken i [] h = elim h [ ]
id_at-taken zero (r ∷ rs) h = ground (arith, text_beq_iff r.id r.id)
id_at-taken (suc i) (r ∷ rs) h = ground (arith, id_at-taken i rs)

taken_ne :
    (id j : Text) (rs : List Record)
    → id_taken id rs ≡ false
    → id_taken j rs ≡ true
    → (id == j) ≡ false
taken_ne id j rs h k = elim (Bool-cases (id == j)) [
  | inl same ↦ cc (ap (λ (x : Text). id_taken x rs) ((text_beq_iff id j).0 same))
  | inr other ↦ other
]

-- Without the removed record its id is unknown; every other id finds what it found.
pub find_id-remove_at :
    (k : Text) (i : ℕ) (rs : List Record)
    → i < length rs
    → IdsDistinct rs
    → find_id k (remove_at i rs) ≡ (if id_at i rs == k then none else find_id k rs)
unfolding find_id remove_at id_at
find_id-remove_at k i [] h d = elim h [ ]
find_id-remove_at k zero (r ∷ rs) h d =
    ground (arith, text_beq_iff r.id k, find_id-none r.id rs d.0)
find_id-remove_at k (suc i) (r ∷ rs) h d = ground (
  arith,
  find_id-remove_at k i rs (omega arith) d.1,
  text_beq_iff r.id k,
  text_beq_iff (id_at i rs) k,
  text_beq_iff r.id (id_at i rs),
  taken_ne r.id (id_at i rs) rs d.0 (id_at-taken i rs (omega arith)),
)

-- The record that a text names: by its id, or by its name where no id is that text.
pub record Named (k : Text) (rs : List Record) (r : Record) : Type 0 where
  pub stored : find_id r.id rs ≡ some r
  pub named : (r.id ≡ k) ⊎ ((id_taken k rs ≡ false) × (r.name ≡ k))

find_id-taken :
    (id : Text) (rs : List Record)
    → id_taken id rs ≡ true
    → (r : Record) × (find_id id rs ≡ some r) × (r.id ≡ id)
unfolding find_id
find_id-taken id [] h = cc
find_id-taken id (r ∷ rs) h = elim (Bool-cases (r.id == id)) [
  | inl hit ↦ (r, rw (hit, find_id) refl, (text_beq_iff r.id id).0 hit)
  | inr miss ↦
      let (q, found, same) = find_id-taken id rs (ground arith) in
      (q, rw (miss, find_id) found, same)
]

index_name-found :
    (n : Text) (rs : List Record) (i : ℕ)
    → IdsDistinct rs
    → index_name n rs ≡ some i
    → (r : Record) × (id_at i rs ≡ r.id) × (find_id r.id rs ≡ some r) × (r.name ≡ n)
unfolding index_name id_at find_id
index_name-found n [] i d h = cc
index_name-found n (r ∷ rs) i d h = elim (Bool-cases (r.name == n)) [
  | inl hit ↦ (
    r,
    first i (ground arith),
    ground (arith, text_beq_iff r.id r.id),
    (text_beq_iff r.name n).0 hit,
  )
  | inr miss ↦ elim (Option-cases (index_name n rs)) [
    | inl gone ↦ ground arith
    | inr (j, found) ↦
        let (q, at_j, stored, same) = index_name-found n rs j d.1 found in
        let lt = index_name-lt n rs j found in
        let apart : (r.id == q.id) ≡ false =
          taken_ne r.id q.id rs d.0
            (ap (λ (x : Text). id_taken x rs) (sym at_j) ∙ id_at-taken j rs lt) in
        (q, later j q at_j i (ground arith), rw (apart, find_id) stored, same)
  ]
]
  where
    first : (i : ℕ) → i ≡ 0 → id_at i (r ∷ rs) ≡ r.id
    first zero e = refl
    first (suc i) e = absurd (omega arith)

    later : (j : ℕ) (q : Record) → id_at j rs ≡ q.id → (i : ℕ) → i ≡ suc j → id_at i (r ∷ rs) ≡ q.id
    later j q a zero e = absurd (omega arith)
    later j q a (suc i) e = ground (arith, a)

-- What Revoke finds is the record that the text names.
pub index_of-Named :
    (k : Text) (rs : List Record) (i : ℕ)
    → IdsDistinct rs
    → index_of k rs ≡ some i
    → (r : Record) × (id_at i rs ≡ r.id) × Named k rs r
unfolding index_of
index_of-Named k rs i d h = elim (Option-cases (index_id k rs)) [
  | inr (j, found) ↦
      let (lt, is_k) = index_id-some k rs j found in
      let (r, stored, same) =
        find_id-taken k rs (ap (λ (x : Text). id_taken x rs) (sym is_k) ∙ id_at-taken j rs lt) in
      (
        r,
        ground (arith, found, is_k, same),
        record { stored = ap (λ (x : Text). find_id x rs) same ∙ stored; named = inl same },
      )
  | inl gone ↦
      let (r, at_i, stored, same) = index_name-found k rs i d (ground (arith, gone)) in
      let free : id_taken k rs ≡ false = elim (Bool-cases (id_taken k rs)) [
        | inr n ↦ n
        | inl t ↦ let (j, found) = index_id-taken k rs t in cc
      ] in
      (r, at_i, record { stored = stored; named = inr (free, same) })
]
