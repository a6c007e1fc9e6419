-- ===== src/Tests/Bucket.antt =====
-- A bucket in memory that keeps the laws of an object store. The tag of an object is its content
-- behind a mark.
use crate_html.Prelude.{
  ◌≡◌, refl, ap, true, false, Option, none, some, List, [], ◌∷◌, map, Text, text_eq, ◌==◌, arith,
  if◌then◌else◌, lookup, insert, delete, lookup-insert, lookup-delete, eq_refl, has_prefix, All,
  keep, Bool-cases, Option-cases, inl, inr, contains, text_beq_iff, ◌⊎◌,
}
use mathlib.Core.Path.{subst}
use crate_html.Objects.{
  Fetch, fetched, absent, Put, stored, refused, unwritten, Condition, holds, Objects, IsObjects,
  IsSettled, ListsAll,
}

abbrev pub Shelf : Type 0
Shelf = List (Text × Text)

abbrev pub tagged : Option Text → Option (Text × Text)
tagged none = none
tagged (some body) = some (body, 1 ∷ body)

unfoldable pub shelf_get : Text → Shelf → Shelf × Fetch
shelf_get k b = elim (lookup k b) [ none ↦ (b, absent) | some body ↦ (b, fetched body (1 ∷ body)) ]

unfoldable pub shelf_put : Text → Condition → Text → Shelf → Shelf × Put
shelf_put k c body b =
    if holds c (tagged (lookup k b)) then (insert k body b, stored (1 ∷ body)) else (b, refused)

unfoldable pub shelf_list : Text → Shelf → Shelf × Option (List Text)
unfolding has_prefix
shelf_list p b = (b, some (keep (λ (k : Text). has_prefix k p) (map (λ (e : Text × Text). e.0) b)))

unfoldable pub shelf : Objects
unfolding shelf_get shelf_put shelf_list delete
shelf = record {
  Bucket = Shelf;
  get_object = shelf_get;
  put_object = shelf_put;
  remove_object = λ k b. (delete k b, true);
  list_objects = shelf_list;
  peek = λ k b. tagged (lookup k b);
}

fetched_lem :
    (k d t : Text) (b : Shelf) → (shelf_get k b).1 ≡ fetched d t → tagged (lookup k b) ≡ some (d, t)
unfolding shelf_get
fetched_lem k d t b h = elim (Option-cases (lookup k b)) [
  | inl gone ↦ ground (arith, gone)
  | inr (body, there) ↦ ground (arith, there)
]

absent_lem : (k : Text) (b : Shelf) → (shelf_get k b).1 ≡ absent → tagged (lookup k b) ≡ none
unfolding shelf_get
absent_lem k b h = ground arith

same_lem : (k : Text) (b : Shelf) → (shelf_get k b).0 ≡ b
unfolding shelf_get
same_lem k b = ground arith

stored_lem :
    (k d t : Text) (c : Condition) (b : Shelf)
    → (shelf_put k c d b).1 ≡ stored t
    → (tagged (lookup k (shelf_put k c d b).0) ≡ some (d, t))
      × (holds c (tagged (lookup k b)) ≡ true)
unfolding shelf_put
stored_lem k d t c b h = ground (arith, lookup-insert k k d b, eq_refl k)

refused_lem :
    (k d : Text) (c : Condition) (b : Shelf)
    → (shelf_put k c d b).1 ≡ refused
    → (shelf_put k c d b).0 ≡ b
unfolding shelf_put
refused_lem k d c b h = ground arith

written_lem :
    (k d : Text) (c : Condition) (b : Shelf)
    → (shelf_put k c d b).1 ≡ unwritten
    → (shelf_put k c d b).0 ≡ b
unfolding shelf_put
written_lem k d c b h = ground arith

whole_lem :
    (k d : Text) (c : Condition) (b : Shelf)
    → (tagged (lookup k (shelf_put k c d b).0) ≡ tagged (lookup k b))
      ⊎ ((t : Text) × (tagged (lookup k (shelf_put k c d b).0) ≡ some (d, t))
          × (holds c (tagged (lookup k b)) ≡ true))
unfolding shelf_put
whole_lem k d c b = elim (Bool-cases (holds c (tagged (lookup k b)))) [
  | inl met ↦ inr (1 ∷ d, ground (arith, met, lookup-insert k k d b, eq_refl k), met)
  | inr unmet ↦ inl (ground (arith, unmet))
]

other_lem :
    (k j d : Text) (c : Condition) (b : Shelf)
    → (k == j) ≡ false
    → lookup j (shelf_put k c d b).0 ≡ lookup j b
unfolding shelf_put
other_lem k j d c b n = ground (arith, n, lookup-insert k j d b)

listed_lem :
    (p : Text) (l : List Text)
    → All (λ (k : Text). has_prefix k p ≡ true) (keep (λ (k : Text). has_prefix k p) l)
listed_lem p [] = tt
listed_lem p (k ∷ l) = elim (Bool-cases (has_prefix k p)) [
  | inl good ↦ rw (keep, good) (good, listed_lem p l)
  | inr bad ↦ rw (keep, bad) (listed_lem p l)
]

tag_lem :
    (k d e t : Text) (b c : Shelf)
    → tagged (lookup k b) ≡ some (d, t)
    → tagged (lookup k c) ≡ some (e, t)
    → d ≡ e
tag_lem k d e t b c h g = elim (Option-cases (lookup k b)) [
  | inl gone ↦ ground (arith, gone)
  | inr (x, there) ↦ elim (Option-cases (lookup k c)) [
    | inl lost ↦ ground (arith, lost)
    | inr (y, here) ↦ ground (arith, there, here)
  ]
]

pub shelf-IsObjects : IsObjects shelf
unfolding shelf shelf_list
shelf-IsObjects = record {
  get-fetched = fetched_lem;
  get-absent = absent_lem;
  peek-get = λ k j b. ap (λ (x : Shelf). tagged (lookup j x)) (same_lem k b);
  put-stored = stored_lem;
  put-whole = whole_lem;
  put-other = λ k j d c b n. ap tagged (other_lem k j d c b n);
  remove-removed = λ k b h. ground (arith, lookup-delete k k b, eq_refl k);
  remove-whole = λ k b. inr (ground (arith, lookup-delete k k b, eq_refl k));
  remove-other = λ k j b n. ground (arith, lookup-delete k j b, n);
  peek-list_objects = λ k p b. refl;
  list_objects-prefixed = λ p b keys h.
      subst (All (λ (k : Text). has_prefix k p ≡ true))
        {x = keep (λ (k : Text). has_prefix k p) (map (λ (e : Text × Text). e.0) b)} {y = keys}
        (ground (arith, h)) (listed_lem p (map (λ (e : Text × Text). e.0) b));
  tag_content = tag_lem;
  tag_given = λ k d b h. ground arith;
}

contains-shelf :
    (p k : Text) (b : Shelf) (e : Text × Text)
    → has_prefix k p ≡ true
    → tagged (lookup k b) ≡ some e
    → contains k (keep (λ (x : Text). has_prefix x p) (map (λ (x : Text × Text). x.0) b)) ≡ true
unfolding lookup
contains-shelf p k [] e h g = cc
contains-shelf p k ((x, y) ∷ b) e h g = elim (Bool-cases (x == k)) [
  | inl same ↦
      ground (arith, h, same, ap (λ (z : Text). has_prefix z p) ((text_beq_iff x k).0 same))
  | inr other ↦ ground (arith, other, contains-shelf p k b e h (ground (arith, other, g)))
]

pub shelf-ListsAll : ListsAll shelf
unfolding shelf shelf_list
shelf-ListsAll = record {
  list_objects-whole = λ p k d t b keys h q there.
      subst (λ (l : List Text). contains k l ≡ true)
        {x = keep (λ (x : Text). has_prefix x p) (map (λ (e : Text × Text). e.0) b)} {y = keys}
        (ground (arith, h)) (contains-shelf p k b (d, t) q there);
}

shelf-IsSettled : IsSettled shelf
unfolding shelf
shelf-IsSettled = record {
  put-refused = λ k d c b h. ap (λ (x : Shelf). tagged (lookup k x)) (refused_lem k d c b h);
  put-unwritten = λ k d c b h. ap (λ (x : Shelf). tagged (lookup k x)) (written_lem k d c b h);
}

-- A bucket that loses the answers to the writes of one key.
unfoldable pub lossy_put : Text → Text → Condition → Text → Shelf → Shelf × Put
unfolding shelf_put
lossy_put lost k c d b =
    let (b', answer) = shelf_put k c d b in (b', if k == lost then unwritten else answer)

unfoldable pub lossy : Text → Objects
unfolding shelf_get lossy_put shelf_list delete
lossy lost = record {
  Bucket = Shelf;
  get_object = shelf_get;
  put_object = lossy_put lost;
  remove_object = λ k b. (delete k b, true);
  list_objects = shelf_list;
  peek = λ k b. tagged (lookup k b);
}

lossy_lem :
    (lost k d t : Text) (c : Condition) (b : Shelf)
    → (lossy_put lost k c d b).1 ≡ stored t
    → (shelf_put k c d b).1 ≡ stored t
unfolding lossy_put
lossy_lem lost k d t c b h = ground arith

pub lossy-IsObjects : (lost : Text) → IsObjects (lossy lost)
unfolding lossy shelf_list lossy_put
lossy-IsObjects lost = record {
  get-fetched = fetched_lem;
  get-absent = absent_lem;
  peek-get = λ k j b. ap (λ (x : Shelf). tagged (lookup j x)) (same_lem k b);
  put-stored = λ k d t c b h. stored_lem k d t c b (lossy_lem lost k d t c b h);
  put-whole = whole_lem;
  put-other = λ k j d c b n. ap tagged (other_lem k j d c b n);
  remove-removed = λ k b h. ground (arith, lookup-delete k k b, eq_refl k);
  remove-whole = λ k b. inr (ground (arith, lookup-delete k k b, eq_refl k));
  remove-other = λ k j b n. ground (arith, lookup-delete k j b, n);
  peek-list_objects = λ k p b. refl;
  list_objects-prefixed = λ p b keys h.
      subst (All (λ (k : Text). has_prefix k p ≡ true))
        {x = keep (λ (k : Text). has_prefix k p) (map (λ (e : Text × Text). e.0) b)} {y = keys}
        (ground (arith, h)) (listed_lem p (map (λ (e : Text × Text). e.0) b));
  tag_content = tag_lem;
  tag_given = λ k d b h. ground arith;
}
