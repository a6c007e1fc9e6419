-- ===== src/Cache/Reads.antt =====
-- What later reads of the cache find after `get`, `put` and `dropAll`.
use crate_html.Prelude.{
  ℕ, zero, suc, ◌≤◌, ◌<◌, ◌≡◌, refl, sym, true, false, Option, none, some, List, [], ◌∷◌, ◌==◌,
  Text, text_eq, Bool-cases, Option-cases, inl, inr, arith, if◌then◌else◌, eq_refl, ◌∙◌, ap, lookup,
  lookup-delete, KeysDistinct, ◌&&◌, is_some,
}
use mathlib.Core.Path.{subst}
use crate_html.Cache.{
  CacheKey, key_eq, key_beq_iff, CacheEntry, Cache, evict, get, put, drop_all, drop_all_from,
}
use crate_html.Cache.Invariant.{find, IsSound, IsValid, find-key, evict-IsSound}
use crate_html.Cache.Shrink.{IsCut}
use crate_html.Cache.Methods.{key_of, put-IsCut, put-IsValid, max_bytes-put}

module _ {ℓ} {A : Type ℓ} where
  -- What a `put` leaves for its key: the entry that was there already, else the new site.
  abbrev pub stored : Option (CacheEntry A) → A → A
  stored none fsys = fsys
  stored (some el) fsys = el.fsys

  lookup-put :
      (c : Cache A) (name version : Text) (fsys : A) (size : ℕ)
      → IsValid c
      → 0 < c.max_bytes
      → size ≤ c.max_bytes
      → lookup (key_of name version) c.items ≡ none
      → lookup (key_of name version) (put c name version fsys size).items
        ≡ some (record { key = key_of name version; fsys = fsys; bytes = size })
  unfolding find
  lookup-put c name version fsys size v on fits absent =
      go (put-IsCut c name version fsys size v on fits absent)
    where
      e : CacheEntry A
      e = record { key = key_of name version; fsys = fsys; bytes = size }

      go :
          (n : ℕ) × (1 ≤ n) × IsCut c.max_bytes n (e ∷ c.ll) (put c name version fsys size).ll
          → lookup (key_of name version) (put c name version fsys size).items ≡ some e
      go (zero, h, cut) = elim h [ ]
      go (suc n, h, cut) =
          (put-IsValid name version fsys size v).sound.synced (key_of name version)
          ∙ ap (find (key_of name version)) cut.prefix
          ∙ ground (arith, eq_refl (key_of name version))

  get-put_absent :
      (c : Cache A) (name version : Text) (fsys : A) (size : ℕ)
      → IsValid c
      → 0 < c.max_bytes
      → size ≤ c.max_bytes
      → lookup (key_of name version) c.items ≡ none
      → (get (put c name version fsys size) name version).1 ≡ some fsys
  unfolding get
  get-put_absent c name version fsys size v on fits absent = ground (
    arith,
    max_bytes-put c name version fsys size v.sound,
    lookup-put c name version fsys size v on fits absent,
  )

  get-put_present :
      (c : Cache A) (name version : Text) (fsys : A) (size : ℕ) (el : CacheEntry A)
      → 0 < c.max_bytes
      → size ≤ c.max_bytes
      → lookup (key_of name version) c.items ≡ some el
      → (get (put c name version fsys size) name version).1 ≡ some el.fsys
  unfolding get put
  get-put_present c name version fsys size el on fits hit = ground arith

  -- A read right after a `put` that the budget admits hits, and returns what was cached under the
  -- version first.
  pub get-put :
      (c : Cache A) (name version : Text) (fsys : A) (size : ℕ)
      → IsValid c
      → 0 < c.max_bytes
      → size ≤ c.max_bytes
      → (get (put c name version fsys size) name version).1
        ≡ some (stored (lookup (key_of name version) c.items) fsys)
  get-put c name version fsys size v on fits =
      elim (Option-cases (lookup (key_of name version) c.items)) [
        | inl absent ↦ rw absent (get-put_absent c name version fsys size v on fits absent)
        | inr (el, hit) ↦ rw hit (get-put_present c name version fsys size el on fits hit)
      ]

  -- The keys that the loop has not reached are still in the map.
  abbrev Ahead : List (CacheKey × CacheEntry A) → Cache A → Type ℓ
  Ahead rest c =
      (k : CacheKey) (e : CacheEntry A) → lookup k rest ≡ some e → lookup k c.items ≡ some e

  pub record Dropped (name : Text) (rest : List (CacheKey × CacheEntry A)) (c c' : Cache A)
      : Type ℓ where
    pub sound : IsSound c'
    pub same_max : c'.max_bytes ≡ c.max_bytes
    pub not_more : c'.cur_bytes ≤ c.cur_bytes
    pub reads :
        (k : CacheKey)
        → lookup k c'.items
          ≡ (if k.name == name && is_some (lookup k rest) then none else lookup k c.items)

  module _ (k : CacheKey) (el : CacheEntry A) (rest : List (CacheKey × CacheEntry A))
      (c : Cache A) where
    Ahead-tail : lookup k rest ≡ none → Ahead ((k, el) ∷ rest) c → Ahead rest c
    unfolding lookup
    Ahead-tail fresh h j e found = ground (arith, h j e, key_beq_iff k j, found)

    -- The element that the loop is at, as the list has it.
    current : Ahead ((k, el) ∷ rest) c → IsSound c → (el.key ≡ k) × (find el.key c.ll ≡ some el)
    unfolding lookup
    current h s =
        let found : find k c.ll ≡ some el = sym (s.synced k) ∙ h k el (ground (arith, eq_refl k)) in
        let same : el.key ≡ k = find-key k c.ll el found in
        (same, subst (λ j. find j c.ll ≡ some el) (sym same) found)

    Ahead-evict :
        lookup k rest ≡ none → el.key ≡ k → Ahead ((k, el) ∷ rest) c → Ahead rest (evict c el)
    unfolding evict
    Ahead-evict fresh same h j e found = ground (
      arith,
      Ahead-tail fresh h j e found,
      lookup-delete el.key j c.items,
      key_beq_iff el.key j,
      found,
    )

    Dropped-skip :
        (name : Text) (c' : Cache A)
        → (k.name == name) ≡ false
        → Dropped name rest c c'
        → Dropped name ((k, el) ∷ rest) c c'
    unfolding lookup
    Dropped-skip name c' other r = record {
      sound = r.sound;
      same_max = r.same_max;
      not_more = r.not_more;
      reads = λ j. ground (arith, r.reads j, key_beq_iff k j);
    }

    Dropped-evict :
        (name : Text) (c' : Cache A)
        → (k.name == name) ≡ true
        → el.key ≡ k
        → Dropped name rest (evict c el) c'
        → Dropped name ((k, el) ∷ rest) c c'
    unfolding lookup evict
    Dropped-evict name c' hit same r = record {
      sound = r.sound;
      same_max = r.same_max;
      not_more = omega (arith, r.not_more);
      reads = λ j.
          ground (
            arith,
            r.reads j,
            key_beq_iff k j,
            key_beq_iff el.key j,
            lookup-delete el.key j c.items,
          );
    }

  drop_all_from-Dropped :
      (rest : List (CacheKey × CacheEntry A)) (name : Text) (c : Cache A)
      → KeysDistinct rest
      → Ahead rest c
      → IsSound c
      → Dropped name rest c (drop_all_from rest name c)
  unfolding drop_all_from lookup
  drop_all_from-Dropped [] name c d h s = record {
    sound = s;
    same_max = refl;
    not_more = omega arith;
    reads = λ k. ground arith;
  }
  drop_all_from-Dropped ((k, el) ∷ rest) name c d h s = elim (Bool-cases (k.name == name)) [
    | inr other ↦ rw other (
        Dropped-skip k el rest c name (drop_all_from rest name c) other
          (drop_all_from-Dropped rest name c d.1 (Ahead-tail k el rest c d.0 h) s))
    | inl hit ↦
        let (same, there) = current k el rest c h s in
        rw hit (
          Dropped-evict k el rest c name (drop_all_from rest name (evict c el)) hit same (
            drop_all_from-Dropped rest name (evict c el) d.1 (Ahead-evict k el rest c d.0 same h)
              (evict-IsSound el there s)))
  ]

  -- `dropAll` forgets every version of the site and nothing else, and keeps the cache valid.
  pub drop_all_lem :
      (c : Cache A) (name : Text)
      → IsValid c
      → IsValid (drop_all c name)
        × ((k : CacheKey)
            → lookup k (drop_all c name).items
              ≡ (if k.name == name then none else lookup k c.items))
  unfolding drop_all
  drop_all_lem c name v =
      let r = drop_all_from-Dropped c.items name c v.sound.map_distinct (λ k e h. h) v.sound in
      (
        record { sound = r.sound; bounded = omega (arith, r.not_more, r.same_max, v.bounded) },
        λ k. ground (arith, r.reads k),
      )
