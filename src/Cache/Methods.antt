-- ===== src/Cache/Methods.antt =====
-- The methods of the cache: each keeps the invariant, and what can be read afterwards.
use crate_html.Prelude.{
  ℕ, zero, suc, ◌≤◌, ◌<◌, ◌≡◌, ◌⊎◌, refl, none, ◌∷◌, Text, text_eq, length, take, Bool-cases,
  Option-cases, inl, inr, arith, ltb, leb, ap, lookup, ◌||◌,
}
use crate_html.Cache.{CacheKey, key_eq, Cache, get, shrink, push_front, put, new_cache}
use crate_html.Cache.Invariant.{
  find, total, IsSound, IsValid, move_to_front-IsSound, push_front-IsSound,
}
use crate_html.Cache.Shrink.{IsCut, Shrunk, shrink-Shrunk}

abbrev pub key_of : Text → Text → CacheKey
key_of name version = record { name = name; version = version }

module _ {ℓ} {A : Type ℓ} where
  pub new_cache-IsValid : (n : ℕ) → IsValid (new_cache {A = A} n)
  unfolding new_cache find lookup
  new_cache-IsValid n = record {
    sound = record { accounted = refl; synced = λ k. refl; list_distinct = tt; map_distinct = tt };
    bounded = omega arith;
  }

  -- `get` keeps the cache valid, on a hit and on a miss.
  pub get-IsValid : {c : Cache A} (name version : Text) → IsValid c → IsValid (get c name version).0
  unfolding get
  get-IsValid {c} name version v = elim (Bool-cases (leb c.max_bytes 0)) [
    | inl off ↦ rw (off, get) v
    | inr on ↦ elim (Option-cases (lookup (key_of name version) c.items)) [
      | inl miss ↦ rw (on, get, miss) v
      | inr (el, hit) ↦
          rw (on, get, hit)
            (record {
              sound = move_to_front-IsSound (key_of name version) el hit v.sound;
              bounded = v.bounded;
            })
    ]
  ]

  -- The new element in front, the budget not yet enforced.
  abbrev pub fresh : Cache A → Text → Text → A → ℕ → Cache A
  fresh c name version fsys size =
      push_front c (record { key = key_of name version; fsys = fsys; bytes = size })

  -- What `put` does when it stores.
  pub put-new :
      (c : Cache A) (name version : Text) (fsys : A) (size : ℕ)
      → 0 < c.max_bytes
      → size ≤ c.max_bytes
      → lookup (key_of name version) c.items ≡ none
      → put c name version fsys size
        ≡ shrink (suc (length (fresh c name version fsys size).ll)) (fresh c name version fsys size)
  unfolding put
  put-new c name version fsys size on fits absent = ground arith

  put-Shrunk :
      (c : Cache A) (name version : Text) (fsys : A) (size : ℕ)
      → IsSound c
      → 0 < c.max_bytes
      → size ≤ c.max_bytes
      → lookup (key_of name version) c.items ≡ none
      → Shrunk (fresh c name version fsys size) (put c name version fsys size)
  put-Shrunk c name version fsys size s on fits absent =
      let c' = fresh c name version fsys size in
      rw (put-new c name version fsys size on fits absent) (
        shrink-Shrunk (suc (length c'.ll)) c' c'.ll refl (omega arith) (
          push_front-IsSound (record { key = key_of name version; fsys = fsys; bytes = size })
            absent s))

  pub max_bytes-put :
      (c : Cache A) (name version : Text) (fsys : A) (size : ℕ)
      → IsSound c
      → (put c name version fsys size).max_bytes ≡ c.max_bytes
  unfolding put push_front
  max_bytes-put c name version fsys size s =
      elim (Bool-cases (leb c.max_bytes 0 || ltb c.max_bytes size)) [
        | inl skip ↦ rw (skip, put)
        | inr store ↦ elim (Option-cases (lookup (key_of name version) c.items)) [
          | inr (el, hit) ↦ rw (store, put, hit)
          | inl absent ↦
              (put-Shrunk c name version fsys size s (ground arith) (ground arith) absent).same_max
        ]
      ]

  -- `put` keeps the cache valid: keys distinct, map and list in agreement, the byte count exact and
  -- within the budget.
  pub put-IsValid :
      {c : Cache A} (name version : Text) (fsys : A) (size : ℕ)
      → IsValid c
      → IsValid (put c name version fsys size)
  unfolding put push_front
  put-IsValid {c} name version fsys size v =
      elim (Bool-cases (leb c.max_bytes 0 || ltb c.max_bytes size)) [
        | inl skip ↦ rw (skip, put) v
        | inr store ↦ elim (Option-cases (lookup (key_of name version) c.items)) [
          | inr (el, hit) ↦
              rw (store, put, hit)
                (record {
                  sound = move_to_front-IsSound (key_of name version) el hit v.sound;
                  bounded = v.bounded;
                })
          | inl absent ↦
              let r =
                put-Shrunk c name version fsys size v.sound (ground arith) (ground arith) absent in
              record {
                sound = r.sound;
                bounded =
                    omega (
                      arith,
                      r.sound.accounted,
                      ap total r.is_cut.prefix,
                      r.is_cut.fits,
                      r.same_max,
                    );
              }
        ]
      ]

  -- A put that stores keeps, of the list with the new element in front, the longest run from the
  -- front that fits the budget, and the new element is always in it.
  pub put-IsCut :
      (c : Cache A) (name version : Text) (fsys : A) (size : ℕ)
      → IsValid c
      → 0 < c.max_bytes
      → size ≤ c.max_bytes
      → lookup (key_of name version) c.items ≡ none
      → (n : ℕ) × (1 ≤ n)
        × IsCut c.max_bytes n
            (record { key = key_of name version; fsys = fsys; bytes = size } ∷ c.ll)
            (put c name version fsys size).ll
  unfolding push_front
  put-IsCut c name version fsys size v on fits absent =
      let r = put-Shrunk c name version fsys size v.sound on fits absent in
      (r.kept, one r.kept r.is_cut.tight, r.is_cut)
    where
      one :
          (n : ℕ)
          → (n ≡ suc (length c.ll))
            ⊎ (c.max_bytes < total (take (suc n) ((fresh c name version fsys size).ll)))
          → 1 ≤ n
      one zero (inl e) = omega arith
      one zero (inr more) = absurd (omega arith)
      one (suc n) t = omega arith
