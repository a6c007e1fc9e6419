-- ===== src/Cache.antt =====
-- internal/s3store/cache.go: expanded sites in memory under a byte budget, evicted least recently
-- used first. `ll` is the linked list (front first) and `items` the map into it; a pointer to an
-- element is the element, which is never written after it is made. A budget below zero, which
-- disables the cache as zero does, is the budget zero. The mutex makes each method one step.
pub mod Invariant
pub mod Shrink
pub mod Methods
pub mod Reads
use crate_html.Prelude.{
  ℕ, zero, suc, ◌+◌, ◌-◌, Bool, true, false, ◌&&◌, ◌||◌, ◌≡◌, refl, ◌↔◌, Option, none, some, List,
  [], ◌∷◌, ◌++◌, Text, Eq, ◌==◌, ltb, leb, eqb, length, lookup, insert, delete, arith,
  if◌then◌else◌, text_beq_iff, text_eq,
}

pub record CacheKey : Type 0 where
  pub name : Text
  pub version : Text

unfoldable pub key_beq : CacheKey → CacheKey → Bool
key_beq a b = a.name == b.name && a.version == b.version

pub key_beq_iff : (a b : CacheKey) → (key_beq a b ≡ true) ↔ (a ≡ b)
unfolding key_beq
key_beq_iff a b = ground (arith, text_beq_iff a.name b.name, text_beq_iff a.version b.version)

instance abbrev pub key_eq : Eq CacheKey
key_eq = record { beq = key_beq; beq_iff = key_beq_iff }

-- `fsys` is the expanded site, of whatever type.
pub record CacheEntry {ℓ} (A : Type ℓ) : Type ℓ where
  pub key : CacheKey
  pub fsys : A
  pub bytes : ℕ

pub record Cache {ℓ} (A : Type ℓ) : Type ℓ where
  pub max_bytes : ℕ
  pub cur_bytes : ℕ
  pub ll : List (CacheEntry A)
  pub items : List (CacheKey × CacheEntry A)

unfoldable pub new_cache {ℓ} : {A : Type ℓ} → ℕ → Cache A
new_cache max_bytes = record { max_bytes = max_bytes; cur_bytes = 0; ll = []; items = [] }

module _ {ℓ} {A : Type ℓ} where
  -- list.Remove
  unfoldable pub unlink : CacheKey → List (CacheEntry A) → List (CacheEntry A)
  unlink k [] = []
  unlink k (e ∷ l) = let rest = unlink k l in if e.key == k then l else e ∷ rest

  -- list.MoveToFront
  unfoldable pub move_to_front : CacheEntry A → List (CacheEntry A) → List (CacheEntry A)
  unfolding unlink
  move_to_front e l = e ∷ unlink e.key l

  -- list.Back
  unfoldable pub back : List (CacheEntry A) → Option (CacheEntry A)
  back [] = none
  back (e ∷ []) = some e
  back (e ∷ f ∷ l) = back (f ∷ l)

  unfoldable pub evict : Cache A → CacheEntry A → Cache A
  evict c e = record c {
    ll = unlink e.key c.ll;
    items = delete e.key c.items;
    cur_bytes = c.cur_bytes - e.bytes;
  }

  unfoldable pub get : Cache A → Text → Text → Cache A × Option A
  get c name version =
      if leb c.max_bytes 0
      then (c, none)
      else elim (lookup (record { name = name; version = version }) c.items) [
        | none ↦ (c, none)
        | some el ↦ (record c { ll = move_to_front el c.ll }, some el.fsys)
      ]

  -- The loop of `put`: each round evicts the last element, and ends it when there is none.
  unfoldable pub shrink : ℕ → Cache A → Cache A
  shrink zero c = c
  shrink (suc fuel) c = elim (ltb c.max_bytes c.cur_bytes) [
    | true ↦ elim (back c.ll) [ none ↦ c | some oldest ↦ shrink fuel (evict c oldest) ]
    | false ↦ c
  ]

  -- The new element in front, before the loop.
  unfoldable pub push_front : Cache A → CacheEntry A → Cache A
  push_front c e = record c {
    ll = e ∷ c.ll;
    items = insert e.key e c.items;
    cur_bytes = c.cur_bytes + e.bytes;
  }

  unfoldable pub put : Cache A → Text → Text → A → ℕ → Cache A
  put c name version fsys size =
      if leb c.max_bytes 0 || ltb c.max_bytes size
      then c
      else let key : CacheKey = record { name = name; version = version } in
        elim (lookup key c.items) [
          | some el ↦ record c { ll = move_to_front el c.ll }
          | none ↦
              let c' = push_front c (record { key = key; fsys = fsys; bytes = size }) in
              shrink (suc (length c'.ll)) c'
        ]

  -- The loop of `dropAll` over the map's entries.
  unfoldable pub drop_all_from : List (CacheKey × CacheEntry A) → Text → Cache A → Cache A
  drop_all_from [] name c = c
  drop_all_from ((key, el) ∷ rest) name c =
      drop_all_from rest name (if key.name == name then evict c el else c)

  unfoldable pub drop_all : Cache A → Text → Cache A
  drop_all c name = drop_all_from c.items name c
