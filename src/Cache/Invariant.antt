-- ===== src/Cache/Invariant.antt =====
-- What every method of the cache keeps: the byte count is the sum of the elements, the map and the
-- list hold the same elements, no key stands twice, and the budget is met.
use crate_html.Prelude.{
  ℕ, ◌+◌, ◌≤◌, ◌≡◌, refl, sym, Option, none, some, List, [], ◌∷◌, ◌==◌, text_eq, sum_of, lookup,
  lookup-delete, lookup-insert, KeysDistinct, delete-KeysDistinct, insert-KeysDistinct, Bool-cases,
  inl, inr, arith, if◌then◌else◌, eq_refl,
}
use mathlib.Core.Path.{subst}
use crate_html.Cache.{
  CacheKey, key_eq, key_beq_iff, CacheEntry, Cache, unlink, move_to_front, evict, push_front,
}

module _ {ℓ} {A : Type ℓ} where
  -- The element of the list with a key.
  unfoldable pub find : CacheKey → List (CacheEntry A) → Option (CacheEntry A)
  find k [] = none
  find k (e ∷ l) = if e.key == k then some e else find k l

  abbrev pub Distinct : List (CacheEntry A) → Type ℓ
  Distinct [] = Unit
  Distinct (e ∷ l) = (find e.key l ≡ none) × Distinct l

  abbrev pub total : List (CacheEntry A) → ℕ
  total = sum_of (λ (e : CacheEntry A). e.bytes)

  -- What holds at every point of a method.
  pub record IsSound (c : Cache A) : Type ℓ where
    pub accounted : c.cur_bytes ≡ total c.ll
    pub synced : (k : CacheKey) → lookup k c.items ≡ find k c.ll
    pub list_distinct : Distinct c.ll
    pub map_distinct : KeysDistinct c.items

  -- What holds between methods.
  pub record IsValid (c : Cache A) : Type ℓ where
    pub sound : IsSound c
    pub bounded : c.cur_bytes ≤ c.max_bytes

  pub find-key :
      (k : CacheKey) (l : List (CacheEntry A)) (e : CacheEntry A) → find k l ≡ some e → e.key ≡ k
  unfolding find
  find-key k [] e h = ground arith
  find-key k (f ∷ l) e h = ground (arith, find-key k l e, key_beq_iff f.key k)

  pub unlink-absent : (k : CacheKey) (l : List (CacheEntry A)) → find k l ≡ none → unlink k l ≡ l
  unfolding find unlink
  unlink-absent k [] h = refl
  unlink-absent k (f ∷ l) h = ground (arith, unlink-absent k l)

  pub find-unlink :
      (k j : CacheKey) (l : List (CacheEntry A))
      → Distinct l
      → find j (unlink k l) ≡ (if k == j then none else find j l)
  unfolding find unlink
  find-unlink k j [] d = ground arith
  find-unlink k j (f ∷ l) d =
      ground (
        arith,
        find-unlink k j l d.1,
        key_beq_iff f.key k,
        key_beq_iff f.key j,
        key_beq_iff k j,
        d.0,
      )

  pub unlink-Distinct :
      (k : CacheKey) (l : List (CacheEntry A)) → Distinct l → Distinct (unlink k l)
  unfolding unlink
  unlink-Distinct k [] d = tt
  unlink-Distinct k (f ∷ l) d = elim (Bool-cases (f.key == k)) [
    | inl same ↦ rw same d.1
    | inr other ↦ rw other (ground (arith, find-unlink k f.key l d.1, d.0), unlink-Distinct k l d.1)
  ]

  pub total-unlink :
      (k : CacheKey) (l : List (CacheEntry A)) (e : CacheEntry A)
      → find k l ≡ some e
      → total (unlink k l) + e.bytes ≡ total l
  unfolding find unlink
  total-unlink k [] e h = ground arith
  total-unlink k (f ∷ l) e h = ground (arith, total-unlink k l e)

  pub evict-IsSound :
      {c : Cache A} (e : CacheEntry A) → find e.key c.ll ≡ some e → IsSound c → IsSound (evict c e)
  unfolding evict
  evict-IsSound {c} e h s = record {
    accounted = omega (arith, total-unlink e.key c.ll e h, s.accounted);
    synced = λ k. ground (
      arith,
      lookup-delete e.key k c.items,
      find-unlink e.key k c.ll s.list_distinct,
      s.synced k,
    );
    list_distinct = unlink-Distinct e.key c.ll s.list_distinct;
    map_distinct = delete-KeysDistinct e.key c.items s.map_distinct;
  }

  pub move_to_front-IsSound :
      {c : Cache A} (k : CacheKey) (e : CacheEntry A)
      → lookup k c.items ≡ some e
      → IsSound c
      → IsSound (record c { ll = move_to_front e c.ll })
  unfolding move_to_front find
  move_to_front-IsSound {c} k e h s =
      let here : find k c.ll ≡ some e = rw (← s.synced k) h in
      let same : e.key ≡ k = find-key k c.ll e here in
      let there : find e.key c.ll ≡ some e = subst (λ j. find j c.ll ≡ some e) (sym same) here in
      record {
        accounted = omega (arith, total-unlink e.key c.ll e there, s.accounted);
        synced = λ j. ground (
          arith,
          find-unlink e.key j c.ll s.list_distinct,
          s.synced j,
          key_beq_iff e.key j,
          there,
        );
        list_distinct = (
          rw (find-unlink e.key e.key c.ll s.list_distinct, eq_refl e.key),
          unlink-Distinct e.key c.ll s.list_distinct,
        );
        map_distinct = s.map_distinct;
      }

  pub push_front-IsSound :
      {c : Cache A} (e : CacheEntry A)
      → lookup e.key c.items ≡ none
      → IsSound c
      → IsSound (push_front c e)
  unfolding push_front find
  push_front-IsSound {c} e h s = record {
    accounted = omega (arith, s.accounted);
    synced = λ j. ground (arith, lookup-insert e.key j e c.items, s.synced j);
    list_distinct = (rw (← s.synced e.key) h, s.list_distinct);
    map_distinct = insert-KeysDistinct e.key e c.items s.map_distinct;
  }
