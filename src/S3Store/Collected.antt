-- ===== src/S3Store/Collected.antt =====
-- A refresh of the bucket store passes over no metadata object that the listing has.
use crate_html.Prelude.{
  ℕ, ◌≡◌, refl, sym, ap, ◌∙◌, Bool, true, Option, none, some, List, [], ◌∷◌, ◌++◌, map, keep, Text,
  text_eq, text_beq, text_beq_iff, ◌==◌, codes, arith, Bool-cases, inl, inr, lookup, insert,
  lookup-insert, eq_refl, contains, is_some, has_prefix, cut_prefix,
}
use crate_html.Name.{validate_site}
use crate_html.Objects.{Objects, IsObjects, ListsAll, Fetch, fetched, absent, unreachable}
use crate_html.S3Store.{
  SiteMeta, Settings, Store, Formats, meta_key, meta_prefix, refresh, MetaAnswer, found, vanished,
  unusable, collect, get_metas, has_suffix, meta_answer,
}

-- The keys of metadata are below the prefix, and end in ".json".
has_suffix_refl : (p : Text) → has_suffix p p ≡ true
unfolding has_suffix text_beq
has_suffix_refl [] = refl
has_suffix_refl (x ∷ p) = rw (eq_refl (x ∷ p)) refl

has_suffix-append : (r s p : Text) → has_suffix s p ≡ true → has_suffix (r ++ s) p ≡ true
unfolding has_suffix
has_suffix-append [] s p h = h
has_suffix-append (x ∷ r) s p h = ground (arith, has_suffix-append r s p h)

contains-keep :
    (p : Text → Bool) (k : Text) (keys : List Text)
    → contains k keys ≡ true
    → p k ≡ true
    → contains k (keep p keys) ≡ true
contains-keep p k [] h g = cc
contains-keep p k (x ∷ keys) h g = elim (Bool-cases (p x)) [
  | inl taken ↦
      rw (keep, taken)
        (elim (Bool-cases (x == k)) [
          | inl same ↦ rw same refl
          | inr other ↦
              ground (arith, other, h, contains-keep p k keys (ground (arith, h, other)) g)
        ])
  | inr left ↦
      rw (keep, left)
        (elim (Bool-cases (x == k)) [
          | inl same ↦ ground (arith, left, g, ap p ((text_beq_iff x k).0 same))
          | inr other ↦ contains-keep p k keys (ground (arith, h, other)) g
        ])
]

pub contains-lookup :
    {V : Type 0} (n : Text) (l : List (Text × V))
    → is_some (lookup n l) ≡ true
    → contains n (map (λ (e : Text × V). e.0) l) ≡ true
unfolding lookup
contains-lookup n [] h = cc
contains-lookup n ((k, v) ∷ l) h = elim (Bool-cases (k == n)) [
  | inl same ↦ rw same refl
  | inr other ↦ ground (arith, other, contains-lookup n l (ground (arith, h, other)))
]

-- What is in the map stays there.
collect_mono :
    (results : List MetaAnswer) (next snap : List (Text × SiteMeta)) (n : Text)
    → is_some (lookup n next) ≡ true
    → collect results next ≡ some snap
    → is_some (lookup n snap) ≡ true
unfolding collect
collect_mono [] next snap n h k = ground (arith, h, k)
collect_mono (vanished ∷ results) next snap n h k = collect_mono results next snap n h k
collect_mono (unusable ∷ results) next snap n h k = cc
collect_mono (found m ∷ results) next snap n h k = elim (Bool-cases (validate_site m.name)) [
  | inr bad ↦ collect_mono results next snap n h (ground (arith, bad, k))
  | inl good ↦
      collect_mono results (insert m.name m next) snap n
        (ground (arith, h, lookup-insert m.name n m next)) (ground (arith, good, k))
]

module _ (O : Objects) (F : Formats) (c : Settings) where
  meta_key-prefixed : (name : Text) → has_prefix (meta_key c name) (meta_prefix c) ≡ true
  unfolding has_prefix cut_prefix
  meta_key-prefixed name = go c.prefix
    where
      go :
          (p : Text)
          → has_prefix (p ++ (codes "meta/" ++ (name ++ codes ".json"))) (p ++ codes "meta/") ≡ true
      go [] = ground arith
      go (x ∷ p) = ground (arith, go p)

  meta_key-suffixed : (name : Text) → has_suffix (meta_key c name) (codes ".json") ≡ true
  meta_key-suffixed name =
      has_suffix-append c.prefix (codes "meta/" ++ (name ++ codes ".json")) (codes ".json") (
        has_suffix-append (codes "meta/") (name ++ codes ".json") (codes ".json") (
          has_suffix-append name (codes ".json") (codes ".json") (has_suffix_refl (codes ".json"))))

  collect-tail :
      (a : MetaAnswer) (answers : List MetaAnswer) (next snap : List (Text × SiteMeta))
      → collect (a ∷ answers) next ≡ some snap
      → (next' : List (Text × SiteMeta)) × (collect answers next' ≡ some snap)
  unfolding collect
  collect-tail (found m) answers next snap h = (_, h)
  collect-tail vanished answers next snap h = (next, h)
  collect-tail unusable answers next snap h = cc

  module _ (L : IsObjects O) where
    -- A metadata object whose key is listed reaches the map.
    collect-contains :
        (keys : List Text) (b : O.Bucket) (next snap : List (Text × SiteMeta)) (key body tag : Text)
        (m : SiteMeta)
        → contains key keys ≡ true
        → O.peek key b ≡ some (body, tag)
        → F.decode body ≡ some m
        → validate_site m.name ≡ true
        → collect (get_metas O F c keys b).1 next ≡ some snap
        → is_some (lookup m.name snap) ≡ true
    unfolding get_metas collect
    collect-contains [] b next snap key body tag m h p d v k = cc
    collect-contains (x ∷ keys) b next snap key body tag m h p d v k =
        elim (Bool-cases (x == key)) [
          | inl same ↦ here ((text_beq_iff x key).0 same) (O.get_object x b).1 refl k
          | inr other ↦
              let (next', k') =
                collect-tail (meta_answer O F c (O.get_object x b).1)
                  (get_metas O F c keys (O.get_object x b).0).1 next snap k in
              collect-contains keys (O.get_object x b).0 next' snap key body tag m
                (ground (arith, h, other)) (L.peek-get x key b ∙ p) d v k'
        ]
      where
        rest : List MetaAnswer
        rest = (get_metas O F c keys (O.get_object x b).0).1

        decodes :
            (d' t' : Text)
            → Path (Option (Text × Text)) (some (d', t')) (some (body, tag))
            → F.decode d' ≡ some m
        decodes d' t' q = ground (arith, q, d)

        here :
            x ≡ key
            → (a : Fetch) → (O.get_object x b).1 ≡ a
            → collect (meta_answer O F c a ∷ rest) next ≡ some snap
            → is_some (lookup m.name snap) ≡ true
        here e (fetched d' t') f l =
            collect_mono rest (insert m.name m next) snap m.name
              (ground (arith, lookup-insert m.name m.name m next, eq_refl m.name))
              (ground (
                arith,
                v,
                l,
                decodes d' t'
                    (sym (L.get-fetched x d' t' b f) ∙ ap (λ (y : Text). O.peek y b) e ∙ p),
              ))
        here e absent f l =
            ground (arith, sym (L.get-absent x b f) ∙ ap (λ (y : Text). O.peek y b) e ∙ p)
        here e unreachable f l = cc

    -- A site whose metadata object stands under its key is in the map that a refresh gives.
    pub refresh-contains :
        (W : ListsAll O) (now : ℕ) (s : Store O.Bucket) (snap : List (Text × SiteMeta))
        (body tag : Text) (m : SiteMeta)
        → (refresh O F c now s).1 ≡ some snap
        → O.peek (meta_key c m.name) s.bucket ≡ some (body, tag)
        → F.decode body ≡ some m
        → validate_site m.name ≡ true
        → is_some (lookup m.name snap) ≡ true
    unfolding refresh
    refresh-contains W now s snap body tag m h p d v =
        go (O.list_objects (meta_prefix c) s.bucket).1 refl h
      where
        key : Text
        key = meta_key c m.name

        go :
            (o : Option (List Text))
            → (O.list_objects (meta_prefix c) s.bucket).1 ≡ o
            → (refresh O F c now s).1 ≡ some snap
            → is_some (lookup m.name snap) ≡ true
        go none e l = ground (arith, e, l)
        go (some keys) e l =
            let b = (O.list_objects (meta_prefix c) s.bucket).0 in
            let picked = keep (λ (k : Text). has_suffix k (codes ".json")) keys in
            let whole : collect (get_metas O F c picked b).1 [] ≡ some snap =
              ground (arith, e, l) in
            collect-contains picked b [] snap key body tag m
              (contains-keep (λ (k : Text). has_suffix k (codes ".json")) key keys
                (W.list_objects-whole (meta_prefix c) key body tag s.bucket keys e
                  (meta_key-prefixed m.name) p)
                (meta_key-suffixed m.name))
              (L.peek-list_objects key (meta_prefix c) s.bucket ∙ p) d v whole
