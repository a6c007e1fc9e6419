-- ===== src/S3Store/Reaper.antt =====
-- What DeleteExpired removes from the bucket: sites whose deadline has passed, and no others.
use crate_html.Prelude.{
  ℕ, ◌≡◌, refl, true, false, some, List, [], ◌∷◌, map, Text, text_eq, text_beq_iff, ◌==◌, arith,
  Bool-cases, inl, inr, lookup, insert, lookup-insert, All, keep, has_prefix, codes, Option, none,
  Option-cases, sym, ◌∙◌, ◌≤◌,
}
use mathlib.Core.Path.{subst}
use crate_html.Sort.{sort_strings}
use crate_html.Name.{validate_site}
use crate_html.Objects.{Objects, IsObjects, Fetch, fetched, absent, unreachable}
use crate_html.S3Store.{
  SiteMeta, Settings, Store, Formats, meta_key, meta_prefix, refresh, MetaAnswer, found, vanished,
  unusable, collect, get_metas, has_suffix, decoded, meta_answer,
}
use crate_html.S3Store.Commit.{is_due, ends_pass, delete_site, delete_due, delete_expired}
use crate_html.S3Store.Frame.{peek-refresh, peek-delete_site}

module _ (O : Objects) (F : Formats) (c : Settings) where
  -- Sites whose deadline in the metadata is at or before the present.
  abbrev pub AllDue : ℕ → List (Text × SiteMeta) → List Text → Type 0
  AllDue now snap = All (λ (n : Text). is_due O F c now (lookup n snap) ≡ true)

  -- Metadata that stands in the bucket, below the prefix of all metadata.
  abbrev pub IsStored : O.Bucket → SiteMeta → Type 0
  IsStored b m =
      (key body tag : Text) × (has_prefix key (meta_prefix c) ≡ true)
      × (O.peek key b ≡ some (body, tag))
      × (F.decode body ≡ some m)

  -- A site that is named by metadata in the bucket with a deadline at or before the present.
  abbrev pub IsOverdue : ℕ → O.Bucket → Text → Type 0
  IsOverdue now b name =
      (m : SiteMeta) × (t : ℕ) × IsStored b m
      × (m.name ≡ name)
      × (m.expires_at ≡ some t)
      × (t ≤ now)

  abbrev AreStored : O.Bucket → List (Text × SiteMeta) → Type 0
  AreStored b snap =
      (n : Text) (m : SiteMeta) → lookup n snap ≡ some m → IsStored b m × (m.name ≡ n)

  abbrev IsFound : O.Bucket → MetaAnswer → Type 0
  IsFound b (found m) = IsStored b m
  IsFound b vanished = Unit
  IsFound b unusable = Unit

  none-AreStored : (b : O.Bucket) → AreStored b []
  unfolding lookup
  none-AreStored b n m h = cc

  collect-AreStored :
      (b : O.Bucket) (results : List MetaAnswer) (next snap : List (Text × SiteMeta))
      → All (IsFound b) results
      → AreStored b next
      → collect results next ≡ some snap
      → AreStored b snap
  unfolding collect
  collect-AreStored b [] next snap f a h =
      subst (AreStored b) {x = next} {y = snap} (ground (arith, h)) a
  collect-AreStored b (vanished ∷ results) next snap f a h =
      collect-AreStored b results next snap f.1 a h
  collect-AreStored b (unusable ∷ results) next snap f a h = ground (arith, h)
  collect-AreStored b (found m ∷ results) next snap f a h =
      elim (Bool-cases (validate_site m.name)) [
        | inr bad ↦ collect-AreStored b results next snap f.1 a (ground (arith, bad, h))
        | inl good ↦
            collect-AreStored b results (insert m.name m next) snap f.1
              (λ n k l. elim (Bool-cases (m.name == n)) [
                | inr other ↦ a n k (ground (arith, l, other, lookup-insert m.name n m next))
                | inl same ↦
                    let e : m ≡ k = ground (arith, l, same, lookup-insert m.name n m next) in
                    subst (λ (x : SiteMeta). IsStored b x × (x.name ≡ n)) e
                      (f.0, (text_beq_iff m.name n).0 same)
              ])
              (ground (arith, good, h))
      ]

  keep-prefixed :
      (p : Text) (keys : List Text)
      → All (λ (k : Text). has_prefix k p ≡ true) keys
      → All
          (λ (k : Text). has_prefix k p ≡ true)
          (keep (λ (k : Text). has_suffix k (codes ".json")) keys)
  keep-prefixed p [] h = tt
  keep-prefixed p (k ∷ keys) h = elim (Bool-cases (has_suffix k (codes ".json"))) [
    | inl taken ↦ rw (keep, taken) (h.0, keep-prefixed p keys h.1)
    | inr left ↦ rw (keep, left) (keep-prefixed p keys h.1)
  ]

  pub is_due-over :
      (now : ℕ) (o : Option SiteMeta)
      → is_due O F c now o ≡ true
      → (m : SiteMeta) × (t : ℕ) × (o ≡ some m) × (m.expires_at ≡ some t) × (t ≤ now)
  is_due-over now none h = cc
  is_due-over now (some m) h = elim (Option-cases m.expires_at) [
    | inl never ↦ ground (arith, h, never)
    | inr (t, dated) ↦ (m, t, refl, dated, ground (arith, h, dated))
  ]

  module _ (L : IsObjects O) where
    get_metas-IsStored :
        (b : O.Bucket) (keys : List Text) (b' : O.Bucket)
        → ((k : Text) → O.peek k b' ≡ O.peek k b)
        → All (λ (k : Text). has_prefix k (meta_prefix c) ≡ true) keys
        → All (IsFound b) (get_metas O F c keys b').1
    unfolding get_metas
    get_metas-IsStored b [] b' f h = tt
    get_metas-IsStored b (key ∷ keys) b' f h = (
      go (O.get_object key b').1 refl,
      get_metas-IsStored b keys (O.get_object key b').0 (λ k. L.peek-get key k b' ∙ f k) h.1,
    )
      where
        decodes :
            (body tag : Text) (o : Option SiteMeta)
            → F.decode body ≡ o
            → O.peek key b ≡ some (body, tag)
            → IsFound b (decoded O F c o)
        decodes body tag none e p = tt
        decodes body tag (some m) e p = (key, body, tag, h.0, p, e)

        go : (a : Fetch) → (O.get_object key b').1 ≡ a → IsFound b (meta_answer O F c a)
        go (fetched body tag) e =
            decodes body tag (F.decode body) refl (sym (f key) ∙ L.get-fetched key body tag b' e)
        go absent e = tt
        go unreachable e = tt

    peek-delete_due :
        (now : ℕ) (snap : List (Text × SiteMeta)) (names : List Text) (s : Store O.Bucket)
        (other : Text)
        → is_due O F c now (lookup other snap) ≡ false
        → O.peek (meta_key c other) (delete_due O F c now snap names s).0.bucket
          ≡ O.peek (meta_key c other) s.bucket
    unfolding delete_due
    peek-delete_due now snap [] s other k = refl
    peek-delete_due now snap (name ∷ names) s other k =
        elim (Bool-cases (is_due O F c now (lookup name snap))) [
          | inr later ↦ ground (arith, later, peek-delete_due now snap names s other k)
          | inl due ↦
              let s' = (delete_site O F c name now s).0 in
              let apart : (name == other) ≡ false = elim (Bool-cases (name == other)) [
                | inr n ↦ n
                | inl same ↦ ground (arith, due, k, text_beq_iff name other)
              ] in
              elim (Bool-cases (ends_pass O F c (delete_site O F c name now s).1)) [
                | inl ends ↦
                    ground (arith, due, ends, peek-delete_site O F c L name other now s apart)
                | inr goes ↦ ground (
                  arith,
                  due,
                  goes,
                  peek-delete_site O F c L name other now s apart,
                  peek-delete_due now snap names s' other k,
                )
              ]
        ]

    deleted-delete_due :
        (now : ℕ) (snap : List (Text × SiteMeta)) (names : List Text) (s : Store O.Bucket)
        → AllDue now snap (delete_due O F c now snap names s).1.0
    unfolding delete_due
    deleted-delete_due now snap [] s = tt
    deleted-delete_due now snap (name ∷ names) s =
        let s' = (delete_site O F c name now s).0 in
        elim (Bool-cases (is_due O F c now (lookup name snap))) [
          | inr later ↦
              subst (AllDue now snap) {x = (delete_due O F c now snap names s).1.0}
                (ground (arith, later)) (deleted-delete_due now snap names s)
          | inl due ↦ elim (Bool-cases (ends_pass O F c (delete_site O F c name now s).1)) [
            | inl ends ↦ subst (AllDue now snap) {x = []} (ground (arith, due, ends)) tt
            | inr goes ↦
                subst (AllDue now snap) {x = name ∷ (delete_due O F c now snap names s').1.0}
                  (ground (arith, due, goes)) (due, deleted-delete_due now snap names s')
          ]
        ]

    pub refresh-AreStored :
        (now : ℕ) (s : Store O.Bucket) (snap : List (Text × SiteMeta))
        → (refresh O F c now s).1 ≡ some snap
        → AreStored s.bucket snap
    unfolding refresh
    refresh-AreStored now s snap h = go (O.list_objects (meta_prefix c) s.bucket).1 refl h
      where
        b : O.Bucket
        b = (O.list_objects (meta_prefix c) s.bucket).0

        go :
            (o : Option (List Text))
            → (O.list_objects (meta_prefix c) s.bucket).1 ≡ o
            → (refresh O F c now s).1 ≡ some snap
            → AreStored s.bucket snap
        go none e l = ground (arith, e, l)
        go (some keys) e l =
            let picked = keep (λ (k : Text). has_suffix k (codes ".json")) keys in
            let whole : collect (get_metas O F c picked b).1 [] ≡ some snap =
              ground (arith, e, l) in
            collect-AreStored s.bucket (get_metas O F c picked b).1 [] snap
              (get_metas-IsStored s.bucket picked b
                (λ k. L.peek-list_objects k (meta_prefix c) s.bucket)
                (keep-prefixed (meta_prefix c) keys
                  (L.list_objects-prefixed (meta_prefix c) s.bucket keys e)))
              (none-AreStored s.bucket) whole

    -- On a server that keeps its laws: every name that a pass reports is named by a metadata object that
    -- stood in the bucket when the pass began, with a deadline at or before the present. And the metadata
    -- object of a site stays as it was, whatever calls fail, where no such object of the bucket names
    -- the site.
    pub delete_expired_lem :
        (now : ℕ) (s : Store O.Bucket)
        → All (IsOverdue now s.bucket) (delete_expired O F c now s).1.0
          × ((other : Text)
              → ¬ IsOverdue now s.bucket other
              → O.peek (meta_key c other) (delete_expired O F c now s).0.bucket
                ≡ O.peek (meta_key c other) s.bucket)
    unfolding delete_expired
    delete_expired_lem now s = go (refresh O F c now s).1 refl
      where
        overdue :
            (snap : List (Text × SiteMeta))
            → AreStored s.bucket snap
            → (n : Text) → is_due O F c now (lookup n snap) ≡ true
            → IsOverdue now s.bucket n
        overdue snap a n d =
            let (m, t, there, dated, past) = is_due-over now (lookup n snap) d in
            let (from, named) = a n m there in (m, t, from, named, dated, past)

        all_overdue :
            (snap : List (Text × SiteMeta)) (names : List Text)
            → AreStored s.bucket snap
            → AllDue now snap names
            → All (IsOverdue now s.bucket) names
        all_overdue snap [] a d = tt
        all_overdue snap (n ∷ names) a d = (overdue snap a n d.0, all_overdue snap names a d.1)

        go :
            (o : Option (List (Text × SiteMeta)))
            → (refresh O F c now s).1 ≡ o
            → All (IsOverdue now s.bucket) (delete_expired O F c now s).1.0
              × ((other : Text)
                  → ¬ IsOverdue now s.bucket other
                  → O.peek (meta_key c other) (delete_expired O F c now s).0.bucket
                    ≡ O.peek (meta_key c other) s.bucket)
        go none e =
            rw (delete_expired, e) (tt, λ other n. peek-refresh O F c L (meta_key c other) now s)
        go (some snap) e =
            let names = sort_strings (map (λ (x : Text × SiteMeta). x.0) snap) in
            let s' = (refresh O F c now s).0 in
            let a = refresh-AreStored now s snap e in
            rw (delete_expired, e)
              (
                all_overdue snap (delete_due O F c now snap names s').1.0 a
                    (deleted-delete_due now snap names s'),
                λ other n. elim (Bool-cases (is_due O F c now (lookup other snap))) [
                  | inl due ↦ absurd (n (overdue snap a other due))
                  | inr later ↦
                      peek-delete_due now snap names s' other later
                      ∙ peek-refresh O F c L (meta_key c other) now s
                ],
              )
