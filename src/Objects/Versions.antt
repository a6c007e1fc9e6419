-- ===== src/Objects/Versions.antt =====
-- Several processes on one token document: no save overwrites what its process has not seen.
use crate_html.Prelude.{
  ◌≡◌, refl, true, some, [], ◌∷◌, Text, text_eq, text_beq_iff, arith, Option-cases, inl, inr,
}
use crate_html.Objects.{
  Fetch, fetched, absent, unreachable, Put, stored, refused, unwritten, holds, Objects, IsObjects,
}
use crate_html.Objects.Document.{
  content_of, tag_of, Document, condition_of, document_load, document_save, document_content,
}

module _ (O : Objects) (key : Text) where
  -- What the process last saw of the object is what stood in the bucket `b`.
  pub record Saw (b : O.Bucket) (d : Document O key) : Type 0 where
    pub seen : d.seen ≡ true
    pub tag : d.etag ≡ tag_of (O.peek key b)

  module _ (L : IsObjects O) where
    holds-content :
        (b c : O.Bucket)
        → holds (condition_of O key true (tag_of (O.peek key b))) (O.peek key c) ≡ true
        → content_of (O.peek key c) ≡ content_of (O.peek key b)
    holds-content b c h = elim (Option-cases (O.peek key b)) [
      | inl old ↦ elim (Option-cases (O.peek key c)) [
        | inl new ↦ rw (old, new) refl
        | inr ((d, t), new) ↦ ground (arith, old, new)
      ]
      | inr ((e, []), old) ↦ elim (L.tag_given key e b old) [ ]
      | inr ((e, x ∷ u), old) ↦ elim (Option-cases (O.peek key c)) [
        | inl new ↦ ground (arith, old, new)
        | inr ((d, t), new) ↦
            ground (arith, old, new, text_beq_iff t (x ∷ u), L.tag_content key d e t c b)
      ]
    ]

    -- Behind a successful Load or Save, the process has seen what stands in the bucket.
    pub document_load-Saw :
        (d : Document O key) (text : Text)
        → (document_load O key d).1 ≡ some text
        → Saw (document_load O key d).0.bucket (document_load O key d).0
    unfolding document_load
    document_load-Saw d text h = go (O.get_object key d.bucket).1 refl h
      where
        go :
            (f : Fetch)
            → (O.get_object key d.bucket).1 ≡ f
            → (document_load O key d).1 ≡ some text
            → Saw (document_load O key d).0.bucket (document_load O key d).0
        go (fetched body tag) e k = record {
          seen = ground (arith, e);
          tag =
              ground (arith, e, L.peek-get key key d.bucket, L.get-fetched key body tag d.bucket e);
        }
        go absent e k = record {
          seen = ground (arith, e);
          tag = ground (arith, e, L.peek-get key key d.bucket, L.get-absent key d.bucket e);
        }
        go unreachable e k = ground (arith, e)

    pub document_save-Saw :
        (text : Text) (d : Document O key)
        → (document_save O key text d).1 ≡ true
        → Saw (document_save O key text d).0.bucket (document_save O key text d).0
    unfolding document_save
    document_save-Saw text d h =
        go (O.put_object key (condition_of O key d.seen d.etag) text d.bucket).1 refl h
      where
        go :
            (p : Put)
            → (O.put_object key (condition_of O key d.seen d.etag) text d.bucket).1 ≡ p
            → (document_save O key text d).1 ≡ true
            → Saw (document_save O key text d).0.bucket (document_save O key text d).0
        go (stored tag) e k = record {
          seen = ground (arith, e);
          tag =
              ground
                (arith, e, L.put-stored key text tag (condition_of O key d.seen d.etag) d.bucket e);
        }
        go refused e k = ground (arith, e)
        go unwritten e k = ground (arith, e)

    -- On a server that keeps the laws of conditional writes: whatever other processes did to the
    -- document since this one saw it in the bucket `b`, a Save that succeeds replaced just the
    -- content that this process saw, so that it undoes no write of another.
    pub document_save-Saw_content :
        (b : O.Bucket) (text : Text) (d : Document O key)
        → Saw b d
        → (document_save O key text d).1 ≡ true
        → document_content O key d ≡ content_of (O.peek key b)
    unfolding document_save
    document_save-Saw_content b text d w h =
        go (O.put_object key (condition_of O key d.seen d.etag) text d.bucket).1 refl h
      where
        go :
            (p : Put)
            → (O.put_object key (condition_of O key d.seen d.etag) text d.bucket).1 ≡ p
            → (document_save O key text d).1 ≡ true
            → document_content O key d ≡ content_of (O.peek key b)
        go (stored tag) e k = holds-content b d.bucket (
            ground (
              arith,
              w.seen,
              w.tag,
              L.put-stored key text tag (condition_of O key d.seen d.etag) d.bucket e,
            ))
        go refused e k = ground (arith, e)
        go unwritten e k = ground (arith, e)
