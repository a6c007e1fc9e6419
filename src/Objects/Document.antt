-- ===== src/Objects/Document.antt =====
-- internal/s3store/document.go: the token document as one object, written by compare-and-swap.
use crate_html.Prelude.{
  ◌≡◌, refl, Bool, true, false, Option, none, some, [], Text, is_empty, if◌then◌else◌, arith,
}
use crate_html.Token.Persistence.{Persistence}
use crate_html.Objects.{
  Fetch, fetched, absent, unreachable, Put, stored, refused, unwritten, Condition, always, matches,
  is_new, Objects, IsObjects, IsSettled,
}

-- The object's content, empty for an object that does not exist.
abbrev pub content_of : Option (Text × Text) → Text
content_of none = []
content_of (some e) = e.0

-- The tag that `etag` keeps: empty for an object that does not exist.
abbrev pub tag_of : Option (Text × Text) → Text
tag_of none = []
tag_of (some e) = e.1

module _ (O : Objects) (key : Text) where
  -- Document, with the bucket that it is in.
  pub record Document : Type 0 where
    pub bucket : O.Bucket
    pub etag : Text
    pub seen : Bool

  -- Load: the object that is not found is an empty document.
  abbrev pub loaded : O.Bucket → Document → Fetch → Document × Option Text
  loaded b d (fetched body tag) = (record { bucket = b; etag = tag; seen = true }, some body)
  loaded b d absent = (record { bucket = b; etag = []; seen = true }, some [])
  loaded b d unreachable = (record d { bucket = b }, none)

  unfoldable pub document_load : Document → Document × Option Text
  document_load d = let (b, answer) = O.get_object key d.bucket in loaded b d answer

  -- The switch of Save.
  abbrev pub condition_of : Bool → Text → Condition
  condition_of seen etag = if seen then (if is_empty etag then is_new else matches etag) else always

  abbrev pub saved : O.Bucket → Document → Put → Document × Bool
  saved b d (stored tag) = (record { bucket = b; etag = tag; seen = true }, true)
  saved b d refused = (record { bucket = b; etag = []; seen = false }, false)
  saved b d unwritten = (record d { bucket = b }, false)

  unfoldable pub document_save : Text → Document → Document × Bool
  document_save body d =
      let (b, answer) = O.put_object key (condition_of d.seen d.etag) body d.bucket in
      saved b d answer

  abbrev pub document_content : Document → Text
  document_content d = content_of (O.peek key d.bucket)

  module _ (L : IsObjects O) where
    pub document_load-content :
        (d : Document) (text : Text) → (document_load d).1 ≡ some text → text ≡ document_content d
    unfolding document_load
    document_load-content d text h = go (O.get_object key d.bucket).1 refl h
      where
        go :
            (f : Fetch)
            → (O.get_object key d.bucket).1 ≡ f
            → (document_load d).1 ≡ some text
            → text ≡ document_content d
        go (fetched body tag) e k = ground (arith, e, L.get-fetched key body tag d.bucket e)
        go absent e k = ground (arith, e, L.get-absent key d.bucket e)
        go unreachable e k = ground (arith, e)

    pub content-document_load :
        (d : Document) → document_content (document_load d).0 ≡ document_content d
    unfolding document_load
    content-document_load d = go (O.get_object key d.bucket).1 refl
      where
        go :
            (f : Fetch)
            → (O.get_object key d.bucket).1 ≡ f
            → document_content (document_load d).0 ≡ document_content d
        go (fetched body tag) e = ground (arith, e, L.peek-get key key d.bucket)
        go absent e = ground (arith, e, L.peek-get key key d.bucket)
        go unreachable e = ground (arith, e, L.peek-get key key d.bucket)

    pub content-document_save :
        (text : Text) (d : Document)
        → (document_save text d).1 ≡ true
        → document_content (document_save text d).0 ≡ text
    unfolding document_save
    content-document_save text d h =
        go (O.put_object key (condition_of d.seen d.etag) text d.bucket).1 refl h
      where
        go :
            (p : Put)
            → (O.put_object key (condition_of d.seen d.etag) text d.bucket).1 ≡ p
            → (document_save text d).1 ≡ true
            → document_content (document_save text d).0 ≡ text
        go (stored tag) e k =
            ground (arith, e, L.put-stored key text tag (condition_of d.seen d.etag) d.bucket e)
        go refused e k = ground (arith, e)
        go unwritten e k = ground (arith, e)

    pub content-document_save_failed :
        (S : IsSettled O) (text : Text) (d : Document)
        → (document_save text d).1 ≡ false
        → document_content (document_save text d).0 ≡ document_content d
    unfolding document_save
    content-document_save_failed S text d h =
        go (O.put_object key (condition_of d.seen d.etag) text d.bucket).1 refl h
      where
        go :
            (p : Put)
            → (O.put_object key (condition_of d.seen d.etag) text d.bucket).1 ≡ p
            → (document_save text d).1 ≡ false
            → document_content (document_save text d).0 ≡ document_content d
        go (stored tag) e k = ground (arith, e)
        go refused e k =
            ground (arith, e, S.put-refused key text (condition_of d.seen d.etag) d.bucket e)
        go unwritten e k =
            ground (arith, e, S.put-unwritten key text (condition_of d.seen d.etag) d.bucket e)

    -- Over a bucket whose failed writes were not carried out, a Document is a Persistence.
    abbrev pub document_store : IsSettled O → Persistence
    document_store S = record {
      Medium = Document;
      load = document_load;
      save = document_save;
      content = document_content;
      load-content = document_load-content;
      content-load = content-document_load;
      content-save = content-document_save;
      content-save_failed = content-document_save_failed S;
    }
