-- ===== src/Objects.antt =====
-- What internal/s3store uses of an S3-compatible server through its client, a third-party package:
-- objects under keys, each with an entity tag. The laws are the documented ones: a write is
-- whole or not at all, one that is reported as done has met its condition, a tag belongs to one
-- content, and no request touches another key. A request that is reported as failed may have been
-- carried out, for its answer may be lost.
pub mod Document
pub mod Versions
use crate_html.Prelude.{
  All, has_prefix, ◌≡◌, ◌≢◌, ◌⊎◌, Bool, true, false, Option, none, some, List, [], Text, text_eq,
  ◌==◌, contains,
}

pub data Fetch : Type 0 where
  fetched : Text → Text → Fetch
  absent : Fetch
  unreachable : Fetch

pub data Put : Type 0 where
  stored : Text → Put
  refused : Put
  unwritten : Put

-- The headers If-Match and If-None-Match of a write.
pub data Condition : Type 0 where
  always : Condition
  matches : Text → Condition
  is_new : Condition

-- Whether a condition holds of the object that stands under the key.
abbrev pub holds : Condition → Option (Text × Text) → Bool
holds always o = true
holds (matches t) none = false
holds (matches t) (some (d, u)) = u == t
holds is_new none = true
holds is_new (some e) = false

pub record Objects : Type 1 where
  pub Bucket : Type 0
  pub get_object : Text → Bucket → Bucket × Fetch
  pub put_object : Text → Condition → Text → Bucket → Bucket × Put
  pub remove_object : Text → Bucket → Bucket × Bool
  -- the keys under a prefix, `none` for a failure
  pub list_objects : Text → Bucket → Bucket × Option (List Text)
  -- what stands under a key: content and tag
  pub peek : Text → Bucket → Option (Text × Text)

-- The laws, for the objects under one key.
pub record IsObjects (O : Objects) : Type 0 where
  pub get-fetched :
      (k d t : Text) (b : O.Bucket) → (O.get_object k b).1 ≡ fetched d t → O.peek k b ≡ some (d, t)
  pub get-absent : (k : Text) (b : O.Bucket) → (O.get_object k b).1 ≡ absent → O.peek k b ≡ none
  pub peek-get : (k j : Text) (b : O.Bucket) → O.peek j (O.get_object k b).0 ≡ O.peek j b
  pub put-stored :
      (k d t : Text) (c : Condition) (b : O.Bucket)
      → (O.put_object k c d b).1 ≡ stored t
      → (O.peek k (O.put_object k c d b).0 ≡ some (d, t)) × (holds c (O.peek k b) ≡ true)
  -- whatever the answer
  pub put-whole :
      (k d : Text) (c : Condition) (b : O.Bucket)
      → (O.peek k (O.put_object k c d b).0 ≡ O.peek k b)
        ⊎ ((t : Text) × (O.peek k (O.put_object k c d b).0 ≡ some (d, t))
            × (holds c (O.peek k b) ≡ true))
  pub put-other :
      (k j d : Text) (c : Condition) (b : O.Bucket)
      → (k == j) ≡ false
      → O.peek j (O.put_object k c d b).0 ≡ O.peek j b
  pub remove-removed :
      (k : Text) (b : O.Bucket)
      → (O.remove_object k b).1 ≡ true
      → O.peek k (O.remove_object k b).0 ≡ none
  pub remove-whole :
      (k : Text) (b : O.Bucket)
      → (O.peek k (O.remove_object k b).0 ≡ O.peek k b) ⊎ (O.peek k (O.remove_object k b).0 ≡ none)
  pub remove-other :
      (k j : Text) (b : O.Bucket) → (k == j) ≡ false → O.peek j (O.remove_object k b).0 ≡ O.peek j b
  pub peek-list_objects : (k p : Text) (b : O.Bucket) → O.peek k (O.list_objects p b).0 ≡ O.peek k b
  pub list_objects-prefixed :
      (p : Text) (b : O.Bucket) (keys : List Text)
      → (O.list_objects p b).1 ≡ some keys
      → All (λ (k : Text). has_prefix k p ≡ true) keys
  pub tag_content :
      (k d e t : Text) (b c : O.Bucket)
      → O.peek k b ≡ some (d, t)
      → O.peek k c ≡ some (e, t)
      → d ≡ e
  -- a tag is never the empty text
  pub tag_given : (k d : Text) (b : O.Bucket) → O.peek k b ≢ some (d, [])

-- A listing has every key under its prefix, as S3's consistency promises.
pub record ListsAll (O : Objects) : Type 0 where
  pub list_objects-whole :
      (p k d t : Text) (b : O.Bucket) (keys : List Text)
      → (O.list_objects p b).1 ≡ some keys
      → has_prefix k p ≡ true
      → O.peek k b ≡ some (d, t)
      → contains k keys ≡ true

-- What S3 does not promise, and the token store asks of its medium: a write that is reported as
-- failed was not carried out.
pub record IsSettled (O : Objects) : Type 0 where
  pub put-refused :
      (k d : Text) (c : Condition) (b : O.Bucket)
      → (O.put_object k c d b).1 ≡ refused
      → O.peek k (O.put_object k c d b).0 ≡ O.peek k b
  pub put-unwritten :
      (k d : Text) (c : Condition) (b : O.Bucket)
      → (O.put_object k c d b).1 ≡ unwritten
      → O.peek k (O.put_object k c d b).0 ≡ O.peek k b
