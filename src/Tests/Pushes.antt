-- ===== src/Tests/Pushes.antt =====
-- Two pushes to a bucket, one that fails, an expiry pass, and two processes on one document.
use crate_html.Prelude.{
  ℕ, ◌≡◌, refl, true, false, Option, none, some, [], ◌∷◌, Text, text_eq, text_beq, codes, ok, err,
  lookup, insert, delete, cut_prefix, cut, has_prefix, Result, All, Bool-cases, inl, inr, arith, ap,
  sym, ◌∙◌, ◌==◌, text_beq_iff, contains,
}
use crate_html.Name.{validate_site}
use crate_html.TarPath.{
  path_eq, put_front, split_slash, step_up, clean_from, clean, safe_tar_path, path_beq, join_from,
  to_text, to_slash,
}
use crate_html.Sort.{text_leb, insert_by, sort_by, sort_strings}
use crate_html.MemFs.{
  header, reg, whole, copy_limited, new_fs, add_kid, mark_dir, add_dir_from, add_dir, add_file,
  entry_path, unpack_file, unpack_flag, unpack_item, unpack_from, sort_kids, sort_dirs, summary,
  unpack_tar,
}
use crate_html.Cache.{
  new_cache, key_eq, key_beq, unlink, move_to_front, back, evict, get, shrink, push_front, put,
  drop_all, drop_all_from,
}
use crate_html.Wire.{Site, StoreError, failed, not_found}
use crate_html.Objects.Document.{
  content_of, Document, document_load, document_save, document_content,
}
use crate_html.Objects.Versions
use crate_html.Objects.Versions.{Saw, document_load-Saw}
use crate_html.S3Store.{
  SiteMeta, to_wire, Settings, Store, Formats, has_suffix, collect, get_metas, refresh, snapshot,
  find_meta, meta_key, exists, stat, list_sites, site_names, open_site, open_found, expand,
}
use crate_html.S3Store.Commit.{
  put_always, put_meta, apply_local, forget_local, sweep_previous, finish_push, commit,
  push_archive, replace_site, remove_all, sweep_site, delete_found, delete_site, delete_due,
  delete_expired,
}
use crate_html.S3Store.Push
use crate_html.S3Store.Push.{Pushed}
use crate_html.S3Store.Failure
use crate_html.S3Store.Failure.{LeftBehind}
use crate_html.S3Store.Reaper
use crate_html.S3Store.Reaper.{IsOverdue, IsStored}
use crate_html.S3Store.Overdue
use crate_html.Tests.Yaml.{◌>>=◌, put_text, get_text, split_at}
use crate_html.Tests.Bucket.{
  shelf, shelf_get, shelf_put, shelf_list, shelf-IsObjects, shelf-ListsAll, lossy, lossy_put,
  lossy-IsObjects,
}

-- A small format for metadata, and archives of one file that bears the archive's text as its name.
get_meta_text : Text → Option SiteMeta
unfolding get_text
get_meta_text s = do
  (name, s) ← get_text s
  (version, s) ← get_text s
  (deadline, s) ← get_text s
  some (record {
    name = name;
    version = version;
    file_count = 1;
    size_bytes = 1;
    updated_at = 0;
    expires_at = elim deadline [ [] ↦ none | t ∷ rest ↦ some t ];
  })

formats : Formats
unfolding get_meta_text
formats = record {
  encode = λ m. some (
      put_text m.name
        (put_text m.version (put_text (elim m.expires_at [ none ↦ [] | some t ↦ t ∷ [] ]) [])));
  decode = get_meta_text;
  read_tar = λ archive. header archive reg (whole (codes "x")) ∷ [];
}

program : Unit {0}
unfolding text_beq lookup insert delete cut_prefix cut has_prefix validate_site put_front
    split_slash step_up clean_from clean safe_tar_path path_beq join_from to_text to_slash text_leb
    insert_by sort_by sort_strings copy_limited new_fs add_kid mark_dir add_dir_from add_dir
    add_file entry_path unpack_file unpack_flag unpack_item unpack_from sort_kids sort_dirs summary
    unpack_tar key_beq new_cache unlink move_to_front back evict get shrink push_front put drop_all
    drop_all_from document_load document_save to_wire has_suffix collect get_metas refresh snapshot
    find_meta exists stat list_sites site_names put_always put_meta apply_local forget_local
    sweep_previous finish_push commit push_archive replace_site remove_all sweep_site delete_found
    delete_site delete_due delete_expired get_text split_at shelf shelf_get shelf_put shelf_list
    lossy lossy_put open_site open_found expand get_meta_text formats
program = tt

abbrev settings : Settings
settings = record { prefix = codes "p/"; max_site_bytes = 100; meta_ttl = 10 }

abbrev start : Store shelf.Bucket
unfolding shelf
start = record { bucket = []; content = new_cache 100; meta = []; meta_at = 0; meta_valid = false }

abbrev push : Text → Text → Option ℕ → ℕ → Text → Store shelf.Bucket → Store shelf.Bucket
push name archive expiry now version s =
    (replace_site shelf formats settings name archive expiry now (some version) s).0

abbrev one : Store shelf.Bucket
one = push (codes "docs") (codes "index.html") (some 5) 100 (codes "v1") start

abbrev docs : Site
docs = record {
  name = codes "docs";
  updated_at = 101;
  size_bytes = 1;
  file_count = 1;
  expires_at = some 106;
}

pushes :
    (replace_site shelf formats settings
      (codes "docs")
      (codes "a.html")
      (some 5)
      101
      (some (codes "v2"))
      one).1
    ≡ ok docs
unfolding program
pushes = refl

replace_site-Pushed_example :
    Pushed shelf formats settings
      (codes "docs")
      (codes "a.html")
      docs
      one
      (push (codes "docs") (codes "a.html") (some 5) 101 (codes "v2") one)
replace_site-Pushed_example =
    Push.replace_site-Pushed shelf formats settings shelf-IsObjects (codes "docs") (codes "a.html")
      (some 5) 101 (some (codes "v2")) one docs pushes

-- The commit of a second push is done, but its answer is lost.
abbrev losing : Text
losing = meta_key settings (codes "docs")

abbrev before : Store (lossy losing).Bucket
unfolding shelf lossy
before = one

abbrev again : Store (lossy losing).Bucket → Store (lossy losing).Bucket × Result StoreError Site
again =
    replace_site (lossy losing) formats settings (codes "docs") (codes "a.html") none 101
      (some (codes "v2"))

loses : (again before).1 ≡ err failed
unfolding program
loses = refl

peek-replace_site_err_example :
    LeftBehind
      (lossy losing)
      formats
      settings
      (codes "docs")
      (codes "a.html")
      none
      101
      (some (codes "v2"))
      before
      (again before).0
peek-replace_site_err_example =
    Failure.peek-replace_site_err (lossy losing) formats settings (lossy-IsObjects losing)
      (codes "docs") (codes "a.html") none 101 (some (codes "v2")) before failed loses

-- Then the site that was there before cannot be opened: its metadata names an archive that is gone.
opens_not :
    (open_site (lossy losing) formats settings (codes "docs") 200 (again before).0).1
    ≡ err not_found
unfolding program
opens_not = refl

abbrev two : Store shelf.Bucket
two = push (codes "blog") (codes "b.html") none 103 (codes "v3") one

delete_expired_lem_example :
    All
      (IsOverdue shelf formats settings 107 two.bucket)
      (delete_expired shelf formats settings 107 two).1.0
    × ((other : Text)
        → ¬ IsOverdue shelf formats settings 107 two.bucket other
        → shelf.peek
            (meta_key settings other)
            (delete_expired shelf formats settings 107 two).0.bucket
          ≡ shelf.peek (meta_key settings other) two.bucket)
delete_expired_lem_example =
    Reaper.delete_expired_lem shelf formats settings shelf-IsObjects 107 two

reaped : (delete_expired shelf formats settings 107 two).1 ≡ (codes "docs" ∷ [], false)
unfolding program
reaped = refl

-- The document of a process that has loaded it, before and behind the write of another.
abbrev key : Text
key = codes "state/tokens.yaml"

abbrev fresh : Document shelf key
unfolding shelf
fresh = record { bucket = []; etag = []; seen = false }

abbrev ours : Document shelf key
ours = (document_load shelf key fresh).0

loads : (document_load shelf key fresh).1 ≡ some []
unfolding program
loads = refl

saves : (document_save shelf key (codes "mine") ours).1 ≡ true
unfolding program
saves = refl

document_save-Saw_content_example :
    document_content shelf key ours ≡ content_of (shelf.peek key ours.bucket)
document_save-Saw_content_example =
    Versions.document_save-Saw_content shelf key shelf-IsObjects ours.bucket (codes "mine") ours
      (document_load-Saw shelf key shelf-IsObjects fresh [] loads) saves

abbrev theirs : Document shelf key
theirs = (document_save shelf key (codes "theirs") ours).0

-- The write of another process in between makes ours fail.
conflict :
    (document_save shelf key (codes "mine") (record ours { bucket = theirs.bucket })).1 ≡ false
unfolding program
conflict = refl

-- The metadata of the site "docs", which is the only one in its bucket.
abbrev docs_meta : SiteMeta
docs_meta = record {
  name = codes "docs";
  version = codes "v1";
  file_count = 1;
  size_bytes = 1;
  updated_at = 0;
  expires_at = some 105;
}

abbrev docs_text : Text
docs_text = put_text (codes "docs") (put_text (codes "v1") (put_text (105 ∷ []) []))

docs_decodes : formats.decode docs_text ≡ some docs_meta
unfolding program
docs_decodes = refl

docs_alone :
    (key body tag : Text)
    → has_prefix key (codes "p/meta/") ≡ true
    → shelf.peek key one.bucket ≡ some (body, tag)
    → docs_text ≡ body
unfolding program
docs_alone key body tag h p = elim (Bool-cases (codes "p/meta/docs.json" == key)) [
  | inl same ↦ ground (arith, p, same)
  | inr other ↦ elim (Bool-cases (codes "p/sites/docs/v1.tar" == key)) [
    | inl same ↦ ground (
      arith,
      h,
      ap (λ (k : Text). has_prefix k (codes "p/meta/"))
          ((text_beq_iff (codes "p/sites/docs/v1.tar") key).0 same),
    )
    | inr apart ↦ ground (arith, p, other, apart)
  ]
]

docs_only :
    (m : SiteMeta)
    → IsStored shelf formats settings one.bucket m
    → m.name ≡ docs_meta.name
    → m ≡ docs_meta
docs_only m (key, body, tag, h, p, d) n =
    let e = sym docs_decodes ∙ ap formats.decode (docs_alone key body tag h p) ∙ d in
    ground (arith, e)

passes : (delete_expired shelf formats settings 107 one).1.1 ≡ false
unfolding program
passes = refl

delete_expired-removes_example :
    (contains (codes "docs") (delete_expired shelf formats settings 107 one).1.0 ≡ true)
    × (shelf.peek
          (meta_key settings (codes "docs"))
          (delete_expired shelf formats settings 107 one).0.bucket
        ≡ none)
delete_expired-removes_example =
    Overdue.delete_expired-removes shelf formats settings shelf-IsObjects shelf-ListsAll 107 105 one
      docs_meta docs_text (1 ∷ docs_text) (omega arith) (unfold program in refl)
      (unfold program in refl) docs_decodes docs_only refl (omega arith) passes
