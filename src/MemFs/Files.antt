-- ===== src/MemFs/Files.antt =====
-- The files of an unpacked site: each path holds the body of its first regular file in the archive,
-- and the sizes stay within the limit.
use crate_html.Prelude.{ℕ, ◌+◌, ◌≤◌, ◌≡◌, false, List, text_eq, lookup}
use crate_html.TarPath.{CleanPath, path_eq}
use crate_html.MemFs.{TarItem, is_over, MemFs}
use crate_html.MemFs.Bounds.{total, first_file, earlier}

-- The whole loop.
pub record Loop (limit : ℕ) (items : List TarItem) (m : MemFs) (written : ℕ) (r : MemFs × ℕ)
    : Type 0 where
  pub files : (p : CleanPath) → lookup p r.0.files ≡ earlier (lookup p m.files) (first_file p items)
  pub grown : total r.0.files + written ≤ total m.files + r.1
  pub fits : is_over limit written ≡ false → is_over limit r.1 ≡ false
