-- ===== src/Pack.antt =====
-- WriteDirAsTar of internal/storage/tar.go: a directory on the client's disk, written as a tar
-- stream. The answers are those of the file system and of the archive writer to the next calls,
-- `true` for success; a file that fails while it is read is `broken`. The tree does not change while
-- it is walked, and its entries stand in the order of the walk.
pub mod Names
pub mod Walk
pub mod Tree
pub mod Entries
pub mod Unpacking
use crate_html.Prelude.{
  ℕ, Bool, true, false, List, [], ◌∷◌, ◌++◌, Text, trim_slashes, if◌then◌else◌,
}
use crate_html.MemFs.{dir, reg, Body, whole, broken, TarItem, header}

mutual
  -- A file, a symbolic link, a device or the like, or a directory.
  pub data Node : Type 0 where
    file : Body → Node
    link special : Node
    folder : Nodes → Node

  pub data Nodes : Type 0 where
    nil : Nodes
    cons : Text → Node → Nodes → Nodes

-- What stands at the source: nothing, something, or a symbolic link to something.
pub data Source : Type 0 where
  missing : Source
  direct linked : Node → Source

-- The archive so far, and what the next calls answer.
pub record Writer : Type 0 where
  pub items : List TarItem
  pub answers : List Bool

-- A step gives the writer and whether it went well; a sequence of steps stops at the first failure.
infixl 5 ◌then_do◌
abbrev pub ◌then_do◌ : Writer × Bool → (Writer → Writer × Bool) → Writer × Bool
(w, true) then_do k = k w
(w, false) then_do k = (w, false)

unfoldable pub call : Writer → Writer × Bool
call w = elim w.answers [ [] ↦ (w, true) | a ∷ more ↦ (record w { answers = more }, a) ]

unfoldable pub put : TarItem → Writer → Writer
put item w = record w { items = w.items ++ item ∷ [] }

-- filepath.Rel and filepath.ToSlash: the components below the source, with slashes between them.
unfoldable pub arch_name : List Text → Text
arch_name [] = []
arch_name (c ∷ []) = c
arch_name (c ∷ d ∷ cs) = c ++ b'/' ∷ arch_name (d ∷ cs)

-- hdr.Name of a directory
unfoldable pub dir_name : List Text → Text
unfolding arch_name
dir_name path = trim_slashes (arch_name path) ++ b'/' ∷ []

-- The bytes of a body before it ends or fails.
abbrev bytes_of : Body → Text
bytes_of (whole d) = d
bytes_of (broken d) = d

abbrev ends : Body → Bool
ends (whole d) = true
ends (broken d) = false

-- What stands in the archive of a body that is not copied to its end: an empty one is whole at once.
abbrev cut_off : Body → Text → Body
cut_off (whole []) written = whole []
cut_off (whole (b ∷ d)) written = broken written
cut_off (broken d) written = broken written

-- os.Open and io.Copy behind the header of a file: a failure leaves the entry cut off.
unfoldable pub copy_file : Text → Body → Writer → Writer × Bool
unfolding call put
copy_file name body w =
    let (w, opened) = call w in
    if opened
    then (let (w, copied) = call w in
        if copied
        then (put (header name reg body) w, ends body)
        else (put (header name reg (cut_off body (bytes_of body))) w, false))
    else (put (header name reg (cut_off body [])) w, false)

-- filepath.WalkDir below the source. Each entry asks for its Info, and a file or directory writes its
-- header; a directory is read behind its own visit.
unfoldable mutual
  unfolding call put arch_name dir_name copy_file

  pub walk_node : List Text → Node → Writer → Writer × Bool
  walk_node path (file body) w =
      call w then_do λ w. call w then_do λ w. copy_file (arch_name path) body w
  walk_node path link w = call w
  walk_node path special w = call w
  walk_node path (folder ns) w = call w then_do λ w. call w then_do λ w.
      call (put (header (dir_name path) dir (whole [])) w) then_do λ w. walk_nodes path ns w

  pub walk_nodes : List Text → Nodes → Writer → Writer × Bool
  walk_nodes path nil w = (w, true)
  walk_nodes path (cons name n rest) w =
      walk_node (path ++ name ∷ []) n w then_do λ w. walk_nodes path rest w

-- The callback returns at once for the source itself; only a directory is read then.
unfoldable pub walk_root : Node → Writer → Writer × Bool
unfolding call walk_nodes
walk_root (folder ns) w = call w then_do λ w. call w then_do λ w. walk_nodes [] ns w
walk_root (file body) w = call w
walk_root link w = call w
walk_root special w = call w

-- `info.IsDir()` of os.Stat, which follows a link.
unfoldable pub is_dir : Source → Bool
is_dir (direct (folder ns)) = true
is_dir (linked (folder ns)) = true
is_dir _ = false

-- The walk starts from os.Lstat, which follows no link.
unfoldable pub walk_source : Source → Writer → Writer × Bool
unfolding walk_root
walk_source missing w = (w, false)
walk_source (direct n) w = walk_root n w
walk_source (linked n) w = walk_root link w

-- The deferred Close behind the last entry writes the trailer, which a reader needs only to see that
-- the stream ends there; behind an entry that is cut off it writes nothing.
unfoldable pub write_dir_as_tar : Source → Writer → Writer × Bool
unfolding call is_dir walk_source
write_dir_as_tar src w = call w then_do λ w. if is_dir src then walk_source src w else (w, false)

-- What a tar reader finds at the other end of PushWithExpiry's pipe: the entries that were written,
-- and their end, for the trailer is written where the walk stops between two entries. A reader that
-- stops at the trailer sees nothing of the error that closes the pipe behind it.
unfoldable pub stream : Writer × Bool → List TarItem
stream r = r.0.items
