-- ===== src/Pack/Walk.antt =====
-- What a walk that goes well has written: one entry for each file and directory, in their order.
use crate_html.Prelude.{
  ◌≡◌, refl, sym, ap, ◌∙◌, Bool, true, false, Option, none, some, List, [], ◌∷◌, ◌++◌, map, Text,
  all, arith,
}
use mathlib.Core.List.{append-nil, append_assoc, map-append}
use crate_html.TarPath.Components.{all-append}
use crate_html.MemFs.{dir, reg, Body, whole, broken, TarItem, header, bad_header}
use crate_html.Pack.{
  Node, file, link, special, folder, Nodes, nil, cons, direct, Writer, ◌then_do◌, call, put,
  arch_name, dir_name, copy_file, walk_node, walk_nodes, walk_root, is_dir, walk_source,
  write_dir_as_tar,
}

-- A file with its body, or a directory, by its components below the source.
abbrev pub Entry : Type 0
Entry = List Text × Option Body

abbrev pub below : Text → Entry → Entry
below name e = (name ∷ e.0, e.1)

unfoldable mutual
  pub entries_node : Node → List Entry
  entries_node (file body) = ([], some body) ∷ []
  entries_node link = []
  entries_node special = []
  entries_node (folder ns) = ([], none) ∷ entries ns

  pub entries : Nodes → List Entry
  entries nil = []
  entries (cons name n rest) = map (below name) (entries_node n) ++ entries rest

abbrev pub header_of : List Text → Option Body → TarItem
header_of path (some body) = header (arch_name path) reg body
header_of path none = header (dir_name path) dir (whole [])

abbrev pub header_at : List Text → Entry → TarItem
header_at path e = header_of (path ++ e.0) e.1

map-below :
    (path : List Text) (name : Text) (l : List Entry)
    → map (header_at (path ++ name ∷ [])) l ≡ map (header_at path) (map (below name) l)
map-below path name [] = refl
map-below path name ((cs, e) ∷ l) =
    rw (append_assoc path (name ∷ []) cs, map-below path name l) refl

-- An entry whose body is there to its end.
abbrev pub is_whole : TarItem → Bool
is_whole (header name flag (whole d)) = true
is_whole (header name flag (broken d)) = false
is_whole bad_header = false

-- A step that went well has written these entries, whole.
abbrev Wrote : Writer → Writer × Bool → List TarItem → Type 0
Wrote w r l = r.1 ≡ true → (r.0.items ≡ w.items ++ l) × (all is_whole l ≡ true)

Wrote-then :
    (w : Writer) (m : Writer × Bool) (k : Writer → Writer × Bool) (l l' : List TarItem)
    → Wrote w m l
    → ((w' : Writer) → Wrote w' (k w') l')
    → Wrote w (m then_do k) (l ++ l')
Wrote-then w (w', true) k l l' f g h = (
  (g w' h).0 ∙ ap (λ (x : List TarItem). x ++ l') ((f refl).0) ∙ append_assoc w.items l l',
  ground (arith, all-append is_whole l l', (f refl).1, (g w' h).1),
)
Wrote-then w (w', false) k l l' f g h = cc

items-call : (w : Writer) → (call w).0.items ≡ w.items
unfolding call
items-call w = ground arith

Wrote-call : (w : Writer) → Wrote w (call w) []
Wrote-call w h = (items-call w ∙ sym (append-nil w.items), refl)

call-Wrote :
    (w : Writer) (k : Writer → Writer × Bool) (l : List TarItem)
    → ((w' : Writer) → Wrote w' (k w') l)
    → Wrote w (call w then_do k) l
call-Wrote w k l f = Wrote-then w (call w) k [] l (Wrote-call w) f

copy_file-Wrote :
    (name : Text) (body : Body) (w : Writer)
    → Wrote w (copy_file name body w) (header name reg body ∷ [])
unfolding copy_file put
copy_file-Wrote name (whole d) w h = ground (arith, items-call w, items-call (call w).0)
copy_file-Wrote name (broken d) w h = ground (arith, items-call w, items-call (call w).0)

Wrote-put :
    (item : TarItem) (w : Writer) (r : Writer × Bool) (l : List TarItem)
    → is_whole item ≡ true
    → Wrote (put item w) r l
    → Wrote w r (item ∷ l)
unfolding put
Wrote-put item w r l b f h =
    ((f h).0 ∙ append_assoc w.items (item ∷ []) l, ground (arith, b, (f h).1))

mutual
  unfolding walk_node entries_node put

  walk_node-Wrote :
      (path : List Text) (n : Node) (w : Writer)
      → Wrote w (walk_node path n w) (map (header_at path) (entries_node n))
  walk_node-Wrote path (file body) w = rw (append-nil path) (
      call-Wrote w (λ w. call w then_do λ w. copy_file (arch_name path) body w) _
        λ w.
          call-Wrote w (λ w. copy_file (arch_name path) body w) _
            λ w. copy_file-Wrote (arch_name path) body w)
  walk_node-Wrote path link w = Wrote-call w
  walk_node-Wrote path special w = Wrote-call w
  walk_node-Wrote path (folder ns) w =
      let item : TarItem = header (dir_name path) dir (whole []) in
      let inside : Writer → Writer × Bool =
        λ w. call (put item w) then_do λ w. walk_nodes path ns w in
      rw (append-nil path) (
        call-Wrote w (λ w. call w then_do inside) _
          λ w. call-Wrote w inside _ λ w.
            Wrote-put item w (inside w) (map (header_at path) (entries ns)) refl (
              call-Wrote (put item w) (λ w. walk_nodes path ns w) _
                λ w. walk_nodes-Wrote path ns w))

  walk_nodes-Wrote :
      (path : List Text) (ns : Nodes) (w : Writer)
      → Wrote w (walk_nodes path ns w) (map (header_at path) (entries ns))
  walk_nodes-Wrote path nil w = λ h. (sym (append-nil w.items), refl)
  walk_nodes-Wrote path (cons name n rest) w =
      rw (map-append (header_at path) (map (below name) (entries_node n)) (entries rest)) (
        Wrote-then w (walk_node (path ++ name ∷ []) n w) (λ w. walk_nodes path rest w) _ _
          (rw (map-below path name (entries_node n)) at (walk_node-Wrote (path ++ name ∷ []) n w))
          λ w. walk_nodes-Wrote path rest w)

-- A walk that goes well, from a directory that is given directly, has written just its entries,
-- each whole.
pub write_dir_as_tar-entries :
    (ns : Nodes) (w : Writer)
    → (write_dir_as_tar (direct (folder ns)) w).1 ≡ true
    → ((write_dir_as_tar (direct (folder ns)) w).0.items
        ≡ w.items ++ map (header_at []) (entries ns))
      × (all is_whole (map (header_at []) (entries ns)) ≡ true)
unfolding write_dir_as_tar walk_source is_dir walk_root
write_dir_as_tar-entries ns w =
    let inside : Writer → Writer × Bool = λ w. walk_nodes [] ns w in
    call-Wrote w (λ w. call w then_do λ w. call w then_do inside) _
      λ w.
        call-Wrote w (λ w. call w then_do inside) _
          λ w. call-Wrote w inside _ λ w. walk_nodes-Wrote [] ns w
