-- ===== src/Pack/Unpacking.antt =====
-- A directory that is packed and unpacked again, in memory.
use crate_html.Prelude.{
  ℕ, ◌+◌, ◌≡◌, refl, none, some, List, [], ◌∷◌, ◌++◌, map, Text, text_eq, arith,
}
use crate_html.TarPath.{path_eq}
use crate_html.MemFs.{MemFs}
use crate_html.Pack.{Node, file, link, special, folder, Nodes, nil, cons}
use crate_html.Pack.Walk.{Entry, below, entries_node, entries}
use crate_html.Pack.Tree.{size_of, size_node, size, parts_eq}

-- What the entries weigh.
abbrev weight : List Entry → ℕ
weight [] = 0
weight ((path, none) ∷ l) = weight l
weight ((path, some b) ∷ l) = size_of b + weight l

weight-append : (l l' : List Entry) → weight (l ++ l') ≡ weight l + weight l'
weight-append [] l' = omega arith
weight-append ((path, none) ∷ l) l' = weight-append l l'
weight-append ((path, some b) ∷ l) l' = omega (arith, weight-append l l')

weight-below : (name : Text) (l : List Entry) → weight (map (below name) l) ≡ weight l
weight-below name [] = refl
weight-below name ((path, none) ∷ l) = weight-below name l
weight-below name ((path, some b) ∷ l) = omega (arith, weight-below name l)

mutual
  unfolding entries_node size_node

  weight-entries_node : (n : Node) → weight (entries_node n) ≡ size_node n
  weight-entries_node (file body) = omega arith
  weight-entries_node link = refl
  weight-entries_node special = refl
  weight-entries_node (folder ns) = weight-entries ns

  weight-entries : (ns : Nodes) → weight (entries ns) ≡ size ns
  weight-entries nil = refl
  weight-entries (cons name n rest) = omega (
    arith,
    weight-append (map (below name) (entries_node n)) (entries rest),
    weight-below name (entries_node n),
    weight-entries_node n,
    weight-entries rest,
  )
