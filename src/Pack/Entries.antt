-- ===== src/Pack/Entries.antt =====
-- The entries of a packed directory, and the paths at which they are unpacked.
use crate_html.Prelude.{
  ◌≡◌, refl, sym, ap, ◌∙◌, Bool, true, false, Option, none, some, List, [], ◌∷◌, ◌++◌, map, Text,
  text_eq, ◌==◌, if◌then◌else◌, arith, all, All, is_empty, Bool-cases, inl, inr,
}
use crate_html.TarPath.{CleanPath, path_eq, path_beq_iff, parts_beq_iff, here}
use crate_html.TarPath.Components.{onto}
use crate_html.MemFs.{reg, whole, broken, entry_path}
use crate_html.MemFs.Bounds.{first_body, first_file}
use crate_html.Pack.{Node, file, link, special, folder, Nodes, nil, cons, arch_name, dir_name}
use crate_html.Pack.Names.{
  is_name, path_of, entry_path-arch_name, entry_path-dir_name, path_of-ne-here, onto_twice,
}
use crate_html.Pack.Walk.{Entry, below, entries_node, entries, header_at}
use crate_html.Pack.Tree.{
  is_good_node, is_good, parts_eq, earlier, file_in, good_name, good_head, good_rest,
}

-- A path below the source, made of names.
abbrev pub IsPlaced : Entry → Type 0
IsPlaced e = (all is_name e.0 ≡ true) × (is_empty e.0 ≡ false)

All-append {ℓ κ} :
    {A : Type ℓ} (P : A → Type κ) (l l' : List A) → All P l → All P l' → All P (l ++ l')
All-append P [] l' h k = k
All-append P (a ∷ l) l' h k = (h.0, All-append P l l' h.1 k)

All-below :
    (name : Text) (l : List Entry)
    → is_name name ≡ true
    → All (λ e. all is_name e.0 ≡ true) l
    → All IsPlaced (map (below name) l)
All-below name [] h k = tt
All-below name (e ∷ l) h k = ((ground (arith, h, k.0), refl), All-below name l h k.1)

All-names : (l : List Entry) → All IsPlaced l → All (λ e. all is_name e.0 ≡ true) l
All-names [] h = tt
All-names (e ∷ l) h = (h.0.0, All-names l h.1)

mutual
  unfolding entries_node is_good_node

  entries_node-names :
      (n : Node) → is_good_node n ≡ true → All (λ e. all is_name e.0 ≡ true) (entries_node n)
  entries_node-names (file body) h = (refl, tt)
  entries_node-names link h = tt
  entries_node-names special h = tt
  entries_node-names (folder ns) h = (refl, All-names (entries ns) (entries-IsPlaced ns h))

  pub entries-IsPlaced : (ns : Nodes) → is_good ns ≡ true → All IsPlaced (entries ns)
  entries-IsPlaced nil h = tt
  entries-IsPlaced (cons name n rest) h =
      All-append IsPlaced (map (below name) (entries_node n)) (entries rest)
        (All-below name (entries_node n) (good_name name n rest h)
          (entries_node-names n (good_head name n rest h)))
        (entries-IsPlaced rest (good_rest name n rest h))

-- Two paths are the same exactly when their components are.
path_of-eq : (p q : List Text) → (path_of p == path_of q) ≡ (p == q)
path_of-eq p q = elim (Bool-cases (p == q)) [
  | inl same ↦
      (path_beq_iff (path_of p) (path_of q)).1 (ap path_of ((parts_beq_iff p q).0 same)) ∙ sym same
  | inr other ↦ elim (Bool-cases (path_of p == path_of q)) [
    | inl same ↦
        let e : onto p [] ≡ onto q [] =
          ap CleanPath.parts ((path_beq_iff (path_of p) (path_of q)).0 same) in
        same
        ∙ sym (
            (parts_beq_iff p q).1
              (sym (onto_twice p []) ∙ ap (λ (l : List Text). onto l []) e ∙ onto_twice q []))
    | inr still ↦ still ∙ sym other
  ]
]

pub entry_path-header :
    (e : Entry)
    → IsPlaced e
    → (entry_path (arch_name e.0) ≡ some (path_of e.0))
      × (entry_path (dir_name e.0) ≡ some (path_of e.0))
      × ((path_of e.0 == here) ≡ false)
entry_path-header ([], b) h = cc
entry_path-header (c ∷ cs, b) h =
    (entry_path-arch_name c cs h.0, entry_path-dir_name c cs h.0, path_of-ne-here c cs)

first_body-if :
    (b : Bool) (d : Text) (later : Option Text)
    → first_body reg (whole d) b later ≡ earlier (if b then some d else none) later
first_body-if true d later = refl
first_body-if false d later = refl

-- The first file of the archive at a path is the first among the entries.
pub first_file-entries :
    (cs : List Text) (l : List Entry)
    → All IsPlaced l
    → first_file (path_of cs) (map (header_at []) l) ≡ file_in cs l
unfolding first_file
first_file-entries cs [] h = refl
first_file-entries cs ((path, none) ∷ l) h =
    let (a, b, n) = entry_path-header (path, none) h.0 in
    rw (b, first_file, n) (first_file-entries cs l h.1)
first_file-entries cs ((path, some (broken d)) ∷ l) h =
    let (a, b, n) = entry_path-header (path, some (broken d)) h.0 in
    rw (a, first_file, n) (first_file-entries cs l h.1)
first_file-entries cs ((path, some (whole d)) ∷ l) h =
    let (a, b, n) = entry_path-header (path, some (whole d)) h.0 in
    rw (a, first_file, n, path_of-eq path cs, first_file-entries cs l h.1)
      (first_body-if (path == cs) d (file_in cs l))
