-- ===== src/Pack/Tree.antt =====
-- Which file a directory holds at a path, and the same read from the list of its entries.
use crate_html.Prelude.{
  ℕ, ◌+◌, ◌≡◌, refl, sym, ap, ◌∙◌, Bool, true, false, ◌&&◌, not, Option, none, some, List, [], ◌∷◌,
  ◌++◌, map, Text, Eq, text_eq, text_beq_iff, ◌==◌, if◌then◌else◌, arith, contains, length,
  Bool-cases, inl, inr,
}
use crate_html.TarPath.{parts_beq, parts_beq_iff}
use crate_html.MemFs.{Body, whole, broken}
use crate_html.Pack.{Node, file, link, special, folder, Nodes, nil, cons}
use crate_html.Pack.Names.{is_name}
use crate_html.Pack.Walk.{Entry, below, entries_node, entries}

unfoldable mutual
  -- The bytes of the file at a path.
  pub find_node : List Text → Node → Option Text
  find_node [] (file (whole d)) = some d
  find_node [] (file (broken d)) = none
  find_node (c ∷ cs) (file body) = none
  find_node cs link = none
  find_node cs special = none
  find_node cs (folder ns) = find cs ns

  pub find : List Text → Nodes → Option Text
  find [] ns = none
  find (c ∷ cs) nil = none
  find (c ∷ cs) (cons name n rest) =
      let later = find (c ∷ cs) rest in if name == c then find_node cs n else later

abbrev pub names : Nodes → List Text
names nil = []
names (cons name n rest) = name ∷ names rest

unfoldable mutual
  -- Names that a file system can give, no two of them the same in a directory.
  pub is_good_node : Node → Bool
  is_good_node (file body) = true
  is_good_node link = true
  is_good_node special = true
  is_good_node (folder ns) = is_good ns

  pub is_good : Nodes → Bool
  is_good nil = true
  is_good (cons name n rest) =
      is_name name && not (contains name (names rest)) && is_good_node n && is_good rest

abbrev pub size_of : Body → ℕ
size_of (whole d) = length d
size_of (broken d) = length d

unfoldable mutual
  -- The sizes of all files.
  pub size_node : Node → ℕ
  size_node (file body) = size_of body
  size_node link = 0
  size_node special = 0
  size_node (folder ns) = size ns

  pub size : Nodes → ℕ
  size nil = 0
  size (cons name n rest) = size_node n + size rest

instance abbrev pub parts_eq : Eq (List Text)
parts_eq = record { beq = parts_beq; beq_iff = parts_beq_iff }

abbrev pub earlier : Option Text → Option Text → Option Text
earlier none later = later
earlier (some d) later = some d

-- The body that an entry gives to a path.
abbrev pub body_at : List Text → Entry → Option Text
body_at cs (path, none) = none
body_at cs (path, some (broken d)) = none
body_at cs (path, some (whole d)) = if path == cs then some d else none

abbrev pub file_in : List Text → List Entry → Option Text
file_in cs [] = none
file_in cs (e ∷ l) = earlier (body_at cs e) (file_in cs l)

earlier_assoc : (a b c : Option Text) → earlier (earlier a b) c ≡ earlier a (earlier b c)
earlier_assoc none b c = refl
earlier_assoc (some d) b c = refl

earlier-none : (a : Option Text) → earlier a none ≡ a
earlier-none none = refl
earlier-none (some d) = refl

file_in-append :
    (cs : List Text) (l l' : List Entry)
    → file_in cs (l ++ l') ≡ earlier (file_in cs l) (file_in cs l')
file_in-append cs [] l' = refl
file_in-append cs (e ∷ l) l' =
    ap (earlier (body_at cs e)) (file_in-append cs l l')
    ∙ sym (earlier_assoc (body_at cs e) (file_in cs l) (file_in cs l'))

body_at-below :
    (name c : Text) (cs : List Text) (e : Entry)
    → body_at (c ∷ cs) (below name e) ≡ (if name == c then body_at cs e else none)
unfolding parts_beq
body_at-below name c cs (path, none) = ground arith
body_at-below name c cs (path, some (broken d)) = ground arith
body_at-below name c cs (path, some (whole d)) = ground arith

file_in-below :
    (name c : Text) (cs : List Text) (l : List Entry)
    → file_in (c ∷ cs) (map (below name) l) ≡ (if name == c then file_in cs l else none)
file_in-below name c cs [] = ground arith
file_in-below name c cs (e ∷ l) =
    rw (body_at-below name c cs e, file_in-below name c cs l) (ground arith)

file_in_root : (name : Text) (l : List Entry) → file_in [] (map (below name) l) ≡ none
unfolding parts_beq
file_in_root name [] = refl
file_in_root name ((path, none) ∷ l) = file_in_root name l
file_in_root name ((path, some (broken d)) ∷ l) = file_in_root name l
file_in_root name ((path, some (whole d)) ∷ l) = file_in_root name l

find-none :
    (c : Text) (cs : List Text) (ns : Nodes)
    → contains c (names ns) ≡ false
    → find (c ∷ cs) ns ≡ none
unfolding find
find-none c cs nil h = refl
find-none c cs (cons name n rest) h = ground (arith, find-none c cs rest)

find_root : (ns : Nodes) → find [] ns ≡ none
unfolding find
find_root nil = refl
find_root (cons name n rest) = refl

module _ (name : Text) (n : Node) (rest : Nodes) (h : is_good (cons name n rest) ≡ true) where
  pub good_name : is_name name ≡ true
  unfolding is_good
  good_name = ground arith

  good_fresh : contains name (names rest) ≡ false
  unfolding is_good
  good_fresh = ground arith

  pub good_head : is_good_node n ≡ true
  unfolding is_good
  good_head = ground arith

  pub good_rest : is_good rest ≡ true
  unfolding is_good
  good_rest = ground arith

mutual
  unfolding entries_node find_node is_good_node parts_beq

  file_in-entries_node :
      (n : Node) (cs : List Text)
      → is_good_node n ≡ true
      → file_in cs (entries_node n) ≡ find_node cs n
  file_in-entries_node (file (whole d)) [] h = refl
  file_in-entries_node (file (whole d)) (c ∷ cs) h = refl
  file_in-entries_node (file (broken d)) [] h = refl
  file_in-entries_node (file (broken d)) (c ∷ cs) h = refl
  file_in-entries_node link cs h = refl
  file_in-entries_node special cs h = refl
  file_in-entries_node (folder ns) cs h = file_in-entries ns cs h

  -- In a directory with distinct names, the entries give each path its file.
  pub file_in-entries :
      (ns : Nodes) (cs : List Text) → is_good ns ≡ true → file_in cs (entries ns) ≡ find cs ns
  file_in-entries nil [] h = refl
  file_in-entries nil (c ∷ cs) h = refl
  file_in-entries (cons name n rest) [] h =
      file_in-append [] (map (below name) (entries_node n)) (entries rest)
      ∙ ap (λ (o : Option Text). earlier o (file_in [] (entries rest)))
          (file_in_root name (entries_node n))
      ∙ file_in-entries rest [] (good_rest name n rest h)
      ∙ find_root rest
  file_in-entries (cons name n rest) (c ∷ cs) h =
      file_in-append (c ∷ cs) (map (below name) (entries_node n)) (entries rest)
      ∙ ap (λ (o : Option Text). earlier o (file_in (c ∷ cs) (entries rest)))
          (file_in-below name c cs (entries_node n))
      ∙ elim (Bool-cases (name == c)) [
        | inl same ↦
            let e = (text_beq_iff name c).0 same in
            let gone : find (c ∷ cs) rest ≡ none =
              find-none c cs rest
                (ap (λ (x : Text). contains x (names rest)) (sym e) ∙ good_fresh name n rest h) in
            rw same (
              ap (earlier (file_in cs (entries_node n)))
                (file_in-entries rest (c ∷ cs) (good_rest name n rest h) ∙ gone)
              ∙ earlier-none (file_in cs (entries_node n))
              ∙ file_in-entries_node n cs (good_head name n rest h))
        | inr other ↦ rw other (file_in-entries rest (c ∷ cs) (good_rest name n rest h))
      ]
