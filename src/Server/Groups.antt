-- ===== src/Server/Groups.antt =====
-- The grouping of the index loses no site, invents none, and groups by the name before the dot.
use crate_html.Prelude.{
  ℕ, ◌≡◌, refl, sym, ap, ◌∙◌, true, ◌||◌, List, [], ◌∷◌, ◌++◌, map, Text, text_eq, text_beq_iff,
  ◌==◌, arith, Bool-cases, inl, inr, All, contains, distinct,
}
use mathlib.Core.Path.{subst}
use mathlib.Core.List.{Perm}
use mathlib.Core.List.Perm
use crate_html.Wire.{Site}
use crate_html.Server.Index.{
  SiteRow, SiteGroup, disk_row, prefix_of, add_to, by_prefix, is_grouped, label_in, group_of,
  group_disk_sites,
}

-- The names of the rows, in the order of the page.
abbrev pub row_names : List SiteRow → List Text
row_names = map (λ (r : SiteRow). r.name)

abbrev pub listed : List SiteGroup → List Text
listed [] = []
listed (g ∷ gs) = row_names g.rows ++ listed gs

abbrev pub names_of : List Site → List Text
names_of = map (λ (s : Site). s.name)

-- A group whose rows have its name in front of their first dot.
abbrev pub IsOwn : SiteGroup → Type 0
IsOwn g = All (λ (n : Text). prefix_of n ≡ g.name) (row_names g.rows)

-- The members of the groups that groupDiskSites gathers first.
members_of : List (Text × List Site) → List Text
members_of [] = []
members_of ((p, ms) ∷ gs) = names_of ms ++ members_of gs

Gathered : Text × List Site → Type 0
Gathered g = All (λ (n : Text). prefix_of n ≡ g.0) (names_of g.1)

keys_of : List (Text × List Site) → List Text
keys_of = map (λ (g : Text × List Site). g.0)

perm_middle : (n : Text) (xs ys : List Text) → Perm (xs ++ n ∷ ys) (n ∷ xs ++ ys)
perm_middle n [] ys = Perm.refl (n ∷ ys)
perm_middle n (x ∷ xs) ys =
    Perm.trans (Perm.cons x (perm_middle n xs ys)) (Perm.swap n x (xs ++ ys))

perm_append : (xs : List Text) {ys zs : List Text} → Perm ys zs → Perm (xs ++ ys) (xs ++ zs)
perm_append [] p = p
perm_append (x ∷ xs) p = Perm.cons x (perm_append xs p)

names_of-append :
    (ms : List Site) (s : Site) (l : List Text)
    → names_of (ms ++ s ∷ []) ++ l ≡ names_of ms ++ s.name ∷ l
names_of-append [] s l = refl
names_of-append (m ∷ ms) s l = ap (◌∷◌ m.name) (names_of-append ms s l)

add_to-perm :
    (p : Text) (s : Site) (gs : List (Text × List Site))
    → Perm (members_of (add_to p s gs)) (s.name ∷ members_of gs)
unfolding add_to members_of
add_to-perm p s [] = Perm.refl (s.name ∷ [])
add_to-perm p s ((q, ms) ∷ gs) = elim (Bool-cases (q == p)) [
  | inl same ↦
      rw (members_of, same, names_of-append ms s (members_of gs))
        (perm_middle s.name (names_of ms) (members_of gs))
  | inr other ↦
      rw (members_of, other)
        (Perm.trans (perm_append (names_of ms) (add_to-perm p s gs))
          (perm_middle s.name (names_of ms) (members_of gs)))
]

by_prefix-perm :
    (sites : List Site) (gs : List (Text × List Site))
    → Perm (members_of (by_prefix sites gs)) (names_of sites ++ members_of gs)
unfolding by_prefix
by_prefix-perm [] gs = Perm.refl (members_of gs)
by_prefix-perm (s ∷ sites) gs = Perm.trans (by_prefix-perm sites (add_to (prefix_of s.name) s gs)) (
    Perm.trans (perm_append (names_of sites) (add_to-perm (prefix_of s.name) s gs))
      (perm_middle s.name (names_of sites) (members_of gs)))

All-snoc :
    (P : Text → Type 0) (ms : List Site) (s : Site)
    → All P (names_of ms)
    → P s.name
    → All P (names_of (ms ++ s ∷ []))
All-snoc P [] s h k = (k, tt)
All-snoc P (m ∷ ms) s h k = (h.0, All-snoc P ms s h.1 k)

add_to-Gathered :
    (s : Site) (gs : List (Text × List Site))
    → All Gathered gs
    → All Gathered (add_to (prefix_of s.name) s gs)
unfolding add_to Gathered
add_to-Gathered s [] h = ((refl, tt), tt)
add_to-Gathered s ((q, ms) ∷ gs) h = elim (Bool-cases (q == prefix_of s.name)) [
  | inl same ↦ rw same (
    All-snoc (λ (n : Text). prefix_of n ≡ q) ms s h.0
        (sym ((text_beq_iff q (prefix_of s.name)).0 same)),
    h.1,
  )
  | inr other ↦ rw other (h.0, add_to-Gathered s gs h.1)
]

by_prefix-Gathered :
    (sites : List Site) (gs : List (Text × List Site))
    → All Gathered gs
    → All Gathered (by_prefix sites gs)
unfolding by_prefix
by_prefix-Gathered [] gs h = h
by_prefix-Gathered (s ∷ sites) gs h =
    by_prefix-Gathered sites (add_to (prefix_of s.name) s gs) (add_to-Gathered s gs h)

contains-add_to :
    (k p : Text) (s : Site) (gs : List (Text × List Site))
    → contains k (keys_of (add_to p s gs)) ≡ (p == k || contains k (keys_of gs))
unfolding add_to keys_of
contains-add_to k p s [] = ground arith
contains-add_to k p s ((q, ms) ∷ gs) =
    ground (arith, contains-add_to k p s gs, text_beq_iff q p, text_beq_iff q k, text_beq_iff p k)

add_to-distinct :
    (p : Text) (s : Site) (gs : List (Text × List Site))
    → distinct (keys_of gs) ≡ true
    → distinct (keys_of (add_to p s gs)) ≡ true
unfolding add_to keys_of
add_to-distinct p s [] h = refl
add_to-distinct p s ((q, ms) ∷ gs) h =
    ground
      (arith, add_to-distinct p s gs, contains-add_to q p s gs, text_beq_iff q p, text_beq_iff p q)

by_prefix-distinct :
    (sites : List Site) (gs : List (Text × List Site))
    → distinct (keys_of gs) ≡ true
    → distinct (keys_of (by_prefix sites gs)) ≡ true
unfolding by_prefix
by_prefix-distinct [] gs h = h
by_prefix-distinct (s ∷ sites) gs h =
    by_prefix-distinct sites (add_to (prefix_of s.name) s gs)
      (add_to-distinct (prefix_of s.name) s gs h)

row_names-group_of :
    (now : ℕ) (g : Text × List Site) → row_names (group_of now g).rows ≡ names_of g.1
unfolding group_of disk_row
row_names-group_of now g = go (λ (s : Site). label_in g.0 (is_grouped g.1) s.name) g.1
  where
    go :
        (label : Site → Text) (ms : List Site)
        → row_names (map (λ (s : Site). disk_row now s (label s)) ms) ≡ names_of ms
    go label [] = refl
    go label (m ∷ ms) = ap (◌∷◌ m.name) (go label ms)

listed-map :
    (now : ℕ) (gs : List (Text × List Site)) → listed (map (group_of now) gs) ≡ members_of gs
unfolding members_of
listed-map now [] = refl
listed-map now (g ∷ gs) =
    ap (λ (l : List Text). l ++ listed (map (group_of now) gs)) (row_names-group_of now g)
    ∙ ap (λ (l : List Text). names_of g.1 ++ l) (listed-map now gs)

IsOwn-map :
    (now : ℕ) (gs : List (Text × List Site)) → All Gathered gs → All IsOwn (map (group_of now) gs)
unfolding Gathered group_of
IsOwn-map now [] h = tt
IsOwn-map now (g ∷ gs) h = (
  subst (All (λ (n : Text). prefix_of n ≡ g.0)) (sym (row_names-group_of now g)) h.0,
  IsOwn-map now gs h.1,
)

group_names :
    (now : ℕ) (gs : List (Text × List Site))
    → map (λ (g : SiteGroup). g.name) (map (group_of now) gs) ≡ keys_of gs
unfolding group_of keys_of
group_names now [] = refl
group_names now (g ∷ gs) = ap (◌∷◌ g.0) (group_names now gs)

append_nil : (l : List Text) → l ++ [] ≡ l
append_nil [] = refl
append_nil (x ∷ l) = ap (◌∷◌ x) (append_nil l)

-- The groups of the index list every stored site that they are given exactly once, no two groups
-- have the same name, and in every group all sites have the group's name in front of their first dot.
pub group_disk_sites_lem :
    (now : ℕ) (sites : List Site)
    → Perm (listed (group_disk_sites now sites)) (names_of sites)
      × (distinct (map (λ (g : SiteGroup). g.name) (group_disk_sites now sites)) ≡ true)
      × All IsOwn (group_disk_sites now sites)
unfolding group_disk_sites members_of keys_of
group_disk_sites_lem now sites =
    let gs = by_prefix sites [] in
    (
      subst (λ (l : List Text). Perm l (names_of sites)) (sym (listed-map now gs))
          (subst (Perm (members_of gs)) (append_nil (names_of sites)) (by_prefix-perm sites [])),
      ap distinct (group_names now gs) ∙ by_prefix-distinct sites [] refl,
      IsOwn-map now gs (by_prefix-Gathered sites [] tt),
    )
