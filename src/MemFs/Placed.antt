-- ===== src/MemFs/Placed.antt =====
-- The tree that addDir builds: every file and every directory is listed in its parent, which is a
-- known directory.
use crate_html.Prelude.{
  ◌≡◌, refl, Bool, true, false, ◌&&◌, ◌||◌, some, List, [], ◌∷◌, ◌++◌, Text, text_eq, text_beq_iff,
  ◌==◌, lookup, lookup-insert, contains, arith, Bool-cases, inl, inr, ap, eq_refl,
}
use crate_html.TarPath.{CleanPath, path_eq, path_beq_iff, here, dir_of, base_of}
use crate_html.MemFs.{MemFs, kids_of, add_kid, mark_dir, add_dir_from, add_dir}

-- The path stands in its parent's listing.
abbrev pub is_listed : CleanPath → MemFs → Bool
is_listed p m = contains (base_of p) (kids_of (dir_of p) m.kids)

-- A file or directory with its place in the tree, where `q` counts as a known directory.
abbrev pub is_placed : CleanPath → CleanPath → MemFs → Bool
is_placed q p m = is_listed p m && (contains (dir_of p) m.is_dir || q == dir_of p)

-- The invariant of addDir's loop, whose next directory is `q`.
pub record IsTreeBut (q : CleanPath) (m : MemFs) : Type 0 where
  pub root : contains here m.is_dir ≡ true
  pub dirs :
      (p : CleanPath) → contains p m.is_dir ≡ true → (p == here) ≡ false → is_placed q p m ≡ true
  pub files : (p : CleanPath) (d : Text) → lookup p m.files ≡ some d → is_placed q p m ≡ true

pub record IsTree (m : MemFs) : Type 0 where
  pub root : contains here m.is_dir ≡ true
  pub dirs :
      (p : CleanPath)
      → contains p m.is_dir ≡ true
      → (p == here) ≡ false
      → (is_listed p m && contains (dir_of p) m.is_dir) ≡ true
  pub files :
      (p : CleanPath) (d : Text)
      → lookup p m.files ≡ some d
      → (is_listed p m && contains (dir_of p) m.is_dir) ≡ true

pub contains-append :
    (n b : Text) (l : List Text) → contains b (l ++ n ∷ []) ≡ (contains b l || n == b)
contains-append n b [] = ground arith
contains-append n b (c ∷ l) = ground (arith, contains-append n b l)

-- A new name in one listing: what was listed stays listed.
pub is_listed-add_kid :
    (k : CleanPath) (n : Text) (p : CleanPath) (m : MemFs)
    → is_listed p (add_kid k n m) ≡ (is_listed p m || (k == dir_of p && n == base_of p))
unfolding add_kid
is_listed-add_kid k n p m = ground (
  arith,
  lookup-insert k (dir_of p) (kids_of k m.kids ++ n ∷ []) m.kids,
  contains-append n (base_of p) (kids_of k m.kids),
  path_beq_iff k (dir_of p),
)

pub contains_same :
    (p q : CleanPath) (l : List CleanPath) → (p == q) ≡ true → contains p l ≡ contains q l
contains_same p q l h = ap (λ (x : CleanPath). contains x l) ((path_beq_iff p q).0 h)

-- Marking `q` leaves its parent as the next directory.
pub mark_dir-IsTreeBut :
    (q : CleanPath) (m : MemFs) → IsTreeBut q m → IsTreeBut (dir_of q) (mark_dir q m)
unfolding mark_dir
mark_dir-IsTreeBut q m t =
    let m' : MemFs = record m { is_dir = q ∷ m.is_dir } in
    record {
      root = ground (arith, t.root);
      dirs = λ p h n. ground (
        arith,
        t.dirs p,
        is_listed-add_kid (dir_of q) (base_of q) p m',
        path_beq_iff q p,
        h,
        n,
        path_beq_iff (dir_of q) (dir_of p),
        text_beq_iff (base_of q) (base_of p),
      );
      files =
          λ p d h. ground (arith, t.files p d, is_listed-add_kid (dir_of q) (base_of q) p m', h);
    }

pub IsTreeBut-IsTree :
    (q : CleanPath) (m : MemFs) → contains q m.is_dir ≡ true → IsTreeBut q m → IsTree m
IsTreeBut-IsTree q m k t = record {
  root = t.root;
  dirs = λ p h n. ground (arith, t.dirs p h n, contains_same q (dir_of p) m.is_dir, k);
  files = λ p d h. ground (arith, t.files p d h, contains_same q (dir_of p) m.is_dir, k);
}

-- What addDir achieves: a tree in which the directory is known, with all that was known before.
pub record Added (q : CleanPath) (m m' : MemFs) : Type 0 where
  pub tree : IsTree m'
  pub known : contains q m'.is_dir ≡ true
  pub more : (p : CleanPath) → contains p m.is_dir ≡ true → contains p m'.is_dir ≡ true

pub Added-known :
    (q : CleanPath) (m : MemFs) → contains q m.is_dir ≡ true → IsTreeBut q m → Added q m m
Added-known q m k t = record { tree = IsTreeBut-IsTree q m k t; known = k; more = λ p h. h }

pub is_dir-mark_dir :
    (q p : CleanPath) (m : MemFs)
    → contains p (mark_dir q m).is_dir ≡ (q == p || contains p m.is_dir)
unfolding mark_dir
is_dir-mark_dir q p m = refl

pub Added-mark : (q r : CleanPath) (m m' : MemFs) → Added r (mark_dir q m) m' → Added q m m'
Added-mark q r m m' a = record {
  tree = a.tree;
  known = a.more q (ground (arith, is_dir-mark_dir q q m, eq_refl q));
  more = λ p h. a.more p (ground (arith, is_dir-mark_dir q p m, h));
}

pub add_dir_from-Added :
    (rooted : Bool) (ps : List Text) (m : MemFs)
    → IsTreeBut (record { rooted = rooted; parts = ps }) m
    → Added (record { rooted = rooted; parts = ps }) m (add_dir_from rooted ps m)
unfolding add_dir_from
add_dir_from-Added false [] m t = Added-known here m t.root t
add_dir_from-Added true [] m t =
    let root : CleanPath = record { rooted = true; parts = [] } in
    elim (Bool-cases (contains root m.is_dir)) [
      | inl known ↦ rw known (Added-known root m known t)
      | inr new ↦ rw new (
          Added-mark root root m (mark_dir root m) (
            Added-known root (mark_dir root m)
              (ground (arith, is_dir-mark_dir root root m, eq_refl root))
              (mark_dir-IsTreeBut root m t)))
    ]
add_dir_from-Added rooted (b ∷ ps) m t =
    let q : CleanPath = record { rooted = rooted; parts = b ∷ ps } in
    elim (Bool-cases (contains q m.is_dir)) [
      | inl known ↦ rw known (Added-known q m known t)
      | inr new ↦ rw new (
          Added-mark q (dir_of q) m (add_dir_from rooted ps (mark_dir q m))
            (add_dir_from-Added rooted ps (mark_dir q m) (mark_dir-IsTreeBut q m t)))
    ]

pub add_dir-Added : (q : CleanPath) (m : MemFs) → IsTreeBut q m → Added q m (add_dir q m)
unfolding add_dir
add_dir-Added q m t = add_dir_from-Added q.rooted q.parts m t

pub IsTree-IsTreeBut : (q : CleanPath) (m : MemFs) → IsTree m → IsTreeBut q m
IsTree-IsTreeBut q m t = record {
  root = t.root;
  dirs = λ p h n. ground (arith, t.dirs p h n);
  files = λ p d h. ground (arith, t.files p d h);
}

pub add_dir-IsTree : (q : CleanPath) (m : MemFs) → IsTree m → IsTree (add_dir q m)
add_dir-IsTree q m t = (add_dir-Added q m (IsTree-IsTreeBut q m t)).tree
