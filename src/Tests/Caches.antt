-- ===== src/Tests/Caches.antt =====
-- A cache of 100 bytes, with sites that are numbers.
use crate_html.Prelude.{
  ℕ, ◌≡◌, ◌≤◌, ◌<◌, refl, none, some, ◌∷◌, text_beq, text_eq, codes, lookup, insert, delete, arith,
}
use crate_html.Cache.{
  key_eq, key_beq, Cache, new_cache, unlink, move_to_front, back, evict, get, shrink, push_front,
  put, drop_all, drop_all_from,
}
use crate_html.Cache.Invariant.{IsValid}
use crate_html.Cache.Shrink.{IsCut}
use crate_html.Cache.Methods
use crate_html.Cache.Methods.{key_of}
use crate_html.Cache.Reads

program : Unit {0}
unfolding text_beq key_beq lookup insert delete new_cache unlink move_to_front back evict get shrink
    push_front put drop_all drop_all_from
program = tt

abbrev empty : Cache ℕ
empty = new_cache 100

abbrev one : Cache ℕ
one = put empty (codes "a") (codes "1") 7 60

abbrev two : Cache ℕ
two = put one (codes "b") (codes "1") 8 30

empty-IsValid : IsValid empty
empty-IsValid = Methods.new_cache-IsValid 100

one-IsValid : IsValid one
one-IsValid = Methods.put-IsValid {c = empty} (codes "a") (codes "1") 7 60 empty-IsValid

put-IsValid_example : IsValid one
put-IsValid_example = Methods.put-IsValid {c = empty} (codes "a") (codes "1") 7 60 empty-IsValid

two-IsValid : IsValid two
two-IsValid = Methods.put-IsValid {c = one} (codes "b") (codes "1") 8 30 one-IsValid

absent : lookup (key_of (codes "c") (codes "1")) two.items ≡ none
unfolding program
absent = refl

some_room : 0 < two.max_bytes
unfolding program
some_room = omega arith

fits : 50 ≤ two.max_bytes
unfolding program
fits = omega arith

put-IsCut_example :
    (n : ℕ) × (1 ≤ n)
    × IsCut two.max_bytes n
        (record { key = key_of (codes "c") (codes "1"); fsys = 9; bytes = 50 } ∷ two.ll)
        (put two (codes "c") (codes "1") 9 50).ll
put-IsCut_example =
    Methods.put-IsCut two (codes "c") (codes "1") 9 50 two-IsValid some_room fits absent

get-put_example :
    (get (put two (codes "c") (codes "1") 9 50) (codes "c") (codes "1")).1
    ≡ some (Reads.stored (lookup (key_of (codes "c") (codes "1")) two.items) 9)
get-put_example = Reads.get-put two (codes "c") (codes "1") 9 50 two-IsValid some_room fits

-- The oldest site makes room; after a read of it the other one does.
evicted : (get (put two (codes "c") (codes "1") 9 50) (codes "a") (codes "1")).1 ≡ none
unfolding program
evicted = refl

spared :
    (get
      (put (get two (codes "a") (codes "1")).0 (codes "c") (codes "1") 9 40)
      (codes "a")
      (codes "1")).1
    ≡ some 7
unfolding program
spared = refl
