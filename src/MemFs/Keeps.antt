-- ===== src/MemFs/Keeps.antt =====
-- What unpackTar keeps: a property of the tree that adding a directory and a file keep.
use crate_html.Prelude.{
  ℕ, ◌+◌, ◌≡◌, false, List, [], ◌∷◌, Text, text_eq, ◌==◌, Result, ok, err, ◌>>=◌, length,
  Bool-cases, Option-cases, inl, inr, arith,
}
use mathlib.Core.Path.{subst}
use crate_html.TarPath.{CleanPath, path_eq, here}
use crate_html.MemFs.{
  Typeflag, dir, reg, link, special, Body, TarItem, header, bad_header, UnpackError, copy_limited,
  is_over, MemFs, new_fs, add_dir, add_file, entry_path, unpack_file, unpack_flag, unpack_item,
  unpack_from, sort_dirs, Unpacked, summary, unpack_tar,
}

module _ (P : MemFs → Type 0) (keep_dir : (q : CleanPath) (m : MemFs) → P m → P (add_dir q m))
    (keep_file : (q : CleanPath) (d : Text) (m : MemFs)
      → (q == here) ≡ false
      → P m
      → P (add_file q d m)) where
  -- What every round keeps.
  Keeps : Result UnpackError (MemFs × ℕ) → Type 0
  Keeps (err e) = Unit
  Keeps (ok r) = P r.0

  unpack_flag-Keeps :
      (limit : ℕ) (flag : Typeflag) (p : CleanPath) (body : Body) (m : MemFs) (written : ℕ)
      → (p == here) ≡ false
      → P m
      → Keeps (unpack_flag limit flag p body m written)
  unfolding unpack_flag unpack_file Keeps
  unpack_flag-Keeps limit dir p body m written n t = keep_dir p m t
  unpack_flag-Keeps limit reg p body m written n t =
      elim (Bool-cases (copy_limited limit written body).1) [
        | inl ended ↦
            elim (Bool-cases
              (is_over limit (written + length (copy_limited limit written body).0))) [
                | inl over ↦ rw (ended, over) tt
                | inr fits ↦
                    rw (ended, fits) (keep_file p (copy_limited limit written body).0 m n t)
              ]
        | inr failed ↦ rw failed tt
      ]
  unpack_flag-Keeps limit link p body m written n t = t
  unpack_flag-Keeps limit special p body m written n t = t

  unpack_item-Keeps :
      (limit : ℕ) (item : TarItem) (m : MemFs) (written : ℕ)
      → P m
      → Keeps (unpack_item limit item m written)
  unfolding unpack_item Keeps
  unpack_item-Keeps limit bad_header m written t = tt
  unpack_item-Keeps limit (header name flag body) m written t =
      elim (Option-cases (entry_path name)) [
        | inl bad ↦ rw (Keeps, bad) tt
        | inr (p, e) ↦ elim (Bool-cases (p == here)) [
          | inl skip ↦ rw (Keeps, e, skip) t
          | inr n ↦ rw (Keeps, e, n) (unpack_flag-Keeps limit flag p body m written n t)
        ]
      ]

  unpack_from-Keeps :
      (limit : ℕ) (items : List TarItem) (m : MemFs) (written : ℕ)
      → P m
      → Keeps (unpack_from limit items m written)
  unfolding unpack_from Keeps
  unpack_from-Keeps limit [] m written t = t
  unpack_from-Keeps limit (item ∷ items) m written t =
      again (λ r k. unpack_from-Keeps limit items r.0 r.1 k) (unpack_item limit item m written)
        (unpack_item-Keeps limit item m written t)
    where
      again :
          ((r : MemFs × ℕ) → P r.0 → Keeps (unpack_from limit items r.0 r.1))
          → (o : Result UnpackError (MemFs × ℕ)) → Keeps o
          → Keeps (o >>= λ r. unpack_from limit items r.0 r.1)
      again ih (err e) k = tt
      again ih (ok r) k = ih r k

  -- What holds of the empty site and is kept by sorting holds of what unpackTar gives.
  pub unpack_tar-keeps :
      (now limit : ℕ) (items : List TarItem) (u : Unpacked)
      → P (new_fs now)
      → ((m : MemFs) → P m → P (sort_dirs m))
      → unpack_tar now limit items ≡ ok u
      → P u.fsys
  unfolding unpack_tar summary Keeps
  unpack_tar-keeps now limit items u new sorted h =
      go (unpack_from limit items (new_fs now) 0) (unpack_from-Keeps limit items (new_fs now) 0 new)
        h
    where
      go :
          (o : Result UnpackError (MemFs × ℕ))
          → Keeps o
          → (o >>= λ r. ok (summary r)) ≡ ok u
          → P u.fsys
      go (err e) k l = ground arith
      go (ok r) k l =
          subst (λ (x : Unpacked). P x.fsys) {x = summary r} {y = u} (ground arith) (sorted r.0 k)
